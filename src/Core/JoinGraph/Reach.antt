-- ===== src/Core/JoinGraph/Reach.antt =====
-- The breadth-first search of `find_path` misses no path.
use graphnight.Base.{
  ℕ, zero, suc, ◌≡◌, ◌≢◌, ◌⊎◌, refl, sym, ◌∙◌, subst, String, true, false, List, [], ◌∷◌, ◌++◌,
  contains, length, Listed, contains→Listed, All, All-map, Any, here, there, Bool-cases, inl, inr,
  ◌==◌, eq_iff,
}
use graphnight.Core.JoinGraph.{
  JoinEdge, JoinGraph, Frontier, Found, found, missing, out_of_fuel, adjacent, offer, offer_all,
  search, find_path,
}
use graphnight.Core.JoinGraph.Paths.{IsPath, Sound, find_path-Sound, find_path-differ}

abbrev waiting : List (String × List JoinEdge) → List String
waiting [] = []
waiting ((current, path) ∷ queue) = current ∷ waiting queue

waiting-append_left :
    (queue more : List (String × List JoinEdge)) (v : String)
    → Listed v (waiting queue)
    → Listed v (waiting (queue ++ more))
waiting-append_left [] more v m = elim m [ ]
waiting-append_left (item ∷ queue) more v (here p) = here p
waiting-append_left (item ∷ queue) more v (there m) = there (waiting-append_left queue more v m)

waiting-append_right :
    (queue : List (String × List JoinEdge)) (item : String × List JoinEdge)
    → Listed item.0 (waiting (queue ++ item ∷ []))
waiting-append_right [] item = here refl
waiting-append_right (other ∷ queue) item = there (waiting-append_right queue item)

module _ (graph : JoinGraph) (to : String) where
  -- A model that is done with: not the target, and all its neighbours are visited.
  abbrev Done : List String → String → Type 0
  Done visited v = (v ≢ to) × All (λ e. Listed e.target_model visited) (adjacent graph v)

  abbrev Settled : Frontier → Type 0
  Settled s = (v : String) → Listed v s.visited → Listed v (waiting s.queue) ⊎ Done s.visited v

  -- The same while the edges of a model are offered.
  abbrev Settling : String → Frontier → Type 0
  Settling current s =
      (v : String)
      → Listed v s.visited
      → (v ≡ current) ⊎ (Listed v (waiting s.queue) ⊎ Done s.visited v)

  Done-cons : (t v : String) (visited : List String) → Done visited v → Done (t ∷ visited) v
  Done-cons t v visited (n, h) = (
    n,
    All-map (λ e. Listed e.target_model visited) (λ e. Listed e.target_model (t ∷ visited))
        (λ e m. there m) (adjacent graph v) h,
  )

  abbrev pushed : List JoinEdge → JoinEdge → Frontier → Frontier
  pushed path edge s = record {
    visited = edge.target_model ∷ s.visited;
    queue = s.queue ++ (edge.target_model, path ++ edge ∷ []) ∷ [];
  }

  pushed-Settling :
      (current : String) (path : List JoinEdge) (edge : JoinEdge) (s : Frontier)
      → Settling current s
      → Settling current (pushed path edge s)
  pushed-Settling current path edge s h v (here p) = inr (
      inl (
        subst (λ x. Listed x (waiting (s.queue ++ (edge.target_model, path ++ edge ∷ []) ∷ []))) p
          (waiting-append_right s.queue (edge.target_model, path ++ edge ∷ []))))
  pushed-Settling current path edge s h v (there m) = elim (h v m) [
    | inl e ↦ inl e
    | inr (inl w) ↦ inr (inl (waiting-append_left s.queue _ v w))
    | inr (inr d) ↦ inr (inr (Done-cons edge.target_model v s.visited d))
  ]

  offer-Settling :
      (current : String) (path : List JoinEdge) (edge : JoinEdge) (s : Frontier)
      → Settling current s
      → Settling current (offer path edge s)
  unfolding offer
  offer-Settling current path edge s h = elim (Bool-cases (contains s.visited edge.target_model)) [
    | inl e ↦ rw (offer, e) h
    | inr e ↦ rw (offer, e) (pushed-Settling current path edge s h)
  ]

  offer_mono :
      (path : List JoinEdge) (edge : JoinEdge) (s : Frontier) (v : String)
      → Listed v s.visited
      → Listed v (offer path edge s).visited
  unfolding offer
  offer_mono path edge s v m = elim (Bool-cases (contains s.visited edge.target_model)) [
    | inl e ↦ rw (offer, e) m
    | inr e ↦ rw (offer, e) (there m)
  ]

  offer-target :
      (path : List JoinEdge) (edge : JoinEdge) (s : Frontier)
      → Listed edge.target_model (offer path edge s).visited
  unfolding offer
  offer-target path edge s = elim (Bool-cases (contains s.visited edge.target_model)) [
    | inl e ↦ rw (offer, e) (contains→Listed s.visited edge.target_model e)
    | inr e ↦ rw (offer, e) (here refl)
  ]

  offer_all_mono :
      (path edges : List JoinEdge) (s : Frontier) (v : String)
      → Listed v s.visited
      → Listed v (offer_all path edges s).visited
  unfolding offer_all
  offer_all_mono path [] s v m = m
  offer_all_mono path (edge ∷ edges) s v m =
      offer_all_mono path edges (offer path edge s) v (offer_mono path edge s v m)

  offer_all-targets :
      (path edges : List JoinEdge) (s : Frontier)
      → All (λ e. Listed e.target_model (offer_all path edges s).visited) edges
  unfolding offer_all
  offer_all-targets path [] s = tt
  offer_all-targets path (edge ∷ edges) s = (
    offer_all_mono path edges (offer path edge s) edge.target_model (offer-target path edge s),
    offer_all-targets path edges (offer path edge s),
  )

  offer_all-Settling :
      (current : String) (path edges : List JoinEdge) (s : Frontier)
      → Settling current s
      → Settling current (offer_all path edges s)
  unfolding offer_all
  offer_all-Settling current path [] s h = h
  offer_all-Settling current path (edge ∷ edges) s h =
      offer_all-Settling current path edges (offer path edge s)
        (offer-Settling current path edge s h)

  -- A set of models that is closed under the edges and lacks the target.
  abbrev Closed : List String → Type 0
  Closed w = (v : String) → Listed v w → Done w v

  step-Settled :
      (current : String) (path : List JoinEdge) (visited : List String)
      (queue : List (String × List JoinEdge))
      → current ≢ to
      → Settled (record { visited = visited; queue = (current, path) ∷ queue })
      → Settled
          (offer_all path (adjacent graph current) (record { visited = visited; queue = queue }))
  step-Settled current path visited queue n h v m =
      let s : Frontier = record { visited = visited; queue = queue } in
      elim (offer_all-Settling current path (adjacent graph current) s (opened h) v m) [
        | inl e ↦ inr (
            subst (Done (offer_all path (adjacent graph current) s).visited) (sym e)
              (n, offer_all-targets path (adjacent graph current) s))
        | inr r ↦ r
      ]
    where
      opened :
          Settled (record { visited = visited; queue = (current, path) ∷ queue })
          → Settling current (record { visited = visited; queue = queue })
      opened h v m = first v (h v m)
        where
          first :
              (v : String)
              → Listed v (current ∷ waiting queue) ⊎ Done visited v
              → (v ≡ current) ⊎ (Listed v (waiting queue) ⊎ Done visited v)
          first v (inl (here p)) = inl (sym p)
          first v (inl (there m)) = inr (inl m)
          first v (inr d) = inr (inr d)

  search-Closed :
      (fuel : ℕ) (visited : List String) (queue : List (String × List JoinEdge))
      → Settled (record { visited = visited; queue = queue })
      → search graph to fuel visited queue ≡ missing
      → (w : List String) × ((v : String) → Listed v visited → Listed v w) × Closed w
  unfolding search
  search-Closed fuel visited [] h e =
      (visited, (λ v m. m), λ v m. elim (h v m) [ inl w ↦ elim w [ ] | inr d ↦ d ])
  search-Closed zero visited (item ∷ queue) h e = absurd (cc)
  search-Closed (suc fuel) visited ((current, path) ∷ queue) h e =
      let s =
        offer_all path (adjacent graph current) (record { visited = visited; queue = queue }) in
      elim (Bool-cases (current == to)) [
        | inl k ↦ let e' : found path ≡ missing = rw (search, k) at e in absurd (cc)
        | inr k ↦
            let e' : search graph to fuel s.visited s.queue ≡ missing = rw (search, k) at e in
            let (w, mono, closed) =
              search-Closed fuel s.visited s.queue
                (step-Settled current path visited queue (differ k) h) e' in
            (w, (λ v m. mono v (offer_all_mono path (adjacent graph current) _ v m)), closed)
      ]
    where
      differ : (current == to) ≡ false → current ≢ to
      differ k p = let q : current == to ≡ true = (eq_iff current to).1 p in cc

  Closed-IsPath :
      (w : List String)
      → Closed w
      → (path : List JoinEdge) (from : String) → Listed from w
      → ¬ IsPath graph from path to
  Closed-IsPath w h [] from m p = (h from m).0 p
  Closed-IsPath w h (edge ∷ path) from m (a, p) =
      Closed-IsPath w h path edge.target_model (target_in (adjacent graph from) (h from m).1 a) p
    where
      target_in :
          (edges : List JoinEdge)
          → All (λ e. Listed e.target_model w) edges
          → Any (λ e. e ≡ edge) edges
          → Listed edge.target_model w
      target_in [] h a = elim a [ ]
      target_in (e ∷ edges) (l, h) (here q) = subst (λ x. Listed x.target_model w) q l
      target_in (e ∷ edges) (l, h) (there a) = target_in edges h a

  -- What an answer of the search means. Running out of fuel is no answer.
  abbrev pub Answer : String → Found → Type 0
  Answer from (found path) = IsPath graph from path to
  Answer from missing = (path : List JoinEdge) → ¬ IsPath graph from path to
  Answer from out_of_fuel = ⊥

  missing-Answer : (from : String) → find_path graph from to ≡ missing → Answer from missing
  unfolding find_path
  missing-Answer from h path p = elim (Bool-cases (from == to)) [
    | inl e ↦ absurd (same e h)
    | inr e ↦
        let (w, mono, closed) =
          search-Closed (suc (length graph)) (from ∷ []) ((from, []) ∷ []) (start e)
            (sym (find_path-differ graph from to e) ∙ h) in
        Closed-IsPath w closed path from (mono from (here refl)) p
  ]
    where
      same : (from == to) ≡ true → find_path graph from to ≡ missing → ⊥
      same e h = let k : found [] ≡ missing = rw (find_path, e) at h in cc

      start :
          (from == to) ≡ false → Settled (record { visited = from ∷ []; queue = (from, []) ∷ [] })
      start e v (here q) = inl (here q)
      start e v (there m) = elim m [ ]

  answered :
      (from : String) (r : Found)
      → find_path graph from to ≡ r
      → Sound graph from to r
      → Answer from r
  unfolding Sound
  answered from (found path) e h = h
  answered from missing e h = missing-Answer from e
  answered from out_of_fuel e h = h

  -- The search for a join path ends within its fuel. What it finds is a chain of edges of the graph
  -- from the first model to the second, and where it finds nothing there is no such chain.
  pub find_path-Answer : (from : String) → Answer from (find_path graph from to)
  find_path-Answer from =
      answered from (find_path graph from to) refl (find_path-Sound graph from to)
