-- ===== src/Core/JoinGraph/Paths.antt =====
-- The breadth-first search of `find_path`: what it finds is a path, and it ends within its fuel.
use graphnight.Base.{
  ℕ, zero, suc, ◌+◌, ◌≤◌, ◌≡◌, refl, sym, ap, subst, String, false, List, [], ◌∷◌, ◌++◌, contains,
  length, length-append, All, All-append, All-map, Any, here, there, Bool-cases, inl, inr,
  if◌then◌else◌, ◌==◌, eq_iff, arith,
}
use graphnight.Core.JoinGraph.{
  JoinEdge, JoinGraph, Frontier, Found, found, missing, out_of_fuel, adjacent, offer, offer_all,
  search, find_path,
}

module _ (graph : JoinGraph) where
  -- The edges lead from one model to another, each from where the one before it ends.
  abbrev pub IsPath : String → List JoinEdge → String → Type 0
  IsPath from [] to = from ≡ to
  IsPath from (edge ∷ path) to =
      Any (λ e. e ≡ edge) (adjacent graph from) × IsPath edge.target_model path to

  IsPath-append :
      (from : String) (path : List JoinEdge) (current : String) (edge : JoinEdge)
      → IsPath from path current
      → Any (λ e. e ≡ edge) (adjacent graph current)
      → IsPath from (path ++ edge ∷ []) edge.target_model
  IsPath-append from [] current edge h m =
      (subst (λ c. Any (λ e. e ≡ edge) (adjacent graph c)) (sym h) m, refl)
  IsPath-append from (e ∷ path) current edge (n, h) m =
      (n, IsPath-append e.target_model path current edge h m)

  -- An item of the queue: a model with a path to it.
  abbrev IsReached : String → String × List JoinEdge → Type 0
  IsReached from (current, path) = IsPath from path current

  offer-IsReached :
      (from current : String) (path : List JoinEdge) (edge : JoinEdge) (s : Frontier)
      → IsPath from path current
      → Any (λ e. e ≡ edge) (adjacent graph current)
      → All (IsReached from) s.queue
      → All (IsReached from) (offer path edge s).queue
  unfolding offer
  offer-IsReached from current path edge s h m q =
      elim (Bool-cases (contains s.visited edge.target_model)) [
        | inl e ↦ rw (offer, e) q
        | inr e ↦
            rw (offer, e)
              (All-append (IsReached from) s.queue ((edge.target_model, path ++ edge ∷ []) ∷ []) q
                (IsPath-append from path current edge h m, tt))
      ]

  offer_all-IsReached :
      (from current : String) (path edges : List JoinEdge) (s : Frontier)
      → IsPath from path current
      → All (λ edge. Any (λ e. e ≡ edge) (adjacent graph current)) edges
      → All (IsReached from) s.queue
      → All (IsReached from) (offer_all path edges s).queue
  unfolding offer_all
  offer_all-IsReached from current path [] s h m q = q
  offer_all-IsReached from current path (edge ∷ edges) s h (m, more) q =
      offer_all-IsReached from current path edges (offer path edge s) h more
        (offer-IsReached from current path edge s h m q)

  -- The entries of the graph whose target is not visited.
  unvisited : JoinGraph → List String → ℕ
  unvisited [] visited = 0
  unvisited ((from, edge) ∷ rest) visited =
      let n = unvisited rest visited in if contains visited edge.target_model then n else suc n

  unvisited-le : (rest : JoinGraph) (visited : List String) → unvisited rest visited ≤ length rest
  unfolding unvisited
  unvisited-le [] visited = omega arith
  unvisited-le (entry ∷ rest) visited = ground (arith, unvisited-le rest visited)

  unvisited-cons :
      (rest : JoinGraph) (t : String) (visited : List String)
      → unvisited rest (t ∷ visited) ≤ unvisited rest visited
  unfolding unvisited
  unvisited-cons [] t visited = omega arith
  unvisited-cons (entry ∷ rest) t visited = ground (arith, unvisited-cons rest t visited)

  -- Some entry of the graph leads to a model.
  abbrev Targets : JoinGraph → String → Type 0
  Targets rest t = Any (λ entry. entry.1.target_model ≡ t) rest

  push_target :
      (from : String) (other : JoinEdge) (rest : JoinGraph) (edge : JoinEdge)
      (edges : List JoinEdge)
      → (Any (λ e. e ≡ edge) edges → Targets rest edge.target_model)
      → Any (λ e. e ≡ edge) (other ∷ edges)
      → Targets ((from, other) ∷ rest) edge.target_model
  push_target from other rest edge edges f (here p) = here (ap (λ e. e.target_model) p)
  push_target from other rest edge edges f (there m) = there (f m)

  adjacent-Targets :
      (rest : JoinGraph) (current : String) (edge : JoinEdge)
      → Any (λ e. e ≡ edge) (adjacent rest current)
      → Targets rest edge.target_model
  unfolding adjacent
  adjacent-Targets [] current edge m = elim m [ ]
  adjacent-Targets ((from, other) ∷ rest) current edge m = elim (Bool-cases (from == current)) [
    | inl e ↦
        let m' : Any (λ x. x ≡ edge) (other ∷ adjacent rest current) = rw (adjacent, e) at m in
        push_target from other rest edge (adjacent rest current)
          (adjacent-Targets rest current edge) m'
    | inr e ↦
        let m' : Any (λ x. x ≡ edge) (adjacent rest current) = rw (adjacent, e) at m in
        there (adjacent-Targets rest current edge m')
  ]

  visit_one :
      (rest : JoinGraph) (t : String) (visited : List String)
      → Targets rest t
      → contains visited t ≡ false
      → suc (unvisited rest (t ∷ visited)) ≤ unvisited rest visited
  unfolding unvisited
  visit_one [] t visited m h = elim m [ ]
  visit_one ((from, other) ∷ rest) t visited (here p) h = ground (
    arith,
    unvisited-cons rest t visited,
    eq_iff t other.target_model,
    ap (contains visited) p,
    p,
  )
  visit_one ((from, other) ∷ rest) t visited (there m) h =
      ground (arith, visit_one rest t visited m h)

  measure : Frontier → ℕ
  measure s = length s.queue + unvisited graph s.visited

  offer-measure :
      (path : List JoinEdge) (edge : JoinEdge) (s : Frontier)
      → Targets graph edge.target_model
      → measure (offer path edge s) ≤ measure s
  unfolding offer measure
  offer-measure path edge s m = elim (Bool-cases (contains s.visited edge.target_model)) [
    | inl e ↦ rw (offer, e) (omega arith)
    | inr e ↦
        rw (offer, e)
          (omega (
            arith,
            visit_one graph edge.target_model s.visited m e,
            length-append s.queue ((edge.target_model, path ++ edge ∷ []) ∷ []),
          ))
  ]

  offer_all-measure :
      (path edges : List JoinEdge) (s : Frontier)
      → All (λ edge. Targets graph edge.target_model) edges
      → measure (offer_all path edges s) ≤ measure s
  unfolding offer_all
  offer_all-measure path [] s h = omega arith
  offer_all-measure path (edge ∷ edges) s (m, h) =
      omega (arith, offer-measure path edge s m, offer_all-measure path edges (offer path edge s) h)

  pub All-self : (edges : List JoinEdge) → All (λ edge. Any (λ e. e ≡ edge) edges) edges
  All-self [] = tt
  All-self (edge ∷ edges) = (
    here refl,
    All-map (λ x. Any (λ e. e ≡ x) edges) (λ x. Any (λ e. e ≡ x) (edge ∷ edges)) (λ x m. there m)
        edges (All-self edges),
  )

  -- What an answer of the search means. Running out of fuel is no answer.
  unfoldable pub Sound : String → String → Found → Type 0
  Sound from to (found path) = IsPath from path to
  Sound from to missing = Unit
  Sound from to out_of_fuel = ⊥

  search-Sound :
      (from to : String) (fuel : ℕ) (visited : List String) (queue : List (String × List JoinEdge))
      → All (IsReached from) queue
      → length queue + unvisited graph visited ≤ fuel
      → Sound from to (search graph to fuel visited queue)
  unfolding search Sound measure
  search-Sound from to fuel visited [] h n = tt
  search-Sound from to zero visited (item ∷ queue) h n = absurd (omega arith)
  search-Sound from to (suc fuel) visited ((current, path) ∷ queue) (h, more) n =
      elim (Bool-cases (current == to)) [
        | inl e ↦ rw (search, e) (subst (IsPath from path) ((eq_iff current to).0 e) h)
        | inr e ↦
            rw (search, e)
              (let s : Frontier = record { visited = visited; queue = queue } in
                let edges = adjacent graph current in
                let next = offer_all path edges s in
                search-Sound from to fuel next.visited next.queue
                  (offer_all-IsReached from current path edges s h (All-self edges) more)
                  (omega (
                    arith,
                    offer_all-measure path edges s (
                        All-map (λ x. Any (λ e. e ≡ x) edges) (λ x. Targets graph x.target_model)
                          (λ x m. adjacent-Targets graph current x m) edges (All-self edges)),
                  )))
      ]

  pub find_path-differ :
      (from to : String)
      → (from == to) ≡ false
      → find_path graph from to ≡ search graph to (suc (length graph)) (from ∷ []) ((from, []) ∷ [])
  unfolding find_path
  find_path-differ from to e = rw e (refl)

  pub find_path-Sound : (from to : String) → Sound from to (find_path graph from to)
  unfolding Sound find_path
  find_path-Sound from to = elim (Bool-cases (from == to)) [
    | inl e ↦ rw (find_path, e) ((eq_iff from to).0 e)
    | inr e ↦ subst (Sound from to) (sym (find_path-differ from to e)) (
        search-Sound from to (suc (length graph)) (from ∷ []) ((from, []) ∷ []) (refl, tt)
          (omega (arith, unvisited-le graph (from ∷ []))))
  ]
