-- ===== src/Sql/Generator/Filters/Groups.antt =====
-- The groups of conditions that the separators of `build_where_clause` make.
use graphnight.Base.{
  ◌≡◌, refl, sym, ap, ◌∙◌, String, Bool, true, false, List, [], ◌∷◌, ◌++◌, map, if◌then◌else◌, ◌+s◌,
  join, All, Bool-cases, inl, inr,
}
use text.Mathlib.TextLemmas.{nil-append, append_assoc, append-nil}
use graphnight.Core.Models.{Filter}
use graphnight.Sql.Generator.Filters.{separator}

module _ {A : Type 0} (flag : A → Bool) where
  abbrev push : A → List (List A) → List (List A)
  push a [] = (a ∷ []) ∷ []
  push a (group ∷ groups) = (a ∷ group) ∷ groups

  -- The runs of a list: each item with the flag begins a new one.
  unfoldable pub runs : List A → List (List A)
  runs [] = []
  runs (a ∷ []) = (a ∷ []) ∷ []
  runs (a ∷ b ∷ rest) =
      let later = runs (b ∷ rest) in if flag b then (a ∷ []) ∷ later else push a later

  runs-cons :
      (a : A) (rest : List A)
      → (first : A) × (group : List A) × (groups : List (List A)) × (runs (a ∷ rest)
          ≡ (first ∷ group) ∷ groups)
  unfolding runs
  runs-cons a [] = (a, [], [], refl)
  runs-cons a (b ∷ rest) =
      let (first, group, groups, e) = runs-cons b rest in
      elim (Bool-cases (flag b)) [
        | inl h ↦ (a, [], (first ∷ group) ∷ groups, rw (h, e) (refl))
        | inr h ↦ (a, first ∷ group, groups, rw (h, e) (refl))
      ]

  pub runs_one :
      (a : A) (rest : List A) → All (λ b. flag b ≡ false) rest → runs (a ∷ rest) ≡ (a ∷ rest) ∷ []
  unfolding runs
  runs_one a [] h = refl
  runs_one a (b ∷ rest) (c, h) = rw (c, runs_one b rest h) (refl)

  pub runs-append :
      (a : A) (xs : List A) (b : A) (rest : List A)
      → flag b ≡ true
      → runs ((a ∷ xs) ++ b ∷ rest) ≡ runs (a ∷ xs) ++ runs (b ∷ rest)
  unfolding runs
  runs-append a [] b rest h = rw h (refl)
  runs-append a (x ∷ xs) b rest h =
      let (first, group, groups, e) = runs-cons x xs in
      elim (Bool-cases (flag x)) [
        | inl k ↦ rw (k, runs-append x xs b rest h) (refl)
        | inr k ↦ rw (k, runs-append x xs b rest h, e) (refl)
      ]

-- A filter with the text of its condition.
abbrev pub Written : Type 0
Written = Filter × String

abbrev pub glue : Bool → List Written → List String
glue first [] = []
glue first ((f, t) ∷ cs) = (separator first f +s t) ∷ glue false cs

abbrev starts_group : Written → Bool
starts_group c = c.0.or_condition

abbrev pub filters_of : List Written → List Filter
filters_of [] = []
filters_of (c ∷ cs) = c.0 ∷ filters_of cs

-- The text of a group of conditions, and of all groups.
abbrev group_text : List Written → String
group_text group = join " AND " (map (λ c. c.1) group)

abbrev pub groups_text : List Written → String
groups_text cs = join " OR " (map group_text (runs starts_group cs))

join-cons : (x : String) (xs : List String) → join "" (x ∷ xs) ≡ x +s join "" xs
unfolding join
join-cons x [] = sym (append-nil x)
join-cons x (y ∷ ys) = ap (λ s. x +s s) (nil-append (join "" (y ∷ ys)))

glue-cons :
    (f : Filter) (t : String) (cs : List Written)
    → join "" (glue false ((f, t) ∷ cs)) ≡ separator false f +s t +s join "" (glue false cs)
glue-cons f t cs =
    join-cons (separator false f +s t) (glue false cs)
    ∙ append_assoc (separator false f) t (join "" (glue false cs))

groups-or :
    (c d : Written) (cs : List Written)
    → starts_group d ≡ true
    → groups_text (c ∷ d ∷ cs) ≡ c.1 +s " OR " +s groups_text (d ∷ cs)
unfolding runs join
groups-or c d cs h = let (first, group, groups, e) = runs-cons starts_group d cs in rw (h, e) (refl)

and_text :
    (c first : Written) (group : List Written) (groups : List (List Written))
    → join " OR " (map group_text ((c ∷ first ∷ group) ∷ groups))
      ≡ c.1 +s " AND " +s join " OR " (map group_text ((first ∷ group) ∷ groups))
unfolding join
and_text c first group [] = refl
and_text c first group (g ∷ groups) =
    let own = group_text (first ∷ group) in
    let rest = " OR " +s join " OR " (map group_text (g ∷ groups)) in
    append_assoc c.1 (" AND " +s own) rest ∙ ap (λ s. c.1 +s s) (append_assoc " AND " own rest)

groups-and :
    (c d : Written) (cs : List Written)
    → starts_group d ≡ false
    → groups_text (c ∷ d ∷ cs) ≡ c.1 +s " AND " +s groups_text (d ∷ cs)
unfolding runs
groups-and c d cs h =
    let (first, group, groups, e) = runs-cons starts_group d cs in
    rw (h, e) (and_text c first group groups)

glue-groups :
    (f : Filter) (t : String) (cs : List Written)
    → groups_text ((f, t) ∷ cs) ≡ t +s join "" (glue false cs)
unfolding runs join
glue-groups f t [] = sym (append-nil t)
glue-groups f t ((f', t') ∷ cs) =
    let rest = glue-groups f' t' cs in
    elim (Bool-cases f'.or_condition) [
      | inl h ↦
          groups-or (f, t) (f', t') cs h
          ∙ ap (λ s. t +s " OR " +s s) rest
          ∙ ap (λ s. t +s s)
              (sym (
                glue-cons f' t' cs
                ∙ ap (λ b. (if b then " OR " else " AND ") +s t' +s join "" (glue false cs)) h))
      | inr h ↦
          groups-and (f, t) (f', t') cs h
          ∙ ap (λ s. t +s " AND " +s s) rest
          ∙ ap (λ s. t +s s)
              (sym (
                glue-cons f' t' cs
                ∙ ap (λ b. (if b then " OR " else " AND ") +s t' +s join "" (glue false cs)) h))
    ]

-- The conditions of a clause, the first of them without a separator.
pub clause-groups : (cs : List Written) → join "" (glue true cs) ≡ groups_text cs
unfolding runs join
clause-groups [] = refl
clause-groups ((f, t) ∷ cs) =
    join-cons ("" +s t) (glue false cs)
    ∙ ap (λ s. s +s join "" (glue false cs)) (nil-append t)
    ∙ sym (glue-groups f t cs)
