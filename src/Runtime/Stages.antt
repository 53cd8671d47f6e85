-- ===== src/Runtime/Stages.antt =====
-- `topological_order` of crates/graphnight-runtime/src/governance.rs: the order in which the stages of
-- a pipeline run.
pub mod Pass
pub mod Order
use graphnight.Base.{
  zero, suc, ℕ, String, Bool, true, false, Option, none, some, List, [], ◌∷◌, ◌++◌, map, Result, ok,
  err, ◌>>=◌, contains, length, if◌then◌else◌,
}
use graphnight.Core.Models.{Query}
use graphnight.Runtime.Errors.{ServiceError, unknown_stage, cycle}

abbrev pub Stage : Type 0
Stage = String × Query

abbrev pub stage_name : Stage → String
stage_name s = s.0

abbrev pub names : List Stage → List String
names stages = map stage_name stages

-- What one round of the inner loop decides of an entry.
pub data Readiness : Type 0 where
  ready waiting : Readiness
  unknown : String → Readiness

pub readiness_of : List Stage → List String → Option String → Readiness
readiness_of stages resolved none = ready
readiness_of stages resolved (some reference) =
    if contains (names stages) reference
    then (if contains resolved reference then ready else waiting)
    else unknown reference

-- The variables of the loop: `resolved`, `still_waiting` and `progressed`.
pub record Progress : Type 0 where
  pub resolved : List String
  pub still_waiting : List Stage
  pub progressed : Bool

-- One round of `for entry in remaining.drain(..)`.
pub visit : Readiness → Stage → Progress → Result ServiceError Progress
visit ready entry p =
    ok (record p { resolved = p.resolved ++ stage_name entry ∷ []; progressed = true })
visit waiting entry p = ok (record p { still_waiting = p.still_waiting ++ entry ∷ [] })
visit (unknown reference) entry p = err (unknown_stage reference)

pub pass : List Stage → List Stage → Progress → Result ServiceError Progress
pass stages [] p = ok p
pass stages (entry ∷ remaining) p =
    visit (readiness_of stages p.resolved entry.1.stage_ref) entry p >>= pass stages remaining

-- The end of a round: the test of `progressed`, and the next round.
pub next_round :
    (List Stage → List String → Option (Result ServiceError (List String)))
    → Result ServiceError Progress
    → Option (Result ServiceError (List String))
next_round again (err e) = some (err e)
next_round again (ok p) = elim p.progressed [
  | true ↦ again p.still_waiting p.resolved
  | false ↦ some (err (cycle (names p.still_waiting)))
]

-- `while !remaining.is_empty()`, on fuel; `none` means that the fuel ran out.
pub order_from :
    ℕ → List Stage → List Stage → List String → Option (Result ServiceError (List String))
order_from fuel stages [] resolved = some (ok resolved)
order_from zero stages (entry ∷ remaining) resolved = none
order_from (suc fuel) stages (entry ∷ remaining) resolved = next_round (order_from fuel stages) (
    pass stages (entry ∷ remaining)
      (record { resolved = resolved; still_waiting = []; progressed = false }))

-- Each round that makes progress takes a stage, so as many rounds as stages are enough.
unfoldable pub topological_order : List Stage → Option (Result ServiceError (List String))
unfolding readiness_of visit pass next_round order_from
topological_order stages = order_from (length stages) stages stages []
