-- ===== src/Runtime/Governance/Caps.antt =====
-- The row cap of a call, against that of the policy.
use graphnight.Base.{ℕ, ◌≤◌, ◌≡◌, refl, ap, sym, ◌∙◌, Option, none, some, arith, unwrap_or}
use graphnight.Core.Models.{Query}
use graphnight.Core.Security.{SessionPolicy, enforce_row_limit}
use graphnight.Core.Security.Limits.{limit_under, enforce_row_limit-limit}
use graphnight.Runtime.Governance.{apply_row_cap, effective_cap, limit_within}

-- The number is at most the one that is named, if one is.
abbrev pub Within : ℕ → Option ℕ → Type 0
Within n none = Unit
Within n (some m) = n ≤ m

within : (cap : ℕ) (o : Option ℕ) → (limit_within cap o ≤ cap) × Within (limit_within cap o) o
unfolding limit_within
within cap none = (omega arith, tt)
within cap (some l) = (omega arith, omega arith)

effective :
    (policy : SessionPolicy) (per_call : Option ℕ)
    → (effective_cap policy per_call ≤ unwrap_or policy.max_rows 10000)
      × Within (effective_cap policy per_call) per_call
unfolding effective_cap
effective policy none = (omega arith, tt)
effective policy (some c) = (omega arith, omega arith)

Within-le : (m n : ℕ) (o : Option ℕ) → m ≤ n → Within n o → Within m o
Within-le m n none h k = tt
Within-le m n (some c) h k = omega arith

limit_within-eq : (cap : ℕ) (o : Option ℕ) → limit_within cap o ≡ limit_under cap o
unfolding limit_within
limit_within-eq cap none = refl
limit_within-eq cap (some l) = refl

apply_row_cap-enforce_row_limit :
    (policy : SessionPolicy) (q : Query)
    → (apply_row_cap policy q none).0.limit ≡ (enforce_row_limit policy q).limit
unfolding apply_row_cap effective_cap
apply_row_cap-enforce_row_limit policy q =
    ap some (limit_within-eq (unwrap_or policy.max_rows 10000) q.limit)
    ∙ sym (enforce_row_limit-limit policy q)

-- The limit that a call runs with is the one that is written into the query, and it is within the cap
-- of the policy, within the cap of the call and within the limit that the caller asked for. Where the
-- call has no cap of its own, it is the limit that the enforcer of the policy would set.
pub apply_row_cap-Within :
    (policy : SessionPolicy) (q : Query) (per_call : Option ℕ)
    → ((apply_row_cap policy q per_call).0.limit ≡ some (apply_row_cap policy q per_call).1)
      × ((apply_row_cap policy q per_call).1 ≤ unwrap_or policy.max_rows 10000)
      × Within (apply_row_cap policy q per_call).1 per_call
      × Within (apply_row_cap policy q per_call).1 q.limit
      × ((apply_row_cap policy q none).0.limit ≡ (enforce_row_limit policy q).limit)
unfolding apply_row_cap
apply_row_cap-Within policy q per_call =
    let (a, b) = within (effective_cap policy per_call) q.limit in
    let (c, d) = effective policy per_call in
    (refl, omega arith, Within-le _ _ per_call a d, b, apply_row_cap-enforce_row_limit policy q)
