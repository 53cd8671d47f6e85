-- ===== src/Core/Security/Limits.antt =====
-- The row cap of a policy.
use graphnight.Base.{ℕ, ◌≡◌, Option, none, some, arith, unwrap_or, min}
use graphnight.Core.Models.{Query}
use graphnight.Core.Security.{SessionPolicy, enforce_row_limit, capped}

-- The smaller of the caller's limit and the cap, or the cap.
abbrev pub limit_under : ℕ → Option ℕ → ℕ
limit_under cap none = cap
limit_under cap (some limit) = min limit cap

capped-eq : (cap : ℕ) (o : Option ℕ) → capped cap o ≡ some (limit_under cap o)
unfolding capped
capped-eq cap none = ground arith
capped-eq cap (some limit) = ground arith

-- Enforcing the row limit of a policy sets the limit of the query to the smaller of the limit that
-- the caller asks for and the cap of the policy, or to the cap, which is 10000 where the policy
-- names none.
pub enforce_row_limit-limit :
    (policy : SessionPolicy) (q : Query)
    → (enforce_row_limit policy q).limit
      ≡ some (limit_under (unwrap_or policy.max_rows 10000) q.limit)
unfolding enforce_row_limit
enforce_row_limit-limit policy q = capped-eq (unwrap_or policy.max_rows 10000) q.limit
