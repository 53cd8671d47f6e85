-- ===== src/Tests/Core.antt =====
-- The theorems about crates/graphnight-core at concrete inputs.
use graphnight.Base
use graphnight.Base.{
  ℕ, ◌≡◌, refl, sym, ap, ◌↔◌, String, Bool, true, false, Option, none, some, List, [], ◌∷◌, ◌++◌,
  Result, ok, err, if◌then◌else◌, min, unwrap_or, leb, arith, ◌==◌, ◌≢◌, ◌<◌, eq_iff, count,
  Bool-cases, inl, inr, All, Any, here, there,
}
use graphnight.Core.Models.{Value, Filter, Query, Model, Join, FilterOperator}
use graphnight.Core.Models
use graphnight.Core.Formula.{Captures, out_of_fuel, parse_measure}
use graphnight.Core.Formula.Fuel.{IsShortening, parse_measure-ne-out_of_fuel}
use graphnight.Core.Formula.Functions.{column, parse_function_call, is_allowed_function}
use graphnight.Core.Formula.Functions.Safety.{IsSafeCall, parse_function_call-IsSafeCall}
use graphnight.Core.JoinGraph.{new_graph, find_path}
use graphnight.Core.JoinGraph.Reach.{Answer, find_path-Answer}
use graphnight.Core.Security.{
  SessionPolicy, default_policy, check_model_access, check_datasource_access,
}
use graphnight.Core.Security.Access.{Admits, Spares, check_access_iff}
use graphnight.Core.Security.AuditLog.{new_logger, log_all, log_all-new_logger}
use graphnight.Core.Security.Masks.{phone_mask, digits_of, email_mask}
use graphnight.Core.Security.Masks.Hiding.{address, email_mask-phone_mask}

abbrev orders : Model
orders = record {
  name = "orders";
  datasource = "shop";
  description = none;
  measures = [];
  dimensions = [];
  time_dimensions = [];
  joins =
      record {
        name = "buyer";
        model = "customers";
        join_type = Models.left;
        on = ("customer", "id") ∷ [];
        alias = none;
      }
      ∷ [];
  sql = none;
  meta = [];
}

abbrev tenant_filter : Filter
tenant_filter = record {
  field = "tenant";
  operator = Models.eq;
  value = Models.string "a";
  or_condition = false;
}

abbrev query : Query
query = record {
  name = some "orders";
  source_model = none;
  measures = [];
  dimensions = [];
  time_dimensions = [];
  filters = [];
  order = [];
  limit = some 50;
  offset = none;
  whole_periods_only = none;
  distinct_dimension_values = none;
  stage_ref = none;
}

abbrev policy : SessionPolicy
policy = record default_policy {
  allowed_models = some ("orders" ∷ []);
  row_filter = some tenant_filter;
  max_rows = some 20;
}

find_path-Answer_example :
    Answer
      (new_graph (orders ∷ []))
      "orders"
      "customers"
      (find_path (new_graph (orders ∷ [])) "customers" "orders")
find_path-Answer_example = find_path-Answer (new_graph (orders ∷ [])) "orders" "customers"

parse_function_call-IsSafeCall_example :
    IsSafeCall (record { name = "round"; args = column "amount" ∷ [] })
unfolding parse_function_call Base.split_once Base.trim Base.split_char Models.is_plain_identifier
    Base.contains_char Base.rsplit_once is_allowed_function Base.eq_ignore_ascii_case
parse_function_call-IsSafeCall_example =
    parse_function_call-IsSafeCall "round(amount)"
      (record { name = "round"; args = column "amount" ∷ [] }) refl

check_access_iff_example :
    ((check_model_access policy "orders" ≡ ok tt)
      ↔ (Admits (some ("orders" ∷ [])) "orders" × Spares none "orders"))
    × ((check_datasource_access policy "shop" ≡ ok tt) ↔ Admits none "shop")
check_access_iff_example = check_access_iff policy "orders" "shop"

log_all-new_logger_example : (log_all {E = ℕ} (new_logger 2) (1 ∷ 2 ∷ 3 ∷ [])).entries ≡ 2 ∷ 3 ∷ []
log_all-new_logger_example = log_all-new_logger {E = ℕ} 2 (1 ∷ 2 ∷ 3 ∷ [])

abbrev ratio_of : String → Option (String × String)
ratio_of e = if e == "ratio(a,b)" then some ("a", "b") else none

-- Patterns that find the parts of one text.
abbrev no_captures : Captures
no_captures = record { agg = λ e. none; time_shift = λ e. none; ratio = ratio_of }

ratio_parts :
    (e num denom : String)
    → ratio_of e ≡ some (num, denom)
    → (count num < count e) × (count denom < count e)
ratio_parts e num denom h = elim (Bool-cases (e == "ratio(a,b)")) [
  | inl p ↦
      let parts : ◌≡◌ {A = Option (String × String)} (some ("a", "b")) (some (num, denom)) =
        rw p at h in
      let a : "a" ≡ num = cc in
      let b : "b" ≡ denom = cc in
      let whole = (eq_iff e "ratio(a,b)").0 p in
      (omega (arith, ap count a, ap count whole), omega (arith, ap count b, ap count whole))
  | inr p ↦
      let parts : ◌≡◌ {A = Option (String × String)} none (some (num, denom)) = rw p at h in
      absurd (cc)
]

no_captures-IsShortening : IsShortening no_captures
no_captures-IsShortening = record {
  time_shift = λ e inner offset granularity h. absurd (cc);
  num = λ e num denom h. (ratio_parts e num denom h).0;
  denom = λ e num denom h. (ratio_parts e num denom h).1;
}

parse_measure-ne-out_of_fuel_example : parse_measure no_captures "ratio(a,b)" ≢ err out_of_fuel
parse_measure-ne-out_of_fuel_example =
    parse_measure-ne-out_of_fuel no_captures no_captures-IsShortening "ratio(a,b)"

email_mask-phone_mask_example :
    (email_mask (address "a" "lic" "e" "@" "x.org") ≡ some "a***e@x.org")
    × (phone_mask "555-123-4567" ≡ "(***) ***-4567")
unfolding digits_of
email_mask-phone_mask_example =
    email_mask-phone_mask "a" "l" "ic" "e" "@" "x.org" "555-123-4567" "555123" "4567" (omega arith)
      (omega arith) refl
      (
        (λ e. omega (arith, e)),
        (
          (λ e. omega (arith, e)),
          ((λ e. omega (arith, e)), ((λ e. omega (arith, e)), ((λ e. omega (arith, e)), tt))),
        ),
      )
      refl refl
