-- ===== src/Core/Formula/Fuel.antt =====
-- The nesting of a formula: `parse_measure` has enough fuel for every text.
use graphnight.Base.{
  ℕ, zero, suc, ◌<◌, ◌≡◌, ◌≢◌, ◌^◌, ◌-◌, refl, String, Option, none, some, Result, ok, err, ◌>>=◌,
  ◌==◌, arith, count, count-trim, trim, Bool-cases, inl, inr, Bool, true, false,
}
use graphnight.Core.Models.{Measure}
use graphnight.Core.Formula.{
  Captures, FormulaError, out_of_fuel, parse_aggregation, parse_i32, signed, magnitude,
  parse_simple, parse_captured, parse_measure_from, parse_measure,
}

-- What the patterns ensure of their captures: each is a part of the text, and the text has the name
-- of the function and a bracket besides.
pub record IsShortening (re : Captures) : Type 0 where
  pub time_shift :
      (e inner offset granularity : String)
      → re.time_shift e ≡ some (inner, offset, granularity)
      → count inner < count e
  pub num : (e num denom : String) → re.ratio e ≡ some (num, denom) → count num < count e
  pub denom : (e num denom : String) → re.ratio e ≡ some (num, denom) → count denom < count e

module _ {A B : Type 0} where
  bind_fuel :
      (m : Result FormulaError A) (f : A → Result FormulaError B)
      → m ≢ err out_of_fuel
      → ((a : A) → f a ≢ err out_of_fuel)
      → (m >>= f) ≢ err out_of_fuel
  bind_fuel (ok a) f h k = k a
  bind_fuel (err e) f h k = λ q. h (cc)

aggregation_fuel : (s : String) → parse_aggregation s ≢ err out_of_fuel
unfolding parse_aggregation
aggregation_fuel s = ground arith

signed_fuel : (negative : Bool) (o : Option ℕ) → signed negative o ≢ err out_of_fuel
unfolding signed
signed_fuel negative none = cc
signed_fuel negative (some n) = ground arith

offset_fuel : (s : String) → parse_i32 s ≢ err out_of_fuel
unfolding parse_i32
offset_fuel String.[] = cc
offset_fuel (String.◌∷◌ c s) = ground (
  arith,
  signed_fuel true (magnitude (2 ^ 31) s),
  signed_fuel false (magnitude (2 ^ 31 - 1) s),
  signed_fuel false (magnitude (2 ^ 31 - 1) (String.◌∷◌ c s)),
)

module _ (re : Captures) (law : IsShortening re) where
  simple_fuel :
      (expr : String) (o : Option (String × String)) → parse_simple re expr o ≢ err out_of_fuel
  unfolding parse_simple
  simple_fuel expr none = cc
  simple_fuel expr (some (field, agg)) =
      bind_fuel (parse_aggregation agg) _ (aggregation_fuel agg) (λ a. cc)

  captured_fuel :
      (recur : String → Result FormulaError Measure) (expr : String)
      → ((part : String) → count part < count expr → recur part ≢ err out_of_fuel)
      → (t : Option (String × String × String)) → re.time_shift expr ≡ t
      → (r : Option (String × String)) → re.ratio expr ≡ r
      → parse_captured re recur expr t r ≢ err out_of_fuel
  unfolding parse_captured
  captured_fuel recur expr ih (some (inner, offset, granularity)) et r er =
      bind_fuel (parse_i32 offset) _ (offset_fuel offset) λ n.
        bind_fuel (recur inner) _ (ih inner (law.time_shift expr inner offset granularity et))
          λ m. cc
  captured_fuel recur expr ih none et (some (num, denom)) er =
      bind_fuel (recur num) _ (ih num (law.num expr num denom er))
        λ m. bind_fuel (recur denom) _ (ih denom (law.denom expr num denom er)) λ d. cc
  captured_fuel recur expr ih none et none er = simple_fuel expr (re.agg expr)

  measure_fuel :
      (fuel : ℕ) (text : String)
      → count text < fuel
      → parse_measure_from re fuel text ≢ err out_of_fuel
  unfolding parse_measure_from
  measure_fuel zero text h = absurd (omega arith)
  measure_fuel (suc fuel) text h = elim (Bool-cases (trim text == "")) [
    | inl e ↦ rw e (cc)
    | inr e ↦ rw e (
        captured_fuel (parse_measure_from re fuel) (trim text)
          (λ part k. measure_fuel fuel part (omega (arith, count-trim text)))
          (re.time_shift (trim text)) refl (re.ratio (trim text)) refl)
  ]

  -- Parsing a measure never runs out of fuel, if what a pattern captures is shorter than the text
  -- in which it is found.
  pub parse_measure-ne-out_of_fuel : (text : String) → parse_measure re text ≢ err out_of_fuel
  unfolding parse_measure
  parse_measure-ne-out_of_fuel text = measure_fuel (suc (count text)) text (omega arith)
