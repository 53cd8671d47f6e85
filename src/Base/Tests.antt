-- ===== src/Base/Tests.antt =====
-- Boolean tests on numbers, the conditional, results and case splits.
use Prim.Native.Nat.{ℕ, compare, Ordering}
use mathlib.Core.Path.{◌≡◌, refl, subst}
use mathlib.Core.Logic.{◌⊎◌, inl, inr}
use mathlib.Core.Bool.{Bool, true, false}
use mathlib.Core.Option.{Option, none, some}

abbrev pub ltb : ℕ → ℕ → Bool
ltb a b = elim (compare a b) [ Ordering.lt ↦ true | _ ↦ false ]

abbrev pub leb : ℕ → ℕ → Bool
leb a b = elim (compare a b) [ Ordering.gt ↦ false | _ ↦ true ]

infix 50 ◌=ℕ=◌
abbrev pub ◌=ℕ=◌ : ℕ → ℕ → Bool
a =ℕ= b = elim (compare a b) [ Ordering.eq ↦ true | _ ↦ false ]

infix 1 if◌then◌else◌
abbrev pub if◌then◌else◌ {ℓ} : {A : Type ℓ} → Bool → A → A → A
if true then x else y = x
if false then x else y = y

pub Bool-cases : (b : Bool) → (b ≡ true) ⊎ (b ≡ false)
Bool-cases true = inl refl
Bool-cases false = inr refl

-- What a conditional has, at a known test.
pub if_false :
    {A : Type 0} (P : A → Type 0) (b : Bool) (x y : A) → b ≡ false → P y → P (if b then x else y)
if_false P true x y e h = cc
if_false P false x y e h = h

pub if_true :
    {A : Type 0} (P : A → Type 0) (b : Bool) (x y : A) → b ≡ true → P x → P (if b then x else y)
if_true P true x y e h = h
if_true P false x y e h = cc

pub if_either :
    {A : Type 0} (P : A → Type 0) (b : Bool) (x y : A) → P x → P y → P (if b then x else y)
if_either P true x y h k = h
if_either P false x y h k = k

-- Rust's `Result<T, E>`.
pub data Result {ℓ} (E A : Type ℓ) : Type ℓ where
  ok : A → Result E A
  err : E → Result E A

module _ {ℓ} {A : Type ℓ} where
  pub Option-cases : (o : Option A) → (o ≡ none) ⊎ ((a : A) × (o ≡ some a))
  Option-cases none = inl refl
  Option-cases (some a) = inr (a, refl)

  -- `is_some`, and Rust's `unwrap_or`.
  abbrev pub is_some : Option A → Bool
  is_some none = false
  is_some (some a) = true

  abbrev pub unwrap_or : Option A → A → A
  unwrap_or none d = d
  unwrap_or (some a) d = a

  -- Rust's `or` of two options.
  abbrev pub or_option : Option A → Option A → Option A
  or_option none o = o
  or_option (some a) o = some a

module _ {ℓ} {E A B : Type ℓ} where
  infixl 5 ◌>>=◌
  -- The operator `?`.
  abbrev pub ◌>>=◌ : Result E A → (A → Result E B) → Result E B
  err failure >>= next = err failure
  ok value >>= next = next value

  -- A chain that ends in `b`: its first step succeeds, and so does the rest.
  abbrev pub Steps : Result E A → (A → Result E B) → B → Type ℓ
  Steps step next b = (value : A) × (step ≡ ok value) × (next value ≡ ok b)

  pub bind-Steps :
      {b : B} (step : Result E A) (next : A → Result E B)
      → (step >>= next) ≡ ok b
      → Steps step next b
  bind-Steps (err failure) next e = cc
  bind-Steps (ok value) next e = (value, refl, e)

module _ {ℓ} {E A : Type ℓ} where
  -- Rust's `ok_or`.
  abbrev pub ok_or : Option A → E → Result E A
  ok_or none e = err e
  ok_or (some a) e = ok a

  abbrev pub is_ok : Result E A → Bool
  is_ok (ok a) = true
  is_ok (err e) = false

  pub Result-cases : (r : Result E A) → ((a : A) × (r ≡ ok a)) ⊎ ((e : E) × (r ≡ err e))
  Result-cases (ok a) = inl (a, refl)
  Result-cases (err e) = inr (e, refl)

pub ok_inj {ℓ} : {E A : Type ℓ} {a b : A} → ◌≡◌ {A = Result E A} (ok a) (ok b) → a ≡ b
ok_inj e = cc

-- What a result satisfies if it is a success, with the rule for a chain.
abbrev pub Ensures {ℓ κ} : {E A : Type ℓ} → (A → Type κ) → Result E A → Type κ
Ensures P (ok a) = P a
Ensures P (err e) = Unit

module _ {ℓ κ} {E A : Type ℓ} (P : A → Type κ) where
  pub of_Ensures : (r : Result E A) {a : A} → Ensures P r → r ≡ ok a → P a
  of_Ensures (ok b) h e = subst P (ok_inj e) h
  of_Ensures (err b) h e = cc

  pub Ensures-bind :
      {B : Type ℓ} (Q : B → Type κ) (m : Result E A) (f : A → Result E B)
      → Ensures P m
      → ((a : A) → P a → Ensures Q (f a))
      → Ensures Q (m >>= f)
  Ensures-bind Q (ok a) f h k = k a h
  Ensures-bind Q (err e) f h k = tt
