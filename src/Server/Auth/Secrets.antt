-- ===== src/Server/Auth/Secrets.antt =====
-- `secrets_equal` of auth_config.rs: the fold over exclusive ors.
use Prim.Native.Nat.{bit_or, bit_xor, bit_or-bitwise, bit_xor-bitwise, digits, differ, max}
use graphnight.Base.{
  ℕ, zero, suc, ◌/◌, ◌%◌, ◌≤◌, ◌≡◌, refl, sym, ap, ◌∙◌, ◌↔◌, String, true, List, [], ◌∷◌, length,
  arith,
}
use mathlib.Core.Path.{ap₂}
use graphnight.Sql.Cache.Keys.{bytes}
use graphnight.Server.Auth.{differences, secrets_equal}

differ-zero : (x y : ℕ) → differ x y ≡ 0 → x ≡ y
differ-zero zero y h = sym h
differ-zero (suc x) zero h = h
differ-zero (suc x) (suc y) h = ap suc (differ-zero x y h)

differ-same : (x : ℕ) → differ x x ≡ 0
differ-same zero = refl
differ-same (suc x) = differ-same x

xor_digits : (n a b : ℕ) → a ≤ n → digits (λ c. c) differ n a b ≡ 0 → a ≡ b
xor_digits zero zero b le h = sym h
xor_digits zero (suc a) b le h = absurd (omega arith)
xor_digits (suc n) zero b le h = sym h
xor_digits (suc n) (suc a) b le h =
    let rest : digits (λ c. c) differ n (suc a / 2) (b / 2) ≡ 0 = omega arith in
    let low : differ (suc a % 2) (b % 2) ≡ 0 = omega arith in
    let halves = xor_digits n (suc a / 2) (b / 2) (omega arith) rest in
    let bits = differ-zero (suc a % 2) (b % 2) low in omega (arith, halves, bits)

xor_same : (n a : ℕ) → a ≤ n → digits (λ c. c) differ n a a ≡ 0
xor_same zero zero le = refl
xor_same zero (suc a) le = absurd (omega arith)
xor_same (suc n) zero le = refl
xor_same (suc n) (suc a) le =
    omega (arith, xor_same n (suc a / 2) (omega arith), differ-same (suc a % 2))

or_digits : (n a b : ℕ) → a ≤ n → digits (λ c. c) max n a b ≡ 0 → (a ≡ 0) × (b ≡ 0)
or_digits zero zero b le h = (refl, h)
or_digits zero (suc a) b le h = absurd (omega arith)
or_digits (suc n) zero b le h = (refl, h)
or_digits (suc n) (suc a) b le h =
    let (p, q) = or_digits n (suc a / 2) (b / 2) (omega arith) (omega arith) in
    (omega (arith, p, q), omega (arith, p, q))

bit_xor-zero : (a b : ℕ) → bit_xor a b ≡ 0 → a ≡ b
bit_xor-zero a b h = xor_digits a a b (omega arith) (sym (λ i. bit_xor-bitwise a b i) ∙ h)

bit_xor-same : (a : ℕ) → bit_xor a a ≡ 0
bit_xor-same a = (λ i. bit_xor-bitwise a a i) ∙ xor_same a a (omega arith)

bit_or-zero : (a b : ℕ) → bit_or a b ≡ 0 → (a ≡ 0) × (b ≡ 0)
bit_or-zero a b h = or_digits a a b (omega arith) (sym (λ i. bit_or-bitwise a b i) ∙ h)

differences-zero :
    (acc : ℕ) (xs ys : List ℕ)
    → length xs ≡ length ys
    → differences acc xs ys ≡ 0
    → (acc ≡ 0) × (xs ≡ ys)
unfolding differences
differences-zero acc [] [] l h = (h, refl)
differences-zero acc [] (y ∷ ys) l h = absurd (omega arith)
differences-zero acc (x ∷ xs) [] l h = absurd (omega arith)
differences-zero acc (x ∷ xs) (y ∷ ys) l h =
    let (p, q) = differences-zero (bit_or acc (bit_xor x y)) xs ys (omega arith) h in
    let (a, b) = bit_or-zero acc (bit_xor x y) p in (a, ap₂ ◌∷◌ (bit_xor-zero x y b) q)

differences-same : (xs : List ℕ) → differences 0 xs xs ≡ 0
unfolding differences
differences-same [] = refl
differences-same (x ∷ xs) = rw (bit_xor-same x) (differences-same xs)

-- Two secrets compare as equal exactly when their bytes are the same.
pub secrets_equal_iff : (a b : String) → (secrets_equal a b ≡ true) ↔ (bytes a ≡ bytes b)
unfolding secrets_equal
secrets_equal_iff a b = (
  λ h. (differences-zero 0 (bytes a) (bytes b) (ground arith) (ground arith)).1,
  λ h. rw h (ground (arith, differences-same (bytes b))),
)
