-- ===== src/Core/Formula/Functions/Safety.antt =====
-- An accepted function call is made of harmless characters: it cannot carry SQL of its own.
use Prim.Native.String.{[], ◌∷◌}
use mathlib.Core.List.{List}
use graphnight.Base.{
  ℕ, ◌≡◌, refl, String, Char, code, Bool, true, ◌&&◌, ◌||◌, Option, none, some, ok, Ensures,
  Ensures-bind, of_Ensures, ◌==◌, ◌=ℕ=◌, leb, length, All, all, trim, all_chars, split_char,
  prepend, split_once, rsplit_once, is_ascii_digit, is_ascii_alphanumeric, arith, Bool-cases,
  eq_iff, inl, inr,
}
use graphnight.Core.Models.{is_plain_identifier, is_identifier_char}
use graphnight.Core.Formula.Functions.{
  FunctionArg, column, number, FunctionCall, is_allowed_function, call_name,
  looks_like_function_call, unsigned, split_exponent, digits_ok, mantissa_ok, exponent_ok,
  is_numeric_literal, parse_arg, parse_args, parse_body, parse_opened, parse_function_call,
}

-- Letters, digits, `_`, `$`, `.`, `+` and `-`: no quote, space, bracket, comma or semicolon.
abbrev pub is_harmless : ℕ → Bool
is_harmless c =
    is_ascii_alphanumeric c || c =ℕ= b'_' || c =ℕ= b'$' || c =ℕ= b'.' || c =ℕ= b'+' || c =ℕ= b'-'

abbrev pub IsHarmless : String → Type 0
IsHarmless s = all_chars is_harmless s ≡ true

identifier_harmless : (c : ℕ) → is_identifier_char c ≡ true → is_harmless c ≡ true
unfolding is_identifier_char
identifier_harmless c h = ground arith

digit_harmless : (c : ℕ) → is_ascii_digit c ≡ true → is_harmless c ≡ true
digit_harmless c h = ground arith

module _ (p : ℕ → Bool) (harmless : (c : ℕ) → p c ≡ true → is_harmless c ≡ true) where
  all_chars_harmless : (s : String) → all_chars p s ≡ true → IsHarmless s
  unfolding all_chars
  all_chars_harmless [] h = refl
  all_chars_harmless (c ∷ s) h = ground (arith, harmless (code c), all_chars_harmless s)

plain_harmless : (s : String) → is_plain_identifier s ≡ true → IsHarmless s
unfolding is_plain_identifier
plain_harmless [] h = cc
plain_harmless (c ∷ s) h =
    ground (arith, all_chars_harmless is_identifier_char identifier_harmless s)

-- Parts that are harmless, of a split at a harmless character.
module _ (p : String → Bool) (harmless : (s : String) → p s ≡ true → IsHarmless s) where
  all_harmless : (xs : List String) → all p xs ≡ true → All IsHarmless xs
  all_harmless List.[] h = tt
  all_harmless (List.◌∷◌ x xs) h = (harmless x (ground arith), all_harmless xs (ground arith))

prepend_harmless :
    (c : Char) (xs : List String)
    → All IsHarmless (prepend c xs)
    → (is_harmless (code c) ≡ true) × All IsHarmless xs
unfolding prepend all_chars
prepend_harmless c List.[] (h, _) = (ground arith, tt)
prepend_harmless c (List.◌∷◌ x xs) (h, hs) = (ground arith, (ground arith, hs))

split_harmless :
    (k : ℕ) → is_harmless k ≡ true → (s : String) → All IsHarmless (split_char k s) → IsHarmless s
unfolding split_char all_chars
split_harmless k hk [] h = refl
split_harmless k hk (c ∷ s) h = elim (Bool-cases (code c =ℕ= k)) [
  | inl e ↦
      let h' : All IsHarmless (List.◌∷◌ "" (split_char k s)) = rw (e, split_char) at h in
      ground (arith, split_harmless k hk s h'.1)
  | inr e ↦
      let h' : All IsHarmless (prepend c (split_char k s)) = rw (e, split_char) at h in
      let (a, b) = prepend_harmless c (split_char k s) h' in
      ground (arith, a, split_harmless k hk s b)
]

dotted_harmless : (s : String) → all is_plain_identifier (split_char b'.' s) ≡ true → IsHarmless s
dotted_harmless s h =
    split_harmless b'.' refl s
      (all_harmless is_plain_identifier plain_harmless (split_char b'.' s) h)

digits_harmless : (s : String) → digits_ok s ≡ true → IsHarmless s
unfolding digits_ok
digits_harmless s h = all_chars_harmless is_ascii_digit digit_harmless s (ground arith)

fraction_harmless : (s : String) → (s == "" || digits_ok s) ≡ true → IsHarmless s
unfolding all_chars
fraction_harmless s h = elim (Bool-cases (s == "")) [
  | inl e ↦ rw ((eq_iff s "").0 e) refl
  | inr e ↦ digits_harmless s (ground arith)
]

mantissa_harmless : (xs : List String) → mantissa_ok xs ≡ true → All IsHarmless xs
unfolding mantissa_ok
mantissa_harmless List.[] h = tt
mantissa_harmless (List.◌∷◌ a List.[]) h = (digits_harmless a h, tt)
mantissa_harmless (List.◌∷◌ a (List.◌∷◌ b List.[])) h =
    (digits_harmless a (ground arith), (fraction_harmless b (ground arith), tt))
mantissa_harmless (List.◌∷◌ a (List.◌∷◌ b (List.◌∷◌ c cs))) h = cc

unsigned_harmless : (s : String) → IsHarmless (unsigned s) → IsHarmless s
unfolding unsigned all_chars
unsigned_harmless [] h = refl
unsigned_harmless (c ∷ s) h = ground arith

exponent_harmless : (e : String) → exponent_ok (some e) ≡ true → IsHarmless e
unfolding exponent_ok
exponent_harmless e h = unsigned_harmless e (digits_harmless (unsigned e) h)

abbrev HarmlessExponent : Option String → Type 0
HarmlessExponent none = Unit
HarmlessExponent (some e) = IsHarmless e

exponents_harmless : (o : Option String) → exponent_ok o ≡ true → HarmlessExponent o
exponents_harmless none h = tt
exponents_harmless (some e) h = exponent_harmless e h

split_exponent_harmless :
    (s : String)
    → IsHarmless (split_exponent s).0
    → HarmlessExponent (split_exponent s).1
    → IsHarmless s
unfolding split_exponent all_chars
split_exponent_harmless [] h k = refl
split_exponent_harmless (c ∷ s) h k = elim (Bool-cases (code c =ℕ= b'e' || code c =ℕ= b'E')) [
  | inl e ↦ let k' : IsHarmless s = rw (e, split_exponent) at k in ground (arith, k')
  | inr e ↦
      let h' : IsHarmless (c ∷ (split_exponent s).0) = rw (e, split_exponent) at h in
      let k' : HarmlessExponent (split_exponent s).1 = rw (e, split_exponent) at k in
      ground (arith, h', split_exponent_harmless s (ground arith) k')
]

numeric_harmless : (s : String) → is_numeric_literal s ≡ true → IsHarmless s
unfolding is_numeric_literal
numeric_harmless s h =
    let (mantissa, exponent) = split_exponent (unsigned s) in
    unsigned_harmless s (
      split_exponent_harmless (unsigned s)
        (split_harmless b'.' refl mantissa
          (mantissa_harmless (split_char b'.' mantissa) (ground arith)))
        (exponents_harmless exponent (ground arith)))

abbrev pub IsHarmlessArg : FunctionArg → Type 0
IsHarmlessArg (column text) = IsHarmless text
IsHarmlessArg (number text) = IsHarmless text

-- A call of the fixed list, all of whose text is harmless.
pub record IsSafeCall (call : FunctionCall) : Type 0 where
  pub allowed : is_allowed_function call.name ≡ true
  pub name : IsHarmless call.name
  pub args : All IsHarmlessArg call.args

-- The branches of `parse_arg`.
parse_arg_safe : (expr raw : String) → Ensures IsHarmlessArg (parse_arg expr raw)
unfolding parse_arg
parse_arg_safe expr raw =
    let part = trim raw in
    let plain =
      leb (length (split_char b'.' part)) 2 && all is_plain_identifier (split_char b'.' part) in
    elim (Bool-cases (part == "")) [
      | inl e ↦ rw (e, parse_arg) tt
      | inr e ↦ elim (Bool-cases (is_numeric_literal part)) [
        | inl n ↦ rw (e, n, parse_arg) (numeric_harmless part n)
        | inr n ↦ elim (Bool-cases plain) [
          | inl q ↦ rw (e, n, q, parse_arg) (dotted_harmless part (ground arith))
          | inr q ↦ rw (e, n, q, parse_arg) tt
        ]
      ]
    ]

parse_args_safe :
    (expr : String) (raws : List String) → Ensures (All IsHarmlessArg) (parse_args expr raws)
unfolding parse_args
parse_args_safe expr List.[] = tt
parse_args_safe expr (List.◌∷◌ raw raws) =
    Ensures-bind IsHarmlessArg (All IsHarmlessArg) (parse_arg expr raw) _ (parse_arg_safe expr raw)
      λ arg h.
        Ensures-bind (All IsHarmlessArg) (All IsHarmlessArg) (parse_args expr raws) _
          (parse_args_safe expr raws) λ args hs. (h, hs)

abbrev SafeIfCall : Option FunctionCall → Type 0
SafeIfCall none = Unit
SafeIfCall (some call) = IsSafeCall call

parse_body_safe :
    (expr name : String) (o : Option (String × String))
    → IsHarmless name
    → Ensures SafeIfCall (parse_body expr name o)
unfolding parse_body
parse_body_safe expr name none h = tt
parse_body_safe expr name (some (src, rest)) h = elim (Bool-cases (trim rest == "")) [
  | inr e ↦ rw (e, parse_body) tt
  | inl e ↦ elim (Bool-cases (is_allowed_function name)) [
    | inr a ↦ rw (e, a, parse_body) tt
    | inl a ↦ elim (Bool-cases (trim src == "")) [
      | inl b ↦ rw (e, a, b, parse_body) record { allowed = a; name = h; args = tt }
      | inr b ↦
          rw (e, a, b, parse_body)
            (Ensures-bind (All IsHarmlessArg) SafeIfCall (parse_args expr (split_char b',' src)) _
              (parse_args_safe expr (split_char b',' src))
              λ args hs. record { allowed = a; name = h; args = hs })
    ]
  ]
]

call_name_harmless :
    (before body : String) → call_name (some (before, body)) ≡ true → IsHarmless (trim before)
unfolding call_name
call_name_harmless before body h = dotted_harmless (trim before) (ground arith)

parse_opened_safe :
    (expr : String) (o : Option (String × String))
    → call_name o ≡ true
    → Ensures SafeIfCall (parse_opened expr o)
unfolding parse_opened
parse_opened_safe expr none h = tt
parse_opened_safe expr (some (before, body)) h =
    parse_body_safe expr (trim before) (rsplit_once b')' body) (call_name_harmless before body h)

parse_function_call-Ensures : (text : String) → Ensures SafeIfCall (parse_function_call text)
unfolding parse_function_call looks_like_function_call
parse_function_call-Ensures text =
    let o = split_once b'(' (trim text) in
    elim (Bool-cases (call_name o)) [
      | inl e ↦ rw (e, parse_function_call) (parse_opened_safe (trim text) o e)
      | inr e ↦ rw (e, parse_function_call) tt
    ]

-- Where an expression is accepted as a function call, the function is on the fixed list, and its
-- name and every argument consist of letters, digits, `_`, `$`, `.`, `+` and `-`.
pub parse_function_call-IsSafeCall :
    (text : String) (call : FunctionCall)
    → parse_function_call text ≡ ok (some call)
    → IsSafeCall call
parse_function_call-IsSafeCall text call h =
    of_Ensures SafeIfCall (parse_function_call text) (parse_function_call-Ensures text) h
