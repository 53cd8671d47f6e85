-- ===== src/Base/Text.antt =====
-- Rust's operations on `&str` that the program uses, over native texts.
use native.Mathlib.Omega.{arith}
use Prim.Native.Nat.{◌≤◌, ℕ, zero, suc, ◌+◌, ◌/◌, ◌%◌}
use Prim.Native.Char.{Char, code}
use Prim.Native.String
use Prim.Native.String.{String, [], ◌∷◌}
use mathlib.Core.Path.{◌≡◌, refl}
use mathlib.Core.Logic.{inl, inr}
use mathlib.Core.Bool.{Bool, true, false, ◌&&◌, ◌||◌}
use mathlib.Core.List.{List}
use mathlib.Core.Option.{Option, none, some}
use text.Mathlib.Text.{◌==◌}
use text.Mathlib.TextEquality.{eq_iff}
use graphnight.Base.Tests.{is_some, ltb, leb, ◌=ℕ=◌, if◌then◌else◌, Bool-cases}

infixr 66 ◌+s◌
abbrev pub ◌+s◌ : String → String → String
a +s b = String.◌++◌ a b

-- The code points of a text.
abbrev pub codes : String → List ℕ
codes [] = List.[]
codes (c ∷ s) = List.◌∷◌ (code c) (codes s)

-- `s.contains(c)` for a character.
unfoldable pub contains_char : ℕ → String → Bool
contains_char k [] = false
contains_char k (c ∷ s) = code c =ℕ= k || contains_char k s

-- Every character passes a test on its code point.
unfoldable pub all_chars : (ℕ → Bool) → String → Bool
all_chars p [] = true
all_chars p (c ∷ s) = p (code c) && all_chars p s

-- `parts.join(sep)`.
unfoldable pub join : String → List String → String
join sep List.[] = []
join sep (List.◌∷◌ x List.[]) = x
join sep (List.◌∷◌ x (List.◌∷◌ y ys)) = x +s sep +s join sep (List.◌∷◌ y ys)

-- `s.replace(c, with)` for a character.
unfoldable pub replace_char : ℕ → String → String → String
replace_char k by [] = []
replace_char k by (c ∷ s) =
    if code c =ℕ= k then by +s replace_char k by s else c ∷ replace_char k by s

-- `s.split(c)` for a character: at least one part.
unfoldable pub prepend : Char → List String → List String
prepend c List.[] = List.◌∷◌ (c ∷ []) List.[]
prepend c (List.◌∷◌ x xs) = List.◌∷◌ (c ∷ x) xs

unfoldable pub split_char : ℕ → String → List String
unfolding prepend
split_char k [] = List.◌∷◌ "" List.[]
split_char k (c ∷ s) =
    let rest = split_char k s in if code c =ℕ= k then List.◌∷◌ "" rest else prepend c rest

-- The code points with the Unicode property White_Space.
unfoldable pub is_whitespace : ℕ → Bool
is_whitespace c =
    (leb 9 c && leb c 13)
    || c =ℕ= 0x20
    || c =ℕ= 0x85
    || c =ℕ= 0xa0
    || c =ℕ= 0x1680
    || (leb 0x2000 c && leb c 0x200a)
    || c =ℕ= 0x2028
    || c =ℕ= 0x2029
    || c =ℕ= 0x202f
    || c =ℕ= 0x205f
    || c =ℕ= 0x3000

-- `s.trim()` and its halves.
pub trim_start : String → String
trim_start [] = []
trim_start (c ∷ s) = let rest = trim_start s in if is_whitespace (code c) then rest else c ∷ s

pub trim_end : String → String
trim_end [] = []
trim_end (c ∷ s) =
    let rest = trim_end s in if is_whitespace (code c) && rest == "" then [] else c ∷ rest

unfoldable pub trim : String → String
unfolding trim_start trim_end is_whitespace
trim s = trim_end (trim_start s)

-- `c.is_ascii_digit()`, `is_ascii_alphabetic()`, `is_ascii_alphanumeric()`.
abbrev pub is_ascii_digit : ℕ → Bool
is_ascii_digit c = leb b'0' c && leb c b'9'

abbrev pub is_ascii_alphabetic : ℕ → Bool
is_ascii_alphabetic c = (leb b'a' c && leb c b'z') || (leb b'A' c && leb c b'Z')

abbrev pub is_ascii_alphanumeric : ℕ → Bool
is_ascii_alphanumeric c = is_ascii_alphabetic c || is_ascii_digit c

abbrev to_ascii_lowercase : ℕ → ℕ
to_ascii_lowercase c = if leb b'A' c && leb c b'Z' then c + 32 else c

-- `a.eq_ignore_ascii_case(b)`, and so `a.to_ascii_lowercase() == b` at a lower-case `b`.
unfoldable pub eq_ignore_ascii_case : String → String → Bool
eq_ignore_ascii_case [] [] = true
eq_ignore_ascii_case (c ∷ s) (d ∷ t) =
    to_ascii_lowercase (code c) =ℕ= to_ascii_lowercase (code d) && eq_ignore_ascii_case s t
eq_ignore_ascii_case _ _ = false

-- `a.to_lowercase() == b` at a text `b` of lower-case ASCII letters: besides A to Z only the Kelvin
-- sign has such a letter for its lower case.
lower_code : ℕ → ℕ
lower_code c = if c =ℕ= 0x212a then b'k' else to_ascii_lowercase c

unfoldable pub eq_lowercase : String → String → Bool
unfolding lower_code
eq_lowercase [] [] = true
eq_lowercase (c ∷ s) (d ∷ t) = lower_code (code c) =ℕ= code d && eq_lowercase s t
eq_lowercase _ _ = false

-- `s.strip_prefix(p)`, and so `s.starts_with(p)`.
unfoldable pub strip_prefix : String → String → Option String
strip_prefix s [] = some s
strip_prefix [] (d ∷ t) = none
strip_prefix (c ∷ s) (d ∷ t) =
    let rest = strip_prefix s t in if code c =ℕ= code d then rest else none

unfoldable pub starts_with : String → String → Bool
unfolding strip_prefix
starts_with s p = is_some (strip_prefix s p)

-- `s.strip_suffix(c)` for a character.
unfoldable pub strip_suffix_char : String → ℕ → Option String
strip_suffix_char [] k = none
strip_suffix_char (c ∷ []) k = if code c =ℕ= k then some [] else none
strip_suffix_char (c ∷ d ∷ s) k = elim (strip_suffix_char (d ∷ s) k) [
  | none ↦ none
  | some r ↦ some (c ∷ r)
]

-- `s.contains(t)` for a text.
unfoldable pub contains_text : String → String → Bool
unfolding starts_with
contains_text t [] = t == ""
contains_text t (c ∷ s) = starts_with (c ∷ s) t || contains_text t s

-- The text before the first `k` and the text behind it.
unfoldable pub split_once : ℕ → String → Option (String × String)
split_once k [] = none
split_once k (c ∷ s) =
    let rest : Option (String × String) = elim (split_once k s) [
      | none ↦ none
      | some (a, b) ↦ some (c ∷ a, b)
    ] in
    if code c =ℕ= k then some ([], s) else rest

-- The same at the last `k`: `s.rfind(c)`, `s.rsplit_once(c)`.
unfoldable pub rsplit_once : ℕ → String → Option (String × String)
rsplit_once k [] = none
rsplit_once k (c ∷ s) = elim (rsplit_once k s) [
  | some (a, b) ↦ some (c ∷ a, b)
  | none ↦ if code c =ℕ= k then some ([], s) else none
]

-- The number of characters.
abbrev pub count : String → ℕ
count [] = 0
count (c ∷ s) = suc (count s)

digit : ℕ → String
digit zero = "0"
digit (suc zero) = "1"
digit (suc (suc zero)) = "2"
digit (suc (suc (suc zero))) = "3"
digit (suc (suc (suc (suc zero)))) = "4"
digit (suc (suc (suc (suc (suc zero))))) = "5"
digit (suc (suc (suc (suc (suc (suc zero)))))) = "6"
digit (suc (suc (suc (suc (suc (suc (suc zero))))))) = "7"
digit (suc (suc (suc (suc (suc (suc (suc (suc zero)))))))) = "8"
digit _ = "9"

digits_from : ℕ → ℕ → String → String
digits_from zero n out = out
digits_from (suc fuel) n out =
    let rest = digits_from fuel (n / 10) (digit (n % 10) +s out) in
    if ltb n 10 then digit n +s out else rest

-- `n.to_string()` of an unsigned integer; `n + 1` rounds are enough, since each divides by ten.
unfoldable pub show : ℕ → String
unfolding digits_from digit
show n = digits_from (suc n) n ""

show_examples : (show 0 ≡ "0") × (show 10000 ≡ "10000") × (show 907 ≡ "907")
unfolding show
show_examples = (refl, refl, refl)

count-trim_start : (s : String) → count (trim_start s) ≤ count s
unfolding trim_start
count-trim_start [] = omega arith
count-trim_start (c ∷ s) = ground (arith, count-trim_start s)

count-trim_end : (s : String) → count (trim_end s) ≤ count s
unfolding trim_end
count-trim_end [] = omega arith
count-trim_end (c ∷ s) = elim (Bool-cases (is_whitespace (code c) && trim_end s == "")) [
  | inl e ↦ rw e (omega arith)
  | inr e ↦ rw e (omega (arith, count-trim_end s))
]

pub count-trim : (s : String) → count (trim s) ≤ count s
unfolding trim
count-trim s = omega (arith, count-trim_start s, count-trim_end (trim_start s))

contains_char-trim_start :
    (k : ℕ) (s : String) → contains_char k s ≡ false → contains_char k (trim_start s) ≡ false
unfolding contains_char trim_start
contains_char-trim_start k [] h = h
contains_char-trim_start k (c ∷ s) h = elim (Bool-cases (is_whitespace (code c))) [
  | inl e ↦ rw e (contains_char-trim_start k s (ground arith))
  | inr e ↦ rw e h
]

contains_char-trim_end :
    (k : ℕ) (s : String) → contains_char k s ≡ false → contains_char k (trim_end s) ≡ false
unfolding contains_char trim_end
contains_char-trim_end k [] h = h
contains_char-trim_end k (c ∷ s) h =
    elim (Bool-cases (is_whitespace (code c) && trim_end s == "")) [
      | inl e ↦ rw e refl
      | inr e ↦ rw e (ground (arith, contains_char-trim_end k s))
    ]

-- A character that a text has not, its trimmed text has not.
pub contains_char-trim :
    (k : ℕ) (s : String) → contains_char k s ≡ false → contains_char k (trim s) ≡ false
unfolding trim
contains_char-trim k s h = contains_char-trim_end k (trim_start s) (contains_char-trim_start k s h)

nonempty : (c : Char) (s : String) → (c ∷ s == "") ≡ false
nonempty c s = elim (Bool-cases (c ∷ s == "")) [
  | inl e ↦ let k : c ∷ s ≡ "" = (eq_iff (c ∷ s) "").0 e in cc
  | inr e ↦ e
]

trim_end-visible :
    (c : Char) (s : String) → is_whitespace (code c) ≡ false → trim_end (c ∷ s) ≡ c ∷ trim_end s
unfolding trim_end
trim_end-visible c s e = rw e refl

trim_start-visible :
    (c : Char) (s : String) → is_whitespace (code c) ≡ false → trim_start (c ∷ s) ≡ c ∷ s
unfolding trim_start
trim_start-visible c s e = rw e refl

-- A text that begins with a visible character is not blank.
pub trim-visible :
    (c : Char) (s : String) → is_whitespace (code c) ≡ false → (trim (c ∷ s) == "") ≡ false
unfolding trim
trim-visible c s e = rw (trim_start-visible c s e, trim_end-visible c s e) (nonempty c (trim_end s))
