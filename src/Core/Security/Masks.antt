-- ===== src/Core/Security/Masks.antt =====
-- The built-in mask functions of security.rs. `none` stands for the panic of a slice that does not
-- fall between two characters.
pub mod Hiding
use Prim.Native.String
use Prim.Native.String.{[], ◌∷◌}
use graphnight.Base.{
  ℕ, zero, suc, ◌+◌, ◌-◌, ◌≤◌, ◌<◌, ◌≡◌, ◌≢◌, refl, ap, sym, ◌∙◌, String, Char, code, Bool, true,
  false, Option, none, some, arith, ltb, leb, ◌=ℕ=◌, if◌then◌else◌, ◌+s◌, is_ascii_digit, count,
}

-- The bytes of a text in UTF-8.
byte_width : ℕ → ℕ
byte_width c = if ltb c 128 then 1 else if ltb c 2048 then 2 else if ltb c 65536 then 3 else 4

pub byte_len : String → ℕ
unfolding byte_width
byte_len [] = 0
byte_len (c ∷ s) = byte_width (code c) + byte_len s

-- The text before the first `k`, and the text from there on.
pub split_at_char : ℕ → String → Option (String × String)
split_at_char k [] = none
split_at_char k (c ∷ s) =
    let rest : Option (String × String) = elim (split_at_char k s) [
      | none ↦ none
      | some (a, b) ↦ some (c ∷ a, b)
    ] in
    if code c =ℕ= k then some ([], c ∷ s) else rest

one_byte : Char → Option String
one_byte c = if ltb (code c) 128 then some (c ∷ []) else none

-- `&local[..1]` and `&local[local.len() - 1..]`.
first_byte : String → Option String
first_byte [] = none
first_byte (c ∷ s) = one_byte c

last_byte : String → Option String
last_byte [] = none
last_byte (c ∷ []) = one_byte c
last_byte (c ∷ d ∷ s) = last_byte (d ∷ s)

masked_local : Option String → Option String → String → Option String
masked_local (some a) (some z) domain = some (a +s "***" +s z +s domain)
masked_local (some a) none domain = none
masked_local none z domain = none

email_parts : Option (String × String) → Option String
email_parts none = some "***"
email_parts (some (local, domain)) =
    if ltb 2 (byte_len local)
    then masked_local (first_byte local) (last_byte local) domain
    else some ("***" +s domain)

unfoldable pub email_mask : String → Option String
unfolding email_parts masked_local first_byte last_byte one_byte byte_len split_at_char
email_mask value = email_parts (split_at_char b'@' value)

-- `value.chars().filter(|c| c.is_ascii_digit()).collect()`.
unfoldable pub digits_of : String → String
digits_of [] = []
digits_of (c ∷ s) = let rest = digits_of s in if is_ascii_digit (code c) then c ∷ rest else rest

drop_chars : ℕ → String → String
drop_chars zero s = s
drop_chars (suc n) [] = []
drop_chars (suc n) (c ∷ s) = drop_chars n s

-- The digits are one byte each, so the slice of the last four is one of characters.
last_four : String → String
unfolding drop_chars
last_four digits = drop_chars (count digits - 4) digits

unfoldable pub phone_mask : String → String
unfolding digits_of last_four
phone_mask value =
    let digits = digits_of value in
    if leb 10 (count digits) then "(***) ***-" +s last_four digits else "***-***-****"

abbrev pub ssn_mask : String → String
ssn_mask value = "***-**-****"

unfoldable pub credit_card_mask : String → String
unfolding digits_of last_four
credit_card_mask value =
    let digits = digits_of value in
    if leb 4 (count digits) then "**** **** **** " +s last_four digits else "**** **** **** ****"

email_examples :
    (email_mask "alice@x.org" ≡ some "a***e@x.org")
    × (email_mask "al@x.org" ≡ some "***@x.org")
    × (email_mask "alice" ≡ some "***")
    × (phone_mask "+1 (555) 123-4567" ≡ "(***) ***-4567")
unfolding email_mask phone_mask
email_examples = (refl, refl, refl, refl)
