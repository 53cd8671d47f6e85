-- ===== src/Core/Security/Masks/Hiding.antt =====
-- What the masks of e-mail addresses and phone numbers let through.
use Prim.Native.String.{[], ◌∷◌}
use text.Mathlib.TextLemmas.{nil-append, cons-append}
use graphnight.Base.{
  ℕ, ◌+◌, ◌<◌, ◌≡◌, ◌≢◌, refl, ap, ◌∙◌, String, Char, code, some, arith, leb, if◌then◌else◌, ◌+s◌,
  count,
}
use graphnight.Core.Security.Masks.{
  byte_len, split_at_char, one_byte, first_byte, last_byte, masked_local, email_parts, email_mask,
  phone_mask, digits_of, drop_chars, last_four,
}

-- No character of the text has the code `k`.
abbrev pub Lacks : ℕ → String → Type 0
Lacks k [] = Unit
Lacks k (c ∷ s) = (code c ≢ k) × Lacks k s

split_at_char-append :
    (k : ℕ) (s : String) (a : Char) (rest : String)
    → Lacks k s
    → code a ≡ k
    → split_at_char k (s +s (a ∷ rest)) ≡ some (s, a ∷ rest)
unfolding split_at_char
split_at_char-append k [] a rest h e = rw nil-append (ground arith)
split_at_char-append k (c ∷ s) a rest (h, hs) e =
    rw cons-append (ground (arith, split_at_char-append k s a rest hs e))

byte_len-pos : (c : Char) (s : String) → 0 < byte_len (c ∷ s)
unfolding byte_len
byte_len-pos c s = ground arith

byte_len-append_char : (s : String) (d : Char) → byte_len s < byte_len (s +s (d ∷ []))
unfolding byte_len
byte_len-append_char [] d = rw nil-append (ground arith)
byte_len-append_char (c ∷ s) d = rw cons-append (omega (arith, byte_len-append_char s d))

last_byte-append : (c : Char) (s : String) (d : Char) → last_byte (c ∷ (s +s (d ∷ []))) ≡ one_byte d
unfolding last_byte
last_byte-append c [] d = rw nil-append refl
last_byte-append c (e ∷ s) d = rw cons-append (last_byte-append e s d)

Lacks-append : (k : ℕ) (s : String) (d : Char) → Lacks k s → code d ≢ k → Lacks k (s +s (d ∷ []))
Lacks-append k [] d h n = rw nil-append (n, tt)
Lacks-append k (c ∷ s) d (m, h) n = rw cons-append (m, Lacks-append k s d h n)

-- The address `c` `m` `d` `@` `rest`.
abbrev pub address : Char → String → Char → Char → String → String
address c m d a rest = (c ∷ (m +s (d ∷ []))) +s (a ∷ rest)

long_local : (c x : Char) (m : String) (d : Char) → 2 < byte_len (c ∷ ((x ∷ m) +s (d ∷ [])))
unfolding byte_len
long_local c x m d = ground (arith, byte_len-append_char (x ∷ m) d, byte_len-pos x m)

one_byte_ascii : (c : Char) → code c < 128 → one_byte c ≡ some (c ∷ [])
unfolding one_byte
one_byte_ascii c h = ground arith

-- A long local part whose ends are one byte each.
shown_ends :
    (local domain : String) {a z : String}
    → 2 < byte_len local
    → first_byte local ≡ some a
    → last_byte local ≡ some z
    → email_parts (some (local, domain)) ≡ some (a +s "***" +s z +s domain)
unfolding email_parts masked_local
shown_ends local domain h p q = ground arith

-- Of an address whose local part begins and ends with the ASCII characters `c` and `d`, with
-- something between them and no `@` in it, the mask shows `c`, `d` and the domain, and nothing of
-- what stands between `c` and `d`.
email_mask-address :
    (c x : Char) (m : String) (d a : Char) (rest : String)
    → code c < 128
    → code d < 128
    → code a ≡ b'@'
    → Lacks b'@' (c ∷ ((x ∷ m) +s (d ∷ [])))
    → email_mask (address c (x ∷ m) d a rest) ≡ some ((c ∷ []) +s "***" +s (d ∷ []) +s (a ∷ rest))
unfolding email_mask first_byte
email_mask-address c x m d a rest hc hd ha h =
    let local = c ∷ ((x ∷ m) +s (d ∷ [])) in
    ap email_parts (split_at_char-append b'@' local a rest h ha)
    ∙ shown_ends local (a ∷ rest) (long_local c x m d) (one_byte_ascii c hc)
        (last_byte-append c (x ∷ m) d ∙ one_byte_ascii d hd)

count-append : (s t : String) → count (s +s t) ≡ count s + count t
count-append [] t = rw nil-append (omega arith)
count-append (c ∷ s) t = rw cons-append (omega (arith, count-append s t))

drop_chars-count : (s t : String) → drop_chars (count s) (s +s t) ≡ t
unfolding drop_chars
drop_chars-count [] t = nil-append t
drop_chars-count (c ∷ s) t = rw cons-append (drop_chars-count s t)

last_four-append : (s t : String) → count t ≡ 4 → last_four (s +s t) ≡ t
unfolding last_four
last_four-append s t h =
    ap (λ n. drop_chars n (s +s t)) (omega (arith, count-append s t)) ∙ drop_chars-count s t

-- Where the digits of a phone number are `s` and then four digits `t`, and ten or more in all, the
-- mask shows `t` and nothing of `s`; a number with fewer than ten digits is masked whole.
phone_mask-digits :
    (value s t : String)
    → digits_of value ≡ s +s t
    → count t ≡ 4
    → phone_mask value ≡ (if leb 6 (count s) then "(***) ***-" +s t else "***-***-****")
unfolding phone_mask
phone_mask-digits value s t e h = rw (e, last_four-append s t h) (ground (arith, count-append s t))

-- Of an address whose local part begins and ends with the ASCII characters `c` and `d`, with something
-- between them and no `@` in it, the mask shows those two and the domain only. Of a phone number whose
-- digits are `s` and then four digits `t` the mask shows `t` if they are ten or more in all, and nothing
-- otherwise.
pub email_mask-phone_mask :
    (c x : Char) (m : String) (d a : Char) (rest value s t : String)
    → code c < 128
    → code d < 128
    → code a ≡ b'@'
    → Lacks b'@' (c ∷ ((x ∷ m) +s (d ∷ [])))
    → digits_of value ≡ s +s t
    → count t ≡ 4
    → (email_mask (address c (x ∷ m) d a rest) ≡ some ((c ∷ []) +s "***" +s (d ∷ []) +s (a ∷ rest)))
      × (phone_mask value ≡ (if leb 6 (count s) then "(***) ***-" +s t else "***-***-****"))
email_mask-phone_mask c x m d a rest value s t hc hd ha h e k =
    (email_mask-address c x m d a rest hc hd ha h, phone_mask-digits value s t e k)
