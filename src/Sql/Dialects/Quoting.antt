-- ===== src/Sql/Dialects/Quoting.antt =====
-- How a database reads what the dialects quote: identifiers and text literals come back whole, and the
-- text behind them is not touched.
use Prim.Native.String.{[], ◌∷◌}
use text.Mathlib.TextEquality.{Char-path}
use text.Mathlib.TextLemmas.{nil-append, cons-append, append_assoc}
use graphnight.Base.{
  ℕ, ◌≡◌, ◌≢◌, refl, ap, subst, String, Char, code, Bool, true, false, Option, none, some, ◌||◌,
  if◌then◌else◌, ◌+s◌, ◌=ℕ=◌, replace_char, arith, Bool-cases, inl, inr,
}
use graphnight.Sql.Dialects.{Dialect, postgres, mysql, sqlite, duckdb, quote_ident}
use graphnight.Sql.Dialects.Literals.{escape_literal, text_literal}

push : Char → Option (String × String) → Option (String × String)
push c none = none
push c (some (a, b)) = some (c ∷ a, b)

-- What stands up to the closing quote `k`, and the text behind it. Two quotes are one character; the
-- flag says that a quote was just read.
scan : ℕ → Bool → String → Option (String × String)
scan k false [] = none
scan k false (c ∷ s) =
    let closed = scan k true s in
    let longer = push c (scan k false s) in if code c =ℕ= k then closed else longer
scan k true [] = some ("", "")
scan k true (c ∷ s) =
    let longer = push c (scan k false s) in if code c =ℕ= k then longer else some ("", c ∷ s)

-- A quoted token at the start of a text.
read_quoted : ℕ → String → Option (String × String)
read_quoted k [] = none
read_quoted k (c ∷ s) = let inner = scan k false s in if code c =ℕ= k then inner else none

-- The same in a MySQL literal, where a backslash escapes a backslash.
data Mode : Type 0 where
  plain quoted escaped : Mode

mysql_scan : Mode → String → Option (String × String)
mysql_scan plain [] = none
mysql_scan plain (c ∷ s) =
    let after_quote = mysql_scan quoted s in
    let after_slash = mysql_scan escaped s in
    let longer = push c (mysql_scan plain s) in
    if code c =ℕ= 0x5c then after_slash else if code c =ℕ= 0x27 then after_quote else longer
mysql_scan quoted [] = some ("", "")
mysql_scan quoted (c ∷ s) =
    let longer = push c (mysql_scan plain s) in if code c =ℕ= 0x27 then longer else some ("", c ∷ s)
mysql_scan escaped [] = none
mysql_scan escaped (c ∷ s) =
    let longer = push c (mysql_scan plain s) in if code c =ℕ= 0x5c then longer else none

abbrev ident_quote : Dialect → ℕ
ident_quote mysql = b'`'
ident_quote postgres = 0x22
ident_quote sqlite = 0x22
ident_quote duckdb = 0x22

pub read_ident : Dialect → String → Option (String × String)
unfolding read_quoted scan push
read_ident d s = read_quoted (ident_quote d) s

read_mysql : String → Option (String × String)
read_mysql [] = none
read_mysql (c ∷ s) = let inner = mysql_scan plain s in if code c =ℕ= 0x27 then inner else none

pub read_literal : Dialect → String → Option (String × String)
unfolding read_quoted scan push mysql_scan read_mysql
read_literal mysql s = read_mysql s
read_literal postgres s = read_quoted 0x27 s
read_literal sqlite s = read_quoted 0x27 s
read_literal duckdb s = read_quoted 0x27 s

-- The text does not begin with the character `k`.
abbrev pub NotFirst : ℕ → String → Type 0
NotFirst k [] = Unit
NotFirst k (c ∷ s) = code c ≢ k

module _ (k : ℕ) (q : Char) (is_quote : code q ≡ k) where
  scan_closed : (rest : String) → NotFirst k rest → scan k true rest ≡ some ("", rest)
  unfolding scan
  scan_closed [] h = refl
  scan_closed (c ∷ s) h = ground arith

  scan_pair : (t : String) → scan k false (q ∷ q ∷ t) ≡ push q (scan k false t)
  unfolding scan
  scan_pair t = ground arith

  pair-append : (r t : String) → ((q ∷ q ∷ []) +s r) +s t ≡ q ∷ q ∷ (r +s t)
  pair-append r t = simp (cons-append, nil-append)

  scan_plain :
      (c : Char) (t : String)
      → code c =ℕ= k ≡ false
      → scan k false (c ∷ t) ≡ push c (scan k false t)
  unfolding scan
  scan_plain c t e = ground arith

  same_char : (c : Char) → code c =ℕ= k ≡ true → q ≡ c
  same_char c e = Char-path q c (ground arith)

  scan-replace_char :
      (s rest : String)
      → NotFirst k rest
      → scan k false (replace_char k (q ∷ q ∷ []) s +s (q ∷ rest)) ≡ some (s, rest)
  unfolding replace_char push
  scan-replace_char [] rest h = rw nil-append (unfold scan in ground (arith, scan_closed rest h))
  scan-replace_char (c ∷ s) rest h = elim (Bool-cases (code c =ℕ= k)) [
    | inl e ↦ rw e (
        rw (pair-append, scan_pair, scan-replace_char s rest h)
          (ap (λ x. some (x ∷ s, rest)) (same_char c e)))
    | inr e ↦ rw (e, cons-append) (rw (scan_plain c _ e, scan-replace_char s rest h))
  ]

  token-append : (r rest : String) → ((q ∷ []) +s r +s (q ∷ [])) +s rest ≡ q ∷ (r +s (q ∷ rest))
  token-append r rest = simp (append_assoc, cons-append, nil-append)

  -- A token whose quotes are doubled is read back, and what stands behind it is left.
  read_token :
      (s rest : String)
      → NotFirst k rest
      → read_quoted k (((q ∷ []) +s replace_char k (q ∷ q ∷ []) s +s (q ∷ [])) +s rest)
        ≡ some (s, rest)
  unfolding read_quoted
  read_token s rest h =
      rw (token-append (replace_char k (q ∷ q ∷ []) s) rest)
        (ground (arith, scan-replace_char s rest h))

-- An identifier that a dialect quotes is read back whole, whatever its characters, and the text
-- behind it is left as it is, if that does not begin with another quote.
pub read_ident-quote_ident :
    (d : Dialect) (ident rest : String)
    → NotFirst (ident_quote d) rest
    → read_ident d (quote_ident d ident +s rest) ≡ some (ident, rest)
unfolding read_ident quote_ident
read_ident-quote_ident mysql ident rest h = read_token b'`' "`" refl ident rest h
read_ident-quote_ident postgres ident rest h = read_token 0x22 "\"" refl ident rest h
read_ident-quote_ident sqlite ident rest h = read_token 0x22 "\"" refl ident rest h
read_ident-quote_ident duckdb ident rest h = read_token 0x22 "\"" refl ident rest h

pair_cons : (q : Char) (t : String) → (q ∷ q ∷ []) +s t ≡ q ∷ q ∷ t
pair_cons q t = simp (cons-append, nil-append)

abbrev slash : Char
slash = "\\"

abbrev apostrophe : Char
apostrophe = "'"

-- `escape_literal` doubles backslashes and quotes, and leaves all other characters.
abbrev Doubles : Char → Type 0
Doubles c = (s : String) → escape_literal (c ∷ s) ≡ c ∷ c ∷ escape_literal s

Doubles-slash : Doubles slash
unfolding escape_literal replace_char
Doubles-slash s = ap (replace_char 0x27 "''") (pair_cons slash (replace_char 0x5c "\\\\" s))

Doubles-apostrophe : Doubles apostrophe
unfolding escape_literal replace_char
Doubles-apostrophe s = pair_cons apostrophe (replace_char 0x27 "''" (replace_char 0x5c "\\\\" s))

escape_other :
    (c : Char) (s : String)
    → code c =ℕ= 0x27 ≡ false
    → code c =ℕ= 0x5c ≡ false
    → escape_literal (c ∷ s) ≡ c ∷ escape_literal s
unfolding escape_literal replace_char
escape_other c s e f = rw (f, escape_literal) (rw (e, escape_literal))

mysql_scan_pair :
    (c : Char) (t : String)
    → ((code c =ℕ= 0x27) || (code c =ℕ= 0x5c)) ≡ true
    → mysql_scan plain (c ∷ c ∷ t) ≡ push c (mysql_scan plain t)
unfolding mysql_scan
mysql_scan_pair c t e = ground arith

mysql_scan_plain :
    (c : Char) (t : String)
    → code c =ℕ= 0x27 ≡ false
    → code c =ℕ= 0x5c ≡ false
    → mysql_scan plain (c ∷ t) ≡ push c (mysql_scan plain t)
unfolding mysql_scan
mysql_scan_plain c t e f = ground arith

Doubles-special : (c : Char) → ((code c =ℕ= 0x27) || (code c =ℕ= 0x5c)) ≡ true → Doubles c
Doubles-special c e = elim (Bool-cases (code c =ℕ= 0x27)) [
  | inl q ↦ subst Doubles (Char-path apostrophe c (ground arith)) Doubles-apostrophe
  | inr q ↦ subst Doubles (Char-path slash c (ground arith)) Doubles-slash
]

mysql_closed : (rest : String) → NotFirst 0x27 rest → mysql_scan quoted rest ≡ some ("", rest)
unfolding mysql_scan
mysql_closed [] h = refl
mysql_closed (c ∷ s) h = ground arith

mysql_scan-escape_literal :
    (s rest : String)
    → NotFirst 0x27 rest
    → mysql_scan plain (escape_literal s +s (apostrophe ∷ rest)) ≡ some (s, rest)
mysql_scan-escape_literal [] rest h =
    unfold escape_literal replace_char mysql_scan in rw nil-append (mysql_closed rest h)
mysql_scan-escape_literal (c ∷ s) rest h =
    elim (Bool-cases ((code c =ℕ= 0x27) || (code c =ℕ= 0x5c))) [
      | inl e ↦
          rw
            (
              Doubles-special c e,
              cons-append,
              cons-append,
              mysql_scan_pair c _ e,
              mysql_scan-escape_literal s rest h,
            )
            (unfold push in refl)
      | inr e ↦
          rw
            (
              escape_other c s (ground arith) (ground arith),
              cons-append,
              mysql_scan_plain c _ (ground arith) (ground arith),
              mysql_scan-escape_literal s rest h,
            )
            (unfold push in refl)
    ]

-- A text literal of any dialect is read back whole, whatever the text, so no value can close its own
-- quotes; the text behind it is left as it is, if that does not begin with a quote.
pub read_literal-text_literal :
    (d : Dialect) (s rest : String)
    → NotFirst 0x27 rest
    → read_literal d (text_literal d s +s rest) ≡ some (s, rest)
unfolding read_literal text_literal
read_literal-text_literal mysql s rest h =
    rw (token-append 0x27 apostrophe refl (escape_literal s) rest)
      (mysql_scan-escape_literal s rest h)
read_literal-text_literal postgres s rest h = read_token 0x27 "'" refl s rest h
read_literal-text_literal sqlite s rest h = read_token 0x27 "'" refl s rest h
read_literal-text_literal duckdb s rest h = read_token 0x27 "'" refl s rest h
