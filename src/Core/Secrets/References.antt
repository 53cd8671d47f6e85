-- ===== src/Core/Secrets/References.antt =====
-- A connection string that is accepted, and what it is resolved to, in secrets.rs.
use graphnight.Base.{
  ◌≡◌, ◌⊎◌, inl, inr, refl, String, true, false, Bool-cases, Option, none, some, Result, ok, err,
  ◌==◌, eq_iff, trim, strip_prefix, contains_char, contains_char-trim, arith,
}
use graphnight.Core.Secrets.{
  require_secret_refs_enabled, names_variable, is_env_secret_ref, variable_of, env_secret_var_name,
  missing, read_variable, resolve_as, resolve_connection_string, validate_connection_string_input,
}

-- What the variable holds, or the error that names it.
abbrev pub held : String → Option String → Result String String
held var none = err (missing var)
held var (some secret) = ok secret

read_variable-held : (var : String) (o : Option String) → read_variable var o ≡ held var o
unfolding read_variable
read_variable-held var none = refl
read_variable-held var (some secret) = refl

-- What a reference is resolved to: what its variable holds, or itself if the name is blank.
abbrev pub IsResolved : (String → Option String) → String → String → Result String String → Type 0
IsResolved env value name result =
    ((trim name ≡ "") × (result ≡ ok value)) ⊎ (result ≡ held (trim name) (env (trim name)))

resolve_as-IsResolved :
    (env : String → Option String) (value : String) (o : Option String)
    → names_variable o ≡ true
    → (name : String) × (o ≡ some name)
      × IsResolved env value name (resolve_as env value (variable_of o))
unfolding names_variable variable_of resolve_as
resolve_as-IsResolved env value none h = cc
resolve_as-IsResolved env value (some name) h =
    let plain : contains_char b':' name ≡ false = ground arith in
    let trimmed = contains_char-trim b':' name plain in
    elim (Bool-cases (trim name == "")) [
      | inl e ↦
          (name, refl, rw (resolve_as, variable_of, e) (inl ((eq_iff (trim name) "").0 e, refl)))
      | inr e ↦ (
        name,
        refl,
        rw (resolve_as, variable_of, e, trimmed)
            (inr (read_variable-held (trim name) (env (trim name)))),
      )
    ]

-- Where references are required, a connection string that is accepted begins with `env:`, and it is
-- resolved to what the variable behind it holds, or to the error that names the variable, unless the
-- name is blank: then the string itself is the answer.
pub validate_connection_string_input-IsResolved :
    (env : String → Option String) (value : String)
    → require_secret_refs_enabled env ≡ true
    → validate_connection_string_input env value ≡ ok tt
    → (name : String) × (strip_prefix value "env:" ≡ some name)
      × IsResolved env value name (resolve_connection_string env value)
unfolding validate_connection_string_input resolve_connection_string env_secret_var_name
    is_env_secret_ref
validate_connection_string_input-IsResolved env value on h =
    elim (Bool-cases (is_env_secret_ref value)) [
      | inl e ↦ resolve_as-IsResolved env value (strip_prefix value "env:") e
      | inr e ↦ let k : err _ ≡ ok tt = rw (on, e) at h in cc
    ]
