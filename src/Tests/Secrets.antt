-- ===== src/Tests/Secrets.antt =====
-- The theorems about the secret references of crates/graphnight-core at concrete inputs.
use graphnight.Base.{
  ◌≡◌, refl, String, true, Option, none, some, ok, ◌==◌, if◌then◌else◌, strip_prefix,
}
use graphnight.Core.Secrets.{
  require_secret_refs_enabled, validate_connection_string_input, resolve_connection_string,
}
use graphnight.Core.Secrets.References.{IsResolved, validate_connection_string_input-IsResolved}

abbrev env : String → Option String
env var = if var == "DB" then some "postgres://db" else some "1"

accepted : validate_connection_string_input env "env:DB" ≡ ok tt
unfolding validate_connection_string_input require_secret_refs_enabled
    graphnight.Core.Secrets.is_env_secret_ref strip_prefix graphnight.Base.contains_char
accepted = refl

required : require_secret_refs_enabled env ≡ true
unfolding require_secret_refs_enabled
required = refl

validate_connection_string_input-IsResolved_example :
    (name : String) × (strip_prefix "env:DB" "env:" ≡ some name)
    × IsResolved env "env:DB" name (resolve_connection_string env "env:DB")
validate_connection_string_input-IsResolved_example =
    validate_connection_string_input-IsResolved env "env:DB" required accepted
