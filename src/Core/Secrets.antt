-- ===== src/Core/Secrets.antt =====
-- crates/graphnight-core/src/secrets.rs: connection strings that name a variable of the environment, which
-- is a function.
pub mod References
use graphnight.Base.{
  String, Bool, true, false, ◌&&◌, ◌||◌, not, Option, none, some, Result, ok, err, ◌+s◌, ◌==◌,
  if◌then◌else◌, trim, strip_prefix, contains_char, eq_ignore_ascii_case,
}

abbrev env_secret_prefix : String
env_secret_prefix = "env:"

is_on : Option String → Bool
is_on none = false
is_on (some v) = v == "1" || eq_ignore_ascii_case v "true"

unfoldable pub require_secret_refs_enabled : (String → Option String) → Bool
unfolding is_on
require_secret_refs_enabled env = is_on (env "GRAPHNIGHT_REQUIRE_SECRET_REFS")

names_variable : Option String → Bool
names_variable none = false
names_variable (some name) = not (name == "") && not (contains_char b':' name)

unfoldable pub is_env_secret_ref : String → Bool
unfolding names_variable
is_env_secret_ref value = names_variable (strip_prefix value env_secret_prefix)

variable_of : Option String → Option String
variable_of none = none
variable_of (some name) =
    if trim name == "" || contains_char b':' (trim name) then none else some (trim name)

unfoldable pub env_secret_var_name : String → Option String
unfolding variable_of
env_secret_var_name value = variable_of (strip_prefix value env_secret_prefix)

abbrev pub missing : String → String
missing var =
    "secret reference env:" +s var +s " is set but environment variable '" +s var +s "' is missing"

read_variable : String → Option String → Result String String
read_variable var none = err (missing var)
read_variable var (some secret) = ok secret

resolve_as : (String → Option String) → String → Option String → Result String String
unfolding read_variable
resolve_as env value none = ok value
resolve_as env value (some var) = read_variable var (env var)

unfoldable pub resolve_connection_string : (String → Option String) → String → Result String String
unfolding resolve_as
resolve_connection_string env value = resolve_as env value (env_secret_var_name value)

unfoldable pub validate_connection_string_input :
    (String → Option String) → String → Result String Unit
validate_connection_string_input env value =
    if not (require_secret_refs_enabled env)
    then ok tt
    else if is_env_secret_ref value
    then ok tt
    else err
        "GRAPHNIGHT_REQUIRE_SECRET_REFS=1: connection_string must be env:VARNAME (e.g. env:GRAPHNIGHT_DATASOURCE_DEMO)"
