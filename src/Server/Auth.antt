-- ===== src/Server/Auth.antt =====
-- crates/graphnight-server/src/auth_config.rs: the keys of the server and the identity of a caller. The
-- environment is a function, and the validator of tokens is a parameter: whether it is configured, what
-- its settings come to and what it says of a token. A map is a list of its entries; `order` is the order
-- in which it hands them out.
pub mod Secrets
pub mod Callers
use Prim.Native.Nat.{bit_or, bit_xor}
use graphnight.Base.{
  ℕ, String, Bool, true, false, ◌&&◌, ◌||◌, not, Option, none, some, is_some, List, [], ◌∷◌, ◌++◌,
  Result, ok, err, ◌==◌, ◌=ℕ=◌, if◌then◌else◌, trim, split_char, split_once, eq_ignore_ascii_case,
  contains, length, strip_prefix, or_option,
}
use graphnight.Core.Models
use graphnight.Core.Models.{string, new_filter, eq}
use graphnight.Core.Security.{SessionPolicy, default_policy}
use graphnight.Sql.Cache.Keys.{bytes}

pub record Identity : Type 0 where
  pub user_id : String
  pub is_admin : Bool
  pub tenant_id : Option String

pub record AuthConfig (V : Type 0) : Type 0 where
  pub api_keys : List (String × String)
  pub admin_users : List String
  pub auth_required : Bool
  pub oidc : Option V

-- `HashMap::insert`.
put_key : String → String → List (String × String) → List (String × String)
put_key user key [] = (user, key) ∷ []
put_key user key ((u, k) ∷ rest) =
    let later = put_key user key rest in if u == user then (u, key) ∷ rest else (u, k) ∷ later

add_pair : Option (String × String) → List (String × String) → List (String × String)
unfolding put_key
add_pair none out = out
add_pair (some (user, key)) out = put_key (trim user) (trim key) out

add_pairs : List String → List (String × String) → List (String × String)
unfolding add_pair
add_pairs [] out = out
add_pairs (part ∷ parts) out =
    add_pairs parts (if trim part == "" then out else add_pair (split_once b':' (trim part)) out)

unfoldable pub parse_key_pairs : Option String → List (String × String) → List (String × String)
unfolding add_pairs
parse_key_pairs none out = out
parse_key_pairs (some raw) out = add_pairs (split_char b',' raw) out

add_user : Option (String × String) → List String → List String
add_user none out = out
add_user (some (user, key)) out = if contains out (trim user) then out else out ++ (trim user ∷ [])

admins_of : List String → List String → List String
unfolding add_user
admins_of [] out = out
admins_of (part ∷ parts) out =
    admins_of parts (if trim part == "" then out else add_user (split_once b':' (trim part)) out)

parse_admins : Option String → List String
unfolding admins_of
parse_admins none = []
parse_admins (some raw) = admins_of (split_char b',' raw) []

is_on : Option String → Bool
is_on none = false
is_on (some v) = v == "1" || eq_ignore_ascii_case v "true"

-- The settings of the validator, if any, and what they come to.
ready : {V : Type 0} → Option (Result String V) → Option V
ready none = none
ready (some (err e)) = none
ready (some (ok v)) = some v

is_empty : List (String × String) → Bool
is_empty [] = true
is_empty (x ∷ xs) = false

unfoldable pub required : Bool → Bool → Bool → Bool → Bool
required dev_open force_required no_keys has_oidc =
    if dev_open then false else force_required || not no_keys || has_oidc

unfoldable pub from_env :
    {V : Type 0}
    → (List (String × String) → List (String × String))
    → Option (Result String V)
    → (String → Option String)
    → AuthConfig V
unfolding parse_admins is_on ready is_empty
from_env order settings env =
    let keys =
      parse_key_pairs (env "GRAPHNIGHT_ADMIN_KEYS")
        (parse_key_pairs (env "GRAPHNIGHT_API_KEYS") []) in
    record {
      api_keys = order keys;
      admin_users = parse_admins (env "GRAPHNIGHT_ADMIN_KEYS");
      auth_required =
          required (is_on (env "GRAPHNIGHT_DEV_OPEN")) (is_on (env "GRAPHNIGHT_AUTH_REQUIRED"))
            (is_empty keys) (is_some (ready settings));
      oidc = ready settings;
    }

-- The fold over the pairs of bytes.
unfoldable pub differences : ℕ → List ℕ → List ℕ → ℕ
differences acc [] ys = acc
differences acc (x ∷ xs) [] = acc
differences acc (x ∷ xs) (y ∷ ys) = differences (bit_or acc (bit_xor x y)) xs ys

unfoldable pub secrets_equal : String → String → Bool
secrets_equal a b = length (bytes a) =ℕ= length (bytes b) && differences 0 (bytes a) (bytes b) =ℕ= 0

unfoldable pub find_key :
    List String → List (String × String) → String → Option String → Option Identity
find_key admins [] key tenant_id = none
find_key admins ((user_id, secret) ∷ rest) key tenant_id =
    let later = find_key admins rest key tenant_id in
    if secrets_equal secret key
    then some
        (record { user_id = user_id; is_admin = contains admins user_id; tenant_id = tenant_id })
    else later

unfoldable pub authenticate :
    {V : Type 0} → AuthConfig V → Option String → Option String → Option Identity
authenticate config none tenant_id = none
authenticate config (some raw) tenant_id =
    if trim raw == ""
    then none
    else find_key config.admin_users config.api_keys (trim raw) tenant_id

-- The tenant of a token that names none is the hint.
unfoldable pub with_hint : Identity → Option String → Identity
with_hint id hint = record id { tenant_id = or_option id.tenant_id hint }

module _ {V : Type 0} (looks_like_jwt : String → Bool)
    (validate : V → String → Result String Identity) where
  validated : Option V → String → Option Identity
  validated none token = none
  validated (some v) token = elim (validate v token) [ ok id ↦ some id | err e ↦ none ]

  unfoldable pub resolve_token : AuthConfig V → String → Option String → Option Identity
  unfolding validated
  resolve_token config token hint =
      elim (if looks_like_jwt token then validated config.oidc token else none) [
        | some id ↦ some (with_hint id hint)
        | none ↦ authenticate config (some token) hint
      ]

  unfoldable pub resolve_identity : AuthConfig V → Option String → Option String → Option Identity
  resolve_identity config none hint = none
  resolve_identity config (some raw) hint =
      if trim raw == "" then none else resolve_token config (trim raw) hint

tenant_filter : Option String → SessionPolicy
tenant_filter none = default_policy
tenant_filter (some tenant) = record default_policy {
  forced_filters =
      default_policy.forced_filters ++ (new_filter "tenant_id" eq (string tenant) ∷ []);
}

unfoldable pub policy_of : Option Identity → SessionPolicy
unfolding tenant_filter
policy_of none = default_policy
policy_of (some id) = tenant_filter id.tenant_id

-- The headers are a function from their names to their texts.
bearer : String → Option String
bearer value = or_option (strip_prefix value "Bearer ") (strip_prefix value "bearer ")

trimmed : Option String → Option String
trimmed none = none
trimmed (some s) = some (trim s)

bearer_of : Option String → Option String
unfolding bearer
bearer_of none = none
bearer_of (some value) = bearer (trim value)

unfoldable pub extract_api_key : (String → Option String) → Option String
unfolding bearer_of trimmed
extract_api_key headers =
    or_option (trimmed (bearer_of (headers "authorization"))) (trimmed (headers "x-api-key"))

non_empty : Option String → Option String
non_empty none = none
non_empty (some s) = if trim s == "" then none else some (trim s)

unfoldable pub extract_tenant : (String → Option String) → Option String
unfolding non_empty
extract_tenant headers = non_empty (headers "x-tenant-id")
