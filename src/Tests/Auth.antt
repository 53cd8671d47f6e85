-- ===== src/Tests/Auth.antt =====
-- The theorems about the callers of crates/graphnight-server at concrete inputs.
use graphnight.Base.{
  ◌≡◌, refl, ◌⊎◌, String, true, false, none, some, [], ◌∷◌, Result, err, ◌==◌, trim,
}
use graphnight.Server.Auth.{Identity, AuthConfig, resolve_identity}
use graphnight.Server.Auth.Callers.{IsValidated, IsHolder, resolve_identity-caller}

abbrev config : AuthConfig String
config = record {
  api_keys = ("alice", "s3cret") ∷ [];
  admin_users = "alice" ∷ [];
  auth_required = true;
  oidc = none;
}

abbrev alice : Identity
alice = record { user_id = "alice"; is_admin = true; tenant_id = some "acme" }

abbrev refuses : String → String → Result String Identity
refuses v token = err "no issuer"

resolved : resolve_identity (λ t. false) refuses config (some " s3cret ") (some "acme") ≡ some alice
unfolding resolve_identity trim graphnight.Server.Auth.resolve_token
    graphnight.Server.Auth.authenticate graphnight.Server.Auth.find_key
    graphnight.Server.Auth.secrets_equal graphnight.Sql.Cache.Keys.bytes
    graphnight.Server.Auth.differences
resolved = refl

resolve_identity-caller_example :
    (trim " s3cret " == "" ≡ false)
    × (IsValidated (λ t. false) refuses config (trim " s3cret ") (some "acme") alice
        ⊎ IsHolder config (trim (trim " s3cret ")) (some "acme") alice)
resolve_identity-caller_example =
    resolve_identity-caller (λ t. false) refuses config " s3cret " (some "acme") alice resolved
