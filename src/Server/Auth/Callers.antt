-- ===== src/Server/Auth/Callers.antt =====
-- Whom `resolve_identity` of auth_config.rs lets in.
use graphnight.Base.{
  ◌≡◌, refl, ap, ◌∙◌, ◌⊎◌, inl, inr, String, Bool, true, false, Bool-cases, Option, none, some,
  Option-cases, List, [], ◌∷◌, Any, here, there, Result, ok, Result-cases, ◌==◌, if◌then◌else◌,
  trim, contains,
}
use graphnight.Sql.Cache.Keys.{bytes}
use graphnight.Server.Auth.{
  Identity, AuthConfig, secrets_equal, find_key, authenticate, with_hint, validated, resolve_token,
  resolve_identity,
}
use graphnight.Server.Auth.Secrets.{secrets_equal_iff}

-- The caller holds a key of the user, is an administrator if the user is one, and has the tenant that
-- was named.
abbrev pub IsHolder : {V : Type 0} → AuthConfig V → String → Option String → Identity → Type 0
IsHolder config token hint id =
    Any (λ (k : String × String). (k.0 ≡ id.user_id) × (bytes k.1 ≡ bytes token)) config.api_keys
    × (id.is_admin ≡ contains config.admin_users id.user_id)
    × (id.tenant_id ≡ hint)

some_inj : {A : Type 0} {a b : A} → some a ≡ some b → a ≡ b
some_inj e = cc

find_key-IsHolder :
    (admins : List String) (keys : List (String × String)) (token : String) (hint : Option String)
    (id : Identity)
    → find_key admins keys token hint ≡ some id
    → Any (λ (k : String × String). (k.0 ≡ id.user_id) × (bytes k.1 ≡ bytes token)) keys
      × (id.is_admin ≡ contains admins id.user_id)
      × (id.tenant_id ≡ hint)
unfolding find_key
find_key-IsHolder admins [] token hint id h = cc
find_key-IsHolder admins ((user, secret) ∷ rest) token hint id h =
    elim (Bool-cases (secrets_equal secret token)) [
      | inl e ↦
          let k : some _ ≡ some id = rw e at h in
          let same = some_inj k in
          (
            here (ap (λ (i : Identity). i.user_id) same, (secrets_equal_iff secret token).0 e),
            rw (← same) refl,
            rw (← same) refl,
          )
      | inr e ↦
          let k : find_key admins rest token hint ≡ some id = rw e at h in
          let (a, b, c) = find_key-IsHolder admins rest token hint id k in (there a, b, c)
    ]

authenticate-IsHolder :
    {V : Type 0} (config : AuthConfig V) (token : String) (hint : Option String) (id : Identity)
    → authenticate config (some token) hint ≡ some id
    → IsHolder config (trim token) hint id
unfolding authenticate
authenticate-IsHolder config token hint id h = elim (Bool-cases (trim token == "")) [
  | inl e ↦ let k : none ≡ some id = rw e at h in cc
  | inr e ↦
      let k : find_key config.admin_users config.api_keys (trim token) hint ≡ some id = rw e at h in
      find_key-IsHolder config.admin_users config.api_keys (trim token) hint id k
]

module _ {V : Type 0} (looks_like_jwt : String → Bool)
    (validate : V → String → Result String Identity) where
  -- The validator that is configured has accepted the token, and the identity is the one it gives.
  abbrev pub IsValidated : AuthConfig V → String → Option String → Identity → Type 0
  IsValidated config token hint id =
      (looks_like_jwt token ≡ true)
      × ((v : V) × (claimed : Identity) × (config.oidc ≡ some v)
          × (validate v token ≡ ok claimed)
          × (id ≡ with_hint claimed hint))

  validated-accepted :
      (oidc : Option V) (token : String) (id : Identity)
      → validated looks_like_jwt validate oidc token ≡ some id
      → (v : V) × (oidc ≡ some v) × (validate v token ≡ ok id)
  unfolding validated
  validated-accepted none token id h = cc
  validated-accepted (some v) token id h = elim (Result-cases (validate v token)) [
    | inl (claimed, e) ↦
        let k : some claimed ≡ some id = rw (validated, e) at h in (v, refl, e ∙ ap ok (some_inj k))
    | inr (failure, e) ↦ let k : none ≡ some id = rw (validated, e) at h in cc
  ]

  checked-accepted :
      (config : AuthConfig V) (token : String) (claimed : Identity)
      → (if looks_like_jwt token then validated looks_like_jwt validate config.oidc token else none)
        ≡ some claimed
      → (hint : Option String) → IsValidated config token hint (with_hint claimed hint)
  checked-accepted config token claimed h hint = elim (Bool-cases (looks_like_jwt token)) [
    | inl e ↦
        let k : validated looks_like_jwt validate config.oidc token ≡ some claimed = rw e at h in
        let (v, a, b) = validated-accepted config.oidc token claimed k in
        (e, (v, claimed, a, b, refl))
    | inr e ↦ let k : none ≡ some claimed = rw e at h in cc
  ]

  resolve_token-caller :
      (config : AuthConfig V) (token : String) (hint : Option String) (id : Identity)
      → resolve_token looks_like_jwt validate config token hint ≡ some id
      → IsValidated config token hint id ⊎ IsHolder config (trim token) hint id
  unfolding resolve_token
  resolve_token-caller config token hint id h =
      elim (Option-cases (
        if looks_like_jwt token
        then validated looks_like_jwt validate config.oidc token
        else none)) [
          | inl e ↦
              let k : authenticate config (some token) hint ≡ some id =
                rw (resolve_token, e) at h in
              inr (authenticate-IsHolder config token hint id k)
          | inr (claimed, e) ↦
              let k : some (with_hint claimed hint) ≡ some id = rw (resolve_token, e) at h in
              inl (rw (← some_inj k) (checked-accepted config token claimed e hint))
        ]

-- A caller who gets an identity has sent a token that is not blank, and either the configured validator
-- has accepted it, in which case the identity is the validator's, with the tenant of the header where it
-- names none, or the token has the same bytes as a key of the user, in which case the user is an
-- administrator exactly if listed as one and the tenant is that of the header.
pub resolve_identity-caller :
    {V : Type 0} (looks_like_jwt : String → Bool) (validate : V → String → Result String Identity)
    (config : AuthConfig V) (raw : String) (hint : Option String) (id : Identity)
    → resolve_identity looks_like_jwt validate config (some raw) hint ≡ some id
    → (trim raw == "" ≡ false)
      × (IsValidated looks_like_jwt validate config (trim raw) hint id
          ⊎ IsHolder config (trim (trim raw)) hint id)
unfolding resolve_identity
resolve_identity-caller looks_like_jwt validate config raw hint id h =
    elim (Bool-cases (trim raw == "")) [
      | inl e ↦ let k : none ≡ some id = rw e at h in cc
      | inr e ↦
          let k : resolve_token looks_like_jwt validate config (trim raw) hint ≡ some id =
            rw e at h in
          (e, resolve_token-caller looks_like_jwt validate config (trim raw) hint id k)
    ]
