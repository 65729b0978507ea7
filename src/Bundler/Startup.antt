-- ===== src/Bundler/Startup.antt =====
-- The configuration that bundler/src/index.js checks before it serves: `usableAddress`,
-- `loadAuthConfig`, `assertConfig`, and the checks of `createAuthenticator` in bundler/src/auth.js.
use account_abstraction.Base.{
  String, ◌≡◌, ◌≢◌, ◌↔◌, ◌⊎◌, ap, sym, ◌∙◌, Bool, true, false, not, ◌&&◌, Option, none, some, List,
  [], ◌∷◌, ◌==◌, eq_iff, Result, ok, ◌>>◌, require, any, if◌then◌else◌, arith,
}
use Prim.Native.Char.{code}
use Prim.Native.String
use account_abstraction.Base.{nat_beq}
use account_abstraction.Js.Value.{Value, str}
use account_abstraction.Js.Text.{template}
use account_abstraction.Ethers.{Ethers, Exn, plain_error}
use account_abstraction.Bundler.Types.{Config, AuthConfig, zero_address}

-- `process.env`
abbrev pub Environment : Type 0
Environment = String → Option String

-- `fileConfig.auth`, of texts.
pub record FileAuth : Type 0 where
  pub url : Option String
  pub realm : Option String
  pub issuer : Option String
  pub client_id : Option String
  pub audience : Option String
  pub required_role : Option String

abbrev text_or_empty : Option String → String
text_or_empty none = ""
text_or_empty (some s) = s

-- `a || b || ""`
abbrev pub either_text : Option String → Option String → String
either_text a b = if text_or_empty a == "" then text_or_empty b else text_or_empty a

-- `s.replace(/\/+$/, "")`
unfoldable pub strip_slashes : String → String
strip_slashes String.[] = ""
strip_slashes (String.◌∷◌ c s) =
    let rest = strip_slashes s in
    if rest == "" && nat_beq (code c) b'/' then "" else String.◌∷◌ c rest

unfoldable pub jwks_uri_of : String → String
jwks_uri_of issuer =
    if issuer == "" then "" else template (issuer ∷ "/protocol/openid-connect/certs" ∷ [])

abbrev is_enabled : Option String → String → Bool
is_enabled none issuer = not (issuer == "")
is_enabled (some explicit) issuer = not (explicit == "false")

-- `loadAuthConfig`
unfoldable pub load_auth_config : Environment → FileAuth → AuthConfig
load_auth_config env file =
    let url = strip_slashes (either_text (env "KEYCLOAK_URL") file.url) in
    let realm = either_text (env "KEYCLOAK_REALM") file.realm in
    let issuer =
      if not (url == "") && not (realm == "")
      then template (url ∷ "/realms/" ∷ realm ∷ [])
      else either_text (env "KEYCLOAK_ISSUER") file.issuer in
    record {
      enabled = is_enabled (env "BUNDLER_AUTH_ENABLED") issuer;
      issuer = issuer;
      jwks_uri = jwks_uri_of issuer;
      client_id = either_text (env "KEYCLOAK_CLIENT_ID") file.client_id;
      audience = either_text (env "BUNDLER_AUTH_AUDIENCE") file.audience;
      required_role = either_text (env "BUNDLER_REQUIRED_ROLE") file.required_role;
    }

-- The checks of `createAuthenticator`.
unfoldable pub create_authenticator : AuthConfig → Result Exn (Unit {0})
create_authenticator auth = if not auth.enabled then ok tt else do
  require (not (auth.issuer == "")) (plain_error "Keycloak auth enabled but issuer is missing")
  require (not (auth.jwks_uri == "")) (plain_error "Keycloak auth enabled but jwksUri is missing")

abbrev simulation_modes : List String
simulation_modes = "try" ∷ "required" ∷ "disabled" ∷ []

abbrev pub is_mode : String → Bool
is_mode mode = any (λ m. m == mode) simulation_modes

template-nonempty : (s : String) → template (s ∷ "/protocol/openid-connect/certs" ∷ []) ≢ ""
unfolding template
template-nonempty String.[] h = cc
template-nonempty (String.◌∷◌ c s) h =
    let long = sym (String.append.cons c s "/protocol/openid-connect/certs") ∙ h in cc

jwks_uri_of-nonempty :
    (issuer : String) → (issuer == "") ≡ false → (jwks_uri_of issuer == "") ≡ false
unfolding jwks_uri_of
jwks_uri_of-nonempty issuer there =
    let uri = template (issuer ∷ "/protocol/openid-connect/certs" ∷ []) in
    ground (arith, eq_iff uri "", template-nonempty issuer)

module _ (e : Ethers) where
  -- `usableAddress`
  unfoldable pub usable_address : Value → Option Value
  usable_address v = if e.is_address v && not (is_zero v) then some v else none
    where
      is_zero : Value → Bool
      is_zero (str s) = s == zero_address
      is_zero _ = false

  -- `assertConfig`
  unfoldable pub assert_config : Config → Result Exn (Unit {0})
  assert_config config = do
    require (not (config.rpc_url == ""))
        (plain_error "Missing LNET_TESTNET_RPC_URL or bundler.config.json network/rpcUrl")
    require (e.is_address (str config.entry_point) && not (config.entry_point == zero_address))
        (plain_error "Missing ENTRYPOINT_ADDRESS or bundler.config.json entryPoint")
    require (e.is_address (str config.beneficiary))
        (plain_error "BUNDLER_BENEFICIARY must be an address")
    require (is_mode config.simulation_mode)
        (plain_error "BUNDLER_SIMULATION must be 'try', 'required', or 'disabled'")
    require (not (config.auth.enabled && config.auth.issuer == "")) (
        plain_error
          "Auth enabled but no Keycloak issuer: set KEYCLOAK_URL and KEYCLOAK_REALM (or BUNDLER_AUTH_ENABLED=false)")

  pub assert_config-ok_iff :
      (config : Config)
      → (assert_config config ≡ ok tt) ↔ (
          (config.rpc_url ≢ "")
          × (e.is_address (str config.entry_point) ≡ true)
          × (config.entry_point ≢ zero_address)
          × (e.is_address (str config.beneficiary) ≡ true)
          × (is_mode config.simulation_mode ≡ true)
          × ((config.auth.enabled ≡ false) ⊎ (config.auth.issuer ≢ "")))
  unfolding assert_config
  assert_config-ok_iff config = ground (
    arith,
    eq_iff config.rpc_url "",
    eq_iff config.entry_point zero_address,
    eq_iff config.auth.issuer "",
  )

  -- Where `assertConfig` passes with the settings that `loadAuthConfig` reads, `createAuthenticator`
  -- does not throw.
  pub create_authenticator-ok :
      (env : Environment) (file : FileAuth) (config : Config)
      → config.auth ≡ load_auth_config env file
      → assert_config config ≡ ok tt
      → create_authenticator config.auth ≡ ok tt
  unfolding create_authenticator
  create_authenticator-ok env file config loaded passed =
      let (_, _, _, _, _, issuer) = (assert_config-ok_iff config).0 passed in
      let uri : config.auth.jwks_uri ≡ jwks_uri_of config.auth.issuer =
        ap (λ a. a.jwks_uri) loaded
        ∙ unfold load_auth_config in ap (λ a. jwks_uri_of a.issuer) (sym loaded) in
      ground
        (arith, issuer, uri, eq_iff config.auth.issuer "", jwks_uri_of-nonempty config.auth.issuer)
