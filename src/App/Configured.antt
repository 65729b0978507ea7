-- ===== src/App/Configured.antt =====
-- The settings that examples/privy-google-aa/server/api.mjs reads from `process.env`, and what it
-- makes of them: `list`, `missingConfig`, `historyDbPath`.
use account_abstraction.Base.{
  String, Bool, false, not, ◌&&◌, ◌||◌, Option, none, some, List, [], ◌∷◌, ◌++◌, map, ◌==◌, Result,
  if◌then◌else◌,
}
use account_abstraction.Js.Value.{str}
use account_abstraction.Js.Text.{template, trim, split, to_lower}
use account_abstraction.Js.Num.{Num, whole, num_max, is_nonzero}
use account_abstraction.Js.Num.Read.{number_of_text}
use account_abstraction.Bundler.Startup.{Environment, strip_slashes}
use account_abstraction.Ethers.{Ethers}
use account_abstraction.App.Api.{starts_with}
use account_abstraction.App.Codec.{Codec, Refusal}
use account_abstraction.App.Cookie.{CookieOptions}
use account_abstraction.App.Guards.{Settings}
use account_abstraction.App.Policy.{Policy}
use account_abstraction.App.Policy.Create.{create_user_op_policy}
use account_abstraction.Js.Value.{undefined}

-- A destructuring default: for a variable that is not set.
abbrev or_default : Option String → String → String
or_default none d = d
or_default (some s) d = s

abbrev pub first_nonempty : String → String → String
first_nonempty a b = if a == "" then b else a

-- `list`
abbrev nonempty : List String → List String
nonempty [] = []
nonempty (s ∷ ss) = let rest = nonempty ss in if s == "" then rest else s ∷ rest

unfoldable pub list : String → List String
list value = nonempty (map trim (split b',' value))

-- The constants of the module.
pub record ApiConfig : Type 0 where
  pub deployed : Bool
  pub keycloak_url : String
  pub keycloak_realm : String
  pub keycloak_client_id : String
  pub keycloak_client_secret : String
  pub naas_username : String
  pub naas_password : String
  pub bundler_url : String
  pub allowed_origins : List String
  pub session_cookie_name : String
  pub session_cookie_path : String
  pub cookie_same_site : String
  pub cookie_secure : Bool
  pub session_secret : String
  pub privy_app_id : String
  pub privy_jwks_url : String
  pub entry_point : String
  pub factory : String
  pub allowed_targets : List String
  pub allowed_inner_calls : List String
  pub history_limit : Num
  pub history_db_path : String

abbrev is_set : Option String → Bool
is_set none = false
is_set (some s) = not (s == "")

-- `Number(USEROP_LOG_LIMIT) || 10`, at least 1
unfoldable pub history_limit_of : String → Num
history_limit_of text =
    let n = number_of_text text in num_max 1 (if is_nonzero n then n else whole 10)

-- `DEPLOYED && …` of a cookie that is secure
unfoldable pub is_cookie_secure : Bool → String → String → Bool
is_cookie_secure deployed same_site secure =
    secure == "true" || to_lower same_site == "none" || deployed && not (secure == "false")

-- `fileURLToPath(new URL(path, import.meta.url))` is `beside`.
unfoldable pub history_db_path : (String → String) → Bool → String → String
history_db_path beside deployed userop_log_db =
    if userop_log_db == ""
    then if deployed then "/tmp/userops.db" else beside "userops.db"
    else if starts_with "/" userop_log_db
    then userop_log_db
    else beside userop_log_db

unfoldable pub read_api_config : (String → String) → Environment → ApiConfig
read_api_config beside env =
    let var = λ (name : String) (d : String). or_default (env name) d in
    let deployed = is_set (env "VERCEL") || var "DEPLOYED" "" == "true" in
    let same_site = first_nonempty (var "SESSION_COOKIE_SAMESITE" "Strict") "Strict" in
    record {
      deployed = deployed;
      keycloak_url = var "KEYCLOAK_URL" "https://auth.l-net.io";
      keycloak_realm = var "KEYCLOAK_REALM" "naas-realm";
      keycloak_client_id = var "KEYCLOAK_CLIENT_ID" "naas-client";
      keycloak_client_secret = var "KEYCLOAK_CLIENT_SECRET" "";
      naas_username = var "NAAS_USERNAME" "";
      naas_password = var "NAAS_PASSWORD" "";
      bundler_url = var "BUNDLER_URL" "https://bundler.l-net.io";
      allowed_origins = list (var "TOKEN_ALLOWED_ORIGINS" "");
      session_cookie_name = var "SESSION_COOKIE_NAME" "naas_session";
      session_cookie_path = var "SESSION_COOKIE_PATH" "/api";
      cookie_same_site = same_site;
      cookie_secure = is_cookie_secure deployed same_site (var "SESSION_COOKIE_SECURE" "");
      session_secret = var "SESSION_SECRET" "";
      privy_app_id = first_nonempty (var "PRIVY_APP_ID" "") (var "VITE_PRIVY_APP_ID" "");
      privy_jwks_url = var "PRIVY_JWKS_URL" "";
      entry_point = first_nonempty (var "ENTRYPOINT_ADDRESS" "") (var "VITE_ENTRYPOINT_ADDRESS" "");
      factory = first_nonempty (var "FACTORY_ADDRESS" "") (var "VITE_FACTORY_ADDRESS" "");
      allowed_targets =
          list (first_nonempty (var "ALLOWED_CALL_TARGETS" "") (var "VITE_STORAGE_ADDRESS" ""));
      allowed_inner_calls = list (var "ALLOWED_INNER_CALLS" "set(uint256)");
      history_limit = history_limit_of (var "USEROP_LOG_LIMIT" "10");
      history_db_path = history_db_path beside deployed (var "USEROP_LOG_DB" "");
    }

abbrev missing_if : String → String → List String
missing_if value name = if value == "" then name ∷ [] else []

module _ (config : ApiConfig) where
  -- `missingConfig`
  unfoldable pub missing_config : List String
  missing_config =
      missing_if config.keycloak_client_secret "KEYCLOAK_CLIENT_SECRET"
      ++ missing_if config.naas_username "NAAS_USERNAME"
      ++ missing_if config.naas_password "NAAS_PASSWORD"
      ++ missing_if config.privy_app_id "PRIVY_APP_ID (or VITE_PRIVY_APP_ID)"
      ++ missing_if config.entry_point "ENTRYPOINT_ADDRESS (or VITE_ENTRYPOINT_ADDRESS)"

  -- `TOKEN_URL`
  abbrev pub realm_url : String
  realm_url = template (strip_slashes config.keycloak_url ∷ "/realms/" ∷ config.keycloak_realm ∷ [])

  abbrev pub token_url : String
  token_url = template (realm_url ∷ "/protocol/openid-connect/token" ∷ [])

  -- What the request guards and the cookie take from the settings.
  abbrev pub guard_settings : Settings
  guard_settings = record { deployed = config.deployed; allowed_origins = config.allowed_origins }

  abbrev pub cookie_options : CookieOptions
  cookie_options = record {
    name = config.session_cookie_name;
    path = config.session_cookie_path;
    same_site = config.cookie_same_site;
    secure = config.cookie_secure;
  }

  -- `writePolicy()`
  unfoldable pub write_policy : Ethers → Codec → Result Refusal Policy
  write_policy e c =
      create_user_op_policy e c (str config.entry_point) (str config.factory) config.allowed_targets
        config.allowed_inner_calls (record { gas = undefined; call_data_bytes = none })
