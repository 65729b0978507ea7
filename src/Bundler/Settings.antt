-- ===== src/Bundler/Settings.antt =====
-- The settings that bundler/src/index.js reads at its start: `loadConfig`, the levels of
-- `log`, and the beneficiary that `main` falls back to.
use account_abstraction.Base.{
  ℕ, String, Bool, false, not, ◌&&◌, Option, none, some, List, [], ◌∷◌, ◌==◌, leb, Result, ok, err,
  ◌>>=◌, ◌>>◌, or_throw, require, if◌then◌else◌,
}
use account_abstraction.Base.OrderedMap
use account_abstraction.Js.Value.{
  ℤ, pos, Value, undefined, bool, int, str, obj, end, opt_get, or_else, is_nullish,
}
use account_abstraction.Js.Number.{to_big}
use account_abstraction.Js.Num.{Num, times, json_number}
use account_abstraction.Js.Num.Read.{to_number}
use account_abstraction.Ethers.{Ethers, Exn, plain_error}
use account_abstraction.Bundler.Args.{parse_args}
use account_abstraction.Bundler.Types.{AuthConfig, zero_address}
use account_abstraction.Bundler.Startup.{Environment, FileAuth, load_auth_config, usable_address}

-- The result of `loadConfig`.
pub record Loaded : Type 0 where
  pub config_path : String
  pub host : Value
  pub port : Num
  pub rpc_url : Value
  pub chain_id : Num
  pub entry_point : Value
  pub beneficiary : Value
  pub simulation_mode : Value
  pub max_bundle_size : Num
  pub auto_bundle_interval_ms : Num
  pub bundle_gas_limit : ℤ
  pub enforce_zero_gas_fees : Bool
  pub log_level : Value
  pub auth : AuthConfig

-- `path.resolve` of a text, and the JSON of a file (`none` where it does not exist).
pub record Files : Type 0 where
  pub resolve : String → String
  pub read_json : String → Option (Result Exn Value)
  pub default_config : String
  pub default_deployments : String

-- `fs.existsSync(file) ? readJson(file) : {}`
abbrev json_or_empty : Option (Result Exn Value) → Result Exn Value
json_or_empty none = ok (obj end)
json_or_empty (some json) = json

abbrev env_value : Environment → String → Value
env_value env name = elim (env name) [ none ↦ undefined | some s ↦ str s ]

-- `a || b || … || d`
abbrev first_truthy : List Value → Value → Value
first_truthy [] d = d
first_truthy (v ∷ vs) d = or_else v (first_truthy vs d)

abbrev usable_or : Option Value → Value → Value
usable_or none d = d
usable_or (some v) d = v

abbrev text_option : Value → Option String
text_option (str s) = some s
text_option _ = none

-- `fileConfig.auth`, of texts.
abbrev file_auth : Value → FileAuth
file_auth auth = record {
  url = text_option (opt_get auth "url");
  realm = text_option (opt_get auth "realm");
  issuer = text_option (opt_get auth "issuer");
  client_id = text_option (opt_get auth "clientId");
  audience = text_option (opt_get auth "audience");
  required_role = text_option (opt_get auth "requiredRole");
}

abbrev arg_value : Option Value → Value
arg_value none = undefined
arg_value (some v) = v

-- `path.resolve(args.config || …)`, which takes texts only.
abbrev resolved : Files → Value → Result Exn String
resolved files (str path) = ok (files.resolve path)
resolved files v = err (plain_error "The \"paths[0]\" argument must be of type string")

abbrev is_false : Value → Bool
is_false (bool b) = not b
is_false _ = false

module _ (e : Ethers) (files : Files) (env : Environment) where
  abbrev number_setting : String → List Value → Value → Num
  number_setting name vs d = to_number (or_else (env_value env name) (first_truthy vs d))

  -- `loadConfig` on what it has read from the two files.
  unfoldable pub config_from : String → Value → Value → Result Exn Loaded
  config_from config_path file deployments = do
    require (not (is_nullish file) && not (is_nullish deployments))
        (plain_error "Cannot read properties of null")
    gas_limit ←
        or_throw
          (to_big (
            first_truthy
              (env_value env "BUNDLER_BUNDLE_GAS_LIMIT" ∷ opt_get file "bundleGasLimit" ∷ [])
              (int (pos 8_000_000))))
          (plain_error "Cannot convert to a BigInt")
    ok (record {
      config_path = config_path;
      host =
          first_truthy (env_value env "BUNDLER_HOST" ∷ opt_get file "host" ∷ []) (str "127.0.0.1");
      port = number_setting "BUNDLER_PORT" (opt_get file "port" ∷ []) (int (pos 3000));
      rpc_url =
          first_truthy
            (env_value env "LNET_TESTNET_RPC_URL"
              ∷ opt_get file "rpcUrl"
              ∷ opt_get file "network"
              ∷ [])
            (opt_get deployments "rpcUrl");
      chain_id =
          number_setting "LNET_TESTNET_CHAIN_ID"
            (opt_get file "chainId" ∷ opt_get deployments "chainId" ∷ []) (int (pos 648540));
      entry_point = usable_or (usable_address e (env_value env "ENTRYPOINT_ADDRESS")) (
          usable_or (usable_address e (opt_get file "entryPoint")) (
            usable_or (usable_address e (opt_get (opt_get deployments "contracts") "EntryPoint"))
              (str zero_address)));
      beneficiary = usable_or (usable_address e (env_value env "BUNDLER_BENEFICIARY")) (
          usable_or (usable_address e (opt_get file "beneficiary"))
            (usable_or (usable_address e (env_value env "RELAYER_ADDRESS")) (str zero_address)));
      simulation_mode =
          first_truthy (env_value env "BUNDLER_SIMULATION" ∷ opt_get file "simulation" ∷ [])
            (str "try");
      max_bundle_size =
          number_setting "BUNDLER_MAX_BUNDLE_SIZE"
            (opt_get file "maxBundleSize" ∷ opt_get file "autoBundleMempoolSize" ∷ [])
            (int (pos 10));
      auto_bundle_interval_ms =
          number_setting "BUNDLER_AUTO_BUNDLE_MS" (opt_get file "autoBundleIntervalMs" ∷ []) (
            json_number
              (times (to_number (or_else (opt_get file "autoBundleInterval") (int (pos 3)))) 1000));
      bundle_gas_limit = gas_limit;
      enforce_zero_gas_fees =
          not (is_off (env "BUNDLER_ENFORCE_ZERO_GAS_FEES"))
          && not (is_false (opt_get file "enforceZeroGasFees"));
      log_level =
          first_truthy (env_value env "BUNDLER_LOG_LEVEL" ∷ opt_get file "logLevel" ∷ [])
            (str "info");
      auth = load_auth_config env (file_auth (opt_get file "auth"));
    })
    where
      is_off : Option String → Bool
      is_off none = false
      is_off (some s) = s == "false"

  -- `loadConfig`, of the arguments from the third on.
  unfoldable pub load_config : List String → Result Exn Loaded
  load_config argv = do
    config_path ← resolved files (
        first_truthy
          (arg_value (OrderedMap.get "config" (parse_args argv []))
            ∷ env_value env "BUNDLER_CONFIG"
            ∷ [])
          (str files.default_config))
    file ← json_or_empty (files.read_json config_path)
    deployments ← json_or_empty (files.read_json files.default_deployments)
    config_from config_path file deployments

-- `main`'s default of the beneficiary.
unfoldable pub with_beneficiary : String → Loaded → Loaded
with_beneficiary relayer config =
    if is_zero config.beneficiary then record config { beneficiary = str relayer } else config
  where
    is_zero : Value → Bool
    is_zero (str s) = s == zero_address
    is_zero _ = false

-- Whether `log` prints a message of a level.
abbrev level_number : String → ℕ
level_number level =
    if level == "debug"
    then 10
    else if level == "warn"
    then 30
    else if level == "error"
    then 40
    else 20

abbrev level_of : Value → ℕ
level_of (str level) = level_number level
level_of _ = 20

unfoldable pub is_logged : Value → String → Bool
is_logged log_level level = leb (level_of log_level) (level_number level)
