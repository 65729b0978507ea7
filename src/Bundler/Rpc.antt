-- ===== src/Bundler/Rpc.antt =====
-- `sendUserOperation`, `estimateUserOperationGas` and `handleRpc` of bundler/src/index.js.
use account_abstraction.Base.{
  ℕ, String, Bool, not, ◌&&◌, ◌||◌, Option, none, some, List, [], ◌∷◌, ◌==◌, Result, ok, err, ◌>>=◌,
  ◌>>◌, require, any, if◌then◌else◌,
}
use account_abstraction.Js.Value.{
  Value, str, arr, obj, nil, cons, end, field, opt_get, or_else, truthy, is_text, is_string,
  text_of,
}
use account_abstraction.Js.Text.{template, to_lower}
use account_abstraction.Js.Iterate.{iterate, first_two}
use account_abstraction.Ethers.{Ethers, Exn}
use account_abstraction.Bundler.Types.{Config, UserOp, zero_bytes32}
use account_abstraction.Bundler.Errors.{
  rpc_error, invalid_params, invalid_request, method_not_found, unauthorized,
}
use account_abstraction.Bundler.Normalize.{normalize_address, normalize_user_op}
use account_abstraction.Bundler.Simulation.{simulate_validation}
use account_abstraction.Bundler.Gas.{gas_estimate}
use account_abstraction.Bundler.State.{
  Bundler, is_known, new_item, accept, pending_count, LogParser, Bundled, bundle_now,
}
use account_abstraction.Bundler.Query.{get_user_operation_by_hash, get_user_operation_receipt}

-- What the chain answers while a request is served, and the relayer's address.
pub record Chain : Type 0 where
  pub get_user_op_hash : UserOp → Result Exn String
  pub simulate : UserOp → Result Exn Value  -- the aggregator in what `simulateValidation` returns
  pub submit : List UserOp → Result Exn Bundled
  pub send : String → Value → Result Exn Value
  pub now : ℕ
  pub relayer : String

pub record AuthContext : Type 0 where
  pub enabled : Bool
  pub passed : Bool
  pub error : Option String

abbrev pub protected_methods : List String
protected_methods = "eth_sendUserOperation" ∷ "lnet_bundleNow" ∷ []

abbrev pub is_protected : String → Bool
is_protected method = any (λ m. method == m) protected_methods

abbrev proxied_methods : List String
proxied_methods =
    "eth_call" ∷ "eth_getCode" ∷ "eth_blockNumber" ∷ "eth_getBalance" ∷ "eth_getTransactionReceipt"
    ∷ []

-- The cases of the `switch` in `handleRpc`.
pub data Case : Type 0 where
  chain_id proxied entry_points send_operation estimate_gas operation_by_hash : Case
  operation_receipt status bundle unknown : Case

unfoldable pub case_of : String → Case
case_of method =
    if method == "eth_chainId"
    then chain_id
    else if any (λ m. method == m) proxied_methods
    then proxied
    else if method == "eth_supportedEntryPoints"
    then entry_points
    else if method == "eth_sendUserOperation"
    then send_operation
    else if method == "eth_estimateUserOperationGas"
    then estimate_gas
    else if method == "eth_getUserOperationByHash"
    then operation_by_hash
    else if method == "eth_getUserOperationReceipt"
    then operation_receipt
    else if method == "lnet_bundlerStatus"
    then status
    else if method == "lnet_bundleNow"
    then bundle
    else unknown

abbrev auth_message : Option String → String
auth_message none = "valid Keycloak bearer token required"
auth_message (some m) = if m == "" then "valid Keycloak bearer token required" else m

module _ (e : Ethers) (config : Config) where
  -- The first lines of `sendUserOperation` and `estimateUserOperationGas`.
  unfoldable pub checked_op : Value → Result Exn (UserOp × String)
  checked_op params = do
    elements ← iterate params "params is not iterable"
    let given = first_two elements
    entry_point ← normalize_address e given.1 "entryPoint"
    require (to_lower entry_point == to_lower config.entry_point)
        (rpc_error invalid_params (template ("unsupported EntryPoint " ∷ entry_point ∷ [])))
    op ← normalize_user_op e given.0
    ok (op, entry_point)

  abbrev pub check_fees : UserOp → Result Exn (Unit {0})
  check_fees op =
      require (not (config.enforce_zero_gas_fees && not (op.gas_fees == zero_bytes32)))
        (rpc_error invalid_params "LNET requires packed gasFees = 0x00..00")

  unfoldable pub supported_entry_points : Result Exn Value
  supported_entry_points = do
    entry_point ← e.get_address (str config.entry_point)
    ok (arr (cons (str entry_point) nil))

module _ (e : Ethers) (config : Config) (chain : Chain) where
  -- The part of `sendUserOperation` up to `getUserOpHash`: the operation, its entry point, its hash.
  unfoldable pub prepare_send : Value → Result Exn (UserOp × String × String)
  prepare_send params = do
    checked ← checked_op e config params
    check_fees e config checked.0
    hash ← chain.get_user_op_hash checked.0
    ok (checked.0, checked.1, hash)

  abbrev pub queue :
      UserOp → String → String → Result Exn (Unit {0}) → Bundler → Result Exn Value × Bundler
  queue op entry_point hash (ok u) s =
      (ok (str hash), accept (new_item hash op entry_point chain.now) s)
  queue op entry_point hash (err x) s = (err x, s)

  abbrev pub send_prepared :
      Result Exn (UserOp × String × String) → Bundler → Result Exn Value × Bundler
  send_prepared (err x) s = (err x, s)
  send_prepared (ok (op, entry_point, hash)) s =
      if is_known s hash
      then (ok (str hash), s)
      else queue op entry_point hash (simulate_validation config (chain.simulate op)) s

  unfoldable pub send_user_operation : Value → Bundler → Result Exn Value × Bundler
  send_user_operation params s = send_prepared (prepare_send params) s

  unfoldable pub estimate_user_operation_gas : Value → Result Exn Value
  estimate_user_operation_gas params = do
    checked ← checked_op e config params
    simulate_validation config (chain.simulate checked.0)
    gas_estimate e checked.0

  unfoldable pub bundler_status : Bundler → Value
  bundler_status s = obj (
      field "mode" (str "direct") (
        field "entryPoint" (str config.entry_point) (
          field "beneficiary" (str config.beneficiary) (
            field "relayer" (str chain.relayer)
              (field "pending" (str (e.to_quantity (pending_count s))) end)))))

module _ (e : Ethers) (parse : LogParser) (config : Config) (chain : Chain) where
  -- The `switch` of `handleRpc`, on the case that it takes.
  unfoldable pub dispatch : Case → String → Value → Bundler → Result Exn Value × Bundler
  dispatch chain_id method params s = (ok (str (e.to_quantity config.chain_id)), s)
  dispatch proxied method params s = (chain.send method params, s)
  dispatch entry_points method params s = (supported_entry_points e config, s)
  dispatch send_operation method params s = send_user_operation e config chain params s
  dispatch estimate_gas method params s = (estimate_user_operation_gas e config chain params, s)
  dispatch operation_by_hash method params s = (get_user_operation_by_hash e params s, s)
  dispatch operation_receipt method params s = (get_user_operation_receipt e params s, s)
  dispatch status method params s = (ok (bundler_status e config chain s), s)
  dispatch bundle method params s = bundle_now e parse config chain.submit s
  dispatch unknown method params s =
      (err (rpc_error method_not_found (template ("method not found: " ∷ method ∷ []))), s)

  unfoldable pub handle_rpc : Value → AuthContext → Bundler → Result Exn Value × Bundler
  handle_rpc payload auth s =
      let method = opt_get payload "method" in
      if not (truthy payload)
        || not (is_text (opt_get payload "jsonrpc") "2.0")
        || not (is_string method)
      then (err (rpc_error invalid_request "invalid JSON-RPC request"), s)
      else if auth.enabled && is_protected (text_of method) && not auth.passed
      then (
        err (rpc_error unauthorized (template ("unauthorized: " ∷ auth_message auth.error ∷ []))),
        s,
      )
      else dispatch (case_of (text_of method)) (text_of method)
          (or_else (opt_get payload "params") (arr nil)) s
