-- ===== src/App/Policy.antt =====
-- The policy gate of the proxy: `createUserOpPolicy` of
-- examples/privy-google-aa/server/userop-policy.mjs.
pub mod Inversion
pub mod Calls
pub mod Gas
pub mod Deploys
pub mod Permits
pub mod Allows
pub mod Create
use account_abstraction.Base.{
  ℕ, zero, suc, ◌+◌, ◌*◌, String, Bool, true, false, not, ◌&&◌, ◌||◌, Option, none, some, List, [],
  ◌∷◌, ◌==◌, Result, ok, err, ◌>>=◌, ◌>>◌, require, any, ltb, if◌then◌else◌, or_throw,
}
use account_abstraction.Base.OrderedMap
use account_abstraction.Js.Value.{
  ℤ, Value, str, arr, nil, cons, opt_get, truthy, is_text, is_string, is_object, text_of,
}
use account_abstraction.Js.Text.{
  template, to_lower, text_length, decimal, decimal_int, is_word_start, is_word, to_text, join,
}
use account_abstraction.Js.Number.{to_big, big_of_text, int_ltb}
use account_abstraction.Ethers.{Ethers, Exn, plain_error}
use account_abstraction.Bundler.Types.{zero_bytes32}
use account_abstraction.App.Codec.{Codec, Refusal, refused, thrown, rethrow, refuse_with}

pub record Caps : Type 0 where
  pub verification_gas_limit : ℤ
  pub call_gas_limit : ℤ
  pub pre_verification_gas : ℤ
  pub call_data_bytes : ℕ

-- The variables that `check` closes over.
pub record Policy : Type 0 where
  pub entry_point : String
  pub factory : Option String
  pub any_target : Bool
  pub targets : List String
  pub any_selector : Bool
  pub inner_selectors : List (String × String)
  pub caps : Caps

-- `{ selector, signature, value }`
pub record Inner : Type 0 where
  pub selector : String
  pub signature : Option String
  pub value : Option String

-- What `check` returns.
pub record Checked : Type 0 where
  pub method : String
  pub sender : String
  pub target : String
  pub owner : Option String
  pub inner : Inner

abbrev pub allowed_method : String
allowed_method = "eth_sendUserOperation"

abbrev pub ceiling : String → ℤ → ℤ → Result Refusal (Unit {0})
ceiling what actual cap = require (not (int_ltb cap actual)) (
    refused
      (template (what ∷ " " ∷ decimal_int actual ∷ " exceeds the allowed " ∷ decimal_int cap ∷ [])))

abbrev pub quantity : Value → String → Result Refusal ℤ
quantity v what = or_throw (to_big v) (refused (template (what ∷ " must be a number" ∷ [])))

abbrev not_big : Refusal
not_big = thrown (plain_error "Cannot convert to a BigInt")

-- `SINGLE_UINT`: a name, then `(uint256)`.
abbrev skip_word : String → String
skip_word String.[] = ""
skip_word (String.◌∷◌ c s) = let rest = skip_word s in if is_word c then rest else String.◌∷◌ c s

unfoldable pub is_single_uint : String → Bool
is_single_uint String.[] = false
is_single_uint (String.◌∷◌ c s) = is_word_start c && skip_word s == "(uint256)"

-- `params` of two elements.
abbrev pub two_params : Value → Option (Value × Value)
two_params (arr (cons op (cons entry_point nil))) = some (op, entry_point)
two_params _ = none

abbrev pub is_array : Value → Bool
is_array (arr vs) = true
is_array _ = false

abbrev pub factory_differs : Option String → String → Bool
factory_differs none used = false
factory_differs (some expected) used = not (used == expected)

abbrev text_or_none : Option String → String
text_or_none none = "null"
text_or_none (some s) = s

module _ (e : Ethers) where
  unfoldable pub normalize : Value → String → Result Refusal String
  normalize v what =
      let message = template (what ∷ " must be an address" ∷ []) in
      if is_string v then refuse_with (e.get_address v) message else err (refused message)

  unfoldable pub word : Value → String → Result Refusal String
  word v what =
      if e.is_hex_string_32 v
      then ok (to_lower (text_of v))
      else err (refused (template (what ∷ " must be a 32-byte hex value" ∷ [])))

module _ (e : Ethers) (c : Codec) where
  abbrev decoded : Result Exn String → Option String
  decoded (err x) = none
  decoded (ok bytes) = elim (c.decode_uint bytes) [ none ↦ none | some n ↦ some (decimal n) ]

  unfoldable pub decode_single_uint : Option String → String → Option String
  decode_single_uint none inner = none
  decode_single_uint (some signature) inner =
      if is_single_uint signature then decoded (c.data_tail inner 4) else none

  -- The owner in a decoded `createAccount` call.
  abbrev pub owner_of : Option String → Result Refusal (Option String)
  owner_of none = err (refused "initCode createAccount arguments are malformed")
  owner_of (some owner) = do
    owner ← refuse_with (e.get_address (str owner)) "initCode createAccount arguments are malformed"
    ok (some owner)

  unfoldable pub check_init_code : Value → Option String → Result Refusal (Option String)
  check_init_code init_code expected =
      if not (truthy init_code) || is_text init_code "0x" then ok none else do
        require (e.is_hex_string init_code && not (ltb (text_length (text_of init_code)) 42))
            (refused "initCode is malformed")
        address ← rethrow (c.data_slice (text_of init_code) 0 20)
        used ← normalize e (str address) "initCode factory"
        require (not (factory_differs expected used))
            (refused (template ("initCode must deploy through " ∷ text_or_none expected ∷ [])))
        call ← rethrow (c.data_tail (text_of init_code) 20)
        selector ← rethrow (c.data_slice call 0 4)
        require (to_lower selector == to_lower c.create_account_selector)
            (refused "initCode must call createAccount(address,uint256)")
        owner_of (c.decode_create_account call)

  abbrev pub selector_of : String → Result Refusal String
  selector_of inner =
      if inner == "0x"
      then ok "0x"
      else do selector ← rethrow (c.data_slice inner 0 4); ok (to_lower selector)

  module _ (policy : Policy) where
    abbrev pub target_allowed : String → Bool
    target_allowed target = policy.any_target || any (λ t. t == target) policy.targets

    abbrev pub selector_allowed : String → Bool
    selector_allowed selector =
        policy.any_selector || OrderedMap.has selector policy.inner_selectors

    unfoldable pub check_execute : String × ℕ × String → Result Refusal (String × Inner)
    check_execute (dest, value, inner) = do
      require (not (ltb 0 value)) (refused "execute value must be 0")
      target ← rethrow (e.get_address (str dest))
      require (target_allowed target) (
          refused (
            template (
              "target " ∷ target
              ∷ " is not allowed — add it to ALLOWED_CALL_TARGETS (or set ALLOWED_CALL_TARGETS=* to allow any)"
              ∷ [])))
      selector ← selector_of inner
      require (selector_allowed selector) (
          refused (
            template (
              "inner call "
              ∷ selector
              ∷ " is not allowed — allowed: "
              ∷ join ", " (OrderedMap.values policy.inner_selectors)
              ∷ [])))
      let signature = OrderedMap.get selector policy.inner_selectors
      ok (
        target,
        record {
          selector = selector;
          signature = signature;
          value = decode_single_uint signature inner;
        },
      )

    unfoldable pub check_call_data : Value → Result Refusal (String × Inner)
    check_call_data call_data = do
      require (e.is_hex_string call_data) (refused "callData must be hex")
      let bytes = text_of call_data
      require (not (ltb (2 * policy.caps.call_data_bytes + 2) (text_length bytes))) (
          refused
            (template ("callData exceeds " ∷ decimal policy.caps.call_data_bytes ∷ " bytes" ∷ [])))
      selector ← rethrow (c.data_slice bytes 0 4)
      require (to_lower selector == to_lower c.execute_selector)
          (refused "callData must be LnetAccount.execute(address,uint256,bytes)")
      call ← or_throw (c.decode_execute bytes) (refused "callData execute arguments are malformed")
      check_execute call

    -- `check` up to the operation: the method, the operation and its sender.
    unfoldable pub check_envelope : Value → Result Refusal (Value × String)
    check_envelope request = do
      require (not (is_array request)) (refused "batched JSON-RPC is not allowed on this endpoint")
      require (truthy request && is_object request)
          (refused "request body must be a JSON-RPC object")
      let method = opt_get request "method"
      require (is_text method allowed_method) (
          refused (
            template (
              "method "
              ∷ (if truthy method then to_text method else "(none)")
              ∷ " is not allowed here — this endpoint only proxies eth_sendUserOperation"
              ∷ [])))
      params ←
          or_throw (two_params (opt_get request "params"))
            (refused "eth_sendUserOperation takes [userOp, entryPoint]")
      entry_point ← normalize e params.1 "entryPoint"
      require (entry_point == policy.entry_point)
          (refused (template ("entryPoint must be " ∷ policy.entry_point ∷ [])))
      let op = params.0
      require (truthy op && is_object op) (refused "userOp must be an object")
      sender ← normalize e (opt_get op "sender") "sender"
      ok (op, sender)

    -- The part of `check` on the fees, the gas and the paymaster.
    unfoldable pub check_gas : Value → Result Refusal (Unit {0})
    check_gas op = do
      fees ← word e (opt_get op "gasFees") "gasFees"
      require (fees == zero_bytes32)
          (refused "gasFees must be zero on LNET (maxFeePerGas = maxPriorityFeePerGas = 0)")
      limits ← word e (opt_get op "accountGasLimits") "accountGasLimits"
      high ← rethrow (c.data_slice limits 0 16)
      verification_gas ← or_throw (big_of_text high) not_big
      low ← rethrow (c.data_slice limits 16 32)
      call_gas ← or_throw (big_of_text low) not_big
      ceiling "verificationGasLimit" verification_gas policy.caps.verification_gas_limit
      ceiling "callGasLimit" call_gas policy.caps.call_gas_limit
      pre_verification_gas ← quantity (opt_get op "preVerificationGas") "preVerificationGas"
      ceiling "preVerificationGas" pre_verification_gas policy.caps.pre_verification_gas
      let paymaster = opt_get op "paymasterAndData"
      require (not (truthy paymaster) || is_text paymaster "0x")
          (refused "paymasterAndData must be empty for this app")

    -- `check`
    unfoldable pub check : Value → Result Refusal Checked
    check request = do
      envelope ← check_envelope request
      let op = envelope.0
      check_gas op
      owner ← check_init_code (opt_get op "initCode") policy.factory
      call ← check_call_data (opt_get op "callData")
      ok (record {
        method = allowed_method;
        sender = envelope.1;
        target = call.0;
        owner = owner;
        inner = call.1;
      })
