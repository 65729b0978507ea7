-- ===== src/Bundler/Normalize.antt =====
-- The input checks of bundler/src/index.js, from `toHex` to `serializeUserOp`.
use account_abstraction.Base.{
  String, not, ◌||◌, Option, none, some, [], ◌∷◌, Result, ok, err, ◌>>=◌, or_throw, if◌then◌else◌,
}
use account_abstraction.Js.Value.{
  ℤ, pos, negsuc, Value, int, big, str, obj, end, field, opt_get, nullish_or, is_nullish, is_object,
  is_string, truthy, text_of,
}
use account_abstraction.Js.Text.{template}
use account_abstraction.Js.Number.{big_of_text}
use account_abstraction.Ethers.{Ethers, Exn}
use account_abstraction.Bundler.Types.{UserOp, zero_bytes32}
use account_abstraction.Bundler.Errors.{rpc_error, invalid_params}

abbrev pub bad_param : String → String → Exn
bad_param name what = rpc_error invalid_params (template (name ∷ what ∷ []))

-- `BigInt(value)` of a bigint, a number or a text; any other value is refused
abbrev big_of : Value → Option ℤ
big_of (big n) = some n
big_of (int n) = some n
big_of (str s) = big_of_text s
big_of _ = none

unfoldable pub normalize_big_int : Value → String → Result Exn ℤ
normalize_big_int v name = or_throw (big_of v) (bad_param name " must be a uint256 quantity")

module _ (e : Ethers) where
  unfoldable pub to_hex : ℤ → Result Exn String
  to_hex (pos n) = ok (e.to_quantity n)
  to_hex (negsuc n) = err (e.negative_quantity (negsuc n))

  unfoldable pub normalize_hex : Value → String → Result Exn String
  normalize_hex v name =
      if is_nullish v
      then ok "0x"
      else if not (is_string v) || not (e.is_hex_string v)
      then err (bad_param name " must be a 0x-prefixed hex string")
      else ok (text_of v)

  unfoldable pub normalize_address : Value → String → Result Exn String
  normalize_address v name =
      if e.is_address v then e.get_address v else err (bad_param name " must be an address")

  unfoldable pub normalize_bytes32 : Value → String → Result Exn String
  normalize_bytes32 v name =
      if e.is_hex_string_32 v then ok (text_of v) else err (bad_param name " must be bytes32")

  unfoldable pub normalize_user_op : Value → Result Exn UserOp
  normalize_user_op input =
      if not (truthy input) || not (is_object input)
      then err (rpc_error invalid_params "UserOperation must be an object")
      else do
        sender ← normalize_address (opt_get input "sender") "sender"
        nonce ← normalize_big_int (nullish_or (opt_get input "nonce") (int (pos 0))) "nonce"
        init_code ← normalize_hex (opt_get input "initCode") "initCode"
        call_data ← normalize_hex (opt_get input "callData") "callData"
        account_gas_limits ←
            normalize_bytes32 (nullish_or (opt_get input "accountGasLimits") (str zero_bytes32))
              "accountGasLimits"
        pre_verification_gas ←
            normalize_big_int (nullish_or (opt_get input "preVerificationGas") (int (pos 0)))
              "preVerificationGas"
        gas_fees ←
            normalize_bytes32 (nullish_or (opt_get input "gasFees") (str zero_bytes32)) "gasFees"
        paymaster_and_data ← normalize_hex (opt_get input "paymasterAndData") "paymasterAndData"
        signature ← normalize_hex (opt_get input "signature") "signature"
        ok (record {
          sender = sender;
          nonce = nonce;
          init_code = init_code;
          call_data = call_data;
          account_gas_limits = account_gas_limits;
          pre_verification_gas = pre_verification_gas;
          gas_fees = gas_fees;
          paymaster_and_data = paymaster_and_data;
          signature = signature;
        })

  unfoldable pub serialize_user_op : UserOp → Result Exn Value
  serialize_user_op op = do
    nonce ← to_hex op.nonce
    pre_verification_gas ← to_hex op.pre_verification_gas
    ok (
        obj (
          field "sender" (str op.sender) (
            field "nonce" (str nonce) (
              field "initCode" (str op.init_code) (
                field "callData" (str op.call_data) (
                  field "accountGasLimits" (str op.account_gas_limits) (
                    field "preVerificationGas" (str pre_verification_gas) (
                      field "gasFees" (str op.gas_fees) (
                        field "paymasterAndData" (str op.paymaster_and_data)
                          (field "signature" (str op.signature) end))))))))))
