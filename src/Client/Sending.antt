-- ===== src/Client/Sending.antt =====
-- The rest of examples/privy-google-aa/src/userOp.ts: the operation that the page builds, signs and
-- sends, and what it reports of the receipt.
pub mod Accepted
pub mod Passes
use account_abstraction.Base.{
  ℕ, zero, suc, ◌+◌, ◌*◌, ◌^◌, String, Bool, true, false, Option, none, [], ◌∷◌, ◌==◌, Result, ok,
  err, if◌then◌else◌,
}
use account_abstraction.Js.Value.{Value, str, arr, cons, nil, obj, end, field, opt_get}
use account_abstraction.Js.Text.{template, to_lower}
use account_abstraction.Ethers.{Ethers}
use account_abstraction.App.Codec.{Codec}
use account_abstraction.App.Log.{ReceiptCodec, is_false}
use account_abstraction.Client.Reverts.{revert_reason_from_receipt}
use account_abstraction.Client.Browser.{
  ClientError, error_of, read_code, read_value, ask_owner, read_account, read_hash, sign_message,
  Browser, Page, Io, ◌>>=◌, ◌>>◌, returning, attempt, reading,
}
use account_abstraction.Client.Rpc.{bundler_send, wait_for_user_op_receipt}

-- What the page takes from ethers: `toBeHex`, `zeroPadValue(v, 32)`, `concat`, and the encoding of
-- the calls of the factory and of the account.
pub record Encoder : Type 0 where
  pub to_be_hex : ℕ → String
  pub zero_pad_32 : String → String
  pub concat : String → String → String
  pub encode_create_account : String → ℕ → String
  pub encode_execute : String → String → String

-- `lnet`
pub record Network : Type 0 where
  pub bundler_url : String
  pub entry_point : String
  pub factory : String

pub record PackedUserOperation : Type 0 where
  pub sender : String
  pub nonce : ℕ
  pub init_code : String
  pub call_data : String
  pub account_gas_limits : String
  pub pre_verification_gas : ℕ
  pub gas_fees : String
  pub paymaster_and_data : String
  pub signature : String

pub record TargetInspection : Type 0 where
  pub has_code : Bool
  pub storage_readable : Bool

pub record SendUserOpResult : Type 0 where
  pub owner : String
  pub smart_account : String
  pub user_op_hash : String
  pub receipt : Value
  pub success : Bool
  pub revert_reason : Option String

module _ (browser : Browser) where
  abbrev pub answered : Bool → Result ClientError TargetInspection
  answered readable = ok (record { has_code = true; storage_readable = readable })

  abbrev readable : String → Io TargetInspection
  readable address =
      attempt (reading browser (read_value address) >>= λ value. returning (answered true))
        (λ x. returning (answered false))

  abbrev pub with_code : String → String → Io TargetInspection
  with_code address code =
      if code == "0x"
      then returning (ok (record { has_code = false; storage_readable = false }))
      else readable address

  -- `inspectTarget`
  unfoldable pub inspect_target : String → Io TargetInspection
  inspect_target address = reading browser (read_code address) >>= with_code address

module _ (en : Encoder) where
  -- `pack128`; `lo` has 128 bits at most.
  unfoldable pub pack128 : ℕ → ℕ → String
  pack128 hi lo = en.zero_pad_32 (en.to_be_hex (hi * 2 ^ 128 + lo))

  -- `serializeUserOp`
  unfoldable pub serialize_user_op : PackedUserOperation → Value
  serialize_user_op op = obj (
      field "sender" (str op.sender) (
        field "nonce" (str (en.to_be_hex op.nonce)) (
          field "initCode" (str op.init_code) (
            field "callData" (str op.call_data) (
              field "accountGasLimits" (str op.account_gas_limits) (
                field "preVerificationGas" (str (en.to_be_hex op.pre_verification_gas)) (
                  field "gasFees" (str op.gas_fees) (
                    field "paymasterAndData" (str op.paymaster_and_data)
                      (field "signature" (str op.signature) end)))))))))

  -- The operation that `sendExecuteUserOp` builds, before it is signed.
  unfoldable pub execute_op : Network → String → String → ℕ → String → String → PackedUserOperation
  execute_op net owner smart_account salt target target_calldata = record {
    sender = smart_account;
    nonce = 0;
    init_code = en.concat net.factory (en.encode_create_account owner salt);
    call_data = en.encode_execute target target_calldata;
    account_gas_limits = pack128 3_000_000 1_000_000;
    pre_verification_gas = 100_000;
    gas_fees = pack128 0 0;
    paymaster_and_data = "0x";
    signature = "0x";
  }

module _ (browser : Browser) (en : Encoder) (e : Ethers) (c : Codec) (rc : ReceiptCodec)
    (api_base : String) (net : Network) where
  -- `randomSalt`
  abbrev pub random_salt : Page → ℕ
  random_salt p = browser.now p.trace * 2 ^ 160 + browser.random p.trace

  -- `{ …, success, revertReason }`
  abbrev result_with : String → String → String → Value → Bool → Option String → SendUserOpResult
  result_with owner smart_account hash receipt success reason = record {
    owner = owner;
    smart_account = smart_account;
    user_op_hash = hash;
    receipt = receipt;
    success = success;
    revert_reason = reason;
  }

  abbrev report : String → String → String → Value → Io SendUserOpResult
  report owner smart_account hash receipt =
      if is_false (opt_get receipt "success")
      then returning (revert_reason_from_receipt e c rc receipt hash)
        >>= (λ reason. returning (ok (result_with owner smart_account hash receipt false reason)))
      else returning (ok (result_with owner smart_account hash receipt true none))

  -- `returnedHash.toLowerCase() !== userOpHash.toLowerCase()`
  abbrev pub same_hash : Value → String → Result ClientError (Unit {0})
  same_hash (str returned) hash =
      if to_lower returned == to_lower hash
      then ok tt
      else err (error_of (template ("Bundler returned " ∷ returned ∷ ", expected " ∷ hash ∷ [])))
  same_hash returned hash = err (error_of "returnedHash.toLowerCase is not a function")

  -- The part of `sendExecuteUserOp` that follows the signature.
  unfoldable pub send_signed : String → String → PackedUserOperation → Io SendUserOpResult
  send_signed owner hash op = do
    returned ←
        bundler_send browser api_base "eth_sendUserOperation"
          (arr (cons (serialize_user_op en op) (cons (str net.entry_point) nil)))
    returning (same_hash returned hash)
    receipt ← wait_for_user_op_receipt browser net.bundler_url hash
    report owner op.sender hash receipt

  -- `sendExecuteUserOp`
  unfoldable pub send_execute_user_op : String → String → Io SendUserOpResult
  send_execute_user_op target target_calldata = do
    owner ← reading browser ask_owner
    salt ← (λ p. (ok (random_salt p), p))
    smart_account ← reading browser (read_account owner salt)
    let op = execute_op en net owner smart_account salt target target_calldata
    hash ← reading browser (read_hash (serialize_user_op en op))
    signature ← reading browser (sign_message hash)
    send_signed owner hash (record op { signature = signature })
