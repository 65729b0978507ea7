-- ===== src/Bundler/Normal.antt =====
-- On `normalizeUserOp` and `serializeUserOp` of bundler/src/index.js.
use account_abstraction.Base.{String, true, ◌≡◌, ok, >>=-eq-ok, ap, arith, Bool-cases, inl, inr}
use account_abstraction.Js.Value.{
  ℤ, pos, negsuc, Value, str, opt_get, nullish_or, is_nullish, text_of,
}
use account_abstraction.Ethers.{Ethers, EthersLaws}
use account_abstraction.Bundler.Types.{UserOp, zero_bytes32}
use account_abstraction.Bundler.Normalize.{
  to_hex, normalize_big_int, normalize_hex, normalize_address, normalize_bytes32, normalize_user_op,
  serialize_user_op,
}

-- A text that ethers takes for hex, such as `0x`.
abbrev pub IsHexField : Ethers → String → Type 0
IsHexField e s = e.is_hex_string (str s) ≡ true

pub record IsNormal (e : Ethers) (op : UserOp) : Type 0 where
  pub sender_address : e.is_address (str op.sender) ≡ true
  pub sender_checksum : e.get_address (str op.sender) ≡ ok op.sender
  pub init_code_hex : IsHexField e op.init_code
  pub call_data_hex : IsHexField e op.call_data
  pub gas_limits_word : e.is_hex_string_32 (str op.account_gas_limits) ≡ true
  pub gas_fees_word : e.is_hex_string_32 (str op.gas_fees) ≡ true
  pub paymaster_hex : IsHexField e op.paymaster_and_data
  pub signature_hex : IsHexField e op.signature

module _ (e : Ethers) (laws : EthersLaws e) where
  normalize_address-IsNormal :
      (v : Value) (name s : String)
      → normalize_address e v name ≡ ok s
      → (e.is_address (str s) ≡ true) × (e.get_address (str s) ≡ ok s)
  unfolding normalize_address
  normalize_address-IsNormal v name s h = elim (Bool-cases (e.is_address v)) [
    | inl address ↦ laws.get_address_idem v s (ground arith)
    | inr other ↦ ground arith
  ]

  normalize_hex-IsNormal :
      (v : Value) (name s : String) → normalize_hex e v name ≡ ok s → IsHexField e s
  unfolding normalize_hex
  normalize_hex-IsNormal v name s h = elim (Bool-cases (e.is_hex_string v)) [
    | inl hex ↦
        let (t, p) = laws.is_hex_string_text v hex in
        ground (arith, ap text_of p, ap e.is_hex_string p, ap is_nullish p)
    | inr other ↦ ground (arith, laws.is_hex_string_empty)
  ]

  normalize_bytes32-IsNormal :
      (v : Value) (name s : String)
      → normalize_bytes32 e v name ≡ ok s
      → e.is_hex_string_32 (str s) ≡ true
  unfolding normalize_bytes32
  normalize_bytes32-IsNormal v name s h = elim (Bool-cases (e.is_hex_string_32 v)) [
    | inl word ↦
        let (t, p) = laws.is_hex_string_32_text v word in
        ground (arith, ap text_of p, ap e.is_hex_string_32 p)
    | inr other ↦ ground arith
  ]

  -- What `normalizeUserOp` returns: the sender is an address in the spelling that ethers gives it,
  -- the byte fields are hex, and the two packed fields are words of 32 bytes.
  pub normalize-IsNormal : (v : Value) (op : UserOp) → normalize_user_op e v ≡ ok op → IsNormal e op
  unfolding normalize_user_op
  normalize-IsNormal v op h = ground (
    arith,
    normalize_address-IsNormal (opt_get v "sender") "sender" op.sender,
    normalize_hex-IsNormal (opt_get v "initCode") "initCode" op.init_code,
    normalize_hex-IsNormal (opt_get v "callData") "callData" op.call_data,
    normalize_bytes32-IsNormal (nullish_or (opt_get v "accountGasLimits") (str zero_bytes32))
        "accountGasLimits" op.account_gas_limits,
    normalize_bytes32-IsNormal (nullish_or (opt_get v "gasFees") (str zero_bytes32)) "gasFees"
        op.gas_fees,
    normalize_hex-IsNormal (opt_get v "paymasterAndData") "paymasterAndData" op.paymaster_and_data,
    normalize_hex-IsNormal (opt_get v "signature") "signature" op.signature,
  )

module _ (e : Ethers) (laws : EthersLaws e) where
  normalize_big_int-to_hex :
      (n : ℤ) (s name : String) → to_hex e n ≡ ok s → normalize_big_int (str s) name ≡ ok n
  unfolding normalize_big_int to_hex
  normalize_big_int-to_hex (pos n) s name h = ground (arith, laws.big-to_quantity n)
  normalize_big_int-to_hex (negsuc n) s name h = cc

  normalize_hex_lem : (s name : String) → IsHexField e s → normalize_hex e (str s) name ≡ ok s
  unfolding normalize_hex
  normalize_hex_lem s name h = ground arith

  -- `normalizeUserOp` reads back what `serializeUserOp` writes.
  pub normalize-serialize :
      (op : UserOp) (w : Value)
      → IsNormal e op
      → serialize_user_op e op ≡ ok w
      → normalize_user_op e w ≡ ok op
  unfolding normalize_user_op serialize_user_op normalize_address normalize_bytes32
  normalize-serialize op w v h =
      let (nonce, hn, rest) = >>=-eq-ok (to_hex e op.nonce) _ h in
      let (gas, hg, rest') = >>=-eq-ok (to_hex e op.pre_verification_gas) _ rest in
      ground (
        arith,
        normalize_hex_lem op.init_code "initCode" v.init_code_hex,
        normalize_hex_lem op.call_data "callData" v.call_data_hex,
        normalize_hex_lem op.paymaster_and_data "paymasterAndData" v.paymaster_hex,
        normalize_hex_lem op.signature "signature" v.signature_hex,
        normalize_big_int-to_hex op.nonce nonce "nonce" hn,
        normalize_big_int-to_hex op.pre_verification_gas gas "preVerificationGas" hg,
      )
