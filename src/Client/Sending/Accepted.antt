-- ===== src/Client/Sending/Accepted.antt =====
-- The gas that `sendExecuteUserOp` of examples/privy-google-aa/src/userOp.ts asks for, and the caps of
-- `createUserOpPolicy` of examples/privy-google-aa/server/userop-policy.mjs.
use account_abstraction.Base.{
  ℕ, ◌+◌, ◌*◌, ◌/◌, ◌%◌, ◌^◌, ◌<◌, ◌≡◌, refl, ap, sym, ◌∙◌, String, true, none, some, List, [],
  Result, ok, >>=-eq-ok, subst, length, nat_beq, ◌||◌, arith, if◌then◌else◌,
}
use account_abstraction.Js.Value.{Value, undefined, pos, str}
use account_abstraction.Js.Text.{to_lower}
use account_abstraction.Js.Number.{big_of_text, to_big}
use account_abstraction.Ethers.{Ethers}
use account_abstraction.Bundler.Types.{zero_bytes32}
use account_abstraction.App.Codec.{Codec, Refusal}
use account_abstraction.App.Policy.{Policy, Caps, normalize, word, check_gas}
use account_abstraction.App.Policy.Create.{
  Limits, includes, optional_factory, normalize_all, read_caps, create_user_op_policy,
}
use account_abstraction.Client.Sending.{Encoder, Network, pack128, serialize_user_op, execute_op}

-- What the page and the server rely on ethers for: a number padded to 32 bytes is a word whose two
-- halves are the number's, zero is the zero word, and `BigInt` reads `toBeHex` back.
pub record EncoderLaws (en : Encoder) (e : Ethers) (c : Codec) : Type 0 where
  pub padded_word :
      (n : ℕ) → n < 2 ^ 256 → e.is_hex_string_32 (str (en.zero_pad_32 (en.to_be_hex n))) ≡ true
  pub high_half :
      (n : ℕ)
      → n < 2 ^ 256
      → (s : String) × (c.data_slice (to_lower (en.zero_pad_32 (en.to_be_hex n))) 0 16 ≡ ok s)
        × (big_of_text s ≡ some (pos (n / 2 ^ 128)))
  pub low_half :
      (n : ℕ)
      → n < 2 ^ 256
      → (s : String) × (c.data_slice (to_lower (en.zero_pad_32 (en.to_be_hex n))) 16 32 ≡ ok s)
        × (big_of_text s ≡ some (pos (n % 2 ^ 128)))
  pub zero_word : en.zero_pad_32 (en.to_be_hex 0) ≡ zero_bytes32
  pub big-to_be_hex : (n : ℕ) → big_of_text (en.to_be_hex n) ≡ some (pos n)

abbrev pub no_limits : Limits
no_limits = record { gas = undefined; call_data_bytes = none }

abbrev pub default_caps : Caps
default_caps = record {
  verification_gas_limit = pos 5_000_000;
  call_gas_limit = pos 2_000_000;
  pre_verification_gas = pos 500_000;
  call_data_bytes = 4096;
}

abbrev caps_of : Caps → Result Refusal Caps
caps_of caps = ok caps

abbrev policy_of : Policy → Result Refusal Policy
policy_of policy = ok policy

caps-inj : {a b : Caps} → caps_of a ≡ ok b → a ≡ b
caps-inj h = cc

pub policy-inj : {a b : Policy} → policy_of a ≡ ok b → a ≡ b
policy-inj h = cc

read_caps-default : read_caps no_limits ≡ ok default_caps
unfolding read_caps to_big
read_caps-default = refl

module _ (en : Encoder) (e : Ethers) (c : Codec) (laws : EncoderLaws en e c) where
  pub policy-caps :
      (entry_point factory : Value) (targets signatures : List String) (policy : Policy)
      → create_user_op_policy e c entry_point factory targets signatures no_limits ≡ ok policy
      → policy.caps ≡ default_caps
  unfolding create_user_op_policy
  policy-caps entry_point factory targets signatures policy h =
      let any_target = nat_beq (length targets) 0 || includes "*" targets in
      let (entry, p1, h1) = >>=-eq-ok (normalize e entry_point "entryPoint") _ h in
      let (made_by, p2, h2) = >>=-eq-ok (optional_factory e c factory) _ h1 in
      let (allowed, p3, h3) =
        >>=-eq-ok (normalize_all e c (if any_target then [] else targets)) _ h2 in
      let (caps, p4, h4) = >>=-eq-ok (read_caps no_limits) _ h3 in
      sym (ap (λ p. p.caps) (policy-inj h4)) ∙ caps-inj (sym p4 ∙ read_caps-default)

  pub check_gas-execute_op :
      (policy : Policy) (net : Network) (owner account : String) (salt : ℕ)
      → (target calldata signature : String) → policy.caps ≡ default_caps
      → check_gas e c policy (
          serialize_user_op en (record (execute_op en net owner account salt target calldata) {
            signature = signature;
          }))
        ≡ ok tt
  unfolding check_gas serialize_user_op execute_op pack128 word to_lower to_big
  check_gas-execute_op policy net owner account salt target calldata signature caps =
      let n = 3_000_000 * 2 ^ 128 + 1_000_000 in
      let zero_is = laws.zero_word in
      let zero_there : e.is_hex_string_32 (str zero_bytes32) ≡ true =
        subst (λ w. e.is_hex_string_32 (str w) ≡ true) zero_is (laws.padded_word 0 (omega arith)) in
      let there = laws.padded_word n (omega arith) in
      let (high, high_is, high_big) = laws.high_half n (omega arith) in
      let (low, low_is, low_big) = laws.low_half n (omega arith) in
      rw
        (
          zero_is,
          zero_there,
          there,
          high_is,
          high_big,
          low_is,
          low_big,
          laws.big-to_be_hex 100_000,
          caps,
        )
        refl
