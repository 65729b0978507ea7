-- ===== src/App/Policy/Gas.antt =====
-- On the fees, the gas and the paymaster in `check` of examples/privy-google-aa/server/userop-policy.mjs.
use account_abstraction.Base.{
  String, ◌≡◌, ◌⊎◌, sym, subst, ◌∙◌, true, false, not, ◌||◌, some, ◌==◌, eq_iff, ok, >>=-eq-ok,
  require, require-ok, or_throw, arith,
}
use account_abstraction.Js.Value.{ℤ, Value, str, opt_get, truthy, is_text, is_text_iff}
use account_abstraction.Js.Text.{to_lower}
use account_abstraction.Js.Number.{to_big, big_of_text, int_ltb}
use account_abstraction.Ethers.{Ethers, EthersLaws}
use account_abstraction.Bundler.Types.{zero_bytes32}
use account_abstraction.App.Codec.{Codec, rethrow}
use account_abstraction.App.Policy.{Policy, Caps, word, check_gas, ceiling, quantity}
use account_abstraction.App.Policy.Inversion.{rethrow-ok, or_throw-ok, word-ok}

module _ (e : Ethers) (laws : EthersLaws e) where
  -- No fees, no paymaster, and the three gas numbers at most the policy's caps.
  pub record IsPermittedGas (c : Codec) (caps : Caps) (op : Value) : Type 0 where
    pub fees : String
    pub fees_zero : (opt_get op "gasFees" ≡ str fees) × (to_lower fees ≡ zero_bytes32)
    pub limits : String
    pub limits_given : opt_get op "accountGasLimits" ≡ str limits
    pub high : String
    pub low : String
    pub high_half : c.data_slice (to_lower limits) 0 16 ≡ ok high
    pub low_half : c.data_slice (to_lower limits) 16 32 ≡ ok low
    pub verification_gas : ℤ
    pub call_gas : ℤ
    pub pre_verification_gas : ℤ
    pub verification_read : big_of_text high ≡ some verification_gas
    pub call_read : big_of_text low ≡ some call_gas
    pub pre_verification_read : to_big (opt_get op "preVerificationGas") ≡ some pre_verification_gas
    pub verification_capped : int_ltb caps.verification_gas_limit verification_gas ≡ false
    pub call_capped : int_ltb caps.call_gas_limit call_gas ≡ false
    pub pre_verification_capped : int_ltb caps.pre_verification_gas pre_verification_gas ≡ false
    pub no_paymaster :
        (truthy (opt_get op "paymasterAndData") ≡ false)
        ⊎ (opt_get op "paymasterAndData" ≡ str "0x")

  ceiling-ok :
      (what : String) (n cap : ℤ) {u : Unit {0}} → ceiling what n cap ≡ ok u → int_ltb cap n ≡ false
  ceiling-ok what n cap h = ground (arith, require-ok _ _ h)

  pub check_gas-ok :
      (c : Codec) (policy : Policy) (op : Value)
      → check_gas e c policy op ≡ ok tt
      → IsPermittedGas c policy.caps op
  unfolding check_gas
  check_gas-ok c policy op h =
      let (f, fees, h₁) = >>=-eq-ok (word e (opt_get op "gasFees") "gasFees") _ h in
      let (_, none_due, h₂) = >>=-eq-ok (require (f == zero_bytes32) _) _ h₁ in
      let (l, limits, h₃) =
        >>=-eq-ok (word e (opt_get op "accountGasLimits") "accountGasLimits") _ h₂ in
      let (high, hs, h₄) = >>=-eq-ok (rethrow (c.data_slice l 0 16)) _ h₃ in
      let (v, vr, h₅) = >>=-eq-ok (or_throw (big_of_text high) _) _ h₄ in
      let (low, ls, h₆) = >>=-eq-ok (rethrow (c.data_slice l 16 32)) _ h₅ in
      let (g, gr, h₇) = >>=-eq-ok (or_throw (big_of_text low) _) _ h₆ in
      let caps = policy.caps in
      let (_, vc, h₈) =
        >>=-eq-ok (ceiling "verificationGasLimit" v caps.verification_gas_limit) _ h₇ in
      let (_, gc, h₉) = >>=-eq-ok (ceiling "callGasLimit" g caps.call_gas_limit) _ h₈ in
      let (p, pr, h₁₀) =
        >>=-eq-ok (quantity (opt_get op "preVerificationGas") "preVerificationGas") _ h₉ in
      let (_, pc, h₁₁) =
        >>=-eq-ok (ceiling "preVerificationGas" p caps.pre_verification_gas) _ h₁₀ in
      let (fees_text, fees_given, fees_lower) = word-ok e laws _ _ f fees in
      let (limits_text, limits_given, limits_lower) = word-ok e laws _ _ l limits in
      record {
        fees = fees_text;
        fees_zero = (fees_given, fees_lower ∙ (eq_iff f zero_bytes32).0 (require-ok _ _ none_due));
        limits = limits_text;
        limits_given = limits_given;
        high = high;
        low = low;
        high_half =
            subst (λ x. c.data_slice x 0 16 ≡ ok high) (sym limits_lower) (rethrow-ok _ _ hs);
        low_half =
            subst (λ x. c.data_slice x 16 32 ≡ ok low) (sym limits_lower) (rethrow-ok _ _ ls);
        verification_gas = v;
        call_gas = g;
        pre_verification_gas = p;
        verification_read = or_throw-ok _ _ _ vr;
        call_read = or_throw-ok _ _ _ gr;
        pre_verification_read = or_throw-ok _ _ _ pr;
        verification_capped = ceiling-ok "verificationGasLimit" v caps.verification_gas_limit vc;
        call_capped = ceiling-ok "callGasLimit" g caps.call_gas_limit gc;
        pre_verification_capped = ceiling-ok "preVerificationGas" p caps.pre_verification_gas pc;
        no_paymaster = no_paymaster_lem (opt_get op "paymasterAndData") (require-ok _ _ h₁₁);
      }
    where
      no_paymaster_lem :
          (v : Value)
          → (not (truthy v) || is_text v "0x") ≡ true
          → (truthy v ≡ false) ⊎ (v ≡ str "0x")
      no_paymaster_lem v h = ground (arith, is_text_iff v "0x")
