-- ===== src/Tests/Normalizing.antt =====
-- One run of each theorem on the input checks, the simulation's outcome and the gas estimate.
use account_abstraction.Base.{◌≡◌, refl, ok, ◌+◌, ◌*◌, ◌^◌, String, some, arith}
use account_abstraction.Js.Value.{Value, pos, str, obj, field, end}
use account_abstraction.Js.Number.{big_of_text}
use account_abstraction.Bundler.Types.{zero_bytes32}
use account_abstraction.Bundler.Normalize.{
  normalize_user_op, serialize_user_op, normalize_address, normalize_hex, normalize_bytes32,
  normalize_big_int, to_hex,
}
use account_abstraction.Bundler.Normal.{IsNormal, normalize-IsNormal, normalize-serialize}
use account_abstraction.Bundler.Simulation.{simulate_validation}
use account_abstraction.Bundler.Rejects.{aggregator_accepted}
use account_abstraction.Bundler.Gas.{gas_estimate, gas_estimate-halves}
use account_abstraction.Tests.Toys.{
  toy_ethers, toy_laws, toy_config, toy_op, toy_input, sender, entry_point, starts_with_0x,
}
use account_abstraction.Js.Text.{decimal}

normalize_toy : normalize_user_op toy_ethers toy_input ≡ ok toy_op
unfolding normalize_user_op normalize_address normalize_hex normalize_bytes32 normalize_big_int
    big_of_text starts_with_0x
normalize_toy = refl

abbrev toy_wire : Value
toy_wire = obj (
    field "sender" (str sender) (
      field "nonce" (str "7") (
        field "initCode" (str "0x") (
          field "callData" (str "0xabcd") (
            field "accountGasLimits" (str zero_bytes32) (
              field "preVerificationGas" (str "0") (
                field "gasFees" (str zero_bytes32)
                  (field "paymasterAndData" (str "0x") (field "signature" (str "0x01") end)))))))))

serialize_toy : serialize_user_op toy_ethers toy_op ≡ ok toy_wire
unfolding serialize_user_op to_hex decimal
serialize_toy = refl

normalize-IsNormal_example : IsNormal toy_ethers toy_op
normalize-IsNormal_example = normalize-IsNormal toy_ethers toy_laws toy_input toy_op normalize_toy

normalize-serialize_example : normalize_user_op toy_ethers toy_wire ≡ ok toy_op
normalize-serialize_example =
    normalize-serialize toy_ethers toy_laws toy_op toy_wire
      (normalize-IsNormal toy_ethers toy_laws toy_input toy_op normalize_toy) serialize_toy

abbrev signed_by : Value
signed_by = str entry_point

toy_aggregator : simulate_validation toy_config (ok signed_by) ≡ ok tt
toy_aggregator = aggregator_accepted toy_config signed_by refl

-- 5 · 2^128 + 9
abbrev limits : String
limits = "0x0000000000000000000000000000000500000000000000000000000000000009"

limits_value : big_of_text limits ≡ some (pos (5 * 2 ^ 128 + 9))
unfolding big_of_text
limits_value = refl

gas_estimate-halves_example :
    gas_estimate toy_ethers (record toy_op { account_gas_limits = limits })
    ≡ ok (
        obj (
          field "preVerificationGas" (str (decimal 100000)) (
            field "verificationGasLimit" (str (decimal 5)) (
              field "callGasLimit" (str (decimal 9)) (
                field "paymasterVerificationGasLimit"
                  (str "0x0")
                  (field "paymasterPostOpGasLimit" (str "0x0") end))))))
gas_estimate-halves_example =
    gas_estimate-halves toy_ethers (record toy_op { account_gas_limits = limits }) 5 9 0
      limits_value (omega arith) refl
