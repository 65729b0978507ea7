-- ===== src/Tests/Policies.antt =====
-- One run of each theorem on the policy gate.
use account_abstraction.Base.{
  ℕ, ◌+◌, ◌*◌, ◌-◌, String, ◌≡◌, refl, false, none, some, List, [], ◌∷◌, ok, zero, suc,
}
use account_abstraction.Base.OrderedMap
use account_abstraction.Js.Value.{Value, str, pos, arr, obj, cons, nil, field, end}
use account_abstraction.Js.Text.{template, text_take, to_lower, decimal, is_word_start, is_word}
use account_abstraction.Js.Number.{big_of_text, to_big}
use account_abstraction.Bundler.Types.{zero_bytes32}
use account_abstraction.App.Codec.{Codec}
use account_abstraction.App.Policy.{
  Policy, Checked, check, check_envelope, check_gas, check_init_code, check_call_data,
  check_execute, normalize, word, decode_single_uint, is_single_uint, allowed_method,
}
use account_abstraction.App.Policy.Create.{
  Limits, create_user_op_policy, normalize_all, selectors_of, read_caps,
}
use account_abstraction.App.Policy.Allows.{
  IsListed, IsSelectorOf, target_allowed-IsListed, selector_allowed-IsSelectorOf,
}
use account_abstraction.Tests.Toys.{toy_ethers, toy_laws, sender, entry_point, starts_with_0x}

abbrev pub text_drop : ℕ → String → String
text_drop zero s = s
text_drop (suc n) String.[] = ""
text_drop (suc n) (String.◌∷◌ c s) = text_drop n s

abbrev pub storage : String
storage = "0x00000000000000000000000000000000000000c7"

-- Every call is `execute(storage, 0, set(5))`.
abbrev pub toy_codec : Codec
toy_codec = record {
  data_slice = λ bytes from to.
      ok (template ("0x" ∷ text_take (2 * (to - from)) (text_drop (2 + 2 * from) bytes) ∷ []));
  data_tail = λ bytes from. ok (template ("0x" ∷ text_drop (2 + 2 * from) bytes ∷ []));
  id = λ signature. "0x60FE47B1d9cc4c9f7ed3f5f1d3c5a3b4a1b2c3d4e5f60718293a4b5c6d7e8f90";
  execute_selector = "0xb61d27f6";
  create_account_selector = "0x5fbfb9cf";
  decode_execute = λ bytes. some (storage, 0, "0x60fe47b105");
  decode_create_account = λ bytes. some sender;
  decode_uint = λ bytes. some 5;
}

abbrev no_limits : Limits
no_limits = record { gas = obj end; call_data_bytes = none }

abbrev pub targets : List String
targets = storage ∷ []

abbrev signatures : List String
signatures = "set(uint256)" ∷ []

abbrev pub toy_policy : Policy
toy_policy = record {
  entry_point = entry_point;
  factory = none;
  any_target = false;
  targets = targets;
  any_selector = false;
  inner_selectors = ("0x60fe47b1", "set(uint256)") ∷ [];
  caps = record {
    verification_gas_limit = pos 5000000;
    call_gas_limit = pos 2000000;
    pre_verification_gas = pos 500000;
    call_data_bytes = 4096;
  };
}

made :
    create_user_op_policy toy_ethers toy_codec
      (str entry_point)
      (str "")
      targets
      signatures
      no_limits
    ≡ ok toy_policy
unfolding create_user_op_policy normalize normalize_all selectors_of read_caps to_lower to_big
    OrderedMap.set
made = refl

abbrev pub write_op : Value
write_op = obj (
    field "sender" (str sender) (
      field "initCode" (str "0x") (
        field "callData" (str "0xb61d27f6") (
          field "accountGasLimits"
            (str "0x0000000000000000000000000000000500000000000000000000000000000009")
            (field "preVerificationGas" (str "100")
              (field "gasFees" (str zero_bytes32) (field "paymasterAndData" (str "0x") end)))))))

abbrev pub write_request : Value
write_request = obj (
    field "method" (str "eth_sendUserOperation")
      (field "params" (arr (cons write_op (cons (str entry_point) nil))) end))

abbrev pub write_checked : Checked
write_checked = record {
  method = allowed_method;
  sender = sender;
  target = storage;
  owner = none;
  inner = record { selector = "0x60fe47b1"; signature = some "set(uint256)"; value = some "5" };
}

pub permitted : check toy_ethers toy_codec toy_policy write_request ≡ ok write_checked
unfolding check check_envelope check_gas check_init_code check_call_data check_execute normalize
    word to_lower big_of_text to_big template OrderedMap.get decode_single_uint is_single_uint
    decimal starts_with_0x is_word_start is_word
permitted = refl

target_allowed-IsListed_example : IsListed toy_ethers toy_laws toy_codec targets storage
target_allowed-IsListed_example =
    target_allowed-IsListed toy_ethers toy_laws toy_codec (str entry_point) (str "") targets
      signatures no_limits toy_policy storage made (λ h. cc) refl refl

selector_allowed-IsSelectorOf_example :
    IsSelectorOf toy_ethers toy_laws toy_codec signatures "0x60fe47b1"
selector_allowed-IsSelectorOf_example =
    selector_allowed-IsSelectorOf toy_ethers toy_laws toy_codec (str entry_point) (str "") targets
      signatures no_limits toy_policy "0x60fe47b1" made refl (unfold OrderedMap.get in refl)
