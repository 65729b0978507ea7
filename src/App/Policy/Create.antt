-- ===== src/App/Policy/Create.antt =====
-- `createUserOpPolicy` of examples/privy-google-aa/server/userop-policy.mjs: the policy that a
-- configuration makes, and `describe`.
use account_abstraction.Base.{
  ℕ, String, Bool, not, ◌||◌, Option, none, some, List, [], ◌∷◌, map, ◌==◌, Result, ok, ◌>>=◌, any,
  nat_beq, length, if◌then◌else◌, or_throw, distinct,
}
use account_abstraction.Base.OrderedMap
use account_abstraction.Js.Value.{
  ℤ, pos, Value, null, int, str, arr, obj, end, field, opt_get, nullish_or, truthy, from_items,
}
use account_abstraction.Js.Text.{to_lower, text_take}
use account_abstraction.Js.Number.{to_big}
use account_abstraction.Ethers.{Ethers, plain_error}
use account_abstraction.App.Codec.{Codec, Refusal, thrown}
use account_abstraction.App.Policy

-- `limits`, its `callDataBytes` a number.
pub record Limits : Type 0 where
  pub gas : Value
  pub call_data_bytes : Option ℕ

abbrev pub includes : String → List String → Bool
includes s ss = any (λ t. t == s) ss

abbrev limit : Value → String → ℕ → Result Refusal ℤ
limit gas name default =
    or_throw (to_big (nullish_or (opt_get gas name) (int (pos default))))
      (thrown (plain_error "Cannot convert to a BigInt"))

abbrev or_default : Option ℕ → ℕ → ℕ
or_default none d = d
or_default (some n) d = n

unfoldable pub read_caps : Limits → Result Refusal Policy.Caps
read_caps limits = do
  verification_gas ← limit limits.gas "verificationGasLimit" 5000000
  call_gas ← limit limits.gas "callGasLimit" 2000000
  pre_verification_gas ← limit limits.gas "preVerificationGas" 500000
  ok (record {
    verification_gas_limit = verification_gas;
    call_gas_limit = call_gas;
    pre_verification_gas = pre_verification_gas;
    call_data_bytes = or_default limits.call_data_bytes 4096;
  })

module _ (e : Ethers) (c : Codec) where
  unfoldable pub normalize_all : List String → Result Refusal (List String)
  normalize_all [] = ok []
  normalize_all (t ∷ ts) = do
    target ← Policy.normalize e (str t) "allowed target"
    targets ← normalize_all ts
    ok (target ∷ targets)

  -- `id(sig).slice(0, 10).toLowerCase()`
  abbrev pub signature_selector : String → String
  signature_selector signature = to_lower (text_take 10 (c.id signature))

  -- The map of the signatures that are not `*`.
  unfoldable pub selectors_of : List String → List (String × String) → List (String × String)
  selectors_of [] m = m
  selectors_of (signature ∷ rest) m =
      selectors_of rest
        (if signature == "*" then m else OrderedMap.set (signature_selector signature) signature m)

  abbrev pub optional_factory : Value → Result Refusal (Option String)
  optional_factory factory =
      if not (truthy factory)
      then ok none
      else do address ← Policy.normalize e factory "factory"; ok (some address)

  unfoldable pub create_user_op_policy :
      Value → Value → List String → List String → Limits → Result Refusal Policy.Policy
  create_user_op_policy entry_point factory allowed_targets signatures limits = do
    entry_point ← Policy.normalize e entry_point "entryPoint"
    factory ← optional_factory factory
    let any_target = nat_beq (length allowed_targets) 0 || includes "*" allowed_targets
    targets ← normalize_all (if any_target then [] else allowed_targets)
    caps ← read_caps limits
    ok (record {
      entry_point = entry_point;
      factory = factory;
      any_target = any_target;
      targets = targets;
      any_selector = includes "*" signatures;
      inner_selectors = selectors_of signatures [];
      caps = caps;
    })

abbrev text_or_null : Option String → Value
text_or_null none = null
text_or_null (some s) = str s

-- `describe`
unfoldable pub describe : Policy.Policy → Value
describe policy = obj (
    field "methods" (arr (from_items (str Policy.allowed_method ∷ []))) (
      field "entryPoint" (str policy.entry_point) (
        field "factory" (text_or_null policy.factory) (
          field "targets"
            (if policy.any_target
              then str "*"
              else arr (from_items (map str (distinct policy.targets))))
            (field "innerCalls"
              (if policy.any_selector
                then str "*"
                else arr (from_items (map str (OrderedMap.values policy.inner_selectors))))
              end)))))
