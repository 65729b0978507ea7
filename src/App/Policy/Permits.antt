-- ===== src/App/Policy/Permits.antt =====
-- On `check` of examples/privy-google-aa/server/userop-policy.mjs.
use account_abstraction.Base.{
  String, ◌≡◌, ap, subst, ◌∙◌, not, ◌&&◌, ◌==◌, eq_iff, ok, >>=-eq-ok, require, require-ok,
  or_throw,
}
use account_abstraction.Js.Value.{
  Value, str, arr, cons, nil, opt_get, truthy, is_text, is_text_iff, is_object,
}
use account_abstraction.Ethers.{Ethers, EthersLaws}
use account_abstraction.App.Codec.{Codec}
use account_abstraction.App.Policy.{
  Policy, Checked, allowed_method, normalize, check_envelope, check_gas, check_call_data,
  check_init_code, check, two_params, is_array,
}
use account_abstraction.App.Policy.Inversion.{
  or_throw-ok, ok-inj, ok-pair, two_params-some, normalize-ok,
}
use account_abstraction.App.Policy.Calls.{IsPermittedCall, check_call_data-ok}
use account_abstraction.App.Policy.Gas.{IsPermittedGas, check_gas-ok}
use account_abstraction.App.Policy.Deploys.{IsPermittedInit, check_init_code-ok}

module _ (e : Ethers) (laws : EthersLaws e) where
  -- The request is one `eth_sendUserOperation` for the policy's EntryPoint.
  abbrev pub IsPermittedEnvelope : Policy → Value → Value → String → Type 0
  IsPermittedEnvelope policy request op sender =
      (entry_point : Value) × (opt_get request "method" ≡ str allowed_method)
      × (opt_get request "params" ≡ arr (cons op (cons entry_point nil)))
      × (e.get_address entry_point ≡ ok policy.entry_point)
      × (e.get_address (opt_get op "sender") ≡ ok sender)

  check_envelope-ok :
      (c : Codec) (policy : Policy) (request op : Value) (sender : String)
      → check_envelope e c policy request ≡ ok (op, sender)
      → IsPermittedEnvelope policy request op sender
  unfolding check_envelope
  check_envelope-ok c policy request op sender h =
      let (_, _, h₁) = >>=-eq-ok (require (not (is_array request)) _) _ h in
      let (_, _, h₂) = >>=-eq-ok (require (truthy request && is_object request) _) _ h₁ in
      let method = opt_get request "method" in
      let (_, named, h₃) = >>=-eq-ok (require (is_text method allowed_method) _) _ h₂ in
      let ((o, entry_point), params, h₄) =
        >>=-eq-ok (or_throw (two_params (opt_get request "params")) _) _ h₃ in
      let (p, address, h₅) = >>=-eq-ok (normalize e entry_point "entryPoint") _ h₄ in
      let (_, same, h₆) = >>=-eq-ok (require (p == policy.entry_point) _) _ h₅ in
      let (_, _, h₇) = >>=-eq-ok (require (truthy o && is_object o) _) _ h₆ in
      let (s, from, h₈) = >>=-eq-ok (normalize e (opt_get o "sender") "sender") _ h₇ in
      let (q, r) = ok-pair o op s sender h₈ in
      (
        entry_point,
        (is_text_iff method allowed_method).0 (require-ok _ _ named),
        two_params-some _ _ _ (or_throw-ok _ _ _ params)
            ∙ ap (λ x. arr (cons x (cons entry_point nil))) q,
        normalize-ok e laws entry_point "entryPoint" p address
            ∙ ap ok ((eq_iff p policy.entry_point).0 (require-ok _ _ same)),
        subst (λ x. e.get_address (opt_get x "sender") ≡ ok sender) q
            (normalize-ok e laws (opt_get o "sender") "sender" s from ∙ ap ok r),
      )

  -- What a request must be for `check` to let it pass, with what it says of the request.
  abbrev pub IsPermitted : Codec → Policy → Value → Checked → Type 0
  IsPermitted c policy request checked =
      (op : Value) × IsPermittedEnvelope policy request op checked.sender
      × IsPermittedGas e laws c policy.caps op
      × IsPermittedInit e laws c policy (opt_get op "initCode") checked.owner
      × IsPermittedCall e c policy (opt_get op "callData") checked.target checked.inner

  pub check-IsPermitted :
      (c : Codec) (policy : Policy) (request : Value) (checked : Checked)
      → check e c policy request ≡ ok checked
      → IsPermitted c policy request checked
  unfolding check
  check-IsPermitted c policy request checked h =
      let ((op, sender), envelope, h₁) = >>=-eq-ok (check_envelope e c policy request) _ h in
      let (_, gas, h₂) = >>=-eq-ok (check_gas e c policy op) _ h₁ in
      let (owner, init, h₃) =
        >>=-eq-ok (check_init_code e c (opt_get op "initCode") policy.factory) _ h₂ in
      let ((target, inner), call, h₄) =
        >>=-eq-ok (check_call_data e c policy (opt_get op "callData")) _ h₃ in
      subst (IsPermitted c policy request) (ok-inj _ checked h₄) (
        op,
        check_envelope-ok c policy request op sender envelope,
        check_gas-ok e laws c policy op gas,
        check_init_code-ok e laws c policy (opt_get op "initCode") owner init,
        check_call_data-ok e c policy (opt_get op "callData") target inner call,
      )
