-- ===== src/App/Policy/Calls.antt =====
-- On `checkCallData` of examples/privy-google-aa/server/userop-policy.mjs.
use account_abstraction.Base.{
  ℕ, ◌+◌, ◌*◌, ◌≤◌, String, ◌≡◌, ap, subst, true, not, some, ◌==◌, ok, >>=-eq-ok, require,
  require-ok, or_throw, arith, ltb,
}
use account_abstraction.Js.Value.{Value, str, text_of}
use account_abstraction.Js.Text.{to_lower, text_length}
use account_abstraction.Ethers.{Ethers}
use account_abstraction.App.Codec.{Codec, rethrow}
use account_abstraction.App.Policy.{
  Policy, Inner, check_execute, check_call_data, target_allowed, selector_allowed, selector_of,
}
use account_abstraction.App.Policy.Inversion.{rethrow-ok, or_throw-ok, ok-pair}

module _ (e : Ethers) (c : Codec) (policy : Policy) where
  -- One inner call: value 0, an allowed destination, an allowed selector.
  pub record IsPermittedCall (call_data : Value) (target : String) (inner : Inner) : Type 0 where
    pub destination : String
    pub inner_data : String
    pub hex : e.is_hex_string call_data ≡ true
    pub size : text_length (text_of call_data) ≤ 2 * policy.caps.call_data_bytes + 2
    pub no_value : c.decode_execute (text_of call_data) ≡ some (destination, 0, inner_data)
    pub target_address : e.get_address (str destination) ≡ ok target
    pub target_listed : target_allowed e c policy target ≡ true
    pub selector : selector_of e c inner_data ≡ ok inner.selector
    pub selector_listed : selector_allowed e c policy inner.selector ≡ true

  check_execute-ok :
      (dest data_ : String) (n : ℕ) (target : String) (inner : Inner)
      → check_execute e c policy (dest, n, data_) ≡ ok (target, inner)
      → (n ≡ 0)
        × (e.get_address (str dest) ≡ ok target)
        × (target_allowed e c policy target ≡ true)
        × (selector_of e c data_ ≡ ok inner.selector)
        × (selector_allowed e c policy inner.selector ≡ true)
  unfolding check_execute
  check_execute-ok dest data_ n target inner h =
      let (_, zero, h₁) = >>=-eq-ok (require (not (ltb 0 n)) _) _ h in
      let (t, address, h₂) = >>=-eq-ok (rethrow (e.get_address (str dest))) _ h₁ in
      let (_, listed, h₃) = >>=-eq-ok (require (target_allowed e c policy t) _) _ h₂ in
      let (s, selector, h₄) = >>=-eq-ok (selector_of e c data_) _ h₃ in
      let (_, known, h₅) = >>=-eq-ok (require (selector_allowed e c policy s) _) _ h₄ in
      let (q, same) = ok-pair _ _ _ _ h₅ in
      let r = ap (λ i. i.selector) same in
      (
        ground (arith, require-ok _ _ zero),
        subst (λ a. e.get_address (str dest) ≡ ok a) q (rethrow-ok _ t address),
        subst (λ a. target_allowed e c policy a ≡ true) q (require-ok _ _ listed),
        subst (λ a. selector_of e c data_ ≡ ok a) r selector,
        subst (λ a. selector_allowed e c policy a ≡ true) r (require-ok _ _ known),
      )

  pub check_call_data-ok :
      (call_data : Value) (target : String) (inner : Inner)
      → check_call_data e c policy call_data ≡ ok (target, inner)
      → IsPermittedCall call_data target inner
  unfolding check_call_data
  check_call_data-ok call_data target inner h =
      let bytes = text_of call_data in
      let (_, hex, h₁) = >>=-eq-ok (require (e.is_hex_string call_data) _) _ h in
      let (_, size, h₂) =
        >>=-eq-ok (require (not (ltb (2 * policy.caps.call_data_bytes + 2) (text_length bytes))) _)
          _ h₁ in
      let (s, _, h₃) = >>=-eq-ok (rethrow (c.data_slice bytes 0 4)) _ h₂ in
      let (_, _, h₄) = >>=-eq-ok (require (to_lower s == to_lower c.execute_selector) _) _ h₃ in
      let ((dest, n, data_), decoded, h₅) = >>=-eq-ok (or_throw (c.decode_execute bytes) _) _ h₄ in
      let (zero, address, listed, selector, known) =
        check_execute-ok dest data_ n target inner h₅ in
      record {
        destination = dest;
        inner_data = data_;
        hex = require-ok _ _ hex;
        size = ground (arith, require-ok _ _ size);
        no_value =
            subst (λ k. c.decode_execute bytes ≡ some (dest, k, data_)) zero
              (or_throw-ok _ _ _ decoded);
        target_address = address;
        target_listed = listed;
        selector = selector;
        selector_listed = known;
      }
