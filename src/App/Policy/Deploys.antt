-- ===== src/App/Policy/Deploys.antt =====
-- On `checkInitCode` of examples/privy-google-aa/server/userop-policy.mjs.
use account_abstraction.Base.{
  String, ◌≡◌, ◌⊎◌, inl, inr, refl, sym, subst, true, false, not, ◌&&◌, ◌||◌, Option, none, some,
  ◌==◌, eq_iff, ok, >>=-eq-ok, require, require-ok, Result-cases, arith, ltb, Bool-cases,
}
use account_abstraction.Js.Value.{Value, str, truthy, is_text, is_text_iff, text_of}
use account_abstraction.Js.Text.{to_lower, text_length}
use account_abstraction.Ethers.{Ethers, EthersLaws}
use account_abstraction.App.Codec.{Codec, rethrow}
use account_abstraction.App.Policy.{Policy, normalize, check_init_code, owner_of, factory_differs}
use account_abstraction.App.Policy.Inversion.{rethrow-ok, ok-inj, normalize-ok}

module _ (e : Ethers) (laws : EthersLaws e) where
  -- No account is deployed, or one through the policy's factory, which names its owner.
  abbrev pub IsPermittedInit : Codec → Policy → Value → Option String → Type 0
  IsPermittedInit c policy init_code none = (truthy init_code ≡ false) ⊎ (init_code ≡ str "0x")
  IsPermittedInit c policy init_code (some owner) =
      (address used : String) × (c.data_slice (text_of init_code) 0 20 ≡ ok address)
      × (e.get_address (str address) ≡ ok used)
      × ((policy.factory ≡ none) ⊎ (policy.factory ≡ some used))

  owner_of-some :
      (c : Codec) (decoded : Option String) (owner : Option String)
      → owner_of e c decoded ≡ ok owner
      → (o : String) × (owner ≡ some o)
  owner_of-some c none owner h = cc
  owner_of-some c (some d) owner h = elim (Result-cases (e.get_address (str d))) [
    | inl (a, found) ↦ let got = rw found at h in (a, cc)
    | inr (x, failed) ↦ let got = rw failed at h in cc
  ]

  factory_differs-not :
      (expected : Option String) (used : String)
      → not (factory_differs expected used) ≡ true
      → (expected ≡ none) ⊎ (expected ≡ some used)
  factory_differs-not none used h = inl refl
  factory_differs-not (some x) used h = inr (ground (arith, eq_iff used x))

  pub check_init_code-ok :
      (c : Codec) (policy : Policy) (init_code : Value) (owner : Option String)
      → check_init_code e c init_code policy.factory ≡ ok owner
      → IsPermittedInit c policy init_code owner
  unfolding check_init_code
  check_init_code-ok c policy init_code owner h =
      elim (Bool-cases (not (truthy init_code) || is_text init_code "0x")) [
        | inl nothing ↦
            let done = rw nothing at h in
            subst (IsPermittedInit c policy init_code) (ok-inj none owner done)
              (ground (arith, is_text_iff init_code "0x"))
        | inr given ↦
            let called = rw given at h in
            let bytes = text_of init_code in
            let (_, _, h₁) =
              >>=-eq-ok (require (e.is_hex_string init_code && not (ltb (text_length bytes) 42)) _)
                _ called in
            let (a, address, h₂) = >>=-eq-ok (rethrow (c.data_slice bytes 0 20)) _ h₁ in
            let (u, used, h₃) = >>=-eq-ok (normalize e (str a) "initCode factory") _ h₂ in
            let (_, same, h₄) =
              >>=-eq-ok (require (not (factory_differs policy.factory u)) _) _ h₃ in
            let (call, _, h₅) = >>=-eq-ok (rethrow (c.data_tail bytes 20)) _ h₄ in
            let (s, _, h₆) = >>=-eq-ok (rethrow (c.data_slice call 0 4)) _ h₅ in
            let (_, _, h₇) =
              >>=-eq-ok (require (to_lower s == to_lower c.create_account_selector) _) _ h₆ in
            let (o, is) = owner_of-some c (c.decode_create_account call) owner h₇ in
            subst (IsPermittedInit c policy init_code) (sym is) (
              a,
              u,
              rethrow-ok _ _ address,
              normalize-ok e laws (str a) "initCode factory" u used,
              factory_differs-not policy.factory u (require-ok _ _ same),
            )
      ]
