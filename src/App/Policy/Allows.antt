-- ===== src/App/Policy/Allows.antt =====
-- The allow-lists of the policy that `createUserOpPolicy` of
-- examples/privy-google-aa/server/userop-policy.mjs makes.
use mathlib.Core.List.{Memᴰ}
use mathlib.Core.Bool.{false≢true}
use account_abstraction.Base.{
  String, ◌≡◌, ◌≢◌, ◌⊎◌, inl, inr, refl, sym, ap, subst, ◌∙◌, true, false, ◌||◌, List, [], ◌∷◌,
  length, nat_beq, any, ◌==◌, eq_iff, ok, >>=-eq-ok, Bool-cases, if◌then◌else◌, arith,
}
use account_abstraction.Base.OrderedMap
use account_abstraction.Base.OrderedMap.{get-set, get-set_cases}
use account_abstraction.Js.Value.{Value, str}
use account_abstraction.Ethers.{Ethers, EthersLaws}
use account_abstraction.App.Codec.{Codec}
use account_abstraction.App.Policy.{Policy, normalize, target_allowed, selector_allowed}
use account_abstraction.App.Policy.Inversion.{ok-inj, normalize-ok}
use account_abstraction.App.Policy.Create.{
  Limits, includes, normalize_all, selectors_of, signature_selector, create_user_op_policy,
  read_caps, optional_factory,
}

length-nonempty : (ss : List String) → ss ≢ [] → nat_beq (length ss) 0 ≡ false
length-nonempty [] h = absurd (h refl)
length-nonempty (s ∷ ss) h = ground arith

has-set-cases :
    (k j v : String) (m : List (String × String))
    → OrderedMap.has j (OrderedMap.set k v m) ≡ true
    → (k ≡ j) ⊎ (OrderedMap.has j m ≡ true)
has-set-cases k j v m h = elim (Bool-cases (k == j)) [
  | inl same ↦ inl ((eq_iff k j).0 same)
  | inr other ↦ inr (ground (arith, get-set k j v m))
]

module _ (e : Ethers) (laws : EthersLaws e) (c : Codec) where
  -- An entry of the configured list that is this address.
  abbrev pub IsListed : List String → String → Type 0
  IsListed entries target =
      (entry : String) × Memᴰ entry entries × (e.get_address (str entry) ≡ ok target)

  normalize_all-IsListed :
      (entries targets : List String) (target : String)
      → normalize_all e c entries ≡ ok targets
      → any (λ t. t == target) targets ≡ true
      → IsListed entries target
  unfolding normalize_all
  normalize_all-IsListed [] targets target h m =
      subst (λ ts. any (λ t. t == target) ts ≡ true → IsListed [] target) (ok-inj [] targets h)
        (λ none_there. absurd (false≢true none_there)) m
  normalize_all-IsListed (entry ∷ entries) targets target h m =
      let (a, address, h₁) = >>=-eq-ok (normalize e (str entry) "allowed target") _ h in
      let (rest, others, h₂) = >>=-eq-ok (normalize_all e c entries) _ h₁ in
      let m' : any (λ t. t == target) (a ∷ rest) ≡ true =
        subst (λ ts. any (λ t. t == target) ts ≡ true) (sym (ok-inj (a ∷ rest) targets h₂)) m in
      elim (Bool-cases (a == target)) [
        | inl same ↦ (
          entry,
          Memᴰ.head refl,
          normalize-ok e laws (str entry) "allowed target" a address
              ∙ ap ok ((eq_iff a target).0 same),
        )
        | inr other ↦
            let (x, listed, found) =
              normalize_all-IsListed entries rest target others (ground arith) in
            (x, Memᴰ.tail listed, found)
      ]

  -- A signature of the configured list, not `*`, that has this selector.
  abbrev pub IsSelectorOf : List String → String → Type 0
  IsSelectorOf signatures selector =
      (signature : String) × Memᴰ signature signatures
      × (signature ≢ "*")
      × (signature_selector e c signature ≡ selector)

  abbrev with_signature : String → List (String × String) → List (String × String)
  with_signature signature m =
      if signature == "*" then m else OrderedMap.set (signature_selector e c signature) signature m

  selectors_of-IsSelectorOf :
      (signatures : List String) (m : List (String × String)) (selector : String)
      → OrderedMap.has selector (selectors_of e c signatures m) ≡ true
      → (OrderedMap.has selector m ≡ true) ⊎ IsSelectorOf signatures selector
  unfolding selectors_of
  selectors_of-IsSelectorOf [] m selector h = inl h
  selectors_of-IsSelectorOf (signature ∷ rest) m selector h =
      elim (selectors_of-IsSelectorOf rest (with_signature signature m) selector h) [
        | inr (x, listed, ne, same) ↦ inr (x, Memᴰ.tail listed, ne, same)
        | inl there ↦ elim (Bool-cases (signature == "*")) [
          | inl star ↦ inl (let kept = rw star at there in kept)
          | inr other ↦
              let set = rw other at there in
              elim (has-set-cases (signature_selector e c signature) selector signature m set) [
                | inl same ↦ inr (
                  signature,
                  Memᴰ.head refl,
                  (λ p. ground (arith, eq_iff signature "*", p)),
                  same,
                )
                | inr old ↦ inl old
              ]
        ]
      ]

  create-parts :
      (entry_point factory : Value) (targets signatures : List String) (limits : Limits)
      → (policy : Policy)
      → create_user_op_policy e c entry_point factory targets signatures limits ≡ ok policy
      → let any_target = nat_beq (length targets) 0 || includes "*" targets in
        (policy.any_target ≡ any_target)
        × (normalize_all e c (if any_target then [] else targets) ≡ ok policy.targets)
        × (policy.any_selector ≡ includes "*" signatures)
        × (policy.inner_selectors ≡ selectors_of e c signatures [])
  unfolding create_user_op_policy
  create-parts entry_point factory targets signatures limits policy h =
      let (p, _, h₁) = >>=-eq-ok (normalize e entry_point "entryPoint") _ h in
      let (f, _, h₂) = >>=-eq-ok (optional_factory e c factory) _ h₁ in
      let any_target = nat_beq (length targets) 0 || includes "*" targets in
      let (ts, listed, h₃) =
        >>=-eq-ok (normalize_all e c (if any_target then [] else targets)) _ h₂ in
      let (caps, _, h₄) = >>=-eq-ok (read_caps limits) _ h₃ in
      let same = ok-inj _ policy h₄ in
      (
        ap (λ q. q.any_target) (sym same),
        listed ∙ ap (λ q. ok q.targets) same,
        ap (λ q. q.any_selector) (sym same),
        ap (λ q. q.inner_selectors) (sym same),
      )

  -- A policy made from a list of targets that is not empty and has no `*` allows a target only if it
  -- is the address of an entry of the list.
  pub target_allowed-IsListed :
      (entry_point factory : Value) (targets signatures : List String) (limits : Limits)
      → (policy : Policy) (target : String)
      → create_user_op_policy e c entry_point factory targets signatures limits ≡ ok policy
      → targets ≢ []
      → includes "*" targets ≡ false
      → target_allowed e c policy target ≡ true
      → IsListed targets target
  target_allowed-IsListed entry_point factory targets signatures limits policy target h some_given
        no_star allowed =
      let (any_target, listed, _, _) =
        create-parts entry_point factory targets signatures limits policy h in
      let closed : (nat_beq (length targets) 0 || includes "*" targets) ≡ false =
        rw (length-nonempty targets some_given, no_star) refl in
      let off : policy.any_target ≡ false = any_target ∙ closed in
      normalize_all-IsListed targets policy.targets target (rw closed at listed) (rw off at allowed)

  -- A policy made from a list of signatures without `*` allows a selector only if it is the selector
  -- of a signature of the list.
  pub selector_allowed-IsSelectorOf :
      (entry_point factory : Value) (targets signatures : List String) (limits : Limits)
      → (policy : Policy) (selector : String)
      → create_user_op_policy e c entry_point factory targets signatures limits ≡ ok policy
      → includes "*" signatures ≡ false
      → selector_allowed e c policy selector ≡ true
      → IsSelectorOf signatures selector
  selector_allowed-IsSelectorOf entry_point factory targets signatures limits policy selector h
        no_star allowed =
      let (_, _, any_selector, selectors) =
        create-parts entry_point factory targets signatures limits policy h in
      let off : policy.any_selector ≡ false = any_selector ∙ no_star in
      let there = subst (λ m. OrderedMap.has selector m ≡ true) selectors (rw off at allowed) in
      elim (selectors_of-IsSelectorOf signatures [] selector there) [
        | inl nothing ↦ absurd (false≢true (unfold OrderedMap.get in nothing))
        | inr found ↦ found
      ]
