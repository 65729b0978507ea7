-- ===== src/Bundler/Invariant/Frame.antt =====
-- On the loops that end a bundle in bundler/src/index.js: the parts of the state, one by one.
use mathlib.Core.List.{Memᴰ}
use native.Mathlib.Decide.{ℕ_discrete}
use account_abstraction.Base.{
  ℕ, String, ◌≡◌, ◌≢◌, refl, sym, ap, subst, ◌∙◌, inl, inr, none, some, List, [], ◌∷◌, get_elem?,
  get_elem?-modify_self, get_elem?-modify_ne, get_elem?-modify_back, Option-cases, arith,
}
use account_abstraction.Base.OrderedMap
use account_abstraction.Base.OrderedMap.{get-delete-some, get-delete_self, get-delete_ne}
use account_abstraction.Bundler.Types.{Item}
use account_abstraction.Bundler.State.{Bundler, item_at, settle_item, settle_items}
use account_abstraction.Bundler.Invariant.Settle.{KeepsHash, Owns}

-- The object at a reference has a property.
abbrev pub Holds : Bundler → ℕ → (Item → Type 0) → Type 0
Holds s r P = (item : Item) × (get_elem? s.heap r ≡ some item) × P item

module _ (f : Item → Item) where
  pub settle_items-history : (rs : List ℕ) (s : Bundler) → (settle_items f rs s).history ≡ s.history
  unfolding settle_items settle_item
  settle_items-history [] s = refl
  settle_items-history (r ∷ rs) s = settle_items-history rs (settle_item f r s) ∙ ground arith

  pub settle_item-mempool_le :
      (r : ℕ) (s : Bundler) (k : String) (q : ℕ)
      → OrderedMap.get k (settle_item f r s).mempool ≡ some q
      → OrderedMap.get k s.mempool ≡ some q
  settle_item-mempool_le r s k q h = elim (Option-cases (item_at s r)) [
    | inl e ↦ unfold settle_item in (rw (e, settle_item) at h)
    | inr (item, e) ↦
        unfold settle_item in
        (get-delete-some item.user_op_hash k s.mempool q (rw (e, settle_item) at h)).1
  ]

  -- A hash that has left `mempool` does not come back.
  pub settle_items-mempool_none :
      (rs : List ℕ) (s : Bundler) (k : String)
      → OrderedMap.get k s.mempool ≡ none
      → OrderedMap.get k (settle_items f rs s).mempool ≡ none
  unfolding settle_items
  settle_items-mempool_none [] s k h = h
  settle_items-mempool_none (r ∷ rs) s k h =
      settle_items-mempool_none rs (settle_item f r s) k
        (elim (Option-cases (OrderedMap.get k (settle_item f r s).mempool)) [
          | inl gone ↦ gone
          | inr (q, there) ↦ ground (arith, settle_item-mempool_le r s k q there)
        ])

module _ (f : Item → Item) where
  settle_item-heap_other :
      (r q : ℕ) (s : Bundler) → r ≢ q → get_elem? (settle_item f r s).heap q ≡ get_elem? s.heap q
  settle_item-heap_other r q s ne = elim (Option-cases (item_at s r)) [
    | inl e ↦ unfold settle_item in rw (e, settle_item)
    | inr (item, e) ↦
        unfold settle_item in rw (e, settle_item) (get_elem?-modify_ne r q f s.heap ne)
  ]

  -- An object outside the bundle stays as it is.
  pub settle_items-heap_other :
      (rs : List ℕ) (s : Bundler) (q : ℕ)
      → ¬ (Memᴰ q rs)
      → get_elem? (settle_items f rs s).heap q ≡ get_elem? s.heap q
  unfolding settle_items
  settle_items-heap_other [] s q nm = refl
  settle_items-heap_other (r ∷ rs) s q nm =
      settle_items-heap_other rs (settle_item f r s) q (λ m. nm (Memᴰ.tail m))
      ∙ settle_item-heap_other r q s (λ e. nm (Memᴰ.head (sym e)))

module _ (f : Item → Item) (keep : KeepsHash f) where
  settle_item-Owns :
      (r q : ℕ) (s : Bundler) (k : String) → Owns s k q → Owns (settle_item f r s) k q
  settle_item-Owns r q s k (item, at, hash) = elim (Option-cases (item_at s r)) [
    | inl e ↦ unfold settle_item in rw (e, settle_item) (item, at, hash)
    | inr (item', e) ↦
        unfold settle_item in
        rw (e, settle_item)
          (elim (ℕ_discrete r q) [
            | yes same ↦
                (f item, rw same (get_elem?-modify_self q f s.heap item at), keep item ∙ hash)
            | no ne ↦ (item, get_elem?-modify_ne r q f s.heap ne ∙ at, hash)
          ])
  ]

  settle_item-mempool_self :
      (r : ℕ) (s : Bundler) (k : String)
      → Owns s k r
      → OrderedMap.get k (settle_item f r s).mempool ≡ none
  unfolding settle_item
  settle_item-mempool_self r s k (item, at, hash) =
      rw (at, settle_item) (rw hash (get-delete_self k s.mempool))

  -- Every hash of the bundle leaves `mempool`.
  pub settle_items-mempool_self :
      (rs : List ℕ) (s : Bundler) (r : ℕ) (k : String)
      → Memᴰ r rs
      → Owns s k r
      → OrderedMap.get k (settle_items f rs s).mempool ≡ none
  unfolding settle_items
  settle_items-mempool_self [] s r k m o = elim m [ ]
  settle_items-mempool_self (q ∷ rs) s r k (Memᴰ.head e) o =
      settle_items-mempool_none f rs (settle_item f q s) k
        (settle_item-mempool_self q s k (subst (Owns s k) e o))
  settle_items-mempool_self (q ∷ rs) s r k (Memᴰ.tail m) o =
      settle_items-mempool_self rs (settle_item f q s) r k m (settle_item-Owns q r s k o)

  settle_item-back :
      (q r : ℕ) (s : Bundler) (item' : Item)
      → get_elem? (settle_item f q s).heap r ≡ some item'
      → (item : Item) × (get_elem? s.heap r ≡ some item) × (item'.user_op_hash ≡ item.user_op_hash)
  settle_item-back q r s item' h = elim (Option-cases (item_at s q)) [
    | inl e ↦ (item', unfold settle_item in (rw (e, settle_item) at h), refl)
    | inr (item, e) ↦
        let (x, at, c) =
          get_elem?-modify_back q r f s.heap item'
            (unfold settle_item in (rw (e, settle_item) at h)) in
        (
          x,
          at,
          elim c [
            | inl same ↦ ap (λ i. i.user_op_hash) same
            | inr changed ↦ ap (λ i. i.user_op_hash) changed ∙ keep x
          ],
        )
  ]

  settle_item-mempool_other :
      (r : ℕ) (s : Bundler) (k : String)
      → ((item : Item) → get_elem? s.heap r ≡ some item → item.user_op_hash ≢ k)
      → OrderedMap.get k (settle_item f r s).mempool ≡ OrderedMap.get k s.mempool
  settle_item-mempool_other r s k h = elim (Option-cases (item_at s r)) [
    | inl e ↦ unfold settle_item in rw (e, settle_item)
    | inr (item, e) ↦
        unfold settle_item in
        rw (e, settle_item) (get-delete_ne item.user_op_hash k s.mempool (h item e))
  ]

  -- A hash that no object of the bundle has stays where it is.
  pub settle_items-mempool_other :
      (rs : List ℕ) (s : Bundler) (k : String)
      → ((r : ℕ) (item : Item) → Memᴰ r rs → get_elem? s.heap r ≡ some item → item.user_op_hash ≢ k)
      → OrderedMap.get k (settle_items f rs s).mempool ≡ OrderedMap.get k s.mempool
  unfolding settle_items
  settle_items-mempool_other [] s k h = refl
  settle_items-mempool_other (q ∷ rs) s k h =
      settle_items-mempool_other rs (settle_item f q s) k (λ r item' m at.
        let (item, at', same) = settle_item-back q r s item' at in
        λ e. h r item (Memᴰ.tail m) at' (sym same ∙ e))
      ∙ settle_item-mempool_other q s k (λ item at. h q item (Memᴰ.head refl) at)

module _ (f : Item → Item) (P : Item → Type 0) (sets : (item : Item) → P (f item)) where
  settle_item-Holds_self :
      (r : ℕ) (s : Bundler) (item : Item)
      → get_elem? s.heap r ≡ some item
      → Holds (settle_item f r s) r P
  unfolding settle_item
  settle_item-Holds_self r s item at =
      rw (at, settle_item) (f item, get_elem?-modify_self r f s.heap item at, sets item)

  settle_item-Holds : (r q : ℕ) (s : Bundler) → Holds s q P → Holds (settle_item f r s) q P
  settle_item-Holds r q s (item, at, p) = elim (Option-cases (item_at s r)) [
    | inl e ↦ unfold settle_item in rw (e, settle_item) (item, at, p)
    | inr (item', e) ↦
        unfold settle_item in
        rw (e, settle_item)
          (elim (ℕ_discrete r q) [
            | yes same ↦ (f item, rw same (get_elem?-modify_self q f s.heap item at), sets item)
            | no ne ↦ (item, get_elem?-modify_ne r q f s.heap ne ∙ at, p)
          ])
  ]

  pub settle_items-Holds_keep :
      (rs : List ℕ) (s : Bundler) (q : ℕ) → Holds s q P → Holds (settle_items f rs s) q P
  unfolding settle_items
  settle_items-Holds_keep [] s q h = h
  settle_items-Holds_keep (r ∷ rs) s q h =
      settle_items-Holds_keep rs (settle_item f r s) q (settle_item-Holds r q s h)

  settle_item-there :
      (r q : ℕ) (s : Bundler) (item : Item)
      → get_elem? s.heap q ≡ some item
      → (item' : Item) × (get_elem? (settle_item f r s).heap q ≡ some item')
  settle_item-there r q s item at = elim (Option-cases (item_at s r)) [
    | inl e ↦ unfold settle_item in rw (e, settle_item) (item, at)
    | inr (item', e) ↦
        unfold settle_item in
        rw (e, settle_item)
          (elim (ℕ_discrete r q) [
            | yes same ↦ (f item, rw same (get_elem?-modify_self q f s.heap item at))
            | no ne ↦ (item, get_elem?-modify_ne r q f s.heap ne ∙ at)
          ])
  ]

  -- Every object of the bundle gets what `f` writes.
  pub settle_items-Holds :
      (rs : List ℕ) (s : Bundler) (r : ℕ) (item : Item)
      → Memᴰ r rs
      → get_elem? s.heap r ≡ some item
      → Holds (settle_items f rs s) r P
  unfolding settle_items
  settle_items-Holds [] s r item m at = elim m [ ]
  settle_items-Holds (q ∷ rs) s r item (Memᴰ.head e) at =
      settle_items-Holds_keep rs (settle_item f q s) r
        (subst (λ i. Holds (settle_item f i s) r P) e (settle_item-Holds_self r s item at))
  settle_items-Holds (q ∷ rs) s r item (Memᴰ.tail m) at =
      let (item', at') = settle_item-there q r s item at in
      settle_items-Holds rs (settle_item f q s) r item' m at'

module _ (f : Item → Item) (idem : (item : Item) → f (f item) ≡ f item) where
  settle_item-object_keep :
      (r q : ℕ) (s : Bundler) (item : Item)
      → get_elem? s.heap q ≡ some (f item)
      → get_elem? (settle_item f r s).heap q ≡ some (f item)
  settle_item-object_keep r q s item at = elim (Option-cases (item_at s r)) [
    | inl e ↦ unfold settle_item in rw (e, settle_item) at
    | inr (item', e) ↦
        unfold settle_item in
        rw (e, settle_item)
          (elim (ℕ_discrete r q) [
            | yes same ↦
                rw same (get_elem?-modify_self q f s.heap (f item) at ∙ ap some (idem item))
            | no ne ↦ get_elem?-modify_ne r q f s.heap ne ∙ at
          ])
  ]

  settle_items-object_keep :
      (rs : List ℕ) (s : Bundler) (q : ℕ) (item : Item)
      → get_elem? s.heap q ≡ some (f item)
      → get_elem? (settle_items f rs s).heap q ≡ some (f item)
  unfolding settle_items
  settle_items-object_keep [] s q item at = at
  settle_items-object_keep (r ∷ rs) s q item at =
      settle_items-object_keep rs (settle_item f r s) q item (settle_item-object_keep r q s item at)

  settle_item-object :
      (r : ℕ) (s : Bundler) (item : Item)
      → get_elem? s.heap r ≡ some item
      → get_elem? (settle_item f r s).heap r ≡ some (f item)
  unfolding settle_item
  settle_item-object r s item at = rw (at, settle_item) (get_elem?-modify_self r f s.heap item at)

  -- Every object of the bundle is changed by `f`, once in effect.
  pub settle_items-object :
      (rs : List ℕ) (s : Bundler) (r : ℕ) (item : Item)
      → Memᴰ r rs
      → get_elem? s.heap r ≡ some item
      → get_elem? (settle_items f rs s).heap r ≡ some (f item)
  unfolding settle_items
  settle_items-object [] s r item m at = elim m [ ]
  settle_items-object (q ∷ rs) s r item (Memᴰ.head e) at =
      settle_items-object_keep rs (settle_item f q s) r item (
        subst (λ i. get_elem? (settle_item f i s).heap r ≡ some (f item)) e
          (settle_item-object r s item at))
  settle_items-object (q ∷ rs) s r item (Memᴰ.tail m) at = elim (ℕ_discrete q r) [
    | yes same ↦ settle_items-object_keep rs (settle_item f q s) r item (
        subst (λ i. get_elem? (settle_item f i s).heap r ≡ some (f item)) (sym same)
          (settle_item-object r s item at))
    | no ne ↦
        settle_items-object rs (settle_item f q s) r item m (settle_item-heap_other f q r s ne ∙ at)
  ]
