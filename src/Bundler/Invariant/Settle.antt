-- ===== src/Bundler/Invariant/Settle.antt =====
-- The loops that end a bundle, on maps that refer to their own objects.
use account_abstraction.Base.{
  ℕ, String, ◌≡◌, ◌≢◌, ap, ◌∙◌, inl, inr, some, List, [], ◌∷◌, get_elem?, modify,
  get_elem?-modify_self, get_elem?-modify_ne, Option-cases, arith,
}
use native.Mathlib.Decide.{ℕ_discrete}
use account_abstraction.Base.OrderedMap
use account_abstraction.Base.OrderedMap.{get-delete-some}
use account_abstraction.Bundler.Types.{Item, pending}
use account_abstraction.Bundler.State.{Bundler, item_at, settle_item, settle_items}

-- An object of the store that stands under its own hash.
abbrev pub Owns : Bundler → String → ℕ → Type 0
Owns s k r = (item : Item) × (get_elem? s.heap r ≡ some item) × (item.user_op_hash ≡ k)

-- One that is pending, too.
abbrev pub OwnsPending : Bundler → String → ℕ → Type 0
OwnsPending s k r =
    (item : Item) × (get_elem? s.heap r ≡ some item)
    × (item.user_op_hash ≡ k)
    × (item.status ≡ pending)

pub record IsCoherent (s : Bundler) : Type 0 where
  pub mempool_distinct : OrderedMap.DistinctKeys s.mempool
  pub history_owns : (k : String) (r : ℕ) → OrderedMap.get k s.history ≡ some r → Owns s k r
  pub mempool_known :
      (k : String) (r : ℕ)
      → OrderedMap.get k s.mempool ≡ some r
      → OrderedMap.get k s.history ≡ some r
  pub mempool_pending :
      (k : String) (r : ℕ) → OrderedMap.get k s.mempool ≡ some r → OwnsPending s k r

-- A change of an object that leaves its hash alone.
abbrev pub KeepsHash : (Item → Item) → Type 0
KeepsHash f = (item : Item) → (f item).user_op_hash ≡ item.user_op_hash

module _ (f : Item → Item) (keep : KeepsHash f) where
  modify-Owns :
      (s : Bundler) (i r : ℕ) (k : String)
      → Owns s k r
      → (item : Item) × (get_elem? (modify i f s.heap) r ≡ some item) × (item.user_op_hash ≡ k)
  modify-Owns s i r k (item, at, hash) = elim (ℕ_discrete i r) [
    | yes e ↦ (f item, rw e (get_elem?-modify_self r f s.heap item at), keep item ∙ hash)
    | no ne ↦ (item, get_elem?-modify_ne i r f s.heap ne ∙ at, hash)
  ]

  settle_item-pending :
      (s : Bundler) (r q : ℕ) (item : Item) (k : String)
      → get_elem? s.heap r ≡ some item
      → item.user_op_hash ≢ k
      → OwnsPending s k q
      → (item' : Item) × (get_elem? (modify r f s.heap) q ≡ some item')
        × (item'.user_op_hash ≡ k)
        × (item'.status ≡ pending)
  settle_item-pending s r q item k at ne (item', at', hash, st) =
      (item', get_elem?-modify_ne r q f s.heap distinct ∙ at', hash, st)
    where
      distinct : r ≢ q
      distinct e = ne (ground (arith, at, at', e, ap (get_elem? s.heap) e))

  pub settle_item-IsCoherent : (r : ℕ) (s : Bundler) → IsCoherent s → IsCoherent (settle_item f r s)
  settle_item-IsCoherent r s c = elim (Option-cases (item_at s r)) [
    | inl e ↦ unfold settle_item in rw (e, settle_item) c
    | inr (item, e) ↦
        unfold settle_item in
        rw (e, settle_item)
          (record {
            mempool_distinct =
                OrderedMap.delete-DistinctKeys item.user_op_hash s.mempool c.mempool_distinct;
            history_owns = λ k q h. modify-Owns s r q k (c.history_owns k q h);
            mempool_known =
                λ k q h. c.mempool_known k q (get-delete-some item.user_op_hash k s.mempool q h).1;
            mempool_pending = λ k q h.
                let (ne, h') = get-delete-some item.user_op_hash k s.mempool q h in
                settle_item-pending s r q item k e ne (c.mempool_pending k q h');
          })
  ]

  pub settle_items-IsCoherent :
      (rs : List ℕ) (s : Bundler) → IsCoherent s → IsCoherent (settle_items f rs s)
  unfolding settle_items
  settle_items-IsCoherent [] s c = c
  settle_items-IsCoherent (r ∷ rs) s c =
      settle_items-IsCoherent rs (settle_item f r s) (settle_item-IsCoherent r s c)
