-- ===== src/Bundler/Queue.antt =====
-- The order of `mempool` in bundler/src/index.js: an abstract queue, and `bundleNow` on it.
use account_abstraction.Base.{
  ℕ, zero, suc, String, ◌≡◌, refl, ap, subst, eq_refl, ◌∙◌, true, none, some, List, [], ◌∷◌, ◌++◌,
  Result, get_elem?, take, drop, length, nat_beq, arith, if◌then◌else◌,
}
use account_abstraction.Base.OrderedMap
use account_abstraction.Base.OrderedMap.{values, delete_first, values-set_new}
use account_abstraction.Ethers.{Ethers, Exn}
use account_abstraction.Bundler.Types.{Config, UserOp, Item}
use account_abstraction.Bundler.State.{
  Bundler, accept, begin_bundle, settle_item, settle_items, LogParser, Bundled, bundle_ops,
  finish_bundle, bundle_now,
}
use account_abstraction.Bundler.Invariant.Settle.{IsCoherent, KeepsHash, settle_item-IsCoherent}
use account_abstraction.Bundler.Invariant.Step.{set_bundling-IsCoherent}
use account_abstraction.Bundler.Lifecycle.Settled.{
  settlement, settlement-KeepsHash, finish_bundle-settle,
}

-- The abstract view: the references that wait, oldest first.
abbrev pub queue : Bundler → List ℕ
queue s = values s.mempool

-- A hash that `mempool` does not hold joins the queue at its end.
queue-accept :
    (item : Item) (s : Bundler)
    → OrderedMap.get item.user_op_hash s.mempool ≡ none
    → queue (accept item s) ≡ queue s ++ length s.heap ∷ []
unfolding accept
queue-accept item s h = values-set_new item.user_op_hash (length s.heap) s.mempool h

get-first : (k : String) (r : ℕ) (m : List (String × ℕ)) → OrderedMap.get k ((k, r) ∷ m) ≡ some r
unfolding OrderedMap.get
get-first k r m = rw (eq_refl k)

mempool-settle_item :
    (f : Item → Item) (r : ℕ) (s : Bundler) (item : Item)
    → get_elem? s.heap r ≡ some item
    → (settle_item f r s).mempool ≡ OrderedMap.delete item.user_op_hash s.mempool
unfolding settle_item
mempool-settle_item f r s item at = ground arith

module _ (f : Item → Item) (keep : KeepsHash f) where
  settle_item-first :
      (s : Bundler) (k : String) (r : ℕ) (m : List (String × ℕ))
      → s.mempool ≡ (k, r) ∷ m
      → IsCoherent s
      → (settle_item f r s).mempool ≡ m
  settle_item-first s k r m e c =
      let (item, at, hash, _) = c.mempool_pending k r (ap (OrderedMap.get k) e ∙ get-first k r m) in
      mempool-settle_item f r s item at
      ∙ ap (λ h. OrderedMap.delete h s.mempool) hash
      ∙ ap (OrderedMap.delete k) e
      ∙ delete_first k r m (subst OrderedMap.DistinctKeys e c.mempool_distinct)

  -- Settling the oldest entries leaves the others, in their order.
  settle_items-drop :
      (n : ℕ) (m : List (String × ℕ)) (s : Bundler)
      → s.mempool ≡ m
      → IsCoherent s
      → (settle_items f (take n (values m)) s).mempool ≡ drop n m
  unfolding settle_items
  settle_items-drop zero m s e c = e
  settle_items-drop (suc n) [] s e c = e
  settle_items-drop (suc n) ((k, r) ∷ m) s e c =
      settle_items-drop n m (settle_item f r s) (settle_item-first s k r m e c)
        (settle_item-IsCoherent f keep r s c)

values-drop : (n : ℕ) (m : List (String × ℕ)) → values (drop n m) ≡ drop n (values m)
values-drop zero m = refl
values-drop (suc n) [] = refl
values-drop (suc n) ((k, r) ∷ m) = values-drop n m

drop-empty :
    (n : ℕ) (m : List (String × ℕ)) → nat_beq (length m) 0 ≡ true → values m ≡ drop n (values m)
drop-empty zero m h = refl
drop-empty (suc n) [] h = refl
drop-empty (suc n) (x ∷ m) h = absurd (ground arith)

module _ (e : Ethers) (parse : LogParser) (config : Config) where
  finish_bundle-queue :
      (n : ℕ) (outcome : Result Exn Bundled) (s : Bundler)
      → IsCoherent s
      → queue (finish_bundle e parse (take n (queue s)) outcome s).1 ≡ drop n (queue s)
  finish_bundle-queue n outcome s c =
      rw (finish_bundle-settle e parse (take n (queue s)) outcome s) (
        ap values (
          settle_items-drop (settlement e parse outcome) (settlement-KeepsHash e parse outcome) n
            s.mempool s refl c)
        ∙ values-drop n s.mempool)

  -- `bundleNow`, with nothing between its parts: a bundler that is not bundling already takes the
  -- oldest `maxBundleSize` operations off the queue, and leaves the others in their order, whether
  -- the bundle is included or fails. While a bundle is in flight it changes nothing.
  pub queue-bundle_now :
      (submit : List UserOp → Result Exn Bundled) (s : Bundler)
      → IsCoherent s
      → queue (bundle_now e parse config submit s).1
        ≡ (if s.bundling then queue s else drop config.max_bundle_size (queue s))
  unfolding bundle_now begin_bundle
  queue-bundle_now submit s c =
      let n = config.max_bundle_size in
      let s' : Bundler = record s { bundling = true } in
      ground (
        arith,
        finish_bundle-queue n (submit (bundle_ops s' (take n (queue s)))) s'
            (set_bundling-IsCoherent true s c),
        drop-empty n s.mempool,
      )
