-- ===== src/Bundler/Lifecycle/Settled.antt =====
-- On the end of `bundleNow` in bundler/src/index.js.
use mathlib.Core.List.{Memᴰ}
use account_abstraction.Base.{
  ℕ, String, ◌≡◌, ◌≢◌, refl, ap, false, none, some, List, [], Result, ok, err, get_elem?,
}
use account_abstraction.Base.OrderedMap
use account_abstraction.Ethers.{Ethers, Exn}
use account_abstraction.Bundler.Types.{Item, Status, included, failed}
use account_abstraction.Bundler.Errors.{decode_known_error}
use account_abstraction.Bundler.State.{
  Bundler, LogParser, Bundled, collect_events, include_item, fail_item, settle_items, mark_included,
  finish_bundle,
}
use account_abstraction.Bundler.Invariant.Settle.{KeepsHash, Owns}
use account_abstraction.Bundler.Invariant.Frame.{
  Holds, settle_items-history, settle_items-mempool_self, settle_items-mempool_other,
  settle_items-Holds,
}

-- The change that the end of a bundle makes to each of its objects.
abbrev pub settlement : Ethers → LogParser → Result Exn Bundled → Item → Item
settlement e parse (ok b) = include_item e b.receipt (collect_events parse b.receipt.logs [])
settlement e parse (err x) = fail_item (decode_known_error x)

abbrev pub outcome_status : Result Exn Bundled → Status
outcome_status (ok b) = included
outcome_status (err x) = failed

module _ (e : Ethers) (parse : LogParser) where
  pub settlement-KeepsHash : (outcome : Result Exn Bundled) → KeepsHash (settlement e parse outcome)
  unfolding include_item fail_item
  settlement-KeepsHash (ok b) item = refl
  settlement-KeepsHash (err x) item = refl

  pub settlement-status :
      (outcome : Result Exn Bundled) (item : Item)
      → (settlement e parse outcome item).status ≡ outcome_status outcome
  unfolding include_item fail_item
  settlement-status (ok b) item = refl
  settlement-status (err x) item = refl

  pub finish_bundle-settle :
      (items : List ℕ) (outcome : Result Exn Bundled) (s : Bundler)
      → (finish_bundle e parse items outcome s).1
        ≡ record (settle_items (settlement e parse outcome) items s) { bundling = false }
  unfolding finish_bundle mark_included
  finish_bundle-settle items (ok b) s = refl
  finish_bundle-settle items (err x) s = refl

  -- The end of a bundle, for an operation of the bundle: its hash has left `mempool`, its object is
  -- included or failed as the outcome says, and `history` is as before.
  pub finish_bundle-settles :
      (items : List ℕ) (outcome : Result Exn Bundled) (s : Bundler) (r : ℕ) (k : String)
      → Memᴰ r items
      → Owns s k r
      → let s' = (finish_bundle e parse items outcome s).1 in
        (OrderedMap.get k s'.mempool ≡ none)
        × Holds s' r (λ item. item.status ≡ outcome_status outcome)
        × (s'.history ≡ s.history)
  finish_bundle-settles items outcome s r k m o =
      let f = settlement e parse outcome in
      rw (finish_bundle-settle items outcome s) (
        settle_items-mempool_self f (settlement-KeepsHash outcome) items s r k m o,
        settle_items-Holds f (λ item. item.status ≡ outcome_status outcome)
            (settlement-status outcome) items s r o.0 m o.1,
        settle_items-history f items s,
      )

  -- A bundle's end, for a hash that no object of the bundle has: it keeps its place in `mempool`
  -- and in `history`.
  pub finish_bundle-keeps :
      (items : List ℕ) (outcome : Result Exn Bundled) (s : Bundler) (k : String)
      → ((r : ℕ) (item : Item)
          → Memᴰ r items
          → get_elem? s.heap r ≡ some item
          → item.user_op_hash ≢ k)
      → let s' = (finish_bundle e parse items outcome s).1 in
        (OrderedMap.get k s'.mempool ≡ OrderedMap.get k s.mempool)
        × (OrderedMap.get k s'.history ≡ OrderedMap.get k s.history)
  finish_bundle-keeps items outcome s k other =
      let f = settlement e parse outcome in
      rw (finish_bundle-settle items outcome s) (
        settle_items-mempool_other f (settlement-KeepsHash outcome) items s k other,
        ap (OrderedMap.get k) (settle_items-history f items s),
      )
