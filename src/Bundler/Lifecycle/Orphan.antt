-- ===== src/Bundler/Lifecycle/Orphan.antt =====
-- Two calls of `sendUserOperation` of bundler/src/index.js with the same operation.
use mathlib.Core.List.{Memᴰ}
use account_abstraction.Base.{
  ℕ, ◌<◌, String, ◌≡◌, ap, ◌∙◌, false, none, some, List, [], ◌∷◌, Result, ok, get_elem?, length,
  get_elem?-append_left, get_elem?-append_length, arith,
}
use account_abstraction.Base.OrderedMap
use account_abstraction.Base.OrderedMap.{get-set_self}
use account_abstraction.Js.Value.{Value}
use account_abstraction.Ethers.{Ethers, Exn}
use account_abstraction.Bundler.Types.{Config, Item}
use account_abstraction.Bundler.Simulation.{simulate_validation}
use account_abstraction.Bundler.State.{
  Bundler, LogParser, Bundled, accept, settle_items, new_item, finish_bundle, lookup,
}
use account_abstraction.Bundler.World.{World, Send, simulated, settled, step}
use account_abstraction.Bundler.World.Equations.{
  accepted, step-simulated_passed, step-settled_flight,
}
use account_abstraction.Bundler.Invariant.Settle.{Owns}
use account_abstraction.Bundler.Invariant.Frame.{
  settle_items-history, settle_items-heap_other, settle_items-mempool_self,
}
use account_abstraction.Bundler.Invariant.Step.{IsSound}
use account_abstraction.Bundler.Lifecycle.Settled.{
  settlement, settlement-KeepsHash, finish_bundle-settle,
}

pub lookup_at :
    (s : Bundler) (h : String) (r : ℕ) (item : Item)
    → OrderedMap.get h s.history ≡ some r
    → get_elem? s.heap r ≡ some item
    → lookup s h ≡ some item
unfolding lookup
lookup_at s h r item known at = ground arith

module _ (e : Ethers) (parse : LogParser) (s : Bundler) (item : Item) (items : List ℕ) where
  -- The object that `accept` makes is none of the bundle's, and the bundle's end drops its hash.
  pub finish-accept_orphan :
      (outcome : Result Exn Bundled) (r : ℕ)
      → ((q : ℕ) → Memᴰ q items → q < length s.heap)
      → Memᴰ r items
      → Owns s item.user_op_hash r
      → let s' = (finish_bundle e parse items outcome (accept item s)).1 in
        (OrderedMap.get item.user_op_hash s'.mempool ≡ none)
        × (lookup s' item.user_op_hash ≡ some item)
  unfolding accept
  finish-accept_orphan outcome r there m (x, at, hash) =
      let f = settlement e parse outcome in
      let t = accept item s in
      rw (finish_bundle-settle e parse items outcome t) (
        settle_items-mempool_self f (settlement-KeepsHash e parse outcome) items t r
            item.user_op_hash m (x, get_elem?-append_left s.heap (item ∷ []) r x at, hash),
        lookup_at (record (settle_items f items t) { bundling = false }) item.user_op_hash
            (length s.heap) item
            (ap (OrderedMap.get item.user_op_hash) (settle_items-history f items t)
              ∙ get-set_self item.user_op_hash (length s.heap) s.history)
            (settle_items-heap_other f items t (length s.heap)
                (λ q. absurd (omega (arith, there (length s.heap) q)))
              ∙ get_elem?-append_length s.heap item),
      )

-- Let a bundle wait for the chain with an operation of hash `send.hash` in it. When a second call
-- of `eth_sendUserOperation` with that operation then passes its simulation, and the bundle ends in
-- any way, `mempool` has no entry for the hash, while `history` holds a new object that is pending:
-- the operation is reported as pending, and no bundle will take it.
pub duplicate_orphaned :
    (e : Ethers) (parse : LogParser) (config : Config) (w : World) (items : List ℕ) (r i now : ℕ)
    → (send : Send) (answer : Result Exn Value) (outcome : Result Exn Bundled) → IsSound w
    → w.flight ≡ some items
    → Memᴰ r items
    → Owns w.bundler send.hash r
    → get_elem? w.sends i ≡ some send
    → simulate_validation config answer ≡ ok tt
    → let w' =
        step e parse config (settled outcome) (step e parse config (simulated i answer now) w) in
      (OrderedMap.get send.hash w'.bundler.mempool ≡ none)
      × (lookup w'.bundler send.hash ≡ some (new_item send.hash send.op send.entry_point now))
duplicate_orphaned e parse config w items r i now send answer outcome v flight m owns at passed =
    let item = new_item send.hash send.op send.entry_point now in
    rw (step-simulated_passed e parse config w i answer now send at passed) (
      rw (step-settled_flight e parse config (accepted send now i w) outcome items flight) (
        finish-accept_orphan e parse w.bundler item items outcome r
          (λ q. v.flight_there items q flight) m owns))
