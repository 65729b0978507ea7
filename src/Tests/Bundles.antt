-- ===== src/Tests/Bundles.antt =====
-- One run of each theorem on bundles and on the orders of the waiting calls.
use mathlib.Core.List.{Memᴰ}
use account_abstraction.Base.{
  ◌≡◌, refl, ok, err, some, none, true, ℕ, clash, eq_iff, ap, ◌∙◌, some_inj, zero, suc, [], ◌∷◌,
  List, get_elem?, ◌≢◌, String, if◌then◌else◌, drop, arith,
}
use account_abstraction.Base.OrderedMap
use account_abstraction.Js.Value.{str}
use account_abstraction.Ethers.{plain_error}
use account_abstraction.Bundler.Types.{Item, included, zero_address}
use account_abstraction.Bundler.State.{
  Bundler, start, accept, new_item, finish_bundle, bundle_now, begin_bundle, lookup,
}
use account_abstraction.Bundler.Simulation.{simulate_validation}
use account_abstraction.Bundler.World.{
  World, Event, hashed, simulated, bundle, settled, run, step, initial,
}
use account_abstraction.Bundler.Invariant.Settle.{IsCoherent, Owns}
use account_abstraction.Bundler.Invariant.Frame.{Holds}
use account_abstraction.Bundler.Invariant.Step.{
  initial-IsSound, accept-IsCoherent, run-initial-IsSound,
}
use account_abstraction.Bundler.Lifecycle.Settled.{finish_bundle-settles, finish_bundle-keeps}
use account_abstraction.Bundler.Lifecycle.Tracking.{run-IsTracked, IsTracked}
use account_abstraction.Bundler.Lifecycle.Orphan.{duplicate_orphaned}
use account_abstraction.Bundler.Queue.{queue, queue-bundle_now}
use account_abstraction.Tests.Toys.{
  toy_ethers, toy_config, toy_parser, toy_send, toy_op, toy_bundled, toy_chain, hash, entry_point,
  starts_with_0x,
}

-- Two calls with the same operation; the bundle leaves before the second simulation ends.
abbrev racing : List Event
racing = hashed toy_send ∷ hashed toy_send ∷ simulated 0 (ok (str zero_address)) 1000 ∷ bundle ∷ []

abbrev in_flight : World
in_flight = run toy_ethers toy_parser toy_config racing initial

-- One call, bundled and included.
abbrev served : List Event
served =
    hashed toy_send
    ∷ simulated 0 (ok (str zero_address)) 1000
    ∷ bundle
    ∷ settled (ok toy_bundled)
    ∷ []

run-IsTracked_example : IsTracked (run toy_ethers toy_parser toy_config served initial).bundler
unfolding step simulate_validation OrderedMap.get
run-IsTracked_example =
    run-IsTracked toy_ethers toy_parser toy_config served (tt, (λ send at. refl, (tt, (tt, tt))))

abbrev failing : World
failing =
    run toy_ethers toy_parser toy_config
      (hashed toy_send ∷ simulated 0 (ok (str zero_address)) 1000 ∷ bundle ∷ []) initial

abbrev other_hash : String
other_hash = "0x3333333333333333333333333333333333333333333333333333333333333333"

abbrev waiting : Item
waiting = new_item hash toy_op entry_point 1000

-- Two operations wait.
abbrev queued : Bundler
queued = accept (new_item other_hash toy_op entry_point 1001) (accept waiting start)

queued-IsCoherent : IsCoherent queued
queued-IsCoherent =
    accept-IsCoherent (new_item other_hash toy_op entry_point 1001) (accept waiting start) refl
      (accept-IsCoherent waiting start refl (initial-IsSound.coherent))

waiting-Owns : Owns queued hash 0
unfolding accept
waiting-Owns = (waiting, refl, refl)

finish_bundle-settles_example :
    let s' = (finish_bundle toy_ethers toy_parser (0 ∷ []) (ok toy_bundled) queued).1 in
    (OrderedMap.get hash s'.mempool ≡ none)
    × Holds s' 0 (λ item. item.status ≡ included)
    × (s'.history ≡ queued.history)
finish_bundle-settles_example =
    finish_bundle-settles toy_ethers toy_parser (0 ∷ []) (ok toy_bundled) queued 0 hash
      (Memᴰ.head refl) waiting-Owns

hashes_differ : hash ≢ other_hash
hashes_differ h = clash ((eq_iff hash other_hash).1 h) refl

only_waiting :
    (r : ℕ) (item : Item)
    → Memᴰ r (0 ∷ [])
    → get_elem? queued.heap r ≡ some item
    → item.user_op_hash ≢ other_hash
unfolding accept
only_waiting zero item m at = λ h. hashes_differ (ap (λ i. i.user_op_hash) (some_inj at) ∙ h)
only_waiting (suc r) item (Memᴰ.head e) at = absurd (omega (arith, e))
only_waiting (suc r) item (Memᴰ.tail m) at = elim m [ ]

toy_kept :
    let s' = (finish_bundle toy_ethers toy_parser (0 ∷ []) (err (plain_error "boom")) queued).1 in
    (OrderedMap.get other_hash s'.mempool ≡ OrderedMap.get other_hash queued.mempool)
    × (OrderedMap.get other_hash s'.history ≡ OrderedMap.get other_hash queued.history)
toy_kept =
    finish_bundle-keeps toy_ethers toy_parser (0 ∷ []) (err (plain_error "boom")) queued other_hash
      only_waiting

queue-bundle_now_example :
    queue (bundle_now toy_ethers toy_parser toy_config toy_chain.submit queued).1
    ≡ (if queued.bundling then queue queued else drop 1 (queue queued))
queue-bundle_now_example =
    queue-bundle_now toy_ethers toy_parser toy_config toy_chain.submit queued queued-IsCoherent

word : toy_ethers.is_hex_string_32 (str hash) ≡ true
unfolding starts_with_0x
word = refl

in_flight_bundle : in_flight.flight ≡ some (0 ∷ [])
unfolding run step accept begin_bundle simulate_validation OrderedMap.get OrderedMap.set
in_flight_bundle = refl

in_flight-Owns : Owns in_flight.bundler hash 0
unfolding run step accept begin_bundle simulate_validation OrderedMap.get OrderedMap.set
in_flight-Owns = (waiting, refl, refl)

second_call : get_elem? in_flight.sends 0 ≡ some toy_send
unfolding run step accept begin_bundle simulate_validation OrderedMap.get OrderedMap.set
second_call = refl

passed : simulate_validation toy_config (ok (str zero_address)) ≡ ok tt
unfolding simulate_validation
passed = refl

-- The second call of `racing` waits for its simulation while the first one's bundle is in flight.
duplicate_orphaned_example :
    let w' = step toy_ethers toy_parser toy_config (settled (ok toy_bundled)) (
      step toy_ethers toy_parser toy_config (simulated 0 (ok (str zero_address)) 1002) in_flight) in
    (OrderedMap.get hash w'.bundler.mempool ≡ none)
    × (lookup w'.bundler hash ≡ some (new_item hash toy_op entry_point 1002))
duplicate_orphaned_example =
    duplicate_orphaned toy_ethers toy_parser toy_config in_flight (0 ∷ []) 0 0 1002 toy_send
      (ok (str zero_address)) (ok toy_bundled)
      (run-initial-IsSound toy_ethers toy_parser toy_config racing) in_flight_bundle
      (Memᴰ.head refl) in_flight-Owns second_call passed
