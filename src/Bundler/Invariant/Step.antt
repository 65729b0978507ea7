-- ===== src/Bundler/Invariant/Step.antt =====
-- The invariant of `LnetBundler` in bundler/src/index.js, along the events of `Bundler/World`.
use mathlib.Core.List.{Memᴰ}
use account_abstraction.Base.{
  some_inj, ℕ, suc, String, ◌≡◌, refl, sym, subst, ◌∙◌, inl, inr, Bool, true, false, some, List, [],
  ◌∷◌, ◌++◌, Result, ok, err, get_elem?, take, is_some, get_elem?-append_left,
  get_elem?-append_length, get_elem?-lt, length-append, mem-take, ◌<◌, arith, length,
}
use account_abstraction.Base.OrderedMap
use account_abstraction.Base.OrderedMap.{get-set_cases, get-set_self, get-set_ne, mem-values-get}
use account_abstraction.Ethers.{Ethers, Exn}
use account_abstraction.Bundler.Types.{Config, Item, pending}
use account_abstraction.Bundler.Errors.{decode_known_error}
use account_abstraction.Bundler.State.{
  Bundler, new_item, accept, LogParser, Bundled, finish_bundle, mark_included, include_item,
  fail_item, collect_events, settle_items,
}
use account_abstraction.Bundler.World.{
  World, Event, hashed, simulated, bundle, settled, initial, step, run,
}
use account_abstraction.Bundler.World.Equations.{
  hashed-cases, simulated-cases, bundle-cases, settled-cases,
}
use account_abstraction.Bundler.Invariant.Settle.{IsCoherent, KeepsHash, settle_items-IsCoherent}

-- The new object is pending and stands under its hash; the others stay.
pub accept-IsCoherent :
    (item : Item) (s : Bundler) → item.status ≡ pending → IsCoherent s → IsCoherent (accept item s)
unfolding accept
accept-IsCoherent item s p c = record {
  mempool_distinct =
      OrderedMap.set-DistinctKeys item.user_op_hash (length s.heap) s.mempool c.mempool_distinct;
  history_owns = λ k r h. elim (get-set_cases item.user_op_hash k (length s.heap) s.history r h) [
    | inl (same, ref) ↦
        (item, subst (λ q. get_elem? (s.heap ++ item ∷ []) q ≡ some item) ref pushed, same)
    | inr (_, old) ↦
        let (x, at, hash) = c.history_owns k r old in
        (x, get_elem?-append_left s.heap (item ∷ []) r x at, hash)
  ];
  mempool_known = λ k r h. elim (get-set_cases item.user_op_hash k (length s.heap) s.mempool r h) [
    | inl (same, ref) ↦
        rw (← same, ← ref) (get-set_self item.user_op_hash (length s.heap) s.history)
    | inr (ne, old) ↦
        get-set_ne item.user_op_hash k (length s.heap) s.history ne ∙ c.mempool_known k r old
  ];
  mempool_pending = λ k r h.
      elim (get-set_cases item.user_op_hash k (length s.heap) s.mempool r h) [
        | inl (same, ref) ↦
            (item, subst (λ q. get_elem? (s.heap ++ item ∷ []) q ≡ some item) ref pushed, same, p)
        | inr (_, old) ↦
            let (x, at, hash, st) = c.mempool_pending k r old in
            (x, get_elem?-append_left s.heap (item ∷ []) r x at, hash, st)
      ];
}
  where
    pushed : get_elem? (s.heap ++ item ∷ []) (length s.heap) ≡ some item
    pushed = get_elem?-append_length s.heap item

include_item-KeepsHash :
    (e : Ethers) (b : Bundled) (parse : LogParser)
    → KeepsHash (include_item e b.receipt (collect_events parse b.receipt.logs []))
unfolding include_item
include_item-KeepsHash e b parse item = refl

fail_item-KeepsHash : (reason : String) → KeepsHash (fail_item reason)
unfolding fail_item
fail_item-KeepsHash reason item = refl

bundling-accept : (item : Item) (s : Bundler) → (accept item s).bundling ≡ s.bundling
unfolding accept
bundling-accept item s = refl

pub set_bundling-IsCoherent :
    (b : Bool) (s : Bundler) → IsCoherent s → IsCoherent (record s { bundling = b })
set_bundling-IsCoherent b s c = record {
  mempool_distinct = c.mempool_distinct;
  history_owns = c.history_owns;
  mempool_known = c.mempool_known;
  mempool_pending = c.mempool_pending;
}

-- Whatever comes of a bundle, its end keeps the maps coherent.
pub finish_bundle-IsCoherent :
    (e : Ethers) (parse : LogParser) (items : List ℕ) (outcome : Result Exn Bundled) (s : Bundler)
    → IsCoherent s
    → IsCoherent (finish_bundle e parse items outcome s).1
unfolding finish_bundle mark_included
finish_bundle-IsCoherent e parse items (ok b) s c =
    set_bundling-IsCoherent false (mark_included e parse items b.receipt s)
      (settle_items-IsCoherent _ (include_item-KeepsHash e b parse) items s c)
finish_bundle-IsCoherent e parse items (err x) s c =
    let reason = decode_known_error x in
    set_bundling-IsCoherent false (settle_items (fail_item reason) items s)
      (settle_items-IsCoherent _ (fail_item-KeepsHash reason) items s c)

bundling-finish_bundle :
    (e : Ethers) (parse : LogParser) (items : List ℕ) (outcome : Result Exn Bundled) (s : Bundler)
    → (finish_bundle e parse items outcome s).1.bundling ≡ false
unfolding finish_bundle
bundling-finish_bundle e parse items (ok b) s = refl
bundling-finish_bundle e parse items (err x) s = refl

pub record IsSound (w : World) : Type 0 where
  pub coherent : IsCoherent w.bundler
  pub one_flight : w.bundler.bundling ≡ is_some w.flight
  pub flight_there :
      (items : List ℕ) (r : ℕ) → w.flight ≡ some items → Memᴰ r items → r < length w.bundler.heap

pub initial-IsSound : IsSound initial
initial-IsSound = record {
  coherent = record {
    mempool_distinct = tt;
    history_owns = λ k r h. unfold OrderedMap.get in cc;
    mempool_known = λ k r h. h;
    mempool_pending = λ k r h. unfold OrderedMap.get in cc;
  };
  one_flight = refl;
  flight_there = λ items r e m. cc;
}

length-accept : (item : Item) (s : Bundler) → length (accept item s).heap ≡ suc (length s.heap)
unfolding accept
length-accept item s = omega (arith, length-append s.heap (item ∷ []))

-- What a bundle takes from `mempool` refers to objects that are there.
taken_there :
    (config : Config) (s : Bundler)
    → IsCoherent s
    → (r : ℕ) → Memᴰ r (take config.max_bundle_size (OrderedMap.values s.mempool))
    → r < length s.heap
taken_there config s c r m =
    let (k, queued) =
      mem-values-get s.mempool r c.mempool_distinct (mem-take config.max_bundle_size _ m) in
    let (item, at, _, _) = c.mempool_pending k r queued in get_elem?-lt s.heap r item at

-- Every event, in every order, keeps the maps coherent and at most one bundle in flight.
pub step-IsSound :
    (e : Ethers) (parse : LogParser) (config : Config) (ev : Event) (w : World)
    → IsSound w
    → IsSound (step e parse config ev w)
step-IsSound e parse config (hashed send) w v = elim (hashed-cases e parse config w send) [
  | inl (_, same) ↦ rw same v
  | inr (_, waits) ↦
      rw waits
        (record { coherent = v.coherent; one_flight = v.one_flight; flight_there = v.flight_there })
]
step-IsSound e parse config (simulated i answer now) w v =
    elim (simulated-cases e parse config w i answer now) [
      | inl (_, same) ↦ rw same v
      | inr (inl (send, _, _, done)) ↦ rw done (record {
        coherent =
            accept-IsCoherent (new_item send.hash send.op send.entry_point now) w.bundler refl
              v.coherent;
        one_flight = bundling-accept _ w.bundler ∙ v.one_flight;
        flight_there = λ items r e' m. omega (
          arith,
          v.flight_there items r e' m,
          length-accept (new_item send.hash send.op send.entry_point now) w.bundler,
        );
      })
      | inr (inr (_, _, dropped)) ↦ rw dropped (record {
        coherent = v.coherent;
        one_flight = v.one_flight;
        flight_there = v.flight_there;
      })
    ]
step-IsSound e parse config bundle w v = elim (bundle-cases e parse config w) [
  | inl same ↦ rw same v
  | inr (_, taken) ↦ rw taken (record {
    coherent = set_bundling-IsCoherent true w.bundler v.coherent;
    one_flight = refl;
    flight_there = λ items r e' m.
        taken_there config w.bundler v.coherent r (subst (Memᴰ r) (sym (some_inj e')) m);
  })
]
step-IsSound e parse config (settled outcome) w v = elim (settled-cases e parse config w outcome) [
  | inl (_, same) ↦ rw same v
  | inr (items, _, done) ↦ rw done (record {
    coherent = finish_bundle-IsCoherent e parse items outcome w.bundler v.coherent;
    one_flight = bundling-finish_bundle e parse items outcome w.bundler;
    flight_there = λ items' r e' m. cc;
  })
]

run-IsSound :
    (e : Ethers) (parse : LogParser) (config : Config) (evs : List Event) (w : World)
    → IsSound w
    → IsSound (run e parse config evs w)
unfolding run
run-IsSound e parse config [] w v = v
run-IsSound e parse config (ev ∷ evs) w v =
    run-IsSound e parse config evs (step e parse config ev w) (step-IsSound e parse config ev w v)

pub run-initial-IsSound :
    (e : Ethers) (parse : LogParser) (config : Config) (evs : List Event)
    → IsSound (run e parse config evs initial)
run-initial-IsSound e parse config evs = run-IsSound e parse config evs initial initial-IsSound
