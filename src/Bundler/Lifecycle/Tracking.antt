-- ===== src/Bundler/Lifecycle/Tracking.antt =====
-- Where the operations that `history` of bundler/src/index.js holds are.
use mathlib.Core.List.{Memᴰ}
use native.Mathlib.Decide.{ℕ_discrete}
use account_abstraction.Base.{
  some_inj, ℕ, String, ◌≡◌, ◌⊎◌, inl, inr, refl, sym, subst, ◌∙◌, Option, none, some, List, [], ◌∷◌,
  Result, ok, err, get_elem?, take, length, mem-take, mem-cases, get_elem?-append_left, arith,
}
use account_abstraction.Base.OrderedMap
use account_abstraction.Base.OrderedMap.{get-set_cases, get-set_self, get-set_ne, mem-values-get}
use account_abstraction.Ethers.{Ethers, Exn}
use account_abstraction.Bundler.Types.{Config, Item, included, failed}
use account_abstraction.Bundler.State.{
  Bundler, LogParser, Bundled, accept, settle_items, new_item, finish_bundle,
}
use account_abstraction.Bundler.World.{
  World, Send, Event, hashed, simulated, bundle, settled, initial, step, run,
}
use account_abstraction.Bundler.World.Equations.{
  hashed-cases, simulated-cases, bundle-cases, settled-cases,
}
use account_abstraction.Bundler.Invariant.Settle.{Owns, IsCoherent, KeepsHash}
use account_abstraction.Bundler.Invariant.Frame.{
  Holds, settle_items-history, settle_items-mempool_other, settle_items-Holds,
  settle_items-Holds_keep,
}
use account_abstraction.Bundler.Invariant.Step.{IsSound, step-IsSound, initial-IsSound}
use account_abstraction.Bundler.Lifecycle.Settled.{
  settlement, settlement-KeepsHash, settlement-status, finish_bundle-settle,
}

abbrev pub IsDone : Item → Type 0
IsDone item = (item.status ≡ included) ⊎ (item.status ≡ failed)

-- The object that `history` holds is in `mempool` under the same hash, or done.
abbrev pub IsTracked : Bundler → Type 0
IsTracked s =
    (k : String) (r : ℕ)
    → OrderedMap.get k s.history ≡ some r
    → (OrderedMap.get k s.mempool ≡ some r) ⊎ Holds s r IsDone

-- The bundle in flight holds the objects that `history` holds.
abbrev IsCurrent : Bundler → Option (List ℕ) → Type 0
IsCurrent s flight =
    (items : List ℕ) (r : ℕ)
    → flight ≡ some items
    → Memᴰ r items
    → (k : String) × Owns s k r × (OrderedMap.get k s.history ≡ some r)

-- A simulation does not end for a hash that `history` has got meanwhile.
abbrev pub IsFresh : World → Event → Type 0
IsFresh w (simulated i answer now) =
    (send : Send)
    → get_elem? w.sends i ≡ some send
    → OrderedMap.get send.hash w.bundler.history ≡ none
IsFresh w _ = Unit

record IsOrderly (w : World) : Type 0 where
  pub sound : IsSound w
  pub tracked : IsTracked w.bundler
  pub current : IsCurrent w.bundler w.flight

module _ (item : Item) (s : Bundler) (new : OrderedMap.get item.user_op_hash s.history ≡ none) where
  accept-IsTracked : IsTracked s → IsTracked (accept item s)
  unfolding accept
  accept-IsTracked t k r h =
      elim (get-set_cases item.user_op_hash k (length s.heap) s.history r h) [
        | inl (same, ref) ↦
            inl (rw (← same, ← ref) (get-set_self item.user_op_hash (length s.heap) s.mempool))
        | inr (ne, old) ↦ elim (t k r old) [
          | inl queued ↦ inl (get-set_ne item.user_op_hash k (length s.heap) s.mempool ne ∙ queued)
          | inr (x, at, p) ↦ inr (x, get_elem?-append_left s.heap (item ∷ []) r x at, p)
        ]
      ]

  accept-IsCurrent :
      (flight : Option (List ℕ)) → IsCurrent s flight → IsCurrent (accept item s) flight
  unfolding accept
  accept-IsCurrent flight c items r e m =
      let (k, (x, at, hash), there) = c items r e m in
      (
        k,
        (x, get_elem?-append_left s.heap (item ∷ []) r x at, hash),
        get-set_ne item.user_op_hash k (length s.heap) s.history
              (λ same. ground (arith, subst (λ h. OrderedMap.get h s.history ≡ none) same new))
            ∙ there,
      )

module _ (f : Item → Item) (keep : KeepsHash f) (done : (item : Item) → IsDone (f item)) where
  settle_items-IsTracked :
      (items : List ℕ) (s : Bundler)
      → IsCurrent s (some items)
      → IsTracked s
      → IsTracked (settle_items f items s)
  settle_items-IsTracked items s c t k r h =
      let old = rw (settle_items-history f items s) at h in
      elim (t k r old) [
        | inr p ↦ inr (settle_items-Holds_keep f IsDone done items s r p)
        | inl queued ↦ elim (mem-cases ℕ_discrete r items) [
          | inl m ↦
              let (_, (x, at, _), _) = c items r refl m in
              inr (settle_items-Holds f IsDone done items s r x m at)
          | inr nm ↦ inl (
              settle_items-mempool_other f keep items s k
                (λ q x m at e. nm (subst (λ i. Memᴰ i items) (same_ref q x m at e old) m))
              ∙ queued)
        ]
      ]
    where
      -- the bundle's object of this hash is the one that `history` holds
      same_ref :
          (q : ℕ) (x : Item)
          → Memᴰ q items
          → get_elem? s.heap q ≡ some x
          → x.user_op_hash ≡ k
          → OrderedMap.get k s.history ≡ some r
          → q ≡ r
      same_ref q x m at e old =
          let (k', (x', at', hash'), there) = c items q refl m in
          let keys : k' ≡ k = ground (arith, at, at', e, hash') in
          ground (arith, subst (λ h. OrderedMap.get h s.history ≡ some q) keys there, old)

module _ (e : Ethers) (parse : LogParser) (config : Config) where
  settlement-IsDone :
      (outcome : Result Exn Bundled) (item : Item) → IsDone (settlement e parse outcome item)
  settlement-IsDone (ok b) item = inl (settlement-status e parse (ok b) item)
  settlement-IsDone (err x) item = inr (settlement-status e parse (err x) item)

  taken-IsCurrent :
      (s : Bundler)
      → IsCoherent s
      → IsCurrent s (some (take config.max_bundle_size (OrderedMap.values s.mempool)))
  taken-IsCurrent s c items r e' m =
      let (k, queued) =
        mem-values-get s.mempool r c.mempool_distinct
          (mem-take config.max_bundle_size _ (subst (Memᴰ r) (sym (some_inj e')) m)) in
      let there = c.mempool_known k r queued in (k, c.history_owns k r there, there)

  finish_bundle-IsTracked :
      (items : List ℕ) (outcome : Result Exn Bundled) (s : Bundler)
      → IsCurrent s (some items)
      → IsTracked s
      → IsTracked (finish_bundle e parse items outcome s).1
  finish_bundle-IsTracked items outcome s c t =
      rw (finish_bundle-settle e parse items outcome s) (λ k r h.
        settle_items-IsTracked (settlement e parse outcome) (settlement-KeepsHash e parse outcome)
          (settlement-IsDone outcome) items s c t k r h)

  step-IsTracked :
      (ev : Event) (w : World)
      → IsFresh w ev
      → IsOrderly w
      → IsTracked (step e parse config ev w).bundler
  step-IsTracked (hashed send) w fresh o = elim (hashed-cases e parse config w send) [
    | inl (_, same) ↦ rw same o.tracked
    | inr (_, waits) ↦ rw waits o.tracked
  ]
  step-IsTracked (simulated i answer now) w fresh o =
      elim (simulated-cases e parse config w i answer now) [
        | inl (_, same) ↦ rw same o.tracked
        | inr (inl (send, at, _, done)) ↦ rw done (
            accept-IsTracked (new_item send.hash send.op send.entry_point now) w.bundler
              (fresh send at) o.tracked)
        | inr (inr (_, _, dropped)) ↦ rw dropped o.tracked
      ]
  step-IsTracked bundle w fresh o = elim (bundle-cases e parse config w) [
    | inl same ↦ rw same o.tracked
    | inr (_, taken) ↦ rw taken o.tracked
  ]
  step-IsTracked (settled outcome) w fresh o = elim (settled-cases e parse config w outcome) [
    | inl (_, same) ↦ rw same o.tracked
    | inr (items, there, done) ↦ rw done (
        finish_bundle-IsTracked items outcome w.bundler
          (subst (IsCurrent w.bundler) there o.current) o.tracked)
  ]

  step-IsCurrent :
      (ev : Event) (w : World)
      → IsFresh w ev
      → IsOrderly w
      → IsCurrent (step e parse config ev w).bundler (step e parse config ev w).flight
  step-IsCurrent (hashed send) w fresh o = elim (hashed-cases e parse config w send) [
    | inl (_, same) ↦ rw same o.current
    | inr (_, waits) ↦ rw waits o.current
  ]
  step-IsCurrent (simulated i answer now) w fresh o =
      elim (simulated-cases e parse config w i answer now) [
        | inl (_, same) ↦ rw same o.current
        | inr (inl (send, at, _, done)) ↦ rw done (
            accept-IsCurrent (new_item send.hash send.op send.entry_point now) w.bundler
              (fresh send at) w.flight o.current)
        | inr (inr (_, _, dropped)) ↦ rw dropped o.current
      ]
  step-IsCurrent bundle w fresh o = elim (bundle-cases e parse config w) [
    | inl same ↦ rw same o.current
    | inr (_, taken) ↦ rw taken (taken-IsCurrent w.bundler o.sound.coherent)
  ]
  step-IsCurrent (settled outcome) w fresh o = elim (settled-cases e parse config w outcome) [
    | inl (_, same) ↦ rw same o.current
    | inr (items, there, done) ↦ rw done (λ items' r e' m. cc)
  ]

  abbrev pub IsFreshRun : List Event → World → Type 0
  IsFreshRun [] w = Unit
  IsFreshRun (ev ∷ evs) w = IsFresh w ev × IsFreshRun evs (step e parse config ev w)

  run-IsOrderly :
      (evs : List Event) (w : World)
      → IsFreshRun evs w
      → IsOrderly w
      → IsOrderly (run e parse config evs w)
  unfolding run
  run-IsOrderly [] w fresh o = o
  run-IsOrderly (ev ∷ evs) w (now, later) o =
      run-IsOrderly evs (step e parse config ev w) later (record {
        sound = step-IsSound e parse config ev w o.sound;
        tracked = step-IsTracked ev w now o;
        current = step-IsCurrent ev w now o;
      })

initial-IsOrderly : IsOrderly initial
initial-IsOrderly = record {
  sound = initial-IsSound;
  tracked = λ k r h. unfold OrderedMap.get in cc;
  current = λ items r e m. cc;
}

-- From a new bundler on, in any order of the waiting calls in which no simulation ends for a hash
-- that `history` already holds: every object of `history` waits in `mempool` under its hash, or has
-- been included or failed. No accepted operation is lost.
pub run-IsTracked :
    (e : Ethers) (parse : LogParser) (config : Config) (evs : List Event)
    → IsFreshRun e parse config evs initial
    → IsTracked (run e parse config evs initial).bundler
run-IsTracked e parse config evs fresh =
    (run-IsOrderly e parse config evs initial fresh initial-IsOrderly).tracked
