-- ===== src/Bundler/World/Equations.antt =====
-- What each event does, case by case.
use account_abstraction.Base.{
  ℕ, ◌≡◌, ◌⊎◌, inl, inr, true, false, none, some, List, [], ◌∷◌, ◌++◌, Result, ok, get_elem?, take,
  arith, Option-cases, Result-cases, Bool-cases,
}
use account_abstraction.Base.OrderedMap
use account_abstraction.Js.Value.{Value}
use account_abstraction.Ethers.{Ethers, Exn}
use account_abstraction.Bundler.Types.{Config}
use account_abstraction.Bundler.Simulation.{simulate_validation}
use account_abstraction.Bundler.State.{
  Bundler, is_known, new_item, accept, begin_bundle, LogParser, Bundled, finish_bundle,
}
use account_abstraction.Bundler.World.{
  World, Send, hashed, simulated, bundle, settled, remove_at, step,
}

-- `begin_bundle` takes the oldest items unless a bundle is in flight or there are none.
begin_bundle-cases :
    (config : Config) (s : Bundler)
    → (begin_bundle config s ≡ (none, s))
      ⊎ ((s.bundling ≡ false)
          × (begin_bundle config s ≡ (
            some (take config.max_bundle_size (OrderedMap.values s.mempool)),
            record s { bundling = true },
          )))
unfolding begin_bundle
begin_bundle-cases config s = ground arith

-- An accepted send, which leaves `sends`.
abbrev pub accepted : Send → ℕ → ℕ → World → World
accepted send now i w = record w {
  bundler = accept (new_item send.hash send.op send.entry_point now) w.bundler;
  sends = remove_at i w.sends;
}

-- A bundle that has been taken from `mempool`.
abbrev pub bundled : Config → World → World
bundled config w = record w {
  bundler = record w.bundler { bundling = true };
  flight = some (take config.max_bundle_size (OrderedMap.values w.bundler.mempool));
}

abbrev pub landed : Ethers → LogParser → List ℕ → Result Exn Bundled → World → World
landed e parse items outcome w = record w {
  bundler = (finish_bundle e parse items outcome w.bundler).1;
  flight = none;
}

module _ (e : Ethers) (parse : LogParser) (config : Config) (w : World) where
  pub hashed-cases :
      (send : Send)
      → ((is_known w.bundler send.hash ≡ true) × (step e parse config (hashed send) w ≡ w))
        ⊎ ((is_known w.bundler send.hash ≡ false)
            × (step e parse config (hashed send) w ≡ record w { sends = w.sends ++ send ∷ [] }))
  hashed-cases send = elim (Bool-cases (is_known w.bundler send.hash)) [
    | inl known ↦ inl (known, unfold step in rw known)
    | inr new ↦ inr (new, unfold step in rw new)
  ]

  pub simulated-cases :
      (i : ℕ) (answer : Result Exn Value) (now : ℕ)
      → ((get_elem? w.sends i ≡ none) × (step e parse config (simulated i answer now) w ≡ w))
        ⊎ ((send : Send) × (get_elem? w.sends i ≡ some send)
            × (simulate_validation config answer ≡ ok tt)
            × (step e parse config (simulated i answer now) w ≡ accepted send now i w))
        ⊎ ((send : Send) × (get_elem? w.sends i ≡ some send)
            × (step e parse config (simulated i answer now) w
                ≡ record w { sends = remove_at i w.sends }))
  unfolding step
  simulated-cases i answer now = elim (Option-cases (get_elem? w.sends i)) [
    | inl missing ↦ inl (missing, ground arith)
    | inr (send, at) ↦ elim (Result-cases (simulate_validation config answer)) [
      | inl (tt, passed) ↦ inr (inl (send, at, passed, ground arith))
      | inr (x, refused) ↦ inr (inr (send, at, ground arith))
    ]
  ]

  pub bundle-cases :
      (step e parse config bundle w ≡ w)
      ⊎ ((w.bundler.bundling ≡ false) × (step e parse config bundle w ≡ bundled config w))
  unfolding step
  bundle-cases = elim (begin_bundle-cases config w.bundler) [
    | inl idle ↦ inl (ground arith)
    | inr (free, taken) ↦ inr (free, ground arith)
  ]

  pub settled-cases :
      (outcome : Result Exn Bundled)
      → ((w.flight ≡ none) × (step e parse config (settled outcome) w ≡ w))
        ⊎ ((items : List ℕ) × (w.flight ≡ some items)
            × (step e parse config (settled outcome) w ≡ landed e parse items outcome w))
  unfolding step
  settled-cases outcome = elim (Option-cases w.flight) [
    | inl missing ↦ inl (missing, ground arith)
    | inr (items, there) ↦ inr (items, there, ground arith)
  ]

  pub step-simulated_passed :
      (i : ℕ) (answer : Result Exn Value) (now : ℕ) (send : Send)
      → get_elem? w.sends i ≡ some send
      → simulate_validation config answer ≡ ok tt
      → step e parse config (simulated i answer now) w ≡ accepted send now i w
  unfolding step
  step-simulated_passed i answer now send at passed = ground arith

  pub step-settled_flight :
      (outcome : Result Exn Bundled) (items : List ℕ)
      → w.flight ≡ some items
      → step e parse config (settled outcome) w ≡ landed e parse items outcome w
  unfolding step
  step-settled_flight outcome items there = ground arith
