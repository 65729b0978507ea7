-- ===== src/Bundler/World.antt =====
-- The bundler with its waits: each event is what runs between two waits of `sendUserOperation` or
-- `bundleNow` in bundler/src/index.js, and any list of events is an order in which Node may run them.
pub mod Equations
use account_abstraction.Base.{
  ℕ, zero, suc, String, Option, none, some, List, [], ◌∷◌, ◌++◌, Result, ok, err, get_elem?,
  if◌then◌else◌,
}
use account_abstraction.Js.Value.{Value}
use account_abstraction.Ethers.{Ethers, Exn}
use account_abstraction.Bundler.Types.{Config, UserOp}
use account_abstraction.Bundler.Simulation.{simulate_validation}
use account_abstraction.Bundler.State.{
  Bundler, start, is_known, new_item, accept, begin_bundle, LogParser, Bundled, finish_bundle,
}

-- A call of `sendUserOperation` that waits for its simulation.
pub record Send : Type 0 where
  pub hash : String
  pub op : UserOp
  pub entry_point : String

-- `flight` is the bundle whose call of `bundleNow` waits for the chain.
pub record World : Type 0 where
  pub bundler : Bundler
  pub sends : List Send
  pub flight : Option (List ℕ)

abbrev pub initial : World
initial = record { bundler = start; sends = []; flight = none }

pub data Event : Type 0 where
  hashed : Send → Event  -- `getUserOpHash` has answered
  simulated : ℕ → Result Exn Value → ℕ → Event  -- the simulation of a waiting send has, at a time
  bundle : Event  -- a timer, `setImmediate` or a request calls `bundleNow`
  settled : Result Exn Bundled → Event  -- the bundle's transaction is in, or has failed

abbrev pub remove_at {ℓ} : {A : Type ℓ} → ℕ → List A → List A
remove_at i [] = []
remove_at zero (x ∷ xs) = xs
remove_at (suc i) (x ∷ xs) = x ∷ remove_at i xs

abbrev accept_if : Result Exn (Unit {0}) → Send → ℕ → Bundler → Bundler
accept_if (ok u) send now s = accept (new_item send.hash send.op send.entry_point now) s
accept_if (err x) send now s = s

module _ (e : Ethers) (parse : LogParser) (config : Config) where
  unfoldable pub step : Event → World → World
  step (hashed send) w =
      if is_known w.bundler send.hash then w else record w { sends = w.sends ++ send ∷ [] }
  step (simulated i answer now) w = elim (get_elem? w.sends i) [
    | none ↦ w
    | some send ↦ record w {
      bundler = accept_if (simulate_validation config answer) send now w.bundler;
      sends = remove_at i w.sends;
    }
  ]
  step bundle w =
      let (taken, s) = begin_bundle config w.bundler in
      elim taken [ none ↦ w | some items ↦ record w { bundler = s; flight = some items } ]
  step (settled outcome) w = elim w.flight [
    | none ↦ w
    | some items ↦ record w {
      bundler = (finish_bundle e parse items outcome w.bundler).1;
      flight = none;
    }
  ]

  unfoldable pub run : List Event → World → World
  run [] w = w
  run (ev ∷ evs) w = run evs (step ev w)
