-- ===== src/Bundler/Rejects.antt =====
-- On the outcome of `simulateValidation` of bundler/src/index.js.
use account_abstraction.Base.{true, false, ◌≡◌, ◌↔◌, ◌⊎◌, inr, Result, ok, err, arith, eq_iff}
use account_abstraction.Js.Value.{Value, truthy, is_text}
use account_abstraction.Ethers.{Exn}
use account_abstraction.Bundler.Types.{Config, zero_address}
use account_abstraction.Bundler.Simulation.{simulate_validation, is_unsupported}

-- An answer that passes the body of the `try`: a result that names no aggregator.
abbrev pub NoAggregator : Result Exn Value → Type 0
NoAggregator (ok a) = (truthy a ≡ false) ⊎ (is_text a zero_address ≡ true)
NoAggregator (err x) = ⊥

-- An answer that `try` mode forgives: every result, and a throw that is_unsupported describes.
abbrev pub IsForgiven : Result Exn Value → Type 0
IsForgiven (ok a) = Unit
IsForgiven (err x) = is_unsupported x ≡ true

pub simulate_validation-ok_iff :
    (config : Config) (answer : Result Exn Value)
    → (simulate_validation config answer ≡ ok tt) ↔ (
        (config.simulation_mode ≡ "disabled")
        ⊎ NoAggregator answer
        ⊎ ((config.simulation_mode ≡ "try") × IsForgiven answer))
unfolding simulate_validation
simulate_validation-ok_iff config (ok a) =
    (unfold is_unsupported in
      ground (arith, eq_iff config.simulation_mode "disabled", eq_iff config.simulation_mode "try"))
simulate_validation-ok_iff config (err x) =
    ground (arith, eq_iff config.simulation_mode "disabled", eq_iff config.simulation_mode "try")

-- The check for signature aggregators stands inside the `try`, and what it throws carries no revert
-- data: in `try` mode an operation is accepted whatever aggregator its account names.
pub aggregator_accepted :
    (config : Config) (aggregator : Value)
    → config.simulation_mode ≡ "try"
    → simulate_validation config (ok aggregator) ≡ ok tt
aggregator_accepted config a h = (simulate_validation-ok_iff config (ok a)).1 (inr (inr (h, tt)))
