-- ===== src/Bundler/Simulation.antt =====
-- `LnetBundler.simulateValidation` of bundler/src/index.js.
use account_abstraction.Base.{
  String, Bool, not, ◌&&◌, ◌||◌, List, [], ◌∷◌, ◌==◌, Result, ok, err, any, if◌then◌else◌,
}
use account_abstraction.Js.Value.{Value, str, opt_get, or_else, is_nullish, is_text, truthy}
use account_abstraction.Ethers.{Exn}
use account_abstraction.Bundler.Types.{Config, zero_address}
use account_abstraction.Bundler.Errors.{
  rpc_error, rpc_error_data, invalid_params, mentions, decode_known_error,
}

abbrev pub revert_data : Exn → Value
revert_data x = or_else x.data_ (or_else (opt_get x.info_error "data") (opt_get x.error "data"))

abbrev unsupported_patterns : List String
unsupported_patterns =
    "could not decode result data" ∷ "function selector was not recognized" ∷ "missing revert data"
    ∷ "no data present" ∷ "require(false)" ∷ []

unfoldable pub is_unsupported : Exn → Bool
unfolding mentions
is_unsupported x =
    let no_revert_data = is_nullish (revert_data x) || is_text (revert_data x) "0x" in
    is_text x.code "BAD_DATA" || no_revert_data || any (mentions x.message) unsupported_patterns

-- The body of the `try`: `answer` is what the call of the EntryPoint returns, the aggregator in it.
abbrev check_aggregator : Value → Result Exn (Unit {0})
check_aggregator aggregator =
    if truthy aggregator && not (is_text aggregator zero_address)
    then err
        (rpc_error invalid_params "signature aggregators are not supported by this LNET bundler")
    else ok tt

abbrev try_body : Result Exn Value → Result Exn (Unit {0})
try_body (ok aggregator) = check_aggregator aggregator
try_body (err x) = err x

-- The `catch`, which also gets what the body of the `try` throws.
abbrev caught : Config → Result Exn (Unit {0}) → Result Exn (Unit {0})
caught config (ok u) = ok u
caught config (err x) =
    if is_unsupported x && config.simulation_mode == "try"
    then ok tt
    else err
        (rpc_error_data invalid_params "simulateValidation failed" (str (decode_known_error x)))

unfoldable pub simulate_validation : Config → Result Exn Value → Result Exn (Unit {0})
simulate_validation config answer =
    if config.simulation_mode == "disabled" then ok tt else caught config (try_body answer)
