-- ===== src/Tests/Sends.antt =====
-- One run of each theorem on `sendUserOperation`.
use account_abstraction.Base.{◌≡◌, refl, ok}
use account_abstraction.Js.Value.{str}
use account_abstraction.Js.Number.{big_of_text}
use account_abstraction.Js.Text.{to_lower}
use account_abstraction.Bundler.Normalize.{
  normalize_user_op, normalize_address, normalize_hex, normalize_bytes32, normalize_big_int,
}
use account_abstraction.Bundler.Simulation.{simulate_validation}
use account_abstraction.Bundler.State.{start}
use account_abstraction.Bundler.Rpc.{checked_op, prepare_send, send_user_operation}
use account_abstraction.Bundler.Sending.{send_twice}
use account_abstraction.Base.OrderedMap
use account_abstraction.Tests.Toys.{
  toy_ethers, toy_laws, toy_config, toy_chain, toy_params, hash, starts_with_0x,
}

send_toy : (send_user_operation toy_ethers toy_config toy_chain toy_params start).0 ≡ ok (str hash)
unfolding send_user_operation prepare_send checked_op to_lower normalize_user_op normalize_address
    normalize_hex normalize_bytes32 normalize_big_int big_of_text starts_with_0x simulate_validation
    OrderedMap.get
send_toy = refl

toy_sent_twice :
    send_user_operation toy_ethers toy_config toy_chain toy_params
      (send_user_operation toy_ethers toy_config toy_chain toy_params start).1
    ≡ (ok (str hash), (send_user_operation toy_ethers toy_config toy_chain toy_params start).1)
toy_sent_twice =
    send_twice toy_ethers toy_laws toy_config toy_chain toy_params start (str hash) send_toy
