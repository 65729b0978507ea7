-- ===== src/Bundler/Sending.antt =====
-- On `sendUserOperation` of bundler/src/index.js, with nothing between its parts.
use account_abstraction.Base.{String, ◌≡◌, ◌⊎◌, refl, true, false, Result, ok, err, length, arith}
use account_abstraction.Base.OrderedMap.{get-set_self}
use account_abstraction.Js.Value.{Value, str}
use account_abstraction.Js.Text.{to_lower}
use account_abstraction.Ethers.{Ethers, EthersLaws, Exn}
use account_abstraction.Bundler.Types.{Config, UserOp, zero_bytes32}
use account_abstraction.Bundler.Normal.{IsNormal}
use account_abstraction.Bundler.State.{Bundler, is_known, new_item, accept}
use account_abstraction.Bundler.Rpc.{Chain, prepare_send, send_user_operation, send_prepared}

-- The value is the hash of an operation that the bundler knows: one in normal form, for the
-- configured EntryPoint, without gas fees where these are refused.
abbrev pub IsAdmitted : Ethers → Config → Chain → Value → Bundler → Type 0
IsAdmitted e config chain v s =
    (op : UserOp) × (hash entry_point : String) × (v ≡ str hash)
    × (chain.get_user_op_hash op ≡ ok hash)
    × (is_known s hash ≡ true)
    × IsNormal e op
    × (to_lower entry_point ≡ to_lower config.entry_point)
    × ((config.enforce_zero_gas_fees ≡ false) ⊎ (op.gas_fees ≡ zero_bytes32))

module _ (e : Ethers) (laws : EthersLaws e) (config : Config) (chain : Chain) where
  accept-known :
      (op : UserOp) (entry_point hash : String) (s : Bundler)
      → is_known (accept (new_item hash op entry_point chain.now) s) hash ≡ true
  unfolding accept
  accept-known op entry_point hash s = rw (get-set_self hash (length s.heap) s.history)

  send_prepared-ok :
      (r : Result Exn (UserOp × String × String)) (s : Bundler) (v : Value)
      → (send_prepared e config chain r s).0 ≡ ok v
      → (op : UserOp) × (entry_point : String) × (hash : String) × (r ≡ ok (op, entry_point, hash))
        × (v ≡ str hash)
        × (is_known (send_prepared e config chain r s).1 hash ≡ true)
  send_prepared-ok (err x) s v h = cc
  send_prepared-ok (ok (op, entry_point, hash)) s v h = (
    op,
    entry_point,
    hash,
    refl,
    ground arith,
    ground (arith, accept-known op entry_point hash s),
  )

  -- A second `eth_sendUserOperation` of what has been accepted answers the same and changes nothing.
  pub send_twice :
      (params : Value) (s : Bundler) (v : Value)
      → (send_user_operation e config chain params s).0 ≡ ok v
      → let s' = (send_user_operation e config chain params s).1 in
        send_user_operation e config chain params s' ≡ (ok v, s')
  unfolding send_user_operation
  send_twice params s v h =
      let (op, entry_point, hash, prepared, same, known) =
        send_prepared-ok (prepare_send e config chain params) s v h in
      ground arith
