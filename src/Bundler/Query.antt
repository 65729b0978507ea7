-- ===== src/Bundler/Query.antt =====
-- The lookups of bundler/src/index.js: `getUserOperationByHash` and `getUserOperationReceipt`.
use account_abstraction.Base.{
  ℕ, String, Bool, false, Option, none, some, ◌==◌, Result, ok, ◌>>=◌, nat_beq, if◌then◌else◌,
}
use account_abstraction.Js.Value.{Value, null, bool, str, arr, obj, end, field, from_items}
use account_abstraction.Js.Iterate.{first_of_value}
use account_abstraction.Ethers.{Ethers, Exn}
use account_abstraction.Bundler.Types.{Receipt, OpEvent, StoredReceipt, Item, zero_address}
use account_abstraction.Bundler.Normalize.{to_hex, normalize_bytes32, serialize_user_op}
use account_abstraction.Bundler.State.{Bundler, lookup, tx_hash_of}

-- `s || null` of a text
abbrev text_or_null : String → Value
text_or_null s = if s == "" then null else str s

abbrev block_hash_of : Option StoredReceipt → Value
block_hash_of none = null
block_hash_of (some r) = text_or_null r.receipt.block_hash

abbrev option_or : Option ℕ → ℕ → ℕ
option_or none d = d
option_or (some n) d = n

abbrev is_one : Option ℕ → Bool
is_one none = false
is_one (some n) = nat_beq n 1

abbrev event_paymaster : Option OpEvent → String
event_paymaster none = zero_address
event_paymaster (some ev) = if ev.paymaster == "" then zero_address else ev.paymaster

abbrev event_cost : Option OpEvent → ℕ
event_cost none = 0
event_cost (some ev) = ev.actual_gas_cost

abbrev event_gas : Option OpEvent → ℕ
event_gas none = 0
event_gas (some ev) = ev.actual_gas_used

-- `event?.success ?? item.receipt.status === 1`
abbrev pub event_success : Option OpEvent → Option ℕ → Bool
event_success none status = is_one status
event_success (some ev) status = ev.success

module _ (e : Ethers) where
  abbrev hex_of : ℕ → Value
  hex_of n = str (e.to_quantity n)

  abbrev block_number_of : Option StoredReceipt → Value
  block_number_of none = null
  block_number_of (some r) = hex_of r.receipt.block_number

  abbrev operation_of : Item → Result Exn Value
  operation_of item = do
    operation ← serialize_user_op e item.op
    ok (
        obj (
          field "userOperation" operation (
            field "entryPoint" (str item.entry_point) (
              field "transactionHash" item.transaction_hash (
                field "blockHash" (block_hash_of item.receipt)
                  (field "blockNumber" (block_number_of item.receipt) end))))))

  abbrev found_operation : Option Item → Result Exn Value
  found_operation none = ok null
  found_operation (some item) = operation_of item

  unfoldable pub get_user_operation_by_hash : Value → Bundler → Result Exn Value
  get_user_operation_by_hash params s = do
    hash ← normalize_bytes32 e (first_of_value params) "userOpHash"
    found_operation (lookup s hash)

  abbrev transaction_of : Receipt → Value
  transaction_of r = obj (
      field "transactionHash" (tx_hash_of r) (
        field "transactionIndex" (hex_of (option_or r.index 0)) (
          field "blockHash" (str r.block_hash) (
            field "blockNumber" (hex_of r.block_number) (
              field "from" r.from (
                field "to" r.to (
                  field "cumulativeGasUsed" (hex_of r.cumulative_gas_used) (
                    field "gasUsed" (hex_of r.gas_used) (
                      field "effectiveGasPrice" (hex_of r.gas_price)
                        (field "status" (hex_of (option_or r.status 0)) end))))))))))

  abbrev pub receipt_of : String → Item → Option StoredReceipt → Result Exn Value
  receipt_of hash item none = ok null
  receipt_of hash item (some r) = do
    nonce ← to_hex e item.op.nonce
    let event = r.user_operation_event
    ok (
        obj (
          field "userOpHash" (str hash) (
            field "entryPoint" (str item.entry_point) (
              field "sender" (str item.op.sender) (
                field "nonce" (str nonce) (
                  field "paymaster" (str (event_paymaster event)) (
                    field "actualGasCost" (hex_of (event_cost event)) (
                      field "actualGasUsed" (hex_of (event_gas event)) (
                        field "success" (bool (event_success event r.receipt.status)) (
                          field "logs" (arr (from_items r.logs))
                            (field "receipt" (transaction_of r.receipt) end)))))))))))

  abbrev pub found_receipt : String → Option Item → Result Exn Value
  found_receipt hash none = ok null
  found_receipt hash (some item) = receipt_of hash item item.receipt

  unfoldable pub get_user_operation_receipt : Value → Bundler → Result Exn Value
  get_user_operation_receipt params s = do
    hash ← normalize_bytes32 e (first_of_value params) "userOpHash"
    found_receipt hash (lookup s hash)
