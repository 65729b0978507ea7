-- ===== src/Tests/Logs.antt =====
-- One run of each theorem on the write log.
use account_abstraction.Base.{◌≡◌, refl, String, true, false, none, some, List, [], ◌∷◌, is_some}
use account_abstraction.Js.Value.{Value, null, bool, str, obj, arr, cons, nil, end, field}
use account_abstraction.Js.Text.{to_text}
use account_abstraction.App.Proxy.{Entry, checked_entry}
use account_abstraction.App.Log.{Table, Settlement, ReceiptCodec, clip, pending_rows, settle}
use account_abstraction.App.Log.Settles.{
  pending_rows-settle, without, Change, recorded, settled, apply_all,
}
use account_abstraction.Tests.Toys.{hash, tx_hash}
use account_abstraction.Tests.Policies.{write_checked}
use account_abstraction.Tests.Proxies.{toy_session}

abbrev empty_table : Table
empty_table = record { rows = []; last_id = 0 }

abbrev toy_entry : Entry
toy_entry = checked_entry toy_session write_checked "sent" (str hash) 200 null

abbrev pub toy_settlement : Settlement
toy_settlement = record {
  success = false;
  revert_reason = some "Panic(0x5)";
  transaction_hash = str tx_hash;
}

abbrev changes : List Change
changes = recorded 1 toy_entry ∷ recorded 2 toy_entry ∷ settled 1 toy_settlement 3 ∷ []

abbrev pub two_rows : Table
two_rows = apply_all (recorded 1 toy_entry ∷ recorded 2 toy_entry ∷ []) empty_table

hash_kept : is_some (clip toy_settlement.transaction_hash) ≡ true
unfolding clip to_text
hash_kept = refl

toy_settled :
    pending_rows (settle 1 toy_settlement 3 two_rows).rows ≡ without 1 (pending_rows two_rows.rows)
toy_settled = pending_rows-settle 1 toy_settlement 3 two_rows hash_kept

abbrev reason_topic : String
reason_topic = "0x1c4fada7374c0a9ee8841fc38afe82932dc0f8e69012e927f061a8bae611a201"

abbrev pub toy_receipts : ReceiptCodec
toy_receipts = record {
  decode_string = λ bytes. none;
  parse_reason = λ topics bytes. some (str "0x4e487b7105");
  revert_reason_topic = reason_topic;
}

abbrev pub failed_receipt : Value
failed_receipt = obj (
    field "success" (bool false) (
      field "logs"
        (arr (
          cons (obj (field "topics" (arr (cons (str reason_topic) (cons (str hash) nil))) end))
            nil))
        end))

abbrev toy_outcome : Settlement
toy_outcome = record { success = false; revert_reason = some "Panic(0x5)"; transaction_hash = null }
