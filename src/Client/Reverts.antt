-- ===== src/Client/Reverts.antt =====
-- `decodeRevertData` and `revertReasonFromReceipt` of examples/privy-google-aa/src/userOp.ts: why the
-- call of an operation that is included has failed.
use account_abstraction.Base.{
  String, Bool, true, false, not, ◌||◌, Option, none, some, List, [], ◌∷◌, ◌==◌, ltb, Result, ok,
  err, if◌then◌else◌,
}
use account_abstraction.Js.Value.{Value, str, opt_get, or_else, is_nullish}
use account_abstraction.Js.Text.{template, text_length, text_take, to_text}
use account_abstraction.Ethers.{Ethers, Exn}
use account_abstraction.App.Api.{starts_with}
use account_abstraction.App.Codec.{Codec}
use account_abstraction.App.Log.{ReceiptCodec, is_reason_of, topics_of, tail_text, panic_text}
use account_abstraction.Js.Iterate.{iterate_or_empty}
use account_abstraction.Client.Browser.{ClientError, error_of}

module _ (e : Ethers) (c : Codec) (rc : ReceiptCodec) where
  abbrev custom_error : String → String
  custom_error bytes = template (
      "custom error "
      ∷ (if ltb 66 (text_length bytes) then template (text_take 66 bytes ∷ "..." ∷ []) else bytes)
      ∷ [])

  abbrev or_custom : String → Option String → Option String
  or_custom bytes none = some (custom_error bytes)
  or_custom bytes (some s) = some s

  -- `decodeRevertData`
  unfoldable pub decode_revert_data : String → Option String
  decode_revert_data bytes =
      if not (e.is_hex_string (str bytes)) || bytes == "0x"
      then none
      else if starts_with "0x08c379a0" bytes
      then or_custom bytes (tail_text e c rc rc.decode_string (c.data_tail bytes 4))
      else if starts_with "0x4e487b71" bytes
      then or_custom bytes (tail_text e c rc (panic_text e c rc) (c.data_tail bytes 4))
      else some (custom_error bytes)

  abbrev reason_text : Option Value → Option String
  reason_text none = none
  reason_text (some bytes) = decode_revert_data (to_text bytes)

  abbrev of_exn : Exn → ClientError
  of_exn x = error_of x.message

  abbrev on_log :
      Value
      → Result ClientError (Option String)
      → Result Exn Bool
      → Result ClientError (Option String)
  on_log log rest (err x) = err (of_exn x)
  on_log log rest (ok false) = rest
  on_log log rest (ok true) = ok (
      reason_text
        (rc.parse_reason (topics_of e c rc log) (or_else (opt_get log "data") (str "0x"))))

  -- The loop of `revertReasonFromReceipt`. `parseLog` finds the event wherever the topic is its own.
  unfoldable pub reason_in_logs : String → List Value → Result ClientError (Option String)
  reason_in_logs hash [] = ok none
  reason_in_logs hash (log ∷ logs) =
      let rest = reason_in_logs hash logs in
      if is_nullish log
      then err (error_of "Cannot read properties of null (reading 'topics')")
      else on_log log rest (is_reason_of e c rc hash log)

  abbrev of_logs : String → Result Exn (List Value) → Result ClientError (Option String)
  of_logs hash (err x) = err (of_exn x)
  of_logs hash (ok logs) = reason_in_logs hash logs

  -- `revertReasonFromReceipt`
  unfoldable pub revert_reason_from_receipt : Value → String → Result ClientError (Option String)
  revert_reason_from_receipt receipt hash =
      of_logs hash (iterate_or_empty (opt_get receipt "logs") "receipt.logs is not iterable")
