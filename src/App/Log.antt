-- ===== src/App/Log.antt =====
-- The write log of examples/privy-google-aa/server/userop-log.mjs: its table, and the outcome that a
-- receipt reports. The table is a list of rows, newest first.
pub mod Settles
pub mod Reasons
pub mod Printed
use account_abstraction.Base.{
  ℕ, zero, suc, ◌+◌, String, Bool, true, false, not, ◌&&◌, ◌||◌, Option, none, some, List, [], ◌∷◌,
  map, ◌==◌, take, nat_beq, ltb, is_some, Result, ok, err, ◌>>=◌, if◌then◌else◌,
}
use account_abstraction.Js.Value.{
  Value, undefined, null, bool, str, arr, nil, opt_get, or_else, is_nullish, truthy,
}
use account_abstraction.Js.Text.{template, to_text, text_length, text_take, to_lower, hexadecimal}
use account_abstraction.Js.Iterate.{iterate_or_empty, first_of_value, second_of_value}
use account_abstraction.Ethers.{Ethers, Exn, plain_error}
use account_abstraction.App.Api.{starts_with}
use account_abstraction.App.Codec.{Codec}
use account_abstraction.App.Proxy.{Entry}

-- A row of `userop_log`.
pub record Row : Type 0 where
  pub id : ℕ
  pub created_at : ℕ
  pub user_sub : Option String
  pub status : String
  pub method : Option String
  pub user_op_hash : Option String
  pub sender : Option String
  pub target : Option String
  pub owner : Option String
  pub inner_call : Option String
  pub stored_value : Option String
  pub http_status : ℕ
  pub error : Option String
  pub success : Option Bool
  pub revert_reason : Option String
  pub tx_hash : Option String
  pub settled_at : Option ℕ

-- `last_id` is the AUTOINCREMENT counter.
pub record Table : Type 0 where
  pub rows : List Row
  pub last_id : ℕ

-- What `outcomeFromReceipt` returns.
pub record Settlement : Type 0 where
  pub success : Bool
  pub revert_reason : Option String
  pub transaction_hash : Value

abbrev max_field : ℕ
max_field = 200

-- `clip`
unfoldable pub clip : Value → Option String
clip v =
    if is_nullish v
    then none
    else let text = to_text v in
      if ltb max_field (text_length text)
      then some (template (text_take max_field text ∷ "…" ∷ []))
      else some text

abbrev option_value : Option String → Value
option_value none = null
option_value (some s) = str s

-- `record`
unfoldable pub record_entry : ℕ → Entry → Table → ℕ × Table
record_entry now entry table =
    let id = table.last_id + 1 in
    (
      id,
      record {
        rows =
            (record {
              id = id;
              created_at = now;
              user_sub = clip entry.user_sub;
              status = entry.status;
              method = clip entry.method;
              user_op_hash = clip entry.user_op_hash;
              sender = clip entry.sender;
              target = clip entry.target;
              owner = clip entry.owner;
              inner_call = clip entry.inner_call;
              stored_value = clip entry.stored_value;
              http_status = entry.http_status;
              error = clip entry.error;
              success = none;
              revert_reason = none;
              tx_hash = none;
              settled_at = none;
            })
            ∷ table.rows;
        last_id = id;
      },
    )

-- The condition of `selectPending`.
abbrev pub is_pending : Row → Bool
is_pending row =
    row.status == "sent"
    && is_some row.user_op_hash
    && (not (is_some row.success) || not (is_some row.tx_hash))

abbrev pub pending_rows : List Row → List Row
pending_rows [] = []
pending_rows (r ∷ rs) = let rest = pending_rows rs in if is_pending r then r ∷ rest else rest

-- `pending`
unfoldable pub pending : ℕ → Table → List Row
pending limit table = take limit (pending_rows table.rows)

-- `recent`
unfoldable pub recent : ℕ → Table → List Row
recent limit table = take limit table.rows

abbrev pub settle_row : ℕ → Settlement → ℕ → Row → Row
settle_row id outcome now row =
    if nat_beq row.id id
    then record row {
      success = some outcome.success;
      revert_reason = clip (option_value outcome.revert_reason);
      tx_hash = clip outcome.transaction_hash;
      settled_at = some now;
    }
    else row

-- `settle`
unfoldable pub settle : ℕ → Settlement → ℕ → Table → Table
settle id outcome now table = record table { rows = map (settle_row id outcome now) table.rows }

-- What ethers decodes of a receipt: the text of an `Error(string)`, and the revert data of a
-- `UserOperationRevertReason` of these topics and data; `none` where it throws.
pub record ReceiptCodec : Type 0 where
  pub decode_string : String → Option String
  pub parse_reason : Value → Value → Option Value
  pub revert_reason_topic : String

abbrev custom_error : String → String
custom_error bytes = template (
    "custom error "
    ∷ (if ltb 66 (text_length bytes) then template (text_take 66 bytes ∷ "…" ∷ []) else bytes)
    ∷ [])

abbrev or_custom : String → Option String → Option String
or_custom bytes none = some (custom_error bytes)
or_custom bytes (some s) = some s

abbrev pub is_false : Value → Bool
is_false (bool b) = not b
is_false _ = false

module _ (e : Ethers) (c : Codec) (rc : ReceiptCodec) where
  abbrev pub tail_text : (String → Option String) → Result Exn String → Option String
  tail_text read (err x) = none
  tail_text read (ok tail) = read tail

  abbrev pub panic_text : String → Option String
  panic_text tail = elim (c.decode_uint tail) [
    | none ↦ none
    | some code ↦ some (template ("Panic(0x" ∷ hexadecimal code ∷ ")" ∷ []))
  ]

  abbrev decode_revert_text : String → Option String
  decode_revert_text bytes =
      if starts_with "0x08c379a0" bytes
      then or_custom bytes (tail_text rc.decode_string (c.data_tail bytes 4))
      else if starts_with "0x4e487b71" bytes
      then or_custom bytes (tail_text panic_text (c.data_tail bytes 4))
      else some (custom_error bytes)

  -- `decodeRevertData`
  unfoldable pub decode_revert_data : Value → Option String
  decode_revert_data (str bytes) =
      if not (e.is_hex_string (str bytes)) || bytes == "0x" then none else decode_revert_text bytes
  decode_revert_data _ = none

  -- `v?.toLowerCase()`
  abbrev lower_of : Value → Result Exn (Option String)
  lower_of (str s) = ok (some (to_lower s))
  lower_of undefined = ok none
  lower_of null = ok none
  lower_of _ = err (plain_error "toLowerCase is not a function")

  abbrev pub is_lower : Option String → String → Bool
  is_lower none t = false
  is_lower (some s) t = s == t

  -- The topics of a log.
  abbrev pub topics_of : Value → Value
  topics_of log = or_else (opt_get log "topics") (arr nil)

  abbrev optional_first : Value → Value
  optional_first topics = if is_nullish topics then undefined else first_of_value topics

  abbrev optional_second : Value → Value
  optional_second topics = if is_nullish topics then undefined else second_of_value topics

  -- Whether a log is the revert reason of this operation.
  unfoldable pub is_reason_of : String → Value → Result Exn Bool
  is_reason_of hash log = do
    topic ← lower_of (optional_first (topics_of log))
    if not (is_lower topic rc.revert_reason_topic) then ok false else do
      indexed ← lower_of (optional_second (topics_of log))
      ok (is_lower indexed (to_lower hash))

  abbrev pub reason_in : Value → Option String
  reason_in log = elim (rc.parse_reason (topics_of log) (or_else (opt_get log "data") (str "0x"))) [
    | none ↦ none
    | some bytes ↦ decode_revert_data bytes
  ]

  -- The loop of `outcomeFromReceipt`: the reason in the first log that is this operation's.
  unfoldable pub find_reason : String → List Value → Result Exn (Option String)
  find_reason hash [] = ok none
  find_reason hash (log ∷ logs) =
      let rest = find_reason hash logs in
      if is_nullish log
      then err (plain_error "Cannot read properties of null")
      else is_reason_of hash log >>= λ matches. if matches then ok (reason_in log) else rest

  abbrev transaction_hash_of : Value → Value
  transaction_hash_of receipt =
      let logs = opt_get receipt "logs" in
      or_else (opt_get (opt_get receipt "receipt") "transactionHash")
        (or_else (opt_get (optional_first logs) "transactionHash") null)

  -- `outcomeFromReceipt`
  unfoldable pub outcome_from_receipt : Value → String → Result Exn (Option Settlement)
  outcome_from_receipt receipt hash =
      let transaction_hash = transaction_hash_of receipt in
      if not (truthy receipt)
      then ok none
      else if not (is_false (opt_get receipt "success"))
      then ok (
          some
            (record { success = true; revert_reason = none; transaction_hash = transaction_hash }))
      else do
        logs ← iterate_or_empty (opt_get receipt "logs") "logs is not iterable"
        reason ← find_reason hash logs
        ok (
            some (record {
              success = false;
              revert_reason = reason;
              transaction_hash = transaction_hash;
            }))
