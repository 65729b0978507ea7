-- ===== src/App/History.antt =====
-- `settlePending` and `handleHistory` of examples/privy-google-aa/server/api.mjs, and the log that
-- `userOpLog` opens or does without. What the bundler answers for a hash is an input.
pub mod Bounded
pub mod Settled
use account_abstraction.Base.{
  ℕ, suc, ◌%◌, ◌/◌, ◌^◌, String, not, ◌&&◌, Option, none, some, List, [], ◌∷◌, map, ◌==◌, nat_beq,
  Result, ok, err, ◌>>=◌, if◌then◌else◌,
}
use account_abstraction.Js.Value.{
  pos, Value, null, bool, str, arr, obj, end, field, opt_get, from_items,
}
use account_abstraction.Js.Num.{Num, ratio, whole, num_ltb, num_max, num_min, is_finite}
use account_abstraction.Js.Num.Read.{number_of_text}
use account_abstraction.Ethers.{Ethers, Exn, plain_error}
use account_abstraction.App.Api.{starts_with}
use account_abstraction.App.Codec.{Codec}
use account_abstraction.App.Configured.{ApiConfig, guard_settings, cookie_options}
use account_abstraction.App.Cookie.{Crypto, Session, parse}
use account_abstraction.App.Guards.{Headers, Response, json}
use account_abstraction.App.Log.{
  Row, Table, Settlement, ReceiptCodec, pending, recent, settle, outcome_from_receipt, record_entry,
}
use account_abstraction.App.Log.Printed.{to_entry}
use account_abstraction.App.Proxy.{Entry}

-- `log`: the table, or `disabledLog` with its reason.
pub data Store : Type 0 where
  opened : Table → Store
  unavailable : String → Store

-- `userOpLog()`: what opening the file brings.
abbrev pub user_op_log : Result Exn Table → Store
user_op_log (ok table) = opened table
user_op_log (err x) = unavailable x.message

-- A number as SQLite takes it for a LIMIT.
unfoldable pub sql_limit : Num → Option ℕ
sql_limit (ratio (pos n) k) = if nat_beq (n % 10 ^ k) 0 then some (n / 10 ^ k) else none
sql_limit _ = none

abbrev mismatch : Exn
mismatch = plain_error "datatype mismatch"

abbrev rows_for : (ℕ → List Row) → Option ℕ → Result Exn (List Row)
rows_for rows none = err mismatch
rows_for rows (some n) = ok (rows n)

-- `record`, `pending`, `recent` and `settle` of either log.
abbrev pub store_record : ℕ → Entry → Store → Store
store_record now entry (opened table) = opened (record_entry now entry table).1
store_record now entry (unavailable reason) = unavailable reason

abbrev pub store_pending : Num → Store → Result Exn (List Row)
store_pending limit (opened table) = rows_for (λ n. pending n table) (sql_limit limit)
store_pending limit (unavailable reason) = ok []

abbrev pub store_recent : Num → Store → Result Exn (List Row)
store_recent limit (opened table) = rows_for (λ n. recent n table) (sql_limit limit)
store_recent limit (unavailable reason) = ok []

abbrev pub store_settle : ℕ → Settlement → ℕ → Store → Store
store_settle id outcome now (opened table) = opened (settle id outcome now table)
store_settle id outcome now (unavailable reason) = unavailable reason

abbrev pub settle_outcome : ℕ → ℕ → Option Settlement → Store → Store
settle_outcome id now none store = store
settle_outcome id now (some outcome) store = store_settle id outcome now store

-- `limit` of a request; `parameter` is `searchParams.get("limit")`.
abbrev requested_number : Option String → Num
requested_number none = whole 0
requested_number (some s) = number_of_text s

unfoldable pub history_limit : Num → Option String → Num
history_limit default parameter =
    let requested = requested_number parameter in
    num_min 100 (
      num_max 1 (if is_finite requested && num_ltb (whole 0) requested then requested else default))

module _ (e : Ethers) (c : Codec) (rc : ReceiptCodec) where
  abbrev pub hash_of : Row → String
  hash_of row = elim row.user_op_hash [ none ↦ "null" | some hash ↦ hash ]

  abbrev settled_or_none : Result Exn (Option Settlement) → Option Settlement
  settled_or_none (err x) = none
  settled_or_none (ok outcome) = outcome

  -- The outcome that an answer reports, in the `try` of `settlePending`; the body has been parsed.
  abbrev pub reported : Row → Result Exn Value → Option Settlement
  reported row (err x) = none
  reported row (ok reply) =
      settled_or_none (outcome_from_receipt e c rc (opt_get reply "result") (hash_of row))

  -- One answer to `settlePending`.
  abbrev pub settle_reply : (String → Result Exn Value) → ℕ → Row → Store → Store
  settle_reply bundler now row store =
      settle_outcome row.id now (reported row (bundler (hash_of row))) store

  -- `settlePending` on the pending rows, in the order in which the bundler answers.
  unfoldable pub settle_pending : (String → Result Exn Value) → ℕ → List Row → Store → Store
  settle_pending bundler now [] store = store
  settle_pending bundler now (row ∷ rows) store =
      settle_pending bundler now rows (settle_reply bundler now row store)

  module _ (k : Crypto) (config : ApiConfig) (headers : Headers) where
    abbrev reply : ℕ → Value → Response
    reply status payload = json (guard_settings config) headers status payload

    abbrev error_payload : String → Value
    error_payload message = obj (field "error" (str message) end)

    abbrev reason_or_null : Store → Value
    reason_or_null (opened table) = null
    reason_or_null (unavailable reason) = str reason

    abbrev pub listed : Store → List Row → Response
    listed store rows = reply 200 (
        obj (
          field "entries" (arr (from_items (map to_entry rows))) (
            field "db" (str config.history_db_path) (
              field "unavailable" (reason_or_null store) (
                field "ephemeral"
                  (bool (config.deployed && starts_with "/tmp/" config.history_db_path)) end)))))

    -- A request of someone who has a session.
    unfoldable pub show_history :
        (String → Result Exn Value) → ℕ → Num → Store → Result Exn (Response × Store)
    show_history bundler now limit store = do
      waiting ← store_pending limit store
      let settled = settle_pending bundler now waiting store
      rows ← store_recent limit settled
      ok (listed settled rows, settled)

    abbrev pub with_cookie :
        (String → Result Exn Value)
        → ℕ
        → Option String
        → Store
        → Option Session
        → Result Exn (Response × Store)
    with_cookie bundler now parameter store none =
        ok (reply 401 (error_payload "no session — POST /api/session first"), store)
    with_cookie bundler now parameter store (some current) =
        show_history bundler now (history_limit config.history_limit parameter) store

    -- `handleHistory`
    unfoldable pub handle_history :
        (String → Result Exn Value)
        → ℕ
        → String
        → Option String
        → Store
        → Result Exn (Response × Store)
    handle_history bundler now method parameter store =
        if not (method == "GET")
        then ok (reply 405 (error_payload "use GET"), store)
        else with_cookie bundler now parameter store
            (parse k (cookie_options config) now headers.cookie)
