-- ===== src/Client/WriteLog.antt =====
-- examples/privy-google-aa/src/history.ts: the page's reading of the write log.
pub mod Shown
use account_abstraction.Base.{
  ℕ, String, Bool, true, false, not, none, some, [], ◌∷◌, nat_beq, Result, ok, err, if◌then◌else◌,
}
use account_abstraction.Js.Value.{
  Value, str, arr, nil, opt_get, or_else, truthy, is_nullish, is_text, null,
}
use account_abstraction.Js.Text.{template, decimal, to_text}
use account_abstraction.App.Log.{is_false}
use account_abstraction.Client.Browser.{
  ClientError, error_of, get_history, HttpAnswer, Browser, Io, ◌>>=◌, ◌>>◌, returning, attempt,
  fetching,
}
use account_abstraction.Client.Session.{ensure_session}

-- `data.entries || []`, once the answer has been read.
abbrev entries_of : ℕ → Bool → Value → Result ClientError Value
entries_of status passed v =
    if is_nullish v
    then err (error_of "Cannot read properties of null (reading 'entries')")
    else if not passed
    then err (
        error_of (
          to_text (
            or_else (opt_get v "error")
              (str (template ("write log endpoint returned " ∷ decimal status ∷ []))))))
    else ok (or_else (opt_get v "entries") (arr nil))

unfoldable pub read_write_log : HttpAnswer → Result ClientError Value
read_write_log answer = elim answer.body [
  | none ↦ err (
      error_of (
        template
          ("write log endpoint returned a non-JSON " ∷ decimal answer.status ∷ " response" ∷ [])))
  | some v ↦ entries_of answer.status answer.passed v
]

module _ (browser : Browser) (api_base : String) where
  -- Another login, and the request again, after a 401.
  abbrev pub get_again : ℕ → HttpAnswer → Io HttpAnswer
  get_again limit answer =
      if nat_beq answer.status 401
      then ensure_session browser api_base true >> fetching browser (get_history limit)
      else returning (ok answer)

  abbrev log_unreachable : ClientError → Io HttpAnswer
  log_unreachable x = returning (
      err (
        error_of
          "write log endpoint not reachable — /api is served by this same app, so this means the server side is down"))

  -- `fetchWriteLog`
  unfoldable pub fetch_write_log : ℕ → Io Value
  fetch_write_log limit = do
    ensure_session browser api_base false
    answer ← attempt (fetching browser (get_history limit) >>= get_again limit) log_unreachable
    returning (read_write_log answer)

pub data Tone : Type 0 where
  tone_ok tone_error tone_pending : Tone

-- `describeEntry`
unfoldable pub describe_entry : Value → String × Tone
describe_entry entry =
    let status = opt_get entry "status" in
    let success = opt_get entry "success" in
    if is_text status "rejected"
    then ("blocked by policy", tone_error)
    else if is_text status "failed"
    then ("not accepted", tone_error)
    else if is_null success
    then ("pending receipt", tone_pending)
    else if truthy success
    then ("executed", tone_ok)
    else ("reverted", tone_error)
  where
    is_null : Value → Bool
    is_null null = true
    is_null _ = false

-- `entryDetail`
unfoldable pub entry_detail : Value → Value
entry_detail entry =
    if truthy (opt_get entry "error")
    then opt_get entry "error"
    else if is_false (opt_get entry "success")
    then or_else (opt_get entry "revertReason") (str "reverted with no reason data")
    else null
