-- ===== src/Client/WriteLog/Shown.antt =====
-- What the page shows of a row of the write log: `describeEntry` of
-- examples/privy-google-aa/src/history.ts on `toEntry` of
-- examples/privy-google-aa/server/userop-log.mjs.
use account_abstraction.Base.{
  ℕ, String, ◌≡◌, refl, ap, ◌∙◌, Bool, true, false, Option, none, some, arith,
}
use account_abstraction.App.Log.{Row, Settlement, settle_row}
use account_abstraction.App.Log.Printed.{to_entry}
use account_abstraction.Client.WriteLog.{Tone, tone_ok, tone_error, tone_pending, describe_entry}

-- What the page says of a row that the bundler has taken.
abbrev pub sent_label : Option Bool → String × Tone
sent_label none = ("pending receipt", tone_pending)
sent_label (some true) = ("executed", tone_ok)
sent_label (some false) = ("reverted", tone_error)

sent-shown :
    (row : Row) → row.status ≡ "sent" → describe_entry (to_entry row) ≡ sent_label row.success
unfolding describe_entry to_entry
sent-shown row sent = of_success row.success refl
  where
    of_success : (o : Option Bool) → row.success ≡ o → describe_entry (to_entry row) ≡ sent_label o
    of_success none h = simp (sent, h) refl
    of_success (some true) h = simp (sent, h) refl
    of_success (some false) h = simp (sent, h) refl

settle_row_self :
    (row : Row) (outcome : Settlement) (now : ℕ)
    → ((settle_row row.id outcome now row).status ≡ row.status)
      × ((settle_row row.id outcome now row).success ≡ some outcome.success)
settle_row_self row outcome now = (ground arith, ground arith)

-- The page shows a row whose write was sent by its outcome: pending while it has none, and once it is
-- settled, executed or reverted as its receipt says.
pub describe_entry-settled :
    (row : Row) (outcome : Settlement) (now : ℕ)
    → row.status ≡ "sent"
    → (describe_entry (to_entry row) ≡ sent_label row.success)
      × (describe_entry (to_entry (settle_row row.id outcome now row))
          ≡ sent_label (some outcome.success))
describe_entry-settled row outcome now sent =
    let (status, success) = settle_row_self row outcome now in
    (
      sent-shown row sent,
      sent-shown (settle_row row.id outcome now row) (status ∙ sent) ∙ ap sent_label success,
    )
