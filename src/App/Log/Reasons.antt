-- ===== src/App/Log/Reasons.antt =====
-- On `outcomeFromReceipt` of examples/privy-google-aa/server/userop-log.mjs.
use mathlib.Core.List.{Memᴰ}
use account_abstraction.Base.{String, ◌≡◌, true, some, List, Result, ok}
use account_abstraction.Js.Value.{Value}
use account_abstraction.Ethers.{Ethers, Exn}
use account_abstraction.App.Codec.{Codec}
use account_abstraction.App.Log.{ReceiptCodec, is_reason_of, reason_in}

abbrev returns {ℓ} : {A : Type ℓ} → A → Result Exn A
returns a = ok a

module _ (e : Ethers) (c : Codec) (rc : ReceiptCodec) (hash : String) where
  -- A log of the list that is this operation's and has this reason.
  abbrev pub HasReason : List Value → String → Type 0
  HasReason logs reason =
      (log : Value) × Memᴰ log logs
      × (is_reason_of e c rc hash log ≡ ok true)
      × (reason_in e c rc log ≡ some reason)
