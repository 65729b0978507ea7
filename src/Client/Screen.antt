-- ===== src/Client/Screen.antt =====
-- The component of examples/privy-google-aa/src/App.tsx: what its buttons do. Its statuses are kept,
-- the newest first; React, which shows them, is not modelled.
pub mod Guarded
use account_abstraction.Base.{
  ℕ, String, Bool, true, false, not, Option, none, some, List, [], ◌∷◌, ◌==◌, ltb, ◌-◌, Result, ok,
  err, if◌then◌else◌,
}
use account_abstraction.Js.Value.{ℤ, Value, str, opt_get, truthy}
use account_abstraction.Js.Number.{big_of_text}
use account_abstraction.Js.Text.{template, text_length, text_take, to_text}
use account_abstraction.Ethers.{Ethers}
use account_abstraction.App.Codec.{Codec}
use account_abstraction.App.Log.{ReceiptCodec}
use account_abstraction.Client.Browser.{
  ClientError, error_of, switch_chain, open_wallet, Browser, Page, Io, ◌>>=◌, ◌>>◌, returning,
  attempt, reading,
}
use account_abstraction.Client.Sending.{
  Encoder, Network, TargetInspection, SendUserOpResult, inspect_target, send_execute_user_op,
}
use account_abstraction.Client.WriteLog.{fetch_write_log}

abbrev text_drop : ℕ → String → String
text_drop n String.[] = ""
text_drop n (String.◌∷◌ c s) =
    let rest = text_drop (n - 1) s in if ltb 0 n then rest else String.◌∷◌ c s

-- `shortHex`
unfoldable pub short_hex : Option String → String
short_hex none = "—"
short_hex (some value) =
    if value == ""
    then "—"
    else if ltb 16 (text_length value)
    then template (text_take 8 value ∷ "…" ∷ text_drop (text_length value - 4) value ∷ [])
    else value

-- `ownerTitle`, of the owner and the user of an entry
abbrev present : Value → List String → List String
present v rest = if truthy v then to_text v ∷ rest else rest

abbrev joined : List String → Option String
joined [] = none
joined (a ∷ []) = some a
joined (a ∷ b ∷ rest) = some (template (a ∷ " · " ∷ b ∷ []))

unfoldable pub owner_title : Value → Option String
owner_title entry = joined (present (opt_get entry "owner") (present (opt_get entry "user") []))

pub data State : Type 0 where
  idle running done failed : State

pub record Status : Type 0 where
  pub state : State
  pub message : String

pub record Screen : Type 0 where
  pub statuses : List Status
  pub result : Option SendUserOpResult
  pub confirm_send : Bool
  pub write_log : Value
  pub log_error : Option String
  pub storage_address : String
  pub value : String

abbrev pub set_status : State → String → Screen → Screen
set_status state message s = record s {
  statuses = record { state = state; message = message } ∷ s.statuses;
}

-- `cancelSend`
unfoldable pub cancel_send : Screen → Screen
cancel_send s = set_status idle "Ready" (record s { confirm_send = false })

-- `storageIface.encodeFunctionData("set", [v])`
abbrev pub SetEncoder : Type 0
SetEncoder = ℤ → Result ClientError String

module _ (browser : Browser) (api_base : String) where
  abbrev logged : Screen → Result ClientError Value × Page → Screen × Page
  logged s (ok entries, p) = (record s { write_log = entries; log_error = none }, p)
  logged s (err x, p) = (record s { log_error = some x.message }, p)

  -- `refreshWriteLog`
  unfoldable pub refresh_write_log : Screen → Page → Screen × Page
  refresh_write_log s p = logged s (fetch_write_log browser api_base 10 p)

module _ (browser : Browser) (en : Encoder) (e : Ethers) (c : Codec) (rc : ReceiptCodec)
    (api_base : String) (net : Network) (rpc_url : String) (encode_set : SetEncoder)
    (has_wallet : Bool) where
  abbrev encoded : Option ℤ → Result ClientError String
  encoded none = err (error_of "Cannot convert the value to a BigInt")
  encoded (some n) = encode_set n

  -- `storageIface.encodeFunctionData("set", [BigInt(value || "0")])`
  abbrev calldata : String → Result ClientError String
  calldata value = encoded (big_of_text (if value == "" then "0" else value))

  abbrev reverted_without : String → String
  reverted_without address = template (
      "UserOperation included, but execution reverted with no reason data — " ∷ address
      ∷ " likely has no set(uint256)." ∷ [])

  abbrev reverted_message : String → Option String → String
  reverted_message address none = reverted_without address
  reverted_message address (some reason) =
      if reason == ""
      then reverted_without address
      else template ("UserOperation included, but execution reverted: " ∷ reason ∷ [])

  abbrev shown : Screen → SendUserOpResult → Screen
  shown s response =
      let with_result = record s { result = some response } in
      if response.success
      then set_status done "UserOperation included. Storage.set executed." with_result
      else set_status failed (reverted_message s.storage_address response.revert_reason) with_result

  abbrev outcome : Screen → Result ClientError SendUserOpResult × Page → Screen × Page
  outcome s (ok response, p) = (shown s response, p)
  outcome s (err x, p) = (set_status failed x.message s, p)

  abbrev preparing : String → Io String
  preparing value = attempt (reading browser switch_chain) (λ x. returning (ok "")) >>= λ switched.
      reading browser open_wallet >>= λ wallet. returning (calldata value)

  abbrev sending : Screen → Result ClientError String × Page → Screen × Page
  sending s (err x, p) = outcome s (err x, p)
  sending s (ok data_, p) =
      let s' = set_status running "Sending UserOperation to bundler..." s in
      outcome s' (send_execute_user_op browser en e c rc api_base net s.storage_address data_ p)

  abbrev refreshing : Screen × Page → Screen × Page
  refreshing (s, p) = refresh_write_log browser api_base s p

  -- `performSend`
  unfoldable pub perform_send : Screen → Page → Screen × Page
  perform_send s p =
      if has_wallet
      then refreshing (
          sending (set_status running "Preparing Google wallet signature..." s)
            (preparing s.value p))
      else (s, p)

  abbrev pub on_inspection : Screen → Result ClientError TargetInspection × Page → Screen × Page
  on_inspection s (err x, p) = (
    set_status failed
        (template
          ("Could not read " ∷ s.storage_address ∷ " from " ∷ rpc_url ∷ ": " ∷ x.message ∷ []))
        s,
    p,
  )
  on_inspection s (ok inspection, p) =
      if not inspection.has_code
      then (
        set_status failed
            (template (
              s.storage_address
              ∷ " has no contract code. A call to an address without code succeeds without executing anything, so the UserOperation would report success and store nothing. Nothing was signed."
              ∷ []))
            s,
        p,
      )
      else if not inspection.storage_readable
      then (record s { confirm_send = true }, p)
      else perform_send s p

  -- `sendUserOp`
  unfoldable pub send_user_op : Screen → Page → Screen × Page
  send_user_op before p =
      let s = record before { result = none } in
      if not has_wallet
      then (set_status failed "No embedded wallet found after login." s, p)
      else if not (e.is_address (str s.storage_address))
      then (set_status failed "Storage address is not valid." s, p)
      else on_inspection (set_status running "Checking the target contract..." s)
          (inspect_target browser s.storage_address p)
