-- ===== src/Client/Rpc.antt =====
-- The JSON-RPC calls of examples/privy-google-aa/src/userOp.ts: `rpc`, `bundlerRpc`, `bundlerSend`,
-- `waitForUserOpReceipt`.
use account_abstraction.Base.{
  ℕ, zero, suc, String, Bool, true, false, none, some, [], ◌∷◌, nat_beq, Result, ok, err,
  if◌then◌else◌,
}
use account_abstraction.Js.Value.{
  negsuc, Value, undefined, int, str, arr, cons, nil, opt_get, truthy, is_nullish,
}
use account_abstraction.Js.Text.{template, decimal, to_text}
use account_abstraction.Client.Browser.{
  ClientError, error_of, post_rpc, HttpAnswer, Browser, Io, ◌>>=◌, ◌>>◌, returning, attempt,
  fetching, pausing,
}
use account_abstraction.Client.Session.{ensure_session}

-- `UNAUTHORIZED`, which is -32001
abbrev pub unauthorized : Value
unauthorized = int (negsuc 32_000)

abbrev pub is_unauthorized : Value → Bool
is_unauthorized (int (negsuc n)) = nat_beq n 32_000
is_unauthorized _ = false

abbrev code_of_status : ℕ → Value
code_of_status status = if nat_beq status 401 then unauthorized else undefined

abbrev detail : Value → String
detail v = if truthy v then template ("\n" ∷ to_text v ∷ []) else ""

-- What `rpc` makes of the `error` of a payload.
abbrev pub of_error : ℕ → Value → Value → Result ClientError Value
of_error status (str message) result =
    err (record { code = code_of_status status; message = message })
of_error status error result =
    if truthy error
    then err (record {
      code = opt_get error "code";
      message = template (to_text (opt_get error "message") ∷ detail (opt_get error "data") ∷ []);
    })
    else ok result

abbrev of_payload : ℕ → Value → Result ClientError Value
of_payload status payload =
    if is_nullish payload
    then err (error_of "Cannot read properties of null (reading 'error')")
    else of_error status (opt_get payload "error") (opt_get payload "result")

-- What `rpc` makes of an answer.
unfoldable pub read_reply : String → HttpAnswer → Result ClientError Value
read_reply url answer = elim answer.body [
  | none ↦ err (record {
    code = code_of_status answer.status;
    message = template (url ∷ " returned a non-JSON " ∷ decimal answer.status ∷ " response" ∷ []);
  })
  | some payload ↦ of_payload answer.status payload
]

module _ (browser : Browser) (url : String) where
  -- `rpc`
  unfoldable pub rpc : Bool → String → Value → Io Value
  rpc authed method params = do
    answer ← fetching browser (post_rpc authed method params)
    returning (read_reply url answer)

  -- `bundlerRpc`
  abbrev pub bundler_rpc : String → Value → Io Value
  bundler_rpc method params = rpc false method params

  abbrev pub receipt_method : String
  receipt_method = "eth_getUserOperationReceipt"

  -- A round of `waitForUserOpReceipt`, before the rest of them.
  abbrev pub on_receipt : Io Value → Value → Io Value
  on_receipt rest receipt =
      if truthy receipt then returning (ok receipt) else pausing browser 2_000 >> rest

  -- The loop of `waitForUserOpReceipt`, of so many rounds.
  unfoldable pub wait_rounds : ℕ → String → Io Value
  wait_rounds zero hash =
      returning (err (error_of (template ("Timed out waiting for " ∷ hash ∷ []))))
  wait_rounds (suc n) hash =
      let rest = wait_rounds n hash in
      bundler_rpc receipt_method (arr (cons (str hash) nil)) >>= on_receipt rest

  -- `waitForUserOpReceipt`
  unfoldable pub wait_for_user_op_receipt : String → Io Value
  wait_for_user_op_receipt hash = wait_rounds 60 hash

module _ (browser : Browser) (api_base : String) where
  abbrev pub proxy_endpoint : String
  proxy_endpoint = template (api_base ∷ "/bundler" ∷ [])

  abbrev pub retry : String → Value → ClientError → Io Value
  retry method params x =
      if is_unauthorized x.code
      then ensure_session browser api_base true >> rpc browser proxy_endpoint true method params
      else returning (err x)

  -- `bundlerSend`
  unfoldable pub bundler_send : String → Value → Io Value
  bundler_send method params =
      ensure_session browser api_base false
      >> attempt (rpc browser proxy_endpoint true method params) (retry method params)
