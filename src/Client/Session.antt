-- ===== src/Client/Session.antt =====
-- examples/privy-google-aa/src/session.ts: when the page asks for a session. Its calls run one after
-- another here, so that `inFlight` is never shared.
use account_abstraction.Base.{
  ℕ, String, Bool, not, ◌&&◌, ◌||◌, Option, none, some, [], ◌∷◌, ◌==◌, Result, ok, err,
  if◌then◌else◌,
}
use account_abstraction.Js.Value.{Value, str, opt_get, or_else, truthy, is_nullish}
use account_abstraction.Js.Text.{template, decimal, to_text}
use account_abstraction.Js.Num.{Num, whole, less, more, num_max, num_ltb}
use account_abstraction.Js.Num.Read.{to_number}
use account_abstraction.Client.Browser.{
  ClientError, error_of, ask_identity, post_session, delete_session, HttpAnswer, Browser, Page, Io,
  ◌>>=◌, returning, attempt, fetching,
}

-- `BACKEND_DOWN`
unfoldable pub backend_down : String → String
backend_down api_base = template (
    "session backend not reachable at " ∷ api_base
    ∷ " — it is part of this same app (server/api.mjs, mounted by Vite in dev and deployed as api/[...path].js), so check the dev server output"
    ∷ [])

-- `setPrivyTokenProvider`
unfoldable pub set_privy_token_provider : Bool → Page → Page
set_privy_token_provider given p = record p { has_provider = given; expires_at = whole 0 }

module _ (browser : Browser) (api_base : String) where
  abbrev pub asking : Io (Option String)
  asking =
      λ p. (browser.identity (ask_identity ∷ p.trace), record p { trace = ask_identity ∷ p.trace })

  abbrev pub required_identity : Option String → Result ClientError String
  required_identity none =
      err (error_of "Privy returned no access token — sign in with Google again")
  required_identity (some token) =
      if token == ""
      then err (error_of "Privy returned no access token — sign in with Google again")
      else ok token

  abbrev read_created : ℕ → Bool → Value → Result ClientError Value
  read_created status passed v =
      if is_nullish v
      then err (error_of "Cannot read properties of null (reading 'authenticated')")
      else if not passed || not (truthy (opt_get v "authenticated"))
      then err (
          error_of (
            to_text (
              or_else (opt_get v "error") (
                str (
                  template
                    ("session backend returned " ∷ decimal status ∷ " without a session" ∷ []))))))
      else ok v

  abbrev pub read_session : HttpAnswer → Result ClientError Value
  read_session answer = elim answer.body [
    | none ↦ err (
        error_of (
          template (
            backend_down api_base
            ∷ " (got a non-JSON "
            ∷ decimal answer.status
            ∷ " response)"
            ∷ [])))
    | some v ↦ read_created answer.status answer.passed v
  ]

  -- `data.expires_at ? data.expires_at - Date.now() : 60_000`
  abbrev ttl_ms : ℕ → Value → Num
  ttl_ms now expires_at =
      if truthy expires_at then less (to_number expires_at) now else whole 60_000

  abbrev pub renew : Value → Page → Page
  renew v p = record p {
    expires_at =
        more (browser.now p.trace)
          (num_max 5_000 (less (ttl_ms (browser.now p.trace) (opt_get v "expires_at")) 30_000));
  }

  abbrev pub renewing : Value → Io (Unit {0})
  renewing v = λ p. (ok tt, renew v p)

  abbrev pub unreachable : ClientError → Io HttpAnswer
  unreachable x = returning (err (error_of (backend_down api_base)))

  abbrev pub posting : String → Io HttpAnswer
  posting token = attempt (fetching browser (post_session token)) unreachable

  abbrev pub with_answer : HttpAnswer → Io (Unit {0})
  with_answer answer = returning (read_session answer) >>= renewing

  abbrev pub with_token : String → Io (Unit {0})
  with_token token = posting token >>= with_answer

  abbrev pub with_identity : Option String → Io (Unit {0})
  with_identity identity = returning (required_identity identity) >>= with_token

  -- `createSession` of a page that has a provider.
  abbrev pub log_in : Io (Unit {0})
  log_in = asking >>= with_identity

  -- `createSession`
  unfoldable pub create_session : Io (Unit {0})
  create_session = λ p.
      if p.has_provider
      then log_in p
      else (err (error_of "not logged in — sign in with Google before sending a UserOperation"), p)

  -- `ensureSession`
  unfoldable pub ensure_session : Bool → Io (Unit {0})
  ensure_session force_refresh = λ p.
      if not force_refresh && num_ltb (whole (browser.now p.trace)) p.expires_at
      then (ok tt, p)
      else create_session p

  -- `endSession`
  unfoldable pub end_session : Io (Unit {0})
  end_session = λ p.
      attempt (fetching browser delete_session >>= λ answer. returning (ok tt))
        (λ x. returning (ok tt)) (record p { expires_at = whole 0 })
