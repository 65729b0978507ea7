-- ===== src/App/Serve/Guarded.antt =====
-- What a request needs to change anything through `handleApi` of
-- examples/privy-google-aa/server/api.mjs.
use account_abstraction.Base.{
  String, ◌≡◌, inl, inr, refl, Bool, Option, none, List, [], ◌∷◌, ◌==◌, Result, ok, err, Bool-cases,
}
use account_abstraction.Ethers.{Ethers, Exn}
use account_abstraction.App.Api.{
  Route, outside, unexpected_host, cross_origin, preflight, health, session, bundler, history,
  removed_token, not_found, route,
}
use account_abstraction.App.Api.Trusted.{IsServed, IsTrusted, route-IsTrusted}
use account_abstraction.App.Codec.{Codec}
use account_abstraction.App.Configured.{
  ApiConfig, missing_config, guard_settings, cookie_options, write_policy,
}
use account_abstraction.App.Cookie.{Crypto, Session, parse}
use account_abstraction.App.Guards.{UrlParser, Response}
use account_abstraction.App.History.{handle_history}
use account_abstraction.App.Log.{ReceiptCodec}
use account_abstraction.App.Proxy.{handle_bundler}
use account_abstraction.App.Privy.{Failure, auth_error, other_error, Identity}
use account_abstraction.App.Sessions.{TokenCache, with_identity, create_session, handle_session}
use account_abstraction.App.Bodies.{BodyCodec, bundler_body}
use account_abstraction.App.Serve.{
  ApiState, Surroundings, Incoming, of_session, of_bundler, of_history, on_route, handle_api,
  api_handler,
}

module _ (e : Ethers) (c : Codec) (rc : ReceiptCodec) (k : Crypto) (b : BodyCodec) (url : UrlParser)
    (config : ApiConfig) (around : Surroundings) (incoming : Incoming) where
  on_route-refused :
      (mounted : Bool) (r : Route) (s : ApiState)
      → (IsServed r → ⊥)
      → (on_route e c rc k b url config around incoming mounted r s).1 ≡ s
  unfolding on_route
  on_route-refused mounted outside s h = refl
  on_route-refused mounted unexpected_host s h = refl
  on_route-refused mounted cross_origin s h = refl
  on_route-refused mounted preflight s h = refl
  on_route-refused mounted health s h = refl
  on_route-refused mounted session s h = absurd (h tt)
  on_route-refused mounted bundler s h = absurd (h tt)
  on_route-refused mounted history s h = absurd (h tt)
  on_route-refused mounted removed_token s h = refl
  on_route-refused mounted not_found s h = refl

  -- A request that the guards do not trust changes nothing: neither the cached token nor the log.
  pub api_handler-untrusted :
      (mounted : Bool) (s : ApiState)
      → ¬ (IsTrusted url (guard_settings config) incoming.headers)
      → (api_handler e c rc k b url config around incoming mounted s).1 ≡ s
  unfolding api_handler handle_api
  api_handler-untrusted mounted s strange = on_route-refused mounted _ s (λ served. strange (
      route-IsTrusted url (guard_settings config) incoming.headers incoming.method incoming.url
        served))

  of_session-store :
      (s : ApiState) (outcome : Result Exn (Response × TokenCache))
      → (of_session e c rc k b url config around incoming s outcome).1.store ≡ s.store
  of_session-store s (err x) = refl
  of_session-store s (ok (response, cache)) = refl

  abbrev pub session_of : Option Session
  session_of = parse k (cookie_options config) around.now incoming.headers.cookie

  bundler-keeps :
      (s : ApiState)
      → session_of ≡ none
      → (of_bundler e c rc k b url config around incoming s (
          handle_bundler
            (guard_settings config)
            around.network
            incoming.headers
            e
            c
            (write_policy config e c)
            k
            (cookie_options config)
            around.now
            incoming.method
            (bundler_body b incoming.carried))).1
        ≡ s
  unfolding handle_bundler
  bundler-keeps s h = elim (Bool-cases (incoming.method == "POST")) [
    | inl post ↦ rw (post, h) refl
    | inr other ↦ rw other refl
  ]

  history-keeps :
      (s : ApiState)
      → session_of ≡ none
      → (of_history e c rc k b url config around incoming s (
          handle_history e c rc k config incoming.headers around.receipts around.now incoming.method
            incoming.limit s.store)).1
        ≡ s
  unfolding handle_history
  history-keeps s h = elim (Bool-cases (incoming.method == "GET")) [
    | inl get ↦ rw (get, h) refl
    | inr other ↦ rw other refl
  ]

  unverified-keeps :
      (s : ApiState) (verdict : Result Failure Identity) (x : Failure)
      → verdict ≡ err x
      → (of_session e c rc k b url config around incoming s (
          with_identity around.decode_json k config incoming.headers around.now around.now s.cache
            around.tokens verdict)).1
        ≡ s
  unverified-keeps s (ok identity) x h = cc
  unverified-keeps s (err (auth_error m)) x h = refl
  unverified-keeps s (err (other_error y)) x h = refl

  created-keeps :
      (s : ApiState) (missing : List String) (x : Failure)
      → around.verify incoming.headers.authorization ≡ err x
      → (of_session e c rc k b url config around incoming s (
          create_session around.decode_json k config incoming.headers around.verify around.now
            around.now s.cache around.tokens missing)).1
        ≡ s
  created-keeps s [] x h = unverified-keeps s (around.verify incoming.headers.authorization) x h
  created-keeps s (name ∷ names) x h = refl

  session-keeps :
      (s : ApiState) (x : Failure)
      → around.verify incoming.headers.authorization ≡ err x
      → (of_session e c rc k b url config around incoming s (
          handle_session around.decode_json k config incoming.headers around.verify around.now
            around.now s.cache around.tokens incoming.method)).1
        ≡ s
  unfolding handle_session
  session-keeps s x h = elim (Bool-cases (incoming.method == "GET")) [
    | inl get ↦ rw get refl
    | inr not_get ↦ elim (Bool-cases (incoming.method == "DELETE")) [
      | inl delete ↦ rw (not_get, delete) refl
      | inr not_delete ↦ elim (Bool-cases (incoming.method == "POST")) [
        | inl post ↦
            let kept = created-keeps s (missing_config config) x h in
            rw (not_get, not_delete, post) kept
        | inr other ↦ rw (not_get, not_delete, other) refl
      ]
    ]
  ]

  -- A request without a session cookie that holds and without a Privy token that is verified changes
  -- nothing, whatever path it asks for: the token cache and the log stay as they were.
  pub api_handler-anonymous :
      (mounted : Bool) (s : ApiState) (x : Failure)
      → session_of ≡ none
      → around.verify incoming.headers.authorization ≡ err x
      → (api_handler e c rc k b url config around incoming mounted s).1 ≡ s
  unfolding api_handler handle_api on_route
  api_handler-anonymous mounted s x no_session unverified =
      on_any (route url (guard_settings config) incoming.headers incoming.method incoming.url)
    where
      on_any : (r : Route) → (on_route e c rc k b url config around incoming mounted r s).1 ≡ s
      on_any session = session-keeps s x unverified
      on_any bundler = bundler-keeps s no_session
      on_any history = history-keeps s no_session
      on_any outside = refl
      on_any unexpected_host = refl
      on_any cross_origin = refl
      on_any preflight = refl
      on_any health = refl
      on_any removed_token = refl
      on_any not_found = refl
