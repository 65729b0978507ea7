-- ===== src/App/Serve.antt =====
-- `handleApi` and `apiHandler` of examples/privy-google-aa/server/api.mjs: one request of
-- the browser, and what it leaves of the token cache and of the write log.
pub mod Guarded
use account_abstraction.Base.{
  ℕ, String, Bool, true, Option, List, [], ◌∷◌, map, ◌==◌, Result, ok, err, if◌then◌else◌,
}
use account_abstraction.Js.Value.{
  Value, undefined, null, bool, str, arr, obj, end, field, from_items,
}
use account_abstraction.Ethers.{Ethers, Exn, plain_error}
use account_abstraction.App.Api.{
  Route, outside, unexpected_host, cross_origin, preflight, health, session, bundler, history,
  removed_token, not_found, route,
}
use account_abstraction.App.Codec.{Codec, Refusal, refused, thrown}
use account_abstraction.App.Configured.{
  ApiConfig, missing_config, guard_settings, cookie_options, realm_url, write_policy,
}
use account_abstraction.App.Cookie.{Crypto}
use account_abstraction.App.Guards.{Headers, UrlParser, Response, json, cors_headers}
use account_abstraction.App.History.{Store, store_record, handle_history}
use account_abstraction.App.Log.{ReceiptCodec}
use account_abstraction.App.Policy.{Policy}
use account_abstraction.App.Policy.Create.{describe}
use account_abstraction.App.Privy.{Failure, Identity}
use account_abstraction.App.Bodies.{Carried, BodyCodec, bundler_body}
use account_abstraction.App.Proxy.{Network, Outcome, Entry, handle_bundler}
use account_abstraction.App.Sessions.{TokenAnswer, TokenCache, handle_session}

-- The state of the module that requests change.
pub record ApiState : Type 0 where
  pub cache : TokenCache
  pub store : Store

-- What the host gets: an answer, or the request, to serve itself.
pub data Reply : Type 0 where
  answered : Response → Reply
  passed_on : Reply

-- What the handlers wait for, and the clock: the verdict on the Privy token, the answer of the token
-- endpoint, the bundler behind `fetch` for writes and for receipts.
pub record Surroundings : Type 0 where
  pub verify : Option String → Result Failure Identity
  pub tokens : Result Exn TokenAnswer
  pub network : Network
  pub receipts : String → Result Exn Value
  pub decode_json : String → Option Value
  pub now : ℕ

pub record Incoming : Type 0 where
  pub method : String
  pub url : String
  pub limit : Option String  -- `searchParams.get("limit")`
  pub headers : Headers
  pub carried : Carried

module _ (e : Ethers) (c : Codec) (rc : ReceiptCodec) (k : Crypto) (b : BodyCodec) (url : UrlParser)
    (config : ApiConfig) (around : Surroundings) (incoming : Incoming) where
  abbrev policy : Result Refusal Policy
  policy = write_policy config e c

  abbrev error_payload : String → Value
  error_payload message = obj (field "error" (str message) end)

  abbrev reply : ℕ → Value → Response
  reply status payload = json (guard_settings config) incoming.headers status payload

  -- `json(res, status, payload)`, without the request
  abbrev reply_bare : ℕ → Value → Response
  reply_bare status payload = record {
    status = status;
    payload = payload;
    headers = ("content-type", "application/json") ∷ ("cache-control", "no-store") ∷ [];
  }

  abbrev text_or_null : String → Value
  text_or_null s = if s == "" then null else str s

  abbrev policy_or_null : Result Refusal Policy → Result Exn Value
  policy_or_null (ok p) = ok (describe p)
  policy_or_null (err (refused message)) = err (plain_error message)
  policy_or_null (err (thrown x)) = err x

  -- The payload of `/api/health`.
  abbrev health_payload : Value → Value
  health_payload described = obj (
      field "ok" (bool true) (
        field "mode" (str (if config.deployed then "deployed" else "local")) (
          field "issuer" (str (realm_url config)) (
            field "user" (text_or_null config.naas_username) (
              field "bundler" (str config.bundler_url) (
                field "privy_app_id" (text_or_null config.privy_app_id) (
                  field "policy" described (
                    field "missing_env" (arr (from_items (map str (missing_config config))))
                      end))))))))

  abbrev healthy : Result Exn Value → Result Exn Reply
  healthy (ok described) = ok (answered (reply 200 (health_payload described)))
  healthy (err x) = err x

  -- The entries that a call of `handleBundler` writes, in their order.
  abbrev pub record_all : List Entry → Store → Store
  record_all [] store = store
  record_all (entry ∷ entries) store = record_all entries (store_record around.now entry store)

  abbrev of_session : ApiState → Result Exn (Response × TokenCache) → Result Exn Reply × ApiState
  of_session s (err x) = (err x, s)
  of_session s (ok (response, cache)) = (ok (answered response), record s { cache = cache })

  abbrev of_bundler : ApiState → Result Exn Outcome → Result Exn Reply × ApiState
  of_bundler s (err x) = (err x, s)
  of_bundler s (ok outcome) =
      (ok (answered outcome.response), record s { store = record_all outcome.entries s.store })

  abbrev of_history : ApiState → Result Exn (Response × Store) → Result Exn Reply × ApiState
  of_history s (err x) = (err x, s)
  of_history s (ok (response, store)) = (ok (answered response), record s { store = store })

  -- What `handleApi` does on a route; `mounted` tells whether the host has given a `next`.
  unfoldable pub on_route : Bool → Route → ApiState → Result Exn Reply × ApiState
  on_route mounted outside s =
      (ok (if mounted then passed_on else answered (reply 404 (error_payload "not found"))), s)
  on_route mounted unexpected_host s = (
    ok (
        answered (
          reply_bare 421 (error_payload "unexpected Host — this server only answers on loopback"))),
    s,
  )
  on_route mounted cross_origin s =
      (ok (answered (reply_bare 403 (error_payload "cross-origin requests are not allowed"))), s)
  on_route mounted preflight s = (
    ok (
        answered (record {
          status = 204;
          payload = undefined;
          headers = cors_headers (guard_settings config) incoming.headers;
        })),
    s,
  )
  on_route mounted health s =
      (healthy (if config.entry_point == "" then ok null else policy_or_null policy), s)
  on_route mounted session s = of_session s (
      handle_session around.decode_json k config incoming.headers around.verify around.now
        around.now s.cache around.tokens incoming.method)
  on_route mounted bundler s = of_bundler s (
      handle_bundler (guard_settings config) around.network incoming.headers e c policy k
        (cookie_options config) around.now incoming.method (bundler_body b incoming.carried))
  on_route mounted history s = of_history s (
      handle_history e c rc k config incoming.headers around.receipts around.now incoming.method
        incoming.limit s.store)
  on_route mounted removed_token s = (
    ok (
        answered (
          reply 410 (
            error_payload
              "/api/token was removed — the token now lives in an HttpOnly cookie; use POST /api/session + POST /api/bundler"))),
    s,
  )
  on_route mounted not_found s = (ok (answered (reply 404 (error_payload "not found"))), s)

  -- `handleApi`
  unfoldable pub handle_api : Bool → ApiState → Result Exn Reply × ApiState
  handle_api mounted s =
      on_route mounted
        (route url (guard_settings config) incoming.headers incoming.method incoming.url) s

  abbrev or_internal_error : Result Exn Reply → Reply
  or_internal_error (ok reply) = reply
  or_internal_error (err x) = answered (reply 500 (error_payload "internal error"))

  -- `apiHandler`: an error of `handleApi` becomes an answer.
  unfoldable pub api_handler : Bool → ApiState → Reply × ApiState
  api_handler mounted s =
      let (outcome, s') = handle_api mounted s in (or_internal_error outcome, s')
