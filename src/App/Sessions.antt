-- ===== src/App/Sessions.antt =====
-- `fetchToken` with its cache, `tokenExpiryMs` and `handleSession` of
-- examples/privy-google-aa/server/api.mjs. The answer of Keycloak and the verification of the Privy
-- token are inputs.
pub mod Cached
pub mod Created
use account_abstraction.Base.{
  ℕ, ◌+◌, String, Bool, true, false, not, ◌&&◌, ◌||◌, Option, none, some, List, [], ◌∷◌, ◌++◌, ◌==◌,
  Result, ok, err, if◌then◌else◌,
}
use account_abstraction.Js.Value.{
  pos, Value, null, bool, int, str, obj, end, field, opt_get, or_else, truthy, is_nullish,
}
use account_abstraction.Js.Text.{template, split, join, to_text, decimal}
use account_abstraction.Js.Num.{Num, whole, times, less, more, num_max, num_ltb, json_number}
use account_abstraction.Js.Num.Read.{to_number}
use account_abstraction.Ethers.{Exn}
use account_abstraction.App.Privy.{Failure, auth_error, other_error, Identity, three_parts}
use account_abstraction.App.Cookie.{Crypto, Session, parse, serialize, clear}
use account_abstraction.App.Guards.{Headers, Response, json}
use account_abstraction.App.Configured.{ApiConfig, missing_config, guard_settings, cookie_options}

-- The answer of the token endpoint; `body` is `{}` where it is no JSON.
pub record TokenAnswer : Type 0 where
  pub passed : Bool
  pub status : ℕ
  pub body : Value

pub record TokenCache : Type 0 where
  pub access_token : Value
  pub expires_at : Num
  pub expires_in : Num

-- An error with its `status`.
pub record Trouble : Type 0 where
  pub status : ℕ
  pub message : String

-- `err.status || 502` of an error that has none
abbrev pub gateway_trouble : String → Trouble
gateway_trouble message = record { status = 502; message = message }

abbrev pub empty_cache : TokenCache
empty_cache = record { access_token = null; expires_at = whole 0; expires_in = whole 0 }

-- Whether `fetchToken` answers with its cache.
unfoldable pub is_fresh : ℕ → TokenCache → Bool
is_fresh now cache = truthy cache.access_token && num_ltb (whole now) cache.expires_at

-- The cache after an answer that has a token; `now` is the time at which `fetchToken` began.
unfoldable pub cache_of : ℕ → Value → TokenCache
cache_of now body =
    let seconds = to_number (or_else (opt_get body "expires_in") (int (pos 60))) in
    record {
      access_token = opt_get body "access_token";
      expires_at = more now (num_max 5_000 (less (times seconds 1000) 30_000));
      expires_in = seconds;
    }

abbrev pub read_answer : ℕ → TokenAnswer → Result Trouble TokenCache
read_answer now answer =
    if is_nullish answer.body
    then err (gateway_trouble "Cannot read properties of null (reading 'access_token')")
    else if not answer.passed || not (truthy (opt_get answer.body "access_token"))
    then err (record {
      status = answer.status;
      message = to_text (
          or_else (opt_get answer.body "error_description") (
            or_else (opt_get answer.body "error")
              (str (template ("token endpoint returned " ∷ decimal answer.status ∷ [])))));
    })
    else ok (cache_of now answer.body)

abbrev pub request_token : ℕ → Result Exn TokenAnswer → Result Trouble TokenCache
request_token now (err x) = err (gateway_trouble x.message)
request_token now (ok answer) = read_answer now answer

-- `fetchToken`: the cache, or what the answer makes of it.
unfoldable pub fetch_token : ℕ → TokenCache → Result Exn TokenAnswer → Result Trouble TokenCache
fetch_token now cache answer = if is_fresh now cache then ok cache else request_token now answer

module _ (decode_json : String → Option Value) where
  abbrev expiry_of : Value → Option Num
  expiry_of exp = if truthy exp then some (times (to_number exp) 1000) else none

  abbrev expiry_of_payload : Option Value → Option Num
  expiry_of_payload none = none
  expiry_of_payload (some payload) = expiry_of (opt_get payload "exp")

  abbrev expiry_of_parts : Option (String × String × String) → Option Num
  expiry_of_parts none = none
  expiry_of_parts (some (header, payload, signature)) = expiry_of_payload (decode_json payload)

  -- `tokenExpiryMs`
  unfoldable pub token_expiry_ms : Value → Result Trouble (Option Num)
  token_expiry_ms (str token) = ok (expiry_of_parts (three_parts (split b'.' token)))
  token_expiry_ms token = err (gateway_trouble "token.split is not a function")

  -- `tokenExpiryMs(accessToken) ?? Date.now() + 60_000`
  abbrev expires_at_of : ℕ → Option Num → Num
  expires_at_of now none = whole (now + 60_000)
  expires_at_of now (some t) = t

  module _ (k : Crypto) (config : ApiConfig) (headers : Headers) where
    abbrev pub reply : ℕ → Value → Response
    reply status payload = json (guard_settings config) headers status payload

    -- `json(res, status, payload, req, { "set-cookie": cookie })`
    abbrev pub reply_with_cookie : ℕ → Value → String → Response
    reply_with_cookie status payload cookie = record (reply status payload) {
      headers = (reply status payload).headers ++ ("set-cookie", cookie) ∷ [];
    }

    abbrev error_payload : String → Value
    error_payload message = obj (field "error" (str message) end)

    abbrev pub inspected : Option Session → Value
    inspected none =
        obj (field "authenticated" (bool false) (field "expires_at" null (field "user" null end)))
    inspected (some s) = obj (
        field "authenticated" (bool true)
          (field "expires_at" s.expires_at (field "user" s.sub end)))

    -- The session that `handleSession` creates.
    abbrev pub new_session : ℕ → Identity → Value → Option Num → Session
    new_session now identity token expiry = record {
      access_token = token;
      sub = str identity.sub;
      expires_at = json_number (expires_at_of now expiry);
    }

    abbrev pub created : Session → Response
    created s =
        reply_with_cookie 200
          (obj (
            field "authenticated" (bool true)
              (field "expires_at" s.expires_at (field "user" s.sub end))))
          (serialize k (cookie_options config) s)

    abbrev pub with_expiry : ℕ → Identity → TokenCache → Result Trouble (Option Num) → Response
    with_expiry now identity cache (err x) = reply x.status (error_payload x.message)
    with_expiry now identity cache (ok expiry) =
        created (new_session now identity cache.access_token expiry)

    -- What follows `fetchToken`, with the cache that it leaves.
    abbrev pub with_token :
        ℕ → Identity → TokenCache → Result Trouble TokenCache → Response × TokenCache
    with_token now identity cache (err x) = (reply x.status (error_payload x.message), cache)
    with_token now identity cache (ok cache') =
        (with_expiry now identity cache' (token_expiry_ms cache'.access_token), cache')

    -- What follows the verification of the Privy token.
    abbrev pub with_identity :
        ℕ
        → ℕ
        → TokenCache
        → Result Exn TokenAnswer
        → Result Failure Identity
        → Result Exn (Response × TokenCache)
    with_identity began now cache answer (err (auth_error message)) =
        ok (reply 401 (error_payload message), cache)
    with_identity began now cache answer (err (other_error x)) = err x
    with_identity began now cache answer (ok identity) =
        ok (with_token now identity cache (fetch_token began cache answer))

    abbrev pub create_session :
        (Option String → Result Failure Identity)
        → ℕ
        → ℕ
        → TokenCache
        → Result Exn TokenAnswer
        → List String
        → Result Exn (Response × TokenCache)
    create_session verify began now cache answer [] =
        with_identity began now cache answer (verify headers.authorization)
    create_session verify began now cache answer (name ∷ names) = ok (
      reply 500 (error_payload (template ("missing env: " ∷ join ", " (name ∷ names) ∷ []))),
      cache,
    )

    -- `handleSession`: `began` is the time at which `fetchToken` reads the clock, `now` that of the
    -- cookie.
    unfoldable pub handle_session :
        (Option String → Result Failure Identity)
        → ℕ
        → ℕ
        → TokenCache
        → Result Exn TokenAnswer
        → String
        → Result Exn (Response × TokenCache)
    handle_session verify began now cache answer method =
        if method == "GET"
        then ok (reply 200 (inspected (parse k (cookie_options config) now headers.cookie)), cache)
        else if method == "DELETE"
        then ok (
          reply_with_cookie 200 (obj (field "authenticated" (bool false) end))
              (clear k (cookie_options config)),
          cache,
        )
        else if not (method == "POST")
        then ok (
          reply 405 (error_payload "use POST to create, GET to inspect, DELETE to end the session"),
          cache,
        )
        else create_session verify began now cache answer (missing_config config)
