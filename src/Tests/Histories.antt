-- ===== src/Tests/Histories.antt =====
-- One run of each theorem on the history, the guards of the whole server, and the body of a request.
use account_abstraction.Base.{
  ℕ, ◌≤◌, ◌≡◌, ◌↔◌, refl, true, String, Option, none, some, List, [], ◌∷◌, length, take, Result, ok,
  err,
}
use account_abstraction.Js.Value.{Value, undefined, str, obj, end, field}
use account_abstraction.Ethers.{Exn}
use account_abstraction.App.Privy.{Failure, auth_error, Identity}
use account_abstraction.App.Api.Trusted.{IsTrusted}
use account_abstraction.App.Cookie.{parse, read_cookie, read_raw}
use account_abstraction.App.Configured.{guard_settings, cookie_options}
use account_abstraction.App.Guards.{Headers, Response}
use account_abstraction.App.Sessions.{empty_cache}
use account_abstraction.App.Log.{Row, Table}
use account_abstraction.App.History.{Store, opened, unavailable, settle_pending, listed}
use account_abstraction.App.Bodies.{Carried, BodyCodec, read_body}
use account_abstraction.App.Serve.{ApiState, Surroundings, Incoming, api_handler}
use account_abstraction.App.Serve.Guarded.{api_handler-untrusted, api_handler-anonymous}
use account_abstraction.App.Bodies.Received.{joined, read_body-ok_iff}
use account_abstraction.Tests.Toys.{toy_ethers, hash}
use account_abstraction.Tests.Policies.{toy_codec}
use account_abstraction.Tests.Proxies.{toy_crypto, toy_headers, toy_network, toy_url}
use account_abstraction.Tests.Logs.{toy_receipts, failed_receipt}
use account_abstraction.Tests.Services.{config, claims, keycloak}

abbrev pub sent_row : ℕ → Row
sent_row id = record {
  id = id;
  created_at = 1;
  user_sub = some "did:privy:1";
  status = "sent";
  method = some "eth_sendUserOperation";
  user_op_hash = some hash;
  sender = none;
  target = none;
  owner = none;
  inner_call = none;
  stored_value = none;
  http_status = 200;
  error = none;
  success = none;
  revert_reason = none;
  tx_hash = none;
  settled_at = none;
}

abbrev table : Table
table = record { rows = sent_row 2 ∷ sent_row 1 ∷ []; last_id = 2 }

abbrev receipts : String → Result Exn Value
receipts asked = ok (obj (field "result" failed_receipt end))

abbrev get : String
get = "GET"

-- The answer to `?limit=1`, and the log that it leaves.
abbrev settled_store : Store
settled_store =
    settle_pending toy_ethers toy_codec toy_receipts receipts 1_000 (sent_row 2 ∷ []) (opened table)

abbrev newest : Store → List Row
newest (opened t) = take 1 t.rows
newest (unavailable reason) = []

abbrev shown : Response
shown =
    listed toy_ethers toy_codec toy_receipts toy_crypto config toy_headers settled_store
      (newest settled_store)

abbrev body_codec : BodyCodec
body_codec = record {
  bytes_of = λ text. [];
  parse = λ bytes. some (str "{}");
  stringify = λ v. "{}";
}

abbrev unverified : Option String → Result Failure Identity
unverified authorization = err (auth_error "missing Privy access token")

abbrev around : Surroundings
around = record {
  verify = unverified;
  tokens = ok keycloak;
  network = toy_network;
  receipts = receipts;
  decode_json = claims;
  now = 1_000;
}

abbrev carried : Carried
carried = record { body = undefined; chunks = (123 ∷ []) ∷ (125 ∷ []) ∷ []; failure = none }

abbrev foreign_headers : Headers
foreign_headers = record toy_headers { fetch_site = some "cross-site" }

abbrev incoming : Headers → Incoming
incoming headers = record {
  method = "POST";
  url = "/api/session";
  limit = none;
  headers = headers;
  carried = carried;
}

abbrev state : ApiState
state = record { cache = empty_cache; store = opened table }

foreign : ¬ (IsTrusted toy_url (guard_settings config) foreign_headers)
foreign (host, site, origin) = site refl

toy_untrusted :
    (api_handler toy_ethers toy_codec toy_receipts toy_crypto body_codec toy_url config around
      (incoming foreign_headers)
      true
      state).1
    ≡ state
toy_untrusted =
    api_handler-untrusted toy_ethers toy_codec toy_receipts toy_crypto body_codec toy_url config
      around (incoming foreign_headers) true state foreign

abbrev plain_headers : Headers
plain_headers = record toy_headers { cookie = none }

no_cookie : parse toy_crypto (cookie_options config) 1_000 plain_headers.cookie ≡ none
unfolding parse read_cookie read_raw
no_cookie = refl

api_handler-anonymous_example :
    (api_handler toy_ethers toy_codec toy_receipts toy_crypto body_codec toy_url config around
      (incoming plain_headers)
      true
      state).1
    ≡ state
api_handler-anonymous_example =
    api_handler-anonymous toy_ethers toy_codec toy_receipts toy_crypto body_codec toy_url config
      around (incoming plain_headers) true state (auth_error "missing Privy access token") no_cookie
      refl

read_body-ok_iff_example : (read_body body_codec carried ≡ ok (123 ∷ 125 ∷ [])) ↔ (
    (carried.failure ≡ none)
    × (length (joined carried.chunks) ≤ 1_000_000)
    × ((123 ∷ 125 ∷ []) ≡ joined carried.chunks))
read_body-ok_iff_example = read_body-ok_iff body_codec carried (123 ∷ 125 ∷ []) refl
