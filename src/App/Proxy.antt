-- ===== src/App/Proxy.antt =====
-- `handleBundler` of examples/privy-google-aa/server/api.mjs: one write through the proxy.
pub mod Forwards
use account_abstraction.Base.{
  ℕ, String, Bool, not, ◌||◌, Option, none, some, List, [], ◌∷◌, ◌==◌, Result, ok, err, ◌>>=◌,
  if◌then◌else◌,
}
use account_abstraction.Js.Value.{
  Value, undefined, null, str, obj, end, field, opt_get, or_else, truthy, is_string,
}
use account_abstraction.Js.Iterate.{first_of_value}
use account_abstraction.Js.Text.{template}
use account_abstraction.Ethers.{Ethers, Exn}
use account_abstraction.App.Codec.{Codec, Refusal, refused, thrown}
use account_abstraction.App.Policy.{Policy, Checked, check}
use account_abstraction.App.Cookie.{Crypto, CookieOptions, Session, parse}
use account_abstraction.App.Guards.{Settings, Headers, Response, json, cors_headers}

-- The bundler's answer: `parsed` is what `parseJson` makes of its text (null where it is no JSON).
pub record Upstream : Type 0 where
  pub passed : Bool
  pub status : ℕ
  pub content_type : String
  pub text : String
  pub parsed : Value

-- An entry of the write log, as `record` gets it.
pub record Entry : Type 0 where
  pub user_sub : Value
  pub status : String
  pub method : Value
  pub user_op_hash : Value
  pub sender : Value
  pub target : Value
  pub owner : Value
  pub inner_call : Value
  pub stored_value : Value
  pub http_status : ℕ
  pub error : Value

-- What `readBody` and `JSON.parse` bring: the body is too large or its stream fails, is no JSON, or
-- is a request.
pub data Body : Type 0 where
  unreadable : ℕ → String → Body
  not_json : Body
  parsed_body : Value → Body

-- What a call does: its answer, the entries it writes, and the bearer token and the request that it
-- sends to the bundler.
pub record Outcome : Type 0 where
  pub response : Response
  pub entries : List Entry
  pub forwarded : Option (Value × Value)

-- The bundler behind `fetch`, of the token and the request; and `JSON.stringify`.
pub record Network : Type 0 where
  pub url : String
  pub fetch_bundler : Value → Value → Result Exn Upstream
  pub stringify : Value → String

abbrev option_value : Option String → Value
option_value none = null
option_value (some s) = str s

abbrev answered : Response → Outcome
answered response = record { response = response; entries = []; forwarded = none }

abbrev error_payload : String → Value
error_payload message = obj (field "error" (str message) end)

abbrev pub rejected_entry : Session → Value → String → Entry
rejected_entry current request message = record {
  user_sub = current.sub;
  status = "rejected";
  method = opt_get request "method";
  user_op_hash = undefined;
  sender = opt_get (first_of_value (opt_get request "params")) "sender";
  target = undefined;
  owner = undefined;
  inner_call = undefined;
  stored_value = undefined;
  http_status = 403;
  error = str message;
}

-- The fields that an entry takes from what the policy has checked.
abbrev pub checked_entry : Session → Checked → String → Value → ℕ → Value → Entry
checked_entry current checked status hash http_status error = record {
  user_sub = current.sub;
  status = status;
  method = str checked.method;
  user_op_hash = hash;
  sender = str checked.sender;
  target = str checked.target;
  owner = option_value checked.owner;
  inner_call = or_else (option_value checked.inner.signature) (str checked.inner.selector);
  stored_value = option_value checked.inner.value;
  http_status = http_status;
  error = error;
}

module _ (settings : Settings) (network : Network) (headers : Headers) where
  abbrev reply_error : ℕ → String → Response
  reply_error status message = json settings headers status (error_payload message)

  abbrev sent_or_failed : Upstream → String
  sent_or_failed up =
      if truthy (opt_get up.parsed "error") || not up.passed then "failed" else "sent"

  abbrev hash_of_answer : Value → Value
  hash_of_answer answer =
      if is_string (opt_get answer "result") then opt_get answer "result" else null

  abbrev error_of_answer : Value → Value
  error_of_answer answer =
      let error = opt_get answer "error" in
      if truthy error
      then or_else (opt_get error "message") (str (network.stringify error))
      else null

  abbrev relayed : Upstream → Response
  relayed up = record {
    status = up.status;
    payload = str up.text;
    headers =
        ("content-type", if up.content_type == "" then "application/json" else up.content_type)
        ∷ ("cache-control", "no-store")
        ∷ cors_headers settings headers;
  }

  -- What follows the call of the bundler.
  abbrev pub after_fetch : Session → Checked → Value → Result Exn Upstream → Outcome
  after_fetch current checked request (err x) = record {
    response =
        reply_error 502
          (template ("bundler unreachable at " ∷ network.url ∷ ": " ∷ x.message ∷ []));
    entries =
        checked_entry current checked "failed" undefined 502
          (str (template ("bundler unreachable: " ∷ x.message ∷ [])))
        ∷ [];
    forwarded = some (current.access_token, request);
  }
  after_fetch current checked request (ok up) = record {
    response = relayed up;
    entries =
        checked_entry current checked (sent_or_failed up) (hash_of_answer up.parsed) up.status
          (error_of_answer up.parsed)
        ∷ [];
    forwarded = some (current.access_token, request);
  }

  -- What follows the policy's check; an error that is no `PolicyError` is thrown on.
  abbrev pub after_check : Session → Value → Result Refusal Checked → Result Exn Outcome
  after_check current request (ok checked) =
      ok (after_fetch current checked request (network.fetch_bundler current.access_token request))
  after_check current request (err (refused message)) = ok (record {
    response = reply_error 403 (template ("rejected by policy: " ∷ message ∷ []));
    entries = rejected_entry current request message ∷ [];
    forwarded = none;
  })
  after_check current request (err (thrown x)) = err x

  module _ (e : Ethers) (c : Codec) (policy : Result Refusal Policy) where
    -- `writePolicy().check(request)`
    abbrev pub policy_check : Value → Result Refusal Checked
    policy_check request = do p ← policy; check e c p request

    abbrev pub with_session : Body → Session → Result Exn Outcome
    with_session (unreadable status message) current = ok (answered (reply_error status message))
    with_session not_json current = ok (answered (reply_error 400 "request body must be JSON"))
    with_session (parsed_body request) current = after_check current request (policy_check request)

    module _ (k : Crypto) (options : CookieOptions) (now : ℕ) where
      abbrev pub with_cookie : Body → Option Session → Result Exn Outcome
      with_cookie body none = ok (answered (reply_error 401 "no session — POST /api/session first"))
      with_cookie body (some current) = with_session body current

      unfoldable pub handle_bundler : String → Body → Result Exn Outcome
      handle_bundler method body =
          if not (method == "POST")
          then ok (answered (reply_error 405 "use POST"))
          else with_cookie body (parse k options now headers.cookie)
