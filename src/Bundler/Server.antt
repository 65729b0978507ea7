-- ===== src/Bundler/Server.antt =====
-- `createServer` of bundler/src/index.js: one HTTP request.
use account_abstraction.Base.{
  ℕ, ◌+◌, String, Bool, true, false, not, ◌&&◌, Option, none, some, List, [], ◌∷◌, ◌==◌, Result, ok,
  err, any, ltb, if◌then◌else◌,
}
use account_abstraction.Js.Value.{
  pos, int, Value, null, bool, str, arr, obj, items, from_items, end, field, opt_get, nullish_or,
  is_nullish, truthy, text_of, is_string,
}
use account_abstraction.Ethers.{Ethers, Exn}
use account_abstraction.Bundler.Types.{Config}
use account_abstraction.Bundler.Errors.{format_rpc_error, parse_error}
use account_abstraction.Bundler.Auth.{JwtVerify, verify_request}
use account_abstraction.Bundler.State.{Bundler, pending_count, LogParser}
use account_abstraction.Bundler.Rpc.{Chain, AuthContext, is_protected, handle_rpc}

-- `chunks` are the lengths of the body's pieces, `body` is what `JSON.parse` makes of the whole
-- (`none` where it throws).
pub record Request : Type 0 where
  pub method : String
  pub url : String
  pub authorization : Option String
  pub chunks : List ℕ
  pub body : Option Value

-- `dropped`: the connection is destroyed. `crashed`: the handler of `end` throws with nothing to
-- catch it, and the request gets no answer.
pub data Response : Type 0 where
  reply : ℕ → Value → Response
  no_content dropped crashed : Response

abbrev pub max_body : ℕ
max_body = 2000000

-- The `data` handler: whether the body outgrows the limit before it ends.
unfoldable pub outgrows : ℕ → List ℕ → Bool
outgrows size [] = false
outgrows size (n ∷ ns) =
    let rest = outgrows (size + n) ns in if ltb max_body (size + n) then true else rest

abbrev pub requests_of : Value → List Value
requests_of (arr vs) = items vs
requests_of v = v ∷ []

-- `r && PROTECTED_METHODS.has(r.method)`
abbrev pub asks_protected : Value → Bool
asks_protected r =
    truthy r && is_string (opt_get r "method") && is_protected (text_of (opt_get r "method"))

abbrev reply_fields : Value → Result Exn Value → Value
reply_fields request (ok result) = obj (
    field "jsonrpc" (str "2.0")
      (field "id" (nullish_or (opt_get request "id") null) (field "result" result end)))
reply_fields request (err x) = obj (
    field "jsonrpc" (str "2.0") (
      field "id" (nullish_or (opt_get request "id") null) (field "error" (format_rpc_error x) end)))

abbrev head_or_null : List Value → Value
head_or_null [] = null
head_or_null (v ∷ vs) = v

abbrev batch_or_single : Value → List Value → Value
batch_or_single (arr vs) responses = arr (from_items responses)
batch_or_single payload responses = head_or_null responses

abbrev with_claims : Result Exn Value → AuthContext
with_claims (ok claims) = record { enabled = true; passed = true; error = none }
with_claims (err x) = record { enabled = true; passed = false; error = some x.message }

module _ (e : Ethers) (parse : LogParser) (config : Config) (jwt_verify : JwtVerify)
    (chain : Chain) where
  -- One request of a batch. `none`: reading `request.id` of null throws, in the `catch` too.
  unfoldable pub answer : AuthContext → Value → Bundler → Option Value × Bundler
  answer auth request s =
      let (result, s') = handle_rpc e parse config chain request auth s in
      if is_nullish request then (none, s') else (some (reply_fields request result), s')

  -- `Promise.all` over the batch: the requests run in their order, and one that throws spoils the
  -- whole answer.
  unfoldable pub answers : AuthContext → List Value → Bundler → Option (List Value) × Bundler
  answers auth [] s = (some [], s)
  answers auth (r ∷ rs) s =
      let (first, s') = answer auth r s in
      let (others, s'') = answers auth rs s' in
      (
        elim first [ none ↦ none | some v ↦ elim others [ none ↦ none | some vs ↦ some (v ∷ vs) ] ],
        s'',
      )

  unfoldable pub auth_context : Option String → List Value → AuthContext
  auth_context header requests =
      if config.auth.enabled && any asks_protected requests
      then with_claims (verify_request jwt_verify config.auth header)
      else record { enabled = config.auth.enabled; passed = false; error = none }

  abbrev respond : Value → Option (List Value) × Bundler → Response × Bundler
  respond payload (none, s) = (crashed, s)
  respond payload (some responses, s) = (reply 200 (batch_or_single payload responses), s)

  abbrev parse_failure : Value
  parse_failure = obj (
      field "jsonrpc" (str "2.0") (
        field "id" null (
          field "error"
            (obj (field "code" (int parse_error) (field "message" (str "parse error") end))) end)))

  unfoldable pub serve_body : Option String → Option Value → Bundler → Response × Bundler
  serve_body header none s = (reply 400 parse_failure, s)
  serve_body header (some payload) s =
      let requests = requests_of payload in
      respond payload (answers (auth_context header requests) requests s)

  unfoldable pub serve : Request → Bundler → Response × Bundler
  serve req s =
      if req.method == "OPTIONS"
      then (no_content, s)
      else if req.method == "GET" && req.url == "/health"
      then (
        reply 200
            (obj (field "ok" (bool true) (field "pending" (int (pos (pending_count s))) end))),
        s,
      )
      else if not (req.method == "POST")
      then (reply 405 (obj (field "error" (str "method not allowed") end)), s)
      else if outgrows 0 req.chunks
      then (dropped, s)
      else serve_body req.authorization req.body s
