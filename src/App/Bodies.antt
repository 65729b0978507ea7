-- ===== src/App/Bodies.antt =====
-- `readBody` of examples/privy-google-aa/server/api.mjs.
pub mod Received
use account_abstraction.Base.{
  ℕ, ◌+◌, String, Option, none, some, List, [], ◌∷◌, ◌++◌, ltb, length, Result, ok, err,
  if◌then◌else◌,
}
use account_abstraction.Js.Value.{Value, str, is_nullish}
use account_abstraction.App.Proxy.{Body, unreadable, not_json, parsed_body}

abbrev pub max_body_bytes : ℕ
max_body_bytes = 1_000_000

-- What a request carries: the body that an adapter has parsed (undefined where it has not), and the
-- bytes of its stream, which may fail at its end.
pub record Carried : Type 0 where
  pub body : Value
  pub chunks : List (List ℕ)
  pub failure : Option String

-- The bytes of a text, `JSON.parse` of the text of bytes (`none` where it throws), `JSON.stringify`.
pub record BodyCodec : Type 0 where
  pub bytes_of : String → List ℕ
  pub parse : List ℕ → Option Value
  pub stringify : Value → String

-- The status and the message of an error.
abbrev pub Complaint : Type 0
Complaint = ℕ × String

abbrev stream_end : List ℕ → Option String → Result Complaint (List ℕ)
stream_end bytes none = ok bytes
stream_end bytes (some message) = err (400, message)

-- The `data` and `end` handlers of `readBody`: `size` bytes have been counted, and are kept.
unfoldable pub read_chunks : ℕ → List ℕ → List (List ℕ) → Option String → Result Complaint (List ℕ)
read_chunks size bytes [] failure = stream_end bytes failure
read_chunks size bytes (chunk ∷ chunks) failure =
    let next = read_chunks (size + length chunk) (bytes ++ chunk) chunks failure in
    if ltb max_body_bytes (size + length chunk) then err (413, "request body too large") else next

module _ (b : BodyCodec) where
  abbrev adapted : Value → List ℕ
  adapted (str text) = b.bytes_of text
  adapted v = b.bytes_of (b.stringify v)

  -- `readBody`
  unfoldable pub read_body : Carried → Result Complaint (List ℕ)
  read_body carried =
      if is_nullish carried.body
      then read_chunks 0 [] carried.chunks carried.failure
      else ok (adapted carried.body)

  abbrev json_body : Option Value → Body
  json_body none = not_json
  json_body (some v) = parsed_body v

  abbrev body_of : Result Complaint (List ℕ) → Body
  body_of (err (status, message)) = unreadable status message
  body_of (ok bytes) = json_body (b.parse bytes)

  -- What `handleBundler` reads.
  abbrev pub bundler_body : Carried → Body
  bundler_body carried = body_of (read_body carried)
