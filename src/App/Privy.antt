-- ===== src/App/Privy.antt =====
-- The verification of Privy access tokens: `createPrivyVerifier` of
-- examples/privy-google-aa/server/privy-auth.mjs, with the keys it has fetched, the fetch that runs,
-- and the requests that wait for it.
pub mod Keys
pub mod Claims
pub mod Fetching
pub mod Answering
pub mod Trusted
pub mod Verified
use account_abstraction.Base.{
  ℕ, ◌+◌, ◌*◌, ◌/◌, String, Bool, true, false, not, ◌&&◌, Option, none, some, List, [], ◌∷◌, ◌==◌,
  any, ltb, Result, ok, err, ◌>>=◌, ◌>>◌, require, or_throw, if◌then◌else◌,
}
use account_abstraction.Js.Value.{
  pos, negsuc, Value, nan, int, frac, str, arr, bool, items, opt_get, truthy, is_text, is_nullish,
  int_beq,
}
use account_abstraction.Js.Number.Compare.{minus, is_number, at_least, less_than}
use account_abstraction.Js.Text.{
  template, trim, split, text_length, strip_prefix_ignoring_case, starts_with_space, to_text,
}
use account_abstraction.Ethers.{Exn, plain_error}

-- Node's crypto: `createPublicKey` (`none` where it throws), `verifySignature` of a key, the signed
-- text and the signature segment, `JSON.parse` of a segment (`none` where it throws), and the
-- product of a number with a fraction by 1000, from its text.
pub record KeyLibrary (Key : Type 0) : Type 0 where
  pub import_key : Value → Option Key
  pub check_signature : Key → String → String → Result Exn Bool
  pub decode_json : String → Option Value
  pub times_1000 : String → Value

-- What `verify` throws: an `AuthError`, or another error.
pub data Failure : Type 0 where
  auth_error : String → Failure
  other_error : Exn → Failure

abbrev pub clock_skew_sec : ℕ
clock_skew_sec = 30

abbrev pub jwks_min_refetch_ms : ℕ
jwks_min_refetch_ms = 30_000

abbrev pub jwks_ttl_ms : ℕ
jwks_ttl_ms = 600_000

abbrev pub privy_issuer : String
privy_issuer = "privy.io"

-- `url`, where the keys are: the one that is given, or Privy's own for the app.
abbrev pub jwks_url : String → String → String
jwks_url given app_id =
    if given == ""
    then template ("https://auth.privy.io/api/v1/apps/" ∷ app_id ∷ "/jwks.json" ∷ [])
    else given

-- The answer of the JWKS; `body` is null where it is no JSON.
pub record JwksAnswer : Type 0 where
  pub passed : Bool
  pub status : ℕ
  pub body : Value

-- A token that `verify` has read up to its key.
pub record Token : Type 0 where
  pub head : String
  pub payload : String
  pub signature : String
  pub kid : Value

pub record Identity : Type 0 where
  pub sub : String
  pub sid : Option String
  pub expires_at : Value

-- Keys by their `kid`, the newest first; the time of the last fetch; whether a fetch runs.
pub record KeyCache (Key : Type 0) : Type 0 where
  pub keys : List (Value × Key)
  pub fetched_at : ℕ
  pub in_flight : Bool

-- Equality of the keys of a `Map`, of values that `JSON.parse` has made: no two objects are equal.
abbrev pub same_key : Value → Value → Bool
same_key (str s) (str t) = s == t
same_key (int a) (int b) = int_beq a b
same_key (frac s) (frac t) = s == t
same_key (bool true) (bool true) = true
same_key _ _ = false

abbrev pub lookup_key : {Key : Type 0} → Value → List (Value × Key) → Option Key
lookup_key kid [] = none
lookup_key kid ((k, key) ∷ keys) =
    let rest = lookup_key kid keys in if same_key k kid then some key else rest

-- `/^Bearer\s+(.+)$/i` and `trim` of what it captures; a header holds no line break.
abbrev pub match_bearer : Option String → Option String
match_bearer none = none
match_bearer (some rest) =
    if starts_with_space rest && ltb 1 (text_length rest) then some (trim rest) else none

abbrev pub bearer_of : Option String → Option String
bearer_of none = none
bearer_of (some header) = match_bearer (strip_prefix_ignoring_case "bearer" header)

abbrev pub three_parts : List String → Option (String × String × String)
three_parts (a ∷ b ∷ c ∷ []) = some (a, b, c)
three_parts _ = none

-- The elements of `Array.isArray(aud) ? aud : [aud]`.
abbrev pub candidates : Value → List Value
candidates (arr vs) = items vs
candidates aud = aud ∷ []

-- `audienceMatches`
unfoldable pub audience_matches : Value → String → Bool
audience_matches aud app_id = any (λ entry. is_text entry app_id) (candidates aud)

abbrev sid_of : Value → Option String
sid_of sid = if truthy sid then some (to_text sid) else none

module _ {Key : Type 0} (lib : KeyLibrary Key) (app_id : String) where
  -- `claims.exp * 1000`
  abbrev pub milliseconds : Value → Value
  milliseconds (int (pos n)) = int (pos (n * 1000))
  milliseconds (int (negsuc n)) = int (negsuc (n * 1000 + 999))
  milliseconds (frac s) = lib.times_1000 s
  milliseconds v = nan

  -- `JSON.parse` of a segment, and the error of reading a property of null.
  abbrev pub parse_segment : String → String → Result Failure Value
  parse_segment segment what = do
    v ←
        or_throw (lib.decode_json segment)
          (auth_error (template ("privy token has an unreadable " ∷ what ∷ [])))
    require (not (is_nullish v)) (other_error (plain_error "Cannot read properties of null"))
    ok v

  abbrev pub open_header : String × String × String → Value → Result Failure Token
  open_header (head, payload, signature) header =
      let alg = opt_get header "alg" in
      let kid = opt_get header "kid" in
      do
        require (is_text alg "ES256")
            (auth_error (template ("privy token alg must be ES256, got " ∷ to_text alg ∷ [])))
        require (truthy kid) (auth_error "privy token has no kid")
        ok (record { head = head; payload = payload; signature = signature; kid = kid })

  abbrev pub open_parts : String × String × String → Result Failure Token
  open_parts (head, payload, signature) = do
    header ← parse_segment head "header"
    open_header (head, payload, signature) header

  -- `verify` up to the key.
  unfoldable pub open_token : Option String → Result Failure Token
  open_token authorization = do
    bearer ←
        or_throw (bearer_of authorization)
          (auth_error "missing Privy access token — log in with Google first")
    parts ← or_throw (three_parts (split b'.' bearer)) (auth_error "privy token is not a JWT")
    open_parts parts

  -- What `verify` checks of the claims.
  unfoldable pub read_claims : ℕ → Value → Result Failure Identity
  read_claims now claims =
      let now_sec = now / 1000 in
      let exp = opt_get claims "exp" in
      let nbf = opt_get claims "nbf" in
      let sub = opt_get claims "sub" in
      do
        require (is_text (opt_get claims "iss") privy_issuer)
            (auth_error (template ("privy token issuer must be " ∷ privy_issuer ∷ [])))
        require (audience_matches (opt_get claims "aud") app_id)
            (auth_error "privy token audience is not this app id")
        require (is_number exp && not (at_least (minus now_sec clock_skew_sec) exp))
            (auth_error "privy token is expired")
        require (not (is_number nbf && less_than (pos (now_sec + clock_skew_sec)) nbf))
            (auth_error "privy token is not valid yet")
        require (truthy sub) (auth_error "privy token has no subject")
        ok (record {
          sub = to_text sub;
          sid = sid_of (opt_get claims "sid");
          expires_at = milliseconds exp;
        })

  abbrev pub signed_text : Token → String
  signed_text token = template (token.head ∷ "." ∷ token.payload ∷ [])

  abbrev pub checked_signature : Result Exn Bool → Result Failure (Unit {0})
  checked_signature (err x) = err (other_error x)
  checked_signature (ok passed) = require passed (auth_error "privy token signature is invalid")

  -- `verify` from the key on.
  unfoldable pub check_token : ℕ → Key → Token → Result Failure Identity
  check_token now key token = do
    checked_signature (lib.check_signature key (signed_text token) token.signature)
    claims ← parse_segment token.payload "payload"
    read_claims now claims
