-- ===== src/App/Guards.antt =====
-- The request guards of examples/privy-google-aa/server/api.mjs, from `requestHost` to
-- `corsHeaders`, and the response that `json` writes.
use account_abstraction.Base.{
  ℕ, String, Bool, true, false, not, ◌&&◌, ◌||◌, Option, none, some, List, [], ◌∷◌, ◌==◌, any,
  nat_beq, if◌then◌else◌,
}
use Prim.Native.Char.{code}
use account_abstraction.Js.Value.{Value}
use account_abstraction.Js.Text.{template, trim, split, split_at_first}

-- The headers that the server reads.
pub record Headers : Type 0 where
  pub host : Option String
  pub forwarded_host : Option String
  pub origin : Option String
  pub fetch_site : Option String
  pub cookie : Option String
  pub authorization : Option String

pub record Settings : Type 0 where
  pub deployed : Bool
  pub allowed_origins : List String

-- The hostname and host of `new URL(text)`, `none` where it throws.
abbrev pub UrlParser : Type 0
UrlParser = String → Option (String × String)

pub record Response : Type 0 where
  pub status : ℕ
  pub payload : Value
  pub headers : List (String × String)

abbrev pub loopback_hostnames : List String
loopback_hostnames = "127.0.0.1" ∷ "localhost" ∷ "::1" ∷ "[::1]" ∷ []

abbrev pub is_loopback : Option String → Bool
is_loopback none = false
is_loopback (some h) = any (λ l. l == h) loopback_hostnames

abbrev first_piece : List String → String
first_piece [] = ""
first_piece (s ∷ ss) = s

abbrev text_or_empty : Option String → String
text_or_empty none = ""
text_or_empty (some s) = s

-- `requestHost`
unfoldable pub request_host : Settings → Headers → Option String
request_host settings headers =
    let forwarded =
      if settings.deployed
      then trim (first_piece (split b',' (text_or_empty headers.forwarded_host)))
      else "" in
    if forwarded == "" then headers.host else some forwarded

abbrev before_bracket : Option (String × String) → String
before_bracket none = ""
before_bracket (some (s, t)) = template (s ∷ "]" ∷ [])

abbrev starts_with_bracket : String → Bool
starts_with_bracket String.[] = false
starts_with_bracket (String.◌∷◌ c s) = nat_beq (code c) b'['

-- `hostnameOf`
unfoldable pub hostname_of : Option String → Option String
hostname_of none = none
hostname_of (some host) =
    if host == ""
    then none
    else if starts_with_bracket host
    then some (before_bracket (split_at_first b']' host))
    else some (first_piece (split b':' host))

-- `hostAllowed`
unfoldable pub host_allowed : Settings → Headers → Bool
host_allowed settings headers =
    if settings.deployed then true else is_loopback (hostname_of (request_host settings headers))

abbrev pub is_host : Option String → String → Bool
is_host none host = false
is_host (some h) host = h == host

-- The `try` of `originAllowed`, on the parsed origin.
abbrev pub origin_url_allowed : Settings → Headers → Option (String × String) → Bool
origin_url_allowed settings headers none = false
origin_url_allowed settings headers (some (hostname, host)) =
    if is_host (request_host settings headers) host
    then true
    else not settings.deployed && is_loopback (some hostname)

abbrev pub is_listed : Settings → String → Bool
is_listed settings origin = any (λ o. o == origin) settings.allowed_origins

abbrev pub origin_text_allowed : UrlParser → Settings → Headers → String → Bool
origin_text_allowed url settings headers origin =
    if origin == ""
    then true
    else if is_listed settings origin
    then true
    else origin_url_allowed settings headers (url origin)

abbrev pub optional_origin_allowed : UrlParser → Settings → Headers → Option String → Bool
optional_origin_allowed url settings headers none = true
optional_origin_allowed url settings headers (some origin) =
    origin_text_allowed url settings headers origin

-- `originAllowed`
unfoldable pub origin_allowed : UrlParser → Settings → Headers → Bool
origin_allowed url settings headers = optional_origin_allowed url settings headers headers.origin

-- `crossSite`
unfoldable pub cross_site : Headers → Bool
cross_site headers = elim headers.fetch_site [ none ↦ false | some site ↦ site == "cross-site" ]

-- `corsHeaders`
unfoldable pub cors_headers : Settings → Headers → List (String × String)
cors_headers settings headers = elim headers.origin [
  | none ↦ []
  | some origin ↦
      if origin == "" || not (is_listed settings origin)
      then []
      else ("access-control-allow-origin", origin)
        ∷ ("access-control-allow-methods", "GET,POST,DELETE,OPTIONS")
        ∷ ("access-control-allow-headers", "content-type,authorization")
        ∷ ("access-control-allow-credentials", "true")
        ∷ ("vary", "Origin")
        ∷ []
]

-- `json(res, status, payload, req)`
abbrev pub json : Settings → Headers → ℕ → Value → Response
json settings headers status payload = record {
  status = status;
  payload = payload;
  headers =
      ("content-type", "application/json")
      ∷ ("cache-control", "no-store")
      ∷ cors_headers settings headers;
}
