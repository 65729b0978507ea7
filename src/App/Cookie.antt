-- ===== src/App/Cookie.antt =====
-- The session cookie: `createSessionCodec` of
-- examples/privy-google-aa/server/session-cookie.mjs. Node's crypto and encodings are parameters.
pub mod Authentic
use account_abstraction.Base.{
  ℕ, zero, suc, ◌+◌, ◌-◌, ◌*◌, String, Bool, true, false, not, ◌&&◌, ◌||◌, Option, none, some, List,
  [], ◌∷◌, ◌++◌, ◌==◌, nat_beq, leb, ltb, if◌then◌else◌,
}
use account_abstraction.Js.Value.{
  pos, negsuc, Value, null, int, frac, obj, end, field, opt_get, truthy, nullish_or,
}
use account_abstraction.Js.Text.{template, trim, join, split, split_at_first, split_at_last, codes}

-- `mac` is the text that the HMAC prints, `bytes` what `Buffer.from(text, "base64url")` holds,
-- `encode` the payload's text, `decode` its reading by `JSON.parse` (`none` where it throws), and
-- `decode_uri` is `decodeURIComponent` (`none` where it throws).
pub record Crypto : Type 0 where
  pub mac : String → String
  pub bytes : String → List ℕ
  pub encode : Value → String
  pub decode : String → Option Value
  pub decode_uri : String → Option String

pub record CookieOptions : Type 0 where
  pub name : String
  pub path : String
  pub same_site : String
  pub secure : Bool

pub record Session : Type 0 where
  pub access_token : Value
  pub sub : Value
  pub expires_at : Value

abbrev pub expiry_skew_ms : ℕ
expiry_skew_ms = 5000

-- The digits that a text begins with, as a number.
abbrev whole_from : ℕ → List ℕ → ℕ
whole_from n [] = n
whole_from n (c ∷ cs) =
    let rest = whole_from (n * 10 + (c - b'0')) cs in if leb b'0' c && leb c b'9' then rest else n

abbrev is_negative : List ℕ → Bool
is_negative [] = false
is_negative (c ∷ cs) = nat_beq c b'-'

-- `typeof exp === "number" && now >= exp`. A number with a fraction is below a whole number exactly
-- where its whole part is.
abbrev pub is_reached : ℕ → Value → Bool
is_reached now (int (pos n)) = leb n now
is_reached now (int (negsuc n)) = true
is_reached now (frac s) = is_negative (codes s) || ltb (whole_from 0 (codes s)) now
is_reached now _ = false

-- Equal lengths and `timingSafeEqual`.
abbrev pub same_bytes : List ℕ → List ℕ → Bool
same_bytes [] [] = true
same_bytes [] (y ∷ ys) = false
same_bytes (x ∷ xs) [] = false
same_bytes (x ∷ xs) (y ∷ ys) = nat_beq x y && same_bytes xs ys

module _ (k : Crypto) (options : CookieOptions) where
  -- `attributes`
  unfoldable pub attributes : String → Bool → String
  attributes value expire = join "; " (
      template (options.name ∷ "=" ∷ value ∷ [])
        ∷ "HttpOnly"
        ∷ template ("Path=" ∷ options.path ∷ [])
        ∷ template ("SameSite=" ∷ options.same_site ∷ [])
        ∷ (if options.secure then "Secure" ∷ [] else [])
      ++ (if expire then "Max-Age=0" ∷ [] else []))

  abbrev pub payload_of : Session → Value
  payload_of session = obj (
      field "at" session.access_token
        (field "sub" session.sub (field "exp" session.expires_at end)))

  unfoldable pub serialize : Session → String
  serialize session =
      let payload = k.encode (payload_of session) in
      attributes (template (payload ∷ "." ∷ k.mac payload ∷ [])) false

  unfoldable pub clear : String
  clear = attributes "" true

  abbrev decoded_or_same : String → Option String → String
  decoded_or_same value none = value
  decoded_or_same value (some decoded) = decoded

  -- The loop of `readCookie`.
  unfoldable pub read_parts : List String → Option String
  read_parts [] = none
  read_parts (part ∷ parts) =
      let rest = read_parts parts in
      elim (split_at_first b'=' part) [
        | none ↦ rest
        | some (name, value) ↦
            if trim name == options.name
            then some (decoded_or_same (trim value) (k.decode_uri (trim value)))
            else rest
      ]

  unfoldable pub read_cookie : Option String → Option String
  read_cookie none = none
  read_cookie (some header) = if header == "" then none else read_parts (split b';' header)

  -- What the payload says, if it is complete and has not expired.
  unfoldable pub read_payload : ℕ → Option Value → Option Session
  read_payload now none = none
  read_payload now (some payload) =
      if not (truthy (opt_get payload "at")) || not (truthy (opt_get payload "sub"))
      then none
      else if is_reached (now + expiry_skew_ms) (opt_get payload "exp")
      then none
      else some (record {
        access_token = opt_get payload "at";
        sub = opt_get payload "sub";
        expires_at = nullish_or (opt_get payload "exp") null;
      })

  -- The payload is read only if it has its MAC.
  unfoldable pub read_signed : ℕ → Option (String × String) → Option Session
  read_signed now none = none
  read_signed now (some (payload, provided)) =
      if payload == ""
      then none
      else if not (same_bytes (k.bytes provided) (k.bytes (k.mac payload)))
      then none
      else read_payload now (k.decode payload)

  unfoldable pub read_raw : ℕ → Option String → Option Session
  read_raw now none = none
  read_raw now (some raw) = if raw == "" then none else read_signed now (split_at_last b'.' raw)

  -- `parse`, at a time; `header` is `req.headers.cookie`.
  unfoldable pub parse : ℕ → Option String → Option Session
  parse now header = read_raw now (read_cookie header)
