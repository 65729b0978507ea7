-- ===== src/App/Cookie/Authentic.antt =====
-- On `parse` of examples/privy-google-aa/server/session-cookie.mjs.
use account_abstraction.Base.{
  ℕ, ◌+◌, String, ◌≡◌, refl, true, false, Option, none, some, List, [], ◌∷◌, ◌==◌, some_inj, subst,
  Bool-cases, inl, inr, arith,
}
use account_abstraction.Js.Value.{Value, null, opt_get, truthy, nullish_or}
use account_abstraction.Js.Text.{split_at_last}
use account_abstraction.App.Cookie.{
  Crypto, CookieOptions, Session, same_bytes, is_reached, expiry_skew_ms, read_cookie, read_payload,
  read_signed, read_raw, parse,
}

same_bytes-eq : (xs ys : List ℕ) → same_bytes xs ys ≡ true → xs ≡ ys
same_bytes-eq [] [] h = refl
same_bytes-eq [] (y ∷ ys) h = cc
same_bytes-eq (x ∷ xs) [] h = cc
same_bytes-eq (x ∷ xs) (y ∷ ys) h = ground (arith, same_bytes-eq xs ys)

-- What a session says of its payload.
abbrev Says : ℕ → Value → Session → Type 0
Says now payload session =
    (opt_get payload "at" ≡ session.access_token)
    × (truthy session.access_token ≡ true)
    × (opt_get payload "sub" ≡ session.sub)
    × (truthy session.sub ≡ true)
    × (nullish_or (opt_get payload "exp") null ≡ session.expires_at)
    × (is_reached (now + expiry_skew_ms) (opt_get payload "exp") ≡ false)

abbrev of_payload : Value → Session
of_payload payload = record {
  access_token = opt_get payload "at";
  sub = opt_get payload "sub";
  expires_at = nullish_or (opt_get payload "exp") null;
}

module _ (k : Crypto) (options : CookieOptions) where
  -- The cookie is a payload and its MAC, and the session is what the payload says.
  pub record IsAuthentic (now : ℕ) (header : Option String) (session : Session) : Type 0 where
    pub raw : String
    pub payload_text : String
    pub provided : String
    pub payload : Value
    pub found : read_cookie k options header ≡ some raw
    pub halves : split_at_last b'.' raw ≡ some (payload_text, provided)
    pub signed : k.bytes provided ≡ k.bytes (k.mac payload_text)
    pub decoded : k.decode payload_text ≡ some payload
    pub token : opt_get payload "at" ≡ session.access_token
    pub token_there : truthy session.access_token ≡ true
    pub subject : opt_get payload "sub" ≡ session.sub
    pub subject_there : truthy session.sub ≡ true
    pub expiry : nullish_or (opt_get payload "exp") null ≡ session.expires_at
    pub in_time : is_reached (now + expiry_skew_ms) (opt_get payload "exp") ≡ false

  read_payload-Says :
      (now : ℕ) (payload : Value) (session : Session)
      → read_payload k options now (some payload) ≡ some session
      → Says now payload session
  unfolding read_payload
  read_payload-Says now payload session h = elim (Bool-cases (truthy (opt_get payload "at"))) [
    | inr no_token ↦ let got = rw no_token at h in cc
    | inl token ↦ elim (Bool-cases (truthy (opt_get payload "sub"))) [
      | inr no_sub ↦ let got = rw (token, no_sub) at h in cc
      | inl sub ↦ elim (Bool-cases (is_reached (now + expiry_skew_ms) (opt_get payload "exp"))) [
        | inl late ↦ let got = rw (token, sub, late) at h in cc
        | inr in_time ↦
            let same = some_inj (rw (token, sub, in_time) at h) in
            subst (Says now payload) same (refl, token, refl, sub, refl, in_time)
      ]
    ]
  ]

  read_decoded :
      (now : ℕ) (decoded : Option Value) (session : Session)
      → read_payload k options now decoded ≡ some session
      → (payload : Value) × (decoded ≡ some payload) × Says now payload session
  unfolding read_payload
  read_decoded now none session h = cc
  read_decoded now (some payload) session h =
      (payload, refl, read_payload-Says now payload session h)

  read_signed-some :
      (now : ℕ) (halves : Option (String × String)) (session : Session)
      → read_signed k options now halves ≡ some session
      → (payload_text provided : String) × (halves ≡ some (payload_text, provided))
        × (k.bytes provided ≡ k.bytes (k.mac payload_text))
        × (read_payload k options now (k.decode payload_text) ≡ some session)
  unfolding read_signed
  read_signed-some now none session h = cc
  read_signed-some now (some (p, provided)) session h = elim (Bool-cases (p == "")) [
    | inl empty ↦ let got = rw empty at h in cc
    | inr there ↦ elim (Bool-cases (same_bytes (k.bytes provided) (k.bytes (k.mac p)))) [
      | inr forged ↦ let got = rw (there, forged) at h in cc
      | inl signed ↦ (p, provided, refl, same_bytes-eq _ _ signed, rw (there, signed) at h)
    ]
  ]

  read_raw-some :
      (now : ℕ) (cookie : Option String) (session : Session)
      → read_raw k options now cookie ≡ some session
      → (raw : String) × (cookie ≡ some raw)
        × (read_signed k options now (split_at_last b'.' raw) ≡ some session)
  unfolding read_raw
  read_raw-some now none session h = cc
  read_raw-some now (some raw) session h = elim (Bool-cases (raw == "")) [
    | inl empty ↦ let got = rw empty at h in cc
    | inr there ↦ (raw, refl, rw there at h)
  ]

  -- Whatever cookie `parse` takes for a session has a payload with its MAC under the server's key,
  -- has a token and a subject, and does not expire within five seconds; the session is the payload's.
  pub parse-IsAuthentic :
      (now : ℕ) (header : Option String) (session : Session)
      → parse k options now header ≡ some session
      → IsAuthentic now header session
  unfolding parse
  parse-IsAuthentic now header session h =
      let (raw, found, read) = read_raw-some now (read_cookie k options header) session h in
      let (p, provided, halves, signed, read') =
        read_signed-some now (split_at_last b'.' raw) session read in
      let (payload, decoded, says) = read_decoded now (k.decode p) session read' in
      let (token, token_there, subject, subject_there, expiry, in_time) = says in
      record {
        raw = raw;
        payload_text = p;
        provided = provided;
        payload = payload;
        found = found;
        halves = halves;
        signed = signed;
        decoded = decoded;
        token = token;
        token_there = token_there;
        subject = subject;
        subject_there = subject_there;
        expiry = expiry;
        in_time = in_time;
      }
