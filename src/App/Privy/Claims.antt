-- ===== src/App/Privy/Claims.antt =====
-- What a Privy token that `verify` of examples/privy-google-aa/server/privy-auth.mjs accepts says.
use account_abstraction.Base.{
  ℕ, ◌+◌, ◌/◌, String, ◌≡◌, ◌⊎◌, inl, inr, refl, sym, ap, subst, Bool, true, false, not, ◌&&◌, ◌||◌,
  Option, none, some, List, [], ◌∷◌, Result, ok, err, require, or_throw, >>=-eq-ok, require-ok,
  arith, any,
}
use mathlib.Core.List.{Memᴰ}
use account_abstraction.Js.Value.{Value, pos, str, opt_get, truthy, is_text, is_text_iff}
use account_abstraction.Js.Number.Compare.{minus, is_number, at_least, less_than}
use account_abstraction.Js.Text.{split, to_text}
use account_abstraction.Ethers.{Exn}
use account_abstraction.App.Privy.{
  KeyLibrary, Failure, Token, Identity, privy_issuer, clock_skew_sec, bearer_of, three_parts,
  open_token, open_header, parse_segment, candidates, audience_matches, read_claims, check_token,
  checked_signature, signed_text,
}

-- A text among values.
any-text-mem : (t : String) (vs : List Value) → any (λ v. is_text v t) vs ≡ true → Memᴰ (str t) vs
any-text-mem t [] h = cc
any-text-mem t (v ∷ vs) h = elim (first (is_text v t) _ h) [
  | inl here ↦ Memᴰ.head (sym ((is_text_iff v t).0 here))
  | inr there ↦ Memᴰ.tail (any-text-mem t vs there)
]
  where
    first : (a b : Bool) → (a || b) ≡ true → (a ≡ true) ⊎ (b ≡ true)
    first true b h = inl refl
    first false b h = inr h

or_throw-ok : {A : Type 0} (o : Option A) (x : Failure) {a : A} → or_throw o x ≡ ok a → o ≡ some a
or_throw-ok none x h = cc
or_throw-ok (some b) x h = ap some (cc)

not_and : {a b : Bool} → not (a && b) ≡ true → (a ≡ false) ⊎ (b ≡ false)
not_and {a = false} h = inl refl
not_and {a = true} {b = false} h = inr refl
not_and {a = true} {b = true} h = cc

abbrev returns : Identity → Result Failure Identity
returns i = ok i

identity-inj : {i j : Identity} → returns i ≡ ok j → i ≡ j
identity-inj h = cc

module _ {Key : Type 0} (lib : KeyLibrary Key) (app_id : String) where
  -- The header of an authorization names a token signed with ES256.
  pub record IsOpened (authorization : Option String) (token : Token) : Type 0 where
    pub bearer : String
    pub header : Value
    pub borne : bearer_of authorization ≡ some bearer
    pub parts : three_parts (split b'.' bearer) ≡ some (token.head, token.payload, token.signature)
    pub decoded : lib.decode_json token.head ≡ some header
    pub algorithm : opt_get header "alg" ≡ str "ES256"
    pub key_id : opt_get header "kid" ≡ token.kid
    pub key_id_there : truthy token.kid ≡ true

  -- Claims for this application, of Privy, in their time, on a subject.
  pub record IsClaimed (now : ℕ) (claims : Value) (identity : Identity) : Type 0 where
    pub issuer : opt_get claims "iss" ≡ str privy_issuer
    pub audience : Memᴰ (str app_id) (candidates (opt_get claims "aud"))
    pub expiry : is_number (opt_get claims "exp") ≡ true
    pub not_expired : at_least (minus (now / 1000) clock_skew_sec) (opt_get claims "exp") ≡ false
    pub started :
        (is_number (opt_get claims "nbf") ≡ false)
        ⊎ (less_than (pos (now / 1000 + clock_skew_sec)) (opt_get claims "nbf") ≡ false)
    pub subject_there : truthy (opt_get claims "sub") ≡ true
    pub subject : identity.sub ≡ to_text (opt_get claims "sub")

  checked_signature-ok :
      (r : Result Exn Bool) {u : Unit {0}} → checked_signature lib app_id r ≡ ok u → r ≡ ok true
  checked_signature-ok (err x) h = cc
  checked_signature-ok (ok true) h = refl
  checked_signature-ok (ok false) h = cc

  parse_segment-ok :
      (segment what : String) (v : Value)
      → parse_segment lib app_id segment what ≡ ok v
      → lib.decode_json segment ≡ some v
  parse_segment-ok segment what v h = ground arith

  open_header-ok :
      (head payload signature : String) (header : Value) (token : Token)
      → open_header lib app_id (head, payload, signature) header ≡ ok token
      → (opt_get header "alg" ≡ str "ES256")
        × (truthy (opt_get header "kid") ≡ true)
        × (record {
          head = head;
          payload = payload;
          signature = signature;
          kid = opt_get header "kid";
        }
            ≡ token)
  open_header-ok head payload signature header token h =
      let alg = is_text_iff (opt_get header "alg") "ES256" in ground (arith, alg)

  pub open_token-IsOpened :
      (authorization : Option String) (token : Token)
      → open_token lib app_id authorization ≡ ok token
      → IsOpened authorization token
  unfolding open_token
  open_token-IsOpened authorization token h =
      let (bearer, borne, h') = >>=-eq-ok (or_throw (bearer_of authorization) _) _ h in
      let ((head, payload, signature), parts, h'') =
        >>=-eq-ok (or_throw (three_parts (split b'.' bearer)) _) _ h' in
      let (header, decoded, opened) = >>=-eq-ok (parse_segment lib app_id head "header") _ h'' in
      let (alg, there, same) = open_header-ok head payload signature header token opened in
      record {
        bearer = bearer;
        header = header;
        borne = or_throw-ok _ _ borne;
        parts =
            subst (λ t. three_parts (split b'.' bearer) ≡ some (t.head, t.payload, t.signature))
              same (or_throw-ok _ _ parts);
        decoded =
            subst (λ t. lib.decode_json t.head ≡ some header) same
              (parse_segment-ok head "header" header decoded);
        algorithm = alg;
        key_id = ap (λ t. t.kid) same;
        key_id_there = subst (λ t. truthy t.kid ≡ true) same there;
      }

  read_claims-IsClaimed :
      (now : ℕ) (claims : Value) (identity : Identity)
      → read_claims lib app_id now claims ≡ ok identity
      → IsClaimed now claims identity
  unfolding read_claims audience_matches
  read_claims-IsClaimed now claims identity h =
      let (u1, issuer, h1) =
        >>=-eq-ok (require (is_text (opt_get claims "iss") privy_issuer) _) _ h in
      let (u2, audience, h2) =
        >>=-eq-ok (require (any (λ v. is_text v app_id) (candidates (opt_get claims "aud"))) _) _
          h1 in
      let (u3, expiry, h3) =
        >>=-eq-ok
          (require
            (is_number (opt_get claims "exp")
              && not (at_least (minus (now / 1000) clock_skew_sec) (opt_get claims "exp")))
            _)
          _ h2 in
      let (u4, start, h4) =
        >>=-eq-ok
          (require
            (not (
              is_number (opt_get claims "nbf")
              && less_than (pos (now / 1000 + clock_skew_sec)) (opt_get claims "nbf")))
            _)
          _ h3 in
      let (u5, subject, h5) = >>=-eq-ok (require (truthy (opt_get claims "sub")) _) _ h4 in
      let expires = require-ok _ _ expiry in
      record {
        issuer = (is_text_iff _ _).0 (require-ok _ _ issuer);
        audience = any-text-mem app_id _ (require-ok _ _ audience);
        expiry = ground arith;
        not_expired = ground arith;
        started = not_and (require-ok _ _ start);
        subject_there = require-ok _ _ subject;
        subject = sym (ap (λ i. i.sub) (identity-inj h5));
      }

  pub check_token-IsClaimed :
      (now : ℕ) (key : Key) (token : Token) (identity : Identity)
      → check_token lib app_id now key token ≡ ok identity
      → (claims : Value) × (lib.check_signature key (signed_text lib app_id token) token.signature
          ≡ ok true)
        × (lib.decode_json token.payload ≡ some claims)
        × IsClaimed now claims identity
  unfolding check_token
  check_token-IsClaimed now key token identity h =
      let (u, signed, h') =
        >>=-eq-ok
          (checked_signature lib app_id
            (lib.check_signature key (signed_text lib app_id token) token.signature))
          _ h in
      let (claims, decoded, read) =
        >>=-eq-ok (parse_segment lib app_id token.payload "payload") _ h' in
      (
        claims,
        checked_signature-ok _ signed,
        parse_segment-ok token.payload "payload" claims decoded,
        read_claims-IsClaimed now claims identity read,
      )
