-- ===== src/App/Privy/Trusted.antt =====
-- Whom `verify` of examples/privy-google-aa/server/privy-auth.mjs lets in, in any order of its calls
-- and of the ends of its fetches.
use account_abstraction.Base.{
  ℕ, String, ◌≡◌, inl, inr, refl, ap, subst, true, Option, none, some, List, [], ◌∷◌, Result, ok,
  err, >>=-eq-ok, Bool-cases, All, All-intro, All-append, some_inj, arith,
}
use mathlib.Core.List.{Memᴰ}
use account_abstraction.Js.Value.{Value, Items, arr, items, opt_get, truthy, is_nullish}
use account_abstraction.Ethers.{Exn}
use account_abstraction.App.Privy.{
  KeyLibrary, Failure, JwksAnswer, Token, Identity, KeyCache, lookup_key, same_key, signed_text,
}
use account_abstraction.App.Privy.Claims.{IsOpened, IsClaimed, check_token-IsClaimed}
use account_abstraction.App.Privy.Keys.{
  Stage, first_load, second_load, Waiter, Progress, found, unknown, must_load, Answer, Verifier,
  Event, loaded, key_after, give, proceed, with_key, read_keys, usable, jwks_of, load_keys,
}

abbrev loads : {Key : Type 0} → List (Value × Key) → Result Failure (List (Value × Key))
loads keys = ok keys

keys-inj : {Key : Type 0} {a b : List (Value × Key)} → loads a ≡ ok b → a ≡ b
keys-inj h = cc

abbrev finds : {Key : Type 0} → Key → Progress Key
finds key = found key

found-inj : {Key : Type 0} {a b : Key} → finds a ≡ found b → a ≡ b
found-inj h = cc

module _ {Key : Type 0} (lib : KeyLibrary Key) (app_id url : String) where
  -- A key of a JWKS that one of these events has brought.
  pub record IsPublished (events : List Event) (kid : Value) (key : Key) : Type 0 where
    pub answer : JwksAnswer
    pub now : ℕ
    pub resumed : ℕ
    pub jwks : Items
    pub jwk : Value
    pub brought : Memᴰ (loaded (ok answer) now resumed) events
    pub keys : opt_get answer.body "keys" ≡ arr jwks
    pub listed : Memᴰ jwk (items jwks)
    pub key_id : opt_get jwk "kid" ≡ kid
    pub imported : lib.import_key jwk ≡ some key

  -- The authorization bears a token that a published key has signed, whose claims hold at the time.
  pub record IsVerified (events : List Event) (authorization : Option String) (now : ℕ)
      (identity : Identity) : Type 0 where
    pub token : Token
    pub key_id : Value
    pub key : Key
    pub claims : Value
    pub opened : IsOpened lib app_id authorization token
    pub same_id : same_key key_id token.kid ≡ true
    pub published : IsPublished events key_id key
    pub signed : lib.check_signature key (signed_text lib app_id token) token.signature ≡ ok true
    pub decoded : lib.decode_json token.payload ≡ some claims
    pub claimed : IsClaimed lib app_id now claims identity

  module _ (events : List Event) where
    abbrev pub IsKey : Value × Key → Type 0
    IsKey (kid, key) = IsPublished events kid key

    abbrev pub IsWaiting : Waiter → Type 0
    IsWaiting w = IsOpened lib app_id w.authorization w.token

    abbrev pub IsRight : Answer → Type 0
    IsRight a =
        (identity : Identity)
        → a.result ≡ ok identity
        → IsVerified events a.authorization a.at identity

    pub record IsSound (v : Verifier Key) : Type 0 where
      pub keys : All IsKey v.cache.keys
      pub waiting : All IsWaiting v.waiting
      pub answers : All IsRight v.answers

    lookup_key-IsKey :
        (kid : Value) (keys : List (Value × Key)) (key : Key)
        → lookup_key kid keys ≡ some key
        → All IsKey keys
        → (k : Value) × (same_key k kid ≡ true) × IsPublished events k key
    lookup_key-IsKey kid [] key h all = cc
    lookup_key-IsKey kid ((k, key') ∷ keys) key h (here, there) =
        elim (Bool-cases (same_key k kid)) [
          | inl same ↦ (k, same, subst (IsPublished events k) (some_inj (rw same at h)) here)
          | inr other ↦ lookup_key-IsKey kid keys key (rw other at h) there
        ]

    with_key-IsKey :
        (kid : Value) (imported : Option Key) (keys : List (Value × Key))
        → ((key : Key) → imported ≡ some key → IsPublished events kid key)
        → All IsKey keys
        → All IsKey (with_key lib app_id url kid imported keys)
    with_key-IsKey kid none keys published all = all
    with_key-IsKey kid (some key) keys published all = (published key refl, all)

    -- Whatever a fetched key of this element would be is published.
    abbrev IsSource : Value → Type 0
    IsSource jwk =
        (key : Key) → lib.import_key jwk ≡ some key → IsPublished events (opt_get jwk "kid") key

    read_keys-IsKey :
        (jwks : List Value) (keys next : List (Value × Key))
        → All IsSource jwks
        → All IsKey keys
        → read_keys lib app_id url keys jwks ≡ ok next
        → All IsKey next
    unfolding read_keys
    read_keys-IsKey [] keys next from all h = subst (All IsKey) (keys-inj h) all
    read_keys-IsKey (jwk ∷ jwks) keys next (here, from) all h = elim (Bool-cases (is_nullish jwk)) [
      | inl null ↦ let got = rw null at h in cc
      | inr there ↦ elim (Bool-cases (truthy (opt_get jwk "kid"))) [
        | inr nameless ↦ read_keys-IsKey jwks keys next from all (rw (there, nameless) at h)
        | inl named ↦
            read_keys-IsKey jwks _ next from
              (with_key-IsKey (opt_get jwk "kid") (lib.import_key jwk) keys here all)
              (rw (there, named) at h)
      ]
    ]

    usable-ok :
        (keys next : List (Value × Key)) → usable lib app_id url keys ≡ ok next → keys ≡ next
    usable-ok [] next h = cc
    usable-ok (k ∷ keys) next h = keys-inj h

    jwks_of-IsKey :
        (answer : JwksAnswer) (now resumed : ℕ) (value : Value) (next : List (Value × Key))
        → Memᴰ (loaded (ok answer) now resumed) events
        → opt_get answer.body "keys" ≡ value
        → jwks_of lib app_id url value ≡ ok next
        → All IsKey next
    jwks_of-IsKey answer now resumed (arr jwks) next brought keys h =
        let (read, fetched, used) = >>=-eq-ok (read_keys lib app_id url [] (items jwks)) _ h in
        read_keys-IsKey (items jwks) [] next
          (All-intro IsSource (items jwks) (λ jwk listed key imported. record {
            answer = answer;
            now = now;
            resumed = resumed;
            jwks = jwks;
            jwk = jwk;
            brought = brought;
            keys = keys;
            listed = listed;
            key_id = refl;
            imported = imported;
          }))
          tt
          (subst (λ k. read_keys lib app_id url [] (items jwks) ≡ ok k) (usable-ok read next used)
            fetched)
    jwks_of-IsKey answer now resumed _ next brought keys h = cc

    pub load_keys-IsKey :
        (answer : Result Exn JwksAnswer) (now resumed : ℕ) (next : List (Value × Key))
        → Memᴰ (loaded answer now resumed) events
        → load_keys lib app_id url answer ≡ ok next
        → All IsKey next
    unfolding load_keys
    load_keys-IsKey (err x) now resumed next brought h = cc
    load_keys-IsKey (ok answer) now resumed next brought h = elim (Bool-cases answer.passed) [
      | inl passed ↦
          jwks_of-IsKey answer now resumed (opt_get answer.body "keys") next brought refl
            (rw passed at h)
      | inr failed ↦ let got = rw failed at h in cc
    ]

    pub give_error-IsSound :
        (id : ℕ) (authorization : Option String) (now : ℕ) (x : Failure) (v : Verifier Key)
        → IsSound v
        → IsSound (give lib app_id url id authorization now (err x) v)
    give_error-IsSound id authorization now x v s = record {
      keys = s.keys;
      waiting = s.waiting;
      answers = (λ identity h. cc, s.answers);
    }

    pub key_after-found :
        (stage : Stage) (now : ℕ) (cache : KeyCache Key) (looked : Option Key) (key : Key)
        → key_after lib app_id url stage now cache looked ≡ found key
        → looked ≡ some key
    key_after-found stage now cache (some k) key h = ap some (found-inj h)
    key_after-found first_load now cache none key h = ground arith
    key_after-found second_load now cache none key h = cc

    pub proceed-IsSound :
        (now : ℕ) (w : Waiter) (progress : Progress Key) (v : Verifier Key)
        → ((key : Key) → progress ≡ found key → lookup_key w.token.kid v.cache.keys ≡ some key)
        → IsWaiting w
        → IsSound v
        → IsSound (proceed lib app_id url now w progress v)
    unfolding proceed
    proceed-IsSound now w unknown v from opened s =
        give_error-IsSound w.id w.authorization now _ v s
    proceed-IsSound now w (must_load stage) v from opened s = record {
      keys = s.keys;
      waiting = All-append IsWaiting v.waiting _ s.waiting (opened, tt);
      answers = s.answers;
    }
    proceed-IsSound now w (found key) v from opened s = record {
      keys = s.keys;
      waiting = s.waiting;
      answers = (
        λ identity h.
            let (k, same, published) =
              lookup_key-IsKey w.token.kid v.cache.keys key (from key refl) s.keys in
            let (claims, signed, decoded, claimed) =
              check_token-IsClaimed lib app_id now key w.token identity h in
            record {
              token = w.token;
              key_id = k;
              key = key;
              claims = claims;
              opened = opened;
              same_id = same;
              published = published;
              signed = signed;
              decoded = decoded;
              claimed = claimed;
            },
        s.answers,
      );
    }
