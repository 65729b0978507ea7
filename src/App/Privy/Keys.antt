-- ===== src/App/Privy/Keys.antt =====
-- `loadJwks`, `keyFor` and `verify` of examples/privy-google-aa/server/privy-auth.mjs as steps: a
-- request arrives, and the fetch that runs is answered. Requests that need a fetch share the one
-- that runs, and go on in their order once it has ended.
use account_abstraction.Base.{
  ℕ, ◌-◌, String, Bool, true, false, ◌||◌, Option, none, some, List, [], ◌∷◌, ◌++◌, ltb, Result, ok,
  err, ◌>>=◌, if◌then◌else◌,
}
use account_abstraction.Js.Value.{Value, arr, opt_get, truthy, is_nullish, items}
use account_abstraction.Js.Text.{template, to_text, decimal}
use account_abstraction.Ethers.{Exn, plain_error}
use account_abstraction.App.Privy.{
  KeyLibrary, Failure, auth_error, other_error, JwksAnswer, Token, Identity, KeyCache, lookup_key,
  jwks_ttl_ms, jwks_min_refetch_ms, open_token, check_token,
}

-- Which of the two loads of `keyFor` a request waits for.
pub data Stage : Type 0 where
  first_load second_load : Stage

-- A call of `verify` that waits; `id` tells the calls apart.
pub record Waiter : Type 0 where
  pub id : ℕ
  pub authorization : Option String
  pub token : Token
  pub stage : Stage

-- How far `keyFor` gets without waiting.
pub data Progress (Key : Type 0) : Type 0 where
  found : Key → Progress Key
  unknown : Progress Key
  must_load : Stage → Progress Key

-- What a call of `verify` ends with.
pub record Answer : Type 0 where
  pub id : ℕ
  pub authorization : Option String
  pub at : ℕ
  pub result : Result Failure Identity

-- The verifier, the calls that wait in their order, and what has been seen of it: the answers and
-- the times at which it fetched, the newest first.
pub record Verifier (Key : Type 0) : Type 0 where
  pub cache : KeyCache Key
  pub waiting : List Waiter
  pub answers : List Answer
  pub fetches : List ℕ

-- A call of `verify` at a time; the end of the fetch that runs, with the time that `loadJwks` reads
-- and the time at which the calls that waited go on.
pub data Event : Type 0 where
  arrives : ℕ → Option String → ℕ → Event
  loaded : Result Exn JwksAnswer → ℕ → ℕ → Event

abbrev pub is_empty {ℓ} : {A : Type ℓ} → List A → Bool
is_empty [] = true
is_empty (x ∷ xs) = false

-- `createPrivyVerifier`, before its first call
abbrev pub new_verifier : (Key : Type 0) → Verifier Key
new_verifier Key = record {
  cache = record { keys = []; fetched_at = 0; in_flight = false };
  waiting = [];
  answers = [];
  fetches = [];
}

module _ {Key : Type 0} (lib : KeyLibrary Key) (app_id url : String) where
  abbrev pub with_key : Value → Option Key → List (Value × Key) → List (Value × Key)
  with_key kid none keys = keys
  with_key kid (some key) keys = (kid, key) ∷ keys

  -- The loop of `loadJwks`.
  unfoldable pub read_keys : List (Value × Key) → List Value → Result Failure (List (Value × Key))
  read_keys keys [] = ok keys
  read_keys keys (jwk ∷ jwks) =
      let kid = opt_get jwk "kid" in
      let without = read_keys keys jwks in
      let rest = read_keys (with_key kid (lib.import_key jwk) keys) jwks in
      if is_nullish jwk
      then err (other_error (plain_error "Cannot read properties of null (reading 'kid')"))
      else if truthy kid
      then rest
      else without

  abbrev pub usable : List (Value × Key) → Result Failure (List (Value × Key))
  usable keys = if is_empty keys then err (auth_error "Privy JWKS has no usable keys") else ok keys

  abbrev pub jwks_of : Value → Result Failure (List (Value × Key))
  jwks_of (arr jwks) = do keys ← read_keys [] (items jwks); usable keys
  jwks_of _ = err (auth_error "Privy JWKS has no keys")

  -- The keys that `loadJwks` gets from an answer.
  unfoldable pub load_keys : Result Exn JwksAnswer → Result Failure (List (Value × Key))
  load_keys (err x) =
      err (auth_error (template ("cannot reach the Privy JWKS at " ∷ url ∷ ": " ∷ x.message ∷ [])))
  load_keys (ok answer) =
      if answer.passed
      then jwks_of (opt_get answer.body "keys")
      else err (auth_error (template ("Privy JWKS returned " ∷ decimal answer.status ∷ [])))

  -- `keyFor` after its first load, or after its second.
  abbrev pub key_after : Stage → ℕ → KeyCache Key → Option Key → Progress Key
  key_after stage now cache (some key) = found key
  key_after first_load now cache none =
      if ltb jwks_min_refetch_ms (now - cache.fetched_at) then must_load second_load else unknown
  key_after second_load now cache none = unknown

  -- Whether `keyFor` begins with a load.
  abbrev pub must_refetch : KeyCache Key → ℕ → Bool
  must_refetch cache now = is_empty cache.keys || ltb jwks_ttl_ms (now - cache.fetched_at)

  -- `keyFor` up to its first load.
  unfoldable pub key_for : ℕ → KeyCache Key → Value → Progress Key
  key_for now cache kid =
      if must_refetch cache now
      then must_load first_load
      else key_after first_load now cache (lookup_key kid cache.keys)

  abbrev pub give : ℕ → Option String → ℕ → Result Failure Identity → Verifier Key → Verifier Key
  give id authorization now result v = record v {
    answers =
        (record { id = id; authorization = authorization; at = now; result = result }) ∷ v.answers;
  }

  -- `loadJwks` up to its fetch, for a call that then waits.
  abbrev pub wait_for_load : ℕ → Waiter → Verifier Key → Verifier Key
  wait_for_load now w v = record v {
    cache = record v.cache { in_flight = true };
    waiting = v.waiting ++ w ∷ [];
    fetches = if v.cache.in_flight then v.fetches else now ∷ v.fetches;
  }

  unknown_key : Token → Failure
  unknown_key token =
      auth_error
        (template ("privy token signed with an unknown key (kid=" ∷ to_text token.kid ∷ ")" ∷ []))

  -- What a call does with the outcome of `keyFor`.
  unfoldable pub proceed : ℕ → Waiter → Progress Key → Verifier Key → Verifier Key
  unfolding unknown_key
  proceed now w (found key) v =
      give w.id w.authorization now (check_token lib app_id now key w.token) v
  proceed now w unknown v = give w.id w.authorization now (err (unknown_key w.token)) v
  proceed now w (must_load stage) v = wait_for_load now (record w { stage = stage }) v

  -- The call goes on after a load.
  unfoldable pub resume : ℕ → Waiter → Verifier Key → Verifier Key
  resume now w v =
      proceed now w (key_after w.stage now v.cache (lookup_key w.token.kid v.cache.keys)) v

  unfoldable pub resume_all : ℕ → List Waiter → Verifier Key → Verifier Key
  resume_all now [] v = v
  resume_all now (w ∷ ws) v = resume_all now ws (resume now w v)

  unfoldable pub fail_all : ℕ → Failure → List Waiter → Verifier Key → Verifier Key
  fail_all now x [] v = v
  fail_all now x (w ∷ ws) v = fail_all now x ws (give w.id w.authorization now (err x) v)

  -- The end of `loadJwks`.
  unfoldable pub end_load :
      Result Failure (List (Value × Key)) → ℕ → ℕ → Verifier Key → Verifier Key
  end_load (err x) now resumed v =
      fail_all resumed x v.waiting
        (record v { cache = record v.cache { in_flight = false }; waiting = [] })
  end_load (ok keys) now resumed v = resume_all resumed v.waiting (record v {
    cache = record { keys = keys; fetched_at = now; in_flight = false };
    waiting = [];
  })

  abbrev pub arrive : ℕ → Option String → ℕ → Result Failure Token → Verifier Key → Verifier Key
  arrive id authorization now (err x) v = give id authorization now (err x) v
  arrive id authorization now (ok token) v =
      proceed now
        (record { id = id; authorization = authorization; token = token; stage = first_load })
        (key_for now v.cache token.kid) v

  unfoldable pub step : Event → Verifier Key → Verifier Key
  step (arrives id authorization now) v =
      arrive id authorization now (open_token lib app_id authorization) v
  step (loaded answer now resumed) v =
      if v.cache.in_flight then end_load (load_keys answer) now resumed v else v

  unfoldable pub run : List Event → Verifier Key → Verifier Key
  run [] v = v
  run (event ∷ events) v = run events (step event v)
