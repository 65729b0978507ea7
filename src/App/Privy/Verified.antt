-- ===== src/App/Privy/Verified.antt =====
-- Whom `verify` of examples/privy-google-aa/server/privy-auth.mjs lets in, in any order of its calls
-- and of the ends of its fetches.
use account_abstraction.Base.{
  ℕ, String, ◌≡◌, inl, inr, refl, Option, some, List, [], ◌∷◌, Result, ok, err, Bool-cases, All,
  All-intro, if_both,
}
use mathlib.Core.List.{Memᴰ}
use account_abstraction.Js.Value.{Value}
use account_abstraction.App.Privy.{KeyLibrary, Failure, Token, KeyCache, lookup_key, open_token}
use account_abstraction.App.Privy.Claims.{open_token-IsOpened}
use account_abstraction.App.Privy.Keys.{
  first_load, Waiter, found, Verifier, Event, arrives, loaded, new_verifier, must_refetch, key_for,
  resume, resume_all, fail_all, load_keys, end_load, arrive, step, run,
}
use account_abstraction.App.Privy.Trusted.{
  IsKey, IsWaiting, IsRight, IsSound, load_keys-IsKey, give_error-IsSound, key_after-found,
  proceed-IsSound,
}

module _ {Key : Type 0} (lib : KeyLibrary Key) (app_id url : String) (events : List Event) where
  resume-IsSound :
      (now : ℕ) (w : Waiter) (v : Verifier Key)
      → IsWaiting lib app_id url events w
      → IsSound lib app_id url events v
      → IsSound lib app_id url events (resume lib app_id url now w v)
  unfolding resume
  resume-IsSound now w v opened s =
      proceed-IsSound lib app_id url events now w _ v
        (λ key h. key_after-found lib app_id url events w.stage now v.cache _ key h) opened s

  resume_all-IsSound :
      (now : ℕ) (ws : List Waiter) (v : Verifier Key)
      → All (IsWaiting lib app_id url events) ws
      → IsSound lib app_id url events v
      → IsSound lib app_id url events (resume_all lib app_id url now ws v)
  unfolding resume_all
  resume_all-IsSound now [] v all s = s
  resume_all-IsSound now (w ∷ ws) v (here, there) s =
      resume_all-IsSound now ws _ there (resume-IsSound now w v here s)

  fail_all-IsSound :
      (now : ℕ) (x : Failure) (ws : List Waiter) (v : Verifier Key)
      → IsSound lib app_id url events v
      → IsSound lib app_id url events (fail_all lib app_id url now x ws v)
  unfolding fail_all
  fail_all-IsSound now x [] v s = s
  fail_all-IsSound now x (w ∷ ws) v s =
      fail_all-IsSound now x ws _
        (give_error-IsSound lib app_id url events w.id w.authorization now x v s)

  end_load-IsSound :
      (read : Result Failure (List (Value × Key))) (now resumed : ℕ) (v : Verifier Key)
      → ((keys : List (Value × Key)) → read ≡ ok keys → All (IsKey lib app_id url events) keys)
      → IsSound lib app_id url events v
      → IsSound lib app_id url events (end_load lib app_id url read now resumed v)
  unfolding end_load
  end_load-IsSound (err x) now resumed v published s =
      fail_all-IsSound resumed x v.waiting _
        (record { keys = s.keys; waiting = tt; answers = s.answers })
  end_load-IsSound (ok keys) now resumed v published s =
      resume_all-IsSound resumed v.waiting _ s.waiting
        (record { keys = published keys refl; waiting = tt; answers = s.answers })

  key_for-found :
      (now : ℕ) (cache : KeyCache Key) (kid : Value) (key : Key)
      → key_for lib app_id url now cache kid ≡ found key
      → lookup_key kid cache.keys ≡ some key
  unfolding key_for
  key_for-found now cache kid key h = elim (Bool-cases (must_refetch lib app_id url cache now)) [
    | inl load ↦ let got = rw load at h in cc
    | inr fresh ↦ key_after-found lib app_id url events first_load now cache _ key (rw fresh at h)
  ]

  arrive-IsSound :
      (id : ℕ) (authorization : Option String) (now : ℕ) (opened : Result Failure Token)
      → (v : Verifier Key) → open_token lib app_id authorization ≡ opened
      → IsSound lib app_id url events v
      → IsSound lib app_id url events (arrive lib app_id url id authorization now opened v)
  arrive-IsSound id authorization now (err x) v h s =
      give_error-IsSound lib app_id url events id authorization now x v s
  arrive-IsSound id authorization now (ok token) v h s =
      proceed-IsSound lib app_id url events now _ _ v (key_for-found now v.cache token.kid)
        (open_token-IsOpened lib app_id authorization token h) s

  step-IsSound :
      (event : Event) (v : Verifier Key)
      → Memᴰ event events
      → IsSound lib app_id url events v
      → IsSound lib app_id url events (step lib app_id url event v)
  unfolding step
  step-IsSound (arrives id authorization now) v m s =
      arrive-IsSound id authorization now (open_token lib app_id authorization) v refl s
  step-IsSound (loaded answer now resumed) v m s =
      if_both (IsSound lib app_id url events) v.cache.in_flight
        (end_load-IsSound (load_keys lib app_id url answer) now resumed v
          (λ keys h. load_keys-IsKey lib app_id url events answer now resumed keys m h) s)
        s

  run-IsSound :
      (rest : List Event) (v : Verifier Key)
      → All (λ e. Memᴰ e events) rest
      → IsSound lib app_id url events v
      → IsSound lib app_id url events (run lib app_id url rest v)
  unfolding run
  run-IsSound [] v all s = s
  run-IsSound (event ∷ rest) v (here, there) s =
      run-IsSound rest _ there (step-IsSound event v here s)

module _ {Key : Type 0} (lib : KeyLibrary Key) (app_id url : String) where
  -- In any order of its calls and of the ends of its fetches, whenever the verifier names a user, the
  -- authorization bore a token for this application that is of Privy, in its time, on that user, and
  -- signed under a key that a fetch of the JWKS had brought.
  pub run-IsVerified :
      (events : List Event)
      → All (IsRight lib app_id url events) (run lib app_id url events (new_verifier Key)).answers
  run-IsVerified events =
      (run-IsSound lib app_id url events events (new_verifier Key)
        (All-intro (λ e. Memᴰ e events) events (λ e m. m))
        (record { keys = tt; waiting = tt; answers = tt })).answers
