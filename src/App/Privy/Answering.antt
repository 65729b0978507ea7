-- ===== src/App/Privy/Answering.antt =====
-- That every call of `verify` of examples/privy-google-aa/server/privy-auth.mjs ends.
use account_abstraction.Base.{
  ℕ, suc, ◌+◌, ◌-◌, String, ◌≡◌, ◌⊎◌, inl, inr, refl, ap, ◌∙◌, true, false, Option, none, some,
  List, [], ◌∷◌, ltb, length, length-append, Result, ok, err, if_cases, if_both, clash, All,
  All-append, arith,
}
use account_abstraction.Js.Value.{Value}
use account_abstraction.Ethers.{Exn}
use account_abstraction.App.Privy.{
  KeyLibrary, Failure, JwksAnswer, Token, lookup_key, open_token, jwks_min_refetch_ms,
}
use account_abstraction.App.Privy.Keys.{
  Stage, first_load, second_load, Waiter, Progress, found, unknown, must_load, Verifier, Event,
  arrives, loaded, new_verifier, key_after, proceed, resume, resume_all, fail_all, load_keys,
  end_load, arrive, step, run,
}

abbrev IsSecond : Waiter → Type 0
IsSecond w = w.stage ≡ second_load

-- The calls of `verify` among events.
unfoldable pub calls : List Event → ℕ
calls [] = 0
calls (arrives id authorization now ∷ events) = suc (calls events)
calls (loaded answer now resumed ∷ events) = calls events

calls-cons :
    (event : Event) (events : List Event)
    → calls (event ∷ events) ≡ calls (event ∷ []) + calls events
unfolding calls
calls-cons (arrives id authorization now) events = omega arith
calls-cons (loaded answer now resumed) events = omega arith

module _ {Key : Type 0} (lib : KeyLibrary Key) (app_id url : String) where
  -- A call that waits does so for a fetch that runs.
  abbrev IsBusy : Verifier Key → Type 0
  IsBusy v = (v.waiting ≡ []) ⊎ (v.cache.in_flight ≡ true)

  abbrev total : Verifier Key → ℕ
  total v = length v.answers + length v.waiting

  proceed-IsBusy :
      (now : ℕ) (w : Waiter) (p : Progress Key) (v : Verifier Key)
      → IsBusy v
      → IsBusy (proceed lib app_id url now w p v)
  unfolding proceed
  proceed-IsBusy now w (found key) v b = b
  proceed-IsBusy now w unknown v b = b
  proceed-IsBusy now w (must_load stage) v b = inr refl

  total-proceed :
      (now : ℕ) (w : Waiter) (p : Progress Key) (v : Verifier Key)
      → total (proceed lib app_id url now w p v) ≡ suc (total v)
  unfolding proceed
  total-proceed now w (found key) v = omega arith
  total-proceed now w unknown v = omega arith
  total-proceed now w (must_load stage) v =
      omega (arith, length-append v.waiting (record w { stage = stage } ∷ []))

  IsSecond-waits :
      (now : ℕ) (w : Waiter) (stage : Stage) (looked : Option Key) (v : Verifier Key)
      → All IsSecond v.waiting
      → All IsSecond
          (proceed lib app_id url now w
            (key_after lib app_id url stage now v.cache looked)
            v).waiting
  unfolding proceed
  IsSecond-waits now w stage (some key) v s = s
  IsSecond-waits now w second_load none v s = s
  IsSecond-waits now w first_load none v s =
      if_cases (λ p. All IsSecond (proceed lib app_id url now w p v).waiting)
        (ltb jwks_min_refetch_ms (now - v.cache.fetched_at))
        (λ late. All-append IsSecond v.waiting _ s (refl, tt)) (λ early. s)

  -- What `resume_all` keeps: busyness, the calls that have waited twice, the number of calls.
  resume_all-keeps :
      (now : ℕ) (ws : List Waiter) (v : Verifier Key)
      → IsBusy v
      → All IsSecond v.waiting
      → IsBusy (resume_all lib app_id url now ws v)
        × All IsSecond (resume_all lib app_id url now ws v).waiting
        × (total (resume_all lib app_id url now ws v) ≡ length ws + total v)
  unfolding resume_all resume
  resume_all-keeps now [] v b s = (b, s, omega arith)
  resume_all-keeps now (w ∷ ws) v b s =
      let p = key_after lib app_id url w.stage now v.cache (lookup_key w.token.kid v.cache.keys) in
      let (b', s', t) =
        resume_all-keeps now ws (proceed lib app_id url now w p v) (proceed-IsBusy now w p v b)
          (IsSecond-waits now w w.stage (lookup_key w.token.kid v.cache.keys) v s) in
      (b', s', omega (arith, t, total-proceed now w p v))

  ends :
      (now : ℕ) (w : Waiter) (stage : Stage) (looked : Option Key) (v : Verifier Key)
      → stage ≡ second_load
      → (proceed lib app_id url now w (key_after lib app_id url stage now v.cache looked) v).waiting
        ≡ v.waiting
  unfolding proceed
  ends now w stage (some key) v s = refl
  ends now w second_load none v s = refl
  ends now w first_load none v s = cc

  -- A call that has waited twice does not wait again.
  resume_second :
      (now : ℕ) (ws : List Waiter) (v : Verifier Key)
      → All IsSecond ws
      → (resume_all lib app_id url now ws v).waiting ≡ v.waiting
  unfolding resume_all resume
  resume_second now [] v s = refl
  resume_second now (w ∷ ws) v (here, there) =
      resume_second now ws _ there ∙ ends now w w.stage (lookup_key w.token.kid v.cache.keys) v here

  fail_all-keeps :
      (now : ℕ) (x : Failure) (ws : List Waiter) (v : Verifier Key)
      → ((fail_all lib app_id url now x ws v).waiting ≡ v.waiting)
        × (total (fail_all lib app_id url now x ws v) ≡ length ws + total v)
  unfolding fail_all
  fail_all-keeps now x [] v = (refl, omega arith)
  fail_all-keeps now x (w ∷ ws) v = let (s, t) = fail_all-keeps now x ws _ in (s, omega (arith, t))

  -- What the end of a load keeps: it makes no call, and the calls that still wait do so for the
  -- second time.
  end_load-keeps :
      (read : Result Failure (List (Value × Key))) (now resumed : ℕ) (v : Verifier Key)
      → IsBusy (end_load lib app_id url read now resumed v)
        × All IsSecond (end_load lib app_id url read now resumed v).waiting
        × (total (end_load lib app_id url read now resumed v) ≡ total v)
  unfolding end_load
  end_load-keeps (err x) now resumed v =
      let (none_left, t) =
        fail_all-keeps resumed x v.waiting
          (record v { cache = record v.cache { in_flight = false }; waiting = [] }) in
      (inl none_left, rw none_left tt, omega (arith, t))
  end_load-keeps (ok keys) now resumed v =
      let (busy, second, t) =
        resume_all-keeps resumed v.waiting
          (record v {
            cache = record { keys = keys; fetched_at = now; in_flight = false };
            waiting = [];
          })
          (inl refl) tt in
      (busy, second, omega (arith, t))

  end_second :
      (read : Result Failure (List (Value × Key))) (now resumed : ℕ) (v : Verifier Key)
      → All IsSecond v.waiting
      → (end_load lib app_id url read now resumed v).waiting ≡ []
  unfolding end_load
  end_second (err x) now resumed v second = (fail_all-keeps resumed x v.waiting _).0
  end_second (ok keys) now resumed v second = resume_second resumed v.waiting _ second

  arrive-keeps :
      (id : ℕ) (authorization : Option String) (now : ℕ) (opened : Result Failure Token)
      → (v : Verifier Key) → IsBusy v
      → IsBusy (arrive lib app_id url id authorization now opened v)
        × (total (arrive lib app_id url id authorization now opened v) ≡ suc (total v))
  arrive-keeps id authorization now (err x) v b = (b, omega arith)
  arrive-keeps id authorization now (ok token) v b =
      (proceed-IsBusy now _ _ v b, total-proceed now _ _ v)

  step-keeps :
      (event : Event) (v : Verifier Key)
      → IsBusy v
      → IsBusy (step lib app_id url event v)
        × (total (step lib app_id url event v) ≡ calls (event ∷ []) + total v)
  unfolding step calls
  step-keeps (arrives id authorization now) v b =
      let (b', t) = arrive-keeps id authorization now (open_token lib app_id authorization) v b in
      (b', omega (arith, t))
  step-keeps (loaded answer now resumed) v b =
      let (b', second, t) = end_load-keeps (load_keys lib app_id url answer) now resumed v in
      if_both (λ (u : Verifier Key). IsBusy u × (total u ≡ 0 + total v)) v.cache.in_flight
        (b', omega (arith, t)) (b, omega arith)

  run-keeps :
      (events : List Event) (v : Verifier Key)
      → IsBusy v
      → IsBusy (run lib app_id url events v)
        × (total (run lib app_id url events v) ≡ calls events + total v)
  unfolding run calls
  run-keeps [] v b = (b, omega arith)
  run-keeps (event ∷ events) v b =
      let (b', t) = step-keeps event v b in
      let (b'', t') = run-keeps events (step lib app_id url event v) b' in
      (b'', omega (arith, t, t', calls-cons event events))

  -- Where the calls that wait do so for the second time, the end of a fetch leaves none of them.
  loaded-second :
      (answer : Result Exn JwksAnswer) (now resumed : ℕ) (v : Verifier Key)
      → IsBusy v
      → All IsSecond v.waiting
      → (step lib app_id url (loaded answer now resumed) v).waiting ≡ []
  unfolding step
  loaded-second answer now resumed v b second =
      if_cases (λ (u : Verifier Key). u.waiting ≡ []) v.cache.in_flight
        (λ on. end_second (load_keys lib app_id url answer) now resumed v second)
        (λ off. elim b [ inl none_left ↦ none_left | inr on ↦ clash on off ])

  loaded-IsSecond :
      (answer : Result Exn JwksAnswer) (now resumed : ℕ) (v : Verifier Key)
      → IsBusy v
      → IsBusy (step lib app_id url (loaded answer now resumed) v)
        × All IsSecond (step lib app_id url (loaded answer now resumed) v).waiting
  unfolding step
  loaded-IsSecond answer now resumed v b =
      let (b', second, t) = end_load-keeps (load_keys lib app_id url answer) now resumed v in
      if_cases (λ (u : Verifier Key). IsBusy u × All IsSecond u.waiting) v.cache.in_flight
        (λ on. (b', second))
        (λ off. elim b [ inl none_left ↦ (inl none_left, rw none_left tt) | inr on ↦ clash on off ])

  -- Whatever calls have arrived and whatever fetches have ended, once two more fetches have ended, no
  -- call waits and each has been answered once.
  pub run-answers :
      (events : List Event) (first second : Result Exn JwksAnswer) (t1 t2 t3 t4 : ℕ)
      → let v = run lib app_id url events (new_verifier Key) in
        let after =
          step lib app_id url (loaded second t3 t4) (step lib app_id url (loaded first t1 t2) v) in
        (after.waiting ≡ []) × (length after.answers ≡ calls events)
  unfolding calls
  run-answers events first second t1 t2 t3 t4 =
      let v = run lib app_id url events (new_verifier Key) in
      let (b, t) = run-keeps events (new_verifier Key) (inl refl) in
      let (b1, waits) = loaded-IsSecond first t1 t2 v b in
      let none_left =
        loaded-second second t3 t4 (step lib app_id url (loaded first t1 t2) v) b1 waits in
      let (b2, same) = step-keeps (loaded first t1 t2) v b in
      let (b3, same') =
        step-keeps (loaded second t3 t4) (step lib app_id url (loaded first t1 t2) v) b1 in
      (none_left, omega (arith, t, same, same', ap length none_left))
