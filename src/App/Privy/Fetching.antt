-- ===== src/App/Privy/Fetching.antt =====
-- When `loadJwks` of examples/privy-google-aa/server/privy-auth.mjs fetches.
use account_abstraction.Base.{
  ℕ, ◌-◌, ◌<◌, String, ◌≡◌, ◌⊎◌, inl, inr, refl, sym, ap, subst, ◌∙◌, true, false, Option, none,
  some, List, [], ◌∷◌, ltb, length, Result, ok, err, Bool-cases, if_cases, if_both, clash, arith,
}
use account_abstraction.Js.Value.{Value}
use account_abstraction.Ethers.{Exn}
use account_abstraction.App.Privy.{
  KeyLibrary, Failure, JwksAnswer, Token, KeyCache, lookup_key, open_token, jwks_min_refetch_ms,
}
use account_abstraction.App.Privy.Keys.{
  Stage, first_load, second_load, Waiter, must_load, Verifier, Event, arrives, loaded, is_empty,
  must_refetch, key_after, key_for, proceed, resume, resume_all, fail_all, load_keys, end_load,
  arrive, step,
}

grown : {t : ℕ} (fs : List ℕ) → fs ≡ t ∷ fs → ⊥
grown fs h = omega (arith, ap length h)

newest : {t u : ℕ} {fs gs : List ℕ} → t ∷ fs ≡ u ∷ gs → t ≡ u
newest h = cc

module _ {Key : Type 0} (lib : KeyLibrary Key) (app_id url : String) where
  -- A fetch at this time does not follow the last one too closely.
  abbrev pub IsSpaced : KeyCache Key → ℕ → Type 0
  IsSpaced cache t = jwks_min_refetch_ms < t - cache.fetched_at

  -- Nothing fetched since, or one fetch that is spaced.
  abbrev Since : List ℕ → Verifier Key → Type 0
  Since fs v =
      (v.fetches ≡ fs)
      ⊎ ((t : ℕ) × (v.fetches ≡ t ∷ fs) × (v.cache.in_flight ≡ true) × IsSpaced v.cache t)

  wait-Since :
      (fs : List ℕ) (now : ℕ) (w : Waiter) (stage : Stage) (v : Verifier Key)
      → IsSpaced v.cache now
      → (v.fetches ≡ fs)
        ⊎ ((t : ℕ) × (v.fetches ≡ t ∷ fs) × (v.cache.in_flight ≡ true) × IsSpaced v.cache t)
      → Since fs (proceed lib app_id url now w (must_load stage) v)
  unfolding proceed
  wait-Since fs now w stage v spaced (inr (t, fetched, busy, s)) =
      inr (t, ground (arith, busy, fetched), refl, s)
  wait-Since fs now w stage v spaced (inl same) = elim (Bool-cases v.cache.in_flight) [
    | inl busy ↦ inl (ground (arith, busy, same))
    | inr idle ↦ inr (now, ground (arith, idle, same), refl, spaced)
  ]

  resume-Since :
      (fs : List ℕ) (now : ℕ) (w : Waiter) (stage : Stage) (v : Verifier Key) (looked : Option Key)
      → Since fs v
      → Since fs
          (proceed lib app_id url now w (key_after lib app_id url stage now v.cache looked) v)
  unfolding proceed
  resume-Since fs now w stage v (some key) s = s
  resume-Since fs now w second_load v none s = s
  resume-Since fs now w first_load v none s =
      if_cases (λ p. Since fs (proceed lib app_id url now w p v))
        (ltb jwks_min_refetch_ms (now - v.cache.fetched_at))
        (λ late. wait-Since fs now w second_load v (ground arith) s) (λ early. s)

  resume_all-Since :
      (fs : List ℕ) (now : ℕ) (ws : List Waiter) (v : Verifier Key)
      → Since fs v
      → Since fs (resume_all lib app_id url now ws v)
  unfolding resume_all resume
  resume_all-Since fs now [] v s = s
  resume_all-Since fs now (w ∷ ws) v s =
      resume_all-Since fs now ws _
        (resume-Since fs now w w.stage v (lookup_key w.token.kid v.cache.keys) s)

  fail_all-fetches :
      (now : ℕ) (x : Failure) (ws : List Waiter) (v : Verifier Key)
      → (fail_all lib app_id url now x ws v).fetches ≡ v.fetches
  unfolding fail_all
  fail_all-fetches now x [] v = refl
  fail_all-fetches now x (w ∷ ws) v = fail_all-fetches now x ws _

  IsSpaced-Since :
      (t : ℕ) (fs : List ℕ) (v : Verifier Key)
      → v.fetches ≡ t ∷ fs
      → Since fs v
      → IsSpaced v.cache t
  IsSpaced-Since t fs v fetched (inl same) = absurd (grown fs (sym same ∙ fetched))
  IsSpaced-Since t fs v fetched (inr (u, fetched', busy, s)) =
      rw (newest (sym fetched ∙ fetched')) s

  key_for-Since :
      (now : ℕ) (w : Waiter) (v : Verifier Key)
      → must_refetch lib app_id url v.cache now ≡ false
      → Since v.fetches
          (proceed lib app_id url now w (key_for lib app_id url now v.cache w.token.kid) v)
  unfolding key_for
  key_for-Since now w v fresh =
      rw fresh
        (resume-Since v.fetches now w first_load v (lookup_key w.token.kid v.cache.keys) (inl refl))

  end_load-Since :
      (read : Result Failure (List (Value × Key))) (now resumed : ℕ) (v : Verifier Key)
      → Since v.fetches (end_load lib app_id url read now resumed v)
  unfolding end_load
  end_load-Since (err x) now resumed v = inl (fail_all-fetches resumed x v.waiting _)
  end_load-Since (ok keys) now resumed v = resume_all-Since v.fetches resumed v.waiting _ (inl refl)

  stale-IsSpaced :
      (cache : KeyCache Key) (now : ℕ)
      → must_refetch lib app_id url cache now ≡ true
      → (is_empty cache.keys ≡ true) ⊎ IsSpaced cache now
  stale-IsSpaced cache now h = ground arith

  loads_now :
      (now t : ℕ) (w : Waiter) (stage : Stage) (v : Verifier Key)
      → (proceed lib app_id url now w (must_load stage) v).fetches ≡ t ∷ v.fetches
      → t ≡ now
  unfolding proceed
  loads_now now t w stage v h = elim (Bool-cases v.cache.in_flight) [
    | inl busy ↦ absurd (grown v.fetches (rw busy at h))
    | inr idle ↦ let fetched = rw idle at h in newest (sym fetched)
  ]

  -- A fetch that a call has caused is due.
  abbrev IsDue : Verifier Key → ℕ → Verifier Key → Type 0
  IsDue v t after =
      after.fetches ≡ t ∷ v.fetches → (is_empty v.cache.keys ≡ true) ⊎ IsSpaced after.cache t

  key_for-IsDue :
      (now t : ℕ) (w : Waiter) (v : Verifier Key)
      → IsDue v t (proceed lib app_id url now w (key_for lib app_id url now v.cache w.token.kid) v)
  unfolding key_for proceed
  key_for-IsDue now t w v =
      if_cases (λ p. IsDue v t (proceed lib app_id url now w p v))
        (must_refetch lib app_id url v.cache now)
        (λ stale h. rw (loads_now now t w first_load v h) (stale-IsSpaced v.cache now stale))
        (λ fresh h.
          let looked = lookup_key w.token.kid v.cache.keys in
          let later =
            proceed lib app_id url now w (key_after lib app_id url first_load now v.cache looked)
              v in
          inr (
            IsSpaced-Since t v.fetches later h
              (resume-Since v.fetches now w first_load v looked (inl refl))))

  arrive-IsDue :
      (id : ℕ) (authorization : Option String) (now t : ℕ) (opened : Result Failure Token)
      → (v : Verifier Key) → IsDue v t (arrive lib app_id url id authorization now opened v)
  arrive-IsDue id authorization now t (err x) v h = absurd (grown v.fetches h)
  arrive-IsDue id authorization now t (ok token) v h = key_for-IsDue now t _ v h

  -- A verifier that has keys fetches only more than thirty seconds after its last successful fetch,
  -- whatever calls arrive.
  pub step-IsSpaced :
      (event : Event) (v : Verifier Key) (t : ℕ)
      → is_empty v.cache.keys ≡ false
      → (step lib app_id url event v).fetches ≡ t ∷ v.fetches
      → IsSpaced (step lib app_id url event v).cache t
  unfolding step
  step-IsSpaced (arrives id authorization now) v t there h =
      elim (arrive-IsDue id authorization now t (open_token lib app_id authorization) v h) [
        | inl empty ↦ clash empty there
        | inr spaced ↦ spaced
      ]
  step-IsSpaced (loaded answer now resumed) v t there h =
      if_both (λ (after : Verifier Key). after.fetches ≡ t ∷ v.fetches → IsSpaced after.cache t)
        v.cache.in_flight
        (λ fetched.
          IsSpaced-Since t v.fetches
            (end_load lib app_id url (load_keys lib app_id url answer) now resumed v) fetched
            (end_load-Since (load_keys lib app_id url answer) now resumed v))
        (λ same. absurd (grown v.fetches same)) h

  fail_all-cache :
      (now : ℕ) (x : Failure) (ws : List Waiter) (v : Verifier Key)
      → (fail_all lib app_id url now x ws v).cache ≡ v.cache
  unfolding fail_all
  fail_all-cache now x [] v = refl
  fail_all-cache now x (w ∷ ws) v = fail_all-cache now x ws _

  -- Without keys, and with no fetch that runs.
  abbrev IsIdle : KeyCache Key → Type 0
  IsIdle cache = (is_empty cache.keys ≡ true) × (cache.in_flight ≡ false)

  failed_end :
      (read : Result Failure (List (Value × Key))) (x : Failure) (now resumed : ℕ)
      (v : Verifier Key)
      → read ≡ err x
      → is_empty v.cache.keys ≡ true
      → IsIdle (end_load lib app_id url read now resumed v).cache
        × ((end_load lib app_id url read now resumed v).fetches ≡ v.fetches)
  unfolding end_load
  failed_end (ok keys) x now resumed v failed empty = cc
  failed_end (err y) x now resumed v failed empty = (
    subst IsIdle (sym (fail_all-cache resumed y v.waiting _)) (empty, refl),
    fail_all-fetches resumed y v.waiting _,
  )

  idle-fetches :
      (id t : ℕ) (authorization : Option String) (opened : Result Failure Token) (token : Token)
      → (v : Verifier Key) → opened ≡ ok token
      → IsIdle v.cache
      → (arrive lib app_id url id authorization t opened v).fetches ≡ t ∷ v.fetches
  unfolding key_for proceed
  idle-fetches id t authorization (err x) token v read idle = cc
  idle-fetches id t authorization (ok token') token v read (empty, idle) =
      ground (arith, empty, idle)

  -- While the verifier has no keys, nothing spaces its fetches: after one that has failed, the next
  -- call whose token can be read fetches again, at whatever time it arrives.
  pub failed_load-fetches :
      (answer : Result Exn JwksAnswer) (now resumed id t : ℕ) (authorization : Option String)
      → (x : Failure) (token : Token) (v : Verifier Key) → v.cache.in_flight ≡ true
      → is_empty v.cache.keys ≡ true
      → load_keys lib app_id url answer ≡ err x
      → open_token lib app_id authorization ≡ ok token
      → (step lib app_id url
          (arrives id authorization t)
          (step lib app_id url (loaded answer now resumed) v)).fetches
        ≡ t ∷ v.fetches
  unfolding step
  failed_load-fetches answer now resumed id t authorization x token v busy empty failed opened =
      let (idle, same) =
        failed_end (load_keys lib app_id url answer) x now resumed v failed empty in
      let after = end_load lib app_id url (load_keys lib app_id url answer) now resumed v in
      let fetched =
        idle-fetches id t authorization (open_token lib app_id authorization) token after opened
          idle in
      if_cases
        (λ (u : Verifier Key).
          (arrive lib app_id url id authorization t (open_token lib app_id authorization) u).fetches
          ≡ t ∷ v.fetches)
        v.cache.in_flight (λ on. fetched ∙ ap (λ fs. t ∷ fs) same) (λ off. clash busy off)
