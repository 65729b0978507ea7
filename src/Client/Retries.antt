-- ===== src/Client/Retries.antt =====
-- How often `bundlerSend` of examples/privy-google-aa/src/userOp.ts posts an operation, and how often
-- it logs in.
use account_abstraction.Base.{
  ℕ, suc, ◌+◌, ◌≤◌, ◌≡◌, ◌⊎◌, inl, inr, refl, String, Bool, true, false, not, ◌&&◌, Option, List,
  [], ◌∷◌, Result, ok, err, if_both, Bool-cases, arith,
}
use account_abstraction.Js.Value.{Value}
use account_abstraction.Js.Num.{whole, num_ltb}
use account_abstraction.Client.Browser.{
  ClientError, Call, post_session, post_rpc, HttpAnswer, Browser, Page, continue_with, recover,
  attempt, fetching,
}
use account_abstraction.Client.Session.{
  read_session, asking, required_identity, renewing, unreachable, posting, with_answer, with_token,
  with_identity, log_in, create_session, ensure_session,
}
use account_abstraction.Client.Rpc.{is_unauthorized, rpc, proxy_endpoint, retry, bundler_send}

-- The authenticated posts, and the logins, among calls.
abbrev pub sends : List Call → ℕ
sends [] = 0
sends (post_rpc true method params ∷ calls) = suc (sends calls)
sends (c ∷ calls) = sends calls

abbrev pub logins : List Call → ℕ
logins [] = 0
logins (post_session token ∷ calls) = suc (logins calls)
logins (c ∷ calls) = logins calls

-- Properties of the page along `>>=` and `attempt`.
continue-keeps :
    {A B : Type 0} (P Q : Page → Type 0) (r : Result ClientError A × Page)
    → (next : A → Page → Result ClientError B × Page) → P r.1
    → ((p : Page) → P p → Q p)
    → ((a : A) (p : Page) → P p → Q (next a p).1)
    → Q (continue_with next r).1
continue-keeps P Q (ok a, p) next h weaken each = each a p h
continue-keeps P Q (err x, p) next h weaken each = weaken p h

recover-keeps :
    {A : Type 0} (P Q : Page → Type 0) (r : Result ClientError A × Page)
    → (handler : ClientError → Page → Result ClientError A × Page) → P r.1
    → ((p : Page) → P p → Q p)
    → ((x : ClientError) (p : Page) → P p → Q (handler x p).1)
    → Q (recover handler r).1
recover-keeps P Q (ok a, p) handler h weaken each = weaken p h
recover-keeps P Q (err x, p) handler h weaken each = each x p h

abbrev failed : ClientError → Result ClientError Value
failed x = err x

-- From so many posts and logins on: one post at most, or two of which the first failed as unauthorized;
-- and two logins at most.
abbrev Resent : ℕ → ℕ → Result ClientError Value → Page → Type 0
Resent m n first after =
    (logins after.trace ≤ n + 2)
    × ((sends after.trace ≤ m + 1)
        ⊎ ((sends after.trace ≡ m + 2)
            × ((x : ClientError) × (first ≡ err x) × (is_unauthorized x.code ≡ true))))

module _ (browser : Browser) (api_base : String) where
  -- The calls that a page has made since are these.
  abbrev Sent : ℕ → ℕ → Page → Type 0
  Sent m n p = (sends p.trace ≡ m) × (logins p.trace ≤ n)

  Sent-more : (m n : ℕ) (p : Page) → Sent m n p → Sent m (n + 1) p
  Sent-more m n p (same, low) = (same, omega (arith, low))

  with_answer-Sent :
      (m n : ℕ) (answer : HttpAnswer) (p : Page)
      → Sent m n p
      → Sent m n (with_answer browser api_base answer p).1
  with_answer-Sent m n answer p s =
      continue-keeps (Sent m n) (Sent m n) (read_session browser api_base answer, p)
        (renewing browser api_base) s (λ q t. t) (λ v q t. t)

  with_token-Sent :
      (m n : ℕ) (token : String) (p : Page)
      → Sent m n p
      → Sent m (n + 1) (with_token browser api_base token p).1
  with_token-Sent m n token p (same, low) =
      continue-keeps (Sent m (n + 1)) (Sent m (n + 1)) (posting browser api_base token p)
        (with_answer browser api_base)
        (recover-keeps (Sent m (n + 1)) (Sent m (n + 1)) (fetching browser (post_session token) p)
          (unreachable browser api_base) (same, omega (arith, low)) (λ q t. t) (λ x q t. t))
        (λ q t. t) (λ answer q t. with_answer-Sent m (n + 1) answer q t)

  with_identity-Sent :
      (m n : ℕ) (identity : Option String) (p : Page)
      → Sent m n p
      → Sent m (n + 1) (with_identity browser api_base identity p).1
  with_identity-Sent m n identity p s =
      continue-keeps (Sent m n) (Sent m (n + 1)) (required_identity browser api_base identity, p)
        (with_token browser api_base) s (Sent-more m n) (λ token q t. with_token-Sent m n token q t)

  log_in-Sent : (m n : ℕ) (p : Page) → Sent m n p → Sent m (n + 1) (log_in browser api_base p).1
  log_in-Sent m n p s =
      continue-keeps (Sent m n) (Sent m (n + 1)) (asking browser api_base p)
        (with_identity browser api_base) s (Sent-more m n)
        (λ identity q t. with_identity-Sent m n identity q t)

  create_session-Sent :
      (m n : ℕ) (p : Page) → Sent m n p → Sent m (n + 1) (create_session browser api_base p).1
  unfolding create_session
  create_session-Sent m n p (same, low) =
      if_both (λ (r : Result ClientError (Unit {0}) × Page). Sent m (n + 1) r.1) p.has_provider
        (log_in-Sent m n p (same, low)) (same, omega (arith, low))

  ensure_session-Sent :
      (force : Bool) (m n : ℕ) (p : Page)
      → Sent m n p
      → Sent m (n + 1) (ensure_session browser api_base force p).1
  unfolding ensure_session
  ensure_session-Sent force m n p (same, low) =
      if_both (λ (r : Result ClientError (Unit {0}) × Page). Sent m (n + 1) r.1)
        (not force && num_ltb (whole (browser.now p.trace)) p.expires_at) (same, omega (arith, low))
        (create_session-Sent m n p (same, low))

  rpc-trace :
      (url method : String) (params : Value) (p : Page)
      → (rpc browser url true method params p).1.trace ≡ post_rpc true method params ∷ p.trace
  unfolding rpc
  rpc-trace url method params p =
      continue-keeps (λ q. q.trace ≡ post_rpc true method params ∷ p.trace)
        (λ q. q.trace ≡ post_rpc true method params ∷ p.trace)
        (fetching browser (post_rpc true method params) p) _ refl (λ q h. h) (λ answer q h. h)

  rpc-Sent :
      (url method : String) (params : Value) (m n : ℕ) (p : Page)
      → Sent m n p
      → Sent (m + 1) n (rpc browser url true method params p).1
  rpc-Sent url method params m n p (same, low) =
      let made = rpc-trace url method params p in rw made (omega (arith, same), low)

  -- So many logins at most, and one post more than m at most, or two.
  abbrev Retried : ℕ → ℕ → Page → Type 0
  Retried m n p = (logins p.trace ≤ n + 2) × ((sends p.trace ≤ m + 1) ⊎ (sends p.trace ≡ m + 2))

  second_post :
      (method : String) (params : Value) (m n : ℕ) (p : Page)
      → Sent (m + 1) (n + 1) p
      → Retried m n
          (continue_with
            (λ done. rpc browser (proxy_endpoint browser api_base) true method params)
            (ensure_session browser api_base true p)).1
  second_post method params m n p s =
      continue-keeps (Sent (m + 1) (n + 1 + 1)) (Retried m n)
        (ensure_session browser api_base true p)
        (λ done. rpc browser (proxy_endpoint browser api_base) true method params)
        (ensure_session-Sent true (m + 1) (n + 1) p s)
        (λ q (same, low). (omega (arith, low), inl (omega (arith, same))))
        (λ done q t.
          let (same, low) =
            rpc-Sent (proxy_endpoint browser api_base) method params (m + 1) (n + 1 + 1) q t in
          (omega (arith, low), inr (omega (arith, same))))

  -- The outcome of the attempt, on what its first post brings.
  after_post :
      (method : String) (params : Value) (m n : ℕ) (r : Result ClientError Value × Page)
      → Sent (m + 1) (n + 1) r.1
      → Resent m n r.0 (recover (retry browser api_base method params) r).1
  after_post method params m n (ok v, p) (same, low) =
      (omega (arith, low), inl (omega (arith, same)))
  after_post method params m n (err x, p) (same, low) = elim (Bool-cases (is_unauthorized x.code)) [
    | inr other ↦ rw other (omega (arith, low), inl (omega (arith, same)))
    | inl expired ↦
        let (few, posts) = second_post method params m n p (same, low) in
        let why : (y : ClientError) × (failed x ≡ err y) × (is_unauthorized y.code ≡ true) =
          (x, refl, expired) in
        rw expired (few, elim posts [ inl one ↦ inl one | inr two ↦ inr (two, why) ])
  ]

  abbrev posted : String → Value → Page → Result ClientError Value × Page
  posted method params = rpc browser (proxy_endpoint browser api_base) true method params

  after_login :
      (method : String) (params : Value) (m n : ℕ) (r : Result ClientError (Unit {0}) × Page)
      → Sent m (n + 1) r.1
      → Resent m n
          (posted method params r.1).0
          (continue_with
            (λ done. attempt (posted method params) (retry browser api_base method params))
            r).1
  after_login method params m n (err x, q) (same, low) =
      (omega (arith, low), inl (omega (arith, same)))
  after_login method params m n (ok done, q) s =
      after_post method params m n (posted method params q)
        (rpc-Sent (proxy_endpoint browser api_base) method params m (n + 1) q s)

  abbrev pub RetriesOnce : String → Value → Page → Page → Type 0
  RetriesOnce method params before after =
      Resent (sends before.trace) (logins before.trace)
        (posted method params (ensure_session browser api_base false before).1).0 after

  -- Whatever the servers answer, `bundlerSend` posts the operation at most once, or twice where the
  -- first post failed as unauthorized; and it logs in at most twice.
  pub bundler_send-RetriesOnce :
      (method : String) (params : Value) (p : Page)
      → RetriesOnce method params p (bundler_send browser api_base method params p).1
  unfolding bundler_send
  bundler_send-RetriesOnce method params p =
      after_login method params (sends p.trace) (logins p.trace)
        (ensure_session browser api_base false p)
        (ensure_session-Sent false (sends p.trace) (logins p.trace) p (refl, omega arith))
