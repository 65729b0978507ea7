-- ===== src/Client/Waiting.antt =====
-- How `waitForUserOpReceipt` of examples/privy-google-aa/src/userOp.ts ends.
use account_abstraction.Base.{
  ℕ, zero, suc, ◌<◌, ◌≡◌, ◌⊎◌, inl, inr, refl, sym, subst, String, true, false, List, [], ◌∷◌,
  Result, ok, err, Bool-cases, arith,
}
use account_abstraction.Js.Value.{Value, str, arr, cons, nil, truthy}
use account_abstraction.Js.Text.{template}
use account_abstraction.Client.Browser.{
  ClientError, error_of, Call, post_rpc, sleep, HttpAnswer, Browser, Page, continue_with, returning,
}
use account_abstraction.Client.Rpc.{
  read_reply, rpc, receipt_method, on_receipt, wait_rounds, wait_for_user_op_receipt,
}

module _ (browser : Browser) (url hash : String) where
  abbrev poll : Call
  poll = post_rpc false (receipt_method browser url) (arr (cons (str hash) nil))

  abbrev replied : Result ClientError HttpAnswer → Result ClientError Value
  replied (err x) = err x
  replied (ok answer) = read_reply url answer

  -- What the poll after these calls brings.
  abbrev pub reply_after : List Call → Result ClientError Value
  reply_after calls = replied (browser.fetch (poll ∷ calls))

  -- The calls once so many rounds have brought no receipt.
  abbrev pub waited : ℕ → List Call → List Call
  waited zero calls = calls
  waited (suc n) calls = waited n (sleep 2_000 ∷ poll ∷ calls)

  -- No receipt yet; and a receipt, or an error.
  abbrev pub IsPending : List Call → Type 0
  IsPending calls = (v : Value) × (reply_after calls ≡ ok v) × (truthy v ≡ false)

  abbrev pub IsDecided : List Call → Type 0
  IsDecided calls =
      ((x : ClientError) × (reply_after calls ≡ err x))
      ⊎ ((v : Value) × (reply_after calls ≡ ok v) × (truthy v ≡ true))

  abbrev after_poll : Page → Page
  after_poll p = record p { trace = poll ∷ p.trace }

  abbrev after_round : Page → Page
  after_round p = record p { trace = sleep 2_000 ∷ poll ∷ p.trace }

  rpc-poll :
      (p : Page)
      → rpc browser url false (receipt_method browser url) (arr (cons (str hash) nil)) p
        ≡ (reply_after p.trace, after_poll p)
  unfolding rpc
  rpc-poll p = on_answer (browser.fetch (poll ∷ p.trace))
    where
      on_answer :
          (r : Result ClientError HttpAnswer)
          → continue_with (λ answer. returning (read_reply url answer)) (r, after_poll p)
            ≡ (replied r, after_poll p)
      on_answer (err x) = refl
      on_answer (ok answer) = refl

  -- What a loop of so many rounds ends with: the first reply that decides, at the poll that brought
  -- it, or an error once every round has been pending.
  abbrev Found : ℕ → Page → Result ClientError Value × Page → Type 0
  Found n p r =
      (i : ℕ) × (i < n)
      × ((j : ℕ) → j < i → IsPending (waited j p.trace))
      × IsDecided (waited i p.trace)
      × (r.0 ≡ reply_after (waited i p.trace))
      × (r.1.trace ≡ poll ∷ waited i p.trace)

  abbrev Lost : ℕ → Page → Result ClientError Value × Page → Type 0
  Lost n p r =
      ((j : ℕ) → j < n → IsPending (waited j p.trace))
      × (r.0 ≡ err (error_of (template ("Timed out waiting for " ∷ hash ∷ []))))
      × (r.1.trace ≡ waited n p.trace)

  abbrev pub Ends : ℕ → Page → Result ClientError Value × Page → Type 0
  Ends n p r = Found n p r ⊎ Lost n p r

  -- Another round before a loop.
  later :
      (n : ℕ) (p : Page) (r : Result ClientError Value × Page)
      → IsPending p.trace
      → Ends n (after_round p) r
      → Ends (suc n) p r
  later n p r pending (inl (i, low, before, decided, result, calls)) =
      inl (suc i, omega (arith, low), earlier, decided, result, calls)
    where
      earlier : (j : ℕ) → j < suc i → IsPending (waited j p.trace)
      earlier zero h = pending
      earlier (suc j) h = before j (omega (arith, h))
  later n p r pending (inr (before, result, calls)) = inr (earlier, result, calls)
    where
      earlier : (j : ℕ) → j < suc n → IsPending (waited j p.trace)
      earlier zero h = pending
      earlier (suc j) h = before j (omega (arith, h))

  on_reply :
      (n : ℕ) (p : Page) (rest : Page → Result ClientError Value × Page)
      → (reply : Result ClientError Value) → reply_after p.trace ≡ reply
      → Ends n (after_round p) (rest (after_round p))
      → Ends (suc n) p (continue_with (on_receipt browser url rest) (reply, after_poll p))
  on_reply n p rest (err x) same ends =
      inl (0, omega arith, (λ j h. absurd (omega (arith, h))), inl (x, same), sym same, refl)
  on_reply n p rest (ok v) same ends = elim (Bool-cases (truthy v)) [
    | inl there ↦ rw there (
        inl (
          0,
          omega arith,
          (λ j h. absurd (omega (arith, h))),
          inr (v, same, there),
          sym same,
          refl,
        ))
    | inr missing ↦
        let ends' = later n p (rest (after_round p)) (v, same, missing) ends in rw missing ends'
  ]

  wait_rounds-Ends : (n : ℕ) (p : Page) → Ends n p (wait_rounds browser url n hash p)
  unfolding wait_rounds
  wait_rounds-Ends zero p = inr ((λ j h. absurd (omega (arith, h))), refl, refl)
  wait_rounds-Ends (suc n) p =
      subst
        (λ r.
          Ends (suc n) p
            (continue_with (on_receipt browser url (wait_rounds browser url n hash)) r))
        (sym (rpc-poll p))
        (on_reply n p (wait_rounds browser url n hash) (reply_after p.trace) refl
          (wait_rounds-Ends n (after_round p)))

  -- `waitForUserOpReceipt` ends after sixty polls at most, whatever they bring: with the first reply
  -- that is a receipt or an error, at the poll that brought it, or, when all of sixty have been
  -- pending, with a timeout.
  pub wait_for_user_op_receipt-Ends :
      (p : Page) → Ends 60 p (wait_for_user_op_receipt browser url hash p)
  unfolding wait_for_user_op_receipt
  wait_for_user_op_receipt-Ends p = wait_rounds-Ends 60 p
