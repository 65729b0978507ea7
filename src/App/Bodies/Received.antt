-- ===== src/App/Bodies/Received.antt =====
-- Which streams `readBody` of examples/privy-google-aa/server/api.mjs accepts.
use mathlib.Core.List.{append-nil, append_assoc}
use account_abstraction.Base.{
  ℕ, ◌+◌, ◌≤◌, ◌≡◌, ◌↔◌, refl, sym, ap, ◌∙◌, true, false, String, Option, none, some, List, [], ◌∷◌,
  ◌++◌, length, length-append, ltb, Result, ok, Bool-cases, inl, inr, arith,
}
use account_abstraction.Js.Value.{is_nullish}
use account_abstraction.App.Bodies.{
  Carried, BodyCodec, Complaint, max_body_bytes, read_chunks, read_body,
}

-- The bytes of a stream.
unfoldable pub joined : List (List ℕ) → List ℕ
joined [] = []
joined (chunk ∷ chunks) = chunk ++ joined chunks

-- What a stream is when its bytes are read, after so many.
abbrev IsRead : ℕ → List ℕ → List (List ℕ) → Option String → List ℕ → Type 0
IsRead size bytes chunks failure got =
    (failure ≡ none)
    × (size + length (joined chunks) ≤ max_body_bytes)
    × (got ≡ bytes ++ joined chunks)

abbrev keeps : List ℕ → Result Complaint (List ℕ)
keeps bytes = ok bytes

bytes-inj : {a b : List ℕ} → keeps a ≡ ok b → a ≡ b
bytes-inj h = cc

read_chunks-ok :
    (size : ℕ) (bytes : List ℕ) (chunks : List (List ℕ)) (failure : Option String) (got : List ℕ)
    → size ≤ max_body_bytes
    → read_chunks size bytes chunks failure ≡ ok got
    → IsRead size bytes chunks failure got
unfolding read_chunks joined
read_chunks-ok size bytes [] none got low h =
    (refl, omega (arith, low), sym (bytes-inj h) ∙ sym (append-nil bytes))
read_chunks-ok size bytes [] (some m) got low h = cc
read_chunks-ok size bytes (chunk ∷ chunks) failure got low h =
    elim (Bool-cases (ltb max_body_bytes (size + length chunk))) [
      | inl large ↦ let refused = rw large at h in cc
      | inr small ↦
          let (whole, fits, same) =
            read_chunks-ok (size + length chunk) (bytes ++ chunk) chunks failure got (ground arith)
              (rw small at h) in
          (
            whole,
            omega (arith, fits, length-append chunk (joined chunks)),
            same ∙ append_assoc bytes chunk (joined chunks),
          )
    ]

read_chunks-fits :
    (size : ℕ) (bytes : List ℕ) (chunks : List (List ℕ))
    → size + length (joined chunks) ≤ max_body_bytes
    → read_chunks size bytes chunks none ≡ ok (bytes ++ joined chunks)
unfolding read_chunks joined
read_chunks-fits size bytes [] fits = ap keeps (sym (append-nil bytes))
read_chunks-fits size bytes (chunk ∷ chunks) fits =
    let total = length-append chunk (joined chunks) in
    let small : ltb max_body_bytes (size + length chunk) ≡ false = ground (arith, total, fits) in
    let rest =
      read_chunks-fits (size + length chunk) (bytes ++ chunk) chunks (omega (arith, fits, total)) in
    rw small (rest ∙ ap keeps (append_assoc bytes chunk (joined chunks)))

module _ (b : BodyCodec) where
  -- A stream is read exactly when it does not fail and has at most a million bytes in all, however it
  -- is cut into chunks, and what is read are its bytes in their order.
  pub read_body-ok_iff :
      (carried : Carried) (got : List ℕ)
      → is_nullish carried.body ≡ true
      → (read_body b carried ≡ ok got) ↔ (
          (carried.failure ≡ none)
          × (length (joined carried.chunks) ≤ 1_000_000)
          × (got ≡ joined carried.chunks))
  unfolding read_body
  read_body-ok_iff carried got streamed = rw streamed (
    (λ h.
        let (whole, fits, same) =
          read_chunks-ok 0 [] carried.chunks carried.failure got (omega arith) h in
        (whole, omega (arith, fits), same)),
    (λ (whole, fits, same).
        rw (whole, same) (read_chunks-fits 0 [] carried.chunks (omega (arith, fits)))),
  )
