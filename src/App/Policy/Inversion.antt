-- ===== src/App/Policy/Inversion.antt =====
-- What a success of the steps of `check` in examples/privy-google-aa/server/userop-policy.mjs says.
use account_abstraction.Base.{
  String, ◌≡◌, inl, inr, ap, Option, none, some, Result, ok, err, Result-cases, or_throw, arith,
  Bool-cases,
}
use account_abstraction.Js.Value.{Value, str, arr, cons, nil, text_of}
use account_abstraction.Js.Text.{to_lower}
use account_abstraction.Ethers.{Ethers, EthersLaws, Exn}
use account_abstraction.App.Codec.{Refusal, rethrow}
use account_abstraction.App.Policy.{normalize, word, two_params}

pub rethrow-ok {ℓ} : {A : Type ℓ} (r : Result Exn A) (a : A) → rethrow r ≡ ok a → r ≡ ok a
rethrow-ok (ok b) a h = cc
rethrow-ok (err x) a h = cc

pub or_throw-ok {ℓ} :
    {A : Type ℓ} (o : Option A) (x : Refusal) (a : A) → or_throw o x ≡ ok a → o ≡ some a
or_throw-ok (some b) x a h = cc
or_throw-ok none x a h = cc

abbrev pub accepts {ℓ} : {A : Type ℓ} → A → Result Refusal A
accepts a = ok a

pub ok-inj {ℓ} : {A : Type ℓ} (a a' : A) → accepts a ≡ ok a' → a ≡ a'
ok-inj a a' h = cc

pub ok-pair {ℓ κ} :
    {A : Type ℓ} {B : Type κ} (a a' : A) (b b' : B)
    → accepts {A = A × B} (a, b) ≡ ok (a', b')
    → (a ≡ a') × (b ≡ b')
ok-pair a a' b b' h = (cc, cc)

pub two_params-some :
    (v op entry_point : Value)
    → two_params v ≡ some (op, entry_point)
    → v ≡ arr (cons op (cons entry_point nil))
two_params-some (arr (cons v (cons w nil))) op entry_point h = cc
two_params-some _ op entry_point h = cc

module _ (e : Ethers) (laws : EthersLaws e) where
  pub normalize-ok :
      (v : Value) (what s : String) → normalize e v what ≡ ok s → e.get_address v ≡ ok s
  unfolding normalize
  normalize-ok (str t) what s h = elim (Result-cases (e.get_address (str t))) [
    | inl (a, found) ↦ let got = rw found at h in cc
    | inr (x, failed) ↦ let got = rw failed at h in cc
  ]
  normalize-ok _ what s h = cc

  pub word-ok :
      (v : Value) (what w : String)
      → word e v what ≡ ok w
      → (s : String) × (v ≡ str s) × (to_lower s ≡ w)
  unfolding word
  word-ok v what w h = elim (Bool-cases (e.is_hex_string_32 v)) [
    | inl hex ↦
        let (s, text) = laws.is_hex_string_32_text v hex in
        (s, text, ground (arith, ap text_of text))
    | inr other ↦ ground arith
  ]
