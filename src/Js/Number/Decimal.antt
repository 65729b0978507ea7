-- ===== src/Js/Number/Decimal.antt =====
-- On `BigInt` of a text and `String` of a natural number.
use Prim.Native.Char.{code}
use Prim.Native.String
use text.Mathlib.TextLemmas.{nil-append, cons-append, append-nil}
use account_abstraction.Base.{
  ℕ, zero, suc, ◌+◌, ◌*◌, ◌/◌, ◌%◌, ◌<◌, ◌≤◌, ◌≡◌, refl, ap, sym, ◌∙◌, String, some, List, ◌∷◌, ltb,
  Bool-cases, inl, inr, arith,
}
use account_abstraction.Js.Value.{pos}
use account_abstraction.Js.Text.{
  codes, trim, trim_start, reverse_onto, to_lower, lower_char, digit, decimal, decimal_from,
}
use account_abstraction.Js.Number.{
  digits, digits_from, decimal_or_prefixed, big_of_text, digit_value, signed,
}

abbrev IsDigit : ℕ → Type 0
IsDigit c = (b'0' ≤ c) × (c ≤ b'9')

code-digit : (d : ℕ) → d < 10 → code (digit d) ≡ b'0' + d
unfolding digit
code-digit zero h = refl
code-digit (suc zero) h = refl
code-digit (suc (suc zero)) h = refl
code-digit (suc (suc (suc zero))) h = refl
code-digit (suc (suc (suc (suc zero)))) h = refl
code-digit (suc (suc (suc (suc (suc zero))))) h = refl
code-digit (suc (suc (suc (suc (suc (suc zero)))))) h = refl
code-digit (suc (suc (suc (suc (suc (suc (suc zero))))))) h = refl
code-digit (suc (suc (suc (suc (suc (suc (suc (suc zero)))))))) h = refl
code-digit (suc (suc (suc (suc (suc (suc (suc (suc (suc zero))))))))) h = refl
code-digit (suc (suc (suc (suc (suc (suc (suc (suc (suc (suc d)))))))))) h = absurd (omega arith)

digit_value-digit : (d : ℕ) → d < 10 → digit_value (code (digit d)) ≡ d
digit_value-digit d h = ground (arith, code-digit d h)

-- One digit read, then the rest.
digits_from-digit :
    (d n : ℕ) (cs : List ℕ)
    → d < 10
    → digits_from 10 n (code (digit d) ∷ cs) ≡ digits_from 10 (n * 10 + d) cs
unfolding digits_from
digits_from-digit d n cs h = ground (arith, digit_value-digit d h)

digits_from-decimal_from :
    (fuel n : ℕ) (s : String)
    → n < fuel
    → digits_from 10 0 (codes (decimal_from fuel n s)) ≡ digits_from 10 n (codes s)
unfolding decimal_from
digits_from-decimal_from zero n s h = absurd (omega arith)
digits_from-decimal_from (suc fuel) n s h = elim (Bool-cases (ltb n 10)) [
  | inl small ↦
      let m : 0 * 10 + n % 10 ≡ n = ground arith in
      rw (small, decimal_from)
        (digits_from-digit (n % 10) 0 (codes s) (omega arith)
          ∙ ap (λ k. digits_from 10 k (codes s)) m)
  | inr large ↦
      let m : n / 10 * 10 + n % 10 ≡ n = omega arith in
      rw (large, decimal_from)
        (digits_from-decimal_from fuel (n / 10) (String.◌∷◌ (digit (n % 10)) s) (ground arith)
          ∙ digits_from-digit (n % 10) (n / 10) (codes s) (omega arith)
          ∙ ap (λ k. digits_from 10 k (codes s)) m)
]

abbrev AllDigits : String → Type 0
AllDigits String.[] = Unit
AllDigits (String.◌∷◌ c s) = IsDigit (code c) × AllDigits s

abbrev NonEmpty : String → Type 0
NonEmpty String.[] = ⊥
NonEmpty (String.◌∷◌ c s) = Unit

digit-IsDigit : (d : ℕ) → d < 10 → IsDigit (code (digit d))
digit-IsDigit d h = ground (arith, code-digit d h)

decimal_from-AllDigits : (fuel n : ℕ) (s : String) → AllDigits s → AllDigits (decimal_from fuel n s)
unfolding decimal_from
decimal_from-AllDigits zero n s a = a
decimal_from-AllDigits (suc fuel) n s a = elim (Bool-cases (ltb n 10)) [
  | inl small ↦ rw (small, decimal_from) (digit-IsDigit (n % 10) (omega arith), a)
  | inr large ↦
      rw (large, decimal_from)
        (decimal_from-AllDigits fuel (n / 10) (String.◌∷◌ (digit (n % 10)) s)
          (digit-IsDigit (n % 10) (omega arith), a))
]

decimal_from-NonEmpty : (fuel n : ℕ) (s : String) → NonEmpty s → NonEmpty (decimal_from fuel n s)
unfolding decimal_from
decimal_from-NonEmpty zero n s a = a
decimal_from-NonEmpty (suc fuel) n s a = elim (Bool-cases (ltb n 10)) [
  | inl small ↦ rw (small, decimal_from) tt
  | inr large ↦
      rw (large, decimal_from)
        (decimal_from-NonEmpty fuel (n / 10) (String.◌∷◌ (digit (n % 10)) s) tt)
]

decimal-NonEmpty : (n : ℕ) → NonEmpty (decimal n)
unfolding decimal
decimal-NonEmpty n = elim (Bool-cases (ltb n 10)) [
  | inl small ↦ rw (small, decimal_from) tt
  | inr large ↦
      rw (large, decimal_from)
        (decimal_from-NonEmpty n (n / 10) (String.◌∷◌ (digit (n % 10)) "") tt)
]

-- A text of digits has no white space to trim.
trim_start-AllDigits : (s : String) → AllDigits s → trim_start s ≡ s
unfolding trim_start
trim_start-AllDigits String.[] a = refl
trim_start-AllDigits (String.◌∷◌ c s) (d, a) = ground arith

reverse_onto-AllDigits : (s t : String) → AllDigits s → AllDigits t → AllDigits (reverse_onto s t)
unfolding reverse_onto
reverse_onto-AllDigits String.[] t a b = b
reverse_onto-AllDigits (String.◌∷◌ c s) t (d, a) b =
    reverse_onto-AllDigits s (String.◌∷◌ c t) a (d, b)

reverse_onto-reverse_onto :
    (s t u : String) → reverse_onto (reverse_onto s t) u ≡ reverse_onto t (String.◌++◌ s u)
unfolding reverse_onto
reverse_onto-reverse_onto String.[] t u = rw nil-append
reverse_onto-reverse_onto (String.◌∷◌ c s) t u =
    reverse_onto-reverse_onto s (String.◌∷◌ c t) u ∙ ap (reverse_onto t) (sym (cons-append c s u))

trim-AllDigits : (s : String) → AllDigits s → trim s ≡ s
unfolding trim
trim-AllDigits s a =
    let back = reverse_onto-AllDigits s "" a tt in
    rw (trim_start-AllDigits s a) (
      rw (trim_start-AllDigits (reverse_onto s "") back)
        (reverse_onto-reverse_onto s "" "" ∙ append-nil s))

decimal_or_prefixed-AllDigits :
    (s : String)
    → AllDigits s
    → NonEmpty s
    → decimal_or_prefixed (codes s) ≡ signed pos (digits 10 (codes s))
decimal_or_prefixed-AllDigits String.[] a n = absurd n
decimal_or_prefixed-AllDigits (String.◌∷◌ c String.[]) a n = refl
decimal_or_prefixed-AllDigits (String.◌∷◌ c (String.◌∷◌ d s)) (p, (q, a)) n = ground arith

digits-NonEmpty : (s : String) → NonEmpty s → digits 10 (codes s) ≡ digits_from 10 0 (codes s)
unfolding digits
digits-NonEmpty String.[] n = absurd n
digits-NonEmpty (String.◌∷◌ c s) n = refl

digits_from-decimal : (n : ℕ) → digits_from 10 0 (codes (decimal n)) ≡ some n
unfolding decimal digits_from
digits_from-decimal n = digits_from-decimal_from (suc n) n "" (omega arith)

-- `BigInt(String(n))` is `n`.
pub big_of_text-decimal : (n : ℕ) → big_of_text (decimal n) ≡ some (pos n)
unfolding big_of_text
big_of_text-decimal n =
    let a : AllDigits (decimal n) = unfold decimal in decimal_from-AllDigits (suc n) n "" tt in
    let e = decimal-NonEmpty n in
    rw (trim-AllDigits (decimal n) a) (
      decimal_or_prefixed-AllDigits (decimal n) a e
      ∙ ap (signed pos) (digits-NonEmpty (decimal n) e ∙ digits_from-decimal n))

to_lower-AllDigits : (s : String) → AllDigits s → to_lower s ≡ s
unfolding to_lower lower_char
to_lower-AllDigits String.[] a = refl
to_lower-AllDigits (String.◌∷◌ c s) (d, a) = ground (arith, to_lower-AllDigits s a)

-- A number printed in decimal has no letters to change.
pub to_lower-decimal : (n : ℕ) → to_lower (decimal n) ≡ decimal n
to_lower-decimal n =
    to_lower-AllDigits (decimal n) (unfold decimal in decimal_from-AllDigits (suc n) n "" tt)
