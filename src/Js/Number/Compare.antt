-- ===== src/Js/Number/Compare.antt =====
-- Comparing a whole number with any number, one with a fraction included.
use account_abstraction.Base.{
  ℕ, ◌+◌, ◌-◌, ◌*◌, Bool, true, false, not, ◌&&◌, List, [], ◌∷◌, any, leb, nat_beq, if◌then◌else◌,
}
use account_abstraction.Js.Value.{ℤ, pos, negsuc, Value, nan, int, frac}
use account_abstraction.Js.Text.{codes}
use account_abstraction.Js.Number.{int_ltb}

-- `a - b`
abbrev pub minus : ℕ → ℕ → ℤ
minus a b = if leb b a then pos (a - b) else negsuc (b - a - 1)

-- The digits that a text begins with, as a number.
abbrev leading_digits : ℕ → List ℕ → ℕ
leading_digits n [] = n
leading_digits n (c ∷ cs) =
    let rest = leading_digits (n * 10 + (c - b'0')) cs in
    if leb b'0' c && leb c b'9' then rest else n

-- A number with a fraction prints with an exponent only where it is next to 0.
abbrev whole_digits : List ℕ → ℕ
whole_digits cs = if any (λ c. nat_beq c b'e') cs then 0 else leading_digits 0 cs

-- The greatest whole number below a number with a fraction, from its text.
unfoldable pub floor_of : List ℕ → ℤ
floor_of [] = pos 0
floor_of (c ∷ cs) = if nat_beq c b'-' then negsuc (whole_digits cs) else pos (whole_digits (c ∷ cs))

abbrev pub is_number : Value → Bool
is_number (int n) = true
is_number (frac s) = true
is_number nan = true
is_number _ = false

-- `n >= v` for a number v
unfoldable pub at_least : ℤ → Value → Bool
unfolding floor_of
at_least n (int k) = not (int_ltb n k)
at_least n (frac s) = int_ltb (floor_of (codes s)) n
at_least n _ = false

-- `n < v` for a number v
unfoldable pub less_than : ℤ → Value → Bool
unfolding floor_of
less_than n (int k) = int_ltb n k
less_than n (frac s) = not (int_ltb (floor_of (codes s)) n)
less_than n _ = false
