-- ===== src/Js/Num.antt =====
-- Numbers as `Number(v)` makes them, and what the program computes with them. Numbers are exact
-- here, not rounded to doubles.
pub mod Read
use account_abstraction.Base.{
  ℕ, zero, suc, ◌+◌, ◌*◌, ◌/◌, ◌%◌, ◌^◌, String, Bool, true, false, not, ◌&&◌, [], ◌∷◌, nat_beq,
  if◌then◌else◌,
}
use account_abstraction.Js.Value.{ℤ, pos, negsuc, Value, null, int, frac}
use account_abstraction.Js.Number.{int_ltb}
use account_abstraction.Js.Number.Compare.{minus}
use account_abstraction.Js.Text.{template, decimal}

-- `ratio n k` is n / 10^k; `infinite true` is -Infinity.
pub data Num : Type 0 where
  not_a_number : Num
  infinite : Bool → Num
  ratio : ℤ → ℕ → Num

abbrev pub whole : ℕ → Num
whole n = ratio (pos n) 0

-- -n
abbrev pub minus_of : ℕ → ℤ
minus_of zero = pos 0
minus_of (suc n) = negsuc n

abbrev pub int_times : ℤ → ℕ → ℤ
int_times (pos a) n = pos (a * n)
int_times (negsuc a) n = minus_of ((a + 1) * n)

abbrev int_less : ℤ → ℕ → ℤ
int_less (pos a) n = minus a n
int_less (negsuc a) n = negsuc (a + n)

abbrev int_more : ℤ → ℕ → ℤ
int_more (pos a) n = pos (a + n)
int_more (negsuc a) n = minus n (a + 1)

-- `x * n`, `x - n` and `n + x`
unfoldable pub times : Num → ℕ → Num
times not_a_number n = not_a_number
times (infinite b) zero = not_a_number
times (infinite b) (suc n) = infinite b
times (ratio z k) n = ratio (int_times z n) k

unfoldable pub less : Num → ℕ → Num
less (ratio z k) n = ratio (int_less z (n * 10 ^ k)) k
less x n = x

unfoldable pub more : ℕ → Num → Num
more n (ratio z k) = ratio (int_more z (n * 10 ^ k)) k
more n x = x

-- `x < y`
unfoldable pub num_ltb : Num → Num → Bool
num_ltb (ratio a k) (ratio b l) = int_ltb (int_times a (10 ^ l)) (int_times b (10 ^ k))
num_ltb (ratio a k) (infinite negative) = not negative
num_ltb (infinite negative) (ratio b l) = negative
num_ltb (infinite m) (infinite n) = m && not n
num_ltb _ _ = false

abbrev larger : Num → Num → Num
larger x y = if num_ltb x y then y else x

abbrev smaller : Num → Num → Num
smaller x y = if num_ltb y x then y else x

-- `Math.max(n, x)` and `Math.min(n, x)` of a whole number
unfoldable pub num_max : ℕ → Num → Num
num_max n not_a_number = not_a_number
num_max n x = if num_ltb (whole n) x then x else whole n

unfoldable pub num_min : ℕ → Num → Num
num_min n not_a_number = not_a_number
num_min n x = if num_ltb x (whole n) then x else whole n

-- `Number.isFinite(x)`, and whether x is truthy
abbrev pub is_finite : Num → Bool
is_finite (ratio z k) = true
is_finite _ = false

abbrev pub is_zero : ℤ → Bool
is_zero (pos zero) = true
is_zero _ = false

abbrev pub is_nonzero : Num → Bool
is_nonzero not_a_number = false
is_nonzero (infinite b) = true
is_nonzero (ratio z k) = not (is_zero z)

-- The digits of n, of which there are k at least.
abbrev pad : ℕ → ℕ → String → String
pad zero n s = s
pad (suc k) n s = pad k (n / 10) (template (decimal (n % 10) ∷ s ∷ []))

-- The digits after the point, without the zeros at the end.
abbrev fraction_text : ℕ → ℕ → String
fraction_text zero n = ""
fraction_text (suc k) n =
    let shorter = fraction_text k (n / 10) in
    if nat_beq (n % 10) 0 then shorter else pad (suc k) n ""

abbrev magnitude_text : ℕ → ℕ → String
magnitude_text n k = template (decimal (n / 10 ^ k) ∷ "." ∷ fraction_text k (n % 10 ^ k) ∷ [])

-- What `JSON.stringify` and `JSON.parse` make of a number.
unfoldable pub json_number : Num → Value
json_number (ratio (pos n) k) =
    if nat_beq (n % 10 ^ k) 0 then int (pos (n / 10 ^ k)) else frac (magnitude_text n k)
json_number (ratio (negsuc n) k) =
    if nat_beq ((n + 1) % 10 ^ k) 0
    then int (minus_of ((n + 1) / 10 ^ k))
    else frac (template ("-" ∷ magnitude_text (n + 1) k ∷ []))
json_number _ = null
