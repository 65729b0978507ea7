-- ===== src/Js/Num/Read.antt =====
-- `Number(v)`.
use account_abstraction.Base.{
  ℕ, zero, suc, ◌+◌, ◌-◌, ◌*◌, ◌^◌, String, Bool, true, false, not, ◌&&◌, ◌||◌, Option, none, some,
  List, [], ◌∷◌, leb, nat_beq, if◌then◌else◌,
}
use account_abstraction.Js.Value.{
  ℤ, pos, negsuc, Value, undefined, null, nan, bool, int, frac, big, str, arr, obj,
}
use account_abstraction.Js.Number.{big_of_text, signed, digits}
use account_abstraction.Js.Text.{codes, trim, items_text}
use account_abstraction.Js.Num.{Num, not_a_number, infinite, ratio, int_times, minus_of}

-- The digits that a text begins with: their number, how many there are, and what follows.
abbrev span_digits : ℕ → ℕ → List ℕ → ℕ × ℕ × List ℕ
span_digits n count [] = (n, count, [])
span_digits n count (c ∷ cs) =
    let rest = span_digits (n * 10 + (c - b'0')) (count + 1) cs in
    if leb b'0' c && leb c b'9' then rest else (n, count, c ∷ cs)

abbrev after_point : ℕ → ℕ × ℕ × List ℕ → ℕ × ℕ × ℕ × List ℕ
after_point count (n, places, rest) = (n, places, count + places, rest)

abbrev after_whole : ℕ × ℕ × List ℕ → ℕ × ℕ × ℕ × List ℕ
after_whole (n, count, []) = (n, 0, count, [])
after_whole (n, count, c ∷ cs) =
    if nat_beq c b'.' then after_point count (span_digits n 0 cs) else (n, 0, count, c ∷ cs)

-- The digits and the point before an exponent: the number without its point, how many digits stand
-- after the point, how many there are, and what follows.
abbrev mantissa : List ℕ → ℕ × ℕ × ℕ × List ℕ
mantissa cs = after_whole (span_digits 0 0 cs)

-- The exponent, which is the end of the text.
abbrev exponent : List ℕ → Option ℤ
exponent [] = some (pos 0)
exponent (c ∷ []) = none
exponent (c ∷ d ∷ cs) =
    if not (nat_beq c b'e' || nat_beq c b'E')
    then none
    else if nat_beq d b'-'
    then signed minus_of (digits 10 cs)
    else if nat_beq d b'+'
    then signed pos (digits 10 cs)
    else signed pos (digits 10 (d ∷ cs))

abbrev scaled : ℤ → ℕ → Option ℤ → Num
scaled z places none = not_a_number
scaled z places (some (pos e)) = ratio (int_times z (10 ^ e)) places
scaled z places (some (negsuc e)) = ratio z (places + e + 1)

abbrev signed_decimal : (ℕ → ℤ) → ℕ × ℕ × ℕ × List ℕ → Num
signed_decimal sign (n, places, zero, rest) = not_a_number
signed_decimal sign (n, places, suc count, rest) = scaled (sign n) places (exponent rest)

abbrev same_codes : List ℕ → List ℕ → Bool
same_codes [] [] = true
same_codes (x ∷ xs) (y ∷ ys) = nat_beq x y && same_codes xs ys
same_codes _ _ = false

abbrev unsigned : Bool → List ℕ → Num
unsigned negative cs =
    if same_codes cs (codes "Infinity")
    then infinite negative
    else signed_decimal (if negative then minus_of else pos) (mantissa cs)

-- The text of a number in decimal, with a sign or not.
abbrev decimal_number : List ℕ → Num
decimal_number [] = ratio (pos 0) 0
decimal_number (c ∷ cs) =
    if nat_beq c b'-'
    then unsigned true cs
    else if nat_beq c b'+'
    then unsigned false cs
    else unsigned false (c ∷ cs)

-- Whole numbers, prefixed ones included, are read as `BigInt` reads them.
abbrev whole_or_decimal : String → Option ℤ → Num
whole_or_decimal s (some z) = ratio z 0
whole_or_decimal s none = decimal_number (codes (trim s))

-- `Number(text)`
unfoldable pub number_of_text : String → Num
unfolding trim digits big_of_text
number_of_text s = whole_or_decimal s (big_of_text s)

-- `Number(v)`; an array is read as the text that it prints.
unfoldable pub to_number : Value → Num
unfolding number_of_text items_text
to_number undefined = not_a_number
to_number null = ratio (pos 0) 0
to_number nan = not_a_number
to_number (bool true) = ratio (pos 1) 0
to_number (bool false) = ratio (pos 0) 0
to_number (int z) = ratio z 0
to_number (big z) = ratio z 0
to_number (frac s) = number_of_text s
to_number (str s) = number_of_text s
to_number (arr vs) = number_of_text (items_text vs)
to_number (obj fs) = not_a_number
