-- ===== src/Js/Number.antt =====
-- Conversions to numbers: `BigInt(v)`.
pub mod Decimal
pub mod Compare
use account_abstraction.Base.{
  ℕ, zero, suc, ◌+◌, ◌-◌, ◌*◌, String, Bool, true, false, ◌&&◌, ◌||◌, Option, none, some, List, [],
  ◌∷◌, leb, ltb, nat_beq, if◌then◌else◌,
}
use account_abstraction.Js.Value.{ℤ, pos, negsuc, Value, bool, int, big, str, arr}
use account_abstraction.Js.Text.{codes, trim, items_text}

-- The value of a digit, 36 where the character is none.
abbrev pub digit_value : ℕ → ℕ
digit_value c =
    if leb b'0' c && leb c b'9'
    then c - b'0'
    else if leb b'a' c && leb c b'z'
    then c - b'a' + 10
    else if leb b'A' c && leb c b'Z'
    then c - b'A' + 10
    else 36

pub digits_from : ℕ → ℕ → List ℕ → Option ℕ
digits_from base n [] = some n
digits_from base n (c ∷ cs) =
    let rest = digits_from base (n * base + digit_value c) cs in
    if ltb (digit_value c) base then rest else none

-- One digit or more.
unfoldable pub digits : ℕ → List ℕ → Option ℕ
unfolding digits_from
digits base [] = none
digits base (c ∷ cs) = digits_from base 0 (c ∷ cs)

abbrev negate : ℕ → ℤ
negate zero = pos 0
negate (suc n) = negsuc n

abbrev pub signed : (ℕ → ℤ) → Option ℕ → Option ℤ
signed f none = none
signed f (some n) = some (f n)

abbrev radix : ℕ → ℕ
radix c =
    if nat_beq c b'x' || nat_beq c b'X'
    then 16
    else if nat_beq c b'o' || nat_beq c b'O'
    then 8
    else if nat_beq c b'b' || nat_beq c b'B'
    then 2
    else 0

abbrev pub decimal_or_prefixed : List ℕ → Option ℤ
decimal_or_prefixed [] = some (pos 0)
decimal_or_prefixed (c ∷ []) = signed pos (digits 10 (c ∷ []))
decimal_or_prefixed (c ∷ d ∷ cs) =
    if nat_beq c b'0' && ltb 0 (radix d)
    then signed pos (digits (radix d) cs)
    else if nat_beq c b'-'
    then signed negate (digits 10 (d ∷ cs))
    else if nat_beq c b'+'
    then signed pos (digits 10 (d ∷ cs))
    else signed pos (digits 10 (c ∷ d ∷ cs))

-- `BigInt(text)`, `none` where it throws a SyntaxError. The empty text is 0.
unfoldable pub big_of_text : String → Option ℤ
unfolding digits trim
big_of_text s = decimal_or_prefixed (codes (trim s))

-- `BigInt(v)`, `none` where it throws. An array is read as the text that it prints.
unfoldable pub to_big : Value → Option ℤ
unfolding big_of_text items_text
to_big (int n) = some n
to_big (big n) = some n
to_big (bool true) = some (pos 1)
to_big (bool false) = some (pos 0)
to_big (str s) = big_of_text s
to_big (arr vs) = big_of_text (items_text vs)
to_big _ = none

abbrev pub int_ltb : ℤ → ℤ → Bool
int_ltb (pos a) (pos b) = ltb a b
int_ltb (pos a) (negsuc b) = false
int_ltb (negsuc a) (pos b) = true
int_ltb (negsuc a) (negsuc b) = ltb b a
