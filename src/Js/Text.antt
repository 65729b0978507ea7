-- ===== src/Js/Text.antt =====
-- Text functions of the language. Letters beyond ASCII have no case here, and white space is that
-- of ASCII.
use Prim.Native.Char.{Char, code}
use Prim.Native.String
use account_abstraction.Base.{
  true, false, Option, none, some, ℕ, zero, suc, ◌-◌, ◌/◌, ◌%◌, String, Bool, ◌&&◌, ◌||◌, List, [],
  ◌∷◌, leb, ltb, nat_beq, is_some, if◌then◌else◌,
}
use account_abstraction.Js.Value.{
  ℤ, pos, negsuc, Value, undefined, null, nan, bool, int, frac, big, str, arr, obj, Items, nil,
  cons, is_nullish,
}

-- A template literal, of the texts that its pieces print.
unfoldable pub template : List String → String
template [] = ""
template (s ∷ ss) = String.◌++◌ s (template ss)

unfoldable pub lower_char : Char → Char
lower_char c =
    if leb b'A' (code c) && leb (code c) b'Z'
    then String.char_at "abcdefghijklmnopqrstuvwxyz" (code c - b'A')
    else c

-- `s.toLowerCase()`
unfoldable pub to_lower : String → String
unfolding lower_char
to_lower String.[] = ""
to_lower (String.◌∷◌ c s) = String.◌∷◌ (lower_char c) (to_lower s)

-- The code points of a text.
abbrev pub codes : String → List ℕ
codes String.[] = []
codes (String.◌∷◌ c s) = code c ∷ codes s

-- `s.length`, which counts code points: the program measures hex texts, and tests emptiness.
abbrev pub text_length : String → ℕ
text_length String.[] = 0
text_length (String.◌∷◌ c s) = suc (text_length s)

abbrev pub is_space : ℕ → Bool
is_space c = nat_beq c 32 || leb 9 c && leb c 13

unfoldable pub reverse_onto : String → String → String
reverse_onto String.[] t = t
reverse_onto (String.◌∷◌ c s) t = reverse_onto s (String.◌∷◌ c t)

unfoldable pub trim_start : String → String
trim_start String.[] = ""
trim_start (String.◌∷◌ c s) =
    let rest = trim_start s in if is_space (code c) then rest else String.◌∷◌ c s

-- `s.trim()`
unfoldable pub trim : String → String
unfolding trim_start reverse_onto
trim s = reverse_onto (trim_start (reverse_onto (trim_start s) "")) ""

-- The rest of a text after a prefix, letters compared without their case; the prefix is lower-case.
unfoldable pub strip_prefix_ignoring_case : String → String → Option String
unfolding lower_char
strip_prefix_ignoring_case String.[] s = some s
strip_prefix_ignoring_case (String.◌∷◌ p ps) String.[] = none
strip_prefix_ignoring_case (String.◌∷◌ p ps) (String.◌∷◌ c s) =
    let rest = strip_prefix_ignoring_case ps s in
    if nat_beq (code p) (code (lower_char c)) then rest else none

abbrev pub starts_with_space : String → Bool
starts_with_space String.[] = false
starts_with_space (String.◌∷◌ c s) = is_space (code c)

-- `s.slice(0, n)`
abbrev pub text_take : ℕ → String → String
text_take zero s = ""
text_take (suc n) String.[] = ""
text_take (suc n) (String.◌∷◌ c s) = String.◌∷◌ c (text_take n s)

abbrev pub before_piece : Char → Option (String × String) → Option (String × String)
before_piece c none = none
before_piece c (some (s, t)) = some (String.◌∷◌ c s, t)

-- The texts before and after the first, or the last, place of a character: `indexOf`,
-- `lastIndexOf` and two `slice`s.
unfoldable pub split_at_first : ℕ → String → Option (String × String)
split_at_first d String.[] = none
split_at_first d (String.◌∷◌ c s) =
    let later = split_at_first d s in
    if nat_beq (code c) d then some ("", s) else before_piece c later

unfoldable pub split_at_last : ℕ → String → Option (String × String)
split_at_last d String.[] = none
split_at_last d (String.◌∷◌ c s) =
    let later = split_at_last d s in
    if is_some later
    then before_piece c later
    else if nat_beq (code c) d
    then some ("", s)
    else none

abbrev pub onto_first : Char → List String → List String
onto_first c [] = String.◌∷◌ c "" ∷ []
onto_first c (s ∷ ss) = String.◌∷◌ c s ∷ ss

-- `s.split(d)` for a separator of one character
unfoldable pub split : ℕ → String → List String
split d String.[] = "" ∷ []
split d (String.◌∷◌ c s) =
    let rest = split d s in if nat_beq (code c) d then "" ∷ rest else onto_first c rest

-- `texts.join(separator)`
unfoldable pub join : String → List String → String
join separator [] = ""
join separator (s ∷ []) = s
join separator (s ∷ t ∷ ss) = template (s ∷ separator ∷ join separator (t ∷ ss) ∷ [])

is_letter : ℕ → Bool
is_letter c = leb b'a' c && leb c b'z' || leb b'A' c && leb c b'Z'

-- `[A-Za-z_]` and `\w`
unfoldable pub is_word_start : Char → Bool
unfolding is_letter
is_word_start c = is_letter (code c) || nat_beq (code c) b'_'

unfoldable pub is_word : Char → Bool
unfolding is_word_start
is_word c = is_word_start c || leb b'0' (code c) && leb (code c) b'9'

-- The texts of one character that a text iterates over.
abbrev pub characters : String → List String
characters String.[] = []
characters (String.◌∷◌ c s) = String.◌∷◌ c String.[] ∷ characters s

unfoldable pub digit : ℕ → Char
digit d = String.char_at "0123456789" d

unfoldable pub decimal_from : ℕ → ℕ → String → String
unfolding digit
decimal_from zero n s = s
decimal_from (suc fuel) n s =
    let s' = String.◌∷◌ (digit (n % 10)) s in
    let rest = decimal_from fuel (n / 10) s' in if ltb n 10 then s' else rest

-- `String(n)` of a natural number. Each round divides by ten, so n + 1 rounds are enough.
unfoldable pub decimal : ℕ → String
unfolding decimal_from
decimal n = decimal_from (suc n) n ""

hex_digit : ℕ → Char
hex_digit d = String.char_at "0123456789abcdef" d

unfoldable pub hexadecimal_from : ℕ → ℕ → String → String
unfolding hex_digit
hexadecimal_from zero n s = s
hexadecimal_from (suc fuel) n s =
    let s' = String.◌∷◌ (hex_digit (n % 16)) s in
    let rest = hexadecimal_from fuel (n / 16) s' in if ltb n 16 then s' else rest

-- `n.toString(16)`
unfoldable pub hexadecimal : ℕ → String
unfolding hexadecimal_from
hexadecimal n = hexadecimal_from (suc n) n ""

unfoldable pub decimal_int : ℤ → String
unfolding decimal
decimal_int (pos n) = decimal n
decimal_int (negsuc n) = template ("-" ∷ decimal (suc n) ∷ [])

-- `String(v)`, and what a template literal prints of a value.
unfoldable mutual
  unfolding decimal_int template

  pub to_text : Value → String
  to_text undefined = "undefined"
  to_text null = "null"
  to_text nan = "NaN"
  to_text (bool true) = "true"
  to_text (bool false) = "false"
  to_text (int n) = decimal_int n
  to_text (frac s) = s
  to_text (big n) = decimal_int n
  to_text (str s) = s
  to_text (arr vs) = items_text vs
  to_text (obj fs) = "[object Object]"

  -- the elements joined by commas, null and undefined printed as nothing
  pub items_text : Items → String
  items_text nil = ""
  items_text (cons v nil) = if is_nullish v then "" else to_text v
  items_text (cons v (cons w vs)) =
      template ((if is_nullish v then "" else to_text v) ∷ "," ∷ items_text (cons w vs) ∷ [])
