-- ===== src/Bundler/Args/Written.antt =====
-- That `parseArgs` of bundler/src/index.js reads options as they are written on a command line.
use account_abstraction.Base.{String, true, false, List, [], ◌∷◌, ◌≡◌, refl, ◌∙◌, arith}
use account_abstraction.Base.OrderedMap
use account_abstraction.Js.Value.{Value, str, bool}
use account_abstraction.Bundler.Args.{starts_with_dashes, is_no_value, parse_args}

-- A part of a command line: an option alone, one with a value, or a word that is none.
pub data Argument : Type 0 where
  flag : String → Argument
  valued : String → String → Argument
  ignored : String → Argument

-- `--name`
abbrev dashed : String → String
dashed name = String.◌∷◌ "-" (String.◌∷◌ "-" name)

abbrev pub written : List Argument → List String
written [] = []
written (flag name ∷ options) = dashed name ∷ written options
written (valued name value ∷ options) = dashed name ∷ value ∷ written options
written (ignored word ∷ options) = word ∷ written options

-- What the parts mean: a later option of the same name replaces an earlier one.
abbrev pub meant : List Argument → List (String × Value) → List (String × Value)
meant [] found = found
meant (flag name ∷ options) found = meant options (OrderedMap.set name (bool true) found)
meant (valued name value ∷ options) found = meant options (OrderedMap.set name (str value) found)
meant (ignored word ∷ options) found = meant options found

-- A word after an option would be read as its value.
abbrev IsNoWord : List Argument → Type 0
IsNoWord (ignored word ∷ options) = ⊥
IsNoWord _ = Unit

-- No value is empty or starts with two dashes, and neither does a word start so.
abbrev pub IsWritable : List Argument → Type 0
IsWritable [] = Unit
IsWritable (flag name ∷ options) = IsNoWord options × IsWritable options
IsWritable (valued name value ∷ options) = (is_no_value value ≡ false) × IsWritable options
IsWritable (ignored word ∷ options) = (starts_with_dashes word ≡ false) × IsWritable options

dashed-is_no_value : (name : String) → is_no_value (dashed name) ≡ true
dashed-is_no_value name = ground arith

parse_args-flag :
    (name : String) (options : List Argument) (found : List (String × Value))
    → IsNoWord options
    → parse_args (dashed name ∷ written options) found
      ≡ parse_args (written options) (OrderedMap.set name (bool true) found)
unfolding parse_args
parse_args-flag name [] found h = refl
parse_args-flag name (flag other ∷ options) found h = rw (dashed-is_no_value other) refl
parse_args-flag name (valued other value ∷ options) found h = rw (dashed-is_no_value other) refl
parse_args-flag name (ignored word ∷ options) found h = absurd h

parse_args-ignored :
    (word : String) (rest : List String) (found : List (String × Value))
    → starts_with_dashes word ≡ false
    → parse_args (word ∷ rest) found ≡ parse_args rest found
unfolding parse_args
parse_args-ignored word [] found h = rw h refl
parse_args-ignored word (next ∷ rest) found h = rw h refl

parse_args-valued :
    (name value : String) (rest : List String) (found : List (String × Value))
    → is_no_value value ≡ false
    → parse_args (dashed name ∷ value ∷ rest) found
      ≡ parse_args rest (OrderedMap.set name (str value) found)
unfolding parse_args
parse_args-valued name value rest found h = rw h refl

-- `parseArgs` reads what a command line is written from: an option alone is true, one with a value
-- has that value, a later option replaces an earlier one of the same name, and other words are
-- dropped, as long as no value is empty or starts with two dashes and no word follows an option
-- that stands alone.
pub parse_args-written :
    (options : List Argument) (found : List (String × Value))
    → IsWritable options
    → parse_args (written options) found ≡ meant options found
unfolding parse_args
parse_args-written [] found h = refl
parse_args-written (flag name ∷ options) found (no_word, rest) =
    parse_args-flag name options found no_word
    ∙ parse_args-written options (OrderedMap.set name (bool true) found) rest
parse_args-written (valued name value ∷ options) found (fine, rest) =
    parse_args-valued name value (written options) found fine
    ∙ parse_args-written options (OrderedMap.set name (str value) found) rest
parse_args-written (ignored word ∷ options) found (plain, rest) =
    parse_args-ignored word (written options) found plain ∙ parse_args-written options found rest
