-- ===== src/Bundler/Args.antt =====
-- `parseArgs` of bundler/src/index.js.
pub mod Written
use account_abstraction.Base.{
  nat_beq, String, Bool, true, false, not, ◌&&◌, ◌||◌, List, [], ◌∷◌, ◌==◌, if◌then◌else◌,
}
use Prim.Native.Char.{Char, code}
use account_abstraction.Base.OrderedMap
use account_abstraction.Js.Value.{Value, bool, str}

abbrev pub starts_with_dashes : String → Bool
starts_with_dashes String.[] = false
starts_with_dashes (String.◌∷◌ c s) = is_dash c && starts_with_dash s
  where
    is_dash : Char → Bool
    is_dash c = nat_beq (code c) b'-'

    starts_with_dash : String → Bool
    starts_with_dash String.[] = false
    starts_with_dash (String.◌∷◌ c s) = is_dash c

-- `arg.slice(2)`
abbrev without_dashes : String → String
without_dashes (String.◌∷◌ c (String.◌∷◌ d s)) = s
without_dashes _ = ""

-- `!next || next.startsWith("--")` of a text that is there
abbrev pub is_no_value : String → Bool
is_no_value next = next == "" || starts_with_dashes next

-- The loop of `parseArgs`, over the arguments from the third on: a flag has the value true.
unfoldable pub parse_args : List String → List (String × Value) → List (String × Value)
parse_args [] found = found
parse_args (arg ∷ []) found =
    if starts_with_dashes arg then OrderedMap.set (without_dashes arg) (bool true) found else found
parse_args (arg ∷ next ∷ rest) found =
    let skipped = parse_args (next ∷ rest) found in
    let flag = parse_args (next ∷ rest) (OrderedMap.set (without_dashes arg) (bool true) found) in
    let valued = parse_args rest (OrderedMap.set (without_dashes arg) (str next) found) in
    if not (starts_with_dashes arg) then skipped else if is_no_value next then flag else valued
