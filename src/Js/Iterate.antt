-- ===== src/Js/Iterate.antt =====
-- Iteration over a value, and the first element of one.
use account_abstraction.Base.{zero, suc, String, List, [], ◌∷◌, map, Result, ok, err, if◌then◌else◌}
use account_abstraction.Js.Value.{Value, undefined, str, arr, obj, items, element, field_of, truthy}
use account_abstraction.Js.Text.{characters}
use account_abstraction.Ethers.{Exn, plain_error}

-- What `for (… of v)` and `[a, b] = v` run over; anything but an array or a text is refused.
abbrev pub iterate : Value → String → Result Exn (List Value)
iterate (arr vs) name = ok (items vs)
iterate (str s) name = ok (map str (characters s))
iterate _ name = err (plain_error name)

-- The elements of `v || []`.
abbrev pub iterate_or_empty : Value → String → Result Exn (List Value)
iterate_or_empty v name = if truthy v then iterate v name else ok []

abbrev head_or_undefined : List Value → Value
head_or_undefined [] = undefined
head_or_undefined (v ∷ vs) = v

abbrev pub first_two : List Value → Value × Value
first_two [] = (undefined, undefined)
first_two (v ∷ vs) = (v, head_or_undefined vs)

-- `v[0]` of a value that is not null or undefined
abbrev pub first_of_value : Value → Value
first_of_value (arr vs) = element zero vs
first_of_value (str s) = head_or_undefined (map str (characters s))
first_of_value (obj fs) = field_of "0" fs
first_of_value _ = undefined

abbrev second_or_undefined : List Value → Value
second_or_undefined [] = undefined
second_or_undefined (v ∷ vs) = head_or_undefined vs

-- `v[1]` of a value that is not null or undefined
abbrev pub second_of_value : Value → Value
second_of_value (arr vs) = element (suc zero) vs
second_of_value (str s) = second_or_undefined (map str (characters s))
second_of_value (obj fs) = field_of "1" fs
second_of_value _ = undefined
