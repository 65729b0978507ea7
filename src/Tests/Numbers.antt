-- ===== src/Tests/Numbers.antt =====
-- Texts and numbers that `Number` reads and `JSON.stringify` prints.
use account_abstraction.Base.{◌≡◌, refl, true}
use account_abstraction.Js.Value.{pos, negsuc, int, frac}
use account_abstraction.Js.Text.{template, decimal}
use account_abstraction.Js.Num.{
  not_a_number, infinite, ratio, whole, num_ltb, num_max, json_number, times, less,
}
use account_abstraction.Js.Date.{iso_string}
use account_abstraction.Js.Num.Read.{number_of_text}

reads_whole : number_of_text " 25 " ≡ ratio (pos 25) 0
unfolding number_of_text
reads_whole = refl

reads_fraction : number_of_text "-1.250" ≡ ratio (negsuc 1249) 3
unfolding number_of_text
reads_fraction = refl

reads_exponent : number_of_text "1e-3" ≡ ratio (pos 1) 3
unfolding number_of_text
reads_exponent = refl

reads_hex : number_of_text "0x1F" ≡ ratio (pos 31) 0
unfolding number_of_text
reads_hex = refl

reads_infinity : number_of_text "-Infinity" ≡ infinite true
unfolding number_of_text
reads_infinity = refl

reads_no_number : number_of_text "12px" ≡ not_a_number
unfolding number_of_text
reads_no_number = refl

prints_fraction : json_number (ratio (negsuc 1249) 3) ≡ frac "-1.25"
unfolding json_number template decimal
prints_fraction = refl

prints_whole : json_number (ratio (pos 2500) 2) ≡ int (pos 25)
unfolding json_number
prints_whole = refl

compares : num_ltb (ratio (negsuc 1249) 3) (ratio (pos 3) 1) ≡ true
unfolding num_ltb
compares = refl

lowers : num_max 5 (less (times (ratio (pos 31) 0) 1) 30) ≡ whole 5
unfolding num_max num_ltb less times
lowers = refl

prints_epoch : iso_string 0 ≡ "1970-01-01T00:00:00.000Z"
unfolding iso_string
prints_epoch = refl

prints_leap_day : iso_string 1_709_210_096_789 ≡ "2024-02-29T12:34:56.789Z"
unfolding iso_string
prints_leap_day = refl
