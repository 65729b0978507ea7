-- ===== src/Js/Date.antt =====
-- `new Date(t).toISOString()` of a time in milliseconds, up to the year 9999.
use account_abstraction.Base.{ℕ, ◌+◌, ◌-◌, ◌*◌, ◌/◌, ◌%◌, String, [], ◌∷◌, ltb, if◌then◌else◌}
use account_abstraction.Js.Text.{template, decimal}

pub record Day : Type 0 where
  pub year : ℕ
  pub month : ℕ
  pub date : ℕ

-- The day after so many days since 1 January 1970. Years are counted from March, in eras of 400.
unfoldable pub day_after : ℕ → Day
day_after days =
    let n = days + 719468 in
    let in_era = n % 146097 in
    let year = (in_era - in_era / 1460 + in_era / 36524 - in_era / 146096) / 365 in
    let in_year = in_era - (365 * year + year / 4 - year / 100) in
    let month = (5 * in_year + 2) / 153 in
    record {
      year = year + n / 146097 * 400 + (if ltb month 10 then 0 else 1);
      month = if ltb month 10 then month + 3 else month - 9;
      date = in_year - (153 * month + 2) / 5 + 1;
    }

-- A number of two, three or four digits.
abbrev two : ℕ → String
two n = template (decimal (n / 10) ∷ decimal (n % 10) ∷ [])

abbrev three : ℕ → String
three n = template (decimal (n / 100) ∷ two (n % 100) ∷ [])

abbrev four : ℕ → String
four n = template (two (n / 100) ∷ two (n % 100) ∷ [])

abbrev date_text : Day → String
date_text day = template (four day.year ∷ "-" ∷ two day.month ∷ "-" ∷ two day.date ∷ [])

unfoldable pub iso_string : ℕ → String
unfolding day_after template decimal
iso_string t =
    let seconds = t / 1000 in
    template (
      date_text (day_after (seconds / 86400))
      ∷ "T"
      ∷ two (seconds / 3600 % 24)
      ∷ ":"
      ∷ two (seconds / 60 % 60)
      ∷ ":"
      ∷ two (seconds % 60)
      ∷ "."
      ∷ three (t % 1000)
      ∷ "Z"
      ∷ [])
