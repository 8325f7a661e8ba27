-- ===== src/Base/Dates.antt =====
-- `Date.prototype.toISOString` on the dates from 1970 to 9999. A `Date` is its milliseconds since the
-- epoch.
use Prim.Native.Nat.{ℕ, zero, suc, ◌+◌, ◌-◌, ◌*◌, ◌/◌, ◌%◌}
use Prim.Native.String.{String, char_at, ◌++◌}
use panalbee_clock_backend.Base.Tests.{leb, if◌then◌else◌}

-- The last digits of a number, as many as asked for.
unfoldable digits : ℕ → ℕ → String
digits zero n = ""
digits (suc width) n = digits width (n / 10) ++ String.◌∷◌ (char_at "0123456789" (n % 10)) String.[]

-- The Gregorian date of a day, counted from the first of March of the year 0, in eras of 400 years.
module _ (day : ℕ) where
  abbrev day_of_era : ℕ
  day_of_era = day % 146_097

  abbrev year_of_era : ℕ
  year_of_era = (day_of_era - day_of_era / 1460 + day_of_era / 36_524 - day_of_era / 146_096) / 365

  abbrev day_of_year : ℕ
  day_of_year = day_of_era - (365 * year_of_era + year_of_era / 4 - year_of_era / 100)

  -- From 0 for March.
  abbrev month_index : ℕ
  month_index = (5 * day_of_year + 2) / 153

  unfoldable month : ℕ
  month = if leb month_index 9 then month_index + 3 else month_index - 9

  unfoldable day_of_month : ℕ
  day_of_month = day_of_year - (153 * month_index + 2) / 5 + 1

  unfoldable year : ℕ
  unfolding month
  year = year_of_era + day / 146_097 * 400 + (if leb month 2 then 1 else 0)

-- The first of January 1970.
abbrev epoch_day : ℕ
epoch_day = 719_468

unfoldable pub to_iso_string : ℕ → String
unfolding year month day_of_month digits
to_iso_string t =
    let day = t / 86_400_000 + epoch_day in
    digits 4 (year day)
    ++ "-"
    ++ digits 2 (month day)
    ++ "-"
    ++ digits 2 (day_of_month day)
    ++ "T"
    ++ digits 2 (t / 3_600_000 % 24)
    ++ ":"
    ++ digits 2 (t / 60_000 % 60)
    ++ ":"
    ++ digits 2 (t / 1000 % 60)
    ++ "."
    ++ digits 3 (t % 1000)
    ++ "Z"
