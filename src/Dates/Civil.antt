-- ===== src/Dates/Civil.antt =====
-- worker/dates/date_parser.cpp: leap years, the lengths of months, and Hinnant's
-- `days_from_civil`.
use eml_to_pst.Base.{
  ℕ, ◌+◌, ◌-◌, ◌*◌, ◌/◌, ◌%◌, List, [], ◌∷◌, Bool, not, ◌&&◌, ◌||◌, ltb, ◌==◌, if◌then◌else◌,
  get_or,
}
use eml_to_pst.Base.Int.{ℤ, pos, negsuc, ◌+ℤ◌, ◌-ℤ◌, ◌*ℤ◌, pos_part}

unfoldable pub is_leap : ℕ → Bool
is_leap year = year % 4 == 0 && not (year % 100 == 0) || year % 400 == 0

abbrev pub month_lengths : List ℕ
month_lengths = 31 ∷ 28 ∷ 31 ∷ 30 ∷ 31 ∷ 30 ∷ 31 ∷ 31 ∷ 30 ∷ 31 ∷ 30 ∷ 31 ∷ []

unfoldable pub days_in_month : ℕ → ℕ → ℕ
days_in_month year month =
    if month == 2 && is_leap year then 29 else get_or month_lengths (month - 1) 0

-- `(y >= 0 ? y : y - 399) / 400`, where C++ rounds towards zero: -(n + 1) - 399 is -(n + 400).
unfoldable pub era_of : ℤ → ℤ
unfolding ◌-ℤ◌
era_of (pos n) = pos (n / 400)
era_of (negsuc n) = pos 0 -ℤ pos ((n + 400) / 400)

-- The day of a year that starts in March; `(153 * (m + (m > 2 ? -3 : 9)) + 2) / 5 + d - 1`.
unfoldable pub day_of_year : ℕ → ℕ → ℕ
day_of_year m d = (153 * (if ltb 2 m then m - 3 else m + 9) + 2) / 5 + d - 1

unfoldable pub day_of_era : ℕ → ℕ → ℕ
day_of_era yoe doy = yoe * 365 + yoe / 4 - yoe / 100 + doy

-- `yoe` is cast to an unsigned number; it lies in [0, 399].
unfoldable pub days_from_civil : ℤ → ℕ → ℕ → ℤ
days_from_civil y m d =
    let y' = y -ℤ (if ltb 2 m then pos 0 else pos 1) in
    let era = era_of y' in
    let yoe = pos_part (y' -ℤ era *ℤ pos 400) in
    era *ℤ pos 146097 +ℤ pos (day_of_era yoe (day_of_year m d)) -ℤ pos 719468
