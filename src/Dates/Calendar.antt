-- ===== src/Dates/Calendar.antt =====
-- worker/dates/date_parser.cpp: `days_from_civil` counts the days of the Gregorian calendar.
use mathlib.Core.Path.{ap₂}
use eml_to_pst.Base.{
  ℕ, zero, suc, ◌+◌, ◌-◌, ◌*◌, ◌/◌, ◌%◌, ◌≤◌, ◌<◌, ◌≡◌, ◌≢◌, refl, sym, ap, get_or, ◌&&◌, ◌||◌, ◌∙◌,
  inl, inr, Bool, true, false, arith, Bool-cases, if◌then◌else◌, ltb, ◌==◌, ==_iff,
}
use eml_to_pst.Base.Int.{ℤ, pos, negsuc, ◌+ℤ◌, ◌-ℤ◌, ◌*ℤ◌, pos_part, int_laws}
use eml_to_pst.Dates.Civil.{
  month_lengths, is_leap, days_in_month, day_of_year, day_of_era, era_of, days_from_civil,
}

-- The days of the years that start in March, before the n-th.
abbrev pub days_before : ℕ → ℕ
days_before n = n / 400 * 146097 + ((n % 400) * 365 + (n % 400) / 4 - (n % 400) / 100)

days_before-suc :
    (n : ℕ) → days_before (n + 1) ≡ days_before n + (if is_leap (n + 1) then 366 else 365)
unfolding is_leap
days_before-suc n = ground arith

-- The year that starts in March, counted from 400 years before year 0.
abbrev pub march_year : ℕ → ℕ → ℕ
march_year y m = if ltb 2 m then y + 400 else y + 399

-- The days before the year and day that `days_from_civil` has computed from a civil date.
abbrev civil : ℤ → ℕ → ℤ
civil y doy =
    era_of y *ℤ pos 146097
    +ℤ pos (day_of_era (pos_part (y -ℤ era_of y *ℤ pos 400)) doy)
    -ℤ pos 719468

civil_pos : (n doy : ℕ) → civil (pos n) doy ≡ pos (days_before (n + 400) + doy) -ℤ pos 865565
unfolding era_of ◌+ℤ◌ ◌-ℤ◌ ◌*ℤ◌ day_of_era
civil_pos n doy = ground arith

civil_before_zero : (doy : ℕ) → civil (negsuc 0) doy ≡ pos (days_before 399 + doy) -ℤ pos 865565
unfolding era_of ◌+ℤ◌ ◌-ℤ◌ ◌*ℤ◌ day_of_era
civil_before_zero doy = ground arith

pred_suc : (y : ℕ) → pos (suc y) -ℤ pos 1 ≡ pos y
unfolding ◌-ℤ◌
pred_suc y = ground arith

sub_zero : (y : ℕ) → pos y -ℤ pos 0 ≡ pos y
unfolding ◌-ℤ◌
sub_zero y = ground arith

civil_pred :
    (y doy : ℕ) → civil (pos y -ℤ pos 1) doy ≡ pos (days_before (y + 399) + doy) -ℤ pos 865565
unfolding ◌-ℤ◌
civil_pred zero doy = civil_before_zero doy
civil_pred (suc y) doy =
    ap (λ z. civil z doy) (pred_suc y)
    ∙ civil_pos y doy
    ∙ ap (λ n. pos (days_before n + doy) -ℤ pos 865565) (omega arith)

pub days_from_civil-eq :
    (y m d : ℕ)
    → days_from_civil (pos y) m d
      ≡ pos (days_before (march_year y m) + day_of_year m d) -ℤ pos 865565
unfolding days_from_civil
days_from_civil-eq y m d = elim (Bool-cases (ltb 2 m)) [
  | inl e ↦ rw e (ap (λ z. civil z (day_of_year m d)) (sub_zero y) ∙ civil_pos y (day_of_year m d))
  | inr e ↦ rw e (civil_pred y (day_of_year m d))
]

-- A date of the Gregorian calendar.
pub record IsDate (y m d : ℕ) : Type 0 where
  pub month_pos : 1 ≤ m
  pub month_le : m ≤ 12
  pub day_pos : 1 ≤ d
  pub day_le : d ≤ days_in_month y m

-- The day after a date: the next of its month, the first of the next month, or New Year.
abbrev pub next_day : ℕ → ℕ → ℕ → ℕ × ℕ × ℕ
next_day y m d =
    if ltb d (days_in_month y m)
    then (y, m, d + 1)
    else if ltb m 12
    then (y, m + 1, 1)
    else (y + 1, 1, 1)

abbrev day_number : ℕ × ℕ × ℕ → ℕ
day_number (y, m, d) = days_before (march_year y m) + day_of_year m d

day_of_year-suc : (m d : ℕ) → 1 ≤ d → day_of_year m (d + 1) ≡ day_of_year m d + 1
unfolding day_of_year
day_of_year-suc m d h = ground arith

-- A statement about every month before `n`, checked by evaluation.
unfoldable pub all_from_zero : (ℕ → Bool) → ℕ → Bool
all_from_zero test zero = true
all_from_zero test (suc k) = all_from_zero test k && test k

pub all_from_zero-at :
    (test : ℕ → Bool) (k : ℕ) → all_from_zero test k ≡ true → (i : ℕ) → i < k → test i ≡ true
unfolding all_from_zero
all_from_zero-at test (suc k) all i i_lt = elim (Bool-cases (ltb i k)) [
  | inl e ↦ all_from_zero-at test k (ground arith) i (ground arith)
  | inr e ↦ let last : i ≡ k = ground arith in rw last (ground arith)
]
all_from_zero-at test zero all i i_lt = absurd (omega arith)

-- The last day of a month other than February, and the first of the next.
abbrev joins : ℕ → Bool
joins m =
    m == 0 || m == 2 || day_of_year (m + 1) 1 == day_of_year m (get_or month_lengths (m - 1) 0) + 1

joins_table : all_from_zero joins 12 ≡ true
unfolding all_from_zero day_of_year
joins_table = refl

month_joins :
    (m : ℕ)
    → 1 ≤ m
    → m < 12
    → m ≢ 2
    → day_of_year (m + 1) 1 ≡ day_of_year m (get_or month_lengths (m - 1) 0) + 1
month_joins m p q n = let t = all_from_zero-at joins 12 joins_table m q in ground arith

leap_400 : (y : ℕ) → is_leap (y + 400) ≡ is_leap y
unfolding is_leap
leap_400 y = ground arith

leap_step :
    (y : ℕ) → days_before (y + 400) ≡ days_before (y + 399) + (if is_leap y then 366 else 365)
leap_step y =
    ap days_before (omega arith)
    ∙ days_before-suc (y + 399)
    ∙ ap (λ b. days_before (y + 399) + (if b then 366 else 365))
        (ap is_leap (omega arith) ∙ leap_400 y)

march_first :
    (a b : ℕ) (leap : Bool)
    → a ≡ b + (if leap then 366 else 365)
    → a + day_of_year 3 1 ≡ b + day_of_year 2 (if leap then 29 else 28) + 1
unfolding day_of_year
march_first a b leap h = ground arith

feb_end : (y : ℕ) → day_number (y, 3, 1) ≡ day_number (y, 2, days_in_month y 2) + 1
unfolding days_in_month
feb_end y = march_first (days_before (y + 400)) (days_before (y + 399)) (is_leap y) (leap_step y)

year_end : (y : ℕ) → day_number (y + 1, 1, 1) ≡ day_number (y, 12, 31) + 1
unfolding day_of_year
year_end y = ground arith

last_day : (a b : ℕ) → a ≤ b → ltb a b ≡ false → b ≡ a
last_day a b h e = ground arith

december : (m : ℕ) → m ≤ 12 → ltb m 12 ≡ false → 12 ≡ m
december m h e = ground arith

december_length : (y : ℕ) → days_in_month y 12 ≡ 31
unfolding days_in_month
december_length y = refl

month_end :
    (y m : ℕ) → 1 ≤ m → m < 12 → day_number (y, m + 1, 1) ≡ day_number (y, m, days_in_month y m) + 1
unfolding days_in_month
month_end y m p q = elim (Bool-cases (m == 2)) [
  | inl e ↦ rw ((==_iff m 2).0 e) (feb_end y)
  | inr e ↦ ground (arith, month_joins m p q)
]

day_number-next_day :
    (y m d : ℕ) → IsDate y m d → day_number (next_day y m d) ≡ day_number (y, m, d) + 1
day_number-next_day y m d h = elim (Bool-cases (ltb d (days_in_month y m))) [
  | inl e ↦ rw e (omega (arith, day_of_year-suc m d h.day_pos))
  | inr e ↦ elim (Bool-cases (ltb m 12)) [
    | inl f ↦
        rw (e, f)
          (month_end y m h.month_pos (ground arith)
            ∙ ap (λ t. day_number (y, m, t) + 1) (last_day d (days_in_month y m) h.day_le e))
    | inr f ↦
        rw (e, f)
          (year_end y
            ∙ ap₂ (λ n t. day_number (y, n, t) + 1) (december m h.month_le f)
                (sym (december_length y)
                  ∙ ap (days_in_month y) (december m h.month_le f)
                  ∙ last_day d (days_in_month y m) h.day_le e))
  ]
]

from_parts : (a b : ℕ) → a ≡ b + 1 → pos a -ℤ pos 865565 ≡ pos b -ℤ pos 865565 +ℤ pos 1
from_parts a b e = omega int_laws

-- From one day of the calendar to the next `days_from_civil` grows by one, across the ends of
-- months, leap days and New Year.
pub days_from_civil-next_day :
    (y m d : ℕ)
    → IsDate y m d
    → days_from_civil (pos (next_day y m d).0) (next_day y m d).1 (next_day y m d).2
      ≡ days_from_civil (pos y) m d +ℤ pos 1
days_from_civil-next_day y m d h =
    let (y', m', d') = next_day y m d in
    days_from_civil-eq y' m' d'
    ∙ from_parts (day_number (next_day y m d)) (day_number (y, m, d)) (day_number-next_day y m d h)
    ∙ ap (λ z. z +ℤ pos 1) (sym (days_from_civil-eq y m d))
