-- ===== src/Dates/Range.antt =====
-- The numbers that worker/dates/date_parser.cpp returns: they fit 64 bits, and the bounded reader
-- returns those between 1970 and a year from now.
use mathlib.Core.Path.{subst}
use mathlib.Core.Option.{some-injective}
use eml_to_pst.Base.{
  get_or, leb, ◌==◌, ◌&&◌, ℕ, ◌+◌, ◌-◌, ◌*◌, ◌^◌, ◌≤◌, ◌<◌, ◌≡◌, ◌↔◌, refl, ap, true, Option, none,
  some, arith, ltb, lt→ltb, Bool-cases, inl, inr,
}
use eml_to_pst.Base.Int.{ℤ, pos, ◌-ℤ◌, ◌+ℤ◌, ◌*ℤ◌, ◌≤ℤ◌, pos_part, neg_part}
use eml_to_pst.Base.Text.{Bytes}
use eml_to_pst.Model.{
  FileTimeUtc, filetime_from_unix_seconds, filetime_ticks_per_second, filetime_unix_epoch,
}
use eml_to_pst.Dates.Civil.{is_leap, month_lengths, days_in_month, days_from_civil, day_of_year}
use eml_to_pst.Dates.Calendar.{
  all_from_zero-at, all_from_zero, days_from_civil-eq, days_before, march_year,
}
use eml_to_pst.Dates.Accepted.{IsAccepted, parse_fields-IsAccepted}
use eml_to_pst.Dates.{
  Fields, parse_fields, clamped_seconds, unix_seconds_of, parse_rfc5322_date,
  parse_rfc5322_date_bounded, upper_bound, within,
}

-- The parts of a sum, a difference and a multiple are no larger than those of its terms give.
+ℤ_bounds :
    (a b : ℤ)
    → (pos_part (a +ℤ b) ≤ pos_part a + pos_part b) × (neg_part (a +ℤ b) ≤ neg_part a + neg_part b)
unfolding ◌+ℤ◌
+ℤ_bounds a b = (ground arith, ground arith)

-ℤ_bounds :
    (a b : ℤ)
    → (pos_part (a -ℤ b) ≤ pos_part a + neg_part b) × (neg_part (a -ℤ b) ≤ neg_part a + pos_part b)
unfolding ◌-ℤ◌
-ℤ_bounds a b = (ground arith, ground arith)

*ℤ_bounds :
    (a : ℤ) (k : ℕ)
    → (pos_part (a *ℤ pos k) ≤ pos_part a * k) × (neg_part (a *ℤ pos k) ≤ neg_part a * k)
unfolding ◌*ℤ◌
*ℤ_bounds a k = (ground arith, ground arith)

days_before-le : (n : ℕ) → n ≤ 10399 → days_before n ≤ 3799000
days_before-le n h = omega arith

day_of_year-le : (m d : ℕ) → m ≤ 12 → d ≤ 31 → day_of_year m d ≤ 700
unfolding day_of_year
day_of_year-le m d h k = ground arith

lengths_table : all_from_zero (λ i. leb (get_or month_lengths i 0) 31) 12 ≡ true
unfolding all_from_zero
lengths_table = refl

leb_le : (a b : ℕ) → leb a b ≡ true → a ≤ b
leb_le a b h = ground arith

beyond : (i : ℕ) → 12 ≤ i → get_or month_lengths i 0 ≡ 0
beyond i h = ground arith

month_length-le : (i : ℕ) → get_or month_lengths i 0 ≤ 31
month_length-le i = elim (Bool-cases (ltb i 12)) [
  | inl e ↦
      (leb_le _ _ (
        all_from_zero-at (λ i. leb (get_or month_lengths i 0) 31) 12 lengths_table i
          (ground arith)))
  | inr e ↦ rw (beyond i (ground arith)) (omega arith)
]

days_in_month-le : (y m : ℕ) → days_in_month y m ≤ 31
unfolding days_in_month
days_in_month-le y m = elim (Bool-cases (m == 2 && is_leap y)) [
  | inl e ↦ rw e (omega arith)
  | inr e ↦ rw e (month_length-le (m - 1))
]

march_year-le : (y m : ℕ) → y ≤ 9999 → march_year y m ≤ 10399
march_year-le y m h = ground arith

days_bounds :
    (y m d : ℕ)
    → y ≤ 9999
    → m ≤ 12
    → d ≤ 31
    → (pos_part (days_from_civil (pos y) m d) ≤ 3800000)
      × (neg_part (days_from_civil (pos y) m d) ≤ 865565)
days_bounds y m d h k l =
    let n = march_year y m in
    let before = days_before-le n (march_year-le y m h) in
    let within_year = day_of_year-le m d k l in
    let parts = -ℤ_bounds (pos (days_before n + day_of_year m d)) (pos 865565) in
    rw (days_from_civil-eq y m d) (omega (arith, parts.0), omega (arith, parts.1))

clamped_seconds-le : (s : ℕ) → clamped_seconds s ≤ 59
unfolding clamped_seconds
clamped_seconds-le s = ground arith

seconds_bounds :
    (f : Fields)
    → IsAccepted f
    → (pos_part (unix_seconds_of f) ≤ 400000000000) × (neg_part (unix_seconds_of f) ≤ 100000000000)
unfolding unix_seconds_of
seconds_bounds f h =
    let days = days_from_civil (pos f.year) f.month f.day in
    let time = f.hh * 3600 + f.mm * 60 + clamped_seconds f.ss in
    let last = days_in_month-le f.year f.month in
    let d =
      days_bounds f.year f.month f.day h.year_le h.is_date.month_le
        (omega (arith, h.is_date.day_le)) in
    let c = clamped_seconds-le f.ss in
    let m = *ℤ_bounds days 86400 in
    let o = *ℤ_bounds f.offset 60 in
    let s = +ℤ_bounds (days *ℤ pos 86400) (pos time) in
    let r = -ℤ_bounds (days *ℤ pos 86400 +ℤ pos time) (f.offset *ℤ pos 60) in
    (omega (arith, d.0, m.0, o.1, s.0, r.0), omega (arith, d.1, m.1, o.0, s.1, r.1))

filetime_bounds :
    (s : ℤ)
    → pos_part s ≤ 400000000000
    → neg_part s ≤ 100000000000
    → (pos_part (filetime_from_unix_seconds s) < 2 ^ 63)
      × (neg_part (filetime_from_unix_seconds s) ≤ 2 ^ 63)
unfolding filetime_from_unix_seconds
filetime_bounds s h k =
    let m = *ℤ_bounds s filetime_ticks_per_second in
    let a = +ℤ_bounds (s *ℤ pos filetime_ticks_per_second) (pos filetime_unix_epoch) in
    (omega (arith, m.0, a.0), omega (arith, m.1, a.1))

abbrev Fits : Option FileTimeUtc → Type 0
Fits none = Unit
Fits (some t) = (pos_part t < 2 ^ 63) × (neg_part t ≤ 2 ^ 63)

ticks-Fits :
    (o : Option Fields)
    → ((f : Fields) → o ≡ some f → IsAccepted f)
    → Fits (elim o [ none ↦ none | some f ↦ some (filetime_from_unix_seconds (unix_seconds_of f)) ])
ticks-Fits none h = tt
ticks-Fits (some f) h =
    let s = seconds_bounds f (h f refl) in filetime_bounds (unix_seconds_of f) s.0 s.1

-- The result fits a signed 64-bit number, for every text: no date that is accepted overflows it.
pub parse_rfc5322_date_fits :
    (text : Bytes) {t : FileTimeUtc}
    → parse_rfc5322_date text ≡ some t
    → (pos_part t < 2 ^ 63) × (neg_part t ≤ 2 ^ 63)
unfolding parse_rfc5322_date
parse_rfc5322_date_fits text h =
    subst Fits h (ticks-Fits (parse_fields text) (λ f e. parse_fields-IsAccepted text e))

within_iff :
    (now_utc t u : FileTimeUtc)
    → (within now_utc u ≡ some t)
      ↔ (u ≡ t) × (filetime_from_unix_seconds (pos 0) ≤ℤ t) × (t ≤ℤ upper_bound now_utc)
within_iff now_utc t u = (λ h. ground arith, λ h. ground arith)

bounded_iff :
    (o : Option FileTimeUtc) (now_utc t : FileTimeUtc)
    → (elim o [ none ↦ none | some u ↦ within now_utc u ] ≡ some t)
      ↔ (o ≡ some t) × (filetime_from_unix_seconds (pos 0) ≤ℤ t) × (t ≤ℤ upper_bound now_utc)
bounded_iff none now_utc t = (λ h. cc, λ h. cc)
bounded_iff (some u) now_utc t = (
  λ h. let w = (within_iff now_utc t u).0 h in (ap some w.0, w.1, w.2),
  λ h. (within_iff now_utc t u).1 (some-injective u t h.0, h.1, h.2),
)

-- 365 days of 86,400 seconds, in units of 100 ns.
upper_bound_below :
    (now_utc : FileTimeUtc)
    → pos_part now_utc + 315360000000000 < 2 ^ 63
    → upper_bound now_utc ≡ now_utc +ℤ pos 315360000000000
upper_bound_below now_utc h =
    let s = +ℤ_bounds now_utc (pos 315360000000000) in
    rw (lt→ltb (pos_part (now_utc +ℤ pos 315360000000000)) (2 ^ 63) (omega (arith, s.0))) refl

-- Where 365 days behind `now_utc` do not overflow 64 bits, the bounded reader gives `t` exactly
-- when the plain one does and `t` lies between 1970-01-01 (116,444,736,000,000,000 units of 100 ns
-- behind 1601) and 365 days (315,360,000,000,000 units) after `now_utc`, both included.
pub parse_rfc5322_date_bounded_iff :
    (text : Bytes) (now_utc t : FileTimeUtc)
    → pos_part now_utc + 315360000000000 < 2 ^ 63
    → (parse_rfc5322_date_bounded text now_utc ≡ some t)
      ↔ (parse_rfc5322_date text ≡ some t)
        × (pos 116444736000000000 ≤ℤ t)
        × (t ≤ℤ now_utc +ℤ pos 315360000000000)
unfolding parse_rfc5322_date_bounded filetime_from_unix_seconds ◌+ℤ◌ ◌*ℤ◌
parse_rfc5322_date_bounded_iff text now_utc t h =
    subst
      (λ last.
        (parse_rfc5322_date_bounded text now_utc ≡ some t)
        ↔ (parse_rfc5322_date text ≡ some t) × (pos 116444736000000000 ≤ℤ t) × (t ≤ℤ last))
      (upper_bound_below now_utc h) (bounded_iff (parse_rfc5322_date text) now_utc t)
