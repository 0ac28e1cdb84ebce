-- ===== src/Dates/Accepted.antt =====
-- What `parse_rfc5322_date` of worker/dates/date_parser.cpp has checked of a text it accepts.
use mathlib.Core.Path.{subst}
use eml_to_pst.Base.{
  ℕ, suc, ◌+◌, ◌*◌, ◌≤◌, ◌<◌, ◌≡◌, ◌-◌, refl, List, [], ◌∷◌, false, not, ◌&&◌, ◌||◌, Option, none,
  some, arith, ltb, leb, ◌==◌, if◌then◌else◌, length, take, Bool-cases, inl, inr, Option-cases,
}
use eml_to_pst.Base.Int.{ℤ, pos, ◌-ℤ◌, pos_part, neg_part}
use eml_to_pst.Base.Text.{Bytes, text_eq}
use eml_to_pst.Dates.Civil.{days_in_month}
use eml_to_pst.Dates.Calendar.{IsDate}
use eml_to_pst.Dates.Tokens.{
  tokenize, strip_comments, is_alpha, cut_at, minutes_and_seconds, join_time, is_digit_ch,
  digits_value, parse_digits, month_index, to_upper, month_names, parse_month, century, parse_year,
  clock_part, seconds_part, clock_time, military_zone, parse_time, numeric_zone, zone_named,
  named_zones, other_zone, parse_zone,
}
use eml_to_pst.Dates.{
  Fields, guard, ◌>>=◌, day_of, month_of, zone_of, read_fields, fields_of, parse_fields,
  after_day_name,
}

-- The ranges that are checked: a day of the calendar, a time of day (a leap second included), and
-- an offset of less than fifteen hours.
pub record IsAccepted (f : Fields) : Type 0 where
  pub is_date : IsDate f.year f.month f.day
  pub year_le : f.year ≤ 9999
  pub hour_le : f.hh ≤ 23
  pub minute_le : f.mm ≤ 59
  pub second_le : f.ss ≤ 60
  pub offset_east : pos_part f.offset < 900
  pub offset_west : neg_part f.offset < 900

-- The largest number that starts with the digits of `u` and has as many more as the token.
abbrev all_nines : ℕ → Bytes → ℕ
all_nines u [] = u
all_nines u (c ∷ cs) = all_nines (u * 10 + 9) cs

digits_value-le :
    (v u : ℕ) (tok : Bytes) (n : ℕ) → v ≤ u → digits_value v tok ≡ some n → n ≤ all_nines u tok
unfolding digits_value
digits_value-le v u [] n h e = ground arith
digits_value-le v u (c ∷ cs) n h e =
    ground (arith, digits_value-le (v * 10 + (c - b'0')) (u * 10 + 9) cs n)

-- A number of two digits more fits behind any century of the source.
year_of_digits :
    (tok : Bytes) (v : ℕ) → v ≤ all_nines 0 tok → length tok ≤ 4 → century (length tok) v ≤ 9999
year_of_digits [] v h l = omega arith
year_of_digits (a ∷ []) v h l = omega arith
year_of_digits (a ∷ b ∷ []) v h l = ground arith
year_of_digits (a ∷ b ∷ c ∷ []) v h l = omega arith
year_of_digits (a ∷ b ∷ c ∷ d ∷ []) v h l = omega arith
year_of_digits (a ∷ b ∷ c ∷ d ∷ e ∷ tok) v h l = absurd (omega arith)

parse_year-le : (tok : Bytes) {y : ℕ} → parse_year tok ≡ some y → y ≤ 9999
unfolding parse_year parse_digits
parse_year-le tok h = elim (Option-cases (digits_value 0 tok)) [
  | inl e ↦ ground arith
  | inr (v, e) ↦
      let small = digits_value-le 0 0 tok v (omega arith) e in
      ground (arith, year_of_digits tok v small)
]

month_index-lt :
    (upper : Bytes) (i : ℕ) (xs : List Bytes) → 1 ≤ i → month_index upper i xs < i + length xs
unfolding month_index
month_index-lt upper i [] h = omega arith
month_index-lt upper i (x ∷ xs) h = ground (arith, month_index-lt upper (suc i) xs)

parse_month-le : (tok : Bytes) → parse_month tok ≤ 12
unfolding parse_month
parse_month-le tok = ground (arith, month_index-lt (to_upper (take 3 tok)) 1 month_names)

abbrev IsOffset : Option ℤ → Type 0
IsOffset none = Unit
IsOffset (some z) = (pos_part z < 900) × (neg_part z < 900)

signed_minutes : (s m : ℕ) → m < 900 → IsOffset (some (if s == b'-' then pos 0 -ℤ pos m else pos m))
unfolding ◌-ℤ◌
signed_minutes s m h = (ground arith, ground arith)

minutes-lt : (hh mm : ℕ) → (leb 60 mm || ltb 14 hh) ≡ false → hh * 60 + mm < 900
minutes-lt hh mm h = ground arith

numeric_zone-IsOffset : (s a b c d : ℕ) → IsOffset (numeric_zone s a b c d)
unfolding numeric_zone
numeric_zone-IsOffset s a b c d =
    let hh : ℕ = (a - b'0') * 10 + (b - b'0') in
    let mm : ℕ = (c - b'0') * 10 + (d - b'0') in
    elim (Bool-cases (is_digit_ch a && is_digit_ch b && is_digit_ch c && is_digit_ch d)) [
      | inr e ↦ rw e tt
      | inl e ↦ elim (Bool-cases (leb 60 mm || ltb 14 hh)) [
        | inl f ↦ rw (e, f) tt
        | inr f ↦ rw (e, f) (signed_minutes s (hh * 60 + mm) (minutes-lt hh mm f))
      ]
    ]

abbrev ShortZones : List (Bytes × ℤ) → Type 0
ShortZones [] = Unit
ShortZones ((name, z) ∷ zs) = (pos_part z < 900) × (neg_part z < 900) × ShortZones zs

zone_named-IsOffset :
    (upper : Bytes) (zs : List (Bytes × ℤ)) → ShortZones zs → IsOffset (zone_named upper zs)
unfolding zone_named
zone_named-IsOffset upper [] h = tt
zone_named-IsOffset upper ((name, z) ∷ zs) h = elim (Bool-cases (text_eq upper name)) [
  | inl e ↦ rw e (h.0, h.1)
  | inr e ↦ rw e (zone_named-IsOffset upper zs h.2)
]

military_zone-IsOffset : (tok : Bytes) → IsOffset (military_zone tok)
military_zone-IsOffset [] = tt
military_zone-IsOffset (c ∷ []) = elim (Bool-cases (is_alpha c)) [
  | inl e ↦ rw e (omega arith)
  | inr e ↦ rw e tt
]
military_zone-IsOffset (c ∷ d ∷ cs) = tt

first_zone :
    (z : Option ℤ) (tok : Bytes)
    → IsOffset z
    → IsOffset (elim z [ none ↦ military_zone tok | some m ↦ some m ])
first_zone none tok h = military_zone-IsOffset tok
first_zone (some m) tok h = h

other_zone-IsOffset : (tok : Bytes) → IsOffset (other_zone tok)
unfolding other_zone
other_zone-IsOffset tok =
    first_zone (zone_named (to_upper tok) named_zones) tok
      (zone_named-IsOffset (to_upper tok) named_zones (omega arith))

parse_zone-IsOffset : (tok : Bytes) → IsOffset (parse_zone tok)
unfolding parse_zone
parse_zone-IsOffset (s ∷ a ∷ b ∷ c ∷ d ∷ []) =
    ground (arith, numeric_zone-IsOffset s a b c d, other_zone-IsOffset (s ∷ a ∷ b ∷ c ∷ d ∷ []))
parse_zone-IsOffset tok = other_zone-IsOffset tok

abbrev IsLe : Option ℕ → ℕ → Type 0
IsLe none k = Unit
IsLe (some v) k = v ≤ k

le_of_not_ltb : (a b : ℕ) → ltb a b ≡ false → b ≤ a
le_of_not_ltb a b h = ground arith

clock_part-IsLe : (tok : Bytes) (limit : ℕ) → IsLe (clock_part tok limit) limit
clock_part-IsLe tok limit = below_limit (parse_digits tok 1 2)
  where
    below_limit :
        (o : Option ℕ)
        → IsLe (elim o [ none ↦ none | some v ↦ if ltb limit v then none else some v ]) limit
    below_limit none = tt
    below_limit (some v) = elim (Bool-cases (ltb limit v)) [
      | inl e ↦ rw e tt
      | inr e ↦ rw e (le_of_not_ltb limit v e)
    ]

seconds_part-IsLe : (tok : Option Bytes) → IsLe (seconds_part tok) 60
seconds_part-IsLe none = omega arith
seconds_part-IsLe (some tok) = clock_part-IsLe tok 60

abbrev IsTime : Option (ℕ × ℕ × ℕ) → Type 0
IsTime none = Unit
IsTime (some (hh, mm, ss)) = (hh ≤ 23) × (mm ≤ 59) × (ss ≤ 60)

join_time-IsTime : (a b c : Option ℕ) → IsLe a 23 → IsLe b 59 → IsLe c 60 → IsTime (join_time a b c)
join_time-IsTime (some a) (some b) (some c) p q r = (p, q, r)
join_time-IsTime _ _ _ p q r = tt

clock_time-IsTime : (hpart : Bytes) (rest : Bytes × Option Bytes) → IsTime (clock_time hpart rest)
clock_time-IsTime hpart (mpart, spart) =
    join_time-IsTime (clock_part hpart 23) (clock_part mpart 59) (seconds_part spart)
      (clock_part-IsLe hpart 23) (clock_part-IsLe mpart 59) (seconds_part-IsLe spart)

IsTime-of_cut :
    (cut : Option (Bytes × Bytes))
    → IsTime (elim cut [
      | none ↦ none
      | some (hpart, rest) ↦ clock_time hpart (minutes_and_seconds rest (cut_at b':' rest))
    ])
IsTime-of_cut none = tt
IsTime-of_cut (some (hpart, rest)) =
    clock_time-IsTime hpart (minutes_and_seconds rest (cut_at b':' rest))

parse_time-IsTime : (tok : Bytes) → IsTime (parse_time tok)
unfolding parse_time
parse_time-IsTime tok = IsTime-of_cut (cut_at b':' tok)

-- What the reading of the tokens amounts to where each of them is read.
abbrev Reads : Option Fields → Type 0
Reads none = Unit
Reads (some f) = IsAccepted f

bind-Reads :
    {A : Type 0} (o : Option A) (f : A → Option Fields)
    → ((a : A) → o ≡ some a → Reads (f a))
    → Reads (o >>= f)
bind-Reads none f h = tt
bind-Reads (some a) f h = h a refl

day_of-pos : (tok : Bytes) (d : ℕ) → day_of tok ≡ some d → 1 ≤ d
day_of-pos tok d h = ground arith

month_of-le : (tok : Bytes) (m : ℕ) → month_of tok ≡ some m → (1 ≤ m) × (m ≤ 12)
month_of-le tok m h = ground (arith, parse_month-le tok)

guard_le : (a b : ℕ) → guard (not (ltb a b)) ≡ some tt → b ≤ a
guard_le a b h = ground arith

zone_of-IsOffset : (z : Option Bytes) → IsOffset (zone_of z)
zone_of-IsOffset none = omega arith
zone_of-IsOffset (some tok) = parse_zone-IsOffset tok

read_fields-Reads : (d m y t : Bytes) (z : Option Bytes) → Reads (read_fields d m y t z)
unfolding read_fields
read_fields-Reads d m y t z = bind-Reads (day_of d) _ λ day hd.
    bind-Reads (month_of m) _ λ month hm. bind-Reads (parse_year y) _ λ year hy.
      bind-Reads (guard (not (ltb (days_in_month year month) day))) _ λ u hg.
        bind-Reads (parse_time t) _ λ time ht. bind-Reads (zone_of z) _ λ offset ho.
          let times = subst IsTime ht (parse_time-IsTime t) in
          let offsets = subst IsOffset ho (zone_of-IsOffset z) in
          record {
            is_date = record {
              month_pos = (month_of-le m month hm).0;
              month_le = (month_of-le m month hm).1;
              day_pos = day_of-pos d day hd;
              day_le = guard_le (days_in_month year month) day hg;
            };
            year_le = parse_year-le y hy;
            hour_le = times.0;
            minute_le = times.1;
            second_le = times.2;
            offset_east = offsets.0;
            offset_west = offsets.1;
          }

fields_of-Reads : (ts : List Bytes) → Reads (fields_of ts)
unfolding fields_of
fields_of-Reads (d ∷ m ∷ y ∷ t ∷ []) = read_fields-Reads d m y t none
fields_of-Reads (d ∷ m ∷ y ∷ t ∷ z ∷ []) = read_fields-Reads d m y t (some z)
fields_of-Reads _ = tt

-- A text that is accepted names a day that the calendar has, and a time and an offset in range.
pub parse_fields-IsAccepted :
    (text : Bytes) {f : Fields} → parse_fields text ≡ some f → IsAccepted f
unfolding parse_fields
parse_fields-IsAccepted text h =
    subst Reads h (fields_of-Reads (after_day_name (tokenize (strip_comments text))))
