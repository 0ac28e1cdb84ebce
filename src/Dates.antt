-- ===== src/Dates.antt =====
-- worker/dates/date_parser.cpp: dates of RFC 5322, as FILETIME ticks.
pub mod Tokens
pub mod Civil
pub mod Accepted
pub mod Calendar
pub mod Range
use eml_to_pst.Base.{
  ℕ, suc, ◌+◌, ◌*◌, ◌^◌, ◌%◌, List, [], ◌∷◌, Bool, true, false, not, ◌&&◌, ◌||◌, Option, none, some,
  ltb, leb, ◌==◌, if◌then◌else◌,
}
use eml_to_pst.Base.Int.{ℤ, pos, ◌+ℤ◌, ◌-ℤ◌, ◌*ℤ◌, ltb_ℤ, pos_part}
use eml_to_pst.Base.Text.{Bytes}
use eml_to_pst.Model.{FileTimeUtc, filetime_from_unix_seconds, filetime_ticks_per_second}
use eml_to_pst.Dates.Tokens.{
  strip_comments, tokenize, drop_comma, is_day_name, parse_digits, parse_month, parse_year,
  parse_time, parse_zone,
}
use eml_to_pst.Dates.Civil.{days_in_month, days_from_civil}

-- The fields of a date that has been read; `offset` is in minutes.
pub record Fields : Type 0 where
  pub year : ℕ
  pub month : ℕ
  pub day : ℕ
  pub hh : ℕ
  pub mm : ℕ
  pub ss : ℕ
  pub offset : ℤ

-- A leap second counts as the second before it.
unfoldable pub clamped_seconds : ℕ → ℕ
clamped_seconds ss = if ltb 59 ss then 59 else ss

unfoldable pub unix_seconds_of : Fields → ℤ
unix_seconds_of f =
    days_from_civil (pos f.year) f.month f.day *ℤ pos 86400
    +ℤ pos (f.hh * 3600 + f.mm * 60 + clamped_seconds f.ss)
    -ℤ f.offset *ℤ pos 60

abbrev pub day_of : Bytes → Option ℕ
day_of tok = elim (parse_digits tok 1 2) [
  | none ↦ none
  | some d ↦ if ltb d 1 || ltb 31 d then none else some d
]

-- A month that is not read is 0 in the source.
abbrev pub month_of : Bytes → Option ℕ
month_of tok = let m = parse_month tok in if m == 0 then none else some m

abbrev pub zone_of : Option Bytes → Option ℤ
zone_of none = some (pos 0)
zone_of (some tok) = parse_zone tok

infixl 5 ◌>>=◌ ◌>>◌
abbrev pub ◌>>=◌ {ℓ κ} : {A : Type ℓ} {B : Type κ} → Option A → (A → Option B) → Option B
none >>= f = none
some a >>= f = f a

abbrev pub ◌>>◌ {ℓ} : {B : Type ℓ} → Option (Unit {0}) → Option B → Option B
m >> k = m >>= λ _. k

abbrev pub guard : Bool → Option (Unit {0})
guard true = some tt
guard false = none

-- The tokens behind the day name, in the order in which they are read and refused.
unfoldable pub read_fields : Bytes → Bytes → Bytes → Bytes → Option Bytes → Option Fields
read_fields day_tok month_tok year_tok time_tok zone_tok = do
  day ← day_of day_tok
  month ← month_of month_tok
  year ← parse_year year_tok
  guard (not (ltb (days_in_month year month) day))
  time ← parse_time time_tok
  offset ← zone_of zone_tok
  some (record {
    year = year;
    month = month;
    day = day;
    hh = time.0;
    mm = time.1;
    ss = time.2;
    offset = offset;
  })

-- Four tokens, or five with the zone; fewer or more are refused.
unfoldable pub fields_of : List Bytes → Option Fields
fields_of (d ∷ m ∷ y ∷ t ∷ []) = read_fields d m y t none
fields_of (d ∷ m ∷ y ∷ t ∷ z ∷ []) = read_fields d m y t (some z)
fields_of _ = none

unfoldable pub after_day_name : List Bytes → List Bytes
after_day_name [] = []
after_day_name (t ∷ ts) = if is_day_name (drop_comma t) then ts else t ∷ ts

unfoldable pub parse_fields : Bytes → Option Fields
parse_fields text = fields_of (after_day_name (tokenize (strip_comments text)))

unfoldable pub parse_rfc5322_date : Bytes → Option FileTimeUtc
parse_rfc5322_date text = elim (parse_fields text) [
  | none ↦ none
  | some f ↦ some (filetime_from_unix_seconds (unix_seconds_of f))
]

abbrev pub seconds_per_year_approx : ℕ
seconds_per_year_approx = 365 * 86400

-- A sum of 64-bit numbers, of which only one may be negative, that is too large wraps around.
abbrev pub wrap_64 : ℤ → ℤ
wrap_64 z = if ltb (pos_part z) (2 ^ 63) then z else z -ℤ pos (2 ^ 64)

abbrev pub upper_bound : FileTimeUtc → FileTimeUtc
upper_bound now_utc = wrap_64 (now_utc +ℤ pos (seconds_per_year_approx * filetime_ticks_per_second))

abbrev pub within : FileTimeUtc → FileTimeUtc → Option FileTimeUtc
within now_utc t =
    if ltb_ℤ t (filetime_from_unix_seconds (pos 0))
    then none
    else if ltb_ℤ (upper_bound now_utc) t
    then none
    else some t

unfoldable pub parse_rfc5322_date_bounded : Bytes → FileTimeUtc → Option FileTimeUtc
parse_rfc5322_date_bounded text now_utc = elim (parse_rfc5322_date text) [
  | none ↦ none
  | some t ↦ within now_utc t
]
