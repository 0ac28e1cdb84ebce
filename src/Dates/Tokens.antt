-- ===== src/Dates/Tokens.antt =====
-- worker/dates/date_parser.cpp: comments, tokens, and what single tokens stand for.
use eml_to_pst.Base.{
  ℕ, zero, suc, ◌+◌, ◌-◌, ◌*◌, List, [], ◌∷◌, ◌++◌, Bool, false, not, ◌&&◌, ◌||◌, Option, none,
  some, ltb, leb, ◌==◌, if◌then◌else◌, length, take, drop, map,
}
use eml_to_pst.Base.Int.{ℤ, pos, ◌-ℤ◌}
use eml_to_pst.Base.Text.{Bytes, codes, text_eq, find}

-- `std::toupper` on an unsigned char, in the C locale.
unfoldable pub to_upper_ch : ℕ → ℕ
to_upper_ch c = if leb b'a' c && leb c b'z' then c - 32 else c

abbrev pub is_digit_ch : ℕ → Bool
is_digit_ch c = leb b'0' c && leb c b'9'

unfoldable pub to_upper : Bytes → Bytes
to_upper s = map to_upper_ch s

-- The depth of comments behind a byte that stands inside one and escapes nothing.
abbrev inside_depth : ℕ → ℕ → ℕ
inside_depth d c = if c == b'(' then suc (suc d) else if c == b')' then d else suc d

-- The loop of `strip_comments` at a depth. A backslash inside a comment takes the next byte along.
unfoldable pub strip_at : ℕ → Bytes → Bytes
strip_at depth [] = []
strip_at zero (c ∷ cs) =
    let rest = strip_at (if c == b'(' then 1 else 0) cs in if c == b'(' then rest else c ∷ rest
strip_at (suc d) (c ∷ []) = []
strip_at (suc d) (c ∷ e ∷ cs) =
    let skipped = strip_at (suc d) cs in
    let next = strip_at (inside_depth d c) (e ∷ cs) in if c == b'\\' then skipped else next

unfoldable pub strip_comments : Bytes → Bytes
unfolding strip_at
strip_comments = strip_at 0

-- The blanks are space, tab, CR, LF, vertical tab and form feed.
abbrev pub is_ws_ch : ℕ → Bool
is_ws_ch c = c == b' ' || c == b'\t' || c == b'\r' || c == b'\n' || c == 11 || c == 12

abbrev flush : Bytes → List Bytes → List Bytes
flush [] rest = rest
flush (c ∷ cs) rest = (c ∷ cs) ∷ rest

-- `token` holds the bytes read since the last blank.
unfoldable pub tokens_from : Bytes → Bytes → List Bytes
tokens_from token [] = flush token []
tokens_from token (c ∷ cs) =
    let rest = tokens_from (if is_ws_ch c then [] else token ++ c ∷ []) cs in
    if is_ws_ch c then flush token rest else rest

unfoldable pub tokenize : Bytes → List Bytes
unfolding tokens_from
tokenize = tokens_from []

unfoldable pub digits_value : ℕ → Bytes → Option ℕ
digits_value value [] = some value
digits_value value (c ∷ cs) =
    let rest = digits_value (value * 10 + (c - b'0')) cs in if is_digit_ch c then rest else none

unfoldable pub parse_digits : Bytes → ℕ → ℕ → Option ℕ
parse_digits tok min_len max_len =
    if ltb (length tok) min_len || ltb max_len (length tok) then none else digits_value 0 tok

abbrev pub day_names : List Bytes
day_names =
    codes "MON"
    ∷ codes "TUE"
    ∷ codes "WED"
    ∷ codes "THU"
    ∷ codes "FRI"
    ∷ codes "SAT"
    ∷ codes "SUN"
    ∷ []

unfoldable pub contains : Bytes → List Bytes → Bool
contains t [] = false
contains t (x ∷ xs) = text_eq t x || contains t xs

unfoldable pub is_day_name : Bytes → Bool
is_day_name core = length core == 3 && contains (to_upper core) day_names

abbrev pub month_names : List Bytes
month_names =
    codes "JAN"
    ∷ codes "FEB"
    ∷ codes "MAR"
    ∷ codes "APR"
    ∷ codes "MAY"
    ∷ codes "JUN"
    ∷ codes "JUL"
    ∷ codes "AUG"
    ∷ codes "SEP"
    ∷ codes "OCT"
    ∷ codes "NOV"
    ∷ codes "DEC"
    ∷ []

-- The number of the first name that is equal, counted from `i`; 0 where none is.
unfoldable pub month_index : Bytes → ℕ → List Bytes → ℕ
month_index upper i [] = 0
month_index upper i (x ∷ xs) =
    let rest = month_index upper (suc i) xs in if text_eq upper x then i else rest

unfoldable pub parse_month : Bytes → ℕ
parse_month tok =
    if ltb (length tok) 3 then 0 else month_index (to_upper (take 3 tok)) 1 month_names

abbrev pub century : ℕ → ℕ → ℕ
century size v =
    if size == 2
    then (if leb v 49 then 2000 + v else 1900 + v)
    else if size == 3
    then 1900 + v
    else v

unfoldable pub parse_year : Bytes → Option ℕ
parse_year tok =
    if ltb (length tok) 2 || ltb 4 (length tok)
    then none
    else elim (parse_digits tok (length tok) (length tok)) [
      | none ↦ none
      | some v ↦ some (century (length tok) v)
    ]

-- One or two digits, up to a limit.
abbrev pub clock_part : Bytes → ℕ → Option ℕ
clock_part tok limit = elim (parse_digits tok 1 2) [
  | none ↦ none
  | some v ↦ if ltb limit v then none else some v
]

abbrev pub seconds_part : Option Bytes → Option ℕ
seconds_part none = some 0
seconds_part (some tok) = clock_part tok 60

-- The parts before and behind the first `c`.
unfoldable pub cut_at : ℕ → Bytes → Option (Bytes × Bytes)
cut_at c tok = elim (find c tok) [ none ↦ none | some i ↦ some (take i tok, drop (suc i) tok) ]

abbrev pub minutes_and_seconds : Bytes → Option (Bytes × Bytes) → Bytes × Option Bytes
minutes_and_seconds rest none = (rest, none)
minutes_and_seconds rest (some (m, s)) = (m, some s)

-- A time is read where its parts are.
abbrev pub join_time : Option ℕ → Option ℕ → Option ℕ → Option (ℕ × ℕ × ℕ)
join_time (some hh) (some mm) (some ss) = some (hh, mm, ss)
join_time _ _ _ = none

abbrev pub clock_time : Bytes → Bytes × Option Bytes → Option (ℕ × ℕ × ℕ)
clock_time hpart (mpart, spart) =
    join_time (clock_part hpart 23) (clock_part mpart 59) (seconds_part spart)

unfoldable pub parse_time : Bytes → Option (ℕ × ℕ × ℕ)
parse_time tok = elim (cut_at b':' tok) [
  | none ↦ none
  | some (hpart, rest) ↦ clock_time hpart (minutes_and_seconds rest (cut_at b':' rest))
]

abbrev pub named_zones : List (Bytes × ℤ)
named_zones =
    (codes "UT", pos 0)
    ∷ (codes "GMT", pos 0)
    ∷ (codes "Z", pos 0)
    ∷ (codes "EST", ℤ.negsuc 299)
    ∷ (codes "EDT", ℤ.negsuc 239)
    ∷ (codes "CST", ℤ.negsuc 359)
    ∷ (codes "CDT", ℤ.negsuc 299)
    ∷ (codes "MST", ℤ.negsuc 419)
    ∷ (codes "MDT", ℤ.negsuc 359)
    ∷ (codes "PST", ℤ.negsuc 479)
    ∷ (codes "PDT", ℤ.negsuc 419)
    ∷ []

unfoldable pub zone_named : Bytes → List (Bytes × ℤ) → Option ℤ
zone_named upper [] = none
zone_named upper ((name, minutes) ∷ zs) =
    let rest = zone_named upper zs in if text_eq upper name then some minutes else rest

abbrev pub is_alpha : ℕ → Bool
is_alpha c = leb b'A' c && leb c b'Z' || leb b'a' c && leb c b'z'

abbrev digit : ℕ → ℕ
digit c = c - b'0'

-- "+HHMM" and "-HHMM".
unfoldable pub numeric_zone : ℕ → ℕ → ℕ → ℕ → ℕ → Option ℤ
numeric_zone sign h1 h2 m1 m2 =
    let hh = digit h1 * 10 + digit h2 in
    let mm = digit m1 * 10 + digit m2 in
    if not (is_digit_ch h1 && is_digit_ch h2 && is_digit_ch m1 && is_digit_ch m2)
    then none
    else if leb 60 mm || ltb 14 hh
    then none
    else some (if sign == b'-' then pos 0 -ℤ pos (hh * 60 + mm) else pos (hh * 60 + mm))

-- A military zone is a single letter, and counts as +0000.
abbrev pub military_zone : Bytes → Option ℤ
military_zone (c ∷ []) = if is_alpha c then some (pos 0) else none
military_zone _ = none

unfoldable pub other_zone : Bytes → Option ℤ
other_zone tok = elim (zone_named (to_upper tok) named_zones) [
  | none ↦ military_zone tok
  | some z ↦ some z
]

unfoldable pub parse_zone : Bytes → Option ℤ
parse_zone (s ∷ h1 ∷ h2 ∷ m1 ∷ m2 ∷ []) =
    if s == b'+' || s == b'-'
    then numeric_zone s h1 h2 m1 m2
    else other_zone (s ∷ h1 ∷ h2 ∷ m1 ∷ m2 ∷ [])
parse_zone tok = other_zone tok

-- Without one comma at the end.
unfoldable pub drop_comma : Bytes → Bytes
drop_comma [] = []
drop_comma (c ∷ []) = if c == b',' then [] else c ∷ []
drop_comma (c ∷ d ∷ cs) = c ∷ drop_comma (d ∷ cs)
