-- ===== src/Headers.antt =====
-- worker/headers/header_inspector.h and header_inspector.cpp: the header section of a message,
-- read from the first bytes of its file.
pub mod Window
use eml_to_pst.Base.{
  ℕ, zero, suc, ◌+◌, ◌*◌, List, [], ◌∷◌, ◌++◌, Bool, true, false, not, ◌&&◌, ◌||◌, Option, none,
  some, leb, ◌==◌, if◌then◌else◌, length, take, drop, min,
}
use eml_to_pst.Base.Text.{Bytes, codes, text_eq, find}
use eml_to_pst.Lines.{Ending, Line, line_size, split_lines}

pub record HeaderField : Type 0 where
  pub name : Bytes
  pub value : Bytes

pub record HeaderInspection : Type 0 where
  pub separator_found : Bool
  pub header_bytes : ℕ
  pub malformed : Bool
  pub malformed_reasons : List Bytes
  pub fields : List HeaderField

-- `std::tolower` on an unsigned char, in the C locale.
unfoldable pub to_lower : ℕ → ℕ
to_lower c = if leb b'A' c && leb c b'Z' then c + 32 else c

unfoldable pub ascii_ieq : Bytes → Bytes → Bool
unfolding to_lower
ascii_ieq [] [] = true
ascii_ieq (a ∷ xs) (b ∷ ys) = to_lower a == to_lower b && ascii_ieq xs ys
ascii_ieq _ _ = false

abbrev pub is_ws : ℕ → Bool
is_ws c = c == b' ' || c == b'\t'

unfoldable pub trim_front : Bytes → Bytes
trim_front [] = []
trim_front (c ∷ cs) = let rest = trim_front cs in if is_ws c then rest else c ∷ cs

abbrev keep_byte : ℕ → Bytes → Bytes
keep_byte c [] = if is_ws c then [] else c ∷ []
keep_byte c (d ∷ ds) = c ∷ d ∷ ds

-- Drops the blanks behind the last byte that is none.
unfoldable pub trim_back : Bytes → Bytes
trim_back [] = []
trim_back (c ∷ cs) = keep_byte c (trim_back cs)

unfoldable pub trim : Bytes → Bytes
unfolding trim_front trim_back
trim s = trim_back (trim_front s)

unfoldable pub contains_reason : Bytes → List Bytes → Bool
contains_reason reason [] = false
contains_reason reason (r ∷ rs) = text_eq r reason || contains_reason reason rs

unfoldable pub add_reason : List Bytes → Bytes → List Bytes
add_reason reasons reason =
    if contains_reason reason reasons then reasons else reasons ++ reason ∷ []

unfoldable pub strip_nul : Bytes → Bytes
strip_nul [] = []
strip_nul (c ∷ cs) = let rest = strip_nul cs in if c == 0 then rest else c ∷ rest

unfoldable pub had_nul : Bytes → Bool
had_nul [] = false
had_nul (c ∷ cs) = c == 0 || had_nul cs

-- The variables of the loop of `inspect_headers`.
pub record Scan : Type 0 where
  pub fields : List HeaderField
  pub reasons : List Bytes
  pub saw_nul : Bool
  pub have_current_field : Bool
  pub current_field_index : ℕ
  pub separator_found : Bool
  pub pos : ℕ

abbrev spaced : Bytes → Bytes
spaced [] = []
spaced (v ∷ vs) = (v ∷ vs) ++ b' ' ∷ []

-- `field.value += …` with a blank between two parts that are not empty.
abbrev pub append_value : Bytes → HeaderField → HeaderField
append_value [] f = f
append_value (c ∷ cont) f = record f { value = spaced f.value ++ c ∷ cont }

unfoldable pub append_at : ℕ → Bytes → List HeaderField → List HeaderField
append_at i cont [] = []
append_at zero cont (f ∷ fs) = append_value cont f ∷ fs
append_at (suc i) cont (f ∷ fs) = f ∷ append_at i cont fs

abbrev pub starts_blank : Bytes → Bool
starts_blank [] = false
starts_blank (c ∷ cs) = is_ws c

-- A line of the form `name:value`, cut at its first colon, or a line without a colon.
abbrev pub field_at : Option ℕ → Bytes → Scan → Scan
field_at none cleaned s = record s {
  reasons = add_reason s.reasons (codes "line-without-colon");
  have_current_field = false;
}
field_at (some colon) cleaned s = record s {
  fields =
      s.fields
      ++ record { name = trim (take colon cleaned); value = trim (drop (suc colon) cleaned) } ∷ [];
  current_field_index = length s.fields;
  have_current_field = true;
}

-- The body of the loop for a line that has had its NULs removed.
unfoldable pub inspect_cleaned : Bytes → Scan → Scan
unfolding add_reason trim append_at find
inspect_cleaned cleaned s =
    if starts_blank cleaned
    then (if s.have_current_field
        then record s { fields = append_at s.current_field_index (trim cleaned) s.fields }
        else s)
    else field_at (find b':' cleaned) cleaned s

unfoldable pub inspect_line : Bytes → Scan → Scan
unfolding inspect_cleaned add_reason strip_nul had_nul
inspect_line raw s = inspect_cleaned (strip_nul raw) (
    if had_nul raw
    then record s { saw_nul = true; reasons = add_reason s.reasons (codes "nul-in-header") }
    else s)

-- The line's end: a CR on its own is recorded.
abbrev pub end_line : Ending → Scan → Scan
end_line Ending.cr s = record s { reasons = add_reason s.reasons (codes "bare-cr") }
end_line _ s = s

abbrev pub is_empty : Bytes → Bool
is_empty [] = true
is_empty (c ∷ cs) = false

-- The loop. A blank line ends it, and so does the end of the window.
unfoldable pub inspect_lines : List Line → Scan → Scan
inspect_lines [] s = s
inspect_lines (l ∷ ls) s =
    let ended = record (end_line l.ending s) { pos = s.pos + line_size l } in
    let rest = inspect_lines ls (inspect_line l.content ended) in
    if is_empty l.content then record ended { separator_found = true } else rest

abbrev pub bom : Bytes
bom = 0xEF ∷ 0xBB ∷ 0xBF ∷ []

abbrev pub initial : Scan
initial = record {
  fields = [];
  reasons = [];
  saw_nul = false;
  have_current_field = false;
  current_field_index = 0;
  separator_found = false;
  pos = 0;
}

-- From the window on: the byte order mark is stepped over.
unfoldable pub scan_window : Bytes → Scan
scan_window window =
    if text_eq (take 3 window) bom
    then inspect_lines (split_lines (drop 3 window))
        (record initial { reasons = add_reason [] (codes "utf8-bom"); pos = 3 })
    else inspect_lines (split_lines window) initial

-- Some reason is not the byte order mark.
unfoldable pub tells_malformed : List Bytes → Bool
tells_malformed [] = false
tells_malformed (r ∷ rs) = not (text_eq r (codes "utf8-bom")) || tells_malformed rs

abbrev pub is_nil : List Bytes → Bool
is_nil [] = true
is_nil (r ∷ rs) = false

-- The end of `inspect_headers`: what the scan of a window of `size` bytes amounts to.
unfoldable pub conclude : ℕ → Scan → HeaderInspection
unfolding tells_malformed
conclude size s = record {
  separator_found = s.separator_found;
  header_bytes = if s.separator_found then s.pos else size;
  malformed = (s.saw_nul || not (is_nil s.reasons)) && tells_malformed s.reasons;
  malformed_reasons = s.reasons;
  fields = s.fields;
}

unfoldable pub inspect_headers : Bytes → ℕ → HeaderInspection
inspect_headers raw_prefix cap =
    let window = take (min cap (length raw_prefix)) raw_prefix in
    conclude (length window) (scan_window window)

abbrev pub default_header_cap : ℕ
default_header_cap = 1024 * 1024

unfoldable pub first_value : Bytes → List HeaderField → Option Bytes
unfolding ascii_ieq
first_value name [] = none
first_value name (f ∷ fs) = if ascii_ieq f.name name then some f.value else first_value name fs

unfoldable pub all_values : Bytes → List HeaderField → List Bytes
unfolding ascii_ieq
all_values name [] = []
all_values name (f ∷ fs) =
    let rest = all_values name fs in if ascii_ieq f.name name then f.value ∷ rest else rest

abbrev last_cut : ℕ → ℕ → Bytes → Option Bytes → Option Bytes
last_cut c x xs (some s) = some s
last_cut c x xs none = if x == c then some xs else none

-- `rfind(c)`, and the text behind it.
unfoldable pub after_last : ℕ → Bytes → Option Bytes
after_last c [] = none
after_last c (x ∷ xs) = last_cut c x xs (after_last c xs)

abbrev some_if_text : Bytes → Option Bytes
some_if_text [] = none
some_if_text (c ∷ cs) = some (c ∷ cs)

abbrev candidate : List Bytes → Option Bytes
candidate [] = none
candidate (v ∷ vs) = elim (after_last b';' v) [ none ↦ none | some s ↦ some_if_text (trim s) ]

unfoldable pub date : HeaderInspection → Option Bytes
unfolding first_value
date h = first_value (codes "Date") h.fields

unfoldable pub message_id : HeaderInspection → Option Bytes
unfolding first_value
message_id h = first_value (codes "Message-ID") h.fields

unfoldable pub received : HeaderInspection → List Bytes
unfolding all_values
received h = all_values (codes "Received") h.fields

unfoldable pub first_received_date_candidate : HeaderInspection → Option Bytes
unfolding received after_last trim
first_received_date_candidate h = candidate (received h)

unfoldable pub x_unsent : HeaderInspection → Bool
unfolding first_value text_eq
x_unsent h = elim (first_value (codes "X-Unsent") h.fields) [
  | none ↦ false
  | some v ↦ text_eq v (codes "1")
]
