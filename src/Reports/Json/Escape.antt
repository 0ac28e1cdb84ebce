-- ===== src/Reports/Json/Escape.antt =====
-- `write_json_string` of worker/reporting/json_writer.cpp against a reader of JSON strings.
use mathlib.Core.List.{append_assoc}
use eml_to_pst.Base.{
  ℕ, zero, suc, ◌+◌, ◌-◌, ◌*◌, ◌/◌, ◌%◌, ◌<◌, ◌≡◌, refl, ap, ◌∙◌, [], ◌∷◌, ◌++◌, ◌&&◌, Option, none,
  some, ltb, leb, ◌==◌, if◌then◌else◌, arith,
}
use eml_to_pst.Base.Text.{Bytes, codes}
use eml_to_pst.Reports.Json.{hex_digit, escape_byte, escape_all, write_json_string}

-- Inside a string: at a character, behind a backslash, or with hexadecimal digits of \u missing
-- (one more than the number) and their value so far.
pub data Reading : Type 0 where
  plain escaped : Reading
  hex : ℕ → ℕ → Reading

abbrev pub push : ℕ → Option (Bytes × Bytes) → Option (Bytes × Bytes)
push c none = none
push c (some (s, rest)) = some (c ∷ s, rest)

abbrev pub escape_value : ℕ → Option ℕ
escape_value e =
    if e == b'"'
    then some b'"'
    else if e == b'\\'
    then some b'\\'
    else if e == b'/'
    then some b'/'
    else if e == b'b'
    then some 8
    else if e == b'f'
    then some 12
    else if e == b'n'
    then some 10
    else if e == b'r'
    then some 13
    else if e == b't'
    then some 9
    else none

unfoldable pub digit_value : ℕ → Option ℕ
digit_value d =
    if leb b'0' d && leb d b'9'
    then some (d - 48)
    else if leb b'a' d && leb d b'f'
    then some (d - 87)
    else if leb b'A' d && leb d b'F'
    then some (d - 55)
    else none

-- The text up to the closing quote as RFC 8259 reads it, and what follows; \u stands for one byte
-- here, as it does for control characters.
unfoldable pub read_chars : Reading → Bytes → Option (Bytes × Bytes)
read_chars r [] = none
read_chars Reading.plain (c ∷ cs) =
    let plain = push c (read_chars Reading.plain cs) in
    let escape = read_chars Reading.escaped cs in
    if c == b'"'
    then some ([], cs)
    else if c == b'\\'
    then escape
    else if ltb c 0x20
    then none
    else plain
read_chars Reading.escaped (c ∷ cs) =
    let digits = read_chars (Reading.hex 3 0) cs in
    let simple = read_chars Reading.plain cs in
    if c == b'u' then digits else elim (escape_value c) [ none ↦ none | some v ↦ push v simple ]
read_chars (Reading.hex zero value) (c ∷ cs) = elim (digit_value c) [
  | none ↦ none
  | some d ↦ push (value * 16 + d) (read_chars Reading.plain cs)
]
read_chars (Reading.hex (suc missing) value) (c ∷ cs) = elim (digit_value c) [
  | none ↦ none
  | some d ↦ read_chars (Reading.hex missing (value * 16 + d)) cs
]

unfoldable pub read_string : Bytes → Option (Bytes × Bytes)
read_string [] = none
read_string (c ∷ cs) = if c == b'"' then read_chars Reading.plain cs else none

digit_value-hex_digit : (d : ℕ) → d < 16 → digit_value (hex_digit d) ≡ some d
unfolding digit_value
digit_value-hex_digit d h = ground arith

more_digits :
    (missing value d : ℕ) (cs : Bytes)
    → d < 16
    → read_chars (Reading.hex (suc missing) value) (hex_digit d ∷ cs)
      ≡ read_chars (Reading.hex missing (value * 16 + d)) cs
unfolding read_chars
more_digits missing value d cs h = rw (read_chars, digit_value-hex_digit d h) refl

last_digit :
    (value d : ℕ) (cs : Bytes)
    → d < 16
    → read_chars (Reading.hex 0 value) (hex_digit d ∷ cs)
      ≡ push (value * 16 + d) (read_chars Reading.plain cs)
unfolding read_chars
last_digit value d cs h = rw (read_chars, digit_value-hex_digit d h) refl

read_hex :
    (a b : ℕ) (cs : Bytes)
    → a < 16
    → b < 16
    → read_chars Reading.plain (codes "\\u00" ++ hex_digit a ∷ hex_digit b ∷ cs)
      ≡ push (a * 16 + b) (read_chars Reading.plain cs)
unfolding read_chars digit_value
read_hex a b cs h k =
    more_digits 0 0 a (hex_digit b ∷ cs) h
    ∙ last_digit (0 * 16 + a) b cs k
    ∙ ap (λ v. push v (read_chars Reading.plain cs)) (omega arith)

read_byte :
    (c : ℕ) (cs : Bytes)
    → read_chars Reading.plain (escape_byte c ++ cs) ≡ push c (read_chars Reading.plain cs)
unfolding read_chars escape_byte
read_byte c cs = ground (arith, read_hex (c / 16) (c % 16) cs)

read_all :
    (s rest : Bytes) → read_chars Reading.plain (escape_all s ++ b'"' ∷ rest) ≡ some (s, rest)
unfolding escape_all read_chars
read_all [] rest = refl
read_all (c ∷ s) rest =
    ap (read_chars Reading.plain) (append_assoc (escape_byte c) (escape_all s) (b'"' ∷ rest))
    ∙ read_byte c (escape_all s ++ b'"' ∷ rest)
    ∙ ap (push c) (read_all s rest)

-- Whatever bytes a string holds, and whatever follows: a reader of JSON strings, which refuses
-- control bytes and knows only the escapes of RFC 8259, reads the written string back and leaves
-- what follows.
pub read_string-write_json_string :
    (s rest : Bytes) → read_string (write_json_string s ++ rest) ≡ some (s, rest)
unfolding read_string write_json_string
read_string-write_json_string s rest =
    ap (read_chars Reading.plain) (append_assoc (escape_all s) (b'"' ∷ []) rest) ∙ read_all s rest
