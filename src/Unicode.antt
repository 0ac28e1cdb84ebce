-- ===== src/Unicode.antt =====
-- common/unicode/utf.cpp, in the build for Windows, where a wchar_t is a UTF-16 code unit.
pub mod RoundTrip
use Prim.Native.Nat.{compare, Ordering}
use eml_to_pst.Base.{
  ℕ, zero, suc, ◌+◌, ◌-◌, ◌*◌, ◌/◌, ◌%◌, ◌^◌, List, [], ◌∷◌, ◌++◌, Bool, true, false, not, ◌&&◌,
  ◌||◌, Option, none, some, ltb, leb, ◌==◌, if◌then◌else◌,
}
use eml_to_pst.Base.Text.{Bytes, Wide}

abbrev pub replacement_char : ℕ
replacement_char = 0xFFFD

abbrev pub is_high_surrogate : ℕ → Bool
is_high_surrogate u = leb 0xD800 u && leb u 0xDBFF

abbrev pub is_low_surrogate : ℕ → Bool
is_low_surrogate u = leb 0xDC00 u && leb u 0xDFFF

abbrev pub is_surrogate : ℕ → Bool
is_surrogate u = leb 0xD800 u && leb u 0xDFFF

-- `append_utf8`: the bytes of a code point. The bit operations are written as sums, shifts and
-- remainders: `0xC0 | (cp >> 6)` adds, since the shifted value is below the marker's lowest bit.
unfoldable pub utf8_of : ℕ → Bytes
utf8_of cp =
    if leb cp 0x7F
    then cp ∷ []
    else if leb cp 0x7FF
    then (0xC0 + cp / 64) ∷ (0x80 + cp % 64) ∷ []
    else if leb cp 0xFFFF
    then (0xE0 + cp / 4096) ∷ (0x80 + cp / 64 % 64) ∷ (0x80 + cp % 64) ∷ []
    else (0xF0 + cp / 262144)
      ∷ (0x80 + cp / 4096 % 64)
      ∷ (0x80 + cp / 64 % 64)
      ∷ (0x80 + cp % 64)
      ∷ []

-- `append_wide`: the code units of a code point, those of U+FFFD for one that has none.
unfoldable pub wide_of : ℕ → Wide
wide_of cp =
    if ltb 0x10FFFF cp || is_surrogate cp
    then replacement_char ∷ []
    else if leb cp 0xFFFF
    then cp ∷ []
    else (0xD800 + (cp - 0x10000) / 1024) ∷ (0xDC00 + (cp - 0x10000) % 1024) ∷ []

-- The code point of a surrogate pair.
abbrev pub pair_value : ℕ → ℕ → ℕ
pair_value high low = 0x10000 + (high - 0xD800) * 1024 + (low - 0xDC00)

-- A unit that begins no pair.
abbrev pub single : ℕ → Bytes
single unit = utf8_of (if is_surrogate unit then replacement_char else unit)

unfoldable pub utf8_from_wide : Wide → Bytes
unfolding utf8_of
utf8_from_wide [] = []
utf8_from_wide (u ∷ []) = single u
utf8_from_wide (u ∷ v ∷ us) =
    let paired = utf8_of (pair_value u v) ++ utf8_from_wide us in
    let alone = single u ++ utf8_from_wide (v ∷ us) in
    if is_high_surrogate u && is_low_surrogate v then paired else alone

-- How many continuation bytes a leading byte announces, the bits that it carries, and the least
-- code point that needs so many. `none` is a stray continuation byte or an invalid leading byte.
abbrev pub lead : ℕ → Option (ℕ × ℕ × ℕ)
lead b =
    if leb 0xC0 b && ltb b 0xE0
    then some (1, b % 32, 0x80)
    else if leb 0xE0 b && ltb b 0xF0
    then some (2, b % 16, 0x800)
    else if leb 0xF0 b && ltb b 0xF8
    then some (3, b % 8, 0x10000)
    else none

abbrev pub is_continuation : ℕ → Bool
is_continuation b = leb 0x80 b && ltb b 0xC0

-- What a malformed or complete sequence is read as.
unfoldable pub accept : ℕ → ℕ → Wide
accept value min_cp =
    if ltb value min_cp || ltb 0x10FFFF value || is_surrogate value
    then wide_of replacement_char
    else wide_of value

-- The state between bytes: at the start of a sequence, or inside one, with the continuation bytes
-- that are missing (one more than the number), the value so far and the least code point.
pub data Decoding : Type 0 where
  start : Decoding
  inside : ℕ → ℕ → ℕ → Decoding

abbrev pub begin_at : Option (ℕ × ℕ × ℕ) → Wide × Decoding
begin_at none = (wide_of replacement_char, Decoding.start)
begin_at (some (zero, value, min_cp)) = (wide_of replacement_char, Decoding.start)
begin_at (some (suc missing, value, min_cp)) = ([], Decoding.inside missing value min_cp)

-- A byte at the start of a sequence.
unfoldable pub first_byte : ℕ → Wide × Decoding
first_byte b = if ltb b 0x80 then (wide_of b, Decoding.start) else begin_at (lead b)

-- A continuation byte inside a sequence.
abbrev pub next_byte : ℕ → ℕ → ℕ → ℕ → Wide × Decoding
next_byte zero value min_cp b = (accept (value * 64 + b % 64) min_cp, Decoding.start)
next_byte (suc missing) value min_cp b = ([], Decoding.inside missing (value * 64 + b % 64) min_cp)

abbrev pub then_first : Wide → Wide × Decoding → Wide × Decoding
then_first out (more, d) = (out ++ more, d)

-- One byte. A byte that does not continue the sequence ends it as one malformed unit, and is read
-- as the first of the next.
unfoldable pub decode_byte : Decoding → ℕ → Wide × Decoding
decode_byte Decoding.start b = first_byte b
decode_byte (Decoding.inside missing value min_cp) b =
    if is_continuation b
    then next_byte missing value min_cp b
    else then_first (wide_of replacement_char) (first_byte b)

-- The input ends: a sequence that is not complete is one malformed unit.
abbrev pub decode_end : Decoding → Wide
decode_end Decoding.start = []
decode_end (Decoding.inside missing value min_cp) = wide_of replacement_char

unfoldable pub decode_from : Decoding → Bytes → Wide
decode_from d [] = decode_end d
decode_from d (b ∷ bs) = (decode_byte d b).0 ++ decode_from (decode_byte d b).1 bs

unfoldable pub wide_from_utf8 : Bytes → Wide
wide_from_utf8 = decode_from Decoding.start

unfoldable pub compare_ordinal : Wide → Wide → Ordering
compare_ordinal [] [] = Ordering.eq
compare_ordinal [] (b ∷ bs) = Ordering.lt
compare_ordinal (a ∷ xs) [] = Ordering.gt
compare_ordinal (a ∷ xs) (b ∷ ys) = elim (compare a b) [
  | Ordering.lt ↦ Ordering.lt
  | Ordering.eq ↦ compare_ordinal xs ys
  | Ordering.gt ↦ Ordering.gt
]

unfoldable pub fold_ascii_upper : ℕ → ℕ
fold_ascii_upper u = if leb b'a' u && leb u b'z' then u - 32 else u

unfoldable pub compare_ordinal_ignore_case : Wide → Wide → Ordering
compare_ordinal_ignore_case [] [] = Ordering.eq
compare_ordinal_ignore_case [] (b ∷ bs) = Ordering.lt
compare_ordinal_ignore_case (a ∷ xs) [] = Ordering.gt
compare_ordinal_ignore_case (a ∷ xs) (b ∷ ys) =
    elim (compare (fold_ascii_upper a) (fold_ascii_upper b)) [
      | Ordering.lt ↦ Ordering.lt
      | Ordering.eq ↦ compare_ordinal_ignore_case xs ys
      | Ordering.gt ↦ Ordering.gt
    ]

abbrev pub is_equal : Ordering → Bool
is_equal Ordering.eq = true
is_equal _ = false
