-- ===== src/StateDb/Columns.antt =====
-- The conversions of worker/resume/sqlite_util.cpp (namespace `detail`) between a wide text and a
-- TEXT column, in the build for Windows, where a wchar_t is a UTF-16 code unit.
pub mod RoundTrip
use eml_to_pst.Base.{
  ℕ, zero, suc, ◌+◌, ◌-◌, ◌*◌, ◌/◌, ◌%◌, List, [], ◌∷◌, ◌++◌, Bool, ◌&&◌, ◌||◌, ltb, leb, ◌==◌,
  if◌then◌else◌,
}
use eml_to_pst.Base.Text.{Bytes, Wide}

-- `append_utf8`: the bytes that it appends.
unfoldable pub append_utf8 : ℕ → Bytes
append_utf8 cp =
    if leb cp 0x7F
    then cp ∷ []
    else if leb cp 0x7FF
    then (0xC0 + cp / 64) ∷ (0x80 + cp % 64) ∷ []
    else if leb cp 0xFFFF
    then (0xE0 + cp / 4096) ∷ (0x80 + cp / 64 % 64) ∷ (0x80 + cp % 64) ∷ []
    else (0xF0 + cp / 262144)
      ∷ (0x80 + cp / 4096 % 64)
      ∷ (0x80 + cp / 64 % 64)
      ∷ (0x80 + cp % 64)
      ∷ []

abbrev pub is_high : ℕ → Bool
is_high unit = leb 0xD800 unit && leb unit 0xDBFF

abbrev pub is_low : ℕ → Bool
is_low unit = leb 0xDC00 unit && leb unit 0xDFFF

-- A unit that begins no pair: a surrogate becomes U+FFFD.
abbrev pub unpaired : ℕ → Bytes
unpaired unit = append_utf8 (if is_high unit || is_low unit then 0xFFFD else unit)

unfoldable pub wide_to_utf8 : Wide → Bytes
wide_to_utf8 [] = []
wide_to_utf8 (u ∷ []) = unpaired u
wide_to_utf8 (u ∷ v ∷ us) =
    let paired = append_utf8 (0x10000 + (u - 0xD800) * 1024 + (v - 0xDC00)) ++ wide_to_utf8 us in
    let alone = unpaired u ++ wide_to_utf8 (v ∷ us) in
    if is_high u && is_low v then paired else alone

-- The length that a leading byte announces, and the bits that it carries.
abbrev pub announced : ℕ → ℕ × ℕ
announced c0 =
    if ltb c0 0x80
    then (1, c0)
    else if leb 0xC0 c0 && ltb c0 0xE0
    then (2, c0 % 32)
    else if leb 0xE0 c0 && ltb c0 0xF0
    then (3, c0 % 16)
    else if leb 0xF0 c0 && ltb c0 0xF8
    then (4, c0 % 8)
    else (1, 0xFFFD)

-- The loop over the continuation bytes: `k` are still to come, behind a sequence of `len` bytes.
-- The result is the length that is taken and the code point.
unfoldable pub accumulate : ℕ → ℕ → ℕ → Bytes → ℕ × ℕ
accumulate len zero accum cs = (len, accum)
accumulate len (suc k) accum [] = (1, 0xFFFD)
accumulate len (suc k) accum (c ∷ cs) =
    let further = accumulate len k (accum * 64 + c % 64) cs in
    if leb 0x80 c && ltb c 0xC0 then further else (1, 0xFFFD)

abbrev pub decoded : ℕ → Bytes → ℕ × ℕ
decoded c0 cs = let (len, cp) = announced c0 in accumulate len (len - 1) cp cs

abbrev pub units_of : ℕ → Wide
units_of cp =
    if ltb 0xFFFF cp
    then (0xD800 + (cp - 0x10000) / 1024) ∷ (0xDC00 + (cp - 0x10000) % 1024) ∷ []
    else cp ∷ []

-- The text behind the next `skip` bytes, which a sequence has taken already.
unfoldable pub decode_behind : ℕ → Bytes → Wide
decode_behind skip [] = []
decode_behind (suc skip) (c ∷ cs) = decode_behind skip cs
decode_behind zero (c ∷ cs) =
    let (len, cp) = decoded c cs in units_of cp ++ decode_behind (len - 1) cs

unfoldable pub utf8_to_wide : Bytes → Wide
utf8_to_wide bytes = decode_behind 0 bytes
