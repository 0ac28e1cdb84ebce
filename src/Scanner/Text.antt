-- ===== src/Scanner/Text.antt =====
-- The conversions of worker/scanner/scanner.cpp between wide and UTF-8 text, where a wchar_t has 16
-- bits. A lone surrogate is written and read like any other code point.
pub mod RoundTrip
use eml_to_pst.Base.{
  ℕ, ◌+◌, ◌-◌, ◌*◌, ◌/◌, ◌%◌, List, [], ◌∷◌, ◌++◌, Bool, true, false, ◌&&◌, ltb, leb, ◌==◌,
  if◌then◌else◌,
}
use eml_to_pst.Base.Text.{Bytes, Wide}

unfoldable pub append_utf8 : ℕ → Bytes
append_utf8 cp =
    if leb cp 0x7F
    then cp ∷ []
    else if leb cp 0x7FF
    then (0xC0 + cp / 64) ∷ (0x80 + cp % 64) ∷ []
    else if leb cp 0xFFFF
    then (0xE0 + cp / 4096) ∷ (0x80 + cp / 64 % 64) ∷ (0x80 + cp % 64) ∷ []
    else (0xF0 + cp / 262144)
      ∷ (0x80 + cp / 4096 % 64)
      ∷ (0x80 + cp / 64 % 64)
      ∷ (0x80 + cp % 64)
      ∷ []

abbrev pub is_pair : ℕ → ℕ → Bool
is_pair u v = leb 0xD800 u && leb u 0xDBFF && leb 0xDC00 v && leb v 0xDFFF

unfoldable pub wstring_to_utf8 : Wide → Bytes
wstring_to_utf8 [] = []
wstring_to_utf8 (u ∷ []) = append_utf8 u
wstring_to_utf8 (u ∷ v ∷ us) =
    let paired = append_utf8 (0x10000 + (u - 0xD800) * 1024 + (v - 0xDC00)) ++ wstring_to_utf8 us in
    let alone = append_utf8 u ++ wstring_to_utf8 (v ∷ us) in if is_pair u v then paired else alone

abbrev pub is_tail : ℕ → Bool
is_tail c = leb 0x80 c && ltb c 0xC0

abbrev pub units_of : ℕ → Wide
units_of cp =
    if leb cp 0xFFFF
    then cp ∷ []
    else (0xD800 + (cp - 0x10000) / 1024) ∷ (0xDC00 + (cp - 0x10000) % 1024) ∷ []

-- A byte that does not begin a whole sequence is skipped, alone.
unfoldable pub utf8_to_wstring : Bytes → Wide
utf8_to_wstring [] = []
utf8_to_wstring (a ∷ []) = if ltb a 0x80 then a ∷ [] else []
utf8_to_wstring (a ∷ b ∷ []) =
    let next = utf8_to_wstring (b ∷ []) in
    let two = units_of (a % 32 * 64 + b % 64) in
    if ltb a 0x80 then a ∷ next else if leb 0xC0 a && ltb a 0xE0 && is_tail b then two else next
utf8_to_wstring (a ∷ b ∷ c ∷ []) =
    let next = utf8_to_wstring (b ∷ c ∷ []) in
    let two = units_of (a % 32 * 64 + b % 64) ++ utf8_to_wstring (c ∷ []) in
    let three = units_of ((a % 16 * 64 + b % 64) * 64 + c % 64) in
    if ltb a 0x80
    then a ∷ next
    else if leb 0xC0 a && ltb a 0xE0 && is_tail b
    then two
    else if leb 0xE0 a && ltb a 0xF0 && is_tail b && is_tail c
    then three
    else next
utf8_to_wstring (a ∷ b ∷ c ∷ d ∷ bs) =
    let next = utf8_to_wstring (b ∷ c ∷ d ∷ bs) in
    let two = units_of (a % 32 * 64 + b % 64) ++ utf8_to_wstring (c ∷ d ∷ bs) in
    let three = units_of ((a % 16 * 64 + b % 64) * 64 + c % 64) ++ utf8_to_wstring (d ∷ bs) in
    let four =
      units_of (((a % 8 * 64 + b % 64) * 64 + c % 64) * 64 + d % 64) ++ utf8_to_wstring bs in
    if ltb a 0x80
    then a ∷ next
    else if leb 0xC0 a && ltb a 0xE0 && is_tail b
    then two
    else if leb 0xE0 a && ltb a 0xF0 && is_tail b && is_tail c
    then three
    else if leb 0xF0 a && ltb a 0xF8 && is_tail b && is_tail c && is_tail d
    then four
    else next
