-- ===== src/StateDb/Columns/RoundTrip.antt =====
-- worker/resume/sqlite_util.cpp: a wide text that is bound to a TEXT column and read back.
use mathlib.Core.List.{append-nil}
use eml_to_pst.Base.{
  ℕ, suc, ◌+◌, ◌-◌, ◌*◌, ◌/◌, ◌%◌, ◌≤◌, ◌<◌, ◌≡◌, refl, sym, ◌∙◌, ap, [], ◌∷◌, ◌++◌, true, ◌&&◌,
  ◌||◌, ltb, leb, if◌then◌else◌, arith, Bool-cases, inl, inr,
}
use eml_to_pst.Base.Text.{Bytes, Wide}
use eml_to_pst.StateDb.Columns.{
  append_utf8, is_high, is_low, unpaired, wide_to_utf8, announced, accumulate, decoded, units_of,
  decode_behind, utf8_to_wide,
}

-- One step of the decoder whose sequence is known.
step_taken :
    (c : ℕ) (cs : Bytes) (len cp : ℕ)
    → decoded c cs ≡ (len, cp)
    → decode_behind 0 (c ∷ cs) ≡ units_of cp ++ decode_behind (len - 1) cs
unfolding decode_behind
step_taken c cs len cp h = ap (λ r. units_of r.1 ++ decode_behind (r.0 - 1) cs) h

accumulate_one :
    (len k accum n : ℕ) (cs : Bytes)
    → n < 64
    → accumulate len (suc k) accum ((0x80 + n) ∷ cs) ≡ accumulate len k (accum * 64 + n) cs
unfolding accumulate
accumulate_one len k accum n cs h =
    let low : (0x80 + n) % 64 ≡ n = omega arith in
    let test : leb 0x80 (0x80 + n) && ltb (0x80 + n) 0xC0 ≡ true = ground arith in
    rw (accumulate, test, low) refl

announced_two : (cp : ℕ) → cp ≤ 0x7FF → announced (0xC0 + cp / 64) ≡ (2, cp / 64)
announced_two cp k = let low : (0xC0 + cp / 64) % 32 ≡ cp / 64 = omega arith in ground (arith, low)

announced_three : (cp : ℕ) → cp ≤ 0xFFFF → announced (0xE0 + cp / 4096) ≡ (3, cp / 4096)
announced_three cp k =
    let low : (0xE0 + cp / 4096) % 16 ≡ cp / 4096 = omega arith in ground (arith, low)

announced_four : (cp : ℕ) → cp ≤ 0x10FFFF → announced (0xF0 + cp / 262144) ≡ (4, cp / 262144)
announced_four cp k =
    let low : (0xF0 + cp / 262144) % 8 ≡ cp / 262144 = omega arith in ground (arith, low)

-- The loop behind a leading byte.
abbrev run_announced : Bytes → ℕ × ℕ → ℕ × ℕ
run_announced cs (len, cp) = accumulate len (len - 1) cp cs

decode_one :
    (cp : ℕ) (bs : Bytes)
    → cp ≤ 0x7F
    → decode_behind 0 (cp ∷ bs) ≡ units_of cp ++ decode_behind 0 bs
unfolding accumulate
decode_one cp bs h =
    let small : ltb cp 0x80 ≡ true = ground arith in step_taken cp bs 1 cp (rw (small) refl)

decode_two :
    (cp : ℕ) (bs : Bytes)
    → cp ≤ 0x7FF
    → decode_behind 0 ((0xC0 + cp / 64) ∷ (0x80 + cp % 64) ∷ bs) ≡ units_of cp ++ decode_behind 0 bs
unfolding decode_behind accumulate
decode_two cp bs h =
    let rest = (0x80 + cp % 64) ∷ bs in
    let value : cp / 64 * 64 + cp % 64 ≡ cp = omega arith in
    step_taken (0xC0 + cp / 64) rest 2 cp (
      ap (run_announced rest) (announced_two cp h)
      ∙ accumulate_one 2 0 (cp / 64) (cp % 64) bs (omega arith)
      ∙ ap (λ n. (2, n)) value)

decode_three :
    (cp : ℕ) (bs : Bytes)
    → cp ≤ 0xFFFF
    → decode_behind 0 ((0xE0 + cp / 4096) ∷ (0x80 + cp / 64 % 64) ∷ (0x80 + cp % 64) ∷ bs)
      ≡ units_of cp ++ decode_behind 0 bs
unfolding decode_behind accumulate
decode_three cp bs h =
    let last = (0x80 + cp % 64) ∷ bs in
    let rest = (0x80 + cp / 64 % 64) ∷ last in
    let high = cp / 4096 * 64 + cp / 64 % 64 in
    let value : high * 64 + cp % 64 ≡ cp = omega arith in
    step_taken (0xE0 + cp / 4096) rest 3 cp (
      ap (run_announced rest) (announced_three cp h)
      ∙ accumulate_one 3 1 (cp / 4096) (cp / 64 % 64) last (omega arith)
      ∙ accumulate_one 3 0 high (cp % 64) bs (omega arith)
      ∙ ap (λ n. (3, n)) value)

decode_four :
    (cp : ℕ) (bs : Bytes)
    → cp ≤ 0x10FFFF
    → decode_behind 0 (
        (0xF0 + cp / 262144)
        ∷ (0x80 + cp / 4096 % 64)
        ∷ (0x80 + cp / 64 % 64)
        ∷ (0x80 + cp % 64)
        ∷ bs)
      ≡ units_of cp ++ decode_behind 0 bs
unfolding decode_behind accumulate
decode_four cp bs h =
    let last = (0x80 + cp % 64) ∷ bs in
    let two = (0x80 + cp / 64 % 64) ∷ last in
    let rest = (0x80 + cp / 4096 % 64) ∷ two in
    let first = cp / 262144 * 64 + cp / 4096 % 64 in
    let second = first * 64 + cp / 64 % 64 in
    let value : second * 64 + cp % 64 ≡ cp = omega arith in
    step_taken (0xF0 + cp / 262144) rest 4 cp (
      ap (run_announced rest) (announced_four cp h)
      ∙ accumulate_one 4 2 (cp / 262144) (cp / 4096 % 64) two (omega arith)
      ∙ accumulate_one 4 1 first (cp / 64 % 64) last (omega arith)
      ∙ accumulate_one 4 0 second (cp % 64) bs (omega arith)
      ∙ ap (λ n. (4, n)) value)

decode-append_utf8 :
    (cp : ℕ) (bs : Bytes)
    → cp ≤ 0x10FFFF
    → decode_behind 0 (append_utf8 cp ++ bs) ≡ units_of cp ++ decode_behind 0 bs
unfolding append_utf8
decode-append_utf8 cp bs h = elim (Bool-cases (leb cp 0x7F)) [
  | inl a ↦ rw (append_utf8, a) (decode_one cp bs (ground arith))
  | inr a ↦ elim (Bool-cases (leb cp 0x7FF)) [
    | inl b ↦ rw (append_utf8, a, b) (decode_two cp bs (ground arith))
    | inr b ↦ elim (Bool-cases (leb cp 0xFFFF)) [
      | inl d ↦ rw (append_utf8, a, b, d) (decode_three cp bs (ground arith))
      | inr d ↦ rw (append_utf8, a, b, d) (decode_four cp bs h)
    ]
  ]
]

-- Every code unit has 16 bits.
abbrev pub AreUnits : Wide → Type 0
AreUnits [] = Unit
AreUnits (u ∷ us) = (u ≤ 0xFFFF) × AreUnits us

abbrev scalar : ℕ → ℕ
scalar u = if leb 0xD800 u && leb u 0xDFFF then 0xFFFD else u

-- The text with U+FFFD in place of each surrogate that is in no pair.
abbrev pub repaired : Wide → Wide
repaired [] = []
repaired (u ∷ []) = scalar u ∷ []
repaired (u ∷ v ∷ us) =
    let paired = u ∷ v ∷ repaired us in
    let alone = scalar u ∷ repaired (v ∷ us) in
    if leb 0xD800 u && ltb u 0xDC00 && (leb 0xDC00 v && ltb v 0xE000) then paired else alone

units_of_unit : (u : ℕ) → u ≤ 0xFFFF → units_of u ≡ u ∷ []
units_of_unit u h = ground arith

decode-unpaired :
    (u : ℕ) (bs : Bytes)
    → u ≤ 0xFFFF
    → decode_behind 0 (unpaired u ++ bs) ≡ scalar u ∷ decode_behind 0 bs
decode-unpaired u bs h =
    let same : (if is_high u || is_low u then 0xFFFD else u) ≡ scalar u = ground arith in
    let small : scalar u ≤ 0xFFFF = ground arith in
    ap (λ n. decode_behind 0 (append_utf8 n ++ bs)) same
    ∙ decode-append_utf8 (scalar u) bs (omega (arith, small))
    ∙ ap (λ w. w ++ decode_behind 0 bs) (units_of_unit (scalar u) small)

abbrev pair_point : ℕ → ℕ → ℕ
pair_point u v = 0x10000 + (u - 0xD800) * 1024 + (v - 0xDC00)

pair_units : (u v : ℕ) → is_high u && is_low v ≡ true → units_of (pair_point u v) ≡ u ∷ v ∷ []
pair_units u v h =
    let bounds : (0xD800 ≤ u) × (u ≤ 0xDBFF) × (0xDC00 ≤ v) × (v ≤ 0xDFFF) =
      (ground arith, ground arith, ground arith, ground arith) in
    let high : 0xD800 + (pair_point u v - 0x10000) / 1024 ≡ u = omega arith in
    let low : 0xDC00 + (pair_point u v - 0x10000) % 1024 ≡ v = omega arith in
    ground (arith, high, low)

decode-pair :
    (u v : ℕ) (bs : Bytes)
    → is_high u && is_low v ≡ true
    → decode_behind 0 (append_utf8 (pair_point u v) ++ bs) ≡ u ∷ v ∷ decode_behind 0 bs
decode-pair u v bs h =
    decode-append_utf8 (pair_point u v) bs (ground arith)
    ∙ ap (λ w. w ++ decode_behind 0 bs) (pair_units u v h)

-- The two tests for a pair agree.
same_test :
    (u v : ℕ)
    → leb 0xD800 u && ltb u 0xDC00 && (leb 0xDC00 v && ltb v 0xE000) ≡ is_high u && is_low v
same_test u v = ground arith

-- A text of 16-bit code units that is bound to a TEXT column is read back with U+FFFD in place of
-- each surrogate that is in no pair, and is the same everywhere else.
pub utf8_to_wide-wide_to_utf8 : (w : Wide) → AreUnits w → utf8_to_wide (wide_to_utf8 w) ≡ repaired w
unfolding utf8_to_wide wide_to_utf8 decode_behind
utf8_to_wide-wide_to_utf8 [] h = refl
utf8_to_wide-wide_to_utf8 (u ∷ []) (h, none_left) =
    ap (decode_behind 0) (sym (append-nil (unpaired u))) ∙ decode-unpaired u [] h
utf8_to_wide-wide_to_utf8 (u ∷ v ∷ us) (h, tail) = elim (Bool-cases (is_high u && is_low v)) [
  | inl e ↦
      rw (wide_to_utf8, same_test u v, e)
        (decode-pair u v (wide_to_utf8 us) e
          ∙ ap (λ r. u ∷ v ∷ r) (utf8_to_wide-wide_to_utf8 us tail.1))
  | inr e ↦
      rw (wide_to_utf8, same_test u v, e)
        (decode-unpaired u (wide_to_utf8 (v ∷ us)) h
          ∙ ap (λ r. scalar u ∷ r) (utf8_to_wide-wide_to_utf8 (v ∷ us) tail))
]
