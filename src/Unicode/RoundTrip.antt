-- ===== src/Unicode/RoundTrip.antt =====
-- common/unicode/utf.cpp: UTF-16 text to UTF-8 and back.
use mathlib.Core.List.{append-nil}
use eml_to_pst.Base.{
  ℕ, suc, ◌+◌, ◌-◌, ◌*◌, ◌/◌, ◌%◌, ◌≤◌, ◌<◌, ◌≡◌, refl, sym, ◌∙◌, ap, [], ◌∷◌, ◌++◌, Bool, true,
  false, not, ◌&&◌, ltb, leb, if◌then◌else◌, arith, Bool-cases, inl, inr,
}
use eml_to_pst.Base.Text.{Bytes, Wide}
use eml_to_pst.Unicode.{
  is_high_surrogate, is_low_surrogate, is_surrogate, utf8_of, wide_of, pair_value, single,
  utf8_from_wide, Decoding, accept, first_byte, next_byte, decode_byte, decode_from, wide_from_utf8,
}

two :
    (cp : ℕ)
    → 0x80 ≤ cp
    → cp ≤ 0x7FF
    → first_byte (0xC0 + cp / 64) ≡ ([], Decoding.inside 0 (cp / 64) 0x80)
unfolding first_byte
two cp h k = let low : (0xC0 + cp / 64) % 32 ≡ cp / 64 = omega arith in ground (arith, low)

three :
    (cp : ℕ)
    → 0x800 ≤ cp
    → cp ≤ 0xFFFF
    → first_byte (0xE0 + cp / 4096) ≡ ([], Decoding.inside 1 (cp / 4096) 0x800)
unfolding first_byte
three cp h k = let low : (0xE0 + cp / 4096) % 16 ≡ cp / 4096 = omega arith in ground (arith, low)

four :
    (cp : ℕ)
    → 0x10000 ≤ cp
    → cp ≤ 0x10FFFF
    → first_byte (0xF0 + cp / 262144) ≡ ([], Decoding.inside 2 (cp / 262144) 0x10000)
unfolding first_byte
four cp h k = let low : (0xF0 + cp / 262144) % 8 ≡ cp / 262144 = omega arith in ground (arith, low)

continues :
    (missing value min_cp n : ℕ)
    → n < 64
    → decode_byte (Decoding.inside missing value min_cp) (0x80 + n)
      ≡ next_byte missing value min_cp (0x80 + n)
unfolding decode_byte
continues missing value min_cp n h = ground arith

low_bits : (n : ℕ) → n < 64 → (0x80 + n) % 64 ≡ n
low_bits n h = omega arith

accepted :
    (cp min_cp : ℕ)
    → min_cp ≤ cp
    → cp ≤ 0x10FFFF
    → is_surrogate cp ≡ false
    → accept cp min_cp ≡ wide_of cp
unfolding accept
accepted cp min_cp h k s = ground arith

-- A continuation byte that is not the last one, and the last one.
more_to_come :
    (missing value min_cp n : ℕ) (bs : Bytes)
    → n < 64
    → decode_from (Decoding.inside (suc missing) value min_cp) ((0x80 + n) ∷ bs)
      ≡ decode_from (Decoding.inside missing (value * 64 + n) min_cp) bs
unfolding decode_from
more_to_come missing value min_cp n bs h =
    rw (continues (suc missing) value min_cp n h, low_bits n h) refl

last_byte :
    (cp value min_cp n : ℕ) (bs : Bytes)
    → n < 64
    → value * 64 + n ≡ cp
    → min_cp ≤ cp
    → cp ≤ 0x10FFFF
    → is_surrogate cp ≡ false
    → decode_from (Decoding.inside 0 value min_cp) ((0x80 + n) ∷ bs)
      ≡ wide_of cp ++ decode_from Decoding.start bs
unfolding decode_from
last_byte cp value min_cp n bs h e k l s =
    rw (continues 0 value min_cp n h, low_bits n h, e, accepted cp min_cp k l s) refl

decode-one :
    (cp : ℕ) (bs : Bytes)
    → cp ≤ 0x7F
    → decode_from Decoding.start (cp ∷ bs) ≡ wide_of cp ++ decode_from Decoding.start bs
unfolding decode_from decode_byte first_byte
decode-one cp bs h = let small : ltb cp 0x80 ≡ true = ground arith in rw (decode_from, small) refl

decode-two :
    (cp : ℕ) (bs : Bytes)
    → 0x80 ≤ cp
    → cp ≤ 0x7FF
    → is_surrogate cp ≡ false
    → decode_from Decoding.start ((0xC0 + cp / 64) ∷ (0x80 + cp % 64) ∷ bs)
      ≡ wide_of cp ++ decode_from Decoding.start bs
unfolding decode_from decode_byte
decode-two cp bs h k s =
    ap (λ r. r.0 ++ decode_from r.1 ((0x80 + cp % 64) ∷ bs)) (two cp h k)
    ∙ last_byte cp (cp / 64) 0x80 (cp % 64) bs (omega arith) (omega arith) h (omega arith) s

decode-three :
    (cp : ℕ) (bs : Bytes)
    → 0x800 ≤ cp
    → cp ≤ 0xFFFF
    → is_surrogate cp ≡ false
    → decode_from Decoding.start
        ((0xE0 + cp / 4096) ∷ (0x80 + cp / 64 % 64) ∷ (0x80 + cp % 64) ∷ bs)
      ≡ wide_of cp ++ decode_from Decoding.start bs
unfolding decode_from decode_byte
decode-three cp bs h k s =
    ap (λ r. r.0 ++ decode_from r.1 ((0x80 + cp / 64 % 64) ∷ (0x80 + cp % 64) ∷ bs)) (three cp h k)
    ∙ more_to_come 0 (cp / 4096) 0x800 (cp / 64 % 64) ((0x80 + cp % 64) ∷ bs) (omega arith)
    ∙ last_byte cp (cp / 4096 * 64 + cp / 64 % 64) 0x800 (cp % 64) bs (omega arith) (omega arith) h
        (omega arith) s

decode-four :
    (cp : ℕ) (bs : Bytes)
    → 0x10000 ≤ cp
    → cp ≤ 0x10FFFF
    → is_surrogate cp ≡ false
    → decode_from Decoding.start (
        (0xF0 + cp / 262144)
        ∷ (0x80 + cp / 4096 % 64)
        ∷ (0x80 + cp / 64 % 64)
        ∷ (0x80 + cp % 64)
        ∷ bs)
      ≡ wide_of cp ++ decode_from Decoding.start bs
unfolding decode_from decode_byte
decode-four cp bs h k s =
    let rest = (0x80 + cp / 64 % 64) ∷ (0x80 + cp % 64) ∷ bs in
    let value = cp / 262144 * 64 + cp / 4096 % 64 in
    ap (λ r. r.0 ++ decode_from r.1 ((0x80 + cp / 4096 % 64) ∷ rest)) (four cp h k)
    ∙ more_to_come 1 (cp / 262144) 0x10000 (cp / 4096 % 64) rest (omega arith)
    ∙ more_to_come 0 value 0x10000 (cp / 64 % 64) ((0x80 + cp % 64) ∷ bs) (omega arith)
    ∙ last_byte cp (value * 64 + cp / 64 % 64) 0x10000 (cp % 64) bs (omega arith) (omega arith) h k
        s

decode-utf8_of :
    (cp : ℕ) (bs : Bytes)
    → cp ≤ 0x10FFFF
    → is_surrogate cp ≡ false
    → decode_from Decoding.start (utf8_of cp ++ bs) ≡ wide_of cp ++ decode_from Decoding.start bs
unfolding utf8_of
decode-utf8_of cp bs h s = elim (Bool-cases (leb cp 0x7F)) [
  | inl a ↦ rw (utf8_of, a) (decode-one cp bs (ground arith))
  | inr a ↦ elim (Bool-cases (leb cp 0x7FF)) [
    | inl b ↦ rw (utf8_of, a, b) (decode-two cp bs (ground arith) (ground arith) s)
    | inr b ↦ elim (Bool-cases (leb cp 0xFFFF)) [
      | inl d ↦ rw (utf8_of, a, b, d) (decode-three cp bs (ground arith) (ground arith) s)
      | inr d ↦ rw (utf8_of, a, b, d) (decode-four cp bs (ground arith) h s)
    ]
  ]
]

-- Every high surrogate has a low one behind it, there is no other surrogate, and units have 16 bits.
abbrev pub is_well_formed : Wide → Bool
is_well_formed [] = true
is_well_formed (u ∷ []) = leb u 0xFFFF && not (is_surrogate u)
is_well_formed (u ∷ v ∷ us) =
    let pair = is_low_surrogate v && is_well_formed us in
    let alone = leb u 0xFFFF && not (is_surrogate u) && is_well_formed (v ∷ us) in
    if is_high_surrogate u then pair else alone

wide_of-unit : (u : ℕ) → u ≤ 0xFFFF → is_surrogate u ≡ false → wide_of u ≡ u ∷ []
unfolding wide_of
wide_of-unit u h s = ground arith

pair_units :
    (u v : ℕ)
    → is_high_surrogate u ≡ true
    → is_low_surrogate v ≡ true
    → wide_of (pair_value u v) ≡ u ∷ v ∷ []
unfolding wide_of
pair_units u v h k =
    let bounds : (0xD800 ≤ u) × (u ≤ 0xDBFF) × (0xDC00 ≤ v) × (v ≤ 0xDFFF) =
      (ground arith, ground arith, ground arith, ground arith) in
    let high : 0xD800 + (pair_value u v - 0x10000) / 1024 ≡ u = omega arith in
    let low : 0xDC00 + (pair_value u v - 0x10000) % 1024 ≡ v = omega arith in
    ground (arith, high, low)

decode-single :
    (u : ℕ) (bs : Bytes)
    → u ≤ 0xFFFF
    → is_surrogate u ≡ false
    → decode_from Decoding.start (single u ++ bs) ≡ u ∷ decode_from Decoding.start bs
decode-single u bs h s =
    rw s (decode-utf8_of u bs (omega arith) s)
    ∙ ap (λ w. w ++ decode_from Decoding.start bs) (wide_of-unit u h s)

decode-pair :
    (u v : ℕ) (bs : Bytes)
    → is_high_surrogate u ≡ true
    → is_low_surrogate v ≡ true
    → decode_from Decoding.start (utf8_of (pair_value u v) ++ bs)
      ≡ u ∷ v ∷ decode_from Decoding.start bs
decode-pair u v bs h k =
    decode-utf8_of (pair_value u v) bs (ground arith) (ground arith)
    ∙ ap (λ w. w ++ decode_from Decoding.start bs) (pair_units u v h k)

decode-utf8_from_wide :
    (w : Wide) → is_well_formed w ≡ true → decode_from Decoding.start (utf8_from_wide w) ≡ w
unfolding utf8_from_wide decode_from
decode-utf8_from_wide [] h = refl
decode-utf8_from_wide (u ∷ []) h =
    let k : is_surrogate u ≡ false = ground arith in
    let b : u ≤ 0xFFFF = ground arith in
    ap (decode_from Decoding.start) (sym (append-nil (single u))) ∙ decode-single u [] b k
decode-utf8_from_wide (u ∷ v ∷ us) h = elim (Bool-cases (is_high_surrogate u)) [
  | inl a ↦
      let k : is_low_surrogate v ≡ true = ground arith in
      let g : is_well_formed us ≡ true = ground arith in
      rw (utf8_from_wide, a, k)
        (decode-pair u v (utf8_from_wide us) a k ∙ ap (λ r. u ∷ v ∷ r) (decode-utf8_from_wide us g))
  | inr a ↦
      let k : is_surrogate u ≡ false = ground arith in
      let b : u ≤ 0xFFFF = ground arith in
      let g : is_well_formed (v ∷ us) ≡ true = ground arith in
      rw (utf8_from_wide, a)
        (decode-single u (utf8_from_wide (v ∷ us)) b k
          ∙ ap (λ r. u ∷ r) (decode-utf8_from_wide (v ∷ us) g))
]

-- Reading back the UTF-8 text of well-formed UTF-16 gives the same text.
pub wide_from_utf8-utf8_from_wide :
    (w : Wide) → is_well_formed w ≡ true → wide_from_utf8 (utf8_from_wide w) ≡ w
unfolding wide_from_utf8
wide_from_utf8-utf8_from_wide w h = decode-utf8_from_wide w h
