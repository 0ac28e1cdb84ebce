-- ===== src/Scanner/Text/RoundTrip.antt =====
-- Reading back what `wstring_to_utf8` of worker/scanner/scanner.cpp writes.
use mathlib.Core.List.{append-nil}
use eml_to_pst.Base.{
  ℕ, ◌+◌, ◌-◌, ◌*◌, ◌/◌, ◌%◌, ◌<◌, ◌≤◌, ◌≡◌, refl, sym, ap, ◌∙◌, [], ◌∷◌, ◌++◌, true, false, ltb,
  leb, arith, inl, inr, Bool-cases,
}
use eml_to_pst.Base.Text.{Bytes, Wide}
use eml_to_pst.Scanner.Text.{
  append_utf8, is_pair, wstring_to_utf8, is_tail, units_of, utf8_to_wstring,
}

read_one : (a : ℕ) (r : Bytes) → a < 0x80 → utf8_to_wstring (a ∷ r) ≡ a ∷ utf8_to_wstring r
unfolding utf8_to_wstring
read_one a [] h = ground arith
read_one a (b ∷ []) h = ground arith
read_one a (b ∷ c ∷ []) h = ground arith
read_one a (b ∷ c ∷ d ∷ r) h = ground arith

low_five : (x : ℕ) → x < 32 → (0xC0 + x) % 32 ≡ x
low_five x h = omega arith

low_four : (x : ℕ) → x < 16 → (0xE0 + x) % 16 ≡ x
low_four x h = omega arith

low_three : (x : ℕ) → x < 8 → (0xF0 + x) % 8 ≡ x
low_three x h = omega arith

low_six : (y : ℕ) → y < 64 → (0x80 + y) % 64 ≡ y
low_six y h = omega arith

tail_byte : (y : ℕ) → y < 64 → is_tail (0x80 + y) ≡ true
tail_byte y h = ground arith

at_least : (m n x : ℕ) → m ≤ n → leb m (n + x) ≡ true
at_least m n x h = ground arith

less : (m n x : ℕ) → n + x < m → ltb (n + x) m ≡ true
less m n x h = ground arith

not_less : (m n x : ℕ) → m ≤ n → ltb (n + x) m ≡ false
not_less m n x h = ground arith

-- A value of two bytes, and so on: `x` is what the first byte carries.
read_two :
    (x y : ℕ) (r : Bytes)
    → x < 32
    → y < 64
    → utf8_to_wstring ((0xC0 + x) ∷ (0x80 + y) ∷ r) ≡ units_of (x * 64 + y) ++ utf8_to_wstring r
unfolding utf8_to_wstring
read_two x y [] h k =
    rw
      (
        low_five x h,
        low_six y k,
        tail_byte y k,
        not_less 0x80 0xC0 x (omega arith),
        at_least 0xC0 0xC0 x (omega arith),
        less 0xE0 0xC0 x (omega arith),
      )
      (sym (append-nil (units_of (x * 64 + y))))
read_two x y (c ∷ []) h k =
    rw
      (
        low_five x h,
        low_six y k,
        tail_byte y k,
        not_less 0x80 0xC0 x (omega arith),
        at_least 0xC0 0xC0 x (omega arith),
        less 0xE0 0xC0 x (omega arith),
      )
      refl
read_two x y (c ∷ d ∷ r) h k =
    rw
      (
        low_five x h,
        low_six y k,
        tail_byte y k,
        not_less 0x80 0xC0 x (omega arith),
        at_least 0xC0 0xC0 x (omega arith),
        less 0xE0 0xC0 x (omega arith),
      )
      refl

read_three :
    (x y z : ℕ) (r : Bytes)
    → x < 16
    → y < 64
    → z < 64
    → utf8_to_wstring ((0xE0 + x) ∷ (0x80 + y) ∷ (0x80 + z) ∷ r)
      ≡ units_of ((x * 64 + y) * 64 + z) ++ utf8_to_wstring r
unfolding utf8_to_wstring
read_three x y z [] h k l =
    rw
      (
        low_four x h,
        low_six y k,
        low_six z l,
        tail_byte y k,
        tail_byte z l,
        not_less 0x80 0xE0 x (omega arith),
        at_least 0xC0 0xE0 x (omega arith),
        not_less 0xE0 0xE0 x (omega arith),
        at_least 0xE0 0xE0 x (omega arith),
        less 0xF0 0xE0 x (omega arith),
      )
      (sym (append-nil (units_of ((x * 64 + y) * 64 + z))))
read_three x y z (d ∷ r) h k l =
    rw
      (
        low_four x h,
        low_six y k,
        low_six z l,
        tail_byte y k,
        tail_byte z l,
        not_less 0x80 0xE0 x (omega arith),
        at_least 0xC0 0xE0 x (omega arith),
        not_less 0xE0 0xE0 x (omega arith),
        at_least 0xE0 0xE0 x (omega arith),
        less 0xF0 0xE0 x (omega arith),
      )
      refl

read_four :
    (x y z w : ℕ) (r : Bytes)
    → x < 8
    → y < 64
    → z < 64
    → w < 64
    → utf8_to_wstring ((0xF0 + x) ∷ (0x80 + y) ∷ (0x80 + z) ∷ (0x80 + w) ∷ r)
      ≡ units_of (((x * 64 + y) * 64 + z) * 64 + w) ++ utf8_to_wstring r
unfolding utf8_to_wstring
read_four x y z w r h k l m =
    rw
      (
        low_three x h,
        low_six y k,
        low_six z l,
        low_six w m,
        tail_byte y k,
        tail_byte z l,
        tail_byte w m,
        not_less 0x80 0xF0 x (omega arith),
        at_least 0xC0 0xF0 x (omega arith),
        not_less 0xE0 0xF0 x (omega arith),
        at_least 0xE0 0xF0 x (omega arith),
        not_less 0xF0 0xF0 x (omega arith),
        at_least 0xF0 0xF0 x (omega arith),
        less 0xF8 0xF0 x (omega arith),
      )
      refl

one_unit : (cp : ℕ) → cp ≤ 0xFFFF → units_of cp ≡ cp ∷ []
one_unit cp h = ground arith

three_parts : (cp : ℕ) → (cp / 4096 * 64 + cp / 64 % 64) * 64 + cp % 64 ≡ cp
three_parts cp = omega arith

four_parts :
    (cp : ℕ) → ((cp / 262144 * 64 + cp / 4096 % 64) * 64 + cp / 64 % 64) * 64 + cp % 64 ≡ cp
four_parts cp = omega arith

read_point :
    (cp : ℕ) (r : Bytes)
    → cp < 0x200000
    → utf8_to_wstring (append_utf8 cp ++ r) ≡ units_of cp ++ utf8_to_wstring r
unfolding append_utf8
read_point cp r h = elim (Bool-cases (leb cp 0x7F)) [
  | inl a ↦
      rw (append_utf8, a)
        (read_one cp r (ground arith)
          ∙ ap (λ w. w ++ utf8_to_wstring r) (sym (one_unit cp (ground arith))))
  | inr a ↦ elim (Bool-cases (leb cp 0x7FF)) [
    | inl b ↦
        rw (append_utf8, a, b)
          (read_two (cp / 64) (cp % 64) r (ground arith) (omega arith)
            ∙ ap (λ v. units_of v ++ utf8_to_wstring r) (omega arith))
    | inr b ↦ elim (Bool-cases (leb cp 0xFFFF)) [
      | inl c ↦
          rw (append_utf8, a, b, c)
            (read_three (cp / 4096) (cp / 64 % 64) (cp % 64) r (ground arith) (omega arith)
                (omega arith)
              ∙ ap (λ v. units_of v ++ utf8_to_wstring r) (three_parts cp)
              ∙ rw (c) refl)
      | inr c ↦
          rw (append_utf8, a, b, c)
            (read_four (cp / 262144) (cp / 4096 % 64) (cp / 64 % 64) (cp % 64) r (omega arith)
                (omega arith) (omega arith) (omega arith)
              ∙ ap (λ v. units_of v ++ utf8_to_wstring r) (four_parts cp)
              ∙ rw (c) refl)
    ]
  ]
]

-- Code units of 16 bits.
abbrev pub AreUnits : Wide → Type 0
AreUnits [] = Unit
AreUnits (u ∷ us) = (u < 0x10000) × AreUnits us

abbrev joined_value : ℕ → ℕ → ℕ
joined_value u v = 0x10000 + (u - 0xD800) * 1024 + (v - 0xDC00)

pair_units : (u v : ℕ) → is_pair u v ≡ true → units_of (joined_value u v) ≡ u ∷ v ∷ []
pair_units u v h = ground arith

pair_bound : (u v : ℕ) → is_pair u v ≡ true → joined_value u v < 0x200000
pair_bound u v h = ground arith

read_unit :
    (u : ℕ) (r : Bytes) → u < 0x10000 → utf8_to_wstring (append_utf8 u ++ r) ≡ u ∷ utf8_to_wstring r
read_unit u r h =
    read_point u r (omega arith) ∙ ap (λ w. w ++ utf8_to_wstring r) (one_unit u (omega arith))

read_pair :
    (u v : ℕ) (r : Bytes)
    → is_pair u v ≡ true
    → utf8_to_wstring (append_utf8 (joined_value u v) ++ r) ≡ u ∷ v ∷ utf8_to_wstring r
read_pair u v r h =
    read_point (joined_value u v) r (pair_bound u v h)
    ∙ ap (λ w. w ++ utf8_to_wstring r) (pair_units u v h)

-- Decoding the UTF-8 text that `wstring_to_utf8` gives for any code units of 16 bits gives them
-- again, lone surrogates among them.
pub utf8_to_wstring-wstring_to_utf8 :
    (s : Wide) → AreUnits s → utf8_to_wstring (wstring_to_utf8 s) ≡ s
unfolding wstring_to_utf8 utf8_to_wstring
utf8_to_wstring-wstring_to_utf8 [] h = refl
utf8_to_wstring-wstring_to_utf8 (u ∷ []) (a, h) =
    ap utf8_to_wstring (sym (append-nil (append_utf8 u))) ∙ read_unit u [] a
utf8_to_wstring-wstring_to_utf8 (u ∷ v ∷ us) (a, (b, h)) = elim (Bool-cases (is_pair u v)) [
  | inl e ↦
      rw (wstring_to_utf8, e)
        (read_pair u v (wstring_to_utf8 us) e
          ∙ ap (λ r. u ∷ v ∷ r) (utf8_to_wstring-wstring_to_utf8 us h))
  | inr e ↦
      rw (wstring_to_utf8, e)
        (read_unit u (wstring_to_utf8 (v ∷ us)) a
          ∙ ap (λ r. u ∷ r) (utf8_to_wstring-wstring_to_utf8 (v ∷ us) (b, h)))
]
