-- ===== src/Folders/Mapper/Segments.antt =====
-- The names that `normalize_segment` of worker/folder_mapping/folder_mapper.cpp gives.
use eml_to_pst.Base.{
  ℕ, zero, suc, ◌/◌, ◌%◌, ◌≤◌, ◌≡◌, ◌≢◌, refl, ◌∙◌, List, [], ◌∷◌, ◌++◌, Bool, true, false, not,
  ◌||◌, ltb, leb, length, take, map, arith, inl, inr, Bool-cases, length-append, length-take,
}
use eml_to_pst.Base.Text.{Bytes, Wide}
use eml_to_pst.Folders.Mapper.{
  long_name_threshold, truncated_name_length, to_hex8, hex_digit, hex_digits, fnv1a_hash,
  without_control, has_control, is_trailing, keep_unless_last, trim_end, or_underscore, shortened,
  normalize_segment,
}

length-hex_digits : (n v : ℕ) → length (hex_digits n v) ≡ n
unfolding hex_digits
length-hex_digits zero v = refl
length-hex_digits (suc n) v =
    length-append (hex_digits n (v / 16)) _ ∙ omega (arith, length-hex_digits n (v / 16))

-- The last character is neither a blank nor a dot.
unfoldable pub ends_well : Wide → Bool
ends_well [] = true
ends_well (c ∷ []) = not (is_trailing c)
ends_well (c ∷ d ∷ cs) = ends_well (d ∷ cs)

-- What the names have in common: not empty, short enough, no control character, and no blank or
-- dot at the end.
abbrev pub IsLegal : Wide → Type 0
IsLegal s =
    (s ≢ []) × (length s ≤ long_name_threshold) × (has_control s ≡ false) × (ends_well s ≡ true)

ends_well-append : (xs : Wide) (c : ℕ) (ys : Wide) → ends_well (xs ++ c ∷ ys) ≡ ends_well (c ∷ ys)
unfolding ends_well
ends_well-append [] c ys = refl
ends_well-append (x ∷ []) c ys = refl
ends_well-append (x ∷ x' ∷ xs) c ys = ends_well-append (x' ∷ xs) c ys

keeps_end : (c : ℕ) (t : Wide) → ends_well t ≡ true → ends_well (keep_unless_last c t) ≡ true
unfolding ends_well
keeps_end c [] h = ground arith
keeps_end c (d ∷ ds) h = h

ends_well-trim_end : (s : Wide) → ends_well (trim_end s) ≡ true
unfolding ends_well trim_end
ends_well-trim_end [] = refl
ends_well-trim_end (c ∷ cs) = keeps_end c (trim_end cs) (ends_well-trim_end cs)

has_control-append : (xs ys : Wide) → has_control (xs ++ ys) ≡ (has_control xs || has_control ys)
unfolding has_control
has_control-append [] ys = refl
has_control-append (x ∷ xs) ys = ground (arith, has_control-append xs ys)

keeps_clean :
    (c : ℕ) (t : Wide)
    → leb c 0x1F ≡ false
    → has_control t ≡ false
    → has_control (keep_unless_last c t) ≡ false
unfolding has_control
keeps_clean c [] h k = ground arith
keeps_clean c (d ∷ ds) h k = rw (h) k

has_control-trim_end : (s : Wide) → has_control s ≡ false → has_control (trim_end s) ≡ false
unfolding has_control trim_end
has_control-trim_end [] h = refl
has_control-trim_end (c ∷ cs) h =
    keeps_clean c (trim_end cs) (ground arith) (has_control-trim_end cs (ground arith))

has_control-take : (n : ℕ) (s : Wide) → has_control s ≡ false → has_control (take n s) ≡ false
unfolding has_control
has_control-take zero s h = refl
has_control-take (suc n) [] h = refl
has_control-take (suc n) (c ∷ s) h = ground (arith, has_control-take n s)

has_control-without_control : (s : Wide) → has_control (map without_control s) ≡ false
unfolding has_control
has_control-without_control [] = refl
has_control-without_control (c ∷ s) = ground (arith, has_control-without_control s)

has_control-hex_digits : (n v : ℕ) → has_control (hex_digits n v) ≡ false
unfolding has_control hex_digits
has_control-hex_digits zero v = refl
has_control-hex_digits (suc n) v =
    has_control-append (hex_digits n (v / 16)) (hex_digit (v % 16) ∷ [])
    ∙ ground (arith, has_control-hex_digits n (v / 16))

ends_well-digit : (n : ℕ) → ends_well (hex_digit (n % 16) ∷ []) ≡ true
unfolding ends_well
ends_well-digit n = ground arith

ends_well-to_hex8 : (v : ℕ) → ends_well (b'~' ∷ to_hex8 v) ≡ true
unfolding to_hex8 hex_digits
ends_well-to_hex8 v =
    ends_well-append (b'~' ∷ hex_digits 7 (v / 16)) (hex_digit (v % 16)) [] ∙ ends_well-digit v

has_control-to_hex8 : (v : ℕ) → has_control (b'~' ∷ to_hex8 v) ≡ false
unfolding has_control to_hex8
has_control-to_hex8 v = has_control-hex_digits 8 v

length-short_name : (s : Wide) (v : ℕ) → length (take 100 s ++ b'~' ∷ to_hex8 v) ≤ 120
unfolding to_hex8
length-short_name s v =
    let cut = length-take 100 s in
    let digits = length-hex_digits 8 v in
    let both = length-append (take 100 s) (b'~' ∷ to_hex8 v) in omega arith

-- A name before it is shortened.
abbrev IsClean : Wide → Type 0
IsClean s = (s ≢ []) × (has_control s ≡ false) × (ends_well s ≡ true)

or_underscore-IsClean :
    (changed : Bool) (s : Wide) (reasons : List Bytes)
    → has_control s ≡ false
    → ends_well s ≡ true
    → IsClean (or_underscore changed (s, reasons)).0
unfolding has_control ends_well
or_underscore-IsClean changed [] reasons h k = ((λ e. cc), refl, refl)
or_underscore-IsClean changed (c ∷ cs) reasons h k = ((λ e. cc), h, k)

short_name-IsLegal :
    (c : ℕ) (cs : Wide) (v : ℕ)
    → has_control (c ∷ cs) ≡ false
    → IsLegal (take truncated_name_length (c ∷ cs) ++ b'~' ∷ to_hex8 v)
short_name-IsLegal c cs v h =
    let cut = take truncated_name_length (c ∷ cs) in
    (
      (λ f. cc),
      length-short_name (c ∷ cs) v,
      has_control-append cut (b'~' ∷ to_hex8 v)
          ∙ rw (has_control-take truncated_name_length (c ∷ cs) h) (has_control-to_hex8 v),
      ends_well-append cut b'~' (to_hex8 v) ∙ ends_well-to_hex8 v,
    )

shortened-IsLegal :
    (original s : Wide) (reasons : List Bytes)
    → IsClean s
    → IsLegal (shortened original (s, reasons)).0
shortened-IsLegal original [] reasons (a, h, k) = absurd (a refl)
shortened-IsLegal original (c ∷ cs) reasons (a, h, k) =
    elim (Bool-cases (ltb long_name_threshold (length (c ∷ cs)))) [
      | inl e ↦ rw (e) (short_name-IsLegal c cs (fnv1a_hash original) h)
      | inr e ↦ rw (e) (a, ground arith, h, k)
    ]

-- Whatever the folder is called, the name that `normalize_segment` gives is not empty, has at most
-- 120 characters and no control character, and does not end in a blank or a dot.
pub normalize_segment-IsLegal : (original : Wide) → IsLegal (normalize_segment original).0
unfolding normalize_segment
normalize_segment-IsLegal original =
    let s = map without_control original in
    let clean = has_control-trim_end s (has_control-without_control original) in
    shortened-IsLegal original _ _
      (or_underscore-IsClean _ (trim_end s) _ clean (ends_well-trim_end s))
