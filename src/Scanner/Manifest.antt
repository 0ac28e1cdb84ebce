-- ===== src/Scanner/Manifest.antt =====
-- worker/scanner/manifest_hash.cpp: the text that is hashed for a manifest, from which a resumed run
-- sees whether the source has changed. Its conversion to UTF-8 is the one of scanner.cpp.
use mathlib.Core.List.{append_assoc}
use eml_to_pst.Base.{
  ℕ, zero, suc, ◌+◌, ◌-◌, ◌*◌, ◌/◌, ◌%◌, ◌<◌, ◌≡◌, ◌≢◌, refl, sym, ap, ◌∙◌, List, [], ◌∷◌, ◌++◌,
  Bool, true, false, not, ◌&&◌, ltb, leb, ◌==◌, arith, inl, inr, Bool-cases, map,
}
use eml_to_pst.Base.Int.{ℤ, pos, negsuc}
use eml_to_pst.Base.Text.{Bytes, Wide}
use eml_to_pst.Base.Numbers.{decimal, digits_onto, signed_decimal, value_from, value_from-decimal}
use eml_to_pst.Model.{ManifestEntry, FileTimeUtc}
use eml_to_pst.Scanner.Text.{wstring_to_utf8, append_utf8, is_pair}
use eml_to_pst.Scanner.Text.RoundTrip.{AreUnits, utf8_to_wstring-wstring_to_utf8}
use eml_to_pst.Scanner.Text.{utf8_to_wstring}

unfoldable pub hash_line : ManifestEntry → Bytes
hash_line m =
    wstring_to_utf8 m.relative_path
    ++ b'|' ∷ (decimal m.size ++ b'|' ∷ (signed_decimal m.last_write_utc ++ b'\n' ∷ []))

-- What the sink is given, line after line.
unfoldable pub serialize_manifest_for_hash : List ManifestEntry → Bytes
unfolding hash_line
serialize_manifest_for_hash [] = []
serialize_manifest_for_hash (m ∷ ms) = hash_line m ++ serialize_manifest_for_hash ms

unfoldable pub lacks : ℕ → List ℕ → Bool
lacks c [] = true
lacks c (x ∷ xs) = not (x == c) && lacks c xs

abbrev head_of : ℕ → List ℕ → ℕ
head_of d [] = d
head_of d (x ∷ xs) = x

abbrev tail_of : List ℕ → List ℕ
tail_of [] = []
tail_of (x ∷ xs) = xs

-- A text ends in one way only in front of a character that it lacks.
cut_once :
    (c : ℕ) (a b : List ℕ) {x y : List ℕ}
    → lacks c a ≡ true
    → lacks c b ≡ true
    → a ++ c ∷ x ≡ b ++ c ∷ y
    → (a ≡ b) × (x ≡ y)
unfolding lacks
cut_once c [] [] h k e = (refl, ap tail_of e)
cut_once c [] (d ∷ b) h k e = let same = ap (head_of c) e in absurd (ground arith)
cut_once c (d ∷ a) [] h k e = let same = ap (head_of c) e in absurd (ground arith)
cut_once c (d ∷ a) (f ∷ b) h k e =
    let (same, rest) = cut_once c a b (ground arith) (ground arith) (ap tail_of e) in
    let first = ap (head_of c) e in (rw (first, same) refl, rest)

lacks-append : (c : ℕ) (xs ys : List ℕ) → lacks c (xs ++ ys) ≡ (lacks c xs && lacks c ys)
unfolding lacks
lacks-append c [] ys = refl
lacks-append c (x ∷ xs) ys = ground (arith, lacks-append c xs ys)

lacks-digits_onto :
    (c fuel n : ℕ) (rest : Bytes)
    → (leb 48 c && leb c 57) ≡ false
    → lacks c rest ≡ true
    → lacks c (digits_onto fuel n rest) ≡ true
unfolding digits_onto lacks
lacks-digits_onto c zero n rest h k = k
lacks-digits_onto c (suc fuel) n rest h k =
    let digit : lacks c ((48 + n % 10) ∷ rest) ≡ true = ground arith in
    elim (Bool-cases (ltb n 10)) [
      | inl e ↦ rw (digits_onto, e) digit
      | inr e ↦
          rw (digits_onto, e) (lacks-digits_onto c fuel (n / 10) ((48 + n % 10) ∷ rest) h digit)
    ]

lacks-decimal : (c n : ℕ) → (leb 48 c && leb c 57) ≡ false → lacks c (decimal n) ≡ true
unfolding decimal lacks
lacks-decimal c n h = lacks-digits_onto c (suc n) n [] h refl

lacks-signed : (n : ℤ) → lacks b'\n' (signed_decimal n) ≡ true
unfolding signed_decimal lacks
lacks-signed (pos n) = lacks-decimal b'\n' n refl
lacks-signed (negsuc n) = lacks-decimal b'\n' (suc n) refl

decimal-injective : (m n : ℕ) → decimal m ≡ decimal n → m ≡ n
decimal-injective m n h = sym (value_from-decimal m) ∙ ap (value_from 0) h ∙ value_from-decimal n

signed-injective : (m n : ℤ) → signed_decimal m ≡ signed_decimal n → m ≡ n
unfolding signed_decimal lacks
signed-injective (pos m) (pos n) h = ap pos (decimal-injective m n h)
signed-injective (pos m) (negsuc n) h =
    let no_dash = lacks-decimal b'-' m refl in let dash = ap (lacks b'-') h in absurd (cc)
signed-injective (negsuc m) (pos n) h =
    let no_dash = lacks-decimal b'-' n refl in let dash = ap (lacks b'-') h in absurd (cc)
signed-injective (negsuc m) (negsuc n) h =
    let same = decimal-injective (suc m) (suc n) (ap tail_of h) in ap negsuc (omega arith)

lacks-append_utf8 : (c cp : ℕ) → c < 0x80 → (cp == c) ≡ false → lacks c (append_utf8 cp) ≡ true
unfolding lacks append_utf8
lacks-append_utf8 c cp h k = ground arith

lacks-wstring_to_utf8 :
    (c : ℕ) (s : Wide) → c < 0x80 → lacks c s ≡ true → lacks c (wstring_to_utf8 s) ≡ true
unfolding lacks wstring_to_utf8
lacks-wstring_to_utf8 c [] h k = refl
lacks-wstring_to_utf8 c (u ∷ []) h k = lacks-append_utf8 c u h (ground arith)
lacks-wstring_to_utf8 c (u ∷ v ∷ us) h k = elim (Bool-cases (is_pair u v)) [
  | inl e ↦
      rw (wstring_to_utf8, e)
        (let high =
            lacks-append_utf8 c (0x10000 + (u - 0xD800) * 1024 + (v - 0xDC00)) h (ground arith) in
          lacks-append c (append_utf8 (0x10000 + (u - 0xD800) * 1024 + (v - 0xDC00)))
            (wstring_to_utf8 us)
          ∙ rw (high) (lacks-wstring_to_utf8 c us h (ground arith)))
  | inr e ↦
      rw (wstring_to_utf8, e)
        (let first = lacks-append_utf8 c u h (ground arith) in
          lacks-append c (append_utf8 u) (wstring_to_utf8 (v ∷ us))
          ∙ rw (first) (lacks-wstring_to_utf8 c (v ∷ us) h (ground arith)))
]

-- A path as Windows allows it: code units of 16 bits, and no '|'.
abbrev pub IsPath : Wide → Type 0
IsPath s = AreUnits s × (lacks b'|' s ≡ true)

abbrev pub ArePaths : List ManifestEntry → Type 0
ArePaths [] = Unit
ArePaths (m ∷ ms) = IsPath m.relative_path × ArePaths ms

-- What the manifest says of a file.
abbrev pub facts : ManifestEntry → Wide × ℕ × FileTimeUtc
facts m = (m.relative_path, m.size, m.last_write_utc)

same_path : (s t : Wide) → IsPath s → IsPath t → wstring_to_utf8 s ≡ wstring_to_utf8 t → s ≡ t
same_path s t (a, h) (b, k) e =
    sym (utf8_to_wstring-wstring_to_utf8 s a)
    ∙ ap utf8_to_wstring e
    ∙ utf8_to_wstring-wstring_to_utf8 t b

line_split :
    (m : ManifestEntry) (rest : Bytes)
    → hash_line m ++ rest
      ≡ wstring_to_utf8 m.relative_path
        ++ b'|' ∷ (decimal m.size ++ b'|' ∷ (signed_decimal m.last_write_utc ++ b'\n' ∷ rest))
unfolding hash_line
line_split m rest =
    append_assoc (wstring_to_utf8 m.relative_path) _ rest
    ∙ ap (λ t. wstring_to_utf8 m.relative_path ++ b'|' ∷ t)
        (append_assoc (decimal m.size) _ rest
          ∙ ap (λ t. decimal m.size ++ b'|' ∷ t)
              (append_assoc (signed_decimal m.last_write_utc) (b'\n' ∷ []) rest))

line_once :
    (m n : ManifestEntry) (x y : Bytes)
    → IsPath m.relative_path
    → IsPath n.relative_path
    → hash_line m ++ x ≡ hash_line n ++ y
    → (facts m ≡ facts n) × (x ≡ y)
line_once m n x y h k e =
    let bar = λ (s : Wide) (p : IsPath s). lacks-wstring_to_utf8 b'|' s (omega arith) p.1 in
    let (paths, e1) =
      cut_once b'|' (wstring_to_utf8 m.relative_path) (wstring_to_utf8 n.relative_path)
        (bar m.relative_path h) (bar n.relative_path k)
        (sym (line_split m x) ∙ e ∙ line_split n y) in
    let (sizes, e2) =
      cut_once b'|' (decimal m.size) (decimal n.size) (lacks-decimal b'|' m.size refl)
        (lacks-decimal b'|' n.size refl) e1 in
    let (times, rest) =
      cut_once b'\n' (signed_decimal m.last_write_utc) (signed_decimal n.last_write_utc)
        (lacks-signed m.last_write_utc) (lacks-signed n.last_write_utc) e2 in
    (
      rw
          (
            same_path m.relative_path n.relative_path h k paths,
            decimal-injective m.size n.size sizes,
            signed-injective m.last_write_utc n.last_write_utc times,
          )
          refl,
      rest,
    )

line_is_there : (m : ManifestEntry) (x : Bytes) → hash_line m ++ x ≢ []
unfolding lacks
line_is_there m x e =
    let some_byte =
      sym (lacks-append b'|' (wstring_to_utf8 m.relative_path) _)
      ∙ ap (lacks b'|') (sym (line_split m x) ∙ e) in
    absurd (ground arith)

-- The hashed text tells manifests apart: where the paths are as Windows allows them, two manifests
-- with the same text have the same files in the same order, with the same sizes and times.
pub serialize_manifest_for_hash-injective :
    (ms ns : List ManifestEntry)
    → ArePaths ms
    → ArePaths ns
    → serialize_manifest_for_hash ms ≡ serialize_manifest_for_hash ns
    → map facts ms ≡ map facts ns
unfolding serialize_manifest_for_hash
serialize_manifest_for_hash-injective [] [] h k e = refl
serialize_manifest_for_hash-injective [] (n ∷ ns) h k e = absurd (line_is_there n _ (sym e))
serialize_manifest_for_hash-injective (m ∷ ms) [] h k e = absurd (line_is_there m _ e)
serialize_manifest_for_hash-injective (m ∷ ms) (n ∷ ns) (h, hs) (k, ks) e =
    let (first, rest) =
      line_once m n (serialize_manifest_for_hash ms) (serialize_manifest_for_hash ns) h k e in
    rw (first, serialize_manifest_for_hash-injective ms ns hs ks rest) refl
