-- ===== src/Folders/Mapper/Free.antt =====
-- The suffix loop of `process_sibling_group` in worker/folder_mapping/folder_mapper.cpp ends with a
-- name that is not in use.
use eml_to_pst.Base.{
  ℕ, zero, suc, ◌+◌, ◌-◌, ◌*◌, ◌/◌, ◌%◌, ◌≤◌, ◌<◌, ◌≡◌, ◌≢◌, ◌↔◌, refl, sym, ap, ◌∙◌, List, [], ◌∷◌,
  ◌++◌, true, false, ◌||◌, ltb, if◌then◌else◌, length, map, arith, inl, inr, Bool-cases,
  length-append, length-map,
}
use eml_to_pst.Base.Text.{Wide, codes}
use eml_to_pst.Base.Numbers.{decimal, digits_onto, value_from, value_from-decimal}
use eml_to_pst.Folders.Mapper.{
  fold_lower, compare_ci, same_ci, is_used, numbered, free_from, free_name,
}

abbrev pub key : Wide → Wide
key = map fold_lower

same-key : (a b : Wide) → same_ci a b ≡ true → key a ≡ key b
unfolding compare_ci
same-key [] [] h = refl
same-key [] (y ∷ b) h = absurd (cc)
same-key (x ∷ a) [] h = absurd (cc)
same-key (x ∷ a) (y ∷ b) h = ground (arith, same-key a b)

key-same : (a b : Wide) → key a ≡ key b → same_ci a b ≡ true
unfolding compare_ci
key-same [] [] h = refl
key-same [] (y ∷ b) h = absurd (cc)
key-same (x ∷ a) [] h = absurd (cc)
key-same (x ∷ a) (y ∷ b) h = ground (arith, key-same a b)

pub same_ci_iff : (a b : Wide) → (same_ci a b ≡ true) ↔ (key a ≡ key b)
same_ci_iff a b = (same-key a b, key-same a b)

map-append : (xs ys : Wide) → key (xs ++ ys) ≡ key xs ++ key ys
map-append [] ys = refl
map-append (x ∷ xs) ys = ap (λ r. fold_lower x ∷ r) (map-append xs ys)

abbrev tail_of : Wide → Wide
tail_of [] = []
tail_of (x ∷ xs) = xs

append-cancel : (xs : Wide) {ys zs : Wide} → xs ++ ys ≡ xs ++ zs → ys ≡ zs
append-cancel [] h = h
append-cancel (x ∷ xs) h = append-cancel xs (ap tail_of h)

-- Digits have no case.
key-digits_onto :
    (fuel n : ℕ) (rest : Wide)
    → key rest ≡ rest
    → key (digits_onto fuel n rest) ≡ digits_onto fuel n rest
unfolding digits_onto fold_lower
key-digits_onto zero n rest h = h
key-digits_onto (suc fuel) n rest h =
    let digit : key ((48 + n % 10) ∷ rest) ≡ (48 + n % 10) ∷ rest = ground (arith, h) in
    elim (Bool-cases (ltb n 10)) [
      | inl e ↦ rw (digits_onto, e) digit
      | inr e ↦ rw (digits_onto, e) (key-digits_onto fuel (n / 10) ((48 + n % 10) ∷ rest) digit)
    ]

value-append :
    (v : ℕ) (ds : Wide) (c : ℕ) → value_from v (ds ++ c ∷ []) ≡ value_from v ds * 10 + (c - 48)
unfolding value_from
value-append v [] c = refl
value-append v (d ∷ ds) c = value-append (v * 10 + (d - 48)) ds c

-- The number is read off the name.
suffix_value : (n : ℕ) → value_from 0 (key (decimal n ++ codes ")")) ≡ n * 10
unfolding decimal fold_lower
suffix_value n =
    ap (value_from 0) (
      map-append (decimal n) (codes ")")
      ∙ ap (λ t. t ++ codes ")") (key-digits_onto (suc n) n [] refl))
    ∙ value-append 0 (decimal n) b')'
    ∙ rw (value_from-decimal n) (omega arith)

numbered-injective : (base : Wide) (i j : ℕ) → key (numbered base i) ≡ key (numbered base j) → i ≡ j
unfolding fold_lower
numbered-injective base i j h =
    let behind : key (codes " (" ++ (decimal i ++ codes ")"))
        ≡ key (codes " (" ++ (decimal j ++ codes ")")) =
      append-cancel (key base) (
        sym (map-append base (codes " (" ++ (decimal i ++ codes ")")))
        ∙ h
        ∙ map-append base (codes " (" ++ (decimal j ++ codes ")"))) in
    let digits : key (decimal i ++ codes ")") ≡ key (decimal j ++ codes ")") =
      ap (λ t. tail_of (tail_of t)) behind in
    let same = sym (suffix_value i) ∙ ap (value_from 0) digits ∙ suffix_value j in omega arith

base_is_shorter : (base : Wide) (i : ℕ) → key (numbered base i) ≢ key base
base_is_shorter base i h =
    let a = length-map (numbered base i) fold_lower in
    let b = length-map base fold_lower in
    let c = length-append base (codes " (" ++ (decimal i ++ codes ")")) in
    let same = ap length h in absurd (omega arith)

-- The names in use without those that are `name` but for case.
unfoldable remove : Wide → List Wide → List Wide
remove name [] = []
remove name (u ∷ used) = if same_ci name u then remove name used else u ∷ remove name used

length-remove_le : (name : Wide) (used : List Wide) → length (remove name used) ≤ length used
unfolding remove
length-remove_le name [] = omega arith
length-remove_le name (u ∷ used) = ground (arith, length-remove_le name used)

length-remove_lt :
    (name : Wide) (used : List Wide)
    → is_used name used ≡ true
    → length (remove name used) < length used
unfolding remove is_used
length-remove_lt name [] h = absurd (cc)
length-remove_lt name (u ∷ used) h =
    ground (arith, length-remove_le name used, length-remove_lt name used)

differs : (x name u : Wide) → key x ≢ key name → same_ci name u ≡ true → same_ci x u ≡ false
differs x name u h e = elim (Bool-cases (same_ci x u)) [
  | inl f ↦ absurd (h (same-key x u f ∙ sym (same-key name u e)))
  | inr f ↦ f
]

is_used-remove :
    (x name : Wide) (used : List Wide)
    → key x ≢ key name
    → is_used x (remove name used) ≡ is_used x used
unfolding remove is_used
is_used-remove x name [] h = refl
is_used-remove x name (u ∷ used) h = elim (Bool-cases (same_ci name u)) [
  | inl e ↦
      let other : same_ci x u ≡ false = differs x name u h e in
      rw (remove, e, is_used, other) (is_used-remove x name used h)
  | inr e ↦ rw (remove, e) (ap (λ b. same_ci x u || b) (is_used-remove x name used h))
]

-- None of the names that are tried from `suffix` on is `name`.
abbrev IsPassed : Wide → Wide → ℕ → Type 0
IsPassed name base suffix = (i : ℕ) → suffix ≤ i → key (numbered base i) ≢ key name

free_from-other :
    (fuel : ℕ) (base final : Wide) (suffix : ℕ) (name : Wide) (used : List Wide)
    → key final ≢ key name
    → IsPassed name base suffix
    → (free_from fuel base final suffix (remove name used) ≡ free_from fuel base final suffix used)
      × (key (free_from fuel base final suffix used) ≢ key name)
unfolding free_from
free_from-other zero base final suffix name used h passed = (refl, h)
free_from-other (suc fuel) base final suffix name used h passed =
    let (same, other) =
      free_from-other fuel base (numbered base suffix) (suffix + 1) name used
        (passed suffix (omega arith)) (λ i le. passed i (omega arith)) in
    let seen = is_used-remove final name used h in
    elim (Bool-cases (is_used final used)) [
      | inl e ↦ rw (free_from, seen, e) (same, other)
      | inr e ↦ rw (free_from, seen, e) (refl, h)
    ]

free_from-IsFree :
    (fuel : ℕ) (base final : Wide) (suffix : ℕ) (used : List Wide)
    → length used < fuel
    → IsPassed final base suffix
    → is_used (free_from fuel base final suffix used) used ≡ false
unfolding free_from
free_from-IsFree zero base final suffix used h passed = elim h [ ]
free_from-IsFree (suc fuel) base final suffix used h passed =
    let next = numbered base suffix in
    elim (Bool-cases (is_used final used)) [
      | inl e ↦
          let less = length-remove_lt final used e in
          let (same, other) =
            free_from-other fuel base next (suffix + 1) final used (passed suffix (omega arith))
              (λ i le. passed i (omega arith)) in
          let found =
            free_from-IsFree fuel base next (suffix + 1) (remove final used) (omega arith)
              (λ i le f. absurd (omega (arith, numbered-injective base i suffix f))) in
          rw (free_from, e)
            (sym (is_used-remove (free_from fuel base next (suffix + 1) used) final used other)
              ∙ ap (λ r. is_used r (remove final used)) (sym same)
              ∙ found)
      | inr e ↦ rw (free_from, e) e
    ]

-- The suffix loop ends: with one round more than there are names in use it finds a name that is
-- none of them, whatever the case of its letters.
pub free_name-IsFree : (base : Wide) (used : List Wide) → is_used (free_name base used) used ≡ false
unfolding free_name
free_name-IsFree base used =
    free_from-IsFree (suc (length used)) base base 2 used (omega arith)
      (λ i le. base_is_shorter base i)
