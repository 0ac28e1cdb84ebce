-- ===== src/Paths/Within.antt =====
-- `is_lexically_within` of common/paths/path_utils.cpp against a relation on the components.
use mathlib.Core.List.{append_assoc}
use eml_to_pst.Base.{◌≡◌, ◌↔◌, refl, sym, ◌∙◌, ap, List, [], ◌∷◌, ◌++◌, true, arith, map}
use eml_to_pst.Base.Text.{Wide}
use eml_to_pst.Unicode.{compare_ordinal_ignore_case, fold_ascii_upper, is_equal}
use eml_to_pst.Paths.{is_prefix_ci, split_components, is_lexically_within}

compare_eq :
    (a b : Wide)
    → is_equal (compare_ordinal_ignore_case a b) ≡ true
    → map fold_ascii_upper a ≡ map fold_ascii_upper b
unfolding compare_ordinal_ignore_case
compare_eq [] [] h = refl
compare_eq [] (y ∷ b) h = absurd (cc)
compare_eq (x ∷ a) [] h = absurd (cc)
compare_eq (x ∷ a) (y ∷ b) h = ground (arith, compare_eq a b)

eq_compare :
    (a b : Wide)
    → map fold_ascii_upper a ≡ map fold_ascii_upper b
    → is_equal (compare_ordinal_ignore_case a b) ≡ true
unfolding compare_ordinal_ignore_case
eq_compare [] [] h = refl
eq_compare [] (y ∷ b) h = absurd (cc)
eq_compare (x ∷ a) [] h = absurd (cc)
eq_compare (x ∷ a) (y ∷ b) h = ground (arith, eq_compare a b)

-- The components of a path, without the case of ASCII letters.
abbrev pub folded : List Wide → List Wide
folded = map (map fold_ascii_upper)

abbrev Extends : List Wide → List Wide → Type 0
Extends base candidate = (rest : List Wide) × (candidate ≡ base ++ rest)

tail_of : List Wide → List Wide
tail_of [] = []
tail_of (x ∷ xs) = xs

head_of : List Wide → Wide
head_of [] = []
head_of (x ∷ xs) = x

prefix-Extends :
    (base candidate : List Wide)
    → is_prefix_ci base candidate ≡ true
    → Extends (folded base) (folded candidate)
unfolding is_prefix_ci
prefix-Extends [] candidate h = (folded candidate, refl)
prefix-Extends (b ∷ base) [] h = absurd (cc)
prefix-Extends (b ∷ base) (x ∷ candidate) h =
    let same = compare_eq b x (ground arith) in
    let (rest, e) = prefix-Extends base candidate (ground arith) in (rest, rw (same, e) refl)

Extends-prefix :
    (base candidate : List Wide) (rest : List Wide)
    → folded candidate ≡ folded base ++ rest
    → is_prefix_ci base candidate ≡ true
unfolding is_prefix_ci tail_of head_of
Extends-prefix [] candidate rest e = refl
Extends-prefix (b ∷ base) [] rest e = absurd (cc)
Extends-prefix (b ∷ base) (x ∷ candidate) rest e =
    let first = eq_compare b x (sym (ap head_of e)) in
    rw (is_prefix_ci, first) (Extends-prefix base candidate rest (ap tail_of e))

-- A candidate's components continue those of the base, but for the case of ASCII letters.
abbrev pub IsBelow : Wide → Wide → Type 0
IsBelow base candidate =
    (rest : List Wide) × (folded (split_components candidate)
      ≡ folded (split_components base) ++ rest)

-- `is_lexically_within` holds exactly when the components of the candidate are those of the base,
-- compared without the case of ASCII letters, followed by any others.
pub is_lexically_within_iff :
    (base candidate : Wide) → (is_lexically_within base candidate ≡ true) ↔ IsBelow base candidate
unfolding is_lexically_within
is_lexically_within_iff base candidate = (
  prefix-Extends (split_components base) (split_components candidate),
  λ e. Extends-prefix (split_components base) (split_components candidate) e.0 e.1,
)

-- What lies within a path lies within every path that this one lies within.
pub is_lexically_within_trans :
    (a b c : Wide)
    → is_lexically_within a b ≡ true
    → is_lexically_within b c ≡ true
    → is_lexically_within a c ≡ true
is_lexically_within_trans a b c h k =
    let (rest, e) = (is_lexically_within_iff a b).0 h in
    let (more, f) = (is_lexically_within_iff b c).0 k in
    (is_lexically_within_iff a c).1 (
      rest ++ more,
      f ∙ ap (λ l. l ++ more) e ∙ append_assoc (folded (split_components a)) rest more,
    )
