-- ===== src/Base/Text.antt =====
-- Texts as lists of numbers: bytes for std::string, code units for std::wstring.
use Prim.Native.Char.{code}
use Prim.Native.String.{String}
use Prim.Native.Nat.{ℕ, suc, compare, Ordering}
use mathlib.Core.Path.{◌≡◌, refl}
use mathlib.Core.Logic.{◌↔◌}
use mathlib.Core.Bool.{Bool, true, false}
use mathlib.Core.Option.{Option, none, some}
use mathlib.Core.List.{List, [], ◌∷◌}
use native.Mathlib.Omega.{arith}

abbrev pub Bytes : Type 0
Bytes = List ℕ

abbrev pub Wide : Type 0
Wide = List ℕ

-- The code points of a literal.
abbrev pub codes : String → List ℕ
codes String.[] = []
codes (String.◌∷◌ c s) = code c ∷ codes s

-- `operator==` on std::string and std::wstring.
unfoldable pub text_eq : List ℕ → List ℕ → Bool
text_eq [] [] = true
text_eq (x ∷ xs) (y ∷ ys) = elim (compare x y) [ Ordering.eq ↦ text_eq xs ys | _ ↦ false ]
text_eq _ _ = false

pub text_eq_iff : (a b : List ℕ) → (text_eq a b ≡ true) ↔ (a ≡ b)
unfolding text_eq
text_eq_iff (x ∷ a) (y ∷ b) = ground (arith, text_eq_iff a b)
text_eq_iff _ _ = ground arith

pub text_eq_self : (a : List ℕ) → text_eq a a ≡ true
text_eq_self a = (text_eq_iff a a).1 refl

-- `find` from the start: the position of the first `c`, or none for npos.
unfoldable pub find : ℕ → List ℕ → Option ℕ
find c [] = none
find c (x ∷ xs) =
    let rest : Option ℕ = elim (find c xs) [ none ↦ none | some i ↦ some (suc i) ] in
    elim (compare x c) [ Ordering.eq ↦ some 0 | _ ↦ rest ]

abbrev flush_part : List ℕ → List (List ℕ) → List (List ℕ)
flush_part [] parts = parts
flush_part (c ∷ cs) parts = (c ∷ cs) ∷ parts

abbrev add_to_first : ℕ → List ℕ × List (List ℕ) → List ℕ × List (List ℕ)
add_to_first c (part, parts) = (c ∷ part, parts)

abbrev next_part : List ℕ × List (List ℕ) → List ℕ × List (List ℕ)
next_part (part, parts) = ([], flush_part part parts)

-- The part of `s` before the first separator, and the parts behind it that are not empty.
unfoldable pub parts_at : ℕ → List ℕ → List ℕ × List (List ℕ)
parts_at sep [] = ([], [])
parts_at sep (c ∷ cs) =
    let rest = parts_at sep cs in
    elim (compare c sep) [ Ordering.eq ↦ next_part rest | _ ↦ add_to_first c rest ]

abbrev pub all_parts : List ℕ × List (List ℕ) → List (List ℕ)
all_parts (part, parts) = flush_part part parts

-- The parts of a text between separators, those that are empty left out.
unfoldable pub split_on : ℕ → List ℕ → List (List ℕ)
unfolding parts_at
split_on sep s = all_parts (parts_at sep s)
