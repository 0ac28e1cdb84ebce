-- ===== src/Paths.antt =====
-- common/paths/path_utils.cpp: what can be said of a path from its text alone.
pub mod Within
use eml_to_pst.Base.{
  ℕ, ◌-◌, List, [], ◌∷◌, ◌++◌, Bool, true, false, ◌&&◌, ◌||◌, Option, none, some, leb, ◌==◌,
  if◌then◌else◌, length, take, drop, map,
}
use eml_to_pst.Base.Text.{Wide, codes, split_on}
use eml_to_pst.Unicode.{compare_ordinal_ignore_case, is_equal}

-- `substr` cuts to what is there, so that a short text differs from the prefix in length.
unfoldable pub starts_with_ci : Wide → Wide → Bool
starts_with_ci s prefix =
    leb (length prefix) (length s)
    && is_equal (compare_ordinal_ignore_case (take (length prefix) s) prefix)

abbrev pub extended_prefix : Wide
extended_prefix = codes "\\\\?\\"

abbrev pub extended_unc_prefix : Wide
extended_unc_prefix = codes "\\\\?\\UNC\\"

unfoldable pub is_extended_length_path : Wide → Bool
is_extended_length_path path = starts_with_ci path extended_prefix

abbrev two_backslashes : Wide → Bool
two_backslashes (a ∷ b ∷ c ∷ rest) = a == b'\\' && b == b'\\'
two_backslashes _ = false

unfoldable pub is_unc_path : Wide → Bool
is_unc_path path =
    if starts_with_ci path extended_unc_prefix
    then true
    else if is_extended_length_path path
    then false
    else two_backslashes path

abbrev is_letter : ℕ → Bool
is_letter c = leb b'A' c && leb c b'Z' || leb b'a' c && leb c b'z'

abbrev letter_before_colon : Wide → Option ℕ
letter_before_colon (c ∷ d ∷ rest) = if d == b':' && is_letter c then some c else none
letter_before_colon _ = none

unfoldable pub drive_letter_of : Wide → Option ℕ
drive_letter_of path =
    letter_before_colon (if is_extended_length_path path then drop 4 path else path)

abbrev has_letter : Option ℕ → Bool
has_letter none = false
has_letter (some c) = true

abbrev colon_and_separator : Wide → Bool
colon_and_separator (a ∷ b ∷ c ∷ rest) = b == b':' && (c == b'\\' || c == b'/')
colon_and_separator _ = false

unfoldable pub to_extended_length_path : Wide → Wide
to_extended_length_path path =
    if is_extended_length_path path
    then path
    else if is_unc_path path
    then extended_unc_prefix ++ drop 2 path
    else if has_letter (drive_letter_of path) && colon_and_separator path
    then extended_prefix ++ path
    else path

abbrev pst_extension : Wide
pst_extension = codes ".pst"

unfoldable pub has_pst_extension : Wide → Bool
has_pst_extension path =
    leb 4 (length path)
    && is_equal (compare_ordinal_ignore_case (drop (length path - 4) path) pst_extension)

abbrev to_backslash : ℕ → ℕ
to_backslash c = if c == b'/' then b'\\' else c

-- The loop over the rest of the path: of several backslashes in a row one is kept.
unfoldable pub collapse_from : Bool → Wide → Wide
collapse_from prev [] = []
collapse_from prev (c ∷ cs) =
    let rest = collapse_from (c == b'\\') cs in if c == b'\\' && prev then rest else c ∷ rest

unfoldable pub skip_backslashes : Wide → Wide
skip_backslashes [] = []
skip_backslashes (c ∷ cs) = let rest = skip_backslashes cs in if c == b'\\' then rest else c ∷ cs

abbrev after_marker : Wide → Wide
after_marker (a ∷ b ∷ cs) =
    if a == b'\\' && b == b'\\'
    then b'\\' ∷ b'\\' ∷ collapse_from false (skip_backslashes cs)
    else collapse_from false (a ∷ b ∷ cs)
after_marker cs = collapse_from false cs

unfoldable pub normalize_backslashes : Wide → Wide
normalize_backslashes path = after_marker (map to_backslash path)

abbrev without_unc : Wide → Wide
without_unc view = if starts_with_ci view (codes "UNC\\") then drop 4 view else view

-- Empty parts are left out, so that the backslashes at the end need no trimming.
unfoldable pub split_components : Wide → List Wide
split_components path =
    let normalized = normalize_backslashes path in
    split_on b'\\'
      (if is_extended_length_path normalized then without_unc (drop 4 normalized) else normalized)

unfoldable pub is_prefix_ci : List Wide → List Wide → Bool
is_prefix_ci [] candidate = true
is_prefix_ci (b ∷ base) [] = false
is_prefix_ci (b ∷ base) (x ∷ candidate) =
    is_equal (compare_ordinal_ignore_case b x) && is_prefix_ci base candidate

unfoldable pub is_lexically_within : Wide → Wide → Bool
is_lexically_within base candidate =
    is_prefix_ci (split_components base) (split_components candidate)
