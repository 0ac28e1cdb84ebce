-- ===== src/Folders/Collapse.antt =====
-- worker/folder_mapping/folder_collapse.cpp: the logical path of a folder. What `std::towlower`,
-- `std::iswdigit` and `std::iswalnum` say of a code unit depends on the C locale of the process;
-- the three are the parameter `Locale`.
pub mod Kept
use Prim.Native.Nat.{compare, Ordering}
use eml_to_pst.Base.{
  ℕ, zero, suc, ◌+◌, ◌-◌, ◌≤◌, List, [], ◌∷◌, ◌++◌, Bool, true, false, not, ◌&&◌, ◌||◌, Option,
  none, some, ltb, leb, ◌==◌, if◌then◌else◌, length, take, drop, map,
}
use eml_to_pst.Base.Text.{Bytes, Wide, codes, text_eq, split_on}

pub record Locale : Type 0 where
  pub towlower : ℕ → ℕ
  pub iswdigit : ℕ → Bool
  pub iswalnum : ℕ → Bool

pub record CollapseOptions : Type 0 where
  pub collapse_builtin_containers : Bool
  pub merge_case_variants : Bool
  pub extra_patterns : List Wide

-- The Hebrew names stand as their code units.
abbrev pub builtin_containers : List Wide
builtin_containers =
    codes "storage folders"
    ∷ codes "imported folder"
    ∷ codes "recovered items"
    ∷ (0x5E4 ∷ 0x5E8 ∷ 0x5D9 ∷ 0x5D8 ∷ 0x5D9 ∷ 0x5DD ∷ 0x20 ∷ 0x5DE ∷ 0x5E9 ∷ 0x5D5 ∷ 0x5D7 ∷ 0x5D6
        ∷ 0x5E8 ∷ 0x5D9 ∷ 0x5DD ∷ [])
    ∷ (0x5EA ∷ 0x5D9 ∷ 0x5E7 ∷ 0x5D9 ∷ 0x5D5 ∷ 0x5EA ∷ 0x20 ∷ 0x5D0 ∷ 0x5D7 ∷ 0x5E1 ∷ 0x5D5 ∷ 0x5DF
        ∷ [])
    ∷ (0x5EA ∷ 0x5D9 ∷ 0x5E7 ∷ 0x5D9 ∷ 0x5D5 ∷ 0x5EA ∷ 0x20 ∷ 0x5DE ∷ 0x5E7 ∷ 0x5D5 ∷ 0x5DE ∷ 0x5D9
        ∷ 0x5D5 ∷ 0x5EA ∷ [])
    ∷ []

unfoldable pub contains : Wide → List Wide → Bool
contains s [] = false
contains s (x ∷ xs) = text_eq s x || contains s xs

-- `join`: a separator goes in front of a part once something has been written.
unfoldable pub join_onto : Wide → List Wide → Wide
join_onto [] [] = []
join_onto [] (p ∷ ps) = join_onto p ps
join_onto (c ∷ out) [] = c ∷ out
join_onto (c ∷ out) (p ∷ ps) = join_onto ((c ∷ out) ++ b'\\' ∷ p) ps

unfoldable pub join : List Wide → Wide
unfolding join_onto
join = join_onto []

unfoldable pub split : Wide → List Wide
split path = split_on b'\\' path

-- `operator<` on std::wstring.
unfoldable pub wide_lt : Wide → Wide → Bool
wide_lt [] [] = false
wide_lt [] (y ∷ ys) = true
wide_lt (x ∷ xs) [] = false
wide_lt (x ∷ xs) (y ∷ ys) = elim (compare x y) [
  | Ordering.lt ↦ true
  | Ordering.eq ↦ wide_lt xs ys
  | _ ↦ false
]

unfoldable pub insert_sorted : Wide → List Wide → List Wide
insert_sorted s [] = s ∷ []
insert_sorted s (x ∷ xs) = if wide_lt x s then x ∷ insert_sorted s xs else s ∷ x ∷ xs

-- What `std::sort` leaves behind: equal texts are not told apart.
unfoldable pub sort : List Wide → List Wide
sort [] = []
sort (x ∷ xs) = insert_sorted x (sort xs)

module _ (l : Locale) where
  open l use {towlower, iswdigit, iswalnum}

  unfoldable pub to_lower : Wide → Wide
  to_lower s = map towlower s

  -- Whether the text, cut before its last byte, is digits all through.
  unfoldable pub digits_but_last : Wide → Bool
  digits_but_last [] = true
  digits_but_last (c ∷ []) = true
  digits_but_last (c ∷ d ∷ cs) = iswdigit c && digits_but_last (d ∷ cs)

  abbrev ends_with_paren : Wide → Bool
  ends_with_paren [] = false
  ends_with_paren (c ∷ []) = c == b')'
  ends_with_paren (c ∷ d ∷ cs) = ends_with_paren (d ∷ cs)

  abbrev last_open : Option (Wide × Wide) → ℕ → Wide → Option (Wide × Wide)
  last_open (some (before, behind)) c cs = some (c ∷ before, behind)
  last_open none c cs = if c == b'(' then some ([], cs) else none

  -- `rfind('(')`: the text before the last one and behind it.
  unfoldable pub cut_at_open : Wide → Option (Wide × Wide)
  cut_at_open [] = none
  cut_at_open (c ∷ cs) = last_open (cut_at_open cs) c cs

  abbrev keep_unless_blank : ℕ → Wide → Wide
  keep_unless_blank c [] = if c == b' ' then [] else c ∷ []
  keep_unless_blank c (d ∷ ds) = c ∷ d ∷ ds

  unfoldable pub trim_blanks : Wide → Wide
  trim_blanks [] = []
  trim_blanks (c ∷ cs) = keep_unless_blank c (trim_blanks cs)

  abbrev or_whole : Wide → Wide → Wide
  or_whole s [] = s
  or_whole s (c ∷ cs) = c ∷ cs

  abbrev without_marker : Wide → Option (Wide × Wide) → Wide
  without_marker s none = s
  without_marker s (some ([], behind)) = s
  without_marker s (some (c ∷ before, behind)) =
      if digits_but_last behind then or_whole s (trim_blanks (c ∷ before)) else s

  -- "Inbox (1)" becomes "Inbox".
  unfoldable pub without_dup_suffix : Wide → Wide
  unfolding cut_at_open trim_blanks
  without_dup_suffix s =
      if ltb (length s) 4 || not (ends_with_paren s) then s else without_marker s (cut_at_open s)

  -- The counts of digits and dashes; `none` where a byte is neither of those nor a tag.
  unfoldable pub stamp_counts : ℕ → ℕ → Wide → Option (ℕ × ℕ)
  stamp_counts digits dashes [] = some (digits, dashes)
  stamp_counts digits dashes (c ∷ cs) =
      let rest =
        stamp_counts (if iswdigit c then digits + 1 else digits)
          (if not (iswdigit c) && c == b'-' then dashes + 1 else dashes) cs in
      if iswdigit c || c == b'-' || c == b' ' || iswalnum c then rest else none

  unfoldable pub is_recovery_timestamp : Wide → Bool
  unfolding stamp_counts
  is_recovery_timestamp s = elim (stamp_counts 0 0 s) [
    | none ↦ false
    | some (digits, dashes) ↦ leb 2 dashes && leb 6 digits
  ]

  abbrev ends_with_star : Wide → Bool
  ends_with_star [] = false
  ends_with_star (c ∷ []) = c == b'*'
  ends_with_star (c ∷ d ∷ cs) = ends_with_star (d ∷ cs)

  abbrev without_last : Wide → Wide
  without_last [] = []
  without_last (c ∷ []) = []
  without_last (c ∷ d ∷ cs) = c ∷ without_last (d ∷ cs)

  unfoldable pub matches_pattern : Wide → Wide → Bool
  matches_pattern name pattern_ =
      if ends_with_star pattern_
      then (let stem = without_last pattern_ in
          leb (length stem) (length name) && text_eq (take (length stem) name) stem)
      else text_eq name pattern_

  unfoldable pub matches_extra : Wide → List Wide → Bool
  matches_extra lower [] = false
  matches_extra lower (p ∷ ps) = matches_pattern lower (to_lower p) || matches_extra lower ps

  unfoldable pub is_container_segment : Wide → CollapseOptions → Bool
  is_container_segment segment o =
      let lower = to_lower (without_dup_suffix segment) in
      o.collapse_builtin_containers
        && (contains lower builtin_containers || is_recovery_timestamp segment)
      || matches_extra lower o.extra_patterns

  -- `canonical`: the spelling chosen for a lowercased logical path.
  unfoldable pub spelling : Wide → List (Wide × Wide) → Option Wide
  spelling key [] = none
  spelling key ((k, v) ∷ m) = if text_eq k key then some v else spelling key m

  abbrev pub chosen : Wide → Wide → List (Wide × Wide) → Option Wide → Wide × List (Wide × Wide)
  chosen key name m (some known) = (known, m)
  chosen key name m none = (name, (key, name) ∷ m)

  abbrev pub pick :
      CollapseOptions → List Wide → Wide → List (Wide × Wide) → Wide × List (Wide × Wide)
  pick o kept name m =
      if o.merge_case_variants
      then (let key = to_lower (join (kept ++ name ∷ [])) in chosen key name m (spelling key m))
      else (name, m)

  -- The segments of one folder that are kept, behind those kept already.
  unfoldable pub keep_segments :
      CollapseOptions → List Wide → List Wide → List (Wide × Wide) → List Wide × List (Wide × Wide)
  keep_segments o kept [] m = (kept, m)
  keep_segments o kept (s ∷ ss) m =
      let skipped = is_container_segment s o in
      let picked = pick o kept s m in
      keep_segments o (if skipped then kept else kept ++ picked.0 ∷ []) ss
        (if skipped then m else picked.1)

  -- The loop over the folders, which are sorted.
  unfoldable pub collapse_dirs :
      CollapseOptions → List Wide → List (Wide × Wide) → List (Wide × Wide)
  collapse_dirs o [] m = []
  collapse_dirs o (dir ∷ dirs) m =
      let (kept, m') = keep_segments o [] (split dir) m in
      (dir, join kept) ∷ collapse_dirs o dirs m'

  -- Where a folder is listed twice the first pair counts (`std::map::emplace`).
  unfoldable pub build_collapse_map : List Wide → CollapseOptions → List (Wide × Wide)
  build_collapse_map source_dirs o = collapse_dirs o (sort source_dirs) []
