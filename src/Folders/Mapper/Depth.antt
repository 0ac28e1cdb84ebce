-- ===== src/Folders/Mapper/Depth.antt =====
-- When `build_folder_plan` of worker/folder_mapping/folder_mapper.cpp reports an error.
use mathlib.Core.Path.{subst}
use eml_to_pst.Base.{
  ℕ, suc, ◌==◌, if◌then◌else◌, Bool-cases, inl, inr, ◌≡◌, refl, ◌∙◌, List, [], ◌∷◌, Bool, true,
  false, ◌||◌, ltb, length, arith,
}
use eml_to_pst.Base.Text.{Wide, split_on, parts_at, all_parts}
use eml_to_pst.Base.Outcome.{Result, ok, err}
use eml_to_pst.Folders.Mapper.{
  split_components, with_components, add_dir, gather, planned, build_folder_plan,
}

abbrev pub is_error {ℓ} : {A : Type ℓ} → Result A → Bool
is_error (ok a) = false
is_error (err e) = true

-- The number of the parts of a path that are not empty, counted over its characters. The Boolean
-- says whether the part that is being read has begun.
abbrev pub parts_from : Bool → Wide → ℕ
parts_from begun [] = 0
parts_from begun (c ∷ cs) =
    let behind = parts_from false cs in
    let inside = parts_from true cs in
    if c == b'\\' then behind else if begun then inside else suc inside

abbrev pub segments : Wide → ℕ
segments dir = parts_from false dir

-- One of the folders has more than 100 segments.
abbrev pub too_deep : List Wide → Bool
too_deep [] = false
too_deep (dir ∷ dirs) = ltb 100 (segments dir) || too_deep dirs

parts_at-counts :
    (dir : Wide)
    → (length (all_parts (parts_at b'\\' dir)) ≡ parts_from false dir)
      × (length (parts_at b'\\' dir).1 ≡ parts_from true dir)
unfolding parts_at
parts_at-counts [] = (refl, refl)
parts_at-counts (c ∷ cs) =
    let rest = parts_at-counts cs in
    (ground (arith, rest.0, rest.1), ground (arith, rest.0, rest.1))

length-split_components : (dir : Wide) → length (split_components dir) ≡ segments dir
unfolding split_components split_on
length-split_components dir = (parts_at-counts dir).0

with_components-error :
    (comps : List Wide) (found : Bool × List Wide)
    → is_error (with_components comps found) ≡ ltb 100 (length comps)
with_components-error comps (has_root, needed) = elim (Bool-cases (ltb 100 (length comps))) [
  | inl e ↦ rw e refl
  | inr e ↦ rw e refl
]

add_dir-error :
    (dir : Wide) (found : Bool × List Wide) → is_error (add_dir dir found) ≡ ltb 100 (segments dir)
add_dir-error [] (has_root, needed) = refl
add_dir-error (c ∷ cs) (has_root, needed) =
    subst (λ n. is_error (add_dir (c ∷ cs) (has_root, needed)) ≡ ltb 100 n)
      (length-split_components (c ∷ cs))
      (with_components-error (split_components (c ∷ cs)) (has_root, needed))

gather-error :
    (dirs : List Wide) (found : Bool × List Wide) → is_error (gather dirs found) ≡ too_deep dirs
unfolding gather
gather-error [] found = refl
gather-error (dir ∷ dirs) found =
    after_dir (add_dir dir found) (add_dir-error dir found) (λ more. gather-error dirs more)
  where
    after_dir :
        (r : Result (Bool × List Wide))
        → is_error r ≡ ltb 100 (segments dir)
        → ((more : Bool × List Wide) → is_error (gather dirs more) ≡ too_deep dirs)
        → is_error (elim r [ err e ↦ err e | ok more ↦ gather dirs more ]) ≡ too_deep (dir ∷ dirs)
    after_dir (err e) h rest = ground arith
    after_dir (ok more) h rest = ground (arith, rest more)

planned-error : (r : Result (Bool × List Wide)) → is_error (planned r) ≡ is_error r
planned-error (err e) = refl
planned-error (ok found) = refl

-- The plan is refused exactly where a folder has more than 100 segments, parts between backslashes
-- that are not empty; there is no other error.
pub build_folder_plan-error : (dirs : List Wide) → is_error (build_folder_plan dirs) ≡ too_deep dirs
unfolding build_folder_plan
build_folder_plan-error dirs =
    planned-error (gather dirs (false, [])) ∙ gather-error dirs (false, [])
