-- ===== src/Folders/Collapse/Kept.antt =====
-- Which segments of a folder worker/folder_mapping/folder_collapse.cpp keeps.
use mathlib.Core.List.{append-nil, append_assoc}
use eml_to_pst.Base.{
  ◌≡◌, refl, sym, ◌∙◌, ap, List, [], ◌∷◌, ◌++◌, false, Bool-cases, inl, inr, if◌then◌else◌, map,
}
use eml_to_pst.Base.Text.{Wide}
use eml_to_pst.Folders.Collapse.{
  Locale, CollapseOptions, is_container_segment, pick, keep_segments, collapse_dirs,
  build_collapse_map, split, join, sort,
}

module _ (l : Locale) (o : CollapseOptions) where
  -- The segments that are no containers, in their order.
  unfoldable pub ordinary : List Wide → List Wide
  ordinary [] = []
  ordinary (s ∷ ss) = if is_container_segment l s o then ordinary ss else s ∷ ordinary ss

  abbrev pub collapsed : Wide → Wide × Wide
  collapsed dir = (dir, join (ordinary (split dir)))

  pick-alone :
      (kept : List Wide) (name : Wide) (m : List (Wide × Wide))
      → o.merge_case_variants ≡ false
      → pick l o kept name m ≡ (name, m)
  pick-alone kept name m h = rw h refl

  keep_segments-ordinary :
      (ss kept : List Wide) (m : List (Wide × Wide))
      → o.merge_case_variants ≡ false
      → keep_segments l o kept ss m ≡ (kept ++ ordinary ss, m)
  unfolding keep_segments ordinary
  keep_segments-ordinary [] kept m h = ap (λ k. (k, m)) (sym (append-nil kept))
  keep_segments-ordinary (s ∷ ss) kept m h = elim (Bool-cases (is_container_segment l s o)) [
    | inl e ↦ rw (keep_segments, ordinary, e) (keep_segments-ordinary ss kept m h)
    | inr e ↦
        rw (keep_segments, ordinary, e, pick-alone kept s m h)
          (keep_segments-ordinary ss (kept ++ s ∷ []) m h
            ∙ ap (λ k. (k, m)) (append_assoc kept (s ∷ []) (ordinary ss)))
  ]

  collapse_dirs-collapsed :
      (dirs : List Wide) (m : List (Wide × Wide))
      → o.merge_case_variants ≡ false
      → collapse_dirs l o dirs m ≡ map collapsed dirs
  unfolding collapse_dirs
  collapse_dirs-collapsed [] m h = refl
  collapse_dirs-collapsed (dir ∷ dirs) m h =
      rw
        (collapse_dirs, keep_segments-ordinary (split dir) [] m h, collapse_dirs-collapsed dirs m h)
        refl

  -- Where case variants are not merged, each folder of the sorted list is mapped to its own
  -- segments without the containers, whatever the other folders are.
  pub build_collapse_map-collapsed :
      (dirs : List Wide)
      → o.merge_case_variants ≡ false
      → build_collapse_map l dirs o ≡ map collapsed (sort dirs)
  unfolding build_collapse_map
  build_collapse_map-collapsed dirs h = collapse_dirs-collapsed (sort dirs) [] h
