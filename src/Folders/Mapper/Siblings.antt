-- ===== src/Folders/Mapper/Siblings.antt =====
-- The names that `process_sibling_group` of worker/folder_mapping/folder_mapper.cpp gives to the
-- children of one folder.
use eml_to_pst.Base.{◌≡◌, refl, ap, List, [], ◌∷◌, ◌++◌, false, map}
use eml_to_pst.Base.Text.{Wide}
use eml_to_pst.Folders.Mapper.{TreeNode, is_used, named, Named, name_siblings, base_of}

-- No two names differ by case only.
unfoldable pub AreDistinct : List Wide → Type 0
AreDistinct [] = Unit
AreDistinct (n ∷ ns) = (is_used n ns ≡ false) × AreDistinct ns

AreFree : List Wide → List Wide → Type 0
AreFree used [] = Unit
AreFree used (n ∷ ns) = (is_used n used ≡ false) × AreFree used ns

abbrev pub names_of : List Named → List Wide
names_of = map (λ n. n.final_name)

pub siblings_kept :
    (used : List Wide) (ns : List TreeNode) → map (λ n. n.tree) (name_siblings used ns) ≡ ns
unfolding name_siblings
siblings_kept used [] = refl
siblings_kept used (n ∷ ns) =
    ap (λ r. n ∷ r) (siblings_kept (used ++ (named n used (base_of n)).final_name ∷ []) ns)
