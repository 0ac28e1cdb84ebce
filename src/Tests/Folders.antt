-- ===== src/Tests/Folders.antt =====
-- Runs of the folder mapper on concrete folders, and instances of its theorems.
use eml_to_pst.Base.{◌≡◌, refl, List, [], ◌∷◌, false, length}
use eml_to_pst.Base.Text.{Wide, codes, text_eq, split_on, parts_at}
use eml_to_pst.Base.Numbers.{decimal, digits_onto}
use eml_to_pst.Base.Outcome.{ok}
use eml_to_pst.Folders.Collapse.{wide_lt}
use eml_to_pst.Folders.Mapper.{
  fnv1a_hash, fnv_from, fnv_unit, fnv_byte, to_hex8, hex_digits, TreeNode, Nodes, count_all,
  normalize_segment, has_control, trim_end, is_used, free_name, free_from, compare_ci, fold_lower,
  name_siblings, plan_tree, build_folder_plan, gather, set_insert, add_prefixes, split_components,
  build_tree, insert_path, at_child, add_last, process_sibling_group, sort_siblings, insert_sibling,
  emit_all, run_queue, cut_group, count, sort_folders, insert_folder, join_components, MappedFolder,
}
use eml_to_pst.Folders.Mapper.Segments.{IsLegal, normalize_segment-IsLegal}
use eml_to_pst.Folders.Mapper.Complete.{plan_tree-IsComplete}
use eml_to_pst.Folders.Mapper.Depth.{is_error, too_deep, build_folder_plan-error}

hash_of_a : to_hex8 (fnv1a_hash (codes "a")) ≡ codes "f5e1d3e4"
unfolding fnv1a_hash fnv_from fnv_unit fnv_byte to_hex8 hex_digits
hash_of_a = refl

trimmed :
    normalize_segment (1 ∷ codes "x. ")
    ≡ (codes "_x", codes "control-chars" ∷ codes "trailing-trim" ∷ [])
unfolding normalize_segment has_control trim_end
trimmed = refl

abbrev dirs : List Wide
dirs = codes "In\\b" ∷ codes "in" ∷ [] ∷ []

abbrev planned_folders : List MappedFolder
planned_folders =
    record { source_relative = codes "In"; target_segments = codes "In" ∷ [] }
    ∷ record { source_relative = codes "In\\b"; target_segments = codes "In" ∷ codes "b" ∷ [] }
    ∷ record { source_relative = []; target_segments = codes "Root Messages" ∷ [] }
    ∷ record { source_relative = codes "in"; target_segments = codes "in (2)" ∷ [] }
    ∷ []

folders_planned :
    build_folder_plan dirs
    ≡ ok (record {
      folders = planned_folders;
      renames =
          record {
            source_relative_folder = codes "in";
            target_relative_folder = codes "in (2)";
            reason = codes "collision";
          }
          ∷ [];
    })
unfolding build_folder_plan gather set_insert add_prefixes split_components split_on parts_at
    build_tree insert_path at_child add_last plan_tree process_sibling_group sort_siblings
    insert_sibling emit_all run_queue cut_group count sort_folders insert_folder join_components
    normalize_segment has_control trim_end is_used free_name free_from compare_ci fold_lower
    name_siblings wide_lt decimal digits_onto text_eq
folders_planned = refl

normalize_segment-IsLegal_example : IsLegal (normalize_segment (codes "x. .")).0
normalize_segment-IsLegal_example = normalize_segment-IsLegal (codes "x. .")

abbrev leaf : Wide → TreeNode
leaf name = TreeNode.node name false Nodes.no_more

abbrev leaves : List TreeNode
leaves = leaf (codes "In") ∷ leaf (codes "in.") ∷ leaf (codes "in (2)") ∷ []

abbrev forest : Nodes
forest =
    Nodes.child (TreeNode.node (codes "In") false (Nodes.child (leaf (codes "b")) Nodes.no_more))
      (Nodes.child (leaf (codes "in")) Nodes.no_more)

plan_tree-IsComplete_example :
    ((plan_tree forest).queue ≡ []) × (length (plan_tree forest).plan.folders ≡ 3)
unfolding count_all
plan_tree-IsComplete_example = plan_tree-IsComplete forest

build_folder_plan-error_example : is_error (build_folder_plan dirs) ≡ too_deep dirs
build_folder_plan-error_example = build_folder_plan-error dirs
