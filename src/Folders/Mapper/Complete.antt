-- ===== src/Folders/Mapper/Complete.antt =====
-- The queue of `build_folder_plan` in worker/folder_mapping/folder_mapper.cpp runs empty, and each
-- node of the tree gets one folder.
use eml_to_pst.Base.{
  ℕ, zero, suc, ◌+◌, ◌≤◌, ◌<◌, ◌≡◌, refl, ap, ◌∙◌, List, [], ◌∷◌, ◌++◌, arith, inl, inr, Bool-cases,
  length, length-append, map,
}
use eml_to_pst.Base.Text.{Wide, text_eq}
use eml_to_pst.Folders.Mapper.{
  FolderPlan, TreeNode, Nodes, count, count_all, list_of, children_of, WorkItem, items_of, Planning,
  Named, emit, emit_all, name_siblings, named, base_of, insert_sibling, sort_siblings, sorts_before,
  process_sibling_group, cut_group, run_queue, plan_tree, nothing_planned,
}
use eml_to_pst.Folders.Mapper.Siblings.{siblings_kept}

-- How many nodes the trees have.
abbrev weight : List TreeNode → ℕ
weight [] = 0
weight (n ∷ ns) = count n + weight ns

abbrev queued : List WorkItem → ℕ
queued [] = 0
queued (i ∷ items) = count i.item + queued items

-- The nodes that have a folder or wait in the queue.
abbrev total : Planning → ℕ
total p = length p.plan.folders + queued p.queue

weight-insert_sibling :
    (n : TreeNode) (ms : List TreeNode) → weight (insert_sibling n ms) ≡ count n + weight ms
unfolding insert_sibling
weight-insert_sibling n [] = refl
weight-insert_sibling n (m ∷ ms) = elim (Bool-cases (sorts_before m n)) [
  | inl e ↦ rw (insert_sibling, e) (omega (arith, weight-insert_sibling n ms))
  | inr e ↦ rw (insert_sibling, e) refl
]

weight-sort_siblings : (ns : List TreeNode) → weight (sort_siblings ns) ≡ weight ns
unfolding sort_siblings
weight-sort_siblings [] = refl
weight-sort_siblings (n ∷ ns) =
    weight-insert_sibling n (sort_siblings ns) ∙ ap (λ w. count n + w) (weight-sort_siblings ns)

queued-append : (a b : List WorkItem) → queued (a ++ b) ≡ queued a + queued b
queued-append [] b = omega arith
queued-append (i ∷ a) b = omega (arith, queued-append a b)

queued-items_of :
    (source : Wide) (target : List Wide) (nodes : Nodes)
    → queued (items_of source target (list_of nodes)) ≡ count_all nodes
unfolding count_all
queued-items_of source target Nodes.no_more = refl
queued-items_of source target (Nodes.child n nodes) =
    ap (λ w. count n + w) (queued-items_of source target nodes)

count-node : (n : TreeNode) → count n ≡ suc (count_all (children_of n))
unfolding count
count-node (TreeNode.node name is_root children) = refl

emit_total :
    (source : Wide) (target : List Wide) (n : Named) (p : Planning)
    → (length (emit source target n p).plan.folders ≡ suc (length p.plan.folders))
      × (queued (emit source target n p).queue ≡ queued p.queue + count_all (children_of n.tree))
emit_total source target n p = (
  length-append p.plan.folders _ ∙ omega arith,
  queued-append p.queue _ ∙ ap (λ w. queued p.queue + w) (queued-items_of _ _ (children_of n.tree)),
)

abbrev trees : List Named → List TreeNode
trees = map (λ n. n.tree)

emit_all_total :
    (source : Wide) (target : List Wide) (ns : List Named) (p : Planning)
    → (total (emit_all source target ns p) ≡ total p + weight (trees ns))
      × (queued (emit_all source target ns p).queue + length ns
          ≡ queued p.queue + weight (trees ns))
unfolding emit_all
emit_all_total source target [] p = (omega arith, omega arith)
emit_all_total source target (n ∷ ns) p =
    let (a, b) = emit_total source target n p in
    let (t, q) = emit_all_total source target ns (emit source target n p) in
    let c = count-node n.tree in (omega arith, omega arith)

length-name_siblings :
    (used : List Wide) (ns : List TreeNode) → length (name_siblings used ns) ≡ length ns
unfolding name_siblings
length-name_siblings used [] = refl
length-name_siblings used (n ∷ ns) =
    ap suc (length-name_siblings (used ++ (named n used (base_of n)).final_name ∷ []) ns)

length-insert_sibling :
    (n : TreeNode) (ms : List TreeNode) → length (insert_sibling n ms) ≡ suc (length ms)
unfolding insert_sibling
length-insert_sibling n [] = refl
length-insert_sibling n (m ∷ ms) = elim (Bool-cases (sorts_before m n)) [
  | inl e ↦ rw (insert_sibling, e) (ap suc (length-insert_sibling n ms))
  | inr e ↦ rw (insert_sibling, e) refl
]

-- A group is not empty, so that what waits becomes less.
group_total :
    (n : TreeNode) (ns : List TreeNode) (source : Wide) (target : List Wide) (p : Planning)
    → (total (process_sibling_group (n ∷ ns) source target p) ≡ total p + weight (n ∷ ns))
      × (queued (process_sibling_group (n ∷ ns) source target p).queue
          < queued p.queue + weight (n ∷ ns))
unfolding process_sibling_group sort_siblings
group_total n ns source target p =
    let sorted = insert_sibling n (sort_siblings ns) in
    let (t, q) = emit_all_total source target (name_siblings [] sorted) p in
    let kept = ap weight (siblings_kept [] sorted) in
    let same = weight-sort_siblings (n ∷ ns) in
    let size = length-name_siblings [] sorted ∙ length-insert_sibling n (sort_siblings ns) in
    (omega arith, omega arith)

queued-cut_group :
    (source : Wide) (items : List WorkItem)
    → weight (cut_group source items).0 + queued (cut_group source items).1 ≡ queued items
unfolding cut_group
queued-cut_group source [] = refl
queued-cut_group source (i ∷ items) = elim (Bool-cases (text_eq i.parent_source_relative source)) [
  | inl e ↦ rw (cut_group, e) (omega (arith, queued-cut_group source items))
  | inr e ↦ rw (cut_group, e) (omega arith)
]

count_positive : (n : TreeNode) → 1 ≤ count n
count_positive n = let c = count-node n in omega arith

abbrev EndsWith : ℕ → Planning → Type 0
EndsWith n p = (p.queue ≡ []) × (length p.plan.folders ≡ n)

run_queue_total :
    (fuel : ℕ) (plan : FolderPlan) (queue : List WorkItem) (n : ℕ)
    → queued queue ≤ fuel
    → length plan.folders + queued queue ≡ n
    → EndsWith n (run_queue fuel (record { plan = plan; queue = queue }))
unfolding run_queue
run_queue_total zero plan [] n h e = (refl, omega arith)
run_queue_total zero plan (i ∷ items) n h e =
    let positive = count_positive i.item in absurd (omega arith)
run_queue_total (suc fuel) plan [] n h e = (refl, omega arith)
run_queue_total (suc fuel) plan (i ∷ items) n h e =
    let source = i.parent_source_relative in
    let cut = queued-cut_group source items in
    let p : Planning = record { plan = plan; queue = (cut_group source items).1 } in
    let (all, less) =
      group_total i.item (cut_group source items).0 source i.parent_target_segments p in
    let next =
      process_sibling_group (i.item ∷ (cut_group source items).0) source i.parent_target_segments
        p in
    run_queue_total fuel next.plan next.queue n (omega arith) (omega arith)

weight-list_of : (nodes : Nodes) → weight (list_of nodes) ≡ count_all nodes
unfolding count_all
weight-list_of Nodes.no_more = refl
weight-list_of (Nodes.child n nodes) = ap (λ w. count n + w) (weight-list_of nodes)

first_group :
    (ns : List TreeNode)
    → let p = process_sibling_group ns [] [] nothing_planned in
      (total p ≡ weight ns) × (queued p.queue ≤ weight ns)
unfolding process_sibling_group sort_siblings name_siblings emit_all
first_group [] = (refl, omega arith)
first_group (n ∷ ns) =
    let (t, less) = group_total n ns [] [] nothing_planned in (omega arith, omega arith)

-- The queue runs empty within a round for each node of the tree, and then each node has a folder:
-- there are as many folders as nodes.
pub plan_tree-IsComplete :
    (nodes : Nodes)
    → ((plan_tree nodes).queue ≡ []) × (length (plan_tree nodes).plan.folders ≡ count_all nodes)
unfolding plan_tree
plan_tree-IsComplete nodes =
    let first = process_sibling_group (list_of nodes) [] [] nothing_planned in
    let (t, less) = first_group (list_of nodes) in
    let same = weight-list_of nodes in
    run_queue_total (count_all nodes) first.plan first.queue (count_all nodes) (omega arith)
      (omega arith)
