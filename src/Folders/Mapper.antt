-- ===== src/Folders/Mapper.antt =====
-- worker/folder_mapping/folder_mapper.h and folder_mapper.cpp: the folders of the PST for the
-- folders of the source. wchar_t has 16 bits, as in the build for Windows.
pub mod Segments
pub mod Free
pub mod Siblings
pub mod Complete
pub mod Depth
use Prim.Native.Nat.{compare, Ordering, bit_xor}
use eml_to_pst.Base.{
  ℕ, zero, suc, ◌+◌, ◌*◌, ◌/◌, ◌%◌, ◌^◌, List, [], ◌∷◌, ◌++◌, Bool, true, false, not, ◌&&◌, ◌||◌,
  ltb, leb, ◌==◌, if◌then◌else◌, length, take, map,
}
use eml_to_pst.Base.Text.{Bytes, Wide, codes, text_eq, split_on}
use eml_to_pst.Base.Numbers.{decimal}
use eml_to_pst.Base.Outcome.{Result, ok, err, make_error}
use eml_to_pst.Unicode.{is_equal}
use eml_to_pst.Folders.Collapse.{wide_lt}

abbrev pub max_depth_segments : ℕ
max_depth_segments = 100

abbrev pub long_name_threshold : ℕ
long_name_threshold = 120

abbrev pub truncated_name_length : ℕ
truncated_name_length = 100

abbrev pub root_messages_folder : Wide
root_messages_folder = codes "Root Messages"

pub record MappedFolder : Type 0 where
  pub source_relative : Wide
  pub target_segments : List Wide

pub record RenamedFolder : Type 0 where
  pub source_relative_folder : Wide
  pub target_relative_folder : Wide
  pub reason : Bytes

pub record FolderPlan : Type 0 where
  pub folders : List MappedFolder
  pub renames : List RenamedFolder

unfoldable pub fold_lower : ℕ → ℕ
fold_lower c = if leb b'A' c && leb c b'Z' then c + 32 else c

-- The loop stops at the first difference, and else the lengths decide.
unfoldable pub compare_ci : Wide → Wide → Ordering
compare_ci [] [] = Ordering.eq
compare_ci [] (y ∷ b) = Ordering.lt
compare_ci (x ∷ a) [] = Ordering.gt
compare_ci (x ∷ a) (y ∷ b) = elim (compare (fold_lower x) (fold_lower y)) [
  | Ordering.lt ↦ Ordering.lt
  | Ordering.eq ↦ compare_ci a b
  | Ordering.gt ↦ Ordering.gt
]

abbrev pub same_ci : Wide → Wide → Bool
same_ci a b = is_equal (compare_ci a b)

unfoldable pub fnv_byte : ℕ → ℕ → ℕ
fnv_byte h byte = bit_xor h byte * 16777619 % 2 ^ 32

-- A code unit counts as four bytes, the lowest first.
unfoldable pub fnv_unit : ℕ → ℕ → ℕ
unfolding fnv_byte
fnv_unit h v =
    fnv_byte (fnv_byte (fnv_byte (fnv_byte h (v % 256)) (v / 256 % 256)) (v / 65536 % 256))
      (v / 16777216 % 256)

unfoldable pub fnv_from : ℕ → Wide → ℕ
fnv_from h [] = h
fnv_from h (c ∷ cs) = fnv_from (fnv_unit h c) cs

unfoldable pub fnv1a_hash : Wide → ℕ
fnv1a_hash s = fnv_from 2166136261 s

abbrev pub hex_digit : ℕ → ℕ
hex_digit n = if ltb n 10 then 48 + n else 87 + n

-- The last `n` digits of `v`.
unfoldable pub hex_digits : ℕ → ℕ → Wide
hex_digits zero v = []
hex_digits (suc n) v = hex_digits n (v / 16) ++ hex_digit (v % 16) ∷ []

unfoldable pub to_hex8 : ℕ → Wide
to_hex8 v = hex_digits 8 v

unfoldable pub split_components : Wide → List Wide
split_components path = split_on b'\\' path

unfoldable pub join_components : List Wide → Wide
join_components [] = []
join_components (p ∷ []) = p
join_components (p ∷ q ∷ ps) = p ++ b'\\' ∷ join_components (q ∷ ps)

abbrev pub without_control : ℕ → ℕ
without_control c = if leb c 0x1F then b'_' else c

unfoldable pub has_control : Wide → Bool
has_control [] = false
has_control (c ∷ cs) = leb c 0x1F || has_control cs

abbrev pub is_trailing : ℕ → Bool
is_trailing c = c == b' ' || c == b'.'

abbrev pub keep_unless_last : ℕ → Wide → Wide
keep_unless_last c [] = if is_trailing c then [] else c ∷ []
keep_unless_last c (d ∷ ds) = c ∷ d ∷ ds

unfoldable pub trim_end : Wide → Wide
trim_end [] = []
trim_end (c ∷ cs) = keep_unless_last c (trim_end cs)

abbrev pub reason_if : Bool → Bytes → List Bytes → List Bytes
reason_if true reason reasons = reasons ++ reason ∷ []
reason_if false reason reasons = reasons

abbrev pub or_underscore : Bool → Wide × List Bytes → Wide × List Bytes
or_underscore changed ([], reasons) =
    (b'_' ∷ [], reason_if (not changed) (codes "trailing-trim") reasons)
or_underscore changed (c ∷ cs, reasons) = (c ∷ cs, reasons)

abbrev pub shortened : Wide → Wide × List Bytes → Wide × List Bytes
shortened original (s, reasons) =
    if ltb long_name_threshold (length s)
    then (
      take truncated_name_length s ++ b'~' ∷ to_hex8 (fnv1a_hash original),
      reasons ++ codes "too-long" ∷ [],
    )
    else (s, reasons)

-- The name of a segment and the reasons for what was changed.
unfoldable pub normalize_segment : Wide → Wide × List Bytes
normalize_segment original =
    let s = map without_control original in
    let had_control = has_control original in
    let trimmed = trim_end s in
    let had_trim = not (length trimmed == length s) in
    let reasons =
      reason_if had_trim (codes "trailing-trim")
        (reason_if had_control (codes "control-chars") []) in
    shortened original (or_underscore (had_control || had_trim) (trimmed, reasons))

mutual
  pub data TreeNode : Type 0 where
    node : Wide → Bool → Nodes → TreeNode

  pub data Nodes : Type 0 where
    no_more : Nodes
    child : TreeNode → Nodes → Nodes

abbrev pub original_name : TreeNode → Wide
original_name (TreeNode.node name is_root children) = name

abbrev pub is_root_messages : TreeNode → Bool
is_root_messages (TreeNode.node name is_root children) = is_root

abbrev pub children_of : TreeNode → Nodes
children_of (TreeNode.node name is_root children) = children

-- `find_or_create_child`, and `f` done with the children of what it returns.
unfoldable pub at_child : Wide → (Nodes → Nodes) → Nodes → Nodes
at_child name f Nodes.no_more =
    Nodes.child (TreeNode.node name false (f Nodes.no_more)) Nodes.no_more
at_child name f (Nodes.child (TreeNode.node other is_root children) nodes) =
    let found = Nodes.child (TreeNode.node other is_root (f children)) nodes in
    let behind = Nodes.child (TreeNode.node other is_root children) (at_child name f nodes) in
    if not is_root && text_eq other name then found else behind

-- The walk from the root along the components of one folder.
unfoldable pub insert_path : List Wide → Nodes → Nodes
insert_path [] nodes = nodes
insert_path (c ∷ cs) nodes = at_child c (insert_path cs) nodes

unfoldable pub add_last : TreeNode → Nodes → Nodes
add_last n Nodes.no_more = Nodes.child n Nodes.no_more
add_last n (Nodes.child m nodes) = Nodes.child m (add_last n nodes)

abbrev pub list_of : Nodes → List TreeNode
list_of Nodes.no_more = []
list_of (Nodes.child n nodes) = n ∷ list_of nodes

pub record WorkItem : Type 0 where
  pub item : TreeNode
  pub parent_source_relative : Wide
  pub parent_target_segments : List Wide

-- The order of siblings; nodes of one name keep the order of the children here, which `std::sort`
-- does not promise.
abbrev pub sorts_before : TreeNode → TreeNode → Bool
sorts_before a b = elim (compare_ci (original_name a) (original_name b)) [
  | Ordering.lt ↦ true
  | Ordering.eq ↦ wide_lt (original_name a) (original_name b)
  | Ordering.gt ↦ false
]

unfoldable pub insert_sibling : TreeNode → List TreeNode → List TreeNode
insert_sibling n [] = n ∷ []
insert_sibling n (m ∷ ms) =
    let rest = insert_sibling n ms in if sorts_before m n then m ∷ rest else n ∷ m ∷ ms

unfoldable pub sort_siblings : List TreeNode → List TreeNode
sort_siblings [] = []
sort_siblings (n ∷ ns) = insert_sibling n (sort_siblings ns)

unfoldable pub is_used : Wide → List Wide → Bool
is_used name [] = false
is_used name (u ∷ used) = same_ci name u || is_used name used

-- base_name + " (" + suffix + ")".
abbrev pub numbered : Wide → ℕ → Wide
numbered base suffix = base ++ (codes " (" ++ (decimal suffix ++ codes ")"))

-- The loop that counts up the suffix.
unfoldable pub free_from : ℕ → Wide → Wide → ℕ → List Wide → Wide
free_from zero base final suffix used = final
free_from (suc fuel) base final suffix used =
    let next = free_from fuel base (numbered base suffix) (suffix + 1) used in
    if is_used final used then next else final

-- One round more than there are names in use.
unfoldable pub free_name : Wide → List Wide → Wide
free_name base used = free_from (suc (length used)) base base 2 used

abbrev pub base_of : TreeNode → Wide × List Bytes
base_of (TreeNode.node name true children) = (name, [])
base_of (TreeNode.node name false children) = normalize_segment name

pub record Named : Type 0 where
  pub tree : TreeNode
  pub final_name : Wide
  pub reasons : List Bytes

abbrev pub named : TreeNode → List Wide → Wide × List Bytes → Named
named n used (base, reasons) = record {
  tree = n;
  final_name = free_name base used;
  reasons = reason_if (is_used base used) (codes "collision") reasons;
}

-- The names of siblings, one after the other, where those in `used` are taken.
unfoldable pub name_siblings : List Wide → List TreeNode → List Named
name_siblings used [] = []
name_siblings used (n ∷ ns) =
    let first = named n used (base_of n) in first ∷ name_siblings (used ++ first.final_name ∷ []) ns

abbrev pub below : Wide → Wide → Wide
below [] name = name
below (c ∷ cs) name = (c ∷ cs) ++ b'\\' ∷ name

abbrev pub source_of : TreeNode → Wide → Wide
source_of (TreeNode.node name true children) parent = []
source_of (TreeNode.node name false children) parent = below parent name

abbrev pub renames_of : Wide → Wide → List Bytes → List RenamedFolder
renames_of source target [] = []
renames_of source target (reason ∷ reasons) =
    record { source_relative_folder = source; target_relative_folder = target; reason = reason }
    ∷ renames_of source target reasons

abbrev pub items_of : Wide → List Wide → List TreeNode → List WorkItem
items_of source target [] = []
items_of source target (n ∷ ns) =
    record { item = n; parent_source_relative = source; parent_target_segments = target }
    ∷ items_of source target ns

-- The plan and the queue.
pub record Planning : Type 0 where
  pub plan : FolderPlan
  pub queue : List WorkItem

abbrev pub emit : Wide → List Wide → Named → Planning → Planning
emit parent_source parent_target n p =
    let source = source_of n.tree parent_source in
    let target = parent_target ++ n.final_name ∷ [] in
    record {
      plan = record {
        folders =
            p.plan.folders ++ record { source_relative = source; target_segments = target } ∷ [];
        renames = p.plan.renames ++ renames_of source (join_components target) n.reasons;
      };
      queue = p.queue ++ items_of source target (list_of (children_of n.tree));
    }

unfoldable pub emit_all : Wide → List Wide → List Named → Planning → Planning
emit_all parent_source parent_target [] p = p
emit_all parent_source parent_target (n ∷ ns) p =
    emit_all parent_source parent_target ns (emit parent_source parent_target n p)

unfoldable pub process_sibling_group : List TreeNode → Wide → List Wide → Planning → Planning
process_sibling_group siblings parent_source parent_target p =
    emit_all parent_source parent_target (name_siblings [] (sort_siblings siblings)) p

-- The items at the front of the queue that have the parent, and the rest.
unfoldable pub cut_group : Wide → List WorkItem → List TreeNode × List WorkItem
cut_group source [] = ([], [])
cut_group source (i ∷ items) =
    let (group, rest) = cut_group source items in
    if text_eq i.parent_source_relative source then (i.item ∷ group, rest) else ([], i ∷ items)

unfoldable pub run_queue : ℕ → Planning → Planning
run_queue zero p = p
run_queue (suc fuel) p = elim p.queue [
  | [] ↦ p
  | i ∷ items ↦
      let (group, rest) = cut_group i.parent_source_relative items in
      run_queue fuel (
        process_sibling_group (i.item ∷ group) i.parent_source_relative i.parent_target_segments
          (record p { queue = rest }))
]

-- How many nodes there are, at every depth.
unfoldable mutual
  pub count : TreeNode → ℕ
  count (TreeNode.node name is_root children) = suc (count_all children)

  pub count_all : Nodes → ℕ
  count_all Nodes.no_more = 0
  count_all (Nodes.child n nodes) = count n + count_all nodes

-- `std::set::insert`, in the order of `operator<`.
unfoldable pub set_insert : Wide → List Wide → List Wide
set_insert s [] = s ∷ []
set_insert s (x ∷ xs) =
    let rest = set_insert s xs in
    if text_eq s x then x ∷ xs else if wide_lt x s then x ∷ rest else s ∷ x ∷ xs

-- The folder and all above it, from the top; `running` is the one reached.
unfoldable pub add_prefixes : Wide → List Wide → List Wide → List Wide
add_prefixes running [] needed = needed
add_prefixes running (c ∷ cs) needed =
    let next = below running c in add_prefixes next cs (set_insert next needed)

abbrev pub with_components : List Wide → Bool × List Wide → Result (Bool × List Wide)
with_components comps (has_root, needed) =
    if ltb max_depth_segments (length comps)
    then err (
        make_error (codes "build_folder_plan")
          (codes "source folder path exceeds maximum supported depth"))
    else ok (has_root, add_prefixes [] comps needed)

abbrev pub add_dir : Wide → Bool × List Wide → Result (Bool × List Wide)
add_dir [] (has_root, needed) = ok (true, needed)
add_dir (c ∷ cs) (has_root, needed) = with_components (split_components (c ∷ cs)) (has_root, needed)

-- Whether the root itself holds mail, and the folders that are needed.
unfoldable pub gather : List Wide → Bool × List Wide → Result (Bool × List Wide)
gather [] found = ok found
gather (dir ∷ dirs) found = elim (add_dir dir found) [ err e ↦ err e | ok more ↦ gather dirs more ]

unfoldable pub build_tree : List Wide → Nodes → Nodes
build_tree [] nodes = nodes
build_tree (dir ∷ dirs) nodes = build_tree dirs (insert_path (split_components dir) nodes)

abbrev pub with_root_messages : Bool → Nodes → Nodes
with_root_messages true nodes =
    add_last (TreeNode.node root_messages_folder true Nodes.no_more) nodes
with_root_messages false nodes = nodes

abbrev pub joined : MappedFolder → Wide
joined f = join_components f.target_segments

unfoldable pub insert_folder : MappedFolder → List MappedFolder → List MappedFolder
insert_folder f [] = f ∷ []
insert_folder f (g ∷ gs) =
    let rest = insert_folder f gs in if wide_lt (joined g) (joined f) then g ∷ rest else f ∷ g ∷ gs

unfoldable pub sort_folders : List MappedFolder → List MappedFolder
sort_folders [] = []
sort_folders (f ∷ fs) = insert_folder f (sort_folders fs)

abbrev pub nothing_planned : Planning
nothing_planned = record { plan = record { folders = []; renames = [] }; queue = [] }

-- The nodes of the top, and then the queue; there is a round for each node at most.
unfoldable pub plan_tree : Nodes → Planning
plan_tree nodes =
    run_queue (count_all nodes) (process_sibling_group (list_of nodes) [] [] nothing_planned)

abbrev pub sorted_plan : FolderPlan → FolderPlan
sorted_plan plan = record plan { folders = sort_folders plan.folders }

abbrev pub planned : Result (Bool × List Wide) → Result FolderPlan
planned (err e) = err e
planned (ok (has_root, needed)) =
    ok
      (sorted_plan (plan_tree (with_root_messages has_root (build_tree needed Nodes.no_more))).plan)

unfoldable pub build_folder_plan : List Wide → Result FolderPlan
build_folder_plan dirs = planned (gather dirs (false, []))
