-- ===== src/Scanner/Walk.antt =====
-- The loop of `scan_source_tree` in worker/scanner/scanner.cpp ends: its stack runs empty.
use eml_to_pst.Base.{
  ℕ, zero, suc, ◌+◌, ◌-◌, ◌≤◌, ◌<◌, ◌≡◌, refl, ap, List, [], ◌∷◌, Bool, true, false, ltb, Option,
  none, some, arith, inl, inr, Bool-cases, if◌then◌else◌,
}
use eml_to_pst.Base.Text.{Bytes, Wide}
use eml_to_pst.Model.{FileTimeUtc}
use eml_to_pst.Scanner.{
  ScanOptions, Kind, Entry, FileSystem, PendingDir, Scan, visit_directory, visit_eml, visit_file,
  visit_present, visit_status, visit_entry, visit_entries, broken_off, visit_listing, walk,
  is_entered, add_sizes, entries_of, directories, whole_walk, root_path, start_scan, add_file,
  is_eml,
}

module _ (o : ScanOptions) (fs : FileSystem) where
  -- The rounds that the directories on the stack need.
  abbrev waiting : List PendingDir → ℕ
  waiting [] = 0
  waiting (d ∷ ds) = directories fs (o.max_depth - d.depth) d.absolute + waiting ds

  -- Down to how many levels there are below a directory that is entered.
  abbrev cost : PendingDir → Option Kind → Bool → Bytes → ℕ
  cost current kind is_reparse path =
      if ltb o.max_depth (current.depth + 1)
      then 0
      else (if is_entered kind is_reparse
          then directories fs (o.max_depth - (current.depth + 1)) path
          else 0)

  file_waits :
      (relative : Wide) (e : Entry) (size : Option ℕ) (time : Option FileTimeUtc) (s : Scan)
      → (add_file relative e size time s).stack ≡ s.stack
  file_waits relative e none time s = refl
  file_waits relative e (some size) none s = refl
  file_waits relative e (some size) (some t) s = refl

  eml_waits :
      (relative : Wide) (e : Entry) (b : Bool) (s : Scan)
      → (visit_eml o relative e b s).stack ≡ s.stack
  eml_waits relative e true s = refl
  eml_waits relative e false s = file_waits relative e e.file_size e.last_write_time s

  kept_file :
      (current : PendingDir) (relative : Wide) (e : Entry) (b : Bool) (s : Scan)
      → (visit_file o current relative e b s).stack ≡ s.stack
  kept_file current relative e false s = refl
  kept_file current relative e true s = eml_waits relative e (ltb o.max_depth (current.depth + 1)) s

  directory_waits :
      (current : PendingDir) (relative : Wide) (e : Entry) (b : Bool) (s : Scan)
      → waiting (visit_directory o current relative e b s).stack
        ≡ (if b then 0 else directories fs (o.max_depth - (current.depth + 1)) e.path)
          + waiting s.stack
  directory_waits current relative e true s = omega arith
  directory_waits current relative e false s = refl

  present_waits :
      (current : PendingDir) (relative : Wide) (e : Entry) (kind : Kind) (b : Bool) (s : Scan)
      → waiting (visit_present o current relative e kind b s).stack
        ≤ cost current (some kind) b e.path + waiting s.stack
  present_waits current relative e kind true s = ground arith
  present_waits current relative e Kind.directory false s =
      let all = directory_waits current relative e (ltb o.max_depth (current.depth + 1)) s in
      omega arith
  present_waits current relative e Kind.regular_file false s =
      let same = ap waiting (kept_file current relative e (is_eml e) s) in ground arith
  present_waits current relative e Kind.other_kind false s = ground arith

  status_waits :
      (current : PendingDir) (e : Entry) (kind : Option Kind) (s : Scan)
      → waiting (visit_status o current e kind s).stack
        ≤ cost current kind e.is_reparse_point e.path + waiting s.stack
  status_waits current e none s = ground arith
  status_waits current e (some kind) s = present_waits current _ e kind e.is_reparse_point s

  abbrev all_costs : PendingDir → List Entry → ℕ
  all_costs current es =
      if ltb o.max_depth (current.depth + 1)
      then 0
      else add_sizes (directories fs (o.max_depth - (current.depth + 1))) es

  all_costs-cons :
      (current : PendingDir) (e : Entry) (es : List Entry)
      → cost current e.symlink_status e.is_reparse_point e.path + all_costs current es
        ≡ all_costs current (e ∷ es)
  unfolding add_sizes
  all_costs-cons current e es = elim (Bool-cases (ltb o.max_depth (current.depth + 1))) [
    | inl deep ↦ rw (deep) (omega arith)
    | inr deep ↦ rw (deep) refl
  ]

  entries_wait :
      (current : PendingDir) (es : List Entry) (s : Scan)
      → waiting (visit_entries o current es s).stack ≤ all_costs current es + waiting s.stack
  unfolding visit_entries visit_entry
  entries_wait current [] s = omega arith
  entries_wait current (e ∷ es) s =
      let first = status_waits current e e.symlink_status s in
      let rest = entries_wait current es (visit_status o current e e.symlink_status s) in
      let both = all_costs-cons current e es in omega arith

  broken_waits :
      (current : PendingDir) (b : Bool) (s : Scan) → (broken_off o current b s).stack ≡ s.stack
  broken_waits current true s = refl
  broken_waits current false s = refl

  listing_waits :
      (current : PendingDir) (l : Option (List Entry × Bool)) (s : Scan)
      → waiting (visit_listing o current l s).stack
        ≤ all_costs current (entries_of l) + waiting s.stack
  listing_waits current none s = omega arith
  listing_waits current (some (es, b)) s =
      let same = ap waiting (broken_waits current b (visit_entries o current es s)) in
      let all = entries_wait current es s in omega arith

  directories_positive : (levels : ℕ) (path : Bytes) → 1 ≤ directories fs levels path
  unfolding directories
  directories_positive zero path = omega arith
  directories_positive (suc levels) path = omega arith

  enough_below :
      (path : Bytes) (k n : ℕ)
      → n ≡ suc k
      → add_sizes (directories fs k) (entries_of (fs.listing path)) < directories fs n path
  unfolding directories
  enough_below path k n e = rw (e) (omega arith)

  -- A directory needs a round more than those that it puts on the stack.
  enough :
      (current : PendingDir)
      → all_costs current (entries_of (fs.listing current.absolute))
        < directories fs (o.max_depth - current.depth) current.absolute
  enough current = elim (Bool-cases (ltb o.max_depth (current.depth + 1))) [
    | inl deep ↦ rw (deep) (directories_positive (o.max_depth - current.depth) current.absolute)
    | inr deep ↦ rw (deep) (
        enough_below current.absolute (o.max_depth - (current.depth + 1))
          (o.max_depth - current.depth) (ground arith))
  ]

  walk_ends :
      (fuel : ℕ) (stack : List PendingDir) (rest : Scan)
      → waiting stack ≤ fuel
      → (walk o fs fuel (record rest { stack = stack })).stack ≡ []
  unfolding walk
  walk_ends zero [] rest h = refl
  walk_ends zero (current ∷ stack) rest h =
      let positive = directories_positive (o.max_depth - current.depth) current.absolute in
      absurd (omega arith)
  walk_ends (suc fuel) [] rest h = refl
  walk_ends (suc fuel) (current ∷ stack) rest h =
      let next =
        visit_listing o current (fs.listing current.absolute) (record rest { stack = stack }) in
      let all =
        listing_waits current (fs.listing current.absolute) (record rest { stack = stack }) in
      let one = enough current in walk_ends fuel next.stack next (omega arith)

  -- The loop takes no more rounds than there are directories down to the greatest depth: its stack
  -- is empty in the end, whatever the file system answers.
  pub whole_walk_ends : (whole_walk o fs).stack ≡ []
  unfolding whole_walk
  whole_walk_ends =
      let same : o.max_depth - 0 ≡ o.max_depth = omega arith in
      let all = ap (λ n. directories fs n (root_path o)) same in
      walk_ends (directories fs o.max_depth (root_path o)) (start_scan (root_path o)).stack
        (start_scan (root_path o)) (omega arith)
