-- ===== src/Scanner.antt =====
-- worker/scanner/scanner.h, scanner.cpp and manifest_hash.cpp: the inventory of the EML files, in
-- the build for Windows. What the file system answers is the parameter `FileSystem`; a path of
-- std::filesystem is its UTF-8 text.
pub mod Text
pub mod Manifest
pub mod Walk
pub mod Found
pub mod Complete
use Prim.Native.Nat.{compare, Ordering}
use eml_to_pst.Base.{
  ℕ, zero, suc, ◌+◌, List, [], ◌∷◌, ◌++◌, Bool, true, false, not, ◌&&◌, ◌||◌, Option, none, some,
  ltb, leb, ◌==◌, if◌then◌else◌, length,
}
use eml_to_pst.Base.Int.{ℤ}
use eml_to_pst.Base.Text.{Bytes, Wide, codes, text_eq}
use eml_to_pst.Base.Outcome.{Result, ok, err, make_error}
use eml_to_pst.Model.{ManifestEntry, FileTimeUtc}
use eml_to_pst.Paths.{to_extended_length_path}
use eml_to_pst.Unicode.{is_equal}
use eml_to_pst.Folders.Collapse.{wide_lt}
use eml_to_pst.Scanner.Text.{wstring_to_utf8, utf8_to_wstring}

pub record ScanOptions : Type 0 where
  pub source_root : Wide
  pub max_depth : ℕ

pub record ScanStats : Type 0 where
  pub total_bytes : ℕ
  pub folder_count : ℕ

pub record ScanIssues : Type 0 where
  pub skipped_reparse_points : List Wide
  pub too_deep : List Wide
  pub unreadable : List Wide

pub record ScanResult : Type 0 where
  pub entries : List ManifestEntry
  pub stats : ScanStats
  pub issues : ScanIssues

unfoldable pub lower : ℕ → ℕ
lower c = if leb b'A' c && leb c b'Z' then c + 32 else c

unfoldable pub compare_ci : Wide → Wide → Ordering
compare_ci [] [] = Ordering.eq
compare_ci [] (y ∷ b) = Ordering.lt
compare_ci (x ∷ a) [] = Ordering.gt
compare_ci (x ∷ a) (y ∷ b) = elim (compare (lower x) (lower y)) [
  | Ordering.lt ↦ Ordering.lt
  | Ordering.eq ↦ compare_ci a b
  | Ordering.gt ↦ Ordering.gt
]

pub data Kind : Type 0 where
  directory regular_file other_kind : Kind

-- What the file system says of one entry of a directory. `none` is an error code.
pub record Entry : Type 0 where
  pub path : Bytes
  pub filename : Bytes
  pub extension : Bytes
  pub symlink_status : Option Kind
  pub is_reparse_point : Bool
  pub file_size : Option ℕ
  pub last_write_time : Option FileTimeUtc

-- Whether a path is a directory, and the entries of a directory, with whether the iteration broke
-- off behind the last of them; `none` where it cannot be started.
pub record FileSystem : Type 0 where
  pub is_directory : Bytes → Bool
  pub listing : Bytes → Option (List Entry × Bool)

pub record PendingDir : Type 0 where
  pub absolute : Bytes
  pub relative : Wide
  pub depth : ℕ

-- The stack, its top first, and the result so far.
pub record Scan : Type 0 where
  pub stack : List PendingDir
  pub entries : List ManifestEntry
  pub issues : ScanIssues
  pub total_bytes : ℕ

abbrev pub child_of : Wide → Wide → Wide
child_of [] name = name
child_of (c ∷ cs) name = (c ∷ cs) ++ b'\\' ∷ name

abbrev pub add_unreadable : Wide → Scan → Scan
add_unreadable relative s = record s {
  issues = record (s.issues) { unreadable = s.issues.unreadable ++ relative ∷ [] };
}

abbrev pub add_too_deep : Wide → Scan → Scan
add_too_deep relative s = record s {
  issues = record (s.issues) { too_deep = s.issues.too_deep ++ relative ∷ [] };
}

abbrev pub add_skipped : Wide → Scan → Scan
add_skipped relative s = record s {
  issues = record (s.issues) {
    skipped_reparse_points = s.issues.skipped_reparse_points ++ relative ∷ [];
  };
}

abbrev pub manifest_entry : Wide → Entry → ℕ → FileTimeUtc → ManifestEntry
manifest_entry relative e size time = record {
  relative_path = relative;
  absolute_path = utf8_to_wstring e.path;
  size = size;
  last_write_utc = time;
}

abbrev pub add_entry : ManifestEntry → Scan → Scan
add_entry m s = record s { entries = s.entries ++ m ∷ []; total_bytes = s.total_bytes + m.size }

-- A file whose size or time cannot be read is an issue.
abbrev pub add_file : Wide → Entry → Option ℕ → Option FileTimeUtc → Scan → Scan
add_file relative e (some size) (some time) s = add_entry (manifest_entry relative e size time) s
add_file relative e (some size) none s = add_unreadable relative s
add_file relative e none time s = add_unreadable relative s

abbrev pub is_eml : Entry → Bool
is_eml e = is_equal (compare_ci (utf8_to_wstring e.extension) (codes ".eml"))

module _ (o : ScanOptions) where
  abbrev pub visit_directory : PendingDir → Wide → Entry → Bool → Scan → Scan
  visit_directory current relative e true s = add_too_deep relative s
  visit_directory current relative e false s = record s {
    stack = record { absolute = e.path; relative = relative; depth = current.depth + 1 } ∷ s.stack;
  }

  abbrev pub visit_eml : Wide → Entry → Bool → Scan → Scan
  visit_eml relative e true s = add_too_deep relative s
  visit_eml relative e false s = add_file relative e e.file_size e.last_write_time s

  abbrev pub visit_file : PendingDir → Wide → Entry → Bool → Scan → Scan
  visit_file current relative e false s = s
  visit_file current relative e true s =
      visit_eml relative e (ltb o.max_depth (current.depth + 1)) s

  abbrev pub visit_kind : PendingDir → Wide → Entry → Kind → Scan → Scan
  visit_kind current relative e Kind.directory s =
      visit_directory current relative e (ltb o.max_depth (current.depth + 1)) s
  visit_kind current relative e Kind.regular_file s = visit_file current relative e (is_eml e) s
  visit_kind current relative e Kind.other_kind s = s

  -- A reparse point is neither entered nor taken for a file.
  abbrev pub visit_present : PendingDir → Wide → Entry → Kind → Bool → Scan → Scan
  visit_present current relative e kind true s = add_skipped relative s
  visit_present current relative e kind false s = visit_kind current relative e kind s

  abbrev pub visit_status : PendingDir → Entry → Option Kind → Scan → Scan
  visit_status current e none s = s
  visit_status current e (some kind) s =
      visit_present current (child_of current.relative (utf8_to_wstring e.filename)) e kind
        e.is_reparse_point s

  unfoldable pub visit_entry : PendingDir → Entry → Scan → Scan
  visit_entry current e s = visit_status current e e.symlink_status s

  unfoldable pub visit_entries : PendingDir → List Entry → Scan → Scan
  visit_entries current [] s = s
  visit_entries current (e ∷ es) s = visit_entries current es (visit_entry current e s)

  abbrev pub broken_off : PendingDir → Bool → Scan → Scan
  broken_off current true s = add_unreadable current.relative s
  broken_off current false s = s

  abbrev pub visit_listing : PendingDir → Option (List Entry × Bool) → Scan → Scan
  visit_listing current none s = add_unreadable current.relative s
  visit_listing current (some (es, broken)) s =
      broken_off current broken (visit_entries current es s)

  module _ (fs : FileSystem) where
    -- The loop, a round for each directory that is taken off the stack.
    unfoldable pub walk : ℕ → Scan → Scan
    walk zero s = s
    walk (suc fuel) s = elim s.stack [
      | [] ↦ s
      | current ∷ stack ↦
          walk fuel
            (visit_listing current (fs.listing current.absolute) (record s { stack = stack }))
    ]

-- The order of the manifest and of the issues.
abbrev pub sorts_before : Wide → Wide → Bool
sorts_before a b = elim (compare_ci a b) [
  | Ordering.lt ↦ true
  | Ordering.eq ↦ wide_lt a b
  | Ordering.gt ↦ false
]

unfoldable pub insert_entry : ManifestEntry → List ManifestEntry → List ManifestEntry
insert_entry m [] = m ∷ []
insert_entry m (n ∷ ns) =
    let rest = insert_entry m ns in
    if sorts_before n.relative_path m.relative_path then n ∷ rest else m ∷ n ∷ ns

unfoldable pub sort_entries : List ManifestEntry → List ManifestEntry
sort_entries [] = []
sort_entries (m ∷ ms) = insert_entry m (sort_entries ms)

unfoldable pub insert_issue : Wide → List Wide → List Wide
insert_issue w [] = w ∷ []
insert_issue w (v ∷ vs) =
    let rest = insert_issue w vs in if sorts_before v w then v ∷ rest else w ∷ v ∷ vs

unfoldable pub sort_issue_list : List Wide → List Wide
sort_issue_list [] = []
sort_issue_list (w ∷ ws) = insert_issue w (sort_issue_list ws)

-- `std::set::insert`.
unfoldable pub insert_folder_name : Wide → List Wide → List Wide
insert_folder_name s [] = s ∷ []
insert_folder_name s (x ∷ xs) =
    let rest = insert_folder_name s xs in
    if text_eq s x then x ∷ xs else if wide_lt x s then x ∷ rest else s ∷ x ∷ xs

-- The text in front of each separator.
unfoldable pub add_folders : Wide → Wide → List Wide → List Wide
add_folders running [] found = found
add_folders running (c ∷ cs) found =
    let more = add_folders (running ++ c ∷ []) cs (insert_folder_name running found) in
    let same = add_folders (running ++ c ∷ []) cs found in if c == b'\\' then more else same

unfoldable pub folders_with_eml : List ManifestEntry → List Wide → List Wide
folders_with_eml [] found = found
folders_with_eml (m ∷ ms) found =
    folders_with_eml ms (add_folders [] m.relative_path (insert_folder_name [] found))

abbrev pub no_issues : ScanIssues
no_issues = record { skipped_reparse_points = []; too_deep = []; unreadable = [] }

abbrev pub start_scan : Bytes → Scan
start_scan root = record {
  stack = record { absolute = root; relative = []; depth = 0 } ∷ [];
  entries = [];
  issues = no_issues;
  total_bytes = 0;
}

unfoldable pub scan_result : Scan → ScanResult
scan_result s =
    let entries = sort_entries s.entries in
    record {
      entries = entries;
      stats = record {
        total_bytes = s.total_bytes;
        folder_count = length (folders_with_eml entries []);
      };
      issues = record {
        skipped_reparse_points = sort_issue_list s.issues.skipped_reparse_points;
        too_deep = sort_issue_list s.issues.too_deep;
        unreadable = sort_issue_list s.issues.unreadable;
      };
    }

-- The text that `to_fs_path` constructs the path of the root from. The file system is asked by such
-- texts, and answers with the texts that `u8string` gives; what `std::filesystem::path` does between
-- the two is not modelled.
abbrev pub root_path : ScanOptions → Bytes
root_path o = wstring_to_utf8 (to_extended_length_path o.source_root)

-- Whether a directory entry is put on the stack, its depth apart.
abbrev pub is_entered : Option Kind → Bool → Bool
is_entered (some Kind.directory) is_reparse = not is_reparse
is_entered kind is_reparse = false

unfoldable pub add_sizes : (Bytes → ℕ) → List Entry → ℕ
add_sizes size [] = 0
add_sizes size (e ∷ es) =
    (if is_entered e.symlink_status e.is_reparse_point then size e.path else 0) + add_sizes size es

abbrev pub entries_of : Option (List Entry × Bool) → List Entry
entries_of none = []
entries_of (some (es, broken)) = es

-- The directories down to `levels` below a path, itself included: the rounds that the loop needs.
unfoldable pub directories : FileSystem → ℕ → Bytes → ℕ
directories fs zero path = 1
directories fs (suc levels) path =
    suc (add_sizes (directories fs levels) (entries_of (fs.listing path)))

unfoldable pub whole_walk : ScanOptions → FileSystem → Scan
whole_walk o fs = walk o fs (directories fs o.max_depth (root_path o)) (start_scan (root_path o))

abbrev pub scanned : Bool → ScanOptions → FileSystem → Result ScanResult
scanned true o fs = ok (scan_result (whole_walk o fs))
scanned false o fs = err (
    make_error (codes "scan_source_tree")
      (codes "source root does not exist or is not a directory"))

unfoldable pub scan_source_tree : ScanOptions → FileSystem → Result ScanResult
scan_source_tree o fs = scanned (fs.is_directory (root_path o)) o fs
