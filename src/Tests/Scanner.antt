-- ===== src/Tests/Scanner.antt =====
-- A scan of a small tree, and instances of the scanner's theorems.
use eml_to_pst.Base.{
  IsIn, ◌≡◌, ◌↔◌, refl, List, [], ◌∷◌, ◌++◌, Bool, true, false, Option, none, some, map, arith,
}
use eml_to_pst.Base.Int.{pos}
use eml_to_pst.Base.Text.{Bytes, codes, text_eq}
use eml_to_pst.Base.Numbers.{decimal, digits_onto, signed_decimal}
use eml_to_pst.Base.Outcome.{ok}
use eml_to_pst.Unicode.{compare_ordinal_ignore_case, fold_ascii_upper}
use eml_to_pst.Paths.{
  to_extended_length_path, is_extended_length_path, starts_with_ci, is_unc_path, drive_letter_of,
}
use eml_to_pst.Model.{ManifestEntry}
use eml_to_pst.Scanner.Text.{wstring_to_utf8, append_utf8, utf8_to_wstring}
use eml_to_pst.Scanner.Text.RoundTrip.{utf8_to_wstring-wstring_to_utf8}
use eml_to_pst.Scanner.Manifest.{
  serialize_manifest_for_hash, hash_line, lacks, facts, serialize_manifest_for_hash-injective,
}
use eml_to_pst.Scanner.{
  ScanOptions, ScanResult, Kind, Entry, FileSystem, lower, compare_ci, visit_entry, visit_entries,
  walk, insert_entry, sort_entries, insert_issue, sort_issue_list, insert_folder_name, add_folders,
  folders_with_eml, scan_result, directories, add_sizes, whole_walk, scan_source_tree,
}
use eml_to_pst.Scanner.Walk.{whole_walk_ends}
use eml_to_pst.Scanner.Found.{IsBelow}
use eml_to_pst.Scanner.Complete.{root_dir, scanned_iff}

abbrev options : ScanOptions
options = record { source_root = codes "C:\\M"; max_depth = 2 }

abbrev entry : Bytes → Bytes → Kind → Bool → Entry
entry filename extension kind is_reparse = record {
  path = codes "\\\\?\\C:\\M\\" ++ filename;
  filename = filename;
  extension = extension;
  symlink_status = some kind;
  is_reparse_point = is_reparse;
  file_size = some 7;
  last_write_time = some (pos 5);
}

-- A file, a directory that is a junction, and one that cannot be listed.
abbrev root_entries : List Entry
root_entries =
    entry (codes "a.EML") (codes ".EML") Kind.regular_file false
    ∷ entry (codes "junction") [] Kind.directory true
    ∷ entry (codes "closed") [] Kind.directory false
    ∷ []

abbrev listing : Bool → Option (List Entry × Bool)
listing true = some (root_entries, false)
listing false = none

abbrev disk : FileSystem
disk = record {
  is_directory = λ path. true;
  listing = λ path. listing (text_eq path (codes "\\\\?\\C:\\M"));
}

abbrev file_a : ManifestEntry
file_a = record {
  relative_path = codes "a.EML";
  absolute_path = codes "\\\\?\\C:\\M\\a.EML";
  size = 7;
  last_write_utc = pos 5;
}

abbrev scanned_tree : ScanResult
scanned_tree = record {
  entries = file_a ∷ [];
  stats = record { total_bytes = 7; folder_count = 1 };
  issues = record {
    skipped_reparse_points = codes "junction" ∷ [];
    too_deep = [];
    unreadable = codes "closed" ∷ [];
  };
}

tree_scanned : scan_source_tree options disk ≡ ok scanned_tree
unfolding scan_source_tree whole_walk walk directories add_sizes visit_entries visit_entry
    scan_result sort_entries insert_entry sort_issue_list insert_issue folders_with_eml add_folders
    insert_folder_name compare_ci lower wstring_to_utf8 append_utf8 utf8_to_wstring
    to_extended_length_path is_extended_length_path starts_with_ci is_unc_path drive_letter_of
    compare_ordinal_ignore_case fold_ascii_upper text_eq
tree_scanned = refl

scanned_iff_example :
    IsIn file_a scanned_tree.entries ↔ IsBelow options disk (root_dir options) file_a
scanned_iff_example = scanned_iff options disk scanned_tree file_a tree_scanned

whole_walk_ends_example : (whole_walk options disk).stack ≡ []
whole_walk_ends_example = whole_walk_ends options disk

utf8_to_wstring-wstring_to_utf8_example :
    utf8_to_wstring (wstring_to_utf8 (0x5D0 ∷ 0xD83D ∷ 0xDE00 ∷ 0xD83D ∷ []))
    ≡ 0x5D0 ∷ 0xD83D ∷ 0xDE00 ∷ 0xD83D ∷ []
utf8_to_wstring-wstring_to_utf8_example =
    utf8_to_wstring-wstring_to_utf8 (0x5D0 ∷ 0xD83D ∷ 0xDE00 ∷ 0xD83D ∷ [])
      (omega arith, (omega arith, (omega arith, (omega arith, tt))))

line_of_a : serialize_manifest_for_hash (file_a ∷ []) ≡ codes "a.EML|7|5\n"
unfolding serialize_manifest_for_hash hash_line wstring_to_utf8 append_utf8 decimal signed_decimal
    digits_onto
line_of_a = refl

serialize_manifest_for_hash-injective_example :
    map facts (file_a ∷ []) ≡ map facts (record file_a { absolute_path = [] } ∷ [])
unfolding serialize_manifest_for_hash hash_line lacks
serialize_manifest_for_hash-injective_example =
    serialize_manifest_for_hash-injective (file_a ∷ []) (record file_a { absolute_path = [] } ∷ [])
      (((omega arith, (omega arith, (omega arith, (omega arith, (omega arith, tt))))), refl), tt)
      (((omega arith, (omega arith, (omega arith, (omega arith, (omega arith, tt))))), refl), tt)
      refl
