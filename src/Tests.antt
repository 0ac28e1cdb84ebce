-- ===== src/Tests.antt =====
-- Runs of the models on concrete inputs, and instances of the theorems.
mod Options
mod Reports
mod Folders
mod Scanner
mod Sha256
use eml_to_pst.Base.{
  ℕ, suc, ◌^◌, ◌≤◌, ◌<◌, min, leb, ◌&&◌, ◌≡◌, ◌↔◌, refl, List, [], ◌∷◌, ◌++◌, true, false, none,
  some, arith, map, if◌then◌else◌, ◌==◌, length, drop, take, replicate,
}
use eml_to_pst.Base.Int.{pos, ◌+ℤ◌, ◌-ℤ◌, ◌*ℤ◌, ◌≤ℤ◌, pos_part, neg_part}
use eml_to_pst.Base.Text.{Bytes, Wide, codes, text_eq, find, split_on}
use eml_to_pst.Base.Outcome.{ok, err, make_error}
use eml_to_pst.Model.{
  filetime_from_unix_seconds, FileTimeUtc, FileImportStatus, ManifestEntry, status_name,
  file_import_status_from_string,
}
use eml_to_pst.StateDb.Tables.{
  FileRecord, Tables, update_where, count_where, count_target, set_entry_where,
}
use eml_to_pst.StateDb.Engine.{Engine, Db, select, execute, begin_immediate, commit}
use eml_to_pst.StateDb.Columns.RoundTrip.{repaired, utf8_to_wide-wide_to_utf8}
use eml_to_pst.StateDb.Columns.{utf8_to_wide, decode_behind, accumulate, wide_to_utf8, append_utf8}
use eml_to_pst.StateDb.Lifecycle.{
  mark_started, set_sha256, mark_status, set_folder_entry_id, change_file, touch_job_updated,
}
use eml_to_pst.StateDb.Queries.{
  count_by_status, read_counts, group_by_status, count_in, JobInfo, LoadedJob, FileRow, row_of,
  read_rows, load_all_files, load_job, compare_job, check_resume_compatible, no_counts,
}
use eml_to_pst.Pipeline.{ImportOutcome, ImportFailure, TrackedMessage, World, Settings, Run}
use eml_to_pst.Pipeline.Loop.{finish, loop, round, fresh, run_import_pipeline}
use eml_to_pst.Pipeline.Metadata.{is_systemic_operation}
use eml_to_pst.Pipeline.Rows.{
  read_and_import, import_row, after_import_failure, preserve, after_fallback, process_row,
  matching, ensure_target_folder, tracked_in, find_key,
}
use eml_to_pst.Pipeline.Complete.{Completes, run-Completes}
use eml_to_pst.Pipeline.Others.{others}
use eml_to_pst.Pipeline.Untouched.{run_leaves_others}
use eml_to_pst.Pipeline.Adoption.{found_never_imported}
use eml_to_pst.Pipeline.Breaker.{IsPreserving, IsCalm, preserved_never_counts}
use eml_to_pst.Pipeline.Stopping.{HasNoFatal, preserving_run_not_stopped}
use eml_to_pst.StateDb.Creation.{create_new, new_job}
use eml_to_pst.StateDb.Counts.{Counted, read_counts-number_of}
use eml_to_pst.StateDb.Resumed.{read_back, check_resume_compatible-create_new}
use eml_to_pst.StateDb.Resume.{IsSameJob, compare_job_iff}
use eml_to_pst.Unicode.{
  compare_ordinal_ignore_case, fold_ascii_upper, utf8_from_wide, wide_from_utf8,
}
use eml_to_pst.Unicode.RoundTrip.{wide_from_utf8-utf8_from_wide}
use eml_to_pst.Dates.Range.{parse_rfc5322_date_fits, parse_rfc5322_date_bounded_iff}
use eml_to_pst.Dates.Calendar.{IsDate, days_from_civil-next_day}
use eml_to_pst.Lines.{split_lines}
use eml_to_pst.Lines.Split.{join_lines, join-split_lines}
use eml_to_pst.Normalize
use eml_to_pst.Normalize.{
  normalize_eml_header, walk_window, walk_lines, starts_body, is_header_like_line, holds_nul,
  without_nul, all_ftext, crlf_bytes,
}
use eml_to_pst.Normalize.Output.{is_clean, normalized-is_clean}
use eml_to_pst.Normalize.Body.{
  visible, window_of, bom_size, normalized-visible, unchanged_is_original,
}
use eml_to_pst.Normalize.NulLine.{StartsBlank, nul_line_ends_header}
use eml_to_pst.Headers
use eml_to_pst.Headers.{
  to_lower, inspect_headers, scan_window, inspect_lines, inspect_line, inspect_cleaned, add_reason,
  contains_reason, had_nul, strip_nul,
}
use eml_to_pst.Headers.Window.{header_bytes_bounds, inspect_ignores_body}
use eml_to_pst.Folders.Collapse.{Locale, CollapseOptions, build_collapse_map, sort}
use eml_to_pst.Folders.Collapse.Kept.{collapsed, build_collapse_map-collapsed}
use eml_to_pst.Model.Names.{from_string_iff}
use eml_to_pst.Dates.Accepted.{IsAccepted, parse_fields-IsAccepted}
use eml_to_pst.Dates.{
  clamped_seconds, unix_seconds_of, upper_bound, parse_rfc5322_date, parse_rfc5322_date_bounded,
  parse_fields, fields_of, read_fields, after_day_name,
}
use eml_to_pst.Dates.Tokens.{
  strip_comments, strip_at, tokenize, tokens_from, is_day_name, drop_comma, contains, to_upper,
  to_upper_ch, parse_digits, digits_value, parse_month, month_index, parse_year, parse_time, cut_at,
  parse_zone, zone_named, numeric_zone, other_zone,
}
use eml_to_pst.Dates.Civil.{
  era_of, day_of_year, day_of_era, days_from_civil, days_in_month, is_leap,
}
use eml_to_pst.StateDb.Created.{IsOk, create_new-IsOk}
use eml_to_pst.StateDb.Success.{change_file_succeeded}
use eml_to_pst.StateDb.Tables.{has_path}
use eml_to_pst.StateDb.Lifecycle.{started_row}
use eml_to_pst.Paths.{
  is_lexically_within, is_prefix_ci, split_components, is_extended_length_path, starts_with_ci,
  normalize_backslashes, collapse_from,
}
use eml_to_pst.Paths.Within.{IsBelow, is_lexically_within_iff, is_lexically_within_trans}
use eml_to_pst.StateDb.Atomic.{IsAtomic, create_new-IsAtomic}
use eml_to_pst.Pipeline.Settled.{Settles, process_row-Settles}

abbrev sound : Engine
sound = record { fault = λ n. none; refused = make_error [] []; clock = λ n. pos n }

abbrev file : ℕ → FileImportStatus → FileRecord
file id status = record {
  id = id;
  relative_source_path = codes "Inbox\\a.eml";
  source_size = 10;
  source_last_write_utc = pos 5;
  source_sha256 = none;
  target_folder_path = codes "Inbox";
  target_entry_id = none;
  status = status_name status;
  attempt_count = 0;
  last_hresult = none;
  started_at_utc = none;
  completed_at_utc = none;
}

abbrev tables : Tables
tables = record {
  job = none;
  files = file 1 FileImportStatus.imported ∷ file 2 FileImportStatus.pending ∷ [];
  folders = [];
  user_version = 2;
}

abbrev db : Db
db = record { tables = tables; saved = none; ticks = 0 }

abbrev row : FileRow
row = row_of (file 2 FileImportStatus.pending) FileImportStatus.pending

abbrev rows : List FileRow
rows = row_of (file 1 FileImportStatus.imported) FileImportStatus.imported ∷ row ∷ []

abbrev message : TrackedMessage
message = record {
  entry_id = 9 ∷ [];
  source_relative_path = codes "Inbox\\a.eml";
  sha256_hex = [];
  run_id = codes "run";
  has_attachments = false;
}

abbrev outcome : ImportOutcome
outcome = record { entry_id = 8 ∷ []; used_normalized_retry = false; date_fallback_applied = false }

abbrev no_failure : ImportFailure
no_failure = record { first_hresult = pos 0; second_hresult = pos 0; second_attempted = false }

-- A store that keeps the time as its state; every conversion fails, every fallback works.
abbrev store : World ℕ
store = record {
  now_utc = λ w. (pos w, suc w);
  cancelled = λ w. (false, w);
  sha256_file = λ path w. (ok (1 ∷ 2 ∷ []), w);
  read_prefix = λ path cap w. (some (codes "Subject: hi\r\n\r\n"), w);
  ensure_folder = λ path w. (ok (7 ∷ []), w);
  read_tracked_messages = λ folder w. (ok (message ∷ []), w);
  import_eml =
      λ folder path m w. (err (make_error (codes "conversion_integrity") []), no_failure, w);
  import_fallback = λ folder path m first second w. (ok outcome, w);
  update_progress = λ snapshot w. w;
  append_csv = λ r w. w;
}

abbrev settings : Settings
settings = record {
  source_root = codes "C:\\mail";
  run_id = codes "run";
  tool_version = codes "1.0";
  resume_mode = false;
  db_batch_size = 50;
  circuit_breaker_threshold = 10;
}

run-Completes_example : Completes (run_import_pipeline sound settings store 0 db)
unfolding read_rows file_import_status_from_string status_name text_eq
run-Completes_example = run-Completes sound settings store 0 db rows (λ n. refl) refl refl

run_leaves_others_example :
    (others rows (run_import_pipeline sound settings store 0 db).1.db.tables.files
      ≡ others rows tables.files)
    × ((run_import_pipeline sound settings store 0 db).1.db.saved ≡ none)
unfolding load_all_files select read_rows file_import_status_from_string status_name text_eq
run_leaves_others_example = run_leaves_others sound settings store 0 db rows refl refl

abbrev run : Run ℕ
run = fresh sound settings store 0 db

process_row-Settles_example : Settles 2 (process_row sound settings store row run)
process_row-Settles_example = process_row-Settles sound settings store (λ n. refl) row run

abbrev entry : ManifestEntry
entry = record {
  absolute_path = codes "C:\\mail\\a.eml";
  relative_path = codes "a.eml";
  size = 10;
  last_write_utc = pos 5;
}

abbrev info : JobInfo
info = record {
  run_id = codes "run";
  tool_version = codes "1.0";
  source_root = codes "C:\\mail";
  output_pst = codes "C:\\out.pst";
  root_name = codes "Mail";
  outlook_bitness = codes "x64";
  created_at_utc = pos 1;
  manifest_hash = codes "abc";
  folder_layout = [];
}

abbrev new_db : Db
new_db = record {
  tables = record { job = none; files = []; folders = []; user_version = 0 };
  saved = none;
  ticks = 0;
}

-- The third statement fails.
abbrev broken : Engine
broken = record sound {
  fault = λ n. if n == 2 then some (make_error (codes "sqlite3_step") []) else none;
}

create_new-IsAtomic_example :
    IsAtomic new_db.tables info
      (entry ∷ [])
      ((codes "a.eml", codes "Inbox") ∷ [])
      (create_new broken info (entry ∷ []) ((codes "a.eml", codes "Inbox") ∷ []) new_db)
create_new-IsAtomic_example =
    create_new-IsAtomic broken info (entry ∷ []) ((codes "a.eml", codes "Inbox") ∷ []) new_db refl

abbrev resuming : Settings
resuming = record settings { resume_mode = true }

found_never_imported_example :
    process_row sound resuming
      (record store { import_eml = λ folder path m w. (ok outcome, no_failure, w) })
      row
      run
    ≡ process_row sound resuming store row run
unfolding text_eq matching ensure_target_folder tracked_in find_key utf8_to_wide decode_behind
    accumulate
found_never_imported_example =
    found_never_imported sound resuming store (λ folder path m w. (ok outcome, no_failure, w)) row
      (message ∷ []) run refl refl (λ e. cc)

preserving : IsPreserving store
preserving = record {
  folders = λ path w. (7 ∷ [], (w, refl));
  fallbacks = λ folder path m first second w. (outcome, (w, refl));
}

preserving_run_not_stopped_example : HasNoFatal (run_import_pipeline sound settings store 0 db)
preserving_run_not_stopped_example =
    preserving_run_not_stopped sound settings store (omega arith) preserving refl 0 db

-- The same run, computed: the file is preserved as an attachment.
run_preserves :
    map (λ r. r.status) (run_import_pipeline sound settings store 0 db).1.db.tables.files
    ≡ codes "IMPORTED" ∷ codes "PRESERVED_AS_ATTACHMENT" ∷ []
unfolding run_import_pipeline load_all_files read_rows file_import_status_from_string text_eq
    status_name finish loop round begin_immediate process_row read_and_import import_row
    ensure_target_folder find_key after_import_failure is_systemic_operation preserve after_fallback
    mark_started set_sha256 mark_status set_folder_entry_id change_file execute touch_job_updated
    update_where count_where commit count_by_status select count_target set_entry_where read_counts
    utf8_to_wide decode_behind accumulate group_by_status count_in
run_preserves = refl

read_counts-number_of_example :
    Counted tables.files (read_counts (group_by_status tables.files) no_counts)
unfolding file_import_status_from_string status_name text_eq
read_counts-number_of_example =
    read_counts-number_of tables.files
      ((FileImportStatus.imported, refl), ((FileImportStatus.pending, refl), tt))

abbrev loaded : LoadedJob
loaded = record { info = info; schema_version = 2; status = codes "RUNNING" }

compare_job_iff_example :
    (compare_job loaded info (codes "abc") 2 ≡ ok tt) ↔ IsSameJob loaded info (codes "abc") 2
compare_job_iff_example = compare_job_iff loaded info (codes "abc") 2

-- "aé€" and a character outside the plane.
abbrev mixed : Wide
mixed = b'a' ∷ 0xE9 ∷ 0x20AC ∷ 0xD83D ∷ 0xDE00 ∷ []

wide_from_utf8-utf8_from_wide_example : wide_from_utf8 (utf8_from_wide mixed) ≡ mixed
wide_from_utf8-utf8_from_wide_example = wide_from_utf8-utf8_from_wide mixed refl

-- A lone surrogate between two letters.
abbrev broken_text : Wide
broken_text = b'a' ∷ 0xD800 ∷ b'b' ∷ []

utf8_to_wide-wide_to_utf8_example : utf8_to_wide (wide_to_utf8 broken_text) ≡ repaired broken_text
utf8_to_wide-wide_to_utf8_example =
    utf8_to_wide-wide_to_utf8 broken_text (omega arith, (omega arith, (omega arith, tt)))

parse_fields-IsAccepted_example :
    IsAccepted
      (record { day = 1; month = 7; year = 2003; hh = 10; mm = 52; ss = 37; offset = pos 120 })
unfolding parse_fields fields_of read_fields after_day_name strip_comments strip_at tokenize
    tokens_from is_day_name drop_comma contains to_upper to_upper_ch text_eq parse_digits
    digits_value parse_month month_index parse_year parse_time cut_at parse_zone zone_named
    numeric_zone other_zone find days_in_month is_leap
parse_fields-IsAccepted_example =
    parse_fields-IsAccepted (codes "Tue, 1 Jul (x(y)) 2003 10:52:37 +0200") refl

abbrev july : FileTimeUtc
july = pos 127015231570000000

parse_rfc5322_date_fits_example : (pos_part july < 2 ^ 63) × (neg_part july ≤ 2 ^ 63)
unfolding parse_rfc5322_date filetime_from_unix_seconds unix_seconds_of clamped_seconds
    days_from_civil era_of day_of_year day_of_era ◌+ℤ◌ ◌-ℤ◌ ◌*ℤ◌ parse_fields fields_of read_fields
    after_day_name strip_comments strip_at tokenize tokens_from is_day_name drop_comma contains
    to_upper to_upper_ch text_eq parse_digits digits_value parse_month month_index parse_year
    parse_time cut_at parse_zone zone_named numeric_zone other_zone find days_in_month is_leap
parse_rfc5322_date_fits_example =
    parse_rfc5322_date_fits (codes "Tue, 1 Jul (x(y)) 2003 10:52:37 +0200") refl

parse_rfc5322_date_bounded_iff_example :
    (parse_rfc5322_date_bounded (codes "1 Jul 2003 10:52 Z") july ≡ some july)
    ↔ (parse_rfc5322_date (codes "1 Jul 2003 10:52 Z") ≡ some july)
      × (pos 116444736000000000 ≤ℤ july)
      × (july ≤ℤ july +ℤ pos 315360000000000)
parse_rfc5322_date_bounded_iff_example =
    parse_rfc5322_date_bounded_iff (codes "1 Jul 2003 10:52 Z") july july (omega arith)

leap_day : IsDate 2000 2 29
unfolding days_in_month is_leap
leap_day = record {
  month_pos = omega arith;
  month_le = omega arith;
  day_pos = omega arith;
  day_le = omega arith;
}

days_from_civil-next_day_example :
    days_from_civil (pos 2000) 3 1 ≡ days_from_civil (pos 2000) 2 29 +ℤ pos 1
unfolding days_in_month is_leap
days_from_civil-next_day_example = days_from_civil-next_day 2000 2 29 leap_day

-- A byte order mark, a lone LF, a NUL and no blank line.
abbrev untidy : Bytes
untidy = 0xEF ∷ 0xBB ∷ 0xBF ∷ codes "A: b" ++ 0 ∷ b'\n' ∷ codes "C: d\r\n"

normalized-is_clean_example : is_clean (normalize_eml_header untidy 100).normalized_header ≡ true
normalized-is_clean_example = normalized-is_clean untidy 100

normalized-visible_example :
    ((normalize_eml_header untidy 100).original_header_bytes ≤ length (window_of untidy 100))
    × (visible (normalize_eml_header untidy 100).normalized_header
        ≡ visible (
            drop (bom_size (window_of untidy 100)) (
              take (normalize_eml_header untidy 100).original_header_bytes (window_of untidy 100))))
normalized-visible_example = normalized-visible untidy 100

abbrev tidy : Bytes
tidy = codes "A: b\r\n\r\nbody"

unchanged_is_original_example :
    (normalize_eml_header tidy 100).normalized_header
    ≡ take (normalize_eml_header tidy 100).original_header_bytes (window_of tidy 100)
unfolding normalize_eml_header Normalize.conclude walk_window walk_lines split_lines text_eq
    starts_body is_header_like_line holds_nul without_nul all_ftext find
unchanged_is_original_example = unchanged_is_original tidy 100 refl

nul_line_ends_header_example :
    StartsBlank (normalize_eml_header (replicate 3 0 ++ (crlf_bytes ++ tidy)) 100).normalized_header
nul_line_ends_header_example = nul_line_ends_header 2 tidy 100 (omega arith)

inspect_ignores_body_example :
    inspect_headers (codes "A: b\n" ++ b'\n' ∷ codes "X: y") 100
    ≡ inspect_headers (codes "A: b\n" ++ b'\n' ∷ []) 100
unfolding inspect_headers Headers.conclude scan_window inspect_lines inspect_line inspect_cleaned
    split_lines text_eq find add_reason contains_reason had_nul strip_nul
inspect_ignores_body_example =
    inspect_ignores_body (codes "A: b\n") (codes "X: y") 100 (omega arith) refl

from_string_iff_example :
    (file_import_status_from_string (codes "IMPORTED") ≡ some FileImportStatus.imported)
    ↔ (codes "IMPORTED" ≡ status_name FileImportStatus.imported)
from_string_iff_example = from_string_iff (codes "IMPORTED") FileImportStatus.imported

abbrev ascii : Locale
ascii = record {
  towlower = to_lower;
  iswdigit = λ c. leb b'0' c && leb c b'9';
  iswalnum = λ c. leb b'0' c && leb c b'9';
}

abbrev keep_case : CollapseOptions
keep_case = record {
  collapse_builtin_containers = true;
  merge_case_variants = false;
  extra_patterns = [];
}

abbrev dirs : List Wide
dirs = codes "Storage Folders\\Inbox" ∷ codes "Inbox" ∷ []

build_collapse_map-collapsed_example :
    build_collapse_map ascii dirs keep_case ≡ map (collapsed ascii keep_case) (sort dirs)
build_collapse_map-collapsed_example = build_collapse_map-collapsed ascii keep_case dirs refl

create_new-IsOk_example :
    IsOk (create_new sound info (entry ∷ []) ((codes "a.eml", codes "Inbox") ∷ []) new_db)
unfolding has_path
create_new-IsOk_example =
    create_new-IsOk sound (λ n. refl) info (entry ∷ []) ((codes "a.eml", codes "Inbox") ∷ []) new_db
      refl refl refl (refl, omega arith, tt)

check_resume_compatible-create_new_example :
    let created =
      (create_new sound info (entry ∷ []) ((codes "a.eml", codes "Inbox") ∷ []) new_db).1 in
    ((check_resume_compatible sound info (codes "abc") 2 created).0 ≡ ok tt)
    ↔ IsSameJob (read_back info) info (codes "abc") 2
unfolding has_path
check_resume_compatible-create_new_example =
    check_resume_compatible-create_new sound (λ n. refl) info (entry ∷ [])
      ((codes "a.eml", codes "Inbox") ∷ []) new_db info (codes "abc") 2 refl refl refl
      (refl, omega arith, tt) (ground arith) (ground arith) (ground arith)

abbrev mail_dir : Wide
mail_dir = codes "C:\\Mail"

is_lexically_within_iff_example :
    (is_lexically_within mail_dir (codes "c:/mail/Inbox") ≡ true)
    ↔ IsBelow mail_dir (codes "c:/mail/Inbox")
is_lexically_within_iff_example = is_lexically_within_iff mail_dir (codes "c:/mail/Inbox")
