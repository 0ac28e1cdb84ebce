-- ===== src/StateDb/Queries.antt =====
-- worker/resume/state_db.cpp: what is read back from the database.
use eml_to_pst.Base.{ℕ, ◌+◌, List, [], ◌∷◌, ◌++◌, not, Option, none, some, ◌==◌, if◌then◌else◌}
use eml_to_pst.Base.Int.{ℤ, pos}
use eml_to_pst.Base.Text.{Bytes, Wide, codes, text_eq}
use eml_to_pst.Base.Outcome.{Error, Result, ok, err, Status, make_error}
use eml_to_pst.Model.{FileTimeUtc, FileImportStatus, status_name, file_import_status_from_string}
use eml_to_pst.StateDb.Tables.{JobRow, FileRecord}
use eml_to_pst.StateDb.Columns.{utf8_to_wide}
use eml_to_pst.StateDb.Engine.{Engine, M, ◌>>=◌, select}

pub record JobInfo : Type 0 where
  pub run_id : Bytes
  pub tool_version : Bytes
  pub source_root : Wide
  pub output_pst : Wide
  pub root_name : Wide
  pub outlook_bitness : Bytes
  pub created_at_utc : FileTimeUtc
  pub manifest_hash : Bytes
  pub folder_layout : Bytes

pub record LoadedJob : Type 0 where
  pub info : JobInfo
  pub schema_version : ℕ
  pub status : Bytes

abbrev pub job_info : JobRow → JobInfo
job_info j = record {
  run_id = j.run_id;
  tool_version = j.tool_version;
  source_root = utf8_to_wide j.source_root;
  output_pst = utf8_to_wide j.output_pst;
  root_name = utf8_to_wide j.root_name;
  outlook_bitness = j.outlook_bitness;
  created_at_utc = j.created_at_utc;
  manifest_hash = j.manifest_hash;
  folder_layout = j.folder_layout;
}

abbrev loaded_from : ℕ → Option JobRow → Result LoadedJob
loaded_from version none =
    err (make_error (codes "StateDb::load_job") (codes "job row not found (id=1)"))
loaded_from version (some j) =
    ok (record { info = job_info j; schema_version = version; status = j.status })

-- Two statements: the schema version, then the job row.
unfoldable pub load_job : Engine → M LoadedJob
unfolding select
load_job g = do
  version ← select g (λ t. ok t.user_version)
  select g (λ t. loaded_from version t.job)

abbrev mismatch : Bytes → Result (Unit {0})
mismatch field =
    err (make_error (codes "StateDb::check_resume_compatible") (codes "resume mismatch: " ++ field))

-- The comparisons, in the order in which the first that fails is reported.
unfoldable pub compare_job : LoadedJob → JobInfo → Bytes → ℕ → Status
compare_job l expected manifest_hash expected_schema_version =
    if not (text_eq l.info.source_root expected.source_root)
    then mismatch (codes "source_root")
    else if not (text_eq l.info.output_pst expected.output_pst)
    then mismatch (codes "output_pst")
    else if not (text_eq l.info.root_name expected.root_name)
    then mismatch (codes "root_name")
    else if not (text_eq l.info.outlook_bitness expected.outlook_bitness)
    then mismatch (codes "outlook_bitness")
    else if not (text_eq l.info.folder_layout expected.folder_layout)
    then mismatch (codes "folder_layout")
    else if not (l.schema_version == expected_schema_version)
    then mismatch (codes "schema_version")
    else if not (text_eq l.info.manifest_hash manifest_hash)
    then mismatch (codes "manifest_hash")
    else ok tt

unfoldable pub check_resume_compatible : Engine → JobInfo → Bytes → ℕ → M (Unit {0})
unfolding load_job
check_resume_compatible g expected manifest_hash version = do
  loaded ← load_job g
  λ db. (compare_job loaded expected manifest_hash version, db)

pub record FileRow : Type 0 where
  pub id : ℕ
  pub relative_source_path : Wide
  pub source_size : ℕ
  pub source_last_write_utc : FileTimeUtc
  pub source_sha256 : Bytes
  pub target_folder_path : Wide
  pub target_entry_id : Bytes
  pub status : FileImportStatus
  pub attempt_count : ℕ
  pub last_hresult : ℤ

-- A NULL column reads as the empty text, the empty blob or 0.
abbrev pub or_empty : Option Bytes → Bytes
or_empty none = []
or_empty (some b) = b

abbrev pub or_zero : Option ℤ → ℤ
or_zero none = pos 0
or_zero (some z) = z

abbrev pub row_of : FileRecord → FileImportStatus → FileRow
row_of r status = record {
  id = r.id;
  relative_source_path = utf8_to_wide r.relative_source_path;
  source_size = r.source_size;
  source_last_write_utc = r.source_last_write_utc;
  source_sha256 = or_empty r.source_sha256;
  target_folder_path = utf8_to_wide r.target_folder_path;
  target_entry_id = or_empty r.target_entry_id;
  status = status;
  attempt_count = r.attempt_count;
  last_hresult = or_zero r.last_hresult;
}

abbrev unknown_status : Bytes → Bytes → Error
unknown_status operation text =
    make_error operation (codes "unknown file status in database: " ++ text)

abbrev pub push_row : FileRow → Result (List FileRow) → Result (List FileRow)
push_row row (ok rows) = ok (row ∷ rows)
push_row row (err e) = err e

abbrev pub row_onto :
    FileRecord → Option FileImportStatus → Result (List FileRow) → Result (List FileRow)
row_onto r none rest = err (unknown_status (codes "StateDb::query_files") r.status)
row_onto r (some status) rest = push_row (row_of r status) rest

-- The loop of `query_files` over the records that the statement selects, in the order of the ids.
unfoldable pub read_rows : List FileRecord → Result (List FileRow)
read_rows [] = ok []
read_rows (r ∷ rs) = row_onto r (file_import_status_from_string r.status) (read_rows rs)

unfoldable pub load_all_files : Engine → M (List FileRow)
unfolding select
load_all_files g = select g (λ t. read_rows t.files)

-- WHERE status = ?1
unfoldable pub with_status : Bytes → List FileRecord → List FileRecord
with_status status [] = []
with_status status (r ∷ rs) =
    let rest = with_status status rs in if text_eq r.status status then r ∷ rest else rest

unfoldable pub load_files_with_status : Engine → FileImportStatus → M (List FileRow)
unfolding select
load_files_with_status g status =
    select g (λ t. read_rows (with_status (status_name status) t.files))

pub record StatusCounts : Type 0 where
  pub pending : ℕ
  pub imported : ℕ
  pub preserved : ℕ
  pub failed_read : ℕ
  pub failed_mapi : ℕ

abbrev pub no_counts : StatusCounts
no_counts = record { pending = 0; imported = 0; preserved = 0; failed_read = 0; failed_mapi = 0 }

-- SELECT status, COUNT(*) … GROUP BY status: one more row of a status.
unfoldable pub count_in : Bytes → List (Bytes × ℕ) → List (Bytes × ℕ)
count_in status [] = (status, 1) ∷ []
count_in status ((s, n) ∷ groups) =
    if text_eq s status then (s, n + 1) ∷ groups else (s, n) ∷ count_in status groups

unfoldable pub group_by_status : List FileRecord → List (Bytes × ℕ)
group_by_status [] = []
group_by_status (r ∷ rs) = count_in r.status (group_by_status rs)

-- The switch of `count_by_status`: an assignment, not a sum.
abbrev pub assign : FileImportStatus → ℕ → StatusCounts → StatusCounts
assign FileImportStatus.pending n c = record c { pending = n }
assign FileImportStatus.imported n c = record c { imported = n }
assign FileImportStatus.preserved_as_attachment n c = record c { preserved = n }
assign FileImportStatus.failed_source_read n c = record c { failed_read = n }
assign FileImportStatus.failed_mapi n c = record c { failed_mapi = n }

unfoldable pub read_counts : List (Bytes × ℕ) → StatusCounts → Result StatusCounts
read_counts [] c = ok c
read_counts ((s, n) ∷ groups) c = elim (file_import_status_from_string s) [
  | none ↦ err (unknown_status (codes "StateDb::count_by_status") s)
  | some status ↦ read_counts groups (assign status n c)
]

unfoldable pub count_by_status : Engine → M StatusCounts
unfolding select
count_by_status g = select g (λ t. read_counts (group_by_status t.files) no_counts)
