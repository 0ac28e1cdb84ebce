-- ===== src/StateDb/Creation.antt =====
-- worker/resume/state_db.cpp: `create_new`, one transaction from the schema to the last file.
use eml_to_pst.Base.{ℕ, ◌^◌, List, ◌∷◌, Option, none, some, ltb, ◌==◌, if◌then◌else◌, length}
use eml_to_pst.Base.Text.{Wide, codes}
use eml_to_pst.Base.Outcome.{Result, ok, err, make_error}
use eml_to_pst.Model.{FileImportStatus, status_name, ManifestEntry}
use eml_to_pst.StateDb.Tables.{JobRow, Tables, insert_file}
use eml_to_pst.StateDb.Columns.{wide_to_utf8}
use eml_to_pst.StateDb.Engine.{
  Engine, Db, M, pure, fail, ◌>>=◌, ◌>>◌, execute, begin_immediate, commit, rollback,
}
use eml_to_pst.StateDb.Queries.{JobInfo}

abbrev pub state_db_schema_version : ℕ
state_db_schema_version = 2

abbrev pub new_job : JobInfo → JobRow
new_job info = record {
  run_id = info.run_id;
  tool_version = info.tool_version;
  source_root = wide_to_utf8 info.source_root;
  output_pst = wide_to_utf8 info.output_pst;
  root_name = wide_to_utf8 info.root_name;
  outlook_bitness = info.outlook_bitness;
  created_at_utc = info.created_at_utc;
  last_updated_at_utc = info.created_at_utc;
  manifest_hash = info.manifest_hash;
  folder_layout = info.folder_layout;
  status = codes "RUNNING";
}

-- CREATE TABLE IF NOT EXISTS leaves tables that are there alone; new ones are empty.
abbrev pub schema_row : Tables → Option (Tables × ℕ)
schema_row t = some (t, 0)

abbrev pub version_row : Tables → Option (Tables × ℕ)
version_row t = some (record t { user_version = state_db_schema_version }, 0)

-- INSERT INTO job: the row with id 1 must not be there (PRIMARY KEY).
abbrev pub job_row : JobInfo → Option JobRow → Tables → Option (Tables × ℕ)
job_row info (some j) t = none
job_row info none t = some (record t { job = some (new_job info) }, 1)

abbrev pub insert_row : ManifestEntry → Wide → Tables → Option (Tables × ℕ)
insert_row e target t =
    elim (insert_file (wide_to_utf8 e.relative_path) e.size e.last_write_utc (wide_to_utf8 target)
      (status_name FileImportStatus.pending) t.files) [
        | none ↦ none
        | some files ↦ some (record t { files = files }, 1)
      ]

-- `bind_uint64` refuses a size that a signed 64-bit number cannot hold.
unfoldable pub insert_one : Engine → ManifestEntry → Wide → M (Unit {0})
insert_one g e target =
    if ltb e.size (2 ^ 63)
    then (do n ← execute g (insert_row e target); pure tt)
    else fail (
        make_error (codes "Statement::bind_uint64")
          (codes "value exceeds INT64_MAX and cannot be stored as a SQLite INTEGER"))

-- The loop over the manifest and the target folders, which run in parallel.
unfoldable pub insert_all : Engine → List ManifestEntry → List (Wide × Wide) → M (Unit {0})
insert_all g (e ∷ es) ((source, target) ∷ ts) = do insert_one g e target; insert_all g es ts
insert_all g _ _ = pure tt

abbrev pub prepare_row : Tables → Option (Tables × ℕ)
prepare_row t = some (t, 0)

-- The statements between BEGIN and the end; the nine prepared statements count as one.
unfoldable pub fill : Engine → JobInfo → List ManifestEntry → List (Wide × Wide) → M (Unit {0})
fill g info manifest targets = do
  a ← execute g schema_row
  b ← execute g version_row
  c ← execute g prepare_row
  d ← execute g (λ t. job_row info t.job t)
  insert_all g manifest targets
  commit g

-- The transaction is rolled back where it was not committed.
abbrev pub undo_on_error : Result (Unit {0}) × Db → Result (Unit {0}) × Db
undo_on_error (ok u, db) = (ok u, db)
undo_on_error (err e, db) = (err e, rollback db)

abbrev pub in_transaction : M (Unit {0}) → Result (Unit {0}) × Db → Result (Unit {0}) × Db
in_transaction body (ok u, db) = undo_on_error (body db)
in_transaction body (err e, db) = (err e, db)

-- On the database that `Database::open` gives.
unfoldable pub create_new :
    Engine → JobInfo → List ManifestEntry → List (Wide × Wide) → M (Unit {0})
create_new g info manifest targets db =
    if length manifest == length targets
    then in_transaction (fill g info manifest targets) (begin_immediate g db)
    else (
      err (
          make_error (codes "StateDb::create_new")
            (codes "manifest and file_target_folders must be the same size")),
      db,
    )
