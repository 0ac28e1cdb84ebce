-- ===== src/StateDb/Lifecycle.antt =====
-- worker/resume/state_db.cpp: the statements that change a job or a file, and the folder map.
use eml_to_pst.Base.{ℕ, ◌+◌, Option, none, some, ◌==◌, if◌then◌else◌}
use eml_to_pst.Base.Int.{ℤ, pos}
use eml_to_pst.Base.Text.{Bytes, Wide, codes}
use eml_to_pst.Base.Outcome.{make_error}
use eml_to_pst.Model.{FileTimeUtc, FileImportStatus, status_name}
use eml_to_pst.StateDb.Tables.{
  JobRow, FileRecord, Tables, update_where, count_where, upsert_folder_row, set_entry_where,
  count_target,
}
use eml_to_pst.StateDb.Columns.{wide_to_utf8}
use eml_to_pst.StateDb.Engine.{Engine, Db, M, pure, fail, ◌>>=◌, ◌>>◌, execute}

abbrev update_job : (JobRow → JobRow) → Option JobRow → Option JobRow × ℕ
update_job f none = (none, 0)
update_job f (some j) = (some (f j), 1)

-- `changes() == 0` after an UPDATE.
abbrev pub require_change : ℕ → Bytes → Bytes → M (Unit {0})
require_change n operation message = if n == 0 then fail (make_error operation message) else pure tt

abbrev pub touch_row : FileTimeUtc → Tables → Option (Tables × ℕ)
touch_row now t =
    let (j, n) = update_job (λ j. record j { last_updated_at_utc = now }) t.job in
    some (record t { job = j }, n)

unfoldable pub touch_job_updated : Engine → FileTimeUtc → M (Unit {0})
touch_job_updated g now = do n ← execute g (touch_row now); pure tt

abbrev pub status_row : Bytes → FileTimeUtc → Tables → Option (Tables × ℕ)
status_row status now t =
    let (j, n) = update_job (λ j. record j { status = status; last_updated_at_utc = now }) t.job in
    some (record t { job = j }, n)

unfoldable pub set_job_status : Engine → Bytes → FileTimeUtc → M (Unit {0})
set_job_status g status now = do
  n ← execute g (status_row status now)
  require_change n (codes "StateDb::set_job_status") (codes "job row not found (id=1)")

abbrev pub file_row : ℕ → (FileRecord → FileRecord) → Tables → Option (Tables × ℕ)
file_row id f t = some (record t { files = update_where id f t.files }, count_where id t.files)

-- What the four operations on a file share: the UPDATE, the test of its count, the job's time.
unfoldable pub change_file :
    Engine → Bytes → ℕ → (FileRecord → FileRecord) → (Db → FileTimeUtc) → M (Unit {0})
unfolding execute touch_job_updated
change_file g operation id f time = do
  n ← execute g (file_row id f)
  require_change n operation (codes "no files row found for id")
  λ db. touch_job_updated g (time db) db

abbrev pub started_row : FileTimeUtc → FileRecord → FileRecord
started_row now r = record r { attempt_count = r.attempt_count + 1; started_at_utc = some now }

abbrev pub sha256_row : Bytes → FileRecord → FileRecord
sha256_row hex r = record r { source_sha256 = some hex }

abbrev pub imported_row : Bytes → FileTimeUtc → FileRecord → FileRecord
imported_row entry_id now r = record r {
  status = status_name FileImportStatus.imported;
  target_entry_id = some entry_id;
  completed_at_utc = some now;
  last_hresult = some (pos 0);
}

abbrev pub finished_row : FileImportStatus → ℤ → FileTimeUtc → FileRecord → FileRecord
finished_row status hresult now r = record r {
  status = status_name status;
  last_hresult = some hresult;
  completed_at_utc = some now;
}

unfoldable pub mark_started : Engine → ℕ → FileTimeUtc → M (Unit {0})
unfolding change_file
mark_started g id now =
    change_file g (codes "StateDb::mark_started") id (started_row now) (λ _. now)

unfoldable pub set_sha256 : Engine → ℕ → Bytes → M (Unit {0})
unfolding change_file
set_sha256 g id hex =
    change_file g (codes "StateDb::set_sha256") id (sha256_row hex) (λ db. g.clock db.ticks)

unfoldable pub mark_imported : Engine → ℕ → Bytes → FileTimeUtc → M (Unit {0})
unfolding change_file
mark_imported g id entry_id now =
    change_file g (codes "StateDb::mark_imported") id (imported_row entry_id now) (λ _. now)

unfoldable pub mark_status : Engine → ℕ → FileImportStatus → ℤ → FileTimeUtc → M (Unit {0})
unfolding change_file
mark_status g id status hresult now =
    change_file g (codes "StateDb::mark_status") id (finished_row status hresult now) (λ _. now)

abbrev upsert_row : Wide → Wide → Bytes → Tables → Option (Tables × ℕ)
upsert_row source target reason t = some (
  record t {
    folders = upsert_folder_row (wide_to_utf8 source) (wide_to_utf8 target) reason t.folders;
  },
  1,
)

unfoldable pub upsert_folder : Engine → Wide → Wide → Bytes → M (Unit {0})
unfolding execute touch_job_updated
upsert_folder g source target reason = do
  n ← execute g (upsert_row source target reason)
  λ db. touch_job_updated g (g.clock db.ticks) db

abbrev pub entry_row : Wide → Bytes → Tables → Option (Tables × ℕ)
entry_row target entry_id t = some (
  record t { folders = set_entry_where (wide_to_utf8 target) entry_id t.folders },
  count_target (wide_to_utf8 target) t.folders,
)

unfoldable pub set_folder_entry_id : Engine → Wide → Bytes → M (Unit {0})
unfolding execute touch_job_updated
set_folder_entry_id g target entry_id = do
  n ← execute g (entry_row target entry_id)
  require_change n (codes "StateDb::set_folder_entry_id")
      (codes "no folder_map row found for target_relative_folder")
  λ db. touch_job_updated g (g.clock db.ticks) db
