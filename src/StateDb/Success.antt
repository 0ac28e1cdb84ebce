-- ===== src/StateDb/Success.antt =====
-- The operations on a file in worker/resume/state_db.cpp: what their success means.
use eml_to_pst.Base.{ℕ, ◌≤◌, ◌≡◌, arith}
use eml_to_pst.Base.Text.{Bytes}
use eml_to_pst.Base.Outcome.{ok}
use eml_to_pst.Model.{FileTimeUtc}
use eml_to_pst.StateDb.Tables.{FileRecord, update_where, count_where}
use eml_to_pst.StateDb.Engine.{Engine, Db, execute}
use eml_to_pst.StateDb.Lifecycle.{change_file, touch_job_updated}

-- An operation on a file that reports success has found a record with the id, and the records are
-- the old ones with the change made wherever the id is.
pub change_file_succeeded :
    (g : Engine) (operation : Bytes) (id : ℕ) (f : FileRecord → FileRecord)
    (time : Db → FileTimeUtc) (db : Db)
    → (change_file g operation id f time db).0 ≡ ok tt
    → (1 ≤ count_where id db.tables.files)
      × ((change_file g operation id f time db).1.tables.files ≡ update_where id f db.tables.files)
unfolding change_file execute touch_job_updated
change_file_succeeded g operation id f time db h = (ground arith, ground arith)
