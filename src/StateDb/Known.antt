-- ===== src/StateDb/Known.antt =====
-- The statuses that the database of worker/resume/state_db.cpp holds.
use mathlib.Core.Path.{subst}
use eml_to_pst.Base.{
  ℕ, ◌≡◌, refl, sym, List, [], ◌∷◌, Option, none, some, ◌==◌, Bool-cases, inl, inr,
}
use eml_to_pst.Base.Text.{Bytes}
use eml_to_pst.Base.Outcome.{Result, ok, err, ok-injective, err_ok}
use eml_to_pst.Model.{FileTimeUtc, FileImportStatus, status_name, file_import_status_from_string}
use eml_to_pst.Model.Names.{from_string_iff}
use eml_to_pst.StateDb.Tables.{FileRecord, update_where}
use eml_to_pst.StateDb.Engine.{Engine, Db}
use eml_to_pst.StateDb.Lifecycle.{
  change_file, mark_started, set_sha256, mark_imported, mark_status, started_row, sha256_row,
  imported_row, finished_row,
}
use eml_to_pst.StateDb.Queries.{FileRow, read_rows, row_onto, row_of}
use eml_to_pst.StateDb.Steps.{Steps, change_file-files, folder-files}
use eml_to_pst.StateDb.Counts.{AreKnown}

abbrev IsKnown : Bytes → Type 0
IsKnown text = (s : FileImportStatus) × (file_import_status_from_string text ≡ some s)

name-IsKnown : (s : FileImportStatus) → IsKnown (status_name s)
name-IsKnown s = (s, (from_string_iff (status_name s) s).1 refl)

update-AreKnown :
    (id : ℕ) (f : FileRecord → FileRecord)
    → ((r : FileRecord) → IsKnown r.status → IsKnown (f r).status)
    → (rs : List FileRecord) → AreKnown rs
    → AreKnown (update_where id f rs)
unfolding update_where
update-AreKnown id f h [] k = tt
update-AreKnown id f h (r ∷ rs) (x, k) = elim (Bool-cases (r.id == id)) [
  | inl e ↦ rw e (h r x, update-AreKnown id f h rs k)
  | inr e ↦ rw e (x, update-AreKnown id f h rs k)
]

change-AreKnown :
    (g : Engine) (operation : Bytes) (id : ℕ) (f : FileRecord → FileRecord)
    (time : Db → FileTimeUtc) (db : Db)
    → ((r : FileRecord) → IsKnown r.status → IsKnown (f r).status)
    → AreKnown db.tables.files
    → AreKnown (change_file g operation id f time db).1.tables.files
change-AreKnown g operation id f time db h k = elim (change_file-files g operation id f time db) [
  | inl e ↦ rw e k
  | inr e ↦ rw e (update-AreKnown id f h db.tables.files k)
]

pub Steps-AreKnown :
    {g : Engine} {id : ℕ} {db db' : Db}
    → Steps g id db db'
    → AreKnown db.tables.files
    → AreKnown db'.tables.files
unfolding mark_started set_sha256 mark_imported mark_status
Steps-AreKnown Steps.stop k = k
Steps-AreKnown {g} {id} {db} (Steps.started now s) k =
    Steps-AreKnown s (change-AreKnown g _ id (started_row now) (λ _. now) db (λ r x. x) k)
Steps-AreKnown {g} {id} {db} (Steps.hashed hex s) k =
    Steps-AreKnown s
      (change-AreKnown g _ id (sha256_row hex) (λ d. g.clock d.ticks) db (λ r x. x) k)
Steps-AreKnown {g} {id} {db} (Steps.imported e now s) k = Steps-AreKnown s (
    change-AreKnown g _ id (imported_row e now) (λ _. now) db
      (λ r x. name-IsKnown FileImportStatus.imported) k)
Steps-AreKnown {g} {id} {db} (Steps.finished st hr now s) k =
    Steps-AreKnown s
      (change-AreKnown g _ id (finished_row st hr now) (λ _. now) db (λ r x. name-IsKnown st) k)
Steps-AreKnown {g} {id} {db} (Steps.folder target e s) k =
    Steps-AreKnown s (subst AreKnown (sym (folder-files g target e db)) k)

-- What a row that was read tells of its record and of the rows behind it.
abbrev ReadOnto :
    FileRecord → Option FileImportStatus → Result (List FileRow) → List FileRow → Type 0
ReadOnto r o rest rows =
    (s : FileImportStatus) × (rest' : List FileRow) × (o ≡ some s)
    × (rest ≡ ok rest')
    × (rows ≡ row_of r s ∷ rest')

pub read_onto :
    (r : FileRecord) (o : Option FileImportStatus) (rest : Result (List FileRow))
    (rows : List FileRow)
    → row_onto r o rest ≡ ok rows
    → ReadOnto r o rest rows
read_onto r none rest rows h = absurd (err_ok h)
read_onto r (some s) (err e) rows h = absurd (err_ok h)
read_onto r (some s) (ok rest) rows h = (s, rest, refl, refl, sym (ok-injective h))

pub read_rows-AreKnown :
    (rs : List FileRecord) (rows : List FileRow) → read_rows rs ≡ ok rows → AreKnown rs
unfolding read_rows
read_rows-AreKnown [] rows h = tt
read_rows-AreKnown (r ∷ rs) rows h =
    let (s, rest, e, f, _) = read_onto r _ _ rows h in ((s, e), read_rows-AreKnown rs rest f)
