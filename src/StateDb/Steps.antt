-- ===== src/StateDb/Steps.antt =====
-- The changes that the import of one file makes to the state database of
-- worker/resume/state_db.cpp, as a relation between the databases before and after.
use mathlib.Core.Path.{subst}
use eml_to_pst.Base.{
  ℕ, ◌≡◌, ◌⊎◌, inl, inr, refl, sym, ◌∙◌, ap, List, [], ◌∷◌, arith, ◌==◌, Bool-cases,
}
use eml_to_pst.Base.Int.{ℤ}
use eml_to_pst.Base.Text.{Bytes, Wide}
use eml_to_pst.Model.{FileTimeUtc, FileImportStatus}
use eml_to_pst.StateDb.Tables.{FileRecord, update_where}
use eml_to_pst.StateDb.Engine.{Engine, Db, execute}
use eml_to_pst.StateDb.Lifecycle.{
  change_file, touch_job_updated, mark_started, set_sha256, mark_imported, mark_status,
  set_folder_entry_id, started_row, sha256_row, imported_row, finished_row,
}

-- Calls that concern the file `id`, and calls that store the entry id of a folder.
pub data Steps (g : Engine) (id : ℕ) : Db → Db → Type 0 where
  stop : {db : Db} → Steps g id db db
  started :
      {db db' : Db} (now : FileTimeUtc)
      → Steps g id (mark_started g id now db).1 db'
      → Steps g id db db'
  hashed :
      {db db' : Db} (hex : Bytes) → Steps g id (set_sha256 g id hex db).1 db' → Steps g id db db'
  imported :
      {db db' : Db} (entry_id : Bytes) (now : FileTimeUtc)
      → Steps g id (mark_imported g id entry_id now db).1 db'
      → Steps g id db db'
  finished :
      {db db' : Db} (status : FileImportStatus) (hresult : ℤ) (now : FileTimeUtc)
      → Steps g id (mark_status g id status hresult now db).1 db'
      → Steps g id db db'
  folder :
      {db db' : Db} (target : Wide) (entry_id : Bytes)
      → Steps g id (set_folder_entry_id g target entry_id db).1 db'
      → Steps g id db db'

pub Steps-trans :
    {g : Engine} {id : ℕ} {a b c : Db} → Steps g id a b → Steps g id b c → Steps g id a c
Steps-trans Steps.stop t = t
Steps-trans (Steps.started now s) t = Steps.started now (Steps-trans s t)
Steps-trans (Steps.hashed hex s) t = Steps.hashed hex (Steps-trans s t)
Steps-trans (Steps.imported e now s) t = Steps.imported e now (Steps-trans s t)
Steps-trans (Steps.finished st hr now s) t = Steps.finished st hr now (Steps-trans s t)
Steps-trans (Steps.folder target e s) t = Steps.folder target e (Steps-trans s t)

-- The records one by one: the same ids, and the same records but those with the given id.
abbrev pub Moves : ℕ → List FileRecord → List FileRecord → Type 0
Moves id [] [] = Unit
Moves id (r ∷ rs) (s ∷ ss) = (r.id ≡ s.id) × ((r.id ≡ id) ⊎ (r ≡ s)) × Moves id rs ss
Moves id _ _ = ⊥

touch-files :
    (g : Engine) (now : FileTimeUtc) (db : Db)
    → (touch_job_updated g now db).1.tables.files ≡ db.tables.files
unfolding touch_job_updated execute
touch-files g now db = ground arith

pub change_file-files :
    (g : Engine) (operation : Bytes) (id : ℕ) (f : FileRecord → FileRecord)
    (time : Db → FileTimeUtc) (db : Db)
    → ((change_file g operation id f time db).1.tables.files ≡ db.tables.files)
      ⊎ ((change_file g operation id f time db).1.tables.files ≡ update_where id f db.tables.files)
unfolding change_file execute touch_job_updated
change_file-files g operation id f time db = ground arith

change_file-saved :
    (g : Engine) (operation : Bytes) (id : ℕ) (f : FileRecord → FileRecord)
    (time : Db → FileTimeUtc) (db : Db)
    → (change_file g operation id f time db).1.saved ≡ db.saved
unfolding change_file execute touch_job_updated
change_file-saved g operation id f time db = ground arith

pub folder-files :
    (g : Engine) (target : Wide) (entry_id : Bytes) (db : Db)
    → (set_folder_entry_id g target entry_id db).1.tables.files ≡ db.tables.files
unfolding set_folder_entry_id execute touch_job_updated
folder-files g target entry_id db = ground arith

folder-saved :
    (g : Engine) (target : Wide) (entry_id : Bytes) (db : Db)
    → (set_folder_entry_id g target entry_id db).1.saved ≡ db.saved
unfolding set_folder_entry_id execute touch_job_updated
folder-saved g target entry_id db = ground arith

Moves-refl : (id : ℕ) (rs : List FileRecord) → Moves id rs rs
Moves-refl id [] = tt
Moves-refl id (r ∷ rs) = (refl, inr refl, Moves-refl id rs)

Moves-trans :
    (id : ℕ) (rs ss ts : List FileRecord) → Moves id rs ss → Moves id ss ts → Moves id rs ts
Moves-trans id [] [] [] m n = tt
Moves-trans id [] [] (t ∷ ts) m n = n
Moves-trans id [] (s ∷ ss) ts m n = absurd m
Moves-trans id (r ∷ rs) [] ts m n = absurd m
Moves-trans id (r ∷ rs) (s ∷ ss) [] m n = n
Moves-trans id (r ∷ rs) (s ∷ ss) (t ∷ ts) (p, q, m) (p', q', n) = (
  p ∙ p',
  elim q [
    | inl e ↦ inl e
    | inr e ↦ elim q' [ inl e' ↦ inl (ap (λ x. x.id) e ∙ e') | inr e' ↦ inr (e ∙ e') ]
  ],
  Moves-trans id rs ss ts m n,
)

update-Moves :
    (id : ℕ) (f : FileRecord → FileRecord)
    → ((r : FileRecord) → (f r).id ≡ r.id)
    → (rs : List FileRecord) → Moves id rs (update_where id f rs)
unfolding update_where
update-Moves id f h [] = tt
update-Moves id f h (r ∷ rs) = elim (Bool-cases (r.id == id)) [
  | inl e ↦ rw e (sym (h r), inl (ground arith), update-Moves id f h rs)
  | inr e ↦ rw e (refl, inr refl, update-Moves id f h rs)
]

change-Moves :
    (g : Engine) (operation : Bytes) (id : ℕ) (f : FileRecord → FileRecord)
    (time : Db → FileTimeUtc) (db : Db)
    → ((r : FileRecord) → (f r).id ≡ r.id)
    → Moves id db.tables.files (change_file g operation id f time db).1.tables.files
change-Moves g operation id f time db h = elim (change_file-files g operation id f time db) [
  | inl e ↦ rw e (Moves-refl id db.tables.files)
  | inr e ↦ rw e (update-Moves id f h db.tables.files)
]

-- Whatever fails, the steps for a file keep the records of all other files.
pub Steps-Moves :
    {g : Engine} {id : ℕ} {db db' : Db}
    → Steps g id db db'
    → Moves id db.tables.files db'.tables.files
unfolding mark_started set_sha256 mark_imported mark_status
Steps-Moves {g} {id} {db} Steps.stop = Moves-refl id db.tables.files
Steps-Moves {g} {id} {db} (Steps.started now s) =
    Moves-trans id _ _ _ (change-Moves g _ id (started_row now) (λ _. now) db (λ r. refl))
      (Steps-Moves s)
Steps-Moves {g} {id} {db} (Steps.hashed hex s) =
    Moves-trans id _ _ _
      (change-Moves g _ id (sha256_row hex) (λ d. g.clock d.ticks) db (λ r. refl)) (Steps-Moves s)
Steps-Moves {g} {id} {db} (Steps.imported e now s) =
    Moves-trans id _ _ _ (change-Moves g _ id (imported_row e now) (λ _. now) db (λ r. refl))
      (Steps-Moves s)
Steps-Moves {g} {id} {db} (Steps.finished st hr now s) =
    Moves-trans id _ _ _ (change-Moves g _ id (finished_row st hr now) (λ _. now) db (λ r. refl))
      (Steps-Moves s)
Steps-Moves {g} {id} {db} {db'} (Steps.folder target e s) =
    subst (λ fs. Moves id fs db'.tables.files) (folder-files g target e db) (Steps-Moves s)

-- They neither begin nor end a transaction.
pub Steps-saved : {g : Engine} {id : ℕ} {db db' : Db} → Steps g id db db' → db'.saved ≡ db.saved
unfolding mark_started set_sha256 mark_imported mark_status
Steps-saved Steps.stop = refl
Steps-saved {g} {id} {db} (Steps.started now s) =
    Steps-saved s ∙ change_file-saved g _ id (started_row now) (λ _. now) db
Steps-saved {g} {id} {db} (Steps.hashed hex s) =
    Steps-saved s ∙ change_file-saved g _ id (sha256_row hex) (λ d. g.clock d.ticks) db
Steps-saved {g} {id} {db} (Steps.imported e now s) =
    Steps-saved s ∙ change_file-saved g _ id (imported_row e now) (λ _. now) db
Steps-saved {g} {id} {db} (Steps.finished st hr now s) =
    Steps-saved s ∙ change_file-saved g _ id (finished_row st hr now) (λ _. now) db
Steps-saved {g} {id} {db} (Steps.folder target e s) = Steps-saved s ∙ folder-saved g target e db
