-- ===== src/StateDb/Atomic.antt =====
-- `StateDb::create_new` of worker/resume/state_db.cpp as one transaction.
use mathlib.Core.Path.{subst}
use mathlib.Core.Option.{some-injective}
use mathlib.Core.List.{append_assoc, append-nil}
use eml_to_pst.Base.{
  ℕ, suc, ◌^◌, ◌≡◌, refl, sym, ◌∙◌, ap, List, [], ◌∷◌, ◌++◌, Option, none, some, ltb, ◌==◌,
  Bool-cases, inl, inr, length,
}
use eml_to_pst.Base.Text.{Wide}
use eml_to_pst.Base.Outcome.{Error, Result, ok, err}
use eml_to_pst.Model.{FileImportStatus, status_name, ManifestEntry}
use eml_to_pst.StateDb.Tables.{JobRow, FileRecord, Tables, insert_file, next_id, has_path}
use eml_to_pst.StateDb.Columns.{wide_to_utf8}
use eml_to_pst.StateDb.Engine.{
  Engine, Db, M, after, stepped, execute, begin_immediate, open_transaction, close_transaction,
  commit, rollback, restore,
}
use eml_to_pst.StateDb.Queries.{JobInfo}
use eml_to_pst.StateDb.Creation.{
  new_job, job_row, insert_row, insert_one, insert_all, fill, in_transaction, undo_on_error,
  create_new, schema_row, version_row, prepare_row,
}

abbrev pub file_record : ℕ → ManifestEntry → Wide → FileRecord
file_record id e target = record {
  id = id;
  relative_source_path = wide_to_utf8 e.relative_path;
  source_size = e.size;
  source_last_write_utc = e.last_write_utc;
  source_sha256 = none;
  target_folder_path = wide_to_utf8 target;
  target_entry_id = none;
  status = status_name FileImportStatus.pending;
  attempt_count = 0;
  last_hresult = none;
  started_at_utc = none;
  completed_at_utc = none;
}

-- A pending record for each entry, with ids that count up from the first.
unfoldable pub records : ℕ → List ManifestEntry → List (Wide × Wide) → List FileRecord
records id [] ts = []
records id (e ∷ es) [] = []
records id (e ∷ es) ((source, target) ∷ ts) = file_record id e target ∷ records (suc id) es ts

-- Inside the transaction that began with `base`: these files and this job, unless a statement has
-- failed.
abbrev Within : Tables → List FileRecord → Option JobRow → {A : Type 0} → Result A × Db → Type 0
Within base files job (ok a, db) =
    (db.saved ≡ some base) × (db.tables.files ≡ files) × (db.tables.job ≡ job)
Within base files job (err e, db) = db.saved ≡ some base

-- One statement more.
after-Within :
    (base : Tables) (files files' : List FileRecord) (job job' : Option JobRow) {A B : Type 0}
    (r : Result A × Db) (f : A → M B)
    → Within base files job r
    → ((a : A) (db : Db)
        → db.saved ≡ some base
        → db.tables.files ≡ files
        → db.tables.job ≡ job
        → Within base files' job' (f a db))
    → Within base files' job' (after r f)
after-Within base files files' job job' (ok a, db) f (h, i, j) k = k a db h i j
after-Within base files files' job job' (err e, db) f h k = h

-- A statement that succeeds gives the tables that the change gives.
abbrev Changed : Option (Tables × ℕ) → List FileRecord → Option JobRow → Type 0
Changed none files job = Unit
Changed (some (t, n)) files job = (t.files ≡ files) × (t.job ≡ job)

stepped-Within :
    (g : Engine) (base : Tables) (files : List FileRecord) (job : Option JobRow)
    (fault : Option Error) (change : Option (Tables × ℕ)) (db : Db)
    → db.saved ≡ some base
    → Changed change files job
    → Within base files job (stepped g fault change db)
stepped-Within g base files job (some e) change db h k = h
stepped-Within g base files job none none db h k = h
stepped-Within g base files job none (some (t, n)) db h (k, l) = (h, k, l)

execute-Within :
    (g : Engine) (base : Tables) (files : List FileRecord) (job : Option JobRow)
    (change : Tables → Option (Tables × ℕ)) (db : Db)
    → db.saved ≡ some base
    → Changed (change db.tables) files job
    → Within base files job (execute g change db)
unfolding execute
execute-Within g base files job change db h k =
    stepped-Within g base files job (g.fault db.ticks) (change db.tables) db h k

insert-Changed :
    (e : ManifestEntry) (target : Wide) (t : Tables) (files : List FileRecord) (job : Option JobRow)
    → t.files ≡ files
    → t.job ≡ job
    → Changed (insert_row e target t) (files ++ file_record (next_id files) e target ∷ []) job
unfolding insert_file
insert-Changed e target t files job h k =
    elim (Bool-cases (has_path (wide_to_utf8 e.relative_path) t.files)) [
      | inl p ↦ rw (Changed, p) tt
      | inr p ↦ rw (Changed, p) (ap (λ fs. fs ++ file_record (next_id fs) e target ∷ []) h, k)
    ]

next_id-append : (files : List FileRecord) (r : FileRecord) → next_id (files ++ r ∷ []) ≡ suc r.id
unfolding next_id
next_id-append [] r = refl
next_id-append (a ∷ []) r = refl
next_id-append (a ∷ b ∷ files) r = next_id-append (b ∷ files) r

module _ (g : Engine) (base : Tables) (job : Option JobRow) where
  insert_one-Within :
      (e : ManifestEntry) (target : Wide) (files : List FileRecord) (db : Db)
      → db.saved ≡ some base
      → db.tables.files ≡ files
      → db.tables.job ≡ job
      → Within base
          (files ++ file_record (next_id files) e target ∷ [])
          job
          (insert_one g e target db)
  unfolding insert_one
  insert_one-Within e target files db h i j = elim (Bool-cases (ltb e.size (2 ^ 63))) [
    | inl b ↦
        rw (insert_one, b)
          (after-Within base _ _ job job (execute g (insert_row e target) db) _
            (execute-Within g base _ job (insert_row e target) db h
              (insert-Changed e target db.tables files job i j))
            (λ n d x y z. (x, y, z)))
    | inr b ↦ rw (insert_one, b) h
  ]

  insert_all-Within :
      (es : List ManifestEntry) (ts : List (Wide × Wide)) (files : List FileRecord) (db : Db)
      → db.saved ≡ some base
      → db.tables.files ≡ files
      → db.tables.job ≡ job
      → Within base (files ++ records (next_id files) es ts) job (insert_all g es ts db)
  unfolding insert_all records
  insert_all-Within [] ts files db h i j = (h, i ∙ sym (append-nil files), j)
  insert_all-Within (e ∷ es) [] files db h i j = (h, i ∙ sym (append-nil files), j)
  insert_all-Within (e ∷ es) ((source, target) ∷ ts) files db h i j =
      let one = file_record (next_id files) e target in
      after-Within base (files ++ one ∷ []) _ job job (insert_one g e target db) _
        (insert_one-Within e target files db h i j)
        (λ u d x y z.
          subst (λ fs. Within base fs job (insert_all g es ts d))
            (append_assoc files (one ∷ []) (records _ es ts)
              ∙ ap (λ n. files ++ one ∷ records n es ts) (next_id-append files one))
            (insert_all-Within es ts (files ++ one ∷ []) d x y z))

-- The end of the transaction.
abbrev Committed : Tables → List FileRecord → Option JobRow → Result (Unit {0}) × Db → Type 0
Committed base files job (ok u, db) =
    (db.saved ≡ none) × (db.tables.files ≡ files) × (db.tables.job ≡ job)
Committed base files job (err e, db) = db.saved ≡ some base

close-Committed :
    (base : Tables) (files : List FileRecord) (job : Option JobRow) (fault : Option Error)
    (saved : Option Tables) (db : Db)
    → saved ≡ some base
    → db.saved ≡ some base
    → db.tables.files ≡ files
    → db.tables.job ≡ job
    → Committed base files job (close_transaction fault saved db)
close-Committed base files job fault none db e h i j = h
close-Committed base files job (some x) (some t) db e h i j = h
close-Committed base files job none (some t) db e h i j = (refl, i, j)

commit-Committed :
    (g : Engine) (base : Tables) (files : List FileRecord) (job : Option JobRow) (db : Db)
    → db.saved ≡ some base
    → db.tables.files ≡ files
    → db.tables.job ≡ job
    → Committed base files job (commit g db)
unfolding commit
commit-Committed g base files job db h i j =
    close-Committed base files job (g.fault db.ticks) db.saved db h h i j

after-Committed :
    (base : Tables) (files files' : List FileRecord) (job job' : Option JobRow) {A : Type 0}
    (r : Result A × Db) (f : A → M (Unit {0}))
    → Within base files job r
    → ((a : A) (db : Db)
        → db.saved ≡ some base
        → db.tables.files ≡ files
        → db.tables.job ≡ job
        → Committed base files' job' (f a db))
    → Committed base files' job' (after r f)
after-Committed base files files' job job' (ok a, db) f (h, i, j) k = k a db h i j
after-Committed base files files' job job' (err e, db) f h k = h

job-Changed :
    (info : JobInfo) (job : Option JobRow) (t : Tables) (files : List FileRecord)
    → t.files ≡ files
    → Changed (job_row info job t) files (some (new_job info))
job-Changed info none t files h = (h, refl)
job-Changed info (some j) t files h = tt

fill-Committed :
    (g : Engine) (info : JobInfo) (manifest : List ManifestEntry) (targets : List (Wide × Wide))
    (base : Tables) (files : List FileRecord) (job : Option JobRow) (db : Db)
    → db.saved ≡ some base
    → db.tables.files ≡ files
    → db.tables.job ≡ job
    → Committed base
        (files ++ records (next_id files) manifest targets)
        (some (new_job info))
        (fill g info manifest targets db)
unfolding fill
fill-Committed g info manifest targets base files job db h i j =
    let all = files ++ records (next_id files) manifest targets in
    let new = some (new_job info) in
    after-Committed base files all job new (execute g schema_row db) _
      (execute-Within g base files job schema_row db h (i, j))
      (λ n d x y z.
        after-Committed base files all job new (execute g version_row d) _
          (execute-Within g base files job version_row d x (y, z))
          (λ n d x y z.
            after-Committed base files all job new (execute g prepare_row d) _
              (execute-Within g base files job prepare_row d x (y, z))
              (λ n d x y z.
                after-Committed base files all new new (execute g (λ t. job_row info t.job t) d) _
                  (execute-Within g base files new (λ t. job_row info t.job t) d x
                    (job-Changed info d.tables.job d.tables files y))
                  (λ n d x y z.
                    after-Committed base all all new new (insert_all g manifest targets d) _
                      (insert_all-Within g base new manifest targets files d x y z)
                      (λ u d x y z. commit-Committed g base all new d x y z)))))

-- All rows, or the tables as they were; in both cases no transaction is left open.
abbrev pub IsAtomic :
    Tables → JobInfo → List ManifestEntry → List (Wide × Wide) → Result (Unit {0}) × Db → Type 0
IsAtomic before info manifest targets (ok u, db) =
    (db.saved ≡ none)
    × (db.tables.files ≡ before.files ++ records (next_id before.files) manifest targets)
    × (db.tables.job ≡ some (new_job info))
IsAtomic before info manifest targets (err e, db) = (db.saved ≡ none) × (db.tables ≡ before)

restored :
    (base : Tables) (saved : Option Tables) (db : Db)
    → saved ≡ some base
    → ((restore saved db).saved ≡ none) × ((restore saved db).tables ≡ base)
restored base none db h = absurd (cc)
restored base (some t) db h = (refl, some-injective t base h)

undo-IsAtomic :
    (info : JobInfo) (manifest : List ManifestEntry) (targets : List (Wide × Wide))
    (before : Tables) (r : Result (Unit {0}) × Db)
    → Committed before
        (before.files ++ records (next_id before.files) manifest targets)
        (some (new_job info))
        r
    → IsAtomic before info manifest targets (undo_on_error r)
unfolding rollback
undo-IsAtomic info manifest targets before (ok u, db) h = h
undo-IsAtomic info manifest targets before (err e, db) h = restored before db.saved db h

begun-IsAtomic :
    (g : Engine) (info : JobInfo) (manifest : List ManifestEntry) (targets : List (Wide × Wide))
    (fault : Option Error) (saved : Option Tables) (db : Db)
    → saved ≡ none
    → db.saved ≡ none
    → IsAtomic db.tables info manifest targets
        (in_transaction (fill g info manifest targets) (open_transaction fault saved db))
begun-IsAtomic g info manifest targets (some e) saved db h k = (k, refl)
begun-IsAtomic g info manifest targets none (some t) db h k = absurd (cc)
begun-IsAtomic g info manifest targets none none db h k =
    undo-IsAtomic info manifest targets db.tables _ (
      fill-Committed g info manifest targets db.tables db.tables.files db.tables.job _ refl refl
        refl)

-- Outside a transaction, whichever statement fails: `create_new` either reports an error and
-- leaves the tables as they were, or stores the job and a pending record with a new id for each
-- file of the manifest, in order. No transaction stays open.
pub create_new-IsAtomic :
    (g : Engine) (info : JobInfo) (manifest : List ManifestEntry) (targets : List (Wide × Wide))
    (db : Db)
    → db.saved ≡ none
    → IsAtomic db.tables info manifest targets (create_new g info manifest targets db)
unfolding create_new begin_immediate
create_new-IsAtomic g info manifest targets db h =
    elim (Bool-cases (length manifest == length targets)) [
      | inl e ↦
          rw (create_new, e)
            (begun-IsAtomic g info manifest targets (g.fault db.ticks) db.saved db h h)
      | inr e ↦ rw (create_new, e) (h, refl)
    ]
