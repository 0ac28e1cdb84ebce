-- ===== src/StateDb/Created.antt =====
-- `StateDb::create_new` of worker/resume/state_db.cpp on a database that does not fail.
use eml_to_pst.Base.{
  ℕ, ◌^◌, ◌<◌, ◌≡◌, refl, List, [], ◌∷◌, ◌++◌, false, Option, none, some, ==_iff, length, lt→ltb,
  ap, ◌∙◌,
}
use eml_to_pst.Base.Text.{Wide}
use eml_to_pst.Base.Outcome.{Error, Result, ok, err}
use eml_to_pst.Model.{ManifestEntry}
use eml_to_pst.StateDb.Tables.{JobRow, FileRecord, Tables, insert_file, next_id, has_path}
use eml_to_pst.StateDb.Columns.{wide_to_utf8}
use eml_to_pst.StateDb.Engine.{
  Engine, Db, M, after, stepped, execute, begin_immediate, open_transaction, close_transaction,
  commit,
}
use eml_to_pst.StateDb.Queries.{JobInfo}
use eml_to_pst.StateDb.Creation.{
  new_job, job_row, insert_row, insert_one, insert_all, fill, in_transaction, undo_on_error,
  create_new, schema_row, version_row, prepare_row,
}
use eml_to_pst.StateDb.Atomic.{file_record}

-- No statement fails.
abbrev pub NeverFails : Engine → Type 0
NeverFails g = (n : ℕ) → g.fault n ≡ none

-- The UTF-8 text of each entry's path is new, and its size fits the column.
abbrev pub AreNew : List ManifestEntry → List (Wide × Wide) → List FileRecord → Type 0
AreNew [] ts files = Unit
AreNew (e ∷ es) [] files = Unit
AreNew (e ∷ es) ((source, target) ∷ ts) files =
    (has_path (wide_to_utf8 e.relative_path) files ≡ false)
    × (e.size < 2 ^ 63)
    × AreNew es ts (files ++ file_record (next_id files) e target ∷ [])

-- The records behind the last insertion.
abbrev filled : List ManifestEntry → List (Wide × Wide) → List FileRecord → List FileRecord
filled [] ts files = files
filled (e ∷ es) [] files = files
filled (e ∷ es) ((source, target) ∷ ts) files =
    filled es ts (files ++ file_record (next_id files) e target ∷ [])

abbrev pub IsOk : {A B : Type 0} → Result A × B → Type 0
IsOk (ok a, b) = Unit
IsOk (err e, b) = ⊥

-- A statement that succeeded: a transaction is open, with this job and these files.
abbrev Open : Option JobRow → List FileRecord → {A : Type 0} → Result A × Db → Type 0
Open job files (ok a, db) =
    ((t : Tables) × (db.saved ≡ some t)) × (db.tables.job ≡ job) × (db.tables.files ≡ files)
Open job files (err e, db) = ⊥

after-Open :
    (job job' : Option JobRow) (files files' : List FileRecord) {A B : Type 0} (r : Result A × Db)
    (f : A → M B)
    → Open job files r
    → ((a : A) (db : Db)
        → ((t : Tables) × (db.saved ≡ some t))
        → db.tables.job ≡ job
        → db.tables.files ≡ files
        → Open job' files' (f a db))
    → Open job' files' (after r f)
after-Open job job' files files' (ok a, db) f (h, i, j) k = k a db h i j
after-Open job job' files files' (err e, db) f h k = absurd h

after-IsOk :
    (job : Option JobRow) (files : List FileRecord) {A : Type 0} (r : Result A × Db)
    (f : A → M (Unit {0}))
    → Open job files r
    → ((a : A) (db : Db)
        → ((t : Tables) × (db.saved ≡ some t))
        → db.tables.job ≡ job
        → db.tables.files ≡ files
        → IsOk (f a db))
    → IsOk (after r f)
after-IsOk job files (ok a, db) f (h, i, j) k = k a db h i j
after-IsOk job files (err e, db) f h k = absurd h

abbrev Gives : Option JobRow → List FileRecord → Option (Tables × ℕ) → Type 0
Gives job files none = ⊥
Gives job files (some (t, n)) = (t.job ≡ job) × (t.files ≡ files)

stepped-Open :
    (g : Engine) (job : Option JobRow) (files : List FileRecord) (fault : Option Error)
    (change : Option (Tables × ℕ)) (db : Db)
    → fault ≡ none
    → ((t : Tables) × (db.saved ≡ some t))
    → Gives job files change
    → Open job files (stepped g fault change db)
stepped-Open g job files (some e) change db f h k = absurd (cc)
stepped-Open g job files none none db f h k = absurd k
stepped-Open g job files none (some (t, n)) db f h (i, j) = (h, i, j)

insert-Gives :
    (e : ManifestEntry) (target : Wide) (t : Tables) (job : Option JobRow) (files : List FileRecord)
    → t.job ≡ job
    → t.files ≡ files
    → has_path (wide_to_utf8 e.relative_path) files ≡ false
    → Gives job (files ++ file_record (next_id files) e target ∷ []) (insert_row e target t)
unfolding insert_file
insert-Gives e target t job files i j new =
    let absent : has_path (wide_to_utf8 e.relative_path) t.files ≡ false =
      ap (has_path (wide_to_utf8 e.relative_path)) j ∙ new in
    rw (Gives, absent) (i, ap (λ fs. fs ++ file_record (next_id fs) e target ∷ []) j)

job-Gives :
    (info : JobInfo) (job : Option JobRow) (t : Tables) (files : List FileRecord)
    → job ≡ none
    → t.files ≡ files
    → Gives (some (new_job info)) files (job_row info job t)
job-Gives info none t files i j = (refl, j)
job-Gives info (some j) t files i k = absurd (cc)

module _ (g : Engine) (never : NeverFails g) where
  execute-Open :
      (job : Option JobRow) (files : List FileRecord) (change : Tables → Option (Tables × ℕ))
      (db : Db)
      → ((t : Tables) × (db.saved ≡ some t))
      → Gives job files (change db.tables)
      → Open job files (execute g change db)
  unfolding execute
  execute-Open job files change db h k =
      stepped-Open g job files (g.fault db.ticks) (change db.tables) db (never db.ticks) h k

  insert_one-Open :
      (e : ManifestEntry) (target : Wide) (job : Option JobRow) (files : List FileRecord) (db : Db)
      → ((t : Tables) × (db.saved ≡ some t))
      → db.tables.job ≡ job
      → db.tables.files ≡ files
      → has_path (wide_to_utf8 e.relative_path) files ≡ false
      → e.size < 2 ^ 63
      → Open job (files ++ file_record (next_id files) e target ∷ []) (insert_one g e target db)
  unfolding insert_one
  insert_one-Open e target job files db h i j new fits =
      rw (insert_one, lt→ltb e.size (2 ^ 63) fits)
        (after-Open job job _ _ (execute g (insert_row e target) db) _
          (execute-Open job _ (insert_row e target) db h
            (insert-Gives e target db.tables job files i j new))
          (λ n d x y z. (x, y, z)))

  insert_all-Open :
      (es : List ManifestEntry) (ts : List (Wide × Wide)) (job : Option JobRow)
      (files : List FileRecord) (db : Db)
      → ((t : Tables) × (db.saved ≡ some t))
      → db.tables.job ≡ job
      → db.tables.files ≡ files
      → AreNew es ts files
      → Open job (filled es ts files) (insert_all g es ts db)
  unfolding insert_all
  insert_all-Open [] ts job files db h i j new = (h, i, j)
  insert_all-Open (e ∷ es) [] job files db h i j new = (h, i, j)
  insert_all-Open (e ∷ es) ((source, target) ∷ ts) job files db h i j (new, fits, rest) =
      after-Open job job (files ++ file_record (next_id files) e target ∷ []) _
        (insert_one g e target db) _ (insert_one-Open e target job files db h i j new fits)
        (λ u d x y z.
          insert_all-Open es ts job (files ++ file_record (next_id files) e target ∷ []) d x y z
            rest)

close-IsOk :
    (fault : Option Error) (saved : Option Tables) (db : Db)
    → fault ≡ none
    → ((t : Tables) × (saved ≡ some t))
    → IsOk (close_transaction fault saved db)
close-IsOk fault none db f (t, h) = absurd (cc)
close-IsOk (some e) (some t) db f h = absurd (cc)
close-IsOk none (some t) db f h = tt

module _ (g : Engine) (never : NeverFails g) where
  fill-IsOk :
      (info : JobInfo) (manifest : List ManifestEntry) (targets : List (Wide × Wide)) (db : Db)
      → ((t : Tables) × (db.saved ≡ some t))
      → db.tables.job ≡ none
      → AreNew manifest targets db.tables.files
      → IsOk (fill g info manifest targets db)
  unfolding fill commit
  fill-IsOk info manifest targets db h i new =
      let files = db.tables.files in
      let job = some (new_job info) in
      after-IsOk none files (execute g schema_row db) _
        (execute-Open g never none files schema_row db h (i, refl))
        (λ n d x y z.
          after-IsOk none files (execute g version_row d) _
            (execute-Open g never none files version_row d x (y, z))
            (λ n d x y z.
              after-IsOk none files (execute g prepare_row d) _
                (execute-Open g never none files prepare_row d x (y, z))
                (λ n d x y z.
                  after-IsOk job files (execute g (λ t. job_row info t.job t) d) _
                    (execute-Open g never job files (λ t. job_row info t.job t) d x
                      (job-Gives info d.tables.job d.tables files y z))
                    (λ n d x y z.
                      after-IsOk job (filled manifest targets files)
                        (insert_all g manifest targets d) _
                        (insert_all-Open g never manifest targets job files d x y z new)
                        (λ u d x y z. close-IsOk (g.fault d.ticks) d.saved d (never d.ticks) x)))))

  undo-IsOk : (r : Result (Unit {0}) × Db) → IsOk r → IsOk (undo_on_error r)
  undo-IsOk (ok u, db) h = h
  undo-IsOk (err e, db) h = absurd h

  begun-IsOk :
      (info : JobInfo) (manifest : List ManifestEntry) (targets : List (Wide × Wide))
      (fault : Option Error) (saved : Option Tables) (db : Db)
      → fault ≡ none
      → saved ≡ none
      → db.tables.job ≡ none
      → AreNew manifest targets db.tables.files
      → IsOk (in_transaction (fill g info manifest targets) (open_transaction fault saved db))
  begun-IsOk info manifest targets (some e) saved db f h i new = absurd (cc)
  begun-IsOk info manifest targets none (some t) db f h i new = absurd (cc)
  begun-IsOk info manifest targets none none db f h i new =
      undo-IsOk _ (fill-IsOk info manifest targets _ (db.tables, refl) i new)

  -- Where no statement fails, no transaction is open, there is no job yet, the two lists have one
  -- length, every path is new as the UTF-8
  -- text that its column holds, and every size is below 2^63, `create_new` succeeds.
  pub create_new-IsOk :
      (info : JobInfo) (manifest : List ManifestEntry) (targets : List (Wide × Wide)) (db : Db)
      → db.saved ≡ none
      → db.tables.job ≡ none
      → length manifest ≡ length targets
      → AreNew manifest targets db.tables.files
      → IsOk (create_new g info manifest targets db)
  unfolding create_new begin_immediate
  create_new-IsOk info manifest targets db h i same new =
      rw (create_new, (==_iff (length manifest) (length targets)).1 same)
        (begun-IsOk info manifest targets (g.fault db.ticks) db.saved db (never db.ticks) h i new)
