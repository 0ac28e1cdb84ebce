-- ===== src/Pipeline/Settled.antt =====
-- The status that `process_row` of worker/pipeline/import_pipeline.cpp leaves a file with, where
-- the database does not fail.
use mathlib.Core.Path.{subst}
use eml_to_pst.Base.{
  ℕ, ◌+◌, ◌≡◌, refl, sym, List, [], ◌∷◌, Bool, true, false, Option, none, some, arith, ◌==◌,
  Bool-cases, if◌then◌else◌, leb, inl, inr,
}
use eml_to_pst.Base.Int.{ℤ}
use eml_to_pst.Base.Text.{Bytes, Wide, codes, text_eq}
use eml_to_pst.Base.Outcome.{Error, Result, ok, err}
use eml_to_pst.Model.{FileTimeUtc, FileImportStatus, status_name}
use eml_to_pst.StateDb.Tables.{FileRecord, update_where}
use eml_to_pst.StateDb.Engine.{Engine, Db, execute}
use eml_to_pst.StateDb.Lifecycle.{
  change_file, touch_job_updated, mark_imported, mark_status, imported_row, finished_row,
}
use eml_to_pst.StateDb.Queries.{FileRow}
use eml_to_pst.Pipeline.{
  EntryId, MessageMetadata, ImportOutcome, ImportFailure, TrackedMessage, World, PipelineFatal,
  Settings, Run,
}
use eml_to_pst.Pipeline.Metadata
use eml_to_pst.Pipeline.Rows

-- No statement fails.
abbrev pub Works : Engine → Type 0
Works g = (n : ℕ) → g.fault n ≡ none

abbrev pub is_waiting : FileRecord → Bool
is_waiting r = text_eq r.status (status_name FileImportStatus.pending)

-- No record with this id is pending.
unfoldable pub IsSettled : ℕ → List FileRecord → Type 0
IsSettled id [] = Unit
IsSettled id (r ∷ rs) = (r.id ≡ id → is_waiting r ≡ false) × IsSettled id rs

update-IsSettled :
    (id : ℕ) (f : FileRecord → FileRecord)
    → ((r : FileRecord) → is_waiting (f r) ≡ false)
    → (rs : List FileRecord) → IsSettled id (update_where id f rs)
unfolding update_where IsSettled
update-IsSettled id f h [] = tt
update-IsSettled id f h (r ∷ rs) = elim (Bool-cases (r.id == id)) [
  | inl e ↦ rw e (λ k. h r, update-IsSettled id f h rs)
  | inr e ↦ rw e (λ k. absurd (ground arith), update-IsSettled id f h rs)
]

change_file-Works :
    (g : Engine) (operation : Bytes) (id : ℕ) (f : FileRecord → FileRecord)
    (time : Db → FileTimeUtc) (db : Db)
    → Works g
    → (change_file g operation id f time db).1.tables.files ≡ update_where id f db.tables.files
unfolding change_file execute touch_job_updated
change_file-Works g operation id f time db w = let h = w db.ticks in ground arith

module _ (g : Engine) (works : Works g) where
  imported-IsSettled :
      (id : ℕ) (entry_id : Bytes) (now : FileTimeUtc) (db : Db)
      → IsSettled id (mark_imported g id entry_id now db).1.tables.files
  unfolding mark_imported text_eq status_name
  imported-IsSettled id entry_id now db =
      subst (IsSettled id)
        (sym (change_file-Works g _ id (imported_row entry_id now) (λ _. now) db works))
        (update-IsSettled id (imported_row entry_id now) (λ r. refl) db.tables.files)

  marked-IsSettled :
      (id : ℕ) (status : FileImportStatus) (hresult : ℤ) (now : FileTimeUtc) (db : Db)
      → text_eq (status_name status) (status_name FileImportStatus.pending) ≡ false
      → IsSettled id (mark_status g id status hresult now db).1.tables.files
  unfolding mark_status
  marked-IsSettled id status hresult now db h =
      subst (IsSettled id)
        (sym (change_file-Works g _ id (finished_row status hresult now) (λ _. now) db works))
        (update-IsSettled id (finished_row status hresult now) (λ r. h) db.tables.files)

-- A file that is not the end of the run is settled.
abbrev pub Settles : {W : Type 0} → ℕ → Option PipelineFatal × Run W → Type 0
Settles id (none, s) = IsSettled id s.db.tables.files
Settles id (some fatal, s) = Unit

stop_or :
    {W : Type 0} (id : ℕ) (t : Run W) (fatal : PipelineFatal) (b : Bool)
    → IsSettled id t.db.tables.files
    → Settles id (if b then some fatal else none, t)
stop_or id t fatal true m = tt
stop_or id t fatal false m = m

module _ {W : Type 0} (g : Engine) (c : Settings) (env : World W) (works : Works g) where
  failure-IsSettled :
      (row : FileRow) (e : Error) (now : FileTimeUtc) (s : Run W)
      → IsSettled row.id (Rows.record_read_failure g c env row e now s).db.tables.files
  unfolding Rows.record_read_failure text_eq status_name
  failure-IsSettled row e now s =
      marked-IsSettled g works row.id FileImportStatus.failed_source_read e.hresult now s.db refl

  fallback-Settles :
      (row : FileRow) (f : ImportFailure) (done : FileTimeUtc) (r : Result ImportOutcome)
      (s : Run W)
      → Settles row.id (Rows.after_fallback g c env row f done r s)
  unfolding Rows.after_fallback text_eq status_name
  fallback-Settles row f done (ok o) s =
      marked-IsSettled g works row.id FileImportStatus.preserved_as_attachment f.first_hresult done
        s.db refl
  fallback-Settles row f done (err e) s =
      let m =
        marked-IsSettled g works row.id FileImportStatus.failed_mapi e.hresult done s.db refl in
      elim (Bool-cases (Metadata.is_systemic_operation e.operation)) [
        | inr h ↦ rw h m
        | inl h ↦
            rw h
              (stop_or row.id _ _ (leb c.circuit_breaker_threshold (s.consecutive_systemic + 1)) m)
      ]

  fallback_into-Settles :
      (row : FileRow) (absolute : Wide) (m : MessageMetadata) (f : ImportFailure)
      (r : Result EntryId × Run W)
      → Settles row.id (Rows.fallback_into g c env row absolute m f r)
  fallback_into-Settles row absolute m f (err e, s) = tt
  fallback_into-Settles row absolute m f (ok folder, s) = fallback-Settles row f _ _ _

  preserve-Settles :
      (row : FileRow) (absolute : Wide) (m : MessageMetadata) (f : ImportFailure) (s : Run W)
      → Settles row.id (Rows.preserve g c env row absolute m f s)
  unfolding Rows.preserve
  preserve-Settles row absolute m f s = fallback_into-Settles row absolute m f _

  import_failure-Settles :
      (row : FileRow) (absolute : Wide) (m : MessageMetadata) (now : FileTimeUtc) (e : Error)
      (f : ImportFailure) (s : Run W)
      → Settles row.id (Rows.after_import_failure g c env row absolute m now e f s)
  unfolding Rows.after_import_failure
  import_failure-Settles row absolute m now e f s =
      elim (Bool-cases (text_eq e.operation (codes "SHCreateStreamOnFileEx"))) [
        | inl h ↦ rw h (failure-IsSettled row e now s)
        | inr h ↦ rw h (elim (Bool-cases (Rows.count_systemic g c env e.operation s).0) [
          | inl k ↦ rw k tt
          | inr k ↦
              rw k (preserve-Settles row absolute m f (Rows.count_systemic g c env e.operation s).1)
        ])
      ]

  success-Settles :
      (row : FileRow) (from_fs : Bool) (o : ImportOutcome) (s : Run W)
      → Settles row.id (Rows.after_import_success g c env row from_fs o s)
  unfolding Rows.after_import_success
  success-Settles row from_fs o s = imported-IsSettled g works row.id o.entry_id _ s.db

  after_import-Settles :
      (row : FileRow) (absolute : Wide) (m : MessageMetadata) (from_fs : Bool) (now : FileTimeUtc)
      (r : Result ImportOutcome × ImportFailure × W) (s : Run W)
      → Settles row.id (Rows.after_import g c env row absolute m from_fs now r s)
  after_import-Settles row absolute m from_fs now (ok o, f, w) s =
      success-Settles row from_fs o (record s { world = w })
  after_import-Settles row absolute m from_fs now (err e, f, w) s =
      import_failure-Settles row absolute m now e f (record s { world = w })

  import_into-Settles :
      (row : FileRow) (absolute : Wide) (m : MessageMetadata) (from_fs : Bool) (now : FileTimeUtc)
      (r : Result EntryId × Run W)
      → Settles row.id (Rows.import_into g c env row absolute m from_fs now r)
  import_into-Settles row absolute m from_fs now (err e, s) = tt
  import_into-Settles row absolute m from_fs now (ok folder, s) =
      after_import-Settles row absolute m from_fs now (env.import_eml folder absolute m s.world) s

  prefix-Settles :
      (row : FileRow) (absolute : Wide) (sha_hex : Bytes) (now : FileTimeUtc) (r : Option Bytes × W)
      (s : Run W)
      → Settles row.id (Rows.with_prefix g c env row absolute sha_hex now r s)
  unfolding Rows.import_row
  prefix-Settles row absolute sha_hex now (none, w) s =
      failure-IsSettled row _ now (record s { world = w })
  prefix-Settles row absolute sha_hex now (some p, w) s = import_into-Settles row absolute _ _ now _

  digest-Settles :
      (row : FileRow) (absolute : Wide) (now : FileTimeUtc) (r : Result Bytes × W) (s : Run W)
      → Settles row.id (Rows.with_digest g c env row absolute now r s)
  digest-Settles row absolute now (err e, w) s =
      failure-IsSettled row e now (record s { world = w })
  digest-Settles row absolute now (ok d, w) s =
      prefix-Settles row absolute (Metadata.to_hex_lower d) now _ _

  read-Settles :
      (row : FileRow) (now : FileTimeUtc) (s : Run W)
      → Settles row.id (Rows.read_and_import g c env row now s)
  unfolding Rows.read_and_import
  read-Settles row now s = digest-Settles row _ now _ s

  -- An adopted file is settled.
  abbrev Adopts : ℕ → Option Bool × Run W → Type 0
  Adopts id (some true, s) = IsSettled id s.db.tables.files
  Adopts id (some false, s) = Unit
  Adopts id (none, s) = Unit

  match-Adopts :
      (row : FileRow) (now : FileTimeUtc) (ms : List TrackedMessage) (s : Run W)
      → Adopts row.id (Rows.adopt_match g c env row now ms s)
  match-Adopts row now [] s = tt
  match-Adopts row now (m ∷ []) s = imported-IsSettled g works row.id m.entry_id now s.db
  match-Adopts row now (m ∷ n ∷ ms) s = tt

  from-Adopts :
      (row : FileRow) (now : FileTimeUtc) (r : Option (List TrackedMessage) × Run W)
      → Adopts row.id (Rows.adopt_from g c env row now r)
  from-Adopts row now (none, s) = tt
  from-Adopts row now (some ms, s) = match-Adopts row now _ s

  in-Adopts :
      (row : FileRow) (now : FileTimeUtc) (r : Result EntryId × Run W)
      → Adopts row.id (Rows.adopt_in g c env row now r)
  in-Adopts row now (err e, s) = tt
  in-Adopts row now (ok folder, s) = from-Adopts row now _

  adoption-Settles :
      (row : FileRow) (now : FileTimeUtc) (r : Option Bool × Run W)
      → Adopts row.id r
      → Settles row.id (Rows.after_adoption g c env row now r)
  adoption-Settles row now (none, s) h = tt
  adoption-Settles row now (some true, s) h = h
  adoption-Settles row now (some false, s) h = read-Settles row now s

  resume-Settles :
      (resume : Bool) (row : FileRow) (now : FileTimeUtc) (s : Run W)
      → Settles row.id (Rows.resume_or_read g c env resume row now s)
  unfolding Rows.try_adopt_existing
  resume-Settles true row now s = adoption-Settles row now _ (in-Adopts row now _)
  resume-Settles false row now s = read-Settles row now s

  -- Where the database does not fail, a file that does not end the run is not pending afterwards.
  pub process_row-Settles :
      (row : FileRow) (s : Run W) → Settles row.id (Rows.process_row g c env row s)
  unfolding Rows.process_row
  process_row-Settles row s = resume-Settles c.resume_mode row _ _
