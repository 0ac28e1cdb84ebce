-- ===== src/Pipeline/Writes.antt =====
-- What `process_row` of worker/pipeline/import_pipeline.cpp writes to the state database.
use mathlib.Core.Path.{subst}
use eml_to_pst.Base.{
  ℕ, ◌≡◌, refl, List, [], ◌∷◌, Bool, true, false, Option, none, some, Bool-cases, Option-cases, inl,
  inr,
}
use eml_to_pst.Base.Text.{Bytes, Wide, codes, text_eq}
use eml_to_pst.Base.Outcome.{Error, Result, ok, err}
use eml_to_pst.Model.{FileTimeUtc, conversion_errors_folder_name}
use eml_to_pst.Headers.{HeaderInspection, inspect_headers, default_header_cap}
use eml_to_pst.StateDb.Engine.{Engine}
use eml_to_pst.StateDb.Queries.{FileRow}
use eml_to_pst.StateDb.Steps.{Steps, Steps-trans}
use eml_to_pst.Pipeline.{
  EntryId, MessageMetadata, ImportOutcome, ImportFailure, TrackedMessage, World, Settings, Run,
}
use eml_to_pst.Pipeline.Metadata
use eml_to_pst.Pipeline.Rows

module _ {W : Type 0} (g : Engine) (c : Settings) (env : World W) where
  folder_made-Steps :
      (id : ℕ) (target : Wide) (r : Result EntryId × W) (s : Run W)
      → Steps g id s.db (Rows.folder_made g c env target r s).1.db
  folder_made-Steps id target (err e, w) s = Steps.stop
  folder_made-Steps id target (ok e, w) s = Steps.folder target e Steps.stop

  ensure-Steps :
      (id : ℕ) (target : Wide) (s : Run W)
      → Steps g id s.db (Rows.ensure_target_folder g c env target s).1.db
  unfolding Rows.ensure_target_folder
  ensure-Steps id target s = elim (Option-cases (Rows.find_key target s.folder_ids)) [
    | inl e ↦
        rw (Rows.ensure_target_folder, e)
          (folder_made-Steps id target (env.ensure_folder (Metadata.split_segments target) s.world)
            s)
    | inr (k, e) ↦ rw (Rows.ensure_target_folder, e) Steps.stop
  ]

  failure-Steps :
      (row : FileRow) (e : Error) (now : FileTimeUtc) (s : Run W)
      → Steps g row.id s.db (Rows.record_read_failure g c env row e now s).db
  unfolding Rows.record_read_failure
  failure-Steps row e now s = Steps.finished _ e.hresult now Steps.stop

  fallback-Steps :
      (row : FileRow) (f : ImportFailure) (done : FileTimeUtc) (r : Result ImportOutcome)
      (s : Run W)
      → Steps g row.id s.db (Rows.after_fallback g c env row f done r s).1.db
  unfolding Rows.after_fallback
  fallback-Steps row f done (ok o) s = Steps.finished _ f.first_hresult done Steps.stop
  fallback-Steps row f done (err e) s =
      elim (Bool-cases (Metadata.is_systemic_operation e.operation)) [
        | inl h ↦ rw h (Steps.finished _ e.hresult done Steps.stop)
        | inr h ↦ rw h (Steps.finished _ e.hresult done Steps.stop)
      ]

  fallback_into-Steps :
      (row : FileRow) (absolute : Wide) (m : MessageMetadata) (f : ImportFailure)
      (r : Result EntryId × Run W)
      → Steps g row.id r.1.db (Rows.fallback_into g c env row absolute m f r).1.db
  fallback_into-Steps row absolute m f (err e, s) = Steps.stop
  fallback_into-Steps row absolute m f (ok folder, s) =
      fallback-Steps row f _ _ (record s { world = _ })

  preserve-Steps :
      (row : FileRow) (absolute : Wide) (m : MessageMetadata) (f : ImportFailure) (s : Run W)
      → Steps g row.id s.db (Rows.preserve g c env row absolute m f s).1.db
  unfolding Rows.preserve
  preserve-Steps row absolute m f s =
      Steps-trans (ensure-Steps row.id conversion_errors_folder_name s)
        (fallback_into-Steps row absolute m f _)

  count-db : (operation : Bytes) (s : Run W) → (Rows.count_systemic g c env operation s).1.db ≡ s.db
  count-db operation s = elim (Bool-cases (Metadata.is_systemic_operation operation)) [
    | inl h ↦ rw h refl
    | inr h ↦ rw h refl
  ]

  import_failure-Steps :
      (row : FileRow) (absolute : Wide) (m : MessageMetadata) (now : FileTimeUtc) (e : Error)
      (f : ImportFailure) (s : Run W)
      → Steps g row.id s.db (Rows.after_import_failure g c env row absolute m now e f s).1.db
  unfolding Rows.after_import_failure
  import_failure-Steps row absolute m now e f s =
      elim (Bool-cases (text_eq e.operation (codes "SHCreateStreamOnFileEx"))) [
        | inl h ↦ rw h (failure-Steps row e now s)
        | inr h ↦ rw h (elim (Bool-cases (Rows.count_systemic g c env e.operation s).0) [
          | inl k ↦ rw k (
              subst (λ d. Steps g row.id d (Rows.count_systemic g c env e.operation s).1.db)
                (count-db e.operation s) Steps.stop)
          | inr k ↦ rw k (
              subst
                (λ d.
                  Steps g row.id d
                    (Rows.preserve g c env row absolute m f
                      (Rows.count_systemic g c env e.operation s).1).1.db)
                (count-db e.operation s) (preserve-Steps row absolute m f _))
        ])
      ]

  success-Steps :
      (row : FileRow) (from_fs : Bool) (o : ImportOutcome) (s : Run W)
      → Steps g row.id s.db (Rows.after_import_success g c env row from_fs o s).1.db
  unfolding Rows.after_import_success
  success-Steps row from_fs o s = Steps.imported o.entry_id _ Steps.stop

  after_import-Steps :
      (row : FileRow) (absolute : Wide) (m : MessageMetadata) (from_fs : Bool) (now : FileTimeUtc)
      (r : Result ImportOutcome × ImportFailure × W) (s : Run W)
      → Steps g row.id s.db (Rows.after_import g c env row absolute m from_fs now r s).1.db
  after_import-Steps row absolute m from_fs now (ok o, f, w) s =
      success-Steps row from_fs o (record s { world = w })
  after_import-Steps row absolute m from_fs now (err e, f, w) s =
      import_failure-Steps row absolute m now e f (record s { world = w })

  import_into-Steps :
      (row : FileRow) (absolute : Wide) (m : MessageMetadata) (from_fs : Bool) (now : FileTimeUtc)
      (r : Result EntryId × Run W)
      → Steps g row.id r.1.db (Rows.import_into g c env row absolute m from_fs now r).1.db
  import_into-Steps row absolute m from_fs now (err e, s) = Steps.stop
  import_into-Steps row absolute m from_fs now (ok folder, s) =
      after_import-Steps row absolute m from_fs now (env.import_eml folder absolute m s.world) s

  import_row-Steps :
      (row : FileRow) (absolute : Wide) (sha_hex : Bytes) (now : FileTimeUtc)
      (headers : HeaderInspection) (s : Run W)
      → Steps g row.id s.db (Rows.import_row g c env row absolute sha_hex now headers s).1.db
  unfolding Rows.import_row
  import_row-Steps row absolute sha_hex now headers s =
      Steps-trans (ensure-Steps row.id row.target_folder_path s) (
        import_into-Steps row absolute _ _ now
          (Rows.ensure_target_folder g c env row.target_folder_path s))

  prefix-Steps :
      (row : FileRow) (absolute : Wide) (sha_hex : Bytes) (now : FileTimeUtc) (r : Option Bytes × W)
      (s : Run W)
      → Steps g row.id s.db (Rows.with_prefix g c env row absolute sha_hex now r s).1.db
  prefix-Steps row absolute sha_hex now (none, w) s =
      failure-Steps row _ now (record s { world = w })
  prefix-Steps row absolute sha_hex now (some p, w) s =
      import_row-Steps row absolute sha_hex now (inspect_headers p default_header_cap)
        (record s { world = w })

  digest-Steps :
      (row : FileRow) (absolute : Wide) (now : FileTimeUtc) (r : Result Bytes × W) (s : Run W)
      → Steps g row.id s.db (Rows.with_digest g c env row absolute now r s).1.db
  digest-Steps row absolute now (err e, w) s = failure-Steps row e now (record s { world = w })
  digest-Steps row absolute now (ok d, w) s =
      Steps.hashed (Metadata.to_hex_lower d)
        (prefix-Steps row absolute (Metadata.to_hex_lower d) now _ _)

  read-Steps :
      (row : FileRow) (now : FileTimeUtc) (s : Run W)
      → Steps g row.id s.db (Rows.read_and_import g c env row now s).1.db
  unfolding Rows.read_and_import
  read-Steps row now s = digest-Steps row _ now (env.sha256_file _ s.world) s

  match-Steps :
      (row : FileRow) (now : FileTimeUtc) (ms : List TrackedMessage) (s : Run W)
      → Steps g row.id s.db (Rows.adopt_match g c env row now ms s).1.db
  match-Steps row now [] s = Steps.stop
  match-Steps row now (m ∷ []) s = Steps.imported m.entry_id now Steps.stop
  match-Steps row now (m ∷ n ∷ ms) s = Steps.stop

  index-db :
      (key : Wide) (r : Result (List TrackedMessage) × W) (s : Run W)
      → (Rows.index_read g c env key r s).1.db ≡ s.db
  index-db key (err e, w) s = refl
  index-db key (ok ms, w) s = refl

  tracked-db :
      (key : Wide) (folder : EntryId) (s : Run W)
      → (Rows.tracked_in g c env key folder s).1.db ≡ s.db
  unfolding Rows.tracked_in
  tracked-db key folder s = elim (Option-cases (Rows.find_key key s.resume_index)) [
    | inl e ↦ rw (Rows.tracked_in, e) (index-db key (env.read_tracked_messages folder s.world) s)
    | inr (k, e) ↦ rw (Rows.tracked_in, e) refl
  ]

  from-Steps :
      (row : FileRow) (now : FileTimeUtc) (r : Option (List TrackedMessage) × Run W)
      → Steps g row.id r.1.db (Rows.adopt_from g c env row now r).1.db
  from-Steps row now (none, s) = Steps.stop
  from-Steps row now (some ms, s) = match-Steps row now _ s

  adopt_in-Steps :
      (row : FileRow) (now : FileTimeUtc) (r : Result EntryId × Run W)
      → Steps g row.id r.1.db (Rows.adopt_in g c env row now r).1.db
  adopt_in-Steps row now (err e, s) = Steps.stop
  adopt_in-Steps row now (ok folder, s) =
      let t = Rows.tracked_in g c env row.target_folder_path folder s in
      subst (λ d. Steps g row.id d (Rows.adopt_from g c env row now t).1.db)
        (tracked-db row.target_folder_path folder s) (from-Steps row now t)

  adopt-Steps :
      (row : FileRow) (now : FileTimeUtc) (s : Run W)
      → Steps g row.id s.db (Rows.try_adopt_existing g c env row now s).1.db
  unfolding Rows.try_adopt_existing
  adopt-Steps row now s =
      Steps-trans (ensure-Steps row.id row.target_folder_path s)
        (adopt_in-Steps row now (Rows.ensure_target_folder g c env row.target_folder_path s))

  adoption-Steps :
      (row : FileRow) (now : FileTimeUtc) (r : Option Bool × Run W)
      → Steps g row.id r.1.db (Rows.after_adoption g c env row now r).1.db
  adoption-Steps row now (none, s) = Steps.stop
  adoption-Steps row now (some true, s) = Steps.stop
  adoption-Steps row now (some false, s) = read-Steps row now s

  resume-Steps :
      (resume : Bool) (row : FileRow) (now : FileTimeUtc) (s : Run W)
      → Steps g row.id s.db (Rows.resume_or_read g c env resume row now s).1.db
  resume-Steps true row now s =
      Steps-trans (adopt-Steps row now s)
        (adoption-Steps row now (Rows.try_adopt_existing g c env row now s))
  resume-Steps false row now s = read-Steps row now s

  -- All that is written for a file are steps for its own id.
  pub process_row-Steps :
      (row : FileRow) (s : Run W) → Steps g row.id s.db (Rows.process_row g c env row s).1.db
  unfolding Rows.process_row
  process_row-Steps row s =
      Steps.started (env.now_utc s.world).0
        (resume-Steps c.resume_mode row (env.now_utc s.world).0 _)
