-- ===== src/Pipeline/Rows.antt =====
-- worker/pipeline/import_pipeline.cpp: what the pipeline does with one file.
use eml_to_pst.Base.{
  ◌+◌, List, [], ◌∷◌, ◌++◌, Bool, true, false, ◌&&◌, Option, none, some, leb, if◌then◌else◌,
}
use eml_to_pst.Base.Int.{ℤ}
use eml_to_pst.Base.Text.{Bytes, Wide, codes, text_eq}
use eml_to_pst.Base.Outcome.{Error, Result, ok, err, make_error}
use eml_to_pst.Model.{FileTimeUtc, FileImportStatus, ExitCode, conversion_errors_folder_name}
use eml_to_pst.Unicode.{utf8_from_wide}
use eml_to_pst.Headers.{HeaderInspection, inspect_headers, default_header_cap}
use eml_to_pst.StateDb.Engine.{Engine, Db}
use eml_to_pst.StateDb.Lifecycle.{
  mark_started, set_sha256, mark_imported, mark_status, set_folder_entry_id,
}
use eml_to_pst.StateDb.Queries.{FileRow}
use eml_to_pst.Pipeline.{
  EntryId, MessageMetadata, ImportOutcome, ImportFailure, TrackedMessage, ErrorsCsvRow, World,
  PipelineFatal, Settings, Run,
}
use eml_to_pst.Pipeline.Metadata.{
  join_absolute, split_segments, is_systemic_operation, to_hex_lower, fallback_of, metadata_of,
}

-- The messages of this run for this file.
unfoldable pub matching : Bytes → Wide → List TrackedMessage → List TrackedMessage
matching run_id path [] = []
matching run_id path (m ∷ ms) =
    let rest = matching run_id path ms in
    if text_eq m.run_id run_id && text_eq m.source_relative_path path then m ∷ rest else rest

-- `std::map::find`
unfoldable pub find_key {ℓ} : {V : Type ℓ} → Wide → List (Wide × V) → Option V
find_key key [] = none
find_key key ((k, v) ∷ m) = if text_eq k key then some v else find_key key m

module _ {W : Type 0} (g : Engine) (c : Settings) (env : World W) where
  -- `append_csv`: the row as it was loaded, with one attempt more.
  abbrev pub csv_row : FileRow → Bytes → ℤ → Bytes → ErrorsCsvRow
  csv_row row status hresult details = record {
    relative_source_path = row.relative_source_path;
    status = status;
    attempt_count = row.attempt_count + 1;
    hresult = hresult;
    win32_error = 0;
    target_folder = row.target_folder_path;
    source_size = row.source_size;
    sha256 = row.source_sha256;
    details = details;
  }

  abbrev pub append_csv : FileRow → Bytes → ℤ → Bytes → Run W → Run W
  append_csv row status hresult details s = record s {
    world = env.append_csv (csv_row row status hresult details) s.world;
  }

  -- A call on the database whose status is thrown away.
  abbrev pub with_db : (Db → Result (Unit {0}) × Db) → Run W → Run W
  with_db op s = record s { db = (op s.db).1 }

  unfoldable pub record_read_failure : FileRow → Error → FileTimeUtc → Run W → Run W
  record_read_failure row error now s =
      let failed =
        with_db (mark_status g row.id FileImportStatus.failed_source_read error.hresult now) s in
      append_csv row (codes "FAILED_SOURCE_READ") error.hresult
        (codes "source unreadable at " ++ error.operation)
        (record failed { counters_failed_read = failed.counters_failed_read + 1 })

  abbrev pub folder_made : Wide → Result EntryId × W → Run W → Result EntryId × Run W
  folder_made target (err e, w) s = (err e, record s { world = w })
  folder_made target (ok id, w) s = (
    ok id,
    with_db (set_folder_entry_id g target id)
        (record s { world = w; folder_ids = (target, id) ∷ s.folder_ids }),
  )

  unfoldable pub ensure_target_folder : Wide → Run W → Result EntryId × Run W
  ensure_target_folder target s = elim (find_key target s.folder_ids) [
    | some id ↦ (ok id, s)
    | none ↦ folder_made target (env.ensure_folder (split_segments target) s.world) s
  ]

  -- The index of a folder's messages: read once, and kept.
  abbrev pub index_read :
      Wide → Result (List TrackedMessage) × W → Run W → Option (List TrackedMessage) × Run W
  index_read key (err e, w) s = (none, record s { world = w })
  index_read key (ok ms, w) s =
      (some ms, record s { world = w; resume_index = (key, ms) ∷ s.resume_index })

  unfoldable pub tracked_in : Wide → EntryId → Run W → Option (List TrackedMessage) × Run W
  tracked_in key folder s = elim (find_key key s.resume_index) [
    | some ms ↦ (some ms, s)
    | none ↦ index_read key (env.read_tracked_messages folder s.world) s
  ]

  -- One match is adopted, no match is imported, two are an integrity error (`none`).
  abbrev pub adopt_match : FileRow → FileTimeUtc → List TrackedMessage → Run W → Option Bool × Run W
  adopt_match row now [] s = (some false, s)
  adopt_match row now (m ∷ []) s =
      let adopted = with_db (mark_imported g row.id m.entry_id now) s in
      (some true, record adopted { counters_imported = adopted.counters_imported + 1 })
  adopt_match row now (m ∷ n ∷ ms) s = (none, s)

  abbrev pub adopt_from :
      FileRow → FileTimeUtc → Option (List TrackedMessage) × Run W → Option Bool × Run W
  adopt_from row now (none, s) = (some false, s)
  adopt_from row now (some ms, s) =
      adopt_match row now (matching c.run_id row.relative_source_path ms) s

  abbrev pub adopt_in : FileRow → FileTimeUtc → Result EntryId × Run W → Option Bool × Run W
  adopt_in row now (err e, s) = (some false, s)
  adopt_in row now (ok folder, s) = adopt_from row now (tracked_in row.target_folder_path folder s)

  unfoldable pub try_adopt_existing : FileRow → FileTimeUtc → Run W → Option Bool × Run W
  try_adopt_existing row now s = adopt_in row now (ensure_target_folder row.target_folder_path s)

  abbrev pub write_failure : Bytes → Option PipelineFatal
  write_failure message =
      some (record { exit_code = ExitCode.output_write_failure; message = message })

  -- The breaker: one systemic failure more, and whether that is the last that is let pass.
  abbrev pub count_systemic : Bytes → Run W → Bool × Run W
  count_systemic operation s =
      if is_systemic_operation operation
      then (
        leb c.circuit_breaker_threshold (s.consecutive_systemic + 1),
        record s { consecutive_systemic = s.consecutive_systemic + 1 },
      )
      else (false, s)

  -- The end of `process_row`, behind the creation of the fallback message.
  unfoldable pub after_fallback :
      FileRow
      → ImportFailure
      → FileTimeUtc
      → Result ImportOutcome
      → Run W
      → Option PipelineFatal × Run W
  after_fallback row failure done (ok outcome) s =
      let kept =
        with_db
          (mark_status g row.id FileImportStatus.preserved_as_attachment failure.first_hresult done)
          s in
      (
        none,
        append_csv row (codes "PRESERVED_AS_ATTACHMENT") failure.first_hresult
            (codes "MIME conversion failed; original EML attached unchanged")
            (record kept {
              counters_preserved = kept.counters_preserved + 1;
              consecutive_systemic = 0;
            }),
      )
  after_fallback row failure done (err e) s =
      let failed = with_db (mark_status g row.id FileImportStatus.failed_mapi e.hresult done) s in
      let told =
        append_csv row (codes "FAILED_MAPI") e.hresult
          (codes "fallback message creation failed at " ++ e.operation)
          (record failed { counters_failed_mapi = failed.counters_failed_mapi + 1 }) in
      let (stop, counted) = count_systemic e.operation told in
      (
        if stop
            then write_failure
                (codes "circuit breaker: repeated store failures while creating fallback messages")
            else none,
        counted,
      )

  abbrev pub fallback_result :
      FileRow → ImportFailure → Result ImportOutcome × W → Run W → Option PipelineFatal × Run W
  fallback_result row failure (r, w) s =
      let (done, w') = env.now_utc w in after_fallback row failure done r (record s { world = w' })

  abbrev pub fallback_into :
      FileRow
      → Wide
      → MessageMetadata
      → ImportFailure
      → Result EntryId × Run W
      → Option PipelineFatal × Run W
  fallback_into row absolute metadata failure (err e, s) =
      (write_failure (codes "_Conversion Errors folder could not be created"), s)
  fallback_into row absolute metadata failure (ok folder, s) =
      fallback_result row failure
        (env.import_fallback folder absolute metadata failure.first_hresult failure.second_hresult
          s.world)
        s

  -- The original is kept as an attachment.
  unfoldable pub preserve :
      FileRow → Wide → MessageMetadata → ImportFailure → Run W → Option PipelineFatal × Run W
  preserve row absolute metadata failure s =
      fallback_into row absolute metadata failure
        (ensure_target_folder conversion_errors_folder_name s)

  abbrev pub date_warning : FileRow → ImportOutcome → Bool → List Bytes → List Bytes
  date_warning row outcome from_fs warnings =
      if outcome.date_fallback_applied && from_fs
      then warnings
        ++ (codes "date fell back to file timestamp: " ++ utf8_from_wide row.relative_source_path)
          ∷ []
      else warnings

  unfoldable pub after_import_failure :
      FileRow
      → Wide
      → MessageMetadata
      → FileTimeUtc
      → Error
      → ImportFailure
      → Run W
      → Option PipelineFatal × Run W
  after_import_failure row absolute metadata now e failure s =
      if text_eq e.operation (codes "SHCreateStreamOnFileEx")
      then (none, record_read_failure row e now s)
      else let (stop, counted) = count_systemic e.operation s in
        let rest = preserve row absolute metadata failure counted in
        if stop
        then (
          write_failure (codes "circuit breaker: consecutive failures at " ++ e.operation),
          counted,
        )
        else rest

  unfoldable pub after_import_success :
      FileRow → Bool → ImportOutcome → Run W → Option PipelineFatal × Run W
  after_import_success row from_fs outcome s =
      let (done, w) = env.now_utc s.world in
      let stored =
        with_db (mark_imported g row.id outcome.entry_id done) (record s { world = w }) in
      (
        none,
        record stored {
          counters_imported = stored.counters_imported + 1;
          consecutive_systemic = 0;
          warnings = date_warning row outcome from_fs stored.warnings;
        },
      )

  abbrev pub after_import :
      FileRow
      → Wide
      → MessageMetadata
      → Bool
      → FileTimeUtc
      → Result ImportOutcome × ImportFailure × W
      → Run W
      → Option PipelineFatal × Run W
  after_import row absolute metadata from_fs now (ok outcome, failure, w) s =
      after_import_success row from_fs outcome (record s { world = w })
  after_import row absolute metadata from_fs now (err e, failure, w) s =
      after_import_failure row absolute metadata now e failure (record s { world = w })

  abbrev pub import_into :
      FileRow
      → Wide
      → MessageMetadata
      → Bool
      → FileTimeUtc
      → Result EntryId × Run W
      → Option PipelineFatal × Run W
  import_into row absolute metadata from_fs now (err e, s) =
      (write_failure (codes "destination folder could not be created: " ++ e.message), s)
  import_into row absolute metadata from_fs now (ok folder, s) =
      after_import row absolute metadata from_fs now
        (env.import_eml folder absolute metadata s.world) s

  -- From the headers on: the folder, the import, and what its failure leads to.
  unfoldable pub import_row :
      FileRow → Wide → Bytes → FileTimeUtc → HeaderInspection → Run W → Option PipelineFatal × Run W
  import_row row absolute sha_hex now headers s =
      import_into row absolute (metadata_of c headers row sha_hex now)
        (fallback_of headers row now).from_filesystem now
        (ensure_target_folder row.target_folder_path s)

  abbrev pub with_prefix :
      FileRow → Wide → Bytes → FileTimeUtc → Option Bytes × W → Run W → Option PipelineFatal × Run W
  with_prefix row absolute sha_hex now (none, w) s = (
    none,
    record_read_failure row (make_error (codes "read_prefix") (codes "header section unreadable"))
        now (record s { world = w }),
  )
  with_prefix row absolute sha_hex now (some prefix, w) s =
      import_row row absolute sha_hex now (inspect_headers prefix default_header_cap)
        (record s { world = w })

  abbrev pub with_digest :
      FileRow → Wide → FileTimeUtc → Result Bytes × W → Run W → Option PipelineFatal × Run W
  with_digest row absolute now (err e, w) s =
      (none, record_read_failure row e now (record s { world = w }))
  with_digest row absolute now (ok digest, w) s =
      let hashed = with_db (set_sha256 g row.id (to_hex_lower digest)) (record s { world = w }) in
      with_prefix row absolute (to_hex_lower digest) now
        (env.read_prefix absolute default_header_cap hashed.world) hashed

  -- The part of `process_row` that reads the file: the hash, the headers, and then the import.
  unfoldable pub read_and_import : FileRow → FileTimeUtc → Run W → Option PipelineFatal × Run W
  read_and_import row now s =
      let absolute = join_absolute c.source_root row.relative_source_path in
      with_digest row absolute now (env.sha256_file absolute s.world) s

  abbrev pub duplicate_failure : FileRow → Option PipelineFatal
  duplicate_failure row = some (record {
    exit_code = ExitCode.resume_integrity_error;
    message =
        codes "duplicate tool-owned messages found during resume for: "
        ++ utf8_from_wide row.relative_source_path;
  })

  abbrev pub after_adoption :
      FileRow → FileTimeUtc → Option Bool × Run W → Option PipelineFatal × Run W
  after_adoption row now (some true, s) = (none, s)
  after_adoption row now (some false, s) = read_and_import row now s
  after_adoption row now (none, s) = (duplicate_failure row, s)

  -- The branch on the resume mode.
  abbrev pub resume_or_read : Bool → FileRow → FileTimeUtc → Run W → Option PipelineFatal × Run W
  resume_or_read true row now s = after_adoption row now (try_adopt_existing row now s)
  resume_or_read false row now s = read_and_import row now s

  -- The time, and the file marked as started.
  abbrev pub begin_row : FileRow → Run W → FileTimeUtc × Run W
  begin_row row s =
      let (now, w) = env.now_utc s.world in
      (now, with_db (mark_started g row.id now) (record s { world = w }))

  -- `none` is nullopt: go on with the next file.
  unfoldable pub process_row : FileRow → Run W → Option PipelineFatal × Run W
  process_row row s =
      let (now, started) = begin_row row s in resume_or_read c.resume_mode row now started
