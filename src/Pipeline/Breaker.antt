-- ===== src/Pipeline/Breaker.antt =====
-- The circuit breaker of worker/pipeline/import_pipeline.cpp: when repeated failures stop a run.
use mathlib.Core.Path.{subst}
use eml_to_pst.Base.{
  ℕ, ◌<◌, ◌≡◌, refl, sym, List, Bool, true, false, Option, none, some, arith, Bool-cases,
  Option-cases, inl, inr,
}
use eml_to_pst.Base.Text.{Bytes, Wide, codes, text_eq}
use eml_to_pst.Base.Int.{ℤ}
use eml_to_pst.Base.Outcome.{Error, Result, ok, err}
use eml_to_pst.Model.{FileTimeUtc, conversion_errors_folder_name}
use eml_to_pst.StateDb.Engine.{Engine}
use eml_to_pst.StateDb.Queries.{FileRow}
use eml_to_pst.Pipeline.{
  EntryId, MessageMetadata, ImportOutcome, ImportFailure, World, PipelineFatal, Settings, Run,
}
use eml_to_pst.Pipeline.Metadata
use eml_to_pst.Pipeline.Rows

-- A store in which every folder and every fallback message can be created.
pub record IsPreserving {W : Type 0} (env : World W) : Type 0 where
  pub folders :
      (path : List Wide) (w : W)
      → (id : EntryId) × ((w' : W) × (env.ensure_folder path w ≡ (ok id, w')))
  pub fallbacks :
      (folder : EntryId) (path : Wide) (m : MessageMetadata) (first second : ℤ) (w : W)
      → (o : ImportOutcome) × ((w' : W) × (env.import_fallback folder path m first second w
            ≡ (ok o, w')))

-- The run goes on, and no failure is counted.
abbrev pub IsCalm : {W : Type 0} → Option PipelineFatal × Run W → Type 0
IsCalm (o, s) = (o ≡ none) × (s.consecutive_systemic ≡ 0)

abbrev IsMade : {W : Type 0} → ℕ → Result EntryId × Run W → Type 0
IsMade n (ok id, s) = s.consecutive_systemic ≡ n
IsMade n (err e, s) = ⊥

module _ {W : Type 0} (g : Engine) (c : Settings) (env : World W)
    (threshold : 1 < c.circuit_breaker_threshold) (p : IsPreserving env) where
  ensure-IsMade :
      (target : Wide) (s : Run W)
      → IsMade s.consecutive_systemic (Rows.ensure_target_folder g c env target s)
  unfolding Rows.ensure_target_folder
  ensure-IsMade target s = elim (Option-cases (Rows.find_key target s.folder_ids)) [
    | inr (k, e) ↦ rw (Rows.ensure_target_folder, e) refl
    | inl e ↦
        let (id, (w, f)) = p.folders (Metadata.split_segments target) s.world in
        rw (Rows.ensure_target_folder, e)
          (subst (λ r. IsMade s.consecutive_systemic (Rows.folder_made g c env target r s)) (sym f)
            refl)
  ]

  fallback-IsCalm :
      (row : FileRow) (f : ImportFailure) (r : Result ImportOutcome × W) (s : Run W)
      → (o : ImportOutcome) × ((w : W) × (r ≡ (ok o, w)))
      → IsCalm (Rows.fallback_result g c env row f r s)
  unfolding Rows.after_fallback
  fallback-IsCalm row f r s (o, (w, e)) =
      subst (λ r. IsCalm (Rows.fallback_result g c env row f r s)) (sym e) (refl, refl)

  fallback_into-IsCalm :
      (row : FileRow) (absolute : Wide) (m : MessageMetadata) (f : ImportFailure) (n : ℕ)
      (r : Result EntryId × Run W)
      → IsMade n r
      → IsCalm (Rows.fallback_into g c env row absolute m f r)
  fallback_into-IsCalm row absolute m f n (err e, s) h = absurd h
  fallback_into-IsCalm row absolute m f n (ok folder, s) h =
      fallback-IsCalm row f _ s
        (p.fallbacks folder absolute m f.first_hresult f.second_hresult s.world)

  preserve-IsCalm :
      (row : FileRow) (absolute : Wide) (m : MessageMetadata) (f : ImportFailure) (s : Run W)
      → IsCalm (Rows.preserve g c env row absolute m f s)
  unfolding Rows.preserve
  preserve-IsCalm row absolute m f s =
      fallback_into-IsCalm row absolute m f s.consecutive_systemic _
        (ensure-IsMade conversion_errors_folder_name s)

  first_failure_passes :
      (operation : Bytes) (s : Run W)
      → s.consecutive_systemic ≡ 0
      → (Rows.count_systemic g c env operation s).0 ≡ false
  first_failure_passes operation s h = ground arith

  failure-IsCalm :
      (row : FileRow) (absolute : Wide) (m : MessageMetadata) (now : FileTimeUtc) (e : Error)
      (f : ImportFailure) (s : Run W)
      → s.consecutive_systemic ≡ 0
      → IsCalm (Rows.after_import_failure g c env row absolute m now e f s)
  unfolding Rows.after_import_failure Rows.record_read_failure
  failure-IsCalm row absolute m now e f s h =
      elim (Bool-cases (text_eq e.operation (codes "SHCreateStreamOnFileEx"))) [
        | inl k ↦ rw k (refl, h)
        | inr k ↦
            rw (k, first_failure_passes e.operation s h)
              (preserve-IsCalm row absolute m f (Rows.count_systemic g c env e.operation s).1)
      ]

  after_import-IsCalm :
      (row : FileRow) (absolute : Wide) (m : MessageMetadata) (from_fs : Bool) (now : FileTimeUtc)
      (r : Result ImportOutcome × ImportFailure × W) (s : Run W)
      → s.consecutive_systemic ≡ 0
      → IsCalm (Rows.after_import g c env row absolute m from_fs now r s)
  unfolding Rows.after_import_success
  after_import-IsCalm row absolute m from_fs now (ok o, f, w) s h = (refl, refl)
  after_import-IsCalm row absolute m from_fs now (err e, f, w) s h =
      failure-IsCalm row absolute m now e f (record s { world = w }) h

  import_into-IsCalm :
      (row : FileRow) (absolute : Wide) (m : MessageMetadata) (from_fs : Bool) (now : FileTimeUtc)
      (r : Result EntryId × Run W)
      → IsMade 0 r
      → IsCalm (Rows.import_into g c env row absolute m from_fs now r)
  import_into-IsCalm row absolute m from_fs now (err e, s) h = absurd h
  import_into-IsCalm row absolute m from_fs now (ok folder, s) h =
      after_import-IsCalm row absolute m from_fs now (env.import_eml folder absolute m s.world) s h

  prefix-IsCalm :
      (row : FileRow) (absolute : Wide) (sha_hex : Bytes) (now : FileTimeUtc) (r : Option Bytes × W)
      (s : Run W)
      → s.consecutive_systemic ≡ 0
      → IsCalm (Rows.with_prefix g c env row absolute sha_hex now r s)
  unfolding Rows.import_row Rows.record_read_failure
  prefix-IsCalm row absolute sha_hex now (none, w) s h = (refl, h)
  prefix-IsCalm row absolute sha_hex now (some b, w) s h =
      import_into-IsCalm row absolute _ _ now _ (
        subst
          (λ n.
            IsMade n
              (Rows.ensure_target_folder g c env row.target_folder_path (record s { world = w })))
          h (ensure-IsMade row.target_folder_path (record s { world = w })))

  digest-IsCalm :
      (row : FileRow) (absolute : Wide) (now : FileTimeUtc) (r : Result Bytes × W) (s : Run W)
      → s.consecutive_systemic ≡ 0
      → IsCalm (Rows.with_digest g c env row absolute now r s)
  unfolding Rows.record_read_failure
  digest-IsCalm row absolute now (err e, w) s h = (refl, h)
  digest-IsCalm row absolute now (ok d, w) s h =
      prefix-IsCalm row absolute (Metadata.to_hex_lower d) now _ _ h

  resume-IsCalm :
      (resume : Bool) (row : FileRow) (now : FileTimeUtc) (s : Run W)
      → resume ≡ false
      → s.consecutive_systemic ≡ 0
      → IsCalm (Rows.resume_or_read g c env resume row now s)
  unfolding Rows.read_and_import
  resume-IsCalm true row now s r h = absurd (cc)
  resume-IsCalm false row now s r h = digest-IsCalm row _ now (env.sha256_file _ s.world) s h

  -- From a count of 0 and with a threshold above 1, a store that can create folders and fallback
  -- messages never trips the breaker: outside the resume mode every file lets the run go on and
  -- leaves the count at 0, however and however often the import fails.
  pub preserved_never_counts :
      (row : FileRow) (s : Run W)
      → c.resume_mode ≡ false
      → s.consecutive_systemic ≡ 0
      → IsCalm (Rows.process_row g c env row s)
  unfolding Rows.process_row
  preserved_never_counts row s r h =
      let (now, t) = Rows.begin_row g c env row s in resume-IsCalm c.resume_mode row now t r h
