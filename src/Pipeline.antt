-- ===== src/Pipeline.antt =====
-- worker/pipeline/import_pipeline.h and import_pipeline.cpp: the import of every pending file.
-- Rows.antt has the treatment of one file, Loop.antt the loop over the files. The PST session, the
-- file system, the clock, Ctrl+C, the progress line and the errors CSV are the parameter
-- `World` over a state of its own.
pub mod Metadata
pub mod Rows
pub mod Loop
pub mod Writes
pub mod Others
pub mod Untouched
pub mod Settled
pub mod Live
pub mod Complete
pub mod Breaker
pub mod Stopping
pub mod Adoption
use eml_to_pst.Base.{ℕ, List, [], ◌∷◌, Bool, Option, none, some}
use eml_to_pst.Base.Int.{ℤ, pos}
use eml_to_pst.Base.Text.{Bytes, Wide}
use eml_to_pst.Base.Outcome.{Error, Result}
use eml_to_pst.Model.{FileTimeUtc, JobCounters, ExitCode}
use eml_to_pst.StateDb.Engine.{Engine, Db}

abbrev pub EntryId : Type 0
EntryId = Bytes

pub record MessageMetadata : Type 0 where
  pub source_relative_path : Wide
  pub sha256_hex : Bytes
  pub run_id : Bytes
  pub import_version : Bytes
  pub source_size : ℕ
  pub source_last_write_utc : FileTimeUtc
  pub mark_sent : Bool
  pub mark_draft : Bool
  pub fallback_client_submit_time : Option FileTimeUtc
  pub fallback_message_delivery_time : Option FileTimeUtc
  pub now_utc : FileTimeUtc
  pub source_declared_subject : Bool
  pub source_multipart_mixed : Bool

pub record ImportOutcome : Type 0 where
  pub entry_id : EntryId
  pub used_normalized_retry : Bool
  pub date_fallback_applied : Bool

pub record ImportFailure : Type 0 where
  pub first_hresult : ℤ
  pub second_hresult : ℤ
  pub second_attempted : Bool

pub record TrackedMessage : Type 0 where
  pub entry_id : EntryId
  pub source_relative_path : Wide
  pub sha256_hex : Bytes
  pub run_id : Bytes
  pub has_attachments : Bool

pub record ErrorsCsvRow : Type 0 where
  pub relative_source_path : Wide
  pub status : Bytes
  pub attempt_count : ℕ
  pub hresult : ℤ
  pub win32_error : ℕ
  pub target_folder : Wide
  pub source_size : ℕ
  pub sha256 : Bytes
  pub details : Bytes

pub record ProgressSnapshot : Type 0 where
  pub processed : ℕ
  pub total : ℕ
  pub imported : ℕ
  pub fallback : ℕ
  pub failed : ℕ
  pub current_folder : Wide

-- What the pipeline calls outside the state database, over the state `W` of the outside world.
pub record World (W : Type 0) : Type 0 where
  pub now_utc : W → FileTimeUtc × W
  pub cancelled : W → Bool × W
  pub sha256_file : Wide → W → Result Bytes × W
  pub read_prefix : Wide → ℕ → W → Option Bytes × W
  pub ensure_folder : List Wide → W → Result EntryId × W
  pub read_tracked_messages : EntryId → W → Result (List TrackedMessage) × W
  pub import_eml : EntryId → Wide → MessageMetadata → W → Result ImportOutcome × ImportFailure × W
  pub import_fallback : EntryId → Wide → MessageMetadata → ℤ → ℤ → W → Result ImportOutcome × W
  pub update_progress : ProgressSnapshot → W → W
  pub append_csv : ErrorsCsvRow → W → W

pub record PipelineFatal : Type 0 where
  pub exit_code : ExitCode
  pub message : Bytes

pub record PipelineResult : Type 0 where
  pub counters : JobCounters
  pub failed_mapi : ℕ
  pub cancelled : Bool
  pub fatal : Option PipelineFatal
  pub warnings : List Bytes

-- The settings of the context: what the run does not change.
pub record Settings : Type 0 where
  pub source_root : Wide
  pub run_id : Bytes
  pub tool_version : Bytes
  pub resume_mode : Bool
  pub db_batch_size : ℕ
  pub circuit_breaker_threshold : ℕ

-- The members of `PipelineRun`, the database and the world that its context points to.
pub record Run (W : Type 0) : Type 0 where
  pub world : W
  pub db : Db
  pub folder_ids : List (Wide × EntryId)
  pub resume_index : List (Wide × List TrackedMessage)
  pub counters_imported : ℕ
  pub counters_preserved : ℕ
  pub counters_failed_read : ℕ
  pub counters_failed_mapi : ℕ
  pub consecutive_systemic : ℕ
  pub warnings : List Bytes
