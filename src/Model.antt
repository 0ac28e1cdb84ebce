-- ===== src/Model.antt =====
-- common/model.h, common/model.cpp, common/exit_codes.h and common/exit_codes.cpp: the statuses of
-- a file and of a validation, the exit codes, and the names and numbers that they are stored under.
pub mod Names
use eml_to_pst.Base.{ℕ, List, [], ◌∷◌, Bool, Option, none, some, if◌then◌else◌, ◌*◌, ◌+◌}
use eml_to_pst.Base.Int.{ℤ, pos, ◌+ℤ◌, ◌*ℤ◌}
use eml_to_pst.Base.Text.{Bytes, Wide, codes, text_eq}

pub data FileImportStatus : Type 0 where
  pending imported preserved_as_attachment failed_source_read failed_mapi : FileImportStatus

pub data ValidationStatus : Type 0 where
  validated validated_with_fallbacks validation_failed : ValidationStatus

-- `FileTimeUtc`: ticks of 100 nanoseconds since 1601-01-01, a signed 64-bit number.
abbrev pub FileTimeUtc : Type 0
FileTimeUtc = ℤ

abbrev pub filetime_ticks_per_second : ℕ
filetime_ticks_per_second = 10000000

abbrev pub filetime_unix_epoch : ℕ
filetime_unix_epoch = 116444736000000000

unfoldable pub filetime_from_unix_seconds : ℤ → FileTimeUtc
filetime_from_unix_seconds s = s *ℤ pos filetime_ticks_per_second +ℤ pos filetime_unix_epoch

pub record ManifestEntry : Type 0 where
  pub relative_path : Wide
  pub absolute_path : Wide
  pub size : ℕ
  pub last_write_utc : FileTimeUtc

pub record JobCounters : Type 0 where
  pub source_files : ℕ
  pub source_folders : ℕ
  pub source_bytes : ℕ
  pub imported_normally : ℕ
  pub preserved_as_attachment : ℕ
  pub failed_to_read : ℕ
  pub output_folders : ℕ

abbrev pub no_counters : JobCounters
no_counters = record {
  source_files = 0;
  source_folders = 0;
  source_bytes = 0;
  imported_normally = 0;
  preserved_as_attachment = 0;
  failed_to_read = 0;
  output_folders = 0;
}

abbrev pub conversion_errors_folder_name : Wide
conversion_errors_folder_name = codes "_Conversion Errors"

unfoldable pub status_name : FileImportStatus → Bytes
status_name FileImportStatus.pending = codes "PENDING"
status_name FileImportStatus.imported = codes "IMPORTED"
status_name FileImportStatus.preserved_as_attachment = codes "PRESERVED_AS_ATTACHMENT"
status_name FileImportStatus.failed_source_read = codes "FAILED_SOURCE_READ"
status_name FileImportStatus.failed_mapi = codes "FAILED_MAPI"

-- `none` is the result false.
unfoldable pub file_import_status_from_string : Bytes → Option FileImportStatus
file_import_status_from_string text =
    if text_eq text (codes "PENDING")
    then some FileImportStatus.pending
    else if text_eq text (codes "IMPORTED")
    then some FileImportStatus.imported
    else if text_eq text (codes "PRESERVED_AS_ATTACHMENT")
    then some FileImportStatus.preserved_as_attachment
    else if text_eq text (codes "FAILED_SOURCE_READ")
    then some FileImportStatus.failed_source_read
    else if text_eq text (codes "FAILED_MAPI")
    then some FileImportStatus.failed_mapi
    else none

unfoldable pub validation_name : ValidationStatus → Bytes
validation_name ValidationStatus.validated = codes "VALIDATED"
validation_name ValidationStatus.validated_with_fallbacks = codes "VALIDATED_WITH_FALLBACKS"
validation_name ValidationStatus.validation_failed = codes "VALIDATION_FAILED"

pub data ExitCode : Type 0 where
  success success_with_fallbacks success_with_read_failures invalid_arguments : ExitCode
  invalid_source output_exists insufficient_disk_space outlook_unavailable : ExitCode
  bitness_mismatch pst_provider_failure pst_size_ceiling_exceeded output_write_failure : ExitCode
  validation_failed state_db_incompatible source_changed resume_integrity_error : ExitCode
  profile_cleanup_failure cancelled : ExitCode

unfoldable pub exit_number : ExitCode → ℕ
exit_number ExitCode.success = 0
exit_number ExitCode.success_with_fallbacks = 2
exit_number ExitCode.success_with_read_failures = 3
exit_number ExitCode.invalid_arguments = 10
exit_number ExitCode.invalid_source = 11
exit_number ExitCode.output_exists = 12
exit_number ExitCode.insufficient_disk_space = 13
exit_number ExitCode.outlook_unavailable = 14
exit_number ExitCode.bitness_mismatch = 15
exit_number ExitCode.pst_provider_failure = 16
exit_number ExitCode.pst_size_ceiling_exceeded = 17
exit_number ExitCode.output_write_failure = 18
exit_number ExitCode.validation_failed = 19
exit_number ExitCode.state_db_incompatible = 20
exit_number ExitCode.source_changed = 21
exit_number ExitCode.resume_integrity_error = 22
exit_number ExitCode.profile_cleanup_failure = 23
exit_number ExitCode.cancelled = 130

unfoldable pub exit_name : ExitCode → Bytes
exit_name ExitCode.success = codes "SUCCESS"
exit_name ExitCode.success_with_fallbacks = codes "SUCCESS_WITH_FALLBACKS"
exit_name ExitCode.success_with_read_failures = codes "SUCCESS_WITH_READ_FAILURES"
exit_name ExitCode.invalid_arguments = codes "INVALID_ARGUMENTS"
exit_name ExitCode.invalid_source = codes "INVALID_SOURCE"
exit_name ExitCode.output_exists = codes "OUTPUT_EXISTS"
exit_name ExitCode.insufficient_disk_space = codes "INSUFFICIENT_DISK_SPACE"
exit_name ExitCode.outlook_unavailable = codes "OUTLOOK_UNAVAILABLE"
exit_name ExitCode.bitness_mismatch = codes "BITNESS_MISMATCH"
exit_name ExitCode.pst_provider_failure = codes "PST_PROVIDER_FAILURE"
exit_name ExitCode.pst_size_ceiling_exceeded = codes "PST_SIZE_CEILING_EXCEEDED"
exit_name ExitCode.output_write_failure = codes "OUTPUT_WRITE_FAILURE"
exit_name ExitCode.validation_failed = codes "VALIDATION_FAILED"
exit_name ExitCode.state_db_incompatible = codes "STATE_DB_INCOMPATIBLE"
exit_name ExitCode.source_changed = codes "SOURCE_CHANGED"
exit_name ExitCode.resume_integrity_error = codes "RESUME_INTEGRITY_ERROR"
exit_name ExitCode.profile_cleanup_failure = codes "PROFILE_CLEANUP_FAILURE"
exit_name ExitCode.cancelled = codes "CANCELLED"
