-- ===== src/Pipeline/Metadata.antt =====
-- worker/pipeline/import_pipeline.cpp: paths, dates and marks of one file, and `to_hex_lower` of
-- common/hashing/sha256.cpp.
use eml_to_pst.Base.{
  ℕ, ◌+◌, ◌-◌, ◌/◌, ◌%◌, List, [], ◌∷◌, ◌++◌, Bool, true, false, not, ◌&&◌, ◌||◌, Option, none,
  some, leb, if◌then◌else◌, take, map,
}
use eml_to_pst.Base.Text.{Bytes, Wide, codes, text_eq, split_on}
use eml_to_pst.Model.{FileTimeUtc}
use eml_to_pst.Dates.{parse_rfc5322_date_bounded}
use eml_to_pst.Folders.Aliases.{path_has_sent_component, path_has_drafts_component}
use eml_to_pst.Headers.{
  HeaderInspection, first_value, date, first_received_date_candidate, x_unsent, to_lower,
}
use eml_to_pst.Paths.{to_extended_length_path}
use eml_to_pst.StateDb.Queries.{FileRow}
use eml_to_pst.Pipeline.{MessageMetadata, Settings}

unfoldable pub split_segments : Wide → List Wide
split_segments path = split_on b'\\' path

-- The Windows build: an absolute path with the prefix for long paths.
unfoldable pub join_absolute : Wide → Wide → Wide
join_absolute root relative = to_extended_length_path (root ++ b'\\' ∷ relative)

pub record DateFallback : Type 0 where
  pub value : Option FileTimeUtc
  pub from_filesystem : Bool

-- A header's date where there is one that is in bounds, and otherwise what comes next.
abbrev date_or : Option Bytes → FileTimeUtc → DateFallback → DateFallback
date_or none now next = next
date_or (some text) now next = elim (parse_rfc5322_date_bounded text now) [
  | none ↦ next
  | some t ↦ record { value = some t; from_filesystem = false }
]

abbrev file_time : FileRow → DateFallback
file_time row = record { value = some row.source_last_write_utc; from_filesystem = true }

unfoldable pub resolve_sent_fallback : HeaderInspection → FileRow → FileTimeUtc → DateFallback
resolve_sent_fallback headers row now = date_or (date headers) now (file_time row)

unfoldable pub resolve_received_fallback : HeaderInspection → FileRow → FileTimeUtc → DateFallback
resolve_received_fallback headers row now =
    date_or (first_received_date_candidate headers) now (date_or (date headers) now (file_time row))

unfoldable pub is_systemic_operation : Bytes → Bool
is_systemic_operation operation =
    text_eq operation (codes "IMessage::SaveChanges")
    || text_eq operation (codes "IMessage::SaveChanges(fallback)")
    || text_eq operation (codes "IMAPIFolder::CreateMessage")
    || text_eq operation (codes "IMsgStore::OpenEntry(folder)")
    || text_eq operation (codes "IMAPIFolder::CreateFolder")
    || text_eq operation (codes "conversion_integrity")

abbrev hex_digit : ℕ → ℕ
hex_digit n = if leb n 9 then b'0' + n else b'a' + n - 10

-- `to_hex_lower` of common/hashing/sha256.cpp.
unfoldable pub to_hex_lower : Bytes → Bytes
to_hex_lower [] = []
to_hex_lower (b ∷ bs) = hex_digit (b / 16) ∷ hex_digit (b % 16) ∷ to_hex_lower bs

-- A content type that begins with "multipart/mixed", whatever its case.
abbrev says_mixed : Option Bytes → Bool
says_mixed none = false
says_mixed (some v) = text_eq (take 15 (map to_lower v)) (codes "multipart/mixed")

abbrev is_some {ℓ} : {A : Type ℓ} → Option A → Bool
is_some none = false
is_some (some a) = true

abbrev pub is_draft : HeaderInspection → FileRow → Bool
is_draft headers row = x_unsent headers || path_has_drafts_component row.relative_source_path

abbrev pub is_sent : HeaderInspection → FileRow → Bool
is_sent headers row = not (is_draft headers row) && path_has_sent_component row.relative_source_path

unfoldable pub fallback_of : HeaderInspection → FileRow → FileTimeUtc → DateFallback
fallback_of headers row now =
    if is_sent headers row
    then resolve_sent_fallback headers row now
    else resolve_received_fallback headers row now

abbrev unless : Bool → Option FileTimeUtc → Option FileTimeUtc
unless true t = none
unless false t = t

unfoldable pub metadata_of :
    Settings → HeaderInspection → FileRow → Bytes → FileTimeUtc → MessageMetadata
metadata_of c headers row sha_hex now = record {
  source_relative_path = row.relative_source_path;
  sha256_hex = sha_hex;
  run_id = c.run_id;
  import_version = c.tool_version;
  source_size = row.source_size;
  source_last_write_utc = row.source_last_write_utc;
  mark_sent = is_sent headers row;
  mark_draft = is_draft headers row;
  fallback_client_submit_time =
      unless (not (is_sent headers row)) (fallback_of headers row now).value;
  fallback_message_delivery_time = unless (is_sent headers row) (fallback_of headers row now).value;
  now_utc = now;
  source_declared_subject = is_some (first_value (codes "Subject") headers.fields);
  source_multipart_mixed = says_mixed (first_value (codes "Content-Type") headers.fields);
}
