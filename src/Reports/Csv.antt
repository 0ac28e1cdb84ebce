-- ===== src/Reports/Csv.antt =====
-- worker/reporting/errors_csv.h and errors_csv.cpp: the rows of the errors CSV and the writer's
-- state. The file stream is part of the state; which of its calls fail, and how much of a write
-- that fails is kept, is the parameter `Disk`.
pub mod Rows
pub mod Growth
pub mod File
use eml_to_pst.Base.{
  ℕ, zero, suc, ◌+◌, ◌-◌, ◌*◌, ◌/◌, ◌%◌, ◌^◌, List, [], ◌∷◌, ◌++◌, Bool, true, false, not, ◌&&◌,
  ◌||◌, ltb, leb, ◌==◌, if◌then◌else◌, take,
}
use eml_to_pst.Base.Int.{ℤ, pos, negsuc}
use eml_to_pst.Base.Text.{Bytes, Wide, codes}
use eml_to_pst.Base.Outcome.{Status, Error, Result, ok, err, make_error}
use eml_to_pst.Base.Numbers.{decimal}
use eml_to_pst.Pipeline.{ErrorsCsvRow}

abbrev pub header_fields : List Bytes
header_fields =
    codes "relative_source_path"
    ∷ codes "status"
    ∷ codes "attempt_count"
    ∷ codes "hresult"
    ∷ codes "win32_error"
    ∷ codes "target_folder"
    ∷ codes "source_size"
    ∷ codes "sha256"
    ∷ codes "details"
    ∷ []

abbrev pub bom : Bytes
bom = 0xEF ∷ 0xBB ∷ 0xBF ∷ []

-- `kHeader`.
abbrev pub header_line : Bytes
header_line =
    codes
      "relative_source_path,status,attempt_count,hresult,win32_error,target_folder,source_size,sha256,details"

unfoldable pub append_utf8_codepoint : Bytes → ℕ → Bytes
append_utf8_codepoint out cp =
    if leb cp 0x7F
    then out ++ cp ∷ []
    else if leb cp 0x7FF
    then out ++ (0xC0 + cp / 64) ∷ (0x80 + cp % 64) ∷ []
    else if leb cp 0xFFFF
    then out ++ (0xE0 + cp / 4096) ∷ (0x80 + cp / 64 % 64) ∷ (0x80 + cp % 64) ∷ []
    else out
      ++ (0xF0 + cp / 262144)
        ∷ (0x80 + cp / 4096 % 64)
        ∷ (0x80 + cp / 64 % 64)
        ∷ (0x80 + cp % 64)
        ∷ []

abbrev is_high : ℕ → Bool
is_high unit = leb 0xD800 unit && leb unit 0xDBFF

abbrev is_low : ℕ → Bool
is_low unit = leb 0xDC00 unit && leb unit 0xDFFF

abbrev lone : ℕ → ℕ
lone unit = if is_high unit || is_low unit then 0xFFFD else unit

-- The loop of `wide_to_utf8`, behind what has been written.
unfoldable pub utf8_onto : Bytes → Wide → Bytes
utf8_onto out [] = out
utf8_onto out (u ∷ []) = append_utf8_codepoint out (lone u)
utf8_onto out (u ∷ v ∷ us) =
    let paired =
      utf8_onto (append_utf8_codepoint out (0x10000 + (u - 0xD800) * 1024 + (v - 0xDC00))) us in
    let alone = utf8_onto (append_utf8_codepoint out (lone u)) (v ∷ us) in
    if is_high u && is_low v then paired else alone

unfoldable pub wide_to_utf8 : Wide → Bytes
wide_to_utf8 s = utf8_onto [] s

unfoldable pub needs_quote : Bytes → Bool
needs_quote [] = false
needs_quote (c ∷ cs) = c == b',' || c == b'"' || c == b'\r' || c == b'\n' || needs_quote cs

unfoldable pub double_quotes : Bytes → Bytes
double_quotes [] = []
double_quotes (c ∷ cs) = let rest = c ∷ double_quotes cs in if c == b'"' then b'"' ∷ rest else rest

unfoldable pub csv_escape : Bytes → Bytes
csv_escape field = if needs_quote field then b'"' ∷ double_quotes field ++ b'"' ∷ [] else field

abbrev upper_hex_digit : ℕ → ℕ
upper_hex_digit n = if ltb n 10 then 48 + n else 55 + n

-- %0nX: the last `n` hexadecimal digits.
unfoldable pub upper_hex : ℕ → ℕ → Bytes
upper_hex zero v = []
upper_hex (suc n) v = upper_hex n (v / 16) ++ upper_hex_digit (v % 16) ∷ []

-- The conversion of an `int32_t` to `uint32_t`.
abbrev unsigned_32 : ℤ → ℕ
unsigned_32 (pos n) = n % 2 ^ 32
unsigned_32 (negsuc n) = (2 ^ 32 - 1) - n % 2 ^ 32

unfoldable pub format_hresult : ℤ → Bytes
unfolding upper_hex
format_hresult hresult =
    let unsigned = unsigned_32 hresult in
    if unsigned == 0 then [] else codes "0x" ++ upper_hex 8 unsigned

unfoldable pub format_win32 : ℕ → Bytes
format_win32 win32_error = if win32_error == 0 then [] else decimal win32_error

-- The fields of a row before they are escaped.
abbrev pub row_fields : ErrorsCsvRow → List Bytes
row_fields row =
    wide_to_utf8 row.relative_source_path
    ∷ row.status
    ∷ decimal row.attempt_count
    ∷ format_hresult row.hresult
    ∷ format_win32 row.win32_error
    ∷ wide_to_utf8 row.target_folder
    ∷ decimal row.source_size
    ∷ row.sha256
    ∷ row.details
    ∷ []

-- Whether the n-th call of the stream succeeds, and how many bytes of a write that fails it takes.
pub record Disk : Type 0 where
  pub succeeds : ℕ → Bool
  pub takes : ℕ → ℕ

-- `ofs_` with the bytes that it has taken for the file, and `created_`.
pub record Writer : Type 0 where
  pub is_open : Bool
  pub failed : Bool
  pub taken : Bytes
  pub calls : ℕ
  pub created : Bool

abbrev pub new_writer : Writer
new_writer = record { is_open = false; failed = false; taken = []; calls = 0; created = false }

module _ (disk : Disk) where
  abbrev fails : Writer → Writer
  fails w = record w { failed = true; calls = w.calls + 1 }

  -- `ofs_.open` with trunc: it fails on a stream that is open, and clears the state otherwise.
  unfoldable pub open_stream : Writer → Writer
  open_stream w =
      if w.is_open
      then record w { failed = true }
      else if disk.succeeds w.calls
      then record w { is_open = true; failed = false; taken = []; calls = w.calls + 1 }
      else fails w

  -- A stream that has failed takes nothing, and one that is not open fails.
  unfoldable pub write_bytes : Bytes → Writer → Writer
  write_bytes bytes w =
      if w.failed || not w.is_open
      then record w { failed = true }
      else if disk.succeeds w.calls
      then record w { taken = w.taken ++ bytes; calls = w.calls + 1 }
      else record (fails w) { taken = w.taken ++ take (disk.takes w.calls) bytes }

  -- The result behind the header, for a stream that has failed and one that has not.
  abbrev pub created_or_error : Bool → Writer → Status × Writer
  created_or_error true w = (
    err (
        make_error (codes "ErrorsCsvWriter::ensure_created")
          (codes "failed to write errors CSV header")),
    w,
  )
  created_or_error false w = (ok tt, record w { created = true })

  abbrev pub put_header : Writer → Writer
  put_header w = write_bytes (codes "\r\n") (write_bytes header_line (write_bytes bom w))

  abbrev pub with_header : Bool → Writer → Status × Writer
  with_header true w = (
    err (
        make_error (codes "ErrorsCsvWriter::ensure_created")
          (codes "failed to open errors CSV for writing")),
    w,
  )
  with_header false w = created_or_error (put_header w).failed (put_header w)

  abbrev pub open_unless : Bool → Writer → Status × Writer
  open_unless true w = (ok tt, w)
  open_unless false w = let opened = open_stream w in with_header opened.failed opened

  unfoldable pub ensure_created : Writer → Status × Writer
  ensure_created w = open_unless w.created w

  -- The fields behind the first, each behind a comma, and the end of the line.
  unfoldable pub write_more : List Bytes → Writer → Writer
  write_more [] w = write_bytes (codes "\r\n") w
  write_more (f ∷ fs) w = write_more fs (write_bytes (csv_escape f) (write_bytes (codes ",") w))

  abbrev pub write_row : List Bytes → Writer → Writer
  write_row [] w = write_more [] w
  write_row (f ∷ fs) w = write_more fs (write_bytes (csv_escape f) w)

  abbrev pub appended_or_error : Bool → Writer → Status × Writer
  appended_or_error true w = (
    err (make_error (codes "ErrorsCsvWriter::append") (codes "failed to write errors CSV row")),
    w,
  )
  appended_or_error false w = (ok tt, w)

  abbrev pub after_created : ErrorsCsvRow → Status × Writer → Status × Writer
  after_created row (err e, w) = (err e, w)
  after_created row (ok u, w) =
      let written = write_row (row_fields row) w in appended_or_error written.failed written

  unfoldable pub append : ErrorsCsvRow → Writer → Status × Writer
  append row w = after_created row (ensure_created w)

  -- A call that fails, or a stream that has failed, leaves the failure.
  abbrev call : Writer → Writer
  call w = if disk.succeeds w.calls then record w { calls = w.calls + 1 } else fails w

  abbrev close_error : Bytes → Status
  close_error message = err (make_error (codes "ErrorsCsvWriter::close") message)

  abbrev closed : Writer → Status × Writer
  closed w =
      let after = record (call w) { is_open = false } in
      if after.failed
      then (close_error (codes "failed to close errors CSV"), after)
      else (ok tt, after)

  unfoldable pub close : Writer → Status × Writer
  close w =
      if not w.is_open
      then (ok tt, w)
      else if (call w).failed
      then (close_error (codes "failed to flush errors CSV"), call w)
      else closed (call w)
