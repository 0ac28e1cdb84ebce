-- ===== src/Lib.antt =====
-- EML-to-PST: a worker that imports a tree of EML files into an Outlook PST, file by file, with a
-- SQLite database from which a run that broke off is resumed.
--
-- The parts and how they work together. `run_import_pipeline` (src/worker/pipeline) reads the files
-- from the state database (src/worker/resume), and for each pending one hashes it, inspects its
-- headers (src/worker/headers), derives dates (src/worker/dates) and sent or draft marks
-- (src/worker/folder_mapping), and calls the PST session (src/worker/mapi). A file that cannot be
-- converted is kept as an attachment; what was done is written back to the database in batches.
-- The MAPI session repairs header texts with src/worker/normalize before a second attempt.
--
-- Files:
--   Base               lists, integers, texts, errors and results
--   Model              src/common/model.h, model.cpp, exit_codes.h, exit_codes.cpp
--   Unicode, Paths     src/common/unicode/utf.cpp, src/common/paths/path_utils.cpp
--   Lines              the split into lines that the two readers of headers share
--   Headers, Normalize src/worker/headers/header_inspector.cpp, src/worker/normalize/eml_normalizer.cpp
--   Dates              src/worker/dates/date_parser.cpp
--   Folders            src/worker/folder_mapping/folder_aliases.cpp, folder_collapse.cpp,
--                      folder_mapper.cpp
--   StateDb            src/worker/resume/state_db.cpp and the transactions and text conversions of
--                      sqlite_util.cpp: Columns has the conversions between wide texts and TEXT
--                      columns, Tables the rows, Engine the statements and transactions, Creation,
--                      Lifecycle and Queries the operations, the other files what is proved of them
--   Pipeline           src/worker/pipeline/import_pipeline.cpp and the data of
--                      src/worker/import_engine.h: Metadata and Rows have one file, Loop the run,
--                      the other files what is proved of them
--   Cli                src/worker/cli/cli_options.h, cli_options.cpp
--   Reports            src/worker/reporting/json_writer.cpp, errors_csv.cpp
--   Scanner            src/worker/scanner/scanner.cpp (the walk, and Text its conversions) and
--                      manifest_hash.cpp (Manifest)
--   Sha256             src/common/hashing/sha256_portable.cpp
--   Tests              runs on concrete inputs
-- Functions keep the names of the source; members of a class are fields of a record that is passed
-- along (`Run` for PipelineRun, `Db` for the connection and its transaction).
--
-- Bounds. Most loops are structural recursion on the text, the rows or the manifest. Fuel bounds the
-- digits of a number (its value and one), the suffixes of a folder's name (the names in use and one),
-- the rounds of the folder mapper (the nodes of its tree) and the directories of a scan (those down
-- to the greatest depth), the bytes and the zeros that a hash takes (as many as there are, and 64);
-- theorems say that each is enough. Texts are lists of numbers: bytes, or UTF-16 code units in the
-- build for Windows. Numbers of the dates are integers without a bound, which theorems say fit 64
-- bits; the sum with the current time wraps around. Counters and sizes are natural numbers; a size is
-- refused from 2^63 on, as bind_uint64 refuses it.
--
-- Parameters. Which SQL statements fail, and the clock of the database, are `Engine`: a statement
-- that fails changes nothing, and a ROLLBACK always succeeds. The PST session, the file system, the
-- clock, Ctrl+C, progress and the errors CSV are `World`, over a state of its own. What the C locale
-- says of a code unit is `Locale`. The answers of the file system to a scan are `FileSystem`, asked by
-- the UTF-8 texts that the program gives to and takes from std::filesystem::path; which calls of a
-- file stream fail is `Disk`, and the text of a double is `to_chars`.
--
-- Not modelled: what std::filesystem::path does with a UTF-8 text; logging, the rate of the progress
-- line and the numbers that messages contain; the MAPI layer and the Windows calls; bundled
-- third-party code; exceptions of the standard library; a rollback that SQLite does by itself when a
-- statement fails, and one that fails. Preflight, the validator, the report, the worker application
-- and the launcher are left out as well.
pub mod Base
pub mod Cli
pub mod Model
pub mod StateDb
pub mod Lines
pub mod Headers
pub mod Normalize
pub mod Dates
pub mod Unicode
pub mod Paths
pub mod Folders
pub mod Pipeline
pub mod Reports
pub mod Scanner
pub mod Sha256
pub mod Tests
