-- ===== src/Pipeline/Loop.antt =====
-- worker/pipeline/import_pipeline.cpp: the loop of `PipelineRun::run` over the files.
use eml_to_pst.Base.{
  ℕ, ◌+◌, List, [], ◌∷◌, ◌++◌, Bool, true, false, Option, none, some, leb, if◌then◌else◌, length,
}
use eml_to_pst.Base.Text.{codes}
use eml_to_pst.Base.Outcome.{Error, Result, ok, err, make_error}
use eml_to_pst.Model.{FileImportStatus, no_counters}
use eml_to_pst.StateDb.Engine.{Engine, Db, begin_immediate, commit, rollback}
use eml_to_pst.StateDb.Queries.{FileRow, load_all_files, count_by_status, StatusCounts}
use eml_to_pst.Pipeline.{World, PipelineFatal, PipelineResult, ProgressSnapshot, Settings, Run}
use eml_to_pst.Pipeline.Rows.{process_row}

abbrev pub is_pending : FileRow → Bool
is_pending row = elim (row.status) [ FileImportStatus.pending ↦ true | _ ↦ false ]

unfoldable pub count_done : List FileRow → ℕ
count_done [] = 0
count_done (r ∷ rs) = (if is_pending r then 0 else 1) + count_done rs

-- `fatal_db`; the number of the SQLite error, which the source adds to the text, is left out.
abbrev pub fatal_db : Error → Error
fatal_db e = make_error e.operation (codes "state database failure: " ++ e.message)

-- The variables of the loop; `batch` is whether a batch is open, `batch_open` the files in it.
pub record LoopState (W : Type 0) : Type 0 where
  pub run : Run W
  pub processed : ℕ
  pub batch : Bool
  pub batch_open : ℕ

-- How the loop ends: after the last file, by Ctrl+C, by a fatal condition, or because the database
-- failed, which returns at once.
pub data Ending : Type 0 where
  all_done cancelled : Ending
  stopped : PipelineFatal → Ending
  db_failed : Error → Ending

module _ {W : Type 0} (g : Engine) (c : Settings) (env : World W) where
  abbrev pub batch_begun : LoopState W → Result (Unit {0}) × Db → Result (LoopState W) × Db
  batch_begun s (err e, db) = (err e, db)
  batch_begun s (ok u, db) =
      (ok (record s { run = record (s.run) { db = db }; batch = true; batch_open = 0 }), db)

  -- A batch is begun where none is open. The database is returned beside the state, for errors.
  abbrev pub batch_if : Bool → LoopState W → Result (LoopState W) × Db
  batch_if true s = (ok s, s.run.db)
  batch_if false s = batch_begun s (begin_immediate g s.run.db)

  abbrev pub ensure_batch : LoopState W → Result (LoopState W) × Db
  ensure_batch s = batch_if s.batch s

  abbrev pub closed : LoopState W → Result (Unit {0}) × Db → Result (LoopState W) × Db
  closed s (err e, db) = (err e, db)
  closed s (ok u, db) = (ok (record s { run = record (s.run) { db = db }; batch = false }), db)

  -- The batch is committed once it is full.
  abbrev pub close_full : LoopState W → Result (LoopState W) × Db
  close_full s =
      if leb c.db_batch_size s.batch_open then closed s (commit g s.run.db) else (ok s, s.run.db)

  abbrev pub snapshot : ℕ → FileRow → LoopState W → ProgressSnapshot
  snapshot total row s = record {
    processed = s.processed;
    total = total;
    imported = s.run.counters_imported;
    fallback = s.run.counters_preserved;
    failed = s.run.counters_failed_read + s.run.counters_failed_mapi;
    current_folder = row.target_folder_path;
  }

  abbrev pub show : ℕ → FileRow → LoopState W → LoopState W
  show total row s = record s {
    run = record (s.run) { world = env.update_progress (snapshot total row s) s.run.world };
  }

  -- An early return on a failure of the database: the batch that is open is rolled back.
  abbrev pub give_up : LoopState W → Error → Db → Ending × LoopState W
  give_up s e db = (
    Ending.db_failed (fatal_db e),
    record s { run = record (s.run) { db = rollback db }; batch = false },
  )

  abbrev pub counted : LoopState W → Run W → LoopState W
  counted s run = record s { run = run; processed = s.processed + 1; batch_open = s.batch_open + 1 }

  -- What a round of the loop comes to: the loop goes on, or ends.
  pub data Round : Type 0 where
    on : LoopState W → Round
    out : Ending → LoopState W → Round

  abbrev pub after_close : ℕ → FileRow → LoopState W → Result (LoopState W) × Db → Round
  after_close total row s (err e, db) = let (end, s') = give_up s e db in Round.out end s'
  after_close total row s (ok t, db) = Round.on (show total row t)

  abbrev pub after_row : ℕ → FileRow → LoopState W → Option PipelineFatal × Run W → Round
  after_row total row s (some fatal, run) =
      Round.out (Ending.stopped fatal) (record s { run = run })
  after_row total row s (none, run) =
      after_close total row (counted s run) (close_full (counted s run))

  abbrev pub after_begin : ℕ → FileRow → LoopState W → Result (LoopState W) × Db → Round
  after_begin total row s (err e, db) = let (end, s') = give_up s e db in Round.out end s'
  after_begin total row s (ok t, db) = after_row total row t (process_row g c env row t.run)

  abbrev pub asked : LoopState W → W → LoopState W
  asked s w = record s { run = record (s.run) { world = w } }

  -- A round for a file that is pending.
  unfoldable pub round : ℕ → FileRow → LoopState W → Round
  round total row s =
      let (stop, w) = env.cancelled s.run.world in
      if stop
      then Round.out Ending.cancelled (asked s w)
      else after_begin total row (asked s w) (ensure_batch (asked s w))

  abbrev pub continue_with : (LoopState W → Ending × LoopState W) → Round → Ending × LoopState W
  continue_with rest (Round.on t) = rest t
  continue_with rest (Round.out end t) = (end, t)

  unfoldable pub loop : ℕ → List FileRow → LoopState W → Ending × LoopState W
  loop total [] s = (Ending.all_done, s)
  loop total (row ∷ rows) s =
      let rest = loop total rows in
      if is_pending row then continue_with rest (round total row s) else rest s

  abbrev pub cancelled_by : Ending → Bool
  cancelled_by Ending.cancelled = true
  cancelled_by _ = false

  abbrev pub fatal_of : Ending → Option PipelineFatal
  fatal_of (Ending.stopped fatal) = some fatal
  fatal_of _ = none

  abbrev pub result_of : Ending → Run W → StatusCounts → PipelineResult
  result_of end run counts = record {
    counters = record no_counters {
      imported_normally = counts.imported;
      preserved_as_attachment = counts.preserved;
      failed_to_read = counts.failed_read;
    };
    failed_mapi = counts.failed_mapi;
    cancelled = cancelled_by end;
    fatal = fatal_of end;
    warnings = run.warnings;
  }

  abbrev pub with_counts : Ending → Run W → Result StatusCounts × Db → Result PipelineResult × Run W
  with_counts end run (err e, db) = (err (fatal_db e), record run { db = db })
  with_counts end run (ok counts, db) = (ok (result_of end run counts), record run { db = db })

  abbrev pub commit_if : Bool → LoopState W → Result (LoopState W) × Db
  commit_if true s = closed s (commit g s.run.db)
  commit_if false s = (ok s, s.run.db)

  abbrev pub last_commit : LoopState W → Result (LoopState W) × Db
  last_commit s = commit_if s.batch s

  abbrev pub after_last :
      Ending → LoopState W → Result (LoopState W) × Db → Result PipelineResult × Run W
  after_last end s (err e, db) = (err (fatal_db e), record (s.run) { db = rollback db })
  after_last end s (ok t, db) = with_counts end t.run (count_by_status g t.run.db)

  -- What follows the loop: the last batch is committed, and the counters are read back.
  unfoldable pub finish : Ending × LoopState W → Result PipelineResult × Run W
  finish (Ending.db_failed e, s) = (err e, s.run)
  finish (Ending.all_done, s) = after_last Ending.all_done s (last_commit s)
  finish (Ending.cancelled, s) = after_last Ending.cancelled s (last_commit s)
  finish (Ending.stopped fatal, s) = after_last (Ending.stopped fatal) s (last_commit s)

  abbrev pub fresh : W → Db → Run W
  fresh w db = record {
    world = w;
    db = db;
    folder_ids = [];
    resume_index = [];
    counters_imported = 0;
    counters_preserved = 0;
    counters_failed_read = 0;
    counters_failed_mapi = 0;
    consecutive_systemic = 0;
    warnings = [];
  }

  abbrev pub begun : List FileRow → W → Db → LoopState W
  begun rows w db = record {
    run = fresh w db;
    processed = count_done rows;
    batch = false;
    batch_open = 0;
  }

  abbrev pub after_load : W → Result (List FileRow) × Db → Result PipelineResult × Run W
  after_load w (err e, db) = (err (fatal_db e), fresh w db)
  after_load w (ok rows, db) = finish (loop (length rows) rows (begun rows w db))

  -- `run_import_pipeline`
  unfoldable pub run_import_pipeline : W → Db → Result PipelineResult × Run W
  run_import_pipeline w db = after_load w (load_all_files g db)
