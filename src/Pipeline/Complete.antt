-- ===== src/Pipeline/Complete.antt =====
-- A run of worker/pipeline/import_pipeline.cpp, and its result, on a database that does not fail.
use mathlib.Core.Path.{subst}
use mathlib.Core.Option.{some-injective}
use eml_to_pst.Base.{
  ℕ, ◌+◌, ◌≡◌, refl, sym, ◌∙◌, List, [], ◌∷◌, Bool, true, false, none, some, arith, Bool-cases, inl,
  inr, length,
}
use eml_to_pst.Base.Text.{text_eq_iff}
use eml_to_pst.Base.Outcome.{Result, ok, err}
use eml_to_pst.Model.{FileImportStatus, status_name, file_import_status_from_string}
use eml_to_pst.Model.Names.{from_string_iff}
use eml_to_pst.StateDb.Tables.{FileRecord}
use eml_to_pst.StateDb.Engine.{Engine, Db, tick, select}
use eml_to_pst.StateDb.Queries.{
  FileRow, read_rows, row_of, StatusCounts, load_all_files, count_by_status, read_counts,
  group_by_status, no_counts,
}
use eml_to_pst.StateDb.Known.{read_rows-AreKnown, read_onto}
use eml_to_pst.StateDb.Counts.{
  AreKnown, counted, number_of, number_of-sum, read_counts-number_of, Counted, counts_read_ok,
}
use eml_to_pst.Pipeline.{World, PipelineResult, Settings, Run}
use eml_to_pst.Pipeline.Loop
use eml_to_pst.Pipeline.Loop.{LoopState, Ending, is_pending, run_import_pipeline}
use eml_to_pst.Pipeline.Settled.{Works, is_waiting}
use eml_to_pst.Pipeline.Others.{is_named, or_right, named_first}
use eml_to_pst.Pipeline.Live.{
  clash, Wait, IsOpen, IsReady, Live, LiveEnd, LiveRound, Closed, skip-Wait, commit-Closed,
  round-Live,
}

-- The counters are the numbers of records with each status, and without Ctrl+C and without a
-- fatal condition they add up to all files.
pub record IsComplete (r : PipelineResult) (files : List FileRecord) : Type 0 where
  pub imported_eq :
      r.counters.imported_normally ≡ number_of (status_name FileImportStatus.imported) files
  pub preserved_eq :
      r.counters.preserved_as_attachment
      ≡ number_of (status_name FileImportStatus.preserved_as_attachment) files
  pub failed_to_read_eq :
      r.counters.failed_to_read ≡ number_of (status_name FileImportStatus.failed_source_read) files
  pub failed_mapi_eq : r.failed_mapi ≡ number_of (status_name FileImportStatus.failed_mapi) files
  pub all_counted :
      r.cancelled ≡ false
      → r.fatal ≡ none
      → r.counters.imported_normally + r.counters.preserved_as_attachment
          + r.counters.failed_to_read + r.failed_mapi
        ≡ length files

some≢none {ℓ} : {A : Type ℓ} {a : A} → some a ≡ none → ⊥
some≢none h = cc

Wait-none :
    (rs : List FileRecord) → Wait [] rs → number_of (status_name FileImportStatus.pending) rs ≡ 0
unfolding number_of is_named
Wait-none [] w = refl
Wait-none (r ∷ rs) (h, w) = elim (Bool-cases (is_waiting r)) [
  | inl e ↦ absurd (clash refl (h e))
  | inr e ↦ let rest = Wait-none rs w in rw e (omega arith)
]

-- A result, with true counters, where nothing is left over after the last file.
abbrev pub Completes : {W : Type 0} → Result PipelineResult × Run W → Type 0
Completes (ok r, run) = IsComplete r run.db.tables.files
Completes (err e, run) = ⊥

-- What the ending says of the files.
abbrev Leaves : Ending → List FileRecord → Type 0
Leaves Ending.all_done files = Wait [] files
Leaves (Ending.db_failed e) files = ⊥
Leaves _ files = Unit

module _ {W : Type 0} (g : Engine) (c : Settings) (env : World W) (works : Works g) where
  continue-Live :
      (rows : List FileRow) (rest : LoopState W → Ending × LoopState W) (r : Loop.Round g c env)
      → ((t : LoopState W) → Live g c env works rows t → LiveEnd g c env works (rest t))
      → LiveRound g c env works rows r
      → LiveEnd g c env works (Loop.continue_with g c env rest r)
  continue-Live rows rest (Loop.Round.on t) f h = f t h
  continue-Live rows rest (Loop.Round.out end t) f h = h

  loop-Live :
      (total : ℕ) (rows : List FileRow) (s : LoopState W)
      → Live g c env works rows s
      → LiveEnd g c env works (Loop.loop g c env total rows s)
  unfolding Loop.loop
  loop-Live total [] s l = l
  loop-Live total (row ∷ rows) s (w, k) = elim (Bool-cases (is_pending row)) [
    | inl e ↦ rw e (
        continue-Live rows (Loop.loop g c env total rows) (Loop.round g c env total row s)
          (loop-Live total rows) (round-Live g c env works total row rows s (w, k)))
    | inr e ↦ rw e (loop-Live total rows s (skip-Wait row rows s.run.db.tables.files e w, k))
  ]

  all_files :
      (end : Ending) (run : Run W) (counts : StatusCounts) (files : List FileRecord)
      → AreKnown files
      → Leaves end files
      → ((t : FileImportStatus) → counted t counts ≡ number_of (status_name t) files)
      → (Loop.result_of g c env end run counts).cancelled ≡ false
      → (Loop.result_of g c env end run counts).fatal ≡ none
      → counts.imported + counts.preserved + counts.failed_read + counts.failed_mapi ≡ length files
  all_files Ending.all_done run counts files k w all h f = omega (
    arith,
    Wait-none files w,
    number_of-sum files k,
    all FileImportStatus.imported,
    all FileImportStatus.preserved_as_attachment,
    all FileImportStatus.failed_source_read,
    all FileImportStatus.failed_mapi,
  )
  all_files Ending.cancelled run counts files k w all h f = absurd (clash h refl)
  all_files (Ending.stopped fatal) run counts files k w all h f = absurd (some≢none f)
  all_files (Ending.db_failed e) run counts files k w all h f = absurd w

  IsComplete-of :
      (end : Ending) (run : Run W) (counts : StatusCounts) (files : List FileRecord)
      → AreKnown files
      → Leaves end files
      → ((t : FileImportStatus) → counted t counts ≡ number_of (status_name t) files)
      → IsComplete (Loop.result_of g c env end run counts) files
  IsComplete-of end run counts files k w all = record {
    imported_eq = all FileImportStatus.imported;
    preserved_eq = all FileImportStatus.preserved_as_attachment;
    failed_to_read_eq = all FileImportStatus.failed_source_read;
    failed_mapi_eq = all FileImportStatus.failed_mapi;
    all_counted = all_files end run counts files k w all;
  }

  counts_read :
      (db : Db) (counts : StatusCounts)
      → read_counts (group_by_status db.tables.files) no_counts ≡ ok counts
      → count_by_status g db ≡ (ok counts, tick db)
  unfolding count_by_status select
  counts_read db counts e = rw (works db.ticks, e) refl

  counted-Completes :
      (end : Ending) (run : Run W)
      → AreKnown run.db.tables.files
      → Leaves end run.db.tables.files
      → Completes (Loop.with_counts g c env end run (count_by_status g run.db))
  counted-Completes end run k w =
      let (counts, e) = counts_read_ok run.db.tables.files k in
      let all =
        subst (Counted run.db.tables.files) e (read_counts-number_of run.db.tables.files k) in
      subst (λ r. Completes (Loop.with_counts g c env end run r))
        (sym (counts_read run.db counts e))
        (IsComplete-of end (record run { db = tick run.db }) counts run.db.tables.files k w all)

  closed-Completes :
      (end : Ending) (s : LoopState W) (r : Result (Unit {0}) × Db)
      → Closed s.run.db.tables.files r
      → AreKnown s.run.db.tables.files
      → Leaves end s.run.db.tables.files
      → Completes (Loop.after_last g c env end s (Loop.closed g c env s r))
  closed-Completes end s (err e, db) h k w = absurd h
  closed-Completes end s (ok u, db) (h, o) k w =
      counted-Completes end (record (s.run) { db = db }) (subst AreKnown (sym h) k)
        (subst (Leaves end) (sym h) w)

  last-Completes :
      (batch : Bool) (end : Ending) (s : LoopState W)
      → IsReady batch s.run.db
      → Leaves end s.run.db.tables.files
      → Completes (Loop.after_last g c env end s (Loop.commit_if g c env batch s))
  last-Completes true end s (k, o) w =
      closed-Completes end s _ (commit-Closed g works s.run.db o) k w
  last-Completes false end s (k, o) w = counted-Completes end s.run k w

  finish-Completes :
      (r : Ending × LoopState W) → LiveEnd g c env works r → Completes (Loop.finish g c env r)
  unfolding Loop.finish
  finish-Completes (Ending.db_failed e, s) h = absurd h
  finish-Completes (Ending.all_done, s) (w, k) = last-Completes s.batch Ending.all_done s k w
  finish-Completes (Ending.cancelled, s) k = last-Completes s.batch Ending.cancelled s k tt
  finish-Completes (Ending.stopped f, s) k = last-Completes s.batch (Ending.stopped f) s k tt

weaken-Wait :
    (row : FileRow) (rows : List FileRow) (rs : List FileRecord)
    → Wait rows rs
    → Wait (row ∷ rows) rs
unfolding is_named
weaken-Wait row rows [] w = tt
weaken-Wait row rows (r ∷ rs) (h, w) = (λ e. or_right _ _ (h e), weaken-Wait row rows rs w)

waiting-is_pending :
    (r : FileRecord) (s : FileImportStatus)
    → file_import_status_from_string r.status ≡ some s
    → is_waiting r ≡ true
    → is_pending (row_of r s) ≡ true
waiting-is_pending r s h w =
    let e = (from_string_iff r.status FileImportStatus.pending).1 ((text_eq_iff r.status _).0 w) in
    let same = some-injective s FileImportStatus.pending (sym h ∙ e) in rw same refl

read_rows-Wait :
    (rs : List FileRecord) (rows : List FileRow) → read_rows rs ≡ ok rows → Wait rows rs
unfolding read_rows
read_rows-Wait [] rows h = tt
read_rows-Wait (r ∷ rs) rows h =
    let (s, rest, e, f, eq) = read_onto r _ _ rows h in
    subst (λ x. Wait x (r ∷ rs)) (sym eq)
      (
        λ w. named_first (row_of r s) rest (waiting-is_pending r s e w),
        weaken-Wait (row_of r s) rest rs (read_rows-Wait rs rest f),
      )

module _ {W : Type 0} (g : Engine) (c : Settings) (env : World W) where
  after_load-Completes :
      (w : W) (db : Db) (rows : List FileRow)
      → Works g
      → read_rows db.tables.files ≡ ok rows
      → db.saved ≡ none
      → Completes (Loop.after_load g c env w (ok rows, tick db))
  after_load-Completes w db rows works e o = finish-Completes g c env works _ (
      loop-Live g c env works _ rows (Loop.begun g c env rows w (tick db)) (
        read_rows-Wait db.tables.files rows e,
        (read_rows-AreKnown db.tables.files rows e, subst (IsOpen false) (sym o) tt),
      ))

  loaded :
      (db : Db) (rows : List FileRow)
      → Works g
      → read_rows db.tables.files ≡ ok rows
      → load_all_files g db ≡ (ok rows, tick db)
  unfolding load_all_files select
  loaded db rows works e = rw (works db.ticks, e) refl

  -- On a database that does not fail, outside a transaction and with statuses that can be read,
  -- the run returns a result whatever the world does: its counters are the numbers of records with
  -- each status, and unless it was cancelled or stopped they add up to all files, so that no file
  -- is left out or still pending.
  pub run-Completes :
      (w : W) (db : Db) (rows : List FileRow)
      → Works g
      → read_rows db.tables.files ≡ ok rows
      → db.saved ≡ none
      → Completes (run_import_pipeline g c env w db)
  unfolding run_import_pipeline
  run-Completes w db rows works e o =
      subst (λ r. Completes (Loop.after_load g c env w r)) (sym (loaded db rows works e))
        (after_load-Completes w db rows works e o)
