-- ===== src/Pipeline/Untouched.antt =====
-- A run of worker/pipeline/import_pipeline.cpp on any database: the files that were not pending,
-- and the state of the transaction.
use mathlib.Core.Path.{subst}
use eml_to_pst.Base.{
  ℕ, ◌≡◌, refl, sym, ◌∙◌, ap, List, [], ◌∷◌, Bool, true, false, Option, none, some, Bool-cases, leb,
  inl, inr,
}
use eml_to_pst.Base.Outcome.{Error, Result, ok, err, ok-injective}
use eml_to_pst.StateDb.Tables.{FileRecord, Tables}
use eml_to_pst.StateDb.Engine.{Engine, Db, select-db, begin_immediate, commit}
use eml_to_pst.StateDb.Queries.{
  FileRow, load_all_files, count_by_status, StatusCounts, read_counts, group_by_status, no_counts,
  read_rows,
}
use eml_to_pst.StateDb.Steps.{Steps-Moves, Steps-saved}
use eml_to_pst.Pipeline.{World, PipelineFatal, Settings, Run}
use eml_to_pst.Pipeline.Rows.{process_row}
use eml_to_pst.Pipeline.Loop
use eml_to_pst.Pipeline.Loop.{LoopState, Ending, is_pending, run_import_pipeline}
use eml_to_pst.Pipeline.Writes.{process_row-Steps}
use eml_to_pst.Pipeline.Others.{
  is_named, others, others-Moves, SavedFine, Fine, Opened, Committed, begin-Opened,
  commit-Committed, rollback-Fine, or_right, named_first,
}

module _ {W : Type 0} (g : Engine) (c : Settings) (env : World W) (rows : List FileRow)
    (base : List FileRecord) where
  abbrev Good : LoopState W → Type 0
  Good s = Fine rows base s.batch s.run.db

  -- A failure of the database has closed the batch.
  abbrev GoodEnd : Ending × LoopState W → Type 0
  GoodEnd (Ending.db_failed e, s) = Fine rows base false s.run.db
  GoodEnd (Ending.all_done, s) = Good s
  GoodEnd (Ending.cancelled, s) = Good s
  GoodEnd (Ending.stopped fatal, s) = Good s

  abbrev GoodRound : Loop.Round g c env → Type 0
  GoodRound (Loop.Round.on t) = Good t
  GoodRound (Loop.Round.out end t) = GoodEnd (end, t)

  -- A step that failed has left the database of the state as good as it was.
  abbrev GoodStep : LoopState W → Result (LoopState W) × Db → Type 0
  GoodStep s (ok t, db) = Good t
  GoodStep s (err e, db) = Fine rows base s.batch db

  abbrev GoodBegin : LoopState W → Result (LoopState W) × Db → Type 0
  GoodBegin s (ok t, db) = Good t × (t.batch ≡ true)
  GoodBegin s (err e, db) = Fine rows base s.batch db

  begun-Good :
      (s : LoopState W) (r : Result (Unit {0}) × Db)
      → s.batch ≡ false
      → Opened rows base r
      → GoodBegin s (Loop.batch_begun g c env s r)
  begun-Good s (ok u, db) b h = (h, refl)
  begun-Good s (err e, db) b h = subst (λ x. Fine rows base x db) (sym b) h

  ensure-Good :
      (batch : Bool) (s : LoopState W)
      → s.batch ≡ batch
      → Good s
      → GoodBegin s (Loop.batch_if g c env batch s)
  ensure-Good true s e h = (h, e)
  ensure-Good false s e h =
      begun-Good s (begin_immediate g s.run.db) e
        (begin-Opened g rows base s.run.db (subst (λ x. Fine rows base x s.run.db) e h))

  closed-Good :
      (s : LoopState W) (r : Result (Unit {0}) × Db)
      → s.batch ≡ true
      → Committed rows base r
      → GoodStep s (Loop.closed g c env s r)
  closed-Good s (ok u, db) b h = h
  closed-Good s (err e, db) b h = subst (λ x. Fine rows base x db) (sym b) h

  commit-Good :
      (s : LoopState W)
      → s.batch ≡ true
      → Good s
      → GoodStep s (Loop.closed g c env s (commit g s.run.db))
  commit-Good s b h =
      closed-Good s (commit g s.run.db) b
        (commit-Committed g rows base s.run.db (subst (λ x. Fine rows base x s.run.db) b h))

  close_full-Good :
      (s : LoopState W) → s.batch ≡ true → Good s → GoodStep s (Loop.close_full g c env s)
  close_full-Good s b h = elim (Bool-cases (leb c.db_batch_size s.batch_open)) [
    | inl e ↦ rw e (commit-Good s b h)
    | inr e ↦ rw e h
  ]

  row-Good :
      (row : FileRow) (s : LoopState W)
      → is_named rows row.id ≡ true
      → Good s
      → Fine rows base s.batch (process_row g c env row s.run).1.db
  row-Good row s n (h, k) =
      let steps = process_row-Steps g c env row s.run in
      (
        others-Moves rows row.id n s.run.db.tables.files _ (Steps-Moves steps) ∙ h,
        subst (SavedFine rows base s.batch) (sym (Steps-saved steps)) k,
      )

  give_up-Good :
      (s : LoopState W) (e : Error) (db : Db)
      → Fine rows base s.batch db
      → GoodEnd (Loop.give_up g c env s e db)
  give_up-Good s e db h = rollback-Fine g rows base s.batch db h

  after_close-Good :
      (total : ℕ) (row : FileRow) (s : LoopState W) (r : Result (LoopState W) × Db)
      → GoodStep s r
      → GoodRound (Loop.after_close g c env total row s r)
  after_close-Good total row s (ok t, db) h = h
  after_close-Good total row s (err e, db) h = give_up-Good s e db h

  after_row-Good :
      (total : ℕ) (row : FileRow) (s : LoopState W) (r : Option PipelineFatal × Run W)
      → s.batch ≡ true
      → Fine rows base s.batch r.1.db
      → GoodRound (Loop.after_row g c env total row s r)
  after_row-Good total row s (some fatal, run) b h = h
  after_row-Good total row s (none, run) b h =
      after_close-Good total row (Loop.counted g c env s run) _
        (close_full-Good (Loop.counted g c env s run) b h)

  after_begin-Good :
      (total : ℕ) (row : FileRow) (s : LoopState W) (r : Result (LoopState W) × Db)
      → is_named rows row.id ≡ true
      → GoodBegin s r
      → GoodRound (Loop.after_begin g c env total row s r)
  after_begin-Good total row s (ok t, db) n (h, b) =
      after_row-Good total row t (process_row g c env row t.run) b (row-Good row t n h)
  after_begin-Good total row s (err e, db) n h = give_up-Good s e db h

  round_asked-Good :
      (total : ℕ) (row : FileRow) (s : LoopState W)
      → is_named rows row.id ≡ true
      → Good s
      → GoodRound (Loop.after_begin g c env total row s (Loop.ensure_batch g c env s))
  round_asked-Good total row s n h = after_begin-Good total row s _ n (ensure-Good s.batch s refl h)

  round-Good :
      (total : ℕ) (row : FileRow) (s : LoopState W)
      → is_named rows row.id ≡ true
      → Good s
      → GoodRound (Loop.round g c env total row s)
  unfolding Loop.round
  round-Good total row s n h = elim (Bool-cases (env.cancelled s.run.world).0) [
    | inl e ↦ rw e h
    | inr e ↦
        rw e (round_asked-Good total row (Loop.asked g c env s (env.cancelled s.run.world).1) n h)
  ]

  -- Rows that are pending are among `rows`.
  abbrev Covered : List FileRow → Type 0
  Covered [] = Unit
  Covered (row ∷ rest) = (is_pending row ≡ true → is_named rows row.id ≡ true) × Covered rest

  continue-Good :
      (rest : LoopState W → Ending × LoopState W) (r : Loop.Round g c env)
      → ((t : LoopState W) → Good t → GoodEnd (rest t))
      → GoodRound r
      → GoodEnd (Loop.continue_with g c env rest r)
  continue-Good rest (Loop.Round.on t) f h = f t h
  continue-Good rest (Loop.Round.out end t) f h = h

  loop-Good :
      (total : ℕ) (rest : List FileRow) (s : LoopState W)
      → Covered rest
      → Good s
      → GoodEnd (Loop.loop g c env total rest s)
  unfolding Loop.loop
  loop-Good total [] s k h = h
  loop-Good total (row ∷ rest) s (n, k) h = elim (Bool-cases (is_pending row)) [
    | inl e ↦ rw e (
        continue-Good (Loop.loop g c env total rest) (Loop.round g c env total row s)
          (λ t. loop-Good total rest t k) (round-Good total row s (n e) h))
    | inr e ↦ rw e (loop-Good total rest s k h)
  ]

  abbrev GoodLast : LoopState W → Result (LoopState W) × Db → Type 0
  GoodLast s (ok t, db) = Fine rows base false t.run.db
  GoodLast s (err e, db) = Fine rows base s.batch db

  last_closed :
      (s : LoopState W) (r : Result (Unit {0}) × Db)
      → s.batch ≡ true
      → Committed rows base r
      → GoodLast s (Loop.closed g c env s r)
  last_closed s (ok u, db) b h = h
  last_closed s (err e, db) b h = subst (λ x. Fine rows base x db) (sym b) h

  last-Good :
      (batch : Bool) (s : LoopState W)
      → s.batch ≡ batch
      → Good s
      → GoodLast s (Loop.commit_if g c env batch s)
  last-Good true s e h =
      last_closed s (commit g s.run.db) e
        (commit-Committed g rows base s.run.db (subst (λ x. Fine rows base x s.run.db) e h))
  last-Good false s e h = subst (λ x. Fine rows base x s.run.db) e h

  with_counts-db :
      (end : Ending) (run : Run W) (r : Result StatusCounts × Db)
      → (Loop.with_counts g c env end run r).1.db ≡ r.1
  with_counts-db end run (ok counts, db) = refl
  with_counts-db end run (err e, db) = refl

  count-Fine : (db : Db) → Fine rows base false db → Fine rows base false (count_by_status g db).1
  unfolding count_by_status
  count-Fine db h =
      subst (Fine rows base false)
        (sym (select-db g (λ t. read_counts (group_by_status t.files) no_counts) db)) h

  after_last-Good :
      (end : Ending) (s : LoopState W) (r : Result (LoopState W) × Db)
      → GoodLast s r
      → Fine rows base false (Loop.after_last g c env end s r).1.db
  after_last-Good end s (ok t, db) h =
      subst (Fine rows base false) (sym (with_counts-db end t.run (count_by_status g t.run.db)))
        (count-Fine t.run.db h)
  after_last-Good end s (err e, db) h = rollback-Fine g rows base s.batch db h

  finish-Good :
      (r : Ending × LoopState W) → GoodEnd r → Fine rows base false (Loop.finish g c env r).1.db
  unfolding Loop.finish
  finish-Good (Ending.db_failed e, s) h = h
  finish-Good (Ending.all_done, s) h =
      after_last-Good Ending.all_done s _ (last-Good s.batch s refl h)
  finish-Good (Ending.cancelled, s) h =
      after_last-Good Ending.cancelled s _ (last-Good s.batch s refl h)
  finish-Good (Ending.stopped fatal, s) h =
      after_last-Good (Ending.stopped fatal) s _ (last-Good s.batch s refl h)

module _ {W : Type 0} (g : Engine) (c : Settings) (env : World W) (base : List FileRecord) where
  weaken :
      (row : FileRow) (rows rest : List FileRow)
      → Covered g c env rows base rest
      → Covered g c env (row ∷ rows) base rest
  unfolding is_named
  weaken row rows [] k = tt
  weaken row rows (r ∷ rest) (n, k) = (λ e. or_right _ _ (n e), weaken row rows rest k)

  Covered-refl : (rows : List FileRow) → Covered g c env rows base rows
  Covered-refl [] = tt
  Covered-refl (row ∷ rows) = (named_first row rows, weaken row rows rows (Covered-refl rows))

module _ {W : Type 0} (g : Engine) (c : Settings) (env : World W) where
  load_all-db :
      (db : Db)
      → (load_all_files g db).1.tables ≡ db.tables × (load_all_files g db).1.saved ≡ db.saved
  unfolding load_all_files
  load_all-db db = (
    ap (λ d. d.tables) (select-db g (λ t. read_rows t.files) db),
    ap (λ d. d.saved) (select-db g (λ t. read_rows t.files) db),
  )

  loaded-Fine :
      (w : W) (rows : List FileRow) (base : List FileRecord) (r : Result (List FileRow) × Db)
      → r.0 ≡ ok rows
      → Fine rows base false r.1
      → Fine rows base false (Loop.after_load g c env w r).1.db
  loaded-Fine w rows base (ok rows', db) e h = finish-Good g c env rows base _ (
      loop-Good g c env rows base _ rows' _
        (subst (Covered g c env rows base) (sym (ok-injective e)) (Covered-refl g c env base rows))
        h)
  loaded-Fine w rows base (err x, db) e h = h

  run-Fine :
      (w : W) (db : Db) (rows : List FileRow)
      → (load_all_files g db).0 ≡ ok rows
      → db.saved ≡ none
      → Fine rows (others rows db.tables.files) false (run_import_pipeline g c env w db).1.db
  unfolding run_import_pipeline
  run-Fine w db rows e h =
      loaded-Fine w rows (others rows db.tables.files) (load_all_files g db) e (
        ap (λ t. others rows t.files) (load_all-db db).0,
        subst (SavedFine rows (others rows db.tables.files) false) (sym ((load_all-db db).1 ∙ h))
            tt,
      )

  saved-none :
      (rows : List FileRow) (base : List FileRecord) (saved : Option Tables)
      → SavedFine rows base false saved
      → saved ≡ none
  saved-none rows base none k = refl
  saved-none rows base (some t) k = absurd k

  -- Whatever fails in the run, and wherever: the records that no pending row names are afterwards
  -- what they were before, and no transaction is left open. The run starts outside a transaction,
  -- with rows that could be loaded.
  pub run_leaves_others :
      (w : W) (db : Db) (rows : List FileRow)
      → (load_all_files g db).0 ≡ ok rows
      → db.saved ≡ none
      → (others rows (run_import_pipeline g c env w db).1.db.tables.files
          ≡ others rows db.tables.files)
        × ((run_import_pipeline g c env w db).1.db.saved ≡ none)
  run_leaves_others w db rows e h =
      let f = run-Fine w db rows e h in (f.0, saved-none rows (others rows db.tables.files) _ f.1)
