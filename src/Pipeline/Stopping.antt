-- ===== src/Pipeline/Stopping.antt =====
-- The circuit breaker over a whole run of worker/pipeline/import_pipeline.cpp.
use eml_to_pst.Base.{
  ℕ, ◌<◌, ◌≡◌, refl, List, [], ◌∷◌, Bool, true, false, Option, none, some, Bool-cases, leb, inl,
  inr,
}
use eml_to_pst.Base.Outcome.{Result, ok, err}
use eml_to_pst.StateDb.Engine.{Engine, Db}
use eml_to_pst.StateDb.Queries.{FileRow, StatusCounts, load_all_files}
use eml_to_pst.Pipeline.{World, PipelineFatal, PipelineResult, Settings, Run}
use eml_to_pst.Pipeline.Loop
use eml_to_pst.Pipeline.Loop.{LoopState, Ending, is_pending, run_import_pipeline}
use eml_to_pst.Pipeline.Breaker.{IsPreserving, IsCalm, preserved_never_counts}

abbrev GoesOn : Ending → Type 0
GoesOn (Ending.stopped fatal) = ⊥
GoesOn _ = Unit

-- The result, if there is one, has no fatal condition.
abbrev pub HasNoFatal : {W : Type 0} → Result PipelineResult × Run W → Type 0
HasNoFatal (ok r, s) = r.fatal ≡ none
HasNoFatal (err e, s) = Unit

module _ {W : Type 0} (g : Engine) (c : Settings) (env : World W)
    (threshold : 1 < c.circuit_breaker_threshold) (p : IsPreserving env)
    (fresh_run : c.resume_mode ≡ false) where
  abbrev CalmStep : Result (LoopState W) × Db → Type 0
  CalmStep (ok t, db) = t.run.consecutive_systemic ≡ 0
  CalmStep (err e, db) = Unit

  abbrev CalmRound : Loop.Round g c env → Type 0
  CalmRound (Loop.Round.on t) = t.run.consecutive_systemic ≡ 0
  CalmRound (Loop.Round.out end t) = GoesOn end

  begun-Calm :
      (s : LoopState W) (r : Result (Unit {0}) × Db)
      → s.run.consecutive_systemic ≡ 0
      → CalmStep (Loop.batch_begun g c env s r)
  begun-Calm s (ok u, db) h = h
  begun-Calm s (err e, db) h = tt

  batch-Calm :
      (batch : Bool) (s : LoopState W)
      → s.run.consecutive_systemic ≡ 0
      → CalmStep (Loop.batch_if g c env batch s)
  batch-Calm true s h = h
  batch-Calm false s h = begun-Calm s _ h

  closed-Calm :
      (s : LoopState W) (r : Result (Unit {0}) × Db)
      → s.run.consecutive_systemic ≡ 0
      → CalmStep (Loop.closed g c env s r)
  closed-Calm s (ok u, db) h = h
  closed-Calm s (err e, db) h = tt

  close_full-Calm :
      (s : LoopState W) → s.run.consecutive_systemic ≡ 0 → CalmStep (Loop.close_full g c env s)
  close_full-Calm s h = elim (Bool-cases (leb c.db_batch_size s.batch_open)) [
    | inl e ↦ rw e (closed-Calm s _ h)
    | inr e ↦ rw e h
  ]

  after_close-Calm :
      (total : ℕ) (row : FileRow) (s : LoopState W) (r : Result (LoopState W) × Db)
      → CalmStep r
      → CalmRound (Loop.after_close g c env total row s r)
  after_close-Calm total row s (ok t, db) h = h
  after_close-Calm total row s (err e, db) h = tt

  after_row-Calm :
      (total : ℕ) (row : FileRow) (s : LoopState W) (r : Option PipelineFatal × Run W)
      → IsCalm r
      → CalmRound (Loop.after_row g c env total row s r)
  after_row-Calm total row s (some fatal, run) (h, k) = absurd (cc)
  after_row-Calm total row s (none, run) (h, k) =
      after_close-Calm total row (Loop.counted g c env s run) _
        (close_full-Calm (Loop.counted g c env s run) k)

  after_begin-Calm :
      (total : ℕ) (row : FileRow) (s : LoopState W) (r : Result (LoopState W) × Db)
      → CalmStep r
      → CalmRound (Loop.after_begin g c env total row s r)
  after_begin-Calm total row s (ok t, db) h =
      after_row-Calm total row t _
        (preserved_never_counts g c env threshold p row t.run fresh_run h)
  after_begin-Calm total row s (err e, db) h = tt

  asked-Calm :
      (total : ℕ) (row : FileRow) (s : LoopState W)
      → s.run.consecutive_systemic ≡ 0
      → CalmRound (Loop.after_begin g c env total row s (Loop.ensure_batch g c env s))
  asked-Calm total row s h = after_begin-Calm total row s _ (batch-Calm s.batch s h)

  round-Calm :
      (total : ℕ) (row : FileRow) (s : LoopState W)
      → s.run.consecutive_systemic ≡ 0
      → CalmRound (Loop.round g c env total row s)
  unfolding Loop.round
  round-Calm total row s h = elim (Bool-cases (env.cancelled s.run.world).0) [
    | inl e ↦ rw e tt
    | inr e ↦ rw e (asked-Calm total row (Loop.asked g c env s (env.cancelled s.run.world).1) h)
  ]

  continue-GoesOn :
      (rest : LoopState W → Ending × LoopState W) (r : Loop.Round g c env)
      → ((t : LoopState W) → t.run.consecutive_systemic ≡ 0 → GoesOn (rest t).0)
      → CalmRound r
      → GoesOn (Loop.continue_with g c env rest r).0
  continue-GoesOn rest (Loop.Round.on t) f h = f t h
  continue-GoesOn rest (Loop.Round.out end t) f h = h

  loop-GoesOn :
      (total : ℕ) (rows : List FileRow) (s : LoopState W)
      → s.run.consecutive_systemic ≡ 0
      → GoesOn (Loop.loop g c env total rows s).0
  unfolding Loop.loop
  loop-GoesOn total [] s h = tt
  loop-GoesOn total (row ∷ rows) s h = elim (Bool-cases (is_pending row)) [
    | inl e ↦ rw e (
        continue-GoesOn (Loop.loop g c env total rows) _ (loop-GoesOn total rows)
          (round-Calm total row s h))
    | inr e ↦ rw e (loop-GoesOn total rows s h)
  ]

  counts-HasNoFatal :
      (end : Ending) (run : Run W) (r : Result StatusCounts × Db)
      → GoesOn end
      → HasNoFatal (Loop.with_counts g c env end run r)
  counts-HasNoFatal end run (err e, db) h = tt
  counts-HasNoFatal Ending.all_done run (ok n, db) h = refl
  counts-HasNoFatal Ending.cancelled run (ok n, db) h = refl
  counts-HasNoFatal (Ending.db_failed e) run (ok n, db) h = refl
  counts-HasNoFatal (Ending.stopped f) run (ok n, db) h = absurd h

  last-HasNoFatal :
      (end : Ending) (s : LoopState W) (r : Result (LoopState W) × Db)
      → GoesOn end
      → HasNoFatal (Loop.after_last g c env end s r)
  last-HasNoFatal end s (err e, db) h = tt
  last-HasNoFatal end s (ok t, db) h = counts-HasNoFatal end t.run _ h

  finish-HasNoFatal : (r : Ending × LoopState W) → GoesOn r.0 → HasNoFatal (Loop.finish g c env r)
  unfolding Loop.finish
  finish-HasNoFatal (Ending.db_failed e, s) h = tt
  finish-HasNoFatal (Ending.all_done, s) h = last-HasNoFatal Ending.all_done s _ tt
  finish-HasNoFatal (Ending.cancelled, s) h = last-HasNoFatal Ending.cancelled s _ tt
  finish-HasNoFatal (Ending.stopped f, s) h = absurd h

  load-HasNoFatal :
      (w : W) (r : Result (List FileRow) × Db) → HasNoFatal (Loop.after_load g c env w r)
  load-HasNoFatal w (err e, db) = tt
  load-HasNoFatal w (ok rows, db) =
      finish-HasNoFatal _ (loop-GoesOn _ rows (Loop.begun g c env rows w db) refl)

  -- A first run, with a threshold above 1, on a store that can create folders and fallback
  -- messages ends without a fatal condition, however many files fail to convert and in whatever
  -- way: the breaker does not stop a run of conversion failures that are preserved.
  pub preserving_run_not_stopped : (w : W) (db : Db) → HasNoFatal (run_import_pipeline g c env w db)
  unfolding run_import_pipeline
  preserving_run_not_stopped w db = load-HasNoFatal w (load_all_files g db)
