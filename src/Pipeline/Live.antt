-- ===== src/Pipeline/Live.antt =====
-- What holds in each round of the loop of worker/pipeline/import_pipeline.cpp on a database that
-- does not fail: a batch is open exactly while a transaction is, and pending files are yet to come.
use mathlib.Core.Path.{subst}
use eml_to_pst.Base.{
  ℕ, ◌≡◌, ◌≢◌, ◌⊎◌, refl, sym, ◌∙◌, ap, List, [], ◌∷◌, Bool, true, false, Option, none, some, arith,
  Bool-cases, leb, inl, inr,
}
use eml_to_pst.Base.Outcome.{Error, Result, ok, err}
use eml_to_pst.StateDb.Tables.{FileRecord, Tables}
use eml_to_pst.StateDb.Engine.{
  Engine, Db, begin_immediate, commit, open_transaction, close_transaction,
}
use eml_to_pst.StateDb.Queries.{FileRow}
use eml_to_pst.StateDb.Steps.{Moves, Steps-Moves, Steps-saved}
use eml_to_pst.StateDb.Known.{Steps-AreKnown}
use eml_to_pst.StateDb.Counts.{AreKnown}
use eml_to_pst.Pipeline.{World, PipelineFatal, Settings, Run}
use eml_to_pst.Pipeline.Rows.{process_row}
use eml_to_pst.Pipeline.Loop
use eml_to_pst.Pipeline.Loop.{LoopState, Ending, is_pending, run_import_pipeline}
use eml_to_pst.Pipeline.Writes.{process_row-Steps}
use eml_to_pst.Pipeline.Settled.{Works, IsSettled, is_waiting, Settles, process_row-Settles}
use eml_to_pst.Pipeline.Others.{is_named}

-- Every record that is pending is named by a pending row.
abbrev pub Wait : List FileRow → List FileRecord → Type 0
Wait rows [] = Unit
Wait rows (r ∷ rs) = (is_waiting r ≡ true → is_named rows r.id ≡ true) × Wait rows rs

named_other :
    (row : FileRow) (rows : List FileRow) (id : ℕ)
    → row.id ≢ id
    → is_named (row ∷ rows) id ≡ true
    → is_named rows id ≡ true
unfolding is_named
named_other row rows id n h = ground arith

pub clash : {b : Bool} → b ≡ false → b ≡ true → ⊥
clash f t = cc

moved_waits :
    (row : FileRow) (rows : List FileRow) (r s : FileRecord)
    → (is_waiting r ≡ true → is_named (row ∷ rows) r.id ≡ true)
    → r.id ≡ s.id
    → (r.id ≡ row.id) ⊎ (r ≡ s)
    → (s.id ≡ row.id → is_waiting s ≡ false)
    → is_waiting s ≡ true
    → is_named rows s.id ≡ true
moved_waits row rows r s h p (inl e) k w = absurd (clash (k (sym p ∙ e)) w)
moved_waits row rows r s h p (inr e) k w =
    named_other row rows s.id (λ n. clash (k (sym n)) w)
      (subst (λ x. is_named (row ∷ rows) x ≡ true) p (h (ap is_waiting e ∙ w)))

Moves-Wait :
    (row : FileRow) (rows : List FileRow) (rs ss : List FileRecord)
    → Wait (row ∷ rows) rs
    → Moves row.id rs ss
    → IsSettled row.id ss
    → Wait rows ss
unfolding IsSettled
Moves-Wait row rows [] [] w m k = tt
Moves-Wait row rows [] (s ∷ ss) w m k = absurd m
Moves-Wait row rows (r ∷ rs) [] w m k = absurd m
Moves-Wait row rows (r ∷ rs) (s ∷ ss) (h, w) (p, q, m) (l, k) =
    (moved_waits row rows r s h p q l, Moves-Wait row rows rs ss w m k)

pub skip-Wait :
    (row : FileRow) (rows : List FileRow) (rs : List FileRecord)
    → is_pending row ≡ false
    → Wait (row ∷ rows) rs
    → Wait rows rs
unfolding is_named
skip-Wait row rows [] e w = tt
skip-Wait row rows (r ∷ rs) e (h, w) = (λ k. ground (arith, h k), skip-Wait row rows rs e w)

-- A transaction is open exactly while there is a batch.
abbrev pub IsOpen : Bool → Option Tables → Type 0
IsOpen true (some t) = Unit
IsOpen true none = ⊥
IsOpen false (some t) = ⊥
IsOpen false none = Unit

abbrev pub IsReady : Bool → Db → Type 0
IsReady batch db = AreKnown db.tables.files × IsOpen batch db.saved

abbrev Began : List FileRecord → Result (Unit {0}) × Db → Type 0
Began files (ok u, db) = (db.tables.files ≡ files) × IsOpen true db.saved
Began files (err e, db) = ⊥

abbrev pub Closed : List FileRecord → Result (Unit {0}) × Db → Type 0
Closed files (ok u, db) = (db.tables.files ≡ files) × IsOpen false db.saved
Closed files (err e, db) = ⊥

open-Began :
    (fault : Option Error) (saved : Option Tables) (db : Db)
    → fault ≡ none
    → IsOpen false saved
    → Began db.tables.files (open_transaction fault saved db)
open-Began (some e) saved db f o = absurd (cc)
open-Began none none db f o = (refl, tt)
open-Began none (some t) db f o = absurd o

close-Closed :
    (fault : Option Error) (saved : Option Tables) (db : Db)
    → fault ≡ none
    → IsOpen true saved
    → Closed db.tables.files (close_transaction fault saved db)
close-Closed fault none db f o = absurd o
close-Closed (some e) (some t) db f o = absurd (cc)
close-Closed none (some t) db f o = (refl, tt)

module _ (g : Engine) (works : Works g) where
  begin-Began : (db : Db) → IsOpen false db.saved → Began db.tables.files (begin_immediate g db)
  unfolding begin_immediate
  begin-Began db o = open-Began (g.fault db.ticks) db.saved db (works db.ticks) o

  pub commit-Closed : (db : Db) → IsOpen true db.saved → Closed db.tables.files (commit g db)
  unfolding commit
  commit-Closed db o = close-Closed (g.fault db.ticks) db.saved db (works db.ticks) o

module _ {W : Type 0} (g : Engine) (c : Settings) (env : World W) (works : Works g) where
  abbrev pub Live : List FileRow → LoopState W → Type 0
  Live rows s = Wait rows s.run.db.tables.files × IsReady s.batch s.run.db

  -- A batch is open, and the files are as they were.
  abbrev LiveBegin : List FileRecord → Result (LoopState W) × Db → Type 0
  LiveBegin files (ok t, db) =
      (t.run.db.tables.files ≡ files) × (t.batch ≡ true) × IsOpen true t.run.db.saved
  LiveBegin files (err e, db) = ⊥

  abbrev LiveStep : List FileRecord → Result (LoopState W) × Db → Type 0
  LiveStep files (ok t, db) = (t.run.db.tables.files ≡ files) × IsOpen t.batch t.run.db.saved
  LiveStep files (err e, db) = ⊥

  abbrev pub LiveEnd : Ending × LoopState W → Type 0
  LiveEnd (Ending.db_failed e, s) = ⊥
  LiveEnd (Ending.all_done, s) = Live [] s
  LiveEnd (Ending.cancelled, s) = IsReady s.batch s.run.db
  LiveEnd (Ending.stopped fatal, s) = IsReady s.batch s.run.db

  abbrev pub LiveRound : List FileRow → Loop.Round g c env → Type 0
  LiveRound rows (Loop.Round.on t) = Live rows t
  LiveRound rows (Loop.Round.out end t) = LiveEnd (end, t)

  begun-Live :
      (s : LoopState W) (r : Result (Unit {0}) × Db)
      → Began s.run.db.tables.files r
      → LiveBegin s.run.db.tables.files (Loop.batch_begun g c env s r)
  begun-Live s (ok u, db) (e, o) = (e, refl, o)
  begun-Live s (err e, db) h = absurd h

  ensure-Live :
      (batch : Bool) (s : LoopState W)
      → s.batch ≡ batch
      → IsOpen batch s.run.db.saved
      → LiveBegin s.run.db.tables.files (Loop.batch_if g c env batch s)
  ensure-Live true s e o = (refl, e, o)
  ensure-Live false s e o = begun-Live s _ (begin-Began g works s.run.db o)

  closed-Live :
      (s : LoopState W) (r : Result (Unit {0}) × Db)
      → Closed s.run.db.tables.files r
      → LiveStep s.run.db.tables.files (Loop.closed g c env s r)
  closed-Live s (ok u, db) h = h
  closed-Live s (err e, db) h = absurd h

  close_full-Live :
      (s : LoopState W)
      → s.batch ≡ true
      → IsOpen true s.run.db.saved
      → LiveStep s.run.db.tables.files (Loop.close_full g c env s)
  close_full-Live s b o = elim (Bool-cases (leb c.db_batch_size s.batch_open)) [
    | inl e ↦ rw e (closed-Live s _ (commit-Closed g works s.run.db o))
    | inr e ↦ rw e (refl, subst (λ x. IsOpen x s.run.db.saved) (sym b) o)
  ]

  after_close-Live :
      (total : ℕ) (row : FileRow) (rows : List FileRow) (s : LoopState W)
      (r : Result (LoopState W) × Db)
      → Wait rows s.run.db.tables.files
      → AreKnown s.run.db.tables.files
      → LiveStep s.run.db.tables.files r
      → LiveRound rows (Loop.after_close g c env total row s r)
  after_close-Live total row rows s (ok t, db) w k (e, o) =
      (subst (Wait rows) (sym e) w, (subst AreKnown (sym e) k, o))
  after_close-Live total row rows s (err e, db) w k h = absurd h

  after_row-Live :
      (total : ℕ) (row : FileRow) (rows : List FileRow) (s : LoopState W)
      (r : Option PipelineFatal × Run W)
      → s.batch ≡ true
      → Wait (row ∷ rows) s.run.db.tables.files
      → Moves row.id s.run.db.tables.files r.1.db.tables.files
      → AreKnown r.1.db.tables.files
      → IsOpen true r.1.db.saved
      → Settles row.id r
      → LiveRound rows (Loop.after_row g c env total row s r)
  after_row-Live total row rows s (some fatal, run) b w m k o h =
      (k, subst (λ x. IsOpen x run.db.saved) (sym b) o)
  after_row-Live total row rows s (none, run) b w m k o h =
      after_close-Live total row rows (Loop.counted g c env s run) _
        (Moves-Wait row rows s.run.db.tables.files run.db.tables.files w m h) k
        (close_full-Live (Loop.counted g c env s run) b o)

  after_begin-Live :
      (total : ℕ) (row : FileRow) (rows : List FileRow) (s : LoopState W)
      (r : Result (LoopState W) × Db)
      → Live (row ∷ rows) s
      → LiveBegin s.run.db.tables.files r
      → LiveRound rows (Loop.after_begin g c env total row s r)
  after_begin-Live total row rows s (err e, db) l h = absurd h
  after_begin-Live total row rows s (ok t, db) (w, (k, o)) (e, b, o') =
      let steps = process_row-Steps g c env row t.run in
      after_row-Live total row rows t (process_row g c env row t.run) b
        (subst (Wait (row ∷ rows)) (sym e) w) (Steps-Moves steps)
        (Steps-AreKnown steps (subst AreKnown (sym e) k))
        (subst (IsOpen true) (sym (Steps-saved steps)) o')
        (process_row-Settles g c env works row t.run)

  asked-Live :
      (total : ℕ) (row : FileRow) (rows : List FileRow) (s : LoopState W)
      → Live (row ∷ rows) s
      → LiveRound rows (Loop.after_begin g c env total row s (Loop.ensure_batch g c env s))
  asked-Live total row rows s l =
      after_begin-Live total row rows s _ l (ensure-Live s.batch s refl l.1.1)

  pub round-Live :
      (total : ℕ) (row : FileRow) (rows : List FileRow) (s : LoopState W)
      → Live (row ∷ rows) s
      → LiveRound rows (Loop.round g c env total row s)
  unfolding Loop.round
  round-Live total row rows s l = elim (Bool-cases (env.cancelled s.run.world).0) [
    | inl e ↦ rw e l.1
    | inr e ↦
        rw e (asked-Live total row rows (Loop.asked g c env s (env.cancelled s.run.world).1) l)
  ]
