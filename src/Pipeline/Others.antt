-- ===== src/Pipeline/Others.antt =====
-- The records that the run of worker/pipeline/import_pipeline.cpp has no pending row for, and the
-- transaction of a batch: what keeps them.
use eml_to_pst.Base.{
  ℕ, ◌≡◌, refl, sym, List, [], ◌∷◌, Bool, true, false, ◌||◌, ◌&&◌, Option, none, some, arith, ◌==◌,
  if◌then◌else◌, inl, inr,
}
use eml_to_pst.Base.Outcome.{Error, Result, ok, err}
use eml_to_pst.StateDb.Tables.{FileRecord, Tables}
use eml_to_pst.StateDb.Engine.{
  Engine, Db, begin_immediate, commit, rollback, open_transaction, close_transaction, restore,
}
use eml_to_pst.StateDb.Queries.{FileRow}
use eml_to_pst.StateDb.Steps.{Moves}
use eml_to_pst.Pipeline.Loop.{is_pending}

-- Whether a pending row has this id.
unfoldable pub is_named : List FileRow → ℕ → Bool
is_named [] id = false
is_named (row ∷ rows) id = (is_pending row && row.id == id) || is_named rows id

-- The records that no pending row names.
unfoldable pub others : List FileRow → List FileRecord → List FileRecord
others rows [] = []
others rows (r ∷ rs) = if is_named rows r.id then others rows rs else r ∷ others rows rs

pub others-Moves :
    (rows : List FileRow) (id : ℕ)
    → is_named rows id ≡ true
    → (rs ss : List FileRecord) → Moves id rs ss
    → others rows ss ≡ others rows rs
unfolding others
others-Moves rows id h [] [] m = refl
others-Moves rows id h [] (s ∷ ss) m = absurd m
others-Moves rows id h (r ∷ rs) [] m = absurd m
others-Moves rows id h (r ∷ rs) (s ∷ ss) (p, inl e, m) =
    rw (sym p, e, h) (others-Moves rows id h rs ss m)
others-Moves rows id h (r ∷ rs) (s ∷ ss) (p, inr e, m) = rw (e, others-Moves rows id h rs ss m) refl

-- A transaction is open exactly while there is a batch, and it, too, began with `base`.
abbrev pub SavedFine : List FileRow → List FileRecord → Bool → Option Tables → Type 0
SavedFine rows base true (some t) = others rows t.files ≡ base
SavedFine rows base true none = ⊥
SavedFine rows base false (some t) = ⊥
SavedFine rows base false none = Unit

abbrev pub Fine : List FileRow → List FileRecord → Bool → Db → Type 0
Fine rows base batch db = (others rows db.tables.files ≡ base) × SavedFine rows base batch db.saved

abbrev pub Opened : List FileRow → List FileRecord → Result (Unit {0}) × Db → Type 0
Opened rows base (ok u, db) = Fine rows base true db
Opened rows base (err e, db) = Fine rows base false db

abbrev pub Committed : List FileRow → List FileRecord → Result (Unit {0}) × Db → Type 0
Committed rows base (ok u, db) = Fine rows base false db
Committed rows base (err e, db) = Fine rows base true db

module _ (g : Engine) (rows : List FileRow) (base : List FileRecord) where
  open-Opened :
      (fault : Option Error) (saved : Option Tables) (db : Db)
      → SavedFine rows base false saved
      → Fine rows base false db
      → Opened rows base (open_transaction fault saved db)
  open-Opened (some e) saved db k h = h
  open-Opened none none db k (h, l) = (h, h)
  open-Opened none (some t) db k h = absurd k

  close-Committed :
      (fault : Option Error) (saved : Option Tables) (db : Db)
      → SavedFine rows base true saved
      → Fine rows base true db
      → Committed rows base (close_transaction fault saved db)
  close-Committed fault none db k h = absurd k
  close-Committed (some e) (some t) db k h = h
  close-Committed none (some t) db k (h, l) = (h, tt)

  restore-Fine :
      (batch : Bool) (saved : Option Tables) (db : Db)
      → SavedFine rows base batch saved
      → Fine rows base batch db
      → Fine rows base false (restore saved db)
  restore-Fine true none db k h = absurd k
  restore-Fine false none db k h = h
  restore-Fine true (some t) db k h = (k, tt)
  restore-Fine false (some t) db k h = absurd k

  pub begin-Opened : (db : Db) → Fine rows base false db → Opened rows base (begin_immediate g db)
  unfolding begin_immediate
  begin-Opened db h = open-Opened (g.fault db.ticks) db.saved db h.1 h

  pub commit-Committed : (db : Db) → Fine rows base true db → Committed rows base (commit g db)
  unfolding commit
  commit-Committed db h = close-Committed (g.fault db.ticks) db.saved db h.1 h

  pub rollback-Fine :
      (batch : Bool) (db : Db) → Fine rows base batch db → Fine rows base false (rollback db)
  unfolding rollback
  rollback-Fine batch db h = restore-Fine batch db.saved db h.1 h

pub or_right : (a b : Bool) → b ≡ true → (a || b) ≡ true
or_right a b h = ground arith

pub named_first :
    (row : FileRow) (rows : List FileRow)
    → is_pending row ≡ true
    → is_named (row ∷ rows) row.id ≡ true
unfolding is_named
named_first row rows e = rw e (ground arith)
