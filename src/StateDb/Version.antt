-- ===== src/StateDb/Version.antt =====
-- The schema version behind `create_new` of worker/resume/state_db.cpp.
use eml_to_pst.Base.{
  ℕ, ◌≡◌, refl, List, [], ◌∷◌, Option, none, some, ltb, ◌==◌, ◌^◌, Bool-cases, inl, inr, length,
}
use eml_to_pst.Base.Text.{Wide}
use eml_to_pst.Base.Outcome.{Error, Result, ok, err}
use eml_to_pst.Model.{ManifestEntry}
use eml_to_pst.StateDb.Columns.{wide_to_utf8}
use eml_to_pst.StateDb.Tables.{JobRow, Tables, insert_file, has_path}
use eml_to_pst.StateDb.Engine.{
  Engine, Db, M, after, stepped, execute, begin_immediate, open_transaction, close_transaction,
  commit,
}
use eml_to_pst.StateDb.Queries.{JobInfo}
use eml_to_pst.StateDb.Creation.{
  job_row, insert_row, insert_one, insert_all, fill, in_transaction, undo_on_error, create_new,
  schema_row, version_row, prepare_row,
}

-- The schema version behind what succeeded.
abbrev pub HasVersion : ℕ → {A : Type 0} → Result A × Db → Type 0
HasVersion v (ok a, db) = db.tables.user_version ≡ v
HasVersion v (err e, db) = Unit

after-HasVersion :
    (v w : ℕ) {A B : Type 0} (r : Result A × Db) (f : A → M B)
    → HasVersion v r
    → ((a : A) (db : Db) → db.tables.user_version ≡ v → HasVersion w (f a db))
    → HasVersion w (after r f)
after-HasVersion v w (ok a, db) f h k = k a db h
after-HasVersion v w (err e, db) f h k = tt

abbrev GivesVersion : ℕ → Option (Tables × ℕ) → Type 0
GivesVersion v none = Unit
GivesVersion v (some (t, n)) = t.user_version ≡ v

stepped-HasVersion :
    (g : Engine) (v : ℕ) (fault : Option Error) (change : Option (Tables × ℕ)) (db : Db)
    → GivesVersion v change
    → HasVersion v (stepped g fault change db)
stepped-HasVersion g v (some e) change db h = tt
stepped-HasVersion g v none none db h = tt
stepped-HasVersion g v none (some (t, n)) db h = h

insert-GivesVersion :
    (e : ManifestEntry) (target : Wide) (t : Tables) (v : ℕ)
    → t.user_version ≡ v
    → GivesVersion v (insert_row e target t)
unfolding insert_file
insert-GivesVersion e target t v h =
    elim (Bool-cases (has_path (wide_to_utf8 e.relative_path) t.files)) [
      | inl p ↦ rw (GivesVersion, p) tt
      | inr p ↦ rw (GivesVersion, p) h
    ]

job-GivesVersion :
    (info : JobInfo) (job : Option JobRow) (t : Tables) (v : ℕ)
    → t.user_version ≡ v
    → GivesVersion v (job_row info job t)
job-GivesVersion info none t v h = h
job-GivesVersion info (some j) t v h = tt

close-HasVersion :
    (fault : Option Error) (saved : Option Tables) (db : Db) (v : ℕ)
    → db.tables.user_version ≡ v
    → HasVersion v (close_transaction fault saved db)
close-HasVersion fault none db v h = tt
close-HasVersion (some e) (some t) db v h = tt
close-HasVersion none (some t) db v h = h

undo-HasVersion :
    (v : ℕ) (r : Result (Unit {0}) × Db) → HasVersion v r → HasVersion v (undo_on_error r)
undo-HasVersion v (ok u, db) h = h
undo-HasVersion v (err e, db) h = tt

module _ (g : Engine) where
  execute-HasVersion :
      (v : ℕ) (change : Tables → Option (Tables × ℕ)) (db : Db)
      → GivesVersion v (change db.tables)
      → HasVersion v (execute g change db)
  unfolding execute
  execute-HasVersion v change db h =
      stepped-HasVersion g v (g.fault db.ticks) (change db.tables) db h

  insert_one-HasVersion :
      (e : ManifestEntry) (target : Wide) (v : ℕ) (db : Db)
      → db.tables.user_version ≡ v
      → HasVersion v (insert_one g e target db)
  unfolding insert_one
  insert_one-HasVersion e target v db h = elim (Bool-cases (ltb e.size (2 ^ 63))) [
    | inl s ↦
        rw (insert_one, s)
          (after-HasVersion v v (execute g (insert_row e target) db) _
            (execute-HasVersion v (insert_row e target) db
              (insert-GivesVersion e target db.tables v h))
            (λ n d x. x))
    | inr s ↦ rw (insert_one, s) tt
  ]

  insert_all-HasVersion :
      (es : List ManifestEntry) (ts : List (Wide × Wide)) (v : ℕ) (db : Db)
      → db.tables.user_version ≡ v
      → HasVersion v (insert_all g es ts db)
  unfolding insert_all
  insert_all-HasVersion [] ts v db h = h
  insert_all-HasVersion (e ∷ es) [] v db h = h
  insert_all-HasVersion (e ∷ es) ((source, target) ∷ ts) v db h =
      after-HasVersion v v (insert_one g e target db) _ (insert_one-HasVersion e target v db h)
        (λ u d x. insert_all-HasVersion es ts v d x)

  fill-HasVersion :
      (info : JobInfo) (manifest : List ManifestEntry) (targets : List (Wide × Wide)) (db : Db)
      → HasVersion 2 (fill g info manifest targets db)
  unfolding fill commit
  fill-HasVersion info manifest targets db =
      after-HasVersion db.tables.user_version 2 (execute g schema_row db) _
        (execute-HasVersion db.tables.user_version schema_row db refl)
        (λ n d x.
          after-HasVersion 2 2 (execute g version_row d) _ (execute-HasVersion 2 version_row d refl)
            (λ n d x.
              after-HasVersion 2 2 (execute g prepare_row d) _
                (execute-HasVersion 2 prepare_row d x)
                (λ n d x.
                  after-HasVersion 2 2 (execute g (λ t. job_row info t.job t) d) _
                    (execute-HasVersion 2 (λ t. job_row info t.job t) d
                      (job-GivesVersion info d.tables.job d.tables 2 x))
                    (λ n d x.
                      after-HasVersion 2 2 (insert_all g manifest targets d) _
                        (insert_all-HasVersion manifest targets 2 d x)
                        (λ u d x. close-HasVersion (g.fault d.ticks) d.saved d 2 x)))))

  begun-HasVersion :
      (info : JobInfo) (manifest : List ManifestEntry) (targets : List (Wide × Wide))
      (fault : Option Error) (saved : Option Tables) (db : Db)
      → HasVersion 2
          (in_transaction (fill g info manifest targets) (open_transaction fault saved db))
  begun-HasVersion info manifest targets (some e) saved db = tt
  begun-HasVersion info manifest targets none (some t) db = tt
  begun-HasVersion info manifest targets none none db =
      undo-HasVersion 2 _ (fill-HasVersion info manifest targets _)

  -- A database that `create_new` has made has schema version 2.
  pub create_new-HasVersion :
      (info : JobInfo) (manifest : List ManifestEntry) (targets : List (Wide × Wide)) (db : Db)
      → HasVersion 2 (create_new g info manifest targets db)
  unfolding create_new begin_immediate
  create_new-HasVersion info manifest targets db =
      elim (Bool-cases (length manifest == length targets)) [
        | inl e ↦
            rw (create_new, e)
              (begun-HasVersion info manifest targets (g.fault db.ticks) db.saved db)
        | inr e ↦ rw (create_new, e) tt
      ]
