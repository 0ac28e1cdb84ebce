-- ===== src/Pipeline/Adoption.antt =====
-- `try_adopt_existing` of worker/pipeline/import_pipeline.cpp, with which a resumed run finds the
-- messages that were saved before.
use mathlib.Core.Option.{some-injective}
use eml_to_pst.Base.{
  ◌≡◌, ◌≢◌, refl, sym, ◌∙◌, ap, List, [], ◌∷◌, Bool, true, false, Option, none, some,
}
use eml_to_pst.Base.Text.{Wide}
use eml_to_pst.Base.Outcome.{Result, ok, err}
use eml_to_pst.Model.{FileTimeUtc}
use eml_to_pst.StateDb.Engine.{Engine}
use eml_to_pst.StateDb.Queries.{FileRow}
use eml_to_pst.Pipeline.{
  EntryId, MessageMetadata, ImportOutcome, ImportFailure, TrackedMessage, World, Settings, Run,
}
use eml_to_pst.Pipeline.Rows

abbrev pub Importer : Type 0 → Type 0
Importer W = EntryId → Wide → MessageMetadata → W → Result ImportOutcome × ImportFailure × W

module _ {W : Type 0} (g : Engine) (c : Settings) (env : World W) where
  -- The messages of the row's folder, where the folder and its messages can be read.
  abbrev pub listed_in : FileRow → Result EntryId × Run W → Option (List TrackedMessage)
  listed_in row (err e, s) = none
  listed_in row (ok folder, s) = (Rows.tracked_in g c env row.target_folder_path folder s).0

  -- What is found once the file is marked as started.
  abbrev pub listed : FileRow → Run W → Option (List TrackedMessage)
  listed row s =
      listed_in row
        (Rows.ensure_target_folder g c env row.target_folder_path (Rows.begin_row g c env row s).1)

  -- Adopted, or an integrity error.
  abbrev IsDecided : Option Bool × Run W → Type 0
  IsDecided (some false, s) = ⊥
  IsDecided _ = Unit

  match-IsDecided :
      (row : FileRow) (now : FileTimeUtc) (ms : List TrackedMessage) (s : Run W)
      → ms ≢ []
      → IsDecided (Rows.adopt_match g c env row now ms s)
  match-IsDecided row now [] s h = h refl
  match-IsDecided row now (m ∷ []) s h = tt
  match-IsDecided row now (m ∷ n ∷ ms) s h = tt

  from-IsDecided :
      (row : FileRow) (now : FileTimeUtc) (ms : List TrackedMessage)
      (r : Option (List TrackedMessage) × Run W)
      → r.0 ≡ some ms
      → Rows.matching c.run_id row.relative_source_path ms ≢ []
      → IsDecided (Rows.adopt_from g c env row now r)
  from-IsDecided row now ms (none, s) e h = absurd (cc)
  from-IsDecided row now ms (some ns, s) e h = match-IsDecided row now _ s (λ k.
      h (ap (Rows.matching c.run_id row.relative_source_path) (sym (some-injective ns ms e)) ∙ k))

  in-IsDecided :
      (row : FileRow) (now : FileTimeUtc) (ms : List TrackedMessage) (r : Result EntryId × Run W)
      → listed_in row r ≡ some ms
      → Rows.matching c.run_id row.relative_source_path ms ≢ []
      → IsDecided (Rows.adopt_in g c env row now r)
  in-IsDecided row now ms (err x, s) e h = absurd (cc)
  in-IsDecided row now ms (ok folder, s) e h =
      from-IsDecided row now ms (Rows.tracked_in g c env row.target_folder_path folder s) e h

  decided_without_import :
      (other : Importer W) (row : FileRow) (now : FileTimeUtc) (r : Option Bool × Run W)
      → IsDecided r
      → Rows.after_adoption g c (record env { import_eml = other }) row now r
        ≡ Rows.after_adoption g c env row now r
  decided_without_import other row now (none, s) h = refl
  decided_without_import other row now (some true, s) h = refl
  decided_without_import other row now (some false, s) h = absurd h

  resume_without_import :
      (resume : Bool) (other : Importer W) (row : FileRow) (now : FileTimeUtc)
      (ms : List TrackedMessage) (s : Run W)
      → resume ≡ true
      → listed_in row (Rows.ensure_target_folder g c env row.target_folder_path s) ≡ some ms
      → Rows.matching c.run_id row.relative_source_path ms ≢ []
      → Rows.resume_or_read g c (record env { import_eml = other }) resume row now s
        ≡ Rows.resume_or_read g c env resume row now s
  unfolding Rows.try_adopt_existing Rows.ensure_target_folder Rows.tracked_in
  resume_without_import false other row now ms s r e h = absurd (cc)
  resume_without_import true other row now ms s r e h =
      decided_without_import other row now (Rows.try_adopt_existing g c env row now s)
        (in-IsDecided row now ms _ e h)

  -- In a resumed run, a file that has a message of this run in its folder already is not imported:
  -- the result and all that is written are the same with any other import.
  pub found_never_imported :
      (other : Importer W) (row : FileRow) (ms : List TrackedMessage) (s : Run W)
      → c.resume_mode ≡ true
      → listed row s ≡ some ms
      → Rows.matching c.run_id row.relative_source_path ms ≢ []
      → Rows.process_row g c (record env { import_eml = other }) row s
        ≡ Rows.process_row g c env row s
  unfolding Rows.process_row
  found_never_imported other row ms s r e h =
      let (now, t) = Rows.begin_row g c env row s in
      resume_without_import c.resume_mode other row now ms t r e h
