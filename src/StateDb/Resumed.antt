-- ===== src/StateDb/Resumed.antt =====
-- `create_new` and `check_resume_compatible` of worker/resume/state_db.cpp, one after the other.
use mathlib.Core.Path.{subst}
use eml_to_pst.Base.{ℕ, suc, ◌≡◌, ◌↔◌, refl, sym, ◌∙◌, ap, List, none, some, length}
use eml_to_pst.Base.Text.{Bytes, Wide, codes}
use eml_to_pst.Base.Outcome.{Result, ok, err}
use eml_to_pst.Model.{ManifestEntry}
use eml_to_pst.StateDb.Columns.RoundTrip.{AreUnits, repaired, utf8_to_wide-wide_to_utf8}
use eml_to_pst.StateDb.Tables.{Tables}
use eml_to_pst.StateDb.Engine.{Engine, Db, select}
use eml_to_pst.StateDb.Queries.{
  JobInfo, LoadedJob, job_info, compare_job, load_job, check_resume_compatible,
}
use eml_to_pst.StateDb.Creation.{new_job, create_new}
use eml_to_pst.StateDb.Atomic.{IsAtomic, create_new-IsAtomic}
use eml_to_pst.StateDb.Created.{NeverFails, AreNew, IsOk, create_new-IsOk}
use eml_to_pst.StateDb.Resume.{IsSameJob, compare_job_iff}
use eml_to_pst.StateDb.Version.{HasVersion, create_new-HasVersion}

-- The job as `load_job` reads it behind `create_new`.
abbrev pub read_back : JobInfo → LoadedJob
read_back info = record {
  info = record info {
    source_root = repaired info.source_root;
    output_pst = repaired info.output_pst;
    root_name = repaired info.root_name;
  };
  schema_version = 2;
  status = codes "RUNNING";
}

abbrev loaded : JobInfo → LoadedJob
loaded info = record {
  info = job_info (new_job info);
  schema_version = 2;
  status = codes "RUNNING";
}

loaded-eq :
    (info : JobInfo)
    → AreUnits info.source_root
    → AreUnits info.output_pst
    → AreUnits info.root_name
    → loaded info ≡ read_back info
loaded-eq info h k l =
    rw
      (
        utf8_to_wide-wide_to_utf8 info.source_root h,
        utf8_to_wide-wide_to_utf8 info.output_pst k,
        utf8_to_wide-wide_to_utf8 info.root_name l,
      )
      refl

module _ (g : Engine) (never : NeverFails g) where
  -- What the check compares, on a database that holds the job.
  check-compare :
      (info : JobInfo) (expected : JobInfo) (manifest_hash : Bytes) (version : ℕ) (db : Db)
      → db.tables.job ≡ some (new_job info)
      → db.tables.user_version ≡ 2
      → (check_resume_compatible g expected manifest_hash version db).0
        ≡ compare_job (loaded info) expected manifest_hash version
  unfolding check_resume_compatible load_job select
  check-compare info expected manifest_hash version db h k =
      rw (never db.ticks, never (suc db.ticks), h, k) refl

  created-compare :
      (info : JobInfo) (manifest : List ManifestEntry) (targets : List (Wide × Wide))
      (before : Tables) (r : Result (Unit {0}) × Db) (expected : JobInfo) (manifest_hash : Bytes)
      (version : ℕ)
      → IsOk r
      → IsAtomic before info manifest targets r
      → HasVersion 2 r
      → (check_resume_compatible g expected manifest_hash version r.1).0
        ≡ compare_job (loaded info) expected manifest_hash version
  created-compare info manifest targets before (ok u, db) expected manifest_hash version i
        (closed, files, job) v =
      check-compare info expected manifest_hash version db job v
  created-compare info manifest targets before (err e, db) expected manifest_hash version i a v =
      absurd i

  -- Behind a `create_new` that succeeds (no statement fails, no transaction is open, there is no
  -- job yet, the lists have one length, the paths are new and the sizes below 2^63),
  -- `check_resume_compatible` succeeds exactly if it is given schema version 2 and the bitness, the
  -- folder layout, the manifest hash and the three wide texts of the job, with U+FFFD for each
  -- surrogate of theirs that is in no pair. The texts are 16-bit code units.
  pub check_resume_compatible-create_new :
      (info : JobInfo) (manifest : List ManifestEntry) (targets : List (Wide × Wide)) (db : Db)
      (expected : JobInfo) (manifest_hash : Bytes) (version : ℕ)
      → db.saved ≡ none
      → db.tables.job ≡ none
      → length manifest ≡ length targets
      → AreNew manifest targets db.tables.files
      → AreUnits info.source_root
      → AreUnits info.output_pst
      → AreUnits info.root_name
      → let created = (create_new g info manifest targets db).1 in
        ((check_resume_compatible g expected manifest_hash version created).0 ≡ ok tt)
        ↔ IsSameJob (read_back info) expected manifest_hash version
  check_resume_compatible-create_new info manifest targets db expected manifest_hash version h i
        same new u v w =
      let checked =
        created-compare info manifest targets db.tables (create_new g info manifest targets db)
          expected manifest_hash version
          (create_new-IsOk g never info manifest targets db h i same new)
          (create_new-IsAtomic g info manifest targets db h)
          (create_new-HasVersion g info manifest targets db)
        ∙ ap (λ l. compare_job l expected manifest_hash version) (loaded-eq info u v w) in
      subst (λ s. (s ≡ ok tt) ↔ IsSameJob (read_back info) expected manifest_hash version)
        (sym checked) (compare_job_iff (read_back info) expected manifest_hash version)
