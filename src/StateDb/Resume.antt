-- ===== src/StateDb/Resume.antt =====
-- `check_resume_compatible` of worker/resume/state_db.cpp: the comparison of a
-- stored job with the expected one.
use eml_to_pst.Base.{ℕ, ◌≡◌, ◌↔◌, refl, Bool, true, false, not, ==_iff, if◌then◌else◌}
use eml_to_pst.Base.Text.{Bytes, text_eq_iff}
use eml_to_pst.Base.Outcome.{Error, ok, err, Status, err_ok}
use eml_to_pst.StateDb.Queries.{JobInfo, LoadedJob, compare_job}

-- The fields in which the stored job must agree with the expected one.
pub record IsSameJob (l : LoadedJob) (expected : JobInfo) (manifest_hash : Bytes) (version : ℕ)
    : Type 0 where
  pub source_root_eq : l.info.source_root ≡ expected.source_root
  pub output_pst_eq : l.info.output_pst ≡ expected.output_pst
  pub root_name_eq : l.info.root_name ≡ expected.root_name
  pub outlook_bitness_eq : l.info.outlook_bitness ≡ expected.outlook_bitness
  pub folder_layout_eq : l.info.folder_layout ≡ expected.folder_layout
  pub schema_version_eq : l.schema_version ≡ version
  pub manifest_hash_eq : l.info.manifest_hash ≡ manifest_hash

-- A test in front of others.
guard_ok :
    (b : Bool) (e : Error) (rest : Status)
    → (if not b then err e else rest) ≡ ok tt
    → (b ≡ true) × (rest ≡ ok tt)
guard_ok true e rest h = (refl, h)
guard_ok false e rest h = absurd (err_ok h)

compare-IsSameJob :
    (l : LoadedJob) (expected : JobInfo) (manifest_hash : Bytes) (version : ℕ)
    → compare_job l expected manifest_hash version ≡ ok tt
    → IsSameJob l expected manifest_hash version
unfolding compare_job
compare-IsSameJob l expected manifest_hash version h =
    let (a, h) = guard_ok _ _ _ h in
    let (b, h) = guard_ok _ _ _ h in
    let (c, h) = guard_ok _ _ _ h in
    let (d, h) = guard_ok _ _ _ h in
    let (e, h) = guard_ok _ _ _ h in
    let (f, h) = guard_ok _ _ _ h in
    let (k, h) = guard_ok _ _ _ h in
    record {
      source_root_eq = (text_eq_iff _ _).0 a;
      output_pst_eq = (text_eq_iff _ _).0 b;
      root_name_eq = (text_eq_iff _ _).0 c;
      outlook_bitness_eq = (text_eq_iff _ _).0 d;
      folder_layout_eq = (text_eq_iff _ _).0 e;
      schema_version_eq = (==_iff _ _).0 f;
      manifest_hash_eq = (text_eq_iff _ _).0 k;
    }

same-compare :
    (l : LoadedJob) (expected : JobInfo) (manifest_hash : Bytes) (version : ℕ)
    → IsSameJob l expected manifest_hash version
    → compare_job l expected manifest_hash version ≡ ok tt
unfolding compare_job
same-compare l expected manifest_hash version s =
    let a = (text_eq_iff l.info.source_root expected.source_root).1 s.source_root_eq in
    let b = (text_eq_iff l.info.output_pst expected.output_pst).1 s.output_pst_eq in
    let c = (text_eq_iff l.info.root_name expected.root_name).1 s.root_name_eq in
    let d = (text_eq_iff l.info.outlook_bitness expected.outlook_bitness).1 s.outlook_bitness_eq in
    let e = (text_eq_iff l.info.folder_layout expected.folder_layout).1 s.folder_layout_eq in
    let f = (==_iff l.schema_version version).1 s.schema_version_eq in
    let k = (text_eq_iff l.info.manifest_hash manifest_hash).1 s.manifest_hash_eq in
    rw (compare_job, a, b, c, d, e, f, k) refl

-- The comparison succeeds exactly when the seven fields agree, `folder_layout` among them.
pub compare_job_iff :
    (l : LoadedJob) (expected : JobInfo) (manifest_hash : Bytes) (version : ℕ)
    → (compare_job l expected manifest_hash version ≡ ok tt)
      ↔ IsSameJob l expected manifest_hash version
compare_job_iff l expected manifest_hash version = (
  compare-IsSameJob l expected manifest_hash version,
  same-compare l expected manifest_hash version,
)
