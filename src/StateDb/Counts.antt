-- ===== src/StateDb/Counts.antt =====
-- `count_by_status` of worker/resume/state_db.cpp against a direct count of the records.
use mathlib.Core.Path.{subst}
use eml_to_pst.Base.{
  ℕ, ◌+◌, ◌≡◌, refl, sym, ◌∙◌, ap, List, [], ◌∷◌, Bool, true, false, ◌||◌, some, arith, Bool-cases,
  if◌then◌else◌, inl, inr, length,
}
use eml_to_pst.Base.Text.{Bytes, text_eq, text_eq_iff}
use eml_to_pst.Base.Outcome.{Result, ok, err}
use eml_to_pst.Model.{FileImportStatus, status_name, file_import_status_from_string}
use eml_to_pst.Model.Names.{from_string_iff}
use eml_to_pst.StateDb.Tables.{FileRecord}
use eml_to_pst.StateDb.Queries.{
  StatusCounts, no_counts, count_in, group_by_status, assign, read_counts,
}

-- The count of a status, and the number of records with that status.
abbrev pub counted : FileImportStatus → StatusCounts → ℕ
counted FileImportStatus.pending c = c.pending
counted FileImportStatus.imported c = c.imported
counted FileImportStatus.preserved_as_attachment c = c.preserved
counted FileImportStatus.failed_source_read c = c.failed_read
counted FileImportStatus.failed_mapi c = c.failed_mapi

unfoldable pub number_of : Bytes → List FileRecord → ℕ
number_of status [] = 0
number_of status (r ∷ rs) = (if text_eq r.status status then 1 else 0) + number_of status rs

-- Every record has one of the five statuses.
abbrev pub AreKnown : List FileRecord → Type 0
AreKnown [] = Unit
AreKnown (r ∷ rs) =
    ((s : FileImportStatus) × (file_import_status_from_string r.status ≡ some s)) × AreKnown rs

amount : Bytes → List (Bytes × ℕ) → ℕ
amount key [] = 0
amount key ((k, n) ∷ groups) = (if text_eq k key then n else 0) + amount key groups

has_key : Bytes → List (Bytes × ℕ) → Bool
has_key key [] = false
has_key key ((k, n) ∷ groups) = text_eq k key || has_key key groups

abbrev AreDistinct : List (Bytes × ℕ) → Type 0
AreDistinct [] = Unit
AreDistinct ((k, n) ∷ groups) = (has_key k groups ≡ false) × AreDistinct groups

amount-count_in :
    (key status : Bytes) (groups : List (Bytes × ℕ))
    → amount key (count_in status groups)
      ≡ (if text_eq status key then 1 else 0) + amount key groups
unfolding amount count_in
amount-count_in key status [] = refl
amount-count_in key status ((k, n) ∷ groups) = elim (Bool-cases (text_eq k status)) [
  | inl e ↦ let same = (text_eq_iff k status).0 e in rw (e, same) (ground arith)
  | inr e ↦ rw e (omega (arith, amount-count_in key status groups))
]

amount-group :
    (key : Bytes) (rs : List FileRecord) → amount key (group_by_status rs) ≡ number_of key rs
unfolding amount group_by_status number_of
amount-group key [] = refl
amount-group key (r ∷ rs) =
    amount-count_in key r.status (group_by_status rs)
    ∙ ap (λ n. (if text_eq r.status key then 1 else 0) + n) (amount-group key rs)

has_key-count_in :
    (key status : Bytes) (groups : List (Bytes × ℕ))
    → has_key key (count_in status groups) ≡ (text_eq status key || has_key key groups)
unfolding has_key count_in
has_key-count_in key status [] = refl
has_key-count_in key status ((k, n) ∷ groups) = elim (Bool-cases (text_eq k status)) [
  | inl e ↦ let same = (text_eq_iff k status).0 e in rw (e, same) (ground arith)
  | inr e ↦ rw (e, has_key-count_in key status groups) (ground arith)
]

count_in-AreDistinct :
    (status : Bytes) (groups : List (Bytes × ℕ))
    → AreDistinct groups
    → AreDistinct (count_in status groups)
unfolding count_in has_key
count_in-AreDistinct status [] d = (refl, tt)
count_in-AreDistinct status ((k, n) ∷ groups) (h, d) = elim (Bool-cases (text_eq k status)) [
  | inl e ↦ rw e (h, d)
  | inr e ↦ rw e (
    has_key-count_in k status groups ∙ ground (arith, text_eq_iff k status, text_eq_iff status k),
    count_in-AreDistinct status groups d,
  )
]

group-AreDistinct : (rs : List FileRecord) → AreDistinct (group_by_status rs)
unfolding group_by_status
group-AreDistinct [] = tt
group-AreDistinct (r ∷ rs) = count_in-AreDistinct r.status _ (group-AreDistinct rs)

assign-counted :
    (s t : FileImportStatus) (n : ℕ) (c : StatusCounts)
    → counted t (assign s n c)
      ≡ (if text_eq (status_name s) (status_name t) then n else counted t c)
unfolding text_eq status_name
assign-counted FileImportStatus.pending FileImportStatus.pending n c = refl
assign-counted FileImportStatus.imported FileImportStatus.pending n c = refl
assign-counted FileImportStatus.preserved_as_attachment FileImportStatus.pending n c = refl
assign-counted FileImportStatus.failed_source_read FileImportStatus.pending n c = refl
assign-counted FileImportStatus.failed_mapi FileImportStatus.pending n c = refl
assign-counted _ _ n c = refl

absent-amount :
    (key : Bytes) (groups : List (Bytes × ℕ)) → has_key key groups ≡ false → amount key groups ≡ 0
unfolding amount has_key
absent-amount key [] h = refl
absent-amount key ((k, n) ∷ groups) h = elim (Bool-cases (text_eq k key)) [
  | inl e ↦ absurd (ground arith)
  | inr e ↦ let rest = absent-amount key groups (ground arith) in rw e (omega arith)
]

-- A status that is not assigned yet is 0 so far.
abbrev IsFresh : List (Bytes × ℕ) → StatusCounts → Type 0
IsFresh groups c = (t : FileImportStatus) → has_key (status_name t) groups ≡ true → counted t c ≡ 0

abbrev AreStatuses : List (Bytes × ℕ) → Type 0
AreStatuses [] = Unit
AreStatuses ((k, n) ∷ groups) =
    ((s : FileImportStatus) × (file_import_status_from_string k ≡ some s)) × AreStatuses groups

abbrev Reads : List (Bytes × ℕ) → StatusCounts → Result StatusCounts → Type 0
Reads groups c r =
    (d : StatusCounts) × (r ≡ ok d)
    × ((t : FileImportStatus) → counted t d ≡ counted t c + amount (status_name t) groups)

assign-IsFresh :
    (s : FileImportStatus) (n : ℕ) (groups : List (Bytes × ℕ)) (c : StatusCounts)
    → has_key (status_name s) groups ≡ false
    → IsFresh ((status_name s, n) ∷ groups) c
    → IsFresh groups (assign s n c)
unfolding has_key
assign-IsFresh s n groups c h f t present =
    elim (Bool-cases (text_eq (status_name s) (status_name t))) [
      | inl m ↦
          let same =
            ap (λ k. has_key k groups) ((text_eq_iff (status_name s) (status_name t)).0 m) in
          absurd (ground arith)
      | inr m ↦ let before = f t (ground arith) in assign-counted s t n c ∙ rw m before
    ]

assign-amount :
    (s t : FileImportStatus) (n : ℕ) (groups : List (Bytes × ℕ)) (c : StatusCounts)
    → has_key (status_name s) groups ≡ false
    → IsFresh ((status_name s, n) ∷ groups) c
    → counted t (assign s n c) + amount (status_name t) groups
      ≡ counted t c + amount (status_name t) ((status_name s, n) ∷ groups)
unfolding has_key amount
assign-amount s t n groups c h f =
    let a = assign-counted s t n c in
    elim (Bool-cases (text_eq (status_name s) (status_name t))) [
      | inl m ↦
          let same =
            ap (λ k. has_key k groups) ((text_eq_iff (status_name s) (status_name t)).0 m) in
          let absent = absent-amount (status_name t) groups (sym same ∙ h) in
          let before = f t (ground arith) in rw (a, m) (omega arith)
      | inr m ↦ rw (a, m) (omega arith)
    ]

no_groups : (n m : ℕ) → m ≡ 0 → n ≡ n + m
no_groups n m h = omega arith

read_counts-Reads :
    (groups : List (Bytes × ℕ)) (c : StatusCounts)
    → AreStatuses groups
    → AreDistinct groups
    → IsFresh groups c
    → Reads groups c (read_counts groups c)
unfolding read_counts amount
read_counts-Reads [] c a d f =
    (c, refl, λ t. no_groups (counted t c) (amount (status_name t) []) refl)
read_counts-Reads ((k, n) ∷ groups) c ((s, e), a) (h, d) f =
    let key = (from_string_iff k s).0 e in
    let h' = subst (λ k. has_key k groups ≡ false) key h in
    let f' = subst (λ k. IsFresh ((k, n) ∷ groups) c) key f in
    let (out, eq, all) =
      read_counts-Reads groups (assign s n c) a d (assign-IsFresh s n groups c h' f') in
    rw (read_counts, e)
      (
        out,
        eq,
        λ t.
            all t
            ∙ assign-amount s t n groups c h' f'
            ∙ ap (λ k. counted t c + amount (status_name t) ((k, n) ∷ groups)) (sym key),
      )

count_in-AreStatuses :
    (status : Bytes) (groups : List (Bytes × ℕ))
    → ((s : FileImportStatus) × (file_import_status_from_string status ≡ some s))
    → AreStatuses groups
    → AreStatuses (count_in status groups)
unfolding count_in
count_in-AreStatuses status [] h a = (h, tt)
count_in-AreStatuses status ((k, n) ∷ groups) h (x, a) = elim (Bool-cases (text_eq k status)) [
  | inl e ↦ rw e (x, a)
  | inr e ↦ rw e (x, count_in-AreStatuses status groups h a)
]

group-AreStatuses : (rs : List FileRecord) → AreKnown rs → AreStatuses (group_by_status rs)
unfolding group_by_status
group-AreStatuses [] k = tt
group-AreStatuses (r ∷ rs) (h, k) =
    count_in-AreStatuses r.status (group_by_status rs) h (group-AreStatuses rs k)

first_nothing : {n m : ℕ} → n ≡ 0 → n + m ≡ m
first_nothing h = omega arith

nothing_counted : (t : FileImportStatus) → counted t no_counts ≡ 0
nothing_counted FileImportStatus.pending = refl
nothing_counted _ = refl

-- Counts that were read, and are the numbers of records.
abbrev pub Counted : List FileRecord → Result StatusCounts → Type 0
Counted rs (ok c) = (t : FileImportStatus) → counted t c ≡ number_of (status_name t) rs
Counted rs (err e) = ⊥

counts_of_groups :
    (rs : List FileRecord)
    → AreKnown rs
    → Reads (group_by_status rs) no_counts (read_counts (group_by_status rs) no_counts)
counts_of_groups rs k =
    read_counts-Reads (group_by_status rs) no_counts (group-AreStatuses rs k) (group-AreDistinct rs)
      (λ t h. nothing_counted t)

-- Grouping, and storing each group in its field, counts the records: where every status is known
-- the counts are read, and each is the number of records with that status.
pub read_counts-number_of :
    (rs : List FileRecord) → AreKnown rs → Counted rs (read_counts (group_by_status rs) no_counts)
read_counts-number_of rs k =
    let (c, e, all) = counts_of_groups rs k in
    subst (Counted rs) (sym e)
      (λ t. all t ∙ first_nothing (nothing_counted t) ∙ amount-group (status_name t) rs)

pub counts_read_ok :
    (rs : List FileRecord)
    → AreKnown rs
    → (c : StatusCounts) × (read_counts (group_by_status rs) no_counts ≡ ok c)
counts_read_ok rs k = let (c, e, all) = counts_of_groups rs k in (c, e)

one_status :
    (text : Bytes) (s : FileImportStatus)
    → file_import_status_from_string text ≡ some s
    → (if text_eq text (status_name FileImportStatus.pending) then 1 else 0)
        + (if text_eq text (status_name FileImportStatus.imported) then 1 else 0)
        + (if text_eq text (status_name FileImportStatus.preserved_as_attachment) then 1 else 0)
        + (if text_eq text (status_name FileImportStatus.failed_source_read) then 1 else 0)
        + (if text_eq text (status_name FileImportStatus.failed_mapi) then 1 else 0)
      ≡ 1
unfolding text_eq status_name
one_status text FileImportStatus.pending h = let e = (from_string_iff text _).0 h in rw e refl
one_status text _ h = let e = (from_string_iff text _).0 h in rw e refl

pub number_of-sum :
    (rs : List FileRecord)
    → AreKnown rs
    → number_of (status_name FileImportStatus.pending) rs
        + number_of (status_name FileImportStatus.imported) rs
        + number_of (status_name FileImportStatus.preserved_as_attachment) rs
        + number_of (status_name FileImportStatus.failed_source_read) rs
        + number_of (status_name FileImportStatus.failed_mapi) rs
      ≡ length rs
unfolding number_of
number_of-sum [] k = omega arith
number_of-sum (r ∷ rs) ((s, h), k) = omega (arith, one_status r.status s h, number_of-sum rs k)
