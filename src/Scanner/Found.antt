-- ===== src/Scanner/Found.antt =====
-- Which files `scan_source_tree` of worker/scanner/scanner.cpp finds, against a description of the
-- tree that has no stack.
use mathlib.Core.Path.{subst}
use eml_to_pst.Base.{
  IsIn, ℕ, zero, suc, ◌+◌, ◌≡◌, ◌⊎◌, refl, sym, List, [], ◌∷◌, ◌++◌, Bool, true, false, ltb, Option,
  none, some, inl, inr,
}
use eml_to_pst.Base.Text.{Wide}
use eml_to_pst.Model.{FileTimeUtc, ManifestEntry}
use eml_to_pst.Scanner.Text.{utf8_to_wstring}
use eml_to_pst.Scanner.{
  ScanOptions, Kind, Entry, FileSystem, PendingDir, Scan, visit_directory, visit_eml, visit_file,
  visit_kind, visit_present, visit_status, visit_entry, visit_entries, broken_off, visit_listing,
  walk, add_file, child_of, is_eml, manifest_entry, entries_of,
}

pub IsIn-front : {A : Type 0} (x : A) (ys zs : List A) → IsIn x ys → IsIn x (ys ++ zs)
IsIn-front x [] zs h = elim h [ ]
IsIn-front x (y ∷ ys) zs (inl e) = inl e
IsIn-front x (y ∷ ys) zs (inr h) = inr (IsIn-front x ys zs h)

pub at_end : {A : Type 0} (x : A) (ys : List A) → IsIn x (ys ++ x ∷ [])
at_end x [] = inl refl
at_end x (y ∷ ys) = inr (at_end x ys)

last_or_before : {A : Type 0} (x y : A) (ys : List A) → IsIn x (ys ++ y ∷ []) → IsIn x ys ⊎ (x ≡ y)
last_or_before x y [] (inl e) = inr e
last_or_before x y [] (inr h) = elim h [ ]
last_or_before x y (z ∷ ys) (inl e) = inl (inl e)
last_or_before x y (z ∷ ys) (inr h) = elim (last_or_before x y ys h) [
  | inl k ↦ inl (inr k)
  | inr e ↦ inr e
]

module _ (o : ScanOptions) (fs : FileSystem) where
  abbrev pub name_of : PendingDir → Entry → Wide
  name_of d e = child_of d.relative (utf8_to_wstring e.filename)

  abbrev pub inside : PendingDir → Entry → PendingDir
  inside d e = record { absolute = e.path; relative = name_of d e; depth = d.depth + 1 }

  -- An entry of a directory that is no reparse point and not too deep.
  abbrev pub IsAdmitted : PendingDir → Entry → Kind → Type 0
  IsAdmitted d e kind =
      IsIn e (entries_of (fs.listing d.absolute))
      × (e.symlink_status ≡ some kind)
      × (e.is_reparse_point ≡ false)
      × (ltb o.max_depth (d.depth + 1) ≡ false)

  -- The files below a directory: regular files with the extension .eml whose size and time can be
  -- read, in it or in a directory below.
  pub data IsBelow : PendingDir → ManifestEntry → Type 0 where
    file :
        {d : PendingDir} (e : Entry) (size : ℕ) (time : FileTimeUtc)
        → IsAdmitted d e Kind.regular_file
        → is_eml e ≡ true
        → e.file_size ≡ some size
        → e.last_write_time ≡ some time
        → IsBelow d (manifest_entry (name_of d e) e size time)
    deeper :
        {d : PendingDir} {m : ManifestEntry} (e : Entry)
        → IsAdmitted d e Kind.directory
        → IsBelow (inside d e) m
        → IsBelow d m

  -- What the walk keeps: all that it has found and all that it will find lies below `d0`.
  pub record IsSound (d0 : PendingDir) (s : Scan) : Type 0 where
    pub found : (m : ManifestEntry) → IsIn m s.entries → IsBelow d0 m
    pub pending :
        (d : PendingDir) → IsIn d s.stack → (m : ManifestEntry) → IsBelow d m → IsBelow d0 m

  module _ (d0 d : PendingDir) (part : (m : ManifestEntry) → IsBelow d m → IsBelow d0 m) where
    file-IsSound :
        (e : Entry) (size : Option ℕ) (time : Option FileTimeUtc) (s : Scan)
        → IsAdmitted d e Kind.regular_file
        → is_eml e ≡ true
        → e.file_size ≡ size
        → e.last_write_time ≡ time
        → IsSound d0 s
        → IsSound d0 (add_file (name_of d e) e size time s)
    file-IsSound e none time s a eml hs ht h = record { found = h.found; pending = h.pending }
    file-IsSound e (some size) none s a eml hs ht h = record {
      found = h.found;
      pending = h.pending;
    }
    file-IsSound e (some size) (some t) s a eml hs ht h = record {
      found = λ m k. elim (last_or_before m (manifest_entry (name_of d e) e size t) s.entries k) [
        | inl old ↦ h.found m old
        | inr new ↦
            subst (λ x. IsBelow d0 x) (sym new)
              (part (manifest_entry (name_of d e) e size t) (IsBelow.file e size t a eml hs ht))
      ];
      pending = h.pending;
    }

    -- An entry that is there, with what was answered for it.
    abbrev IsListed : Entry → Kind → Type 0
    IsListed e kind =
        IsIn e (entries_of (fs.listing d.absolute))
        × (e.symlink_status ≡ some kind)
        × (e.is_reparse_point ≡ false)

    directory-IsSound :
        (e : Entry) (deep : Bool) (s : Scan)
        → IsListed e Kind.directory
        → ltb o.max_depth (d.depth + 1) ≡ deep
        → IsSound d0 s
        → IsSound d0 (visit_directory o d (name_of d e) e deep s)
    directory-IsSound e true s a dp h = record { found = h.found; pending = h.pending }
    directory-IsSound e false s (i, st, rp) dp h = record {
      found = h.found;
      pending = λ c k m below. elim k [
        | inl new ↦ part m (IsBelow.deeper e (i, st, rp, dp) (subst (λ x. IsBelow x m) new below))
        | inr old ↦ h.pending c old m below
      ];
    }

    eml-IsSound :
        (e : Entry) (deep : Bool) (s : Scan)
        → IsListed e Kind.regular_file
        → is_eml e ≡ true
        → ltb o.max_depth (d.depth + 1) ≡ deep
        → IsSound d0 s
        → IsSound d0 (visit_eml o (name_of d e) e deep s)
    eml-IsSound e true s a em dp h = record { found = h.found; pending = h.pending }
    eml-IsSound e false s (i, st, rp) em dp h =
        file-IsSound e e.file_size e.last_write_time s (i, st, rp, dp) em refl refl h

    regular-IsSound :
        (e : Entry) (eml : Bool) (s : Scan)
        → IsListed e Kind.regular_file
        → is_eml e ≡ eml
        → IsSound d0 s
        → IsSound d0 (visit_file o d (name_of d e) e eml s)
    regular-IsSound e false s a em h = h
    regular-IsSound e true s a em h = eml-IsSound e (ltb o.max_depth (d.depth + 1)) s a em refl h

    kind-IsSound :
        (e : Entry) (kind : Kind) (s : Scan)
        → IsListed e kind
        → IsSound d0 s
        → IsSound d0 (visit_kind o d (name_of d e) e kind s)
    kind-IsSound e Kind.directory s a h =
        directory-IsSound e (ltb o.max_depth (d.depth + 1)) s a refl h
    kind-IsSound e Kind.regular_file s a h = regular-IsSound e (is_eml e) s a refl h
    kind-IsSound e Kind.other_kind s a h = h

    present-IsSound :
        (e : Entry) (kind : Kind) (reparse : Bool) (s : Scan)
        → IsIn e (entries_of (fs.listing d.absolute))
        → e.symlink_status ≡ some kind
        → e.is_reparse_point ≡ reparse
        → IsSound d0 s
        → IsSound d0 (visit_present o d (name_of d e) e kind reparse s)
    present-IsSound e kind true s i st rp h = record { found = h.found; pending = h.pending }
    present-IsSound e kind false s i st rp h = kind-IsSound e kind s (i, st, rp) h

    status-IsSound :
        (e : Entry) (status : Option Kind) (s : Scan)
        → IsIn e (entries_of (fs.listing d.absolute))
        → e.symlink_status ≡ status
        → IsSound d0 s
        → IsSound d0 (visit_status o d e status s)
    status-IsSound e none s i st h = h
    status-IsSound e (some kind) s i st h = present-IsSound e kind e.is_reparse_point s i st refl h

    entries-IsSound :
        (es : List Entry) (s : Scan)
        → ((e : Entry) → IsIn e es → IsIn e (entries_of (fs.listing d.absolute)))
        → IsSound d0 s
        → IsSound d0 (visit_entries o d es s)
    unfolding visit_entries visit_entry
    entries-IsSound [] s i h = h
    entries-IsSound (e ∷ es) s i h =
        entries-IsSound es (visit_status o d e e.symlink_status s) (λ x k. i x (inr k))
          (status-IsSound e e.symlink_status s (i e (inl refl)) refl h)

    broken-IsSound : (b : Bool) (s : Scan) → IsSound d0 s → IsSound d0 (broken_off o d b s)
    broken-IsSound true s h = record { found = h.found; pending = h.pending }
    broken-IsSound false s h = h

    listing-IsSound :
        (l : Option (List Entry × Bool)) (s : Scan)
        → fs.listing d.absolute ≡ l
        → IsSound d0 s
        → IsSound d0 (visit_listing o d l s)
    listing-IsSound none s e h = record { found = h.found; pending = h.pending }
    listing-IsSound (some (es, b)) s e h =
        broken-IsSound b (visit_entries o d es s)
          (entries-IsSound es s (λ x k. subst (λ l. IsIn x (entries_of l)) (sym e) k) h)

  pub walk-IsSound :
      (d0 : PendingDir) (fuel : ℕ) (stack : List PendingDir) (rest : Scan)
      → IsSound d0 (record rest { stack = stack })
      → IsSound d0 (walk o fs fuel (record rest { stack = stack }))
  unfolding walk
  walk-IsSound d0 zero stack rest h = h
  walk-IsSound d0 (suc fuel) [] rest h = h
  walk-IsSound d0 (suc fuel) (d ∷ stack) rest h =
      let s : Scan = record rest { stack = stack } in
      let next = visit_listing o d (fs.listing d.absolute) s in
      walk-IsSound d0 fuel next.stack next (
        listing-IsSound d0 d (h.pending d (inl refl)) (fs.listing d.absolute) s refl
          (record { found = h.found; pending = λ c k. h.pending c (inr k) }))
