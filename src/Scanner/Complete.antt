-- ===== src/Scanner/Complete.antt =====
-- That `scan_source_tree` of worker/scanner/scanner.cpp finds each file that is below the root, and
-- no other.
use mathlib.Core.Path.{subst}
use eml_to_pst.Base.{
  IsIn, ℕ, zero, suc, ◌+◌, ◌≡◌, ◌↔◌, ◌⊎◌, refl, sym, ap, ◌∙◌, List, [], ◌∷◌, Bool, true, false, ltb,
  Option, none, some, inl, inr, if◌then◌else◌,
}
use eml_to_pst.Base.Text.{Wide}
use eml_to_pst.Base.Outcome.{ok, ok-injective, err_ok}
use eml_to_pst.Model.{FileTimeUtc, ManifestEntry}
use eml_to_pst.Scanner.{
  ScanOptions, Kind, Entry, FileSystem, PendingDir, Scan, ScanResult, visit_directory, visit_eml,
  visit_file, visit_present, visit_status, visit_entry, visit_entries, broken_off, visit_listing,
  walk, directories, whole_walk, root_path, start_scan, add_file, add_entry, is_eml, manifest_entry,
  insert_entry, sort_entries, sorts_before, scan_result, scan_source_tree, scanned, entries_of,
}
use eml_to_pst.Scanner.Walk.{whole_walk_ends}
use eml_to_pst.Scanner.Found.{
  IsIn-front, at_end, name_of, inside, IsAdmitted, IsBelow, walk-IsSound,
}

-- Nothing that was found or put on the stack is lost.
record Keeps (s t : Scan) : Type 0 where
  found : (m : ManifestEntry) → IsIn m s.entries → IsIn m t.entries
  pending : (d : PendingDir) → IsIn d s.stack → IsIn d t.stack

Keeps-all : (s : Scan) → Keeps s s
Keeps-all s = record { found = λ m h. h; pending = λ d h. h }

then-Keeps : {s t u : Scan} → Keeps s t → Keeps t u → Keeps s u
then-Keeps a b = record {
  found = λ m h. b.found m (a.found m h);
  pending = λ d h. b.pending d (a.pending d h);
}

module _ (o : ScanOptions) where
  file-Keeps :
      (relative : Wide) (e : Entry) (size : Option ℕ) (time : Option FileTimeUtc) (s : Scan)
      → Keeps s (add_file relative e size time s)
  file-Keeps relative e none time s = record { found = λ m h. h; pending = λ d h. h }
  file-Keeps relative e (some size) none s = record { found = λ m h. h; pending = λ d h. h }
  file-Keeps relative e (some size) (some t) s = record {
    found = λ m h. IsIn-front m s.entries _ h;
    pending = λ d h. h;
  }

  directory-Keeps :
      (d : PendingDir) (relative : Wide) (e : Entry) (deep : Bool) (s : Scan)
      → Keeps s (visit_directory o d relative e deep s)
  directory-Keeps d relative e true s = record { found = λ m h. h; pending = λ c h. h }
  directory-Keeps d relative e false s = record { found = λ m h. h; pending = λ c h. inr h }

  eml-Keeps :
      (relative : Wide) (e : Entry) (deep : Bool) (s : Scan)
      → Keeps s (visit_eml o relative e deep s)
  eml-Keeps relative e true s = record { found = λ m h. h; pending = λ d h. h }
  eml-Keeps relative e false s = file-Keeps relative e e.file_size e.last_write_time s

  regular-Keeps :
      (d : PendingDir) (relative : Wide) (e : Entry) (eml : Bool) (s : Scan)
      → Keeps s (visit_file o d relative e eml s)
  regular-Keeps d relative e false s = Keeps-all s
  regular-Keeps d relative e true s = eml-Keeps relative e (ltb o.max_depth (d.depth + 1)) s

  present-Keeps :
      (d : PendingDir) (relative : Wide) (e : Entry) (kind : Kind) (reparse : Bool) (s : Scan)
      → Keeps s (visit_present o d relative e kind reparse s)
  present-Keeps d relative e kind true s = record { found = λ m h. h; pending = λ c h. h }
  present-Keeps d relative e Kind.directory false s =
      directory-Keeps d relative e (ltb o.max_depth (d.depth + 1)) s
  present-Keeps d relative e Kind.regular_file false s = regular-Keeps d relative e (is_eml e) s
  present-Keeps d relative e Kind.other_kind false s = Keeps-all s

  status-Keeps :
      (d : PendingDir) (e : Entry) (status : Option Kind) (s : Scan)
      → Keeps s (visit_status o d e status s)
  status-Keeps d e none s = Keeps-all s
  status-Keeps d e (some kind) s = present-Keeps d _ e kind e.is_reparse_point s

  entries-Keeps : (d : PendingDir) (es : List Entry) (s : Scan) → Keeps s (visit_entries o d es s)
  unfolding visit_entries visit_entry
  entries-Keeps d [] s = Keeps-all s
  entries-Keeps d (e ∷ es) s =
      then-Keeps (status-Keeps d e e.symlink_status s)
        (entries-Keeps d es (visit_status o d e e.symlink_status s))

  listing-Keeps :
      (d : PendingDir) (l : Option (List Entry × Bool)) (s : Scan) → Keeps s (visit_listing o d l s)
  listing-Keeps d none s = record { found = λ m h. h; pending = λ c h. h }
  listing-Keeps d (some (es, true)) s =
      let a = entries-Keeps d es s in record { found = a.found; pending = a.pending }
  listing-Keeps d (some (es, false)) s = entries-Keeps d es s

  module _ (fs : FileSystem) where
    file_lands :
        (d : PendingDir) (e : Entry) (size : ℕ) (time : FileTimeUtc) (s : Scan)
        → IsAdmitted o fs d e Kind.regular_file
        → is_eml e ≡ true
        → e.file_size ≡ some size
        → e.last_write_time ≡ some time
        → visit_entry o d e s ≡ add_entry (manifest_entry (name_of o fs d e) e size time) s
    unfolding visit_entry
    file_lands d e size time s (i, st, rp, dp) em hs ht =
        let name = name_of o fs d e in
        ap (λ x. visit_status o d e x s) st
        ∙ ap (λ x. visit_present o d name e Kind.regular_file x s) rp
        ∙ ap (λ x. visit_file o d name e x s) em
        ∙ ap (λ x. visit_eml o name e x s) dp
        ∙ ap (λ x. add_file name e x e.last_write_time s) hs
        ∙ ap (λ x. add_file name e (some size) x s) ht

    directory_lands :
        (d : PendingDir) (e : Entry) (s : Scan)
        → IsAdmitted o fs d e Kind.directory
        → visit_entry o d e s ≡ record s { stack = inside o fs d e ∷ s.stack }
    unfolding visit_entry
    directory_lands d e s (i, st, rp, dp) =
        let name = name_of o fs d e in
        ap (λ x. visit_status o d e x s) st
        ∙ ap (λ x. visit_present o d name e Kind.directory x s) rp
        ∙ ap (λ x. visit_directory o d name e x s) dp

    file_found :
        (d : PendingDir) (e : Entry) (size : ℕ) (time : FileTimeUtc) (es : List Entry) (s : Scan)
        → IsIn e es
        → IsAdmitted o fs d e Kind.regular_file
        → is_eml e ≡ true
        → e.file_size ≡ some size
        → e.last_write_time ≡ some time
        → IsIn (manifest_entry (name_of o fs d e) e size time) (visit_entries o d es s).entries
    unfolding visit_entries
    file_found d e size time [] s h a em hs ht = elim h [ ]
    file_found d e size time (f ∷ es) s (inl same) a em hs ht =
        let m = manifest_entry (name_of o fs d e) e size time in
        let landed =
          ap (λ x. visit_entry o d x s) (sym same) ∙ file_lands d e size time s a em hs ht in
        (entries-Keeps d es (visit_entry o d f s)).found m
          (subst (λ t. IsIn m t.entries) (sym landed) (at_end m s.entries))
    file_found d e size time (f ∷ es) s (inr h) a em hs ht =
        file_found d e size time es (visit_entry o d f s) h a em hs ht

    directory_found :
        (d : PendingDir) (e : Entry) (es : List Entry) (s : Scan)
        → IsIn e es
        → IsAdmitted o fs d e Kind.directory
        → IsIn (inside o fs d e) (visit_entries o d es s).stack
    unfolding visit_entries
    directory_found d e [] s h a = elim h [ ]
    directory_found d e (f ∷ es) s (inl same) a =
        let landed = ap (λ x. visit_entry o d x s) (sym same) ∙ directory_lands d e s a in
        (entries-Keeps d es (visit_entry o d f s)).pending (inside o fs d e)
          (subst (λ t. IsIn (inside o fs d e) t.stack) (sym landed) (inl refl))
    directory_found d e (f ∷ es) s (inr h) a = directory_found d e es (visit_entry o d f s) h a

    -- What is below a directory is found when it is visited, or below one that then waits.
    abbrev IsCovered : ManifestEntry → Scan → Type 0
    IsCovered m t = IsIn m t.entries ⊎ ((c : PendingDir) × IsIn c t.stack × IsBelow o fs c m)

    broken-Keeps : (d : PendingDir) (b : Bool) (t : Scan) → Keeps t (broken_off o d b t)
    broken-Keeps d true t = record { found = λ m h. h; pending = λ c h. h }
    broken-Keeps d false t = Keeps-all t

    listing_covers :
        (d : PendingDir) (m : ManifestEntry) (l : Option (List Entry × Bool)) (s : Scan)
        → fs.listing d.absolute ≡ l
        → IsBelow o fs d m
        → IsCovered m (visit_listing o d l s)
    listing_covers d _ none s e (IsBelow.file f size time a em hs ht) =
        elim (subst (λ l. IsIn f (entries_of l)) e a.0) [ ]
    listing_covers d m none s e (IsBelow.deeper f a below) =
        elim (subst (λ l. IsIn f (entries_of l)) e a.0) [ ]
    listing_covers d _ (some (es, b)) s e (IsBelow.file f size time a em hs ht) =
        let listed = subst (λ l. IsIn f (entries_of l)) e a.0 in
        inl (
          (broken-Keeps d b (visit_entries o d es s)).found
            (manifest_entry (name_of o fs d f) f size time)
            (file_found d f size time es s listed a em hs ht))
    listing_covers d m (some (es, b)) s e (IsBelow.deeper f a below) =
        let listed = subst (λ l. IsIn f (entries_of l)) e a.0 in
        inr (
          inside o fs d f,
          (broken-Keeps d b (visit_entries o d es s)).pending (inside o fs d f)
              (directory_found d f es s listed a),
          below,
        )

    -- A walk that ends with an empty stack has kept what it had, and found all that was below.
    record FindsAll (stack : List PendingDir) (s t : Scan) : Type 0 where
      kept : (m : ManifestEntry) → IsIn m s.entries → IsIn m t.entries
      all :
          (d : PendingDir)
          → IsIn d stack
          → (m : ManifestEntry) → IsBelow o fs d m
          → IsIn m t.entries

    walk-FindsAll :
        (fuel : ℕ) (stack : List PendingDir) (rest : Scan)
        → (walk o fs fuel (record rest { stack = stack })).stack ≡ []
        → FindsAll stack rest (walk o fs fuel (record rest { stack = stack }))
    unfolding walk
    walk-FindsAll zero stack rest h = record {
      kept = λ m k. k;
      all = λ d k m below. elim (subst (IsIn d) h k) [ ];
    }
    walk-FindsAll (suc fuel) [] rest h = record { kept = λ m k. k; all = λ d k m below. elim k [ ] }
    walk-FindsAll (suc fuel) (d ∷ stack) rest h =
        let s : Scan = record rest { stack = stack } in
        let next = visit_listing o d (fs.listing d.absolute) s in
        let keeps = listing-Keeps d (fs.listing d.absolute) s in
        let after = walk-FindsAll fuel next.stack next h in
        record {
          kept = λ m k. after.kept m (keeps.found m k);
          all = λ c k m below. elim k [
            | inl same ↦
                elim (listing_covers d m (fs.listing d.absolute) s refl
                  (subst (λ x. IsBelow o fs x m) same below)) [
                    | inl found ↦ after.kept m found
                    | inr (x, waits, under) ↦ after.all x waits m under
                  ]
            | inr old ↦ after.all c (keeps.pending c old) m below
          ];
        }

module _ (m x : ManifestEntry) where
  out_of :
      (b : Bool) (y : ManifestEntry) (r ys : List ManifestEntry)
      → (IsIn m r → (m ≡ x) ⊎ IsIn m ys)
      → IsIn m (if b then y ∷ r else x ∷ y ∷ ys)
      → (m ≡ x) ⊎ IsIn m (y ∷ ys)
  out_of true y r ys f (inl e) = inr (inl e)
  out_of true y r ys f (inr h) = elim (f h) [ inl e ↦ inl e | inr k ↦ inr (inr k) ]
  out_of false y r ys f (inl e) = inl e
  out_of false y r ys f (inr h) = inr h

  into :
      (b : Bool) (y : ManifestEntry) (r ys : List ManifestEntry)
      → ((m ≡ x) ⊎ IsIn m ys → IsIn m r)
      → (m ≡ x) ⊎ IsIn m (y ∷ ys)
      → IsIn m (if b then y ∷ r else x ∷ y ∷ ys)
  into true y r ys f (inl e) = inr (f (inl e))
  into true y r ys f (inr (inl e)) = inl e
  into true y r ys f (inr (inr h)) = inr (f (inr h))
  into false y r ys f (inl e) = inl e
  into false y r ys f (inr h) = inr h

  IsIn-inserted : (xs : List ManifestEntry) → IsIn m (insert_entry x xs) ↔ ((m ≡ x) ⊎ IsIn m xs)
  unfolding insert_entry
  IsIn-inserted [] = ((λ h. h), (λ h. h))
  IsIn-inserted (y ∷ ys) =
      let b = sorts_before y.relative_path x.relative_path in
      let (f, g) = IsIn-inserted ys in
      (out_of b y (insert_entry x ys) ys f, into b y (insert_entry x ys) ys g)

IsIn-sorted : (m : ManifestEntry) (xs : List ManifestEntry) → IsIn m (sort_entries xs) ↔ IsIn m xs
unfolding sort_entries
IsIn-sorted m [] = ((λ h. h), (λ h. h))
IsIn-sorted m (x ∷ xs) =
    let (f, g) = IsIn-inserted m x (sort_entries xs) in
    let (f', g') = IsIn-sorted m xs in
    (
      (λ h. elim (f h) [ inl e ↦ inl e | inr k ↦ inr (f' k) ]),
      (λ h. g (elim h [ inl e ↦ inl e | inr k ↦ inr (g' k) ])),
    )

-- The root of a scan.
abbrev pub root_dir : ScanOptions → PendingDir
root_dir o = record { absolute = root_path o; relative = []; depth = 0 }

IsIn-walk :
    (o : ScanOptions) (fs : FileSystem) (m : ManifestEntry)
    → IsIn m (whole_walk o fs).entries ↔ IsBelow o fs (root_dir o) m
unfolding whole_walk
IsIn-walk o fs m =
    let fuel = directories fs o.max_depth (root_path o) in
    let start = start_scan (root_path o) in
    let all = walk-FindsAll o fs fuel start.stack start (whole_walk_ends o fs) in
    let sound = walk-IsSound o fs (root_dir o) fuel start.stack start (record {
      found = λ n k. elim k [ ];
      pending = λ d k n below. elim k [
        | inl e ↦ subst (λ x. IsBelow o fs x n) e below
        | inr k' ↦ elim k' [ ]
      ];
    }) in
    (sound.found m, all.all (root_dir o) (inl refl) m)

found_iff :
    (o : ScanOptions) (fs : FileSystem) (r : ScanResult) (m : ManifestEntry) (b : Bool)
    → scanned b o fs ≡ ok r
    → IsIn m r.entries ↔ IsBelow o fs (root_dir o) m
unfolding scan_result
found_iff o fs r m true h =
    let same : (scan_result (whole_walk o fs)).entries ≡ r.entries =
      ap (λ x. x.entries) (ok-injective h) in
    let (f, g) = IsIn-sorted m (whole_walk o fs).entries in
    let (f', g') = IsIn-walk o fs m in
    ((λ k. f' (f (subst (IsIn m) (sym same) k))), (λ k. subst (IsIn m) same (g (g' k))))
found_iff o fs r m false h = absurd (err_ok h)

-- Where the scan succeeds, its manifest has exactly the files below the root: each regular file
-- that has the extension .eml in any case, is no reparse point, is not too deep, whose size and
-- time can be read, in the root or in directories that are no reparse points and not too deep,
-- with its path relative to the root, its size and its time.
pub scanned_iff :
    (o : ScanOptions) (fs : FileSystem) (r : ScanResult) (m : ManifestEntry)
    → scan_source_tree o fs ≡ ok r
    → IsIn m r.entries ↔ IsBelow o fs (root_dir o) m
unfolding scan_source_tree
scanned_iff o fs r m h = found_iff o fs r m (fs.is_directory (root_path o)) h
