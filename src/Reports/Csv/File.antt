-- ===== src/Reports/Csv/File.antt =====
-- What the file of worker/reporting/errors_csv.cpp holds, whichever calls of the stream fail.
use mathlib.Core.Path.{subst}
use mathlib.Core.List.{append_assoc, append-nil}
use eml_to_pst.Base.{
  IsIn, ◌≡◌, refl, sym, ap, ◌∙◌, List, [], ◌∷◌, ◌++◌, Bool, true, false, inl, inr, ◌⊎◌, arith,
  Bool-cases,
}
use eml_to_pst.Base.Text.{Bytes, codes}
use eml_to_pst.Base.Outcome.{Status, ok, err}
use eml_to_pst.Pipeline.{ErrorsCsvRow}
use eml_to_pst.Reports.Csv.{
  bom, header_line, row_fields, Disk, Writer, new_writer, open_stream, write_bytes, ensure_created,
  write_row, append, with_header, created_or_error, after_created, appended_or_error, put_header,
  open_unless,
}
use eml_to_pst.Reports.Csv.Growth.{text_of, IsPrefix, Grows, then-Grows, write-Grows, row-Grows}

-- The mark, the header and the end of its line.
abbrev pub heading : Bytes
heading = bom ++ (header_line ++ codes "\r\n")

abbrev pub rows_text : List ErrorsCsvRow → Bytes
rows_text [] = []
rows_text (row ∷ rows) = text_of (row_fields row) ++ rows_text rows

-- What stands behind the rows that were reported as written: nothing where the stream has not
-- failed, else a part, from its start, of the text of one of the rows that were tried.
abbrev pub IsRest : List ErrorsCsvRow → Bool → Bytes → Type 0
IsRest tried false more = more ≡ []
IsRest tried true more =
    (row : ErrorsCsvRow) × IsIn row tried × IsPrefix more (text_of (row_fields row))

-- The rows that were reported as written, with what the stream has taken. A file without its
-- header does not count as created.
abbrev pub IsRecorded : List ErrorsCsvRow → List ErrorsCsvRow → Writer → Type 0
IsRecorded tried rows w =
    ((w.created ≡ false) × (rows ≡ []) × IsPrefix w.taken heading)
    ⊎ ((w.created ≡ true)
        × (more : Bytes) × (w.taken ≡ heading ++ (rows_text rows ++ more))
        × IsRest tried w.failed more)

abbrev pub note : ErrorsCsvRow → List ErrorsCsvRow → Status × Writer → List ErrorsCsvRow × Writer
note row rows (ok u, w) = (rows ++ row ∷ [], w)
note row rows (err e, w) = (rows, w)

rows_text-append :
    (rows : List ErrorsCsvRow) (row : ErrorsCsvRow)
    → rows_text (rows ++ row ∷ []) ≡ rows_text rows ++ text_of (row_fields row)
rows_text-append [] row = append-nil (text_of (row_fields row))
rows_text-append (r ∷ rows) row =
    ap (λ t. text_of (row_fields r) ++ t) (rows_text-append rows row)
    ∙ sym (append_assoc (text_of (row_fields r)) (rows_text rows) (text_of (row_fields row)))

-- What a write of `row` leaves behind the rows where it fails: what a failure before left, or a
-- part of this row.
Grows-IsRest :
    (tried : List ErrorsCsvRow) (row : ErrorsCsvRow) (w w' : Writer) (more : Bytes) (b : Bool)
    → IsIn row tried
    → (g : Grows w w' (text_of (row_fields row))) → w.failed ≡ b
    → IsRest tried b more
    → IsRest tried true (more ++ g.x)
Grows-IsRest tried row w w' more true among g e rest =
    subst (IsRest tried true) (sym (append-nil more) ∙ ap (λ t. more ++ t) (sym (g.stuck e).0)) rest
Grows-IsRest tried row w w' more false among g e rest =
    subst (IsRest tried true) (ap (λ t. t ++ g.x) (sym rest)) (row, among, g.part)

-- The row of a file that is there.
noted_row :
    (disk : Disk) (tried : List ErrorsCsvRow) (row : ErrorsCsvRow) (rows : List ErrorsCsvRow)
    (w w' : Writer) (more : Bytes) (b : Bool)
    → IsIn row tried
    → Grows w w' (text_of (row_fields row))
    → w.created ≡ true
    → w.taken ≡ heading ++ (rows_text rows ++ more)
    → IsRest tried w.failed more
    → w'.failed ≡ b
    → let noted = note row rows (appended_or_error disk b w') in IsRecorded tried noted.0 noted.1
noted_row disk tried row rows w w' more true among g there taken rest e = inr (
  g.same ∙ there,
  more ++ g.x,
  g.taken
      ∙ ap (λ t. t ++ g.x) taken
      ∙ append_assoc heading (rows_text rows ++ more) g.x
      ∙ ap (λ t. heading ++ t) (append_assoc (rows_text rows) more g.x),
  subst (λ f. IsRest tried f (more ++ g.x)) (sym e)
      (Grows-IsRest tried row w w' more w.failed among g refl rest),
)
noted_row disk tried row rows w w' more false among g there taken rest e = inr (
  g.same ∙ there,
  [],
  g.taken
      ∙ ap (λ t. t ++ g.x) taken
      ∙ ap (λ t. (heading ++ (rows_text rows ++ t)) ++ g.x)
          (subst (λ f. IsRest tried f more) (g.before e) rest)
      ∙ ap (λ t. (heading ++ (rows_text rows ++ [])) ++ t) (g.whole e)
      ∙ append_assoc heading (rows_text rows ++ []) (text_of (row_fields row))
      ∙ ap (λ t. heading ++ (t ++ text_of (row_fields row))) (append-nil (rows_text rows))
      ∙ ap (λ t. heading ++ t)
          (sym (rows_text-append rows row) ∙ sym (append-nil (rows_text (rows ++ row ∷ [])))),
  subst (λ f. IsRest tried f []) (sym e) refl,
)

module _ (disk : Disk) where
  header-Grows : (w : Writer) → Grows w (put_header disk w) heading
  header-Grows w =
      let marked = write_bytes disk bom w in
      let named = write_bytes disk header_line marked in
      then-Grows (write-Grows disk bom w)
        (then-Grows (write-Grows disk header_line marked) (write-Grows disk (codes "\r\n") named))

  opened_empty :
      (w : Writer) → (open_stream disk w).failed ≡ false → (open_stream disk w).taken ≡ []
  unfolding open_stream
  opened_empty w h = ground arith

  opened_created : (w : Writer) → (open_stream disk w).created ≡ w.created
  unfolding open_stream
  opened_created w = ground arith

  opened_taken :
      (w : Writer) → IsPrefix w.taken heading → IsPrefix (open_stream disk w).taken heading
  unfolding open_stream
  opened_taken w h = elim (Bool-cases w.is_open) [
    | inl e ↦ rw e h
    | inr e ↦ elim (Bool-cases (disk.succeeds w.calls)) [
      | inl s ↦ rw (e, s) (heading, refl)
      | inr s ↦ rw (e, s) h
    ]
  ]

  module _ (tried : List ErrorsCsvRow) where
    abbrev noted : ErrorsCsvRow → List ErrorsCsvRow → Status × Writer → List ErrorsCsvRow × Writer
    noted row rows r = note row rows (after_created disk row r)

    abbrev NotedIsRecorded : ErrorsCsvRow → List ErrorsCsvRow → Status × Writer → Type 0
    NotedIsRecorded row rows r = IsRecorded tried (noted row rows r).0 (noted row rows r).1

    -- The first row: `w` is the stream behind `open`.
    after_header :
        (row : ErrorsCsvRow) (w w' : Writer) (b : Bool)
        → IsIn row tried
        → Grows w w' heading
        → w.taken ≡ []
        → w.created ≡ false
        → w'.failed ≡ b
        → NotedIsRecorded row [] (created_or_error disk b w')
    after_header row w w' true among g empty new e = inl (
      g.same ∙ new,
      refl,
      subst (λ t. IsPrefix t heading) (sym (g.taken ∙ ap (λ t. t ++ g.x) empty)) g.part,
    )
    after_header row w w' false among g empty new e =
        let w'' : Writer = record w' { created = true } in
        let written = write_row disk (row_fields row) w'' in
        noted_row disk tried row [] w'' written [] written.failed among
          (row-Grows disk (row_fields row) w'') refl
          (g.taken ∙ ap (λ t. t ++ g.x) empty ∙ g.whole e ∙ sym (append-nil heading))
          (subst (λ f. IsRest tried f []) (sym e) refl) refl

    after_open :
        (row : ErrorsCsvRow) (w : Writer) (b : Bool)
        → IsIn row tried
        → (w.failed ≡ false → w.taken ≡ [])
        → IsPrefix w.taken heading
        → w.created ≡ false
        → w.failed ≡ b
        → NotedIsRecorded row [] (with_header disk b w)
    after_open row w true among empty part new e = inl (new, refl, part)
    after_open row w false among empty part new e =
        after_header row w (put_header disk w) (put_header disk w).failed among (header-Grows w)
          (empty e) new refl

    ensured-IsRecorded :
        (row : ErrorsCsvRow) (rows : List ErrorsCsvRow) (w : Writer) (b : Bool)
        → IsIn row tried
        → IsRecorded tried rows w
        → w.created ≡ b
        → NotedIsRecorded row rows (open_unless disk b w)
    ensured-IsRecorded row rows w true among (inl (new, none_yet, part)) e = absurd (cc)
    ensured-IsRecorded row rows w true among (inr (there, more, taken, rest)) e =
        let written = write_row disk (row_fields row) w in
        noted_row disk tried row rows w written more written.failed among
          (row-Grows disk (row_fields row) w) there taken rest refl
    ensured-IsRecorded row rows w false among (inl (new, none_yet, part)) e =
        let opened = open_stream disk w in
        rw (none_yet) (
          after_open row opened opened.failed among (opened_empty w) (opened_taken w part)
            (opened_created w ∙ new) refl)
    ensured-IsRecorded row rows w false among (inr (there, more, taken, rest)) e = absurd (cc)

    append-IsRecorded :
        (row : ErrorsCsvRow) (rows : List ErrorsCsvRow) (w : Writer)
        → IsIn row tried
        → IsRecorded tried rows w
        → let noted = note row rows (append disk row w) in IsRecorded tried noted.0 noted.1
    unfolding append ensure_created
    append-IsRecorded row rows w among h = ensured-IsRecorded row rows w w.created among h refl

  -- One append after another, with the rows that were reported as written.
  abbrev pub append_all :
      List ErrorsCsvRow → List ErrorsCsvRow × Writer → List ErrorsCsvRow × Writer
  append_all [] (rows, w) = (rows, w)
  append_all (row ∷ more) (rows, w) = append_all more (note row rows (append disk row w))

  appends-IsRecorded :
      (tried more : List ErrorsCsvRow) (s : List ErrorsCsvRow × Writer)
      → ((row : ErrorsCsvRow) → IsIn row more → IsIn row tried)
      → IsRecorded tried s.0 s.1
      → let end = append_all more s in IsRecorded tried end.0 end.1
  appends-IsRecorded tried [] (rows, w) among h = h
  appends-IsRecorded tried (row ∷ more) (rows, w) among h =
      appends-IsRecorded tried more (note row rows (append disk row w)) (λ r i. among r (inr i))
        (append-IsRecorded tried row rows w (among row (inl refl)) h)

  -- Whichever calls of the stream fail, and however much of a write that fails is taken: after any
  -- appends by a new writer either nothing was reported as written, the file does not count as
  -- created and the stream has taken a part of the header, from its start; or the stream has taken
  -- one header, then the rows that were reported as written, in order, and behind them nothing
  -- where it has not failed, else a part, from its start, of one of the rows that were tried.
  pub append_all-IsRecorded :
      (rows : List ErrorsCsvRow)
      → let end = append_all rows ([], new_writer) in IsRecorded rows end.0 end.1
  append_all-IsRecorded rows =
      appends-IsRecorded rows rows ([], new_writer) (λ row i. i) (inl (refl, refl, (heading, refl)))
