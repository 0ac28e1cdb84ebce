-- ===== src/Reports/Csv/Rows.antt =====
-- The rows that worker/reporting/errors_csv.cpp writes, against a reader of RFC 4180.
use mathlib.Core.List.{append_assoc}
use eml_to_pst.Base.{
  ℕ, ◌≡◌, refl, ap, ◌∙◌, List, [], ◌∷◌, ◌++◌, true, false, ◌||◌, Option, none, some, ◌==◌,
  if◌then◌else◌, inl, inr, Bool-cases, arith,
}
use eml_to_pst.Base.Text.{Bytes, codes}
use eml_to_pst.Reports.Csv.{needs_quote, double_quotes, csv_escape}

-- At the start of a field, in one without quotes, in one with quotes, behind a quote in such a
-- field, and between CR and LF.
pub data Place : Type 0 where
  at_start unquoted quoted behind_quote line_ending : Place

abbrev pub add_byte : ℕ → Option (List Bytes × Bytes) → Option (List Bytes × Bytes)
add_byte c (some (f ∷ fs, rest)) = some ((c ∷ f) ∷ fs, rest)
add_byte c other = other

abbrev pub new_field : Option (List Bytes × Bytes) → Option (List Bytes × Bytes)
new_field none = none
new_field (some (fs, rest)) = some ([] ∷ fs, rest)

-- The fields of the first record, from a place on, and what follows the record. A quote inside a
-- field without quotes, and a line end that is not CR LF, are refused.
unfoldable pub read_from : Place → Bytes → Option (List Bytes × Bytes)
read_from p [] = none
read_from Place.at_start (c ∷ cs) =
    let opened = read_from Place.quoted cs in
    let next = new_field (read_from Place.at_start cs) in
    let ended = read_from Place.line_ending cs in
    let more = add_byte c (read_from Place.unquoted cs) in
    if c == b'"'
    then opened
    else if c == b','
    then next
    else if c == b'\r'
    then ended
    else if c == b'\n'
    then none
    else more
read_from Place.unquoted (c ∷ cs) =
    let next = new_field (read_from Place.at_start cs) in
    let ended = read_from Place.line_ending cs in
    let more = add_byte c (read_from Place.unquoted cs) in
    if c == b'"'
    then none
    else if c == b','
    then next
    else if c == b'\r'
    then ended
    else if c == b'\n'
    then none
    else more
read_from Place.quoted (c ∷ cs) =
    let closing = read_from Place.behind_quote cs in
    let more = add_byte c (read_from Place.quoted cs) in if c == b'"' then closing else more
read_from Place.behind_quote (c ∷ cs) =
    let doubled = add_byte c (read_from Place.quoted cs) in
    let next = new_field (read_from Place.at_start cs) in
    let ended = read_from Place.line_ending cs in
    if c == b'"' then doubled else if c == b',' then next else if c == b'\r' then ended else none
read_from Place.line_ending (c ∷ cs) = if c == b'\n' then some ([] ∷ [], cs) else none

unfoldable pub read_record : Bytes → Option (List Bytes × Bytes)
read_record s = read_from Place.at_start s

-- The text of a record: the escaped fields between commas, and CR LF.
abbrev pub more_text : List Bytes → Bytes
more_text [] = codes "\r\n"
more_text (f ∷ fs) = b',' ∷ csv_escape f ++ more_text fs

abbrev pub record_text : Bytes → List Bytes → Bytes
record_text f fs = csv_escape f ++ more_text fs

-- A field in front of what comes at its end.
abbrev add_all : Bytes → Option (List Bytes × Bytes) → Option (List Bytes × Bytes)
add_all [] o = o
add_all (c ∷ cs) o = add_byte c (add_all cs o)

-- A text at which a field ends.
abbrev EndsField : Bytes → Type 0
EndsField [] = ⊥
EndsField (c ∷ cs) = (c == b',' || c == b'\r') ≡ true

unquoted_ends : (r : Bytes) → EndsField r → read_from Place.unquoted r ≡ read_from Place.at_start r
unfolding read_from
unquoted_ends [] h = refl
unquoted_ends (c ∷ r) h = ground arith

quoted_ends :
    (r : Bytes) → EndsField r → read_from Place.quoted (b'"' ∷ r) ≡ read_from Place.at_start r
unfolding read_from
quoted_ends [] h = elim h [ ]
quoted_ends (c ∷ r) h = ground arith

read_unquoted :
    (f r : Bytes)
    → needs_quote f ≡ false
    → EndsField r
    → read_from Place.unquoted (f ++ r) ≡ add_all f (read_from Place.at_start r)
unfolding read_from needs_quote
read_unquoted [] r h k = unquoted_ends r k
read_unquoted (c ∷ f) r h k = ground (arith, read_unquoted f r)

read_quoted :
    (f r : Bytes)
    → EndsField r
    → read_from Place.quoted (double_quotes f ++ b'"' ∷ r) ≡ add_all f (read_from Place.at_start r)
unfolding read_from double_quotes
read_quoted [] r k = quoted_ends r k
read_quoted (c ∷ f) r k = ground (arith, read_quoted f r)

read_clean :
    (f r : Bytes)
    → needs_quote f ≡ false
    → EndsField r
    → read_from Place.at_start (f ++ r) ≡ add_all f (read_from Place.at_start r)
unfolding read_from needs_quote
read_clean [] r h k = refl
read_clean (c ∷ f) r h k = ground (arith, read_unquoted f r)

read_in_quotes :
    (f r : Bytes)
    → EndsField r
    → read_from Place.at_start ((b'"' ∷ double_quotes f ++ b'"' ∷ []) ++ r)
      ≡ add_all f (read_from Place.at_start r)
unfolding read_from
read_in_quotes f r k =
    ap (read_from Place.quoted) (append_assoc (double_quotes f) (b'"' ∷ []) r) ∙ read_quoted f r k

read_field :
    (f r : Bytes)
    → EndsField r
    → read_from Place.at_start (csv_escape f ++ r) ≡ add_all f (read_from Place.at_start r)
unfolding csv_escape
read_field f r k = elim (Bool-cases (needs_quote f)) [
  | inl e ↦ rw (csv_escape, e) (read_in_quotes f r k)
  | inr e ↦ rw (csv_escape, e) (read_clean f r e k)
]

more_text-EndsField : (fs : List Bytes) (r : Bytes) → EndsField (more_text fs ++ r)
more_text-EndsField [] r = refl
more_text-EndsField (f ∷ fs) r = refl

add_all-some :
    (f : Bytes) (fs : List Bytes) (r : Bytes) → add_all f (some ([] ∷ fs, r)) ≡ some (f ∷ fs, r)
add_all-some [] fs r = refl
add_all-some (c ∷ f) fs r = ap (add_byte c) (add_all-some f fs r)

read_more :
    (fs : List Bytes) (r : Bytes) → read_from Place.at_start (more_text fs ++ r) ≡ some ([] ∷ fs, r)
unfolding read_from
read_more [] r = refl
read_more (f ∷ fs) r = ap new_field (
    ap (read_from Place.at_start) (append_assoc (csv_escape f) (more_text fs) r)
    ∙ read_field f (more_text fs ++ r) (more_text-EndsField fs r)
    ∙ ap (add_all f) (read_more fs r)
    ∙ add_all-some f fs r)

-- Whatever bytes the fields hold, quotes, commas and line ends among them, and whatever follows:
-- a reader of RFC 4180 reads the fields of a written record back and leaves what follows.
pub read_record-record_text :
    (f : Bytes) (fs : List Bytes) (r : Bytes)
    → read_record (record_text f fs ++ r) ≡ some (f ∷ fs, r)
unfolding read_record
read_record-record_text f fs r =
    ap (read_from Place.at_start) (append_assoc (csv_escape f) (more_text fs) r)
    ∙ read_field f (more_text fs ++ r) (more_text-EndsField fs r)
    ∙ ap (add_all f) (read_more fs r)
    ∙ add_all-some f fs r
