-- ===== src/Reports/Csv/Growth.antt =====
-- What one write of worker/reporting/errors_csv.cpp adds to the stream, whichever calls fail.
use mathlib.Core.List.{append_assoc, append-nil}
use eml_to_pst.Base.{
  ℕ, zero, suc, ◌≡◌, refl, sym, ap, ◌∙◌, List, [], ◌∷◌, ◌++◌, Bool, true, false, not, ◌||◌, inl,
  inr, Bool-cases, take,
}
use eml_to_pst.Base.Text.{Bytes, codes}
use eml_to_pst.Reports.Csv.{csv_escape, Disk, Writer, write_bytes, write_more, write_row}
use eml_to_pst.Reports.Csv.Rows.{more_text, record_text}

abbrev pub text_of : List Bytes → Bytes
text_of [] = codes "\r\n"
text_of (f ∷ fs) = record_text f fs

-- `bytes` begins with `x`.
abbrev pub IsPrefix : Bytes → Bytes → Type 0
IsPrefix x bytes = (rest : Bytes) × (bytes ≡ x ++ rest)

take-IsPrefix : (n : ℕ) (bytes : Bytes) → IsPrefix (take n bytes) bytes
take-IsPrefix zero bytes = (bytes, refl)
take-IsPrefix (suc n) [] = ([], refl)
take-IsPrefix (suc n) (c ∷ cs) = let (rest, e) = take-IsPrefix n cs in (rest, ap (λ t. c ∷ t) e)

-- A part of the first text, then a part of the second; nothing of the second where the first
-- was not taken whole.
parts-IsPrefix :
    (x y a b : Bytes) (failed : Bool)
    → IsPrefix x a
    → IsPrefix y b
    → (failed ≡ false → x ≡ a)
    → (failed ≡ true → y ≡ [])
    → IsPrefix (x ++ y) (a ++ b)
parts-IsPrefix x y a b false p (rest, e) whole stuck = (
  rest,
  ap (λ t. a ++ t) e ∙ ap (λ t. t ++ (y ++ rest)) (sym (whole refl)) ∙ sym (append_assoc x y rest),
)
parts-IsPrefix x y a b true (rest, e) q whole stuck = (
  rest ++ b,
  ap (λ t. t ++ b) e
      ∙ append_assoc x rest b
      ∙ ap (λ t. t ++ (rest ++ b)) (sym (append-nil x) ∙ ap (λ t. x ++ t) (sym (stuck refl))),
)

-- From `w` to `w'` the stream has taken `x`, a part of `bytes` from its start; where it has not
-- failed, `x` is `bytes`. A stream that had failed takes nothing.
pub record Grows (w w' : Writer) (bytes : Bytes) : Type 0 where
  pub x : Bytes
  pub part : IsPrefix x bytes
  pub stuck : w.failed ≡ true → (x ≡ []) × (w'.failed ≡ true)
  pub taken : w'.taken ≡ w.taken ++ x
  pub same : w'.created ≡ w.created
  pub whole : w'.failed ≡ false → x ≡ bytes
  pub before : w'.failed ≡ false → w.failed ≡ false

pub then-Grows : {u v w : Writer} {a b : Bytes} → Grows u v a → Grows v w b → Grows u w (a ++ b)
then-Grows {u} {v} {w} {a} {b} g h = record {
  x = g.x ++ h.x;
  part = parts-IsPrefix g.x h.x a b v.failed g.part h.part g.whole (λ e. (h.stuck e).0);
  stuck = λ e.
      let (none_first, failed) = g.stuck e in
      let (none_second, failed') = h.stuck failed in
      (ap (λ t. t ++ h.x) none_first ∙ none_second, failed');
  taken = h.taken ∙ ap (λ t. t ++ h.x) g.taken ∙ append_assoc u.taken g.x h.x;
  same = h.same ∙ g.same;
  whole = λ e. ap (λ t. t ++ h.x) (g.whole (h.before e)) ∙ ap (λ t. a ++ t) (h.whole e);
  before = λ e. g.before (h.before e);
}

module _ (disk : Disk) where
  pub write-Grows : (bytes : Bytes) (w : Writer) → Grows w (write_bytes disk bytes w) bytes
  unfolding write_bytes
  write-Grows bytes w = elim (Bool-cases (w.failed || not w.is_open)) [
    | inl e ↦
        rw (write_bytes, e)
          (record {
            x = [];
            part = (bytes, refl);
            stuck = λ f. (refl, refl);
            taken = sym (append-nil w.taken);
            same = refl;
            whole = λ f. absurd (cc);
            before = λ f. absurd (cc);
          })
    | inr e ↦ elim (Bool-cases (disk.succeeds w.calls)) [
      | inl s ↦
          rw (write_bytes, e, s)
            (record {
              x = bytes;
              part = ([], sym (append-nil bytes));
              stuck = λ f. absurd (cc);
              taken = refl;
              same = refl;
              whole = λ f. refl;
              before = λ f. f;
            })
      | inr s ↦
          rw (write_bytes, e, s)
            (record {
              x = take (disk.takes w.calls) bytes;
              part = take-IsPrefix (disk.takes w.calls) bytes;
              stuck = λ f. absurd (cc);
              taken = refl;
              same = refl;
              whole = λ f. absurd (cc);
              before = λ f. absurd (cc);
            })
    ]
  ]

  more-Grows : (fs : List Bytes) (w : Writer) → Grows w (write_more disk fs w) (more_text fs)
  unfolding write_more
  more-Grows [] w = write-Grows (codes "\r\n") w
  more-Grows (f ∷ fs) w =
      let comma = write_bytes disk (codes ",") w in
      let written = write_bytes disk (csv_escape f) comma in
      then-Grows (write-Grows (codes ",") w)
        (then-Grows (write-Grows (csv_escape f) comma) (more-Grows fs written))

  pub row-Grows : (fs : List Bytes) (w : Writer) → Grows w (write_row disk fs w) (text_of fs)
  unfolding write_more
  row-Grows [] w = write-Grows (codes "\r\n") w
  row-Grows (f ∷ fs) w =
      then-Grows (write-Grows (csv_escape f) w) (more-Grows fs (write_bytes disk (csv_escape f) w))
