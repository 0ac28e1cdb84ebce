-- ===== src/Headers/Window.antt =====
-- How much of the file `inspect_headers` of worker/headers/header_inspector.cpp reads.
use mathlib.Core.List.{append_assoc}
use eml_to_pst.Base.{
  ℕ, zero, suc, ◌+◌, ◌-◌, ◌≤◌, ◌≡◌, ◌≢◌, refl, sym, ap, ◌∙◌, List, [], ◌∷◌, ◌++◌, true, false,
  arith, length, length-append, length-take, length-drop, take, drop, min, Bool-cases, inl, inr,
}
use eml_to_pst.Base.Text.{Bytes, codes, text_eq, text_eq_iff}
use eml_to_pst.Lines.{Ending, Line, line_size, split_lines, push_cr, push_byte, cr_before}
use eml_to_pst.Lines.Split.{total_size, total_size-split}
use eml_to_pst.Headers.{
  add_reason, Scan, inspect_line, end_line, is_empty, inspect_lines, initial, bom, scan_window,
  conclude, inspect_headers,
}

inspect_line-separator_found :
    (raw : Bytes) (s : Scan) → (inspect_line raw s).separator_found ≡ s.separator_found
unfolding inspect_line
inspect_line-separator_found raw s = ground arith

inspect_line-pos : (raw : Bytes) (s : Scan) → (inspect_line raw s).pos ≡ s.pos
unfolding inspect_line
inspect_line-pos raw s = ground arith

inspect_lines-pos : (ls : List Line) (s : Scan) → (inspect_lines ls s).pos ≤ s.pos + total_size ls
unfolding inspect_lines
inspect_lines-pos [] s = omega arith
inspect_lines-pos (l ∷ ls) s =
    let ended = record (end_line l.ending s) { pos = s.pos + line_size l } in
    ground
      (arith, inspect_line-pos l.content ended, inspect_lines-pos ls (inspect_line l.content ended))

-- The state behind the byte order mark.
abbrev marked : Scan
marked = record initial { reasons = add_reason [] (codes "utf8-bom"); pos = 3 }

marked_length : (window : Bytes) → text_eq (take 3 window) bom ≡ true → 3 ≤ length window
marked_length window e =
    omega (arith, ap length ((text_eq_iff (take 3 window) bom).0 e), length-take {0} 3 window)

scan_window-pos : (window : Bytes) → (scan_window window).pos ≤ length window
unfolding scan_window
scan_window-pos window = elim (Bool-cases (text_eq (take 3 window) bom)) [
  | inl e ↦ rw e (
      omega (
        arith,
        inspect_lines-pos (split_lines (drop 3 window)) marked,
        total_size-split (drop 3 window),
        length-drop {0} 3 window,
        marked_length window e,
      ))
  | inr e ↦
      rw e (omega (arith, inspect_lines-pos (split_lines window) initial, total_size-split window))
]

-- No more than `cap` bytes are counted as the header, and no more than there are.
pub header_bytes_bounds :
    (raw_prefix : Bytes) (cap : ℕ)
    → (inspect_headers raw_prefix cap).header_bytes ≤ min cap (length raw_prefix)
unfolding inspect_headers conclude
header_bytes_bounds raw_prefix cap =
    let window = take (min cap (length raw_prefix)) raw_prefix in
    ground (arith, scan_window-pos window, length-take {0} (min cap (length raw_prefix)) raw_prefix)

cr_before-append :
    (content : Bytes) (e : Ending) (l : Line) (a b : List Line)
    → cr_before content e l (a ++ b) ≡ cr_before content e l a ++ b
cr_before-append [] Ending.lf l a b = refl
cr_before-append _ _ l a b = refl

push_cr-append : (a b : List Line) → a ≢ [] → push_cr (a ++ b) ≡ push_cr a ++ b
push_cr-append [] b h = absurd (h refl)
push_cr-append (l ∷ a) b h = cr_before-append l.content l.ending l a b

push_byte-append : (c : ℕ) (a b : List Line) → a ≢ [] → push_byte c (a ++ b) ≡ push_byte c a ++ b
push_byte-append c [] b h = absurd (h refl)
push_byte-append c (l ∷ a) b h = refl

cr_before-ne-nil :
    (content : Bytes) (e : Ending) (l : Line) (ls : List Line) → cr_before content e l ls ≢ []
cr_before-ne-nil [] Ending.lf l ls = cc
cr_before-ne-nil _ _ l ls = cc

push_cr-ne-nil : (ls : List Line) → push_cr ls ≢ []
push_cr-ne-nil [] = cc
push_cr-ne-nil (l ∷ ls) = cr_before-ne-nil l.content l.ending l ls

push_byte-ne-nil : (c : ℕ) (ls : List Line) → push_byte c ls ≢ []
push_byte-ne-nil c [] = cc
push_byte-ne-nil c (l ∷ ls) = cc

split-ne-nil : (xs ys : Bytes) → split_lines (xs ++ b'\n' ∷ ys) ≢ []
unfolding split_lines
split-ne-nil [] ys = cc
split-ne-nil (c ∷ xs) ys = ground (
  arith,
  push_cr-ne-nil (split_lines (xs ++ b'\n' ∷ ys)),
  push_byte-ne-nil c (split_lines (xs ++ b'\n' ∷ ys)),
)

split-append :
    (xs ys : Bytes)
    → split_lines (xs ++ b'\n' ∷ ys) ≡ split_lines (xs ++ b'\n' ∷ []) ++ split_lines ys
unfolding split_lines
split-append [] ys = refl
split-append (c ∷ xs) ys = ground (
  arith,
  split-append xs ys,
  split-ne-nil xs [],
  push_cr-append (split_lines (xs ++ b'\n' ∷ [])) (split_lines ys),
  push_byte-append c (split_lines (xs ++ b'\n' ∷ [])) (split_lines ys),
)

end_line-separator_found :
    (e : Ending) (s : Scan) → (end_line e s).separator_found ≡ s.separator_found
end_line-separator_found Ending.cr s = refl
end_line-separator_found _ s = refl

inspect_lines-append :
    (a b : List Line) (s : Scan)
    → s.separator_found ≡ false
    → (inspect_lines a s).separator_found ≡ true
    → inspect_lines (a ++ b) s ≡ inspect_lines a s
unfolding inspect_lines
inspect_lines-append [] b s f h = cc
inspect_lines-append (l ∷ a) b s f h = elim (Bool-cases (is_empty l.content)) [
  | inl e ↦ rw e refl
  | inr e ↦
      let ended = record (end_line l.ending s) { pos = s.pos + line_size l } in
      let next = inspect_line l.content ended in
      rw e (
        inspect_lines-append a b next
          (inspect_line-separator_found l.content ended ∙ end_line-separator_found l.ending s ∙ f)
          (rw e at h))
]

-- Whether the byte order mark stands in front does not depend on what follows a line end.
bom-append :
    (xs ys : Bytes)
    → text_eq (take 3 (xs ++ b'\n' ∷ ys)) bom ≡ text_eq (take 3 (xs ++ b'\n' ∷ [])) bom
unfolding text_eq
bom-append [] ys = ground arith
bom-append (x ∷ []) ys = ground arith
bom-append (x ∷ y ∷ []) ys = ground arith
bom-append (x ∷ y ∷ z ∷ xs) ys = refl

drop-append :
    (xs ys : Bytes)
    → text_eq (take 3 (xs ++ b'\n' ∷ [])) bom ≡ true
    → (zs : Bytes) × (drop 3 (xs ++ b'\n' ∷ ys) ≡ zs ++ b'\n' ∷ ys)
      × (drop 3 (xs ++ b'\n' ∷ []) ≡ zs ++ b'\n' ∷ [])
unfolding text_eq
drop-append [] ys h = absurd (ground arith)
drop-append (x ∷ []) ys h = absurd (ground arith)
drop-append (x ∷ y ∷ []) ys h = absurd (ground arith)
drop-append (x ∷ y ∷ z ∷ xs) ys h = (xs, refl, refl)

inspect-append :
    (xs ys : Bytes) (s : Scan)
    → s.separator_found ≡ false
    → (inspect_lines (split_lines (xs ++ b'\n' ∷ [])) s).separator_found ≡ true
    → inspect_lines (split_lines (xs ++ b'\n' ∷ ys)) s
      ≡ inspect_lines (split_lines (xs ++ b'\n' ∷ [])) s
inspect-append xs ys s f h =
    rw (split-append xs ys)
      (inspect_lines-append (split_lines (xs ++ b'\n' ∷ [])) (split_lines ys) s f h)

scan_window-append :
    (xs ys : Bytes)
    → (scan_window (xs ++ b'\n' ∷ [])).separator_found ≡ true
    → scan_window (xs ++ b'\n' ∷ ys) ≡ scan_window (xs ++ b'\n' ∷ [])
unfolding scan_window
scan_window-append xs ys h = elim (Bool-cases (text_eq (take 3 (xs ++ b'\n' ∷ [])) bom)) [
  | inl e ↦
      let (zs, p, q) = drop-append xs ys e in
      rw (bom-append xs ys, e, p, q) (inspect-append zs ys marked refl (rw (e, q) at h))
  | inr e ↦ rw (bom-append xs ys, e) (inspect-append xs ys initial refl (rw e at h))
]

take-all : (n : ℕ) (xs : Bytes) → length xs ≤ n → take n xs ≡ xs
take-all zero [] h = refl
take-all zero (x ∷ xs) h = absurd (omega arith)
take-all (suc n) [] h = refl
take-all (suc n) (x ∷ xs) h = ap (λ t. x ∷ t) (take-all n xs (omega arith))

take-append :
    (n : ℕ) (xs ys : Bytes) → length xs ≤ n → take n (xs ++ ys) ≡ xs ++ take (n - length xs) ys
take-append n [] ys h = ap (λ m. take m ys) (omega arith)
take-append zero (x ∷ xs) ys h = absurd (omega arith)
take-append (suc n) (x ∷ xs) ys h =
    ap (λ t. x ∷ t) (take-append n xs ys (omega arith) ∙ ap (λ m. xs ++ take m ys) (omega arith))

conclude_found :
    (m n : ℕ) (s : Scan) → (conclude n s).separator_found ≡ true → conclude m s ≡ conclude n s
unfolding conclude
conclude_found m n s h = rw h refl

conclude-separator_found : (n : ℕ) (s : Scan) → (conclude n s).separator_found ≡ s.separator_found
unfolding conclude
conclude-separator_found n s = refl

window_with_body :
    (head body : Bytes) (n : ℕ)
    → length (head ++ b'\n' ∷ []) ≤ n
    → (rest : Bytes) × (take n (head ++ b'\n' ∷ body) ≡ head ++ b'\n' ∷ rest)
window_with_body head body n h =
    let front = head ++ b'\n' ∷ [] in
    let rest = take (n - length front) body in
    (
      rest,
      ap (take n) (sym (append_assoc head (b'\n' ∷ []) body))
          ∙ take-append n front body h
          ∙ append_assoc head (b'\n' ∷ []) rest,
    )

-- Nothing behind the blank line is read: where it stands in `head`, a text that ends a line,
-- the inspection of `head` with any body behind it is that of `head` alone.
pub inspect_ignores_body :
    (head body : Bytes) (cap : ℕ)
    → length (head ++ b'\n' ∷ []) ≤ cap
    → (inspect_headers (head ++ b'\n' ∷ []) cap).separator_found ≡ true
    → inspect_headers (head ++ b'\n' ∷ body) cap ≡ inspect_headers (head ++ b'\n' ∷ []) cap
unfolding inspect_headers
inspect_ignores_body head body cap h found =
    let front = head ++ b'\n' ∷ [] in
    let text = head ++ b'\n' ∷ body in
    let alone : take (min cap (length front)) front ≡ front =
      take-all (min cap (length front)) front (omega arith) in
    let (rest, cut) =
      window_with_body head body (min cap (length text)) (
        omega
          (arith, length-append {0} head (b'\n' ∷ []), length-append {0} head (b'\n' ∷ body))) in
    let found' : (conclude (length front) (scan_window front)).separator_found ≡ true =
      rw alone at found in
    let same = scan_window-append head rest (rw conclude-separator_found at found') in
    rw (alone, cut, same) (conclude_found _ (length front) (scan_window front) found')
