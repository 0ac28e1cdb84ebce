-- ===== src/Normalize/Body.antt =====
-- Which part of the file the repaired header of `normalize_eml_header` stands for: worker/normalize/eml_normalizer.cpp gives, for every input.
use mathlib.Core.List.{append-nil, append_assoc}
use mathlib.Core.Path.{ap₂}
use eml_to_pst.Base.{
  ℕ, ◌+◌, ◌≤◌, ◌≡◌, ◌≢◌, refl, sym, ap, ◌∙◌, List, [], ◌∷◌, ◌++◌, Bool, true, false, ◌||◌, arith,
  length, length-append, take, drop, min, Bool-cases, inl, inr, ◌==◌, if◌then◌else◌,
  take-append-drop,
}
use eml_to_pst.Base.Text.{Bytes, text_eq_iff}
use eml_to_pst.Lines.{Ending, Line, line_bytes, ending_bytes, split_lines}
use eml_to_pst.Lines.Split.{join_lines, join-split_lines, OpenLast, AreEnded, split_lines-AreEnded}
use eml_to_pst.Normalize.{
  Walk, Boundary, is_blank, is_bad, starts_body, without_nul, holds_nul, keep_line, walk_lines,
  walk_window, start_at, has_bom, bom, inserts, crlf_bytes, conclude, normalize_eml_header,
}

-- The bytes that are neither NUL nor part of a line end.
abbrev pub visible : Bytes → Bytes
visible [] = []
visible (c ∷ cs) =
    let rest = visible cs in if c == 0 || c == b'\r' || c == b'\n' then rest else c ∷ rest

visible-append : (xs ys : Bytes) → visible (xs ++ ys) ≡ visible xs ++ visible ys
visible-append [] ys = refl
visible-append (x ∷ xs) ys = ground (arith, visible-append xs ys)

visible-without_nul : (cs : Bytes) → visible (without_nul cs) ≡ visible cs
unfolding without_nul
visible-without_nul [] = refl
visible-without_nul (c ∷ cs) = ground (arith, visible-without_nul cs)

without_nul-id : (cs : Bytes) → holds_nul cs ≡ false → without_nul cs ≡ cs
unfolding without_nul holds_nul
without_nul-id [] h = refl
without_nul-id (c ∷ cs) h = ground (arith, without_nul-id cs)

visible_ending : (e : Ending) → visible (ending_bytes e) ≡ []
visible_ending Ending.lf = refl
visible_ending _ = refl

-- How a walk from `w` to `r` cuts the lines into what it took and the rest.
record Cut (ls : List Line) (w r : Walk) : Type 0 where
  taken : Bytes
  rest : Bytes
  splits : join_lines ls ≡ taken ++ rest
  pos_is : r.pos ≡ w.pos + length taken
  kept : visible r.header ≡ visible w.header ++ visible taken
  nul_stays : w.saw_nul ≡ true → r.saw_nul ≡ true
  bad_stays : w.saw_bad_ending ≡ true → r.saw_bad_ending ≡ true
  same :
      r.boundary ≡ Boundary.separator
      → r.saw_nul ≡ false
      → r.saw_bad_ending ≡ false
      → r.header ++ crlf_bytes ≡ w.header ++ taken

visible-nil :
    (content : Bytes) (e : Ending)
    → is_blank content ≡ true
    → visible (content ++ ending_bytes e) ≡ []
visible-nil [] e h = visible_ending e
visible-nil (c ∷ cs) e h = cc

blank_crlf :
    (content : Bytes) (e : Ending)
    → (e ≡ Ending.open_end → (content ≢ []))
    → is_blank content ≡ true
    → is_bad e ≡ false
    → content ++ ending_bytes e ≡ crlf_bytes
blank_crlf [] Ending.open_end h b k = absurd (h refl refl)
blank_crlf [] _ h b k = cc
blank_crlf (c ∷ cs) e h b k = cc

Cut-blank :
    (l : Line) (ls : List Line) (w : Walk)
    → OpenLast l ls
    → is_blank l.content ≡ true
    → Cut (l ∷ ls) w (walk_lines (l ∷ ls) w)
unfolding walk_lines
Cut-blank l ls w o e = rw e (record {
  taken = line_bytes l;
  rest = join_lines ls;
  splits = refl;
  pos_is = omega (arith, length-append {0} l.content (ending_bytes l.ending));
  kept = rw (visible-nil l.content l.ending e) (sym (append-nil (visible w.header)));
  nul_stays = λ h. h;
  bad_stays = λ h. ground arith;
  same = λ _ _ bad. rw (blank_crlf l.content l.ending (λ q. (o q).0) e (ground arith)) refl;
})

Cut-body :
    (l : Line) (ls : List Line) (w : Walk)
    → is_blank l.content ≡ false
    → starts_body l.content ≡ true
    → Cut (l ∷ ls) w (walk_lines (l ∷ ls) w)
unfolding walk_lines
Cut-body l ls w e f =
    rw (e, f)
      (record {
        taken = [];
        rest = join_lines (l ∷ ls);
        splits = refl;
        pos_is = omega arith;
        kept = sym (append-nil (visible w.header));
        nul_stays = λ h. h;
        bad_stays = λ h. ground arith;
        same = λ b. cc;
      })

kept_line : (l : Line) → visible (without_nul l.content ++ crlf_bytes) ≡ visible (line_bytes l)
kept_line l =
    rw
      (
        visible-append (without_nul l.content) crlf_bytes,
        visible-append l.content (ending_bytes l.ending),
        visible_ending l.ending,
        visible-without_nul l.content,
      )
      refl

crlf_of_good : (e : Ending) → e ≢ Ending.open_end → is_bad e ≡ false → crlf_bytes ≡ ending_bytes e
crlf_of_good Ending.crlf n b = refl
crlf_of_good Ending.open_end n b = absurd (n refl)
crlf_of_good _ n b = cc

-- A line that is kept and that nothing is repaired in stays as it was.
same_line :
    (l : Line)
    → l.ending ≢ Ending.open_end
    → holds_nul l.content ≡ false
    → is_bad l.ending ≡ false
    → without_nul l.content ++ crlf_bytes ≡ line_bytes l
same_line l n h b = rw (without_nul-id l.content h, crlf_of_good l.ending n b) refl

or_false : (a b c : Bool) → (a || b ≡ true → c ≡ true) → c ≡ false → b ≡ false
or_false a b c h e = ground (arith, h)

Cut-keep :
    (l : Line) (ls : List Line) (w r : Walk)
    → (l.ending ≡ Ending.open_end → r.boundary ≢ Boundary.separator)
    → Cut ls (keep_line l (record w { saw_bad_ending = w.saw_bad_ending || is_bad l.ending })) r
    → Cut (l ∷ ls) w r
Cut-keep l ls w r o c = record {
  taken = line_bytes l ++ c.taken;
  rest = c.rest;
  splits = rw (c.splits) (sym (append_assoc (line_bytes l) c.taken c.rest));
  pos_is = omega (
    arith,
    c.pos_is,
    length-append {0} (line_bytes l) c.taken,
    length-append {0} l.content (ending_bytes l.ending),
  );
  kept =
      c.kept
      ∙ rw
          (
            visible-append w.header (without_nul l.content ++ crlf_bytes),
            kept_line l,
            visible-append (line_bytes l) c.taken,
          )
          (append_assoc (visible w.header) (visible (line_bytes l)) (visible c.taken));
  nul_stays = λ h. c.nul_stays (ground arith);
  bad_stays = λ h. c.bad_stays (ground arith);
  same = λ b n d.
      c.same b n d
      ∙ ap (λ t. (w.header ++ t) ++ c.taken)
          (same_line l (λ q. o q b)
            (or_false w.saw_nul (holds_nul l.content) r.saw_nul c.nul_stays n)
            (or_false w.saw_bad_ending (is_bad l.ending) r.saw_bad_ending c.bad_stays d))
      ∙ append_assoc w.header (line_bytes l) c.taken;
}

walk_end : (ls : List Line) (w : Walk) → ls ≡ [] → (walk_lines ls w).boundary ≡ w.boundary
unfolding walk_lines
walk_end [] w e = refl
walk_end (l ∷ ls) w e = cc

walk-Cut :
    (ls : List Line) (w : Walk)
    → AreEnded ls
    → w.boundary ≡ Boundary.window_end
    → Cut ls w (walk_lines ls w)
unfolding walk_lines
walk-Cut [] w o b = record {
  taken = [];
  rest = [];
  splits = refl;
  pos_is = omega arith;
  kept = sym (append-nil (visible w.header));
  nul_stays = λ h. h;
  bad_stays = λ h. h;
  same = λ s _ _. cc;
}
walk-Cut (l ∷ ls) w o b = elim (Bool-cases (is_blank l.content)) [
  | inl e ↦ Cut-blank l ls w o.0 e
  | inr e ↦ elim (Bool-cases (starts_body l.content)) [
    | inl f ↦ Cut-body l ls w e f
    | inr f ↦
        rw (e, f) (Cut-keep l ls w _ (λ q s. cc (walk_end ls _ (o.0 q).1)) (walk-Cut ls _ o.1 b))
  ]
]

-- The window behind its byte order mark, and the size of the mark.
abbrev pub bom_size : Bytes → ℕ
bom_size window = if has_bom window then 3 else 0

bom_front : (window : Bytes) → has_bom window ≡ true → window ≡ bom ++ drop 3 window
bom_front window h =
    sym (take-append-drop 3 window)
    ∙ ap (λ t. t ++ drop 3 window) ((text_eq_iff (take 3 window) bom).0 h)

take-length-append : (xs ys : Bytes) → take (length xs) (xs ++ ys) ≡ xs
take-length-append [] ys = refl
take-length-append (x ∷ xs) ys = ap (λ t. x ∷ t) (take-length-append xs ys)

-- What the cut of the whole window says of its first bytes.
record CutWindow (window : Bytes) (r : Walk) : Type 0 where
  taken : Bytes
  front : take r.pos window ≡ taken
  inside : r.pos ≤ length window
  kept : visible r.header ≡ visible (drop (bom_size window) taken)
  same :
      has_bom window ≡ false
      → r.boundary ≡ Boundary.separator
      → r.saw_nul ≡ false
      → r.saw_bad_ending ≡ false
      → r.header ++ crlf_bytes ≡ taken

Cut-at_bom :
    (window : Bytes) (r : Walk)
    → has_bom window ≡ true
    → Cut (split_lines (drop 3 window)) (start_at 3) r
    → CutWindow window r
Cut-at_bom window r h c =
    let whole : window ≡ (bom ++ c.taken) ++ c.rest =
      bom_front window h
      ∙ ap (λ t. bom ++ t) (sym (join-split_lines (drop 3 window)) ∙ c.splits)
      ∙ sym (append_assoc bom c.taken c.rest) in
    let size : r.pos ≡ length (bom ++ c.taken) = omega (arith, c.pos_is) in
    record {
      taken = bom ++ c.taken;
      front = ap₂ take size whole ∙ take-length-append (bom ++ c.taken) c.rest;
      inside = omega (arith, size, ap length whole, length-append {0} (bom ++ c.taken) c.rest);
      kept = rw h c.kept;
      same = λ n. cc;
    }

Cut-at_start :
    (window : Bytes) (r : Walk)
    → has_bom window ≡ false
    → Cut (split_lines window) (start_at 0) r
    → CutWindow window r
Cut-at_start window r h c =
    let whole : window ≡ c.taken ++ c.rest = sym (join-split_lines window) ∙ c.splits in
    let size : r.pos ≡ length c.taken = omega (arith, c.pos_is) in
    record {
      taken = c.taken;
      front = ap₂ take size whole ∙ take-length-append c.taken c.rest;
      inside = omega (arith, size, ap length whole, length-append {0} c.taken c.rest);
      kept = rw h c.kept;
      same = λ _ b n d. c.same b n d;
    }

cut_window : (window : Bytes) → CutWindow window (walk_window window)
unfolding walk_window
cut_window window = elim (Bool-cases (has_bom window)) [
  | inl e ↦
      rw e (
        Cut-at_bom window _ e (walk-Cut _ (start_at 3) (split_lines-AreEnded (drop 3 window)) refl))
  | inr e ↦
      rw e (Cut-at_start window _ e (walk-Cut _ (start_at 0) (split_lines-AreEnded window) refl))
]

-- The part of the file that is looked at.
abbrev pub window_of : Bytes → ℕ → Bytes
window_of prefix cap = take (min (length prefix) cap) prefix

-- The repaired header stands for the first `original_header_bytes` bytes of the window: those are
-- there, and without the byte order mark, NULs and line ends the two texts are equal.
pub normalized-visible :
    (prefix : Bytes) (cap : ℕ)
    → ((normalize_eml_header prefix cap).original_header_bytes ≤ length (window_of prefix cap))
      × (visible (normalize_eml_header prefix cap).normalized_header
          ≡ visible (
              drop (bom_size (window_of prefix cap)) (
                take
                  (normalize_eml_header prefix cap).original_header_bytes
                  (window_of prefix cap))))
unfolding normalize_eml_header conclude
normalized-visible prefix cap =
    let c = cut_window (window_of prefix cap) in
    (
      c.inside,
      rw (visible-append (walk_window (window_of prefix cap)).header crlf_bytes, append-nil)
          (rw c.front c.kept),
    )

no_repair :
    (bom_found nul bad : Bool) (b : Boundary)
    → (bom_found || inserts b || nul || bad) ≡ false
    → (bom_found ≡ false) × (b ≡ Boundary.separator) × (nul ≡ false) × (bad ≡ false)
no_repair bom_found nul bad Boundary.separator h = ground arith
no_repair bom_found nul bad _ h = absurd (ground arith)

-- A header that is not reported as changed is the file's own, byte for byte.
pub unchanged_is_original :
    (prefix : Bytes) (cap : ℕ)
    → (normalize_eml_header prefix cap).changed ≡ false
    → (normalize_eml_header prefix cap).normalized_header
      ≡ take (normalize_eml_header prefix cap).original_header_bytes (window_of prefix cap)
unfolding normalize_eml_header conclude
unchanged_is_original prefix cap h =
    let w = walk_window (window_of prefix cap) in
    let c = cut_window (window_of prefix cap) in
    let (none_, kept, clean, ended) =
      no_repair (has_bom (window_of prefix cap)) w.saw_nul w.saw_bad_ending w.boundary h in
    c.same none_ kept clean ended ∙ sym c.front
