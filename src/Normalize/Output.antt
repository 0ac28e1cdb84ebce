-- ===== src/Normalize/Output.antt =====
-- What `normalize_eml_header` of worker/normalize/eml_normalizer.cpp gives, for every input.
use eml_to_pst.Base.{
  ℕ, ◌≡◌, refl, List, [], ◌∷◌, ◌++◌, Bool, true, not, ◌&&◌, ◌||◌, arith, length, take, drop, min,
  Bool-cases, inl, inr, ◌==◌, if◌then◌else◌,
}
use eml_to_pst.Base.Text.{Bytes}
use eml_to_pst.Lines.{Line, split_lines}
use eml_to_pst.Lines.Split.{IsPlain, ArePlain, split_lines-ArePlain}
use eml_to_pst.Normalize.{
  Walk, is_blank, starts_body, without_nul, walk_lines, walk_window, start_at, has_bom, crlf_bytes,
  conclude, normalize_eml_header,
}

-- Every CR has an LF behind it, every LF a CR in front of it, and there is no NUL.
abbrev pub is_clean : Bytes → Bool
is_clean [] = true
is_clean (c ∷ []) = not (c == b'\r' || c == b'\n' || c == 0)
is_clean (c ∷ d ∷ cs) =
    let rest = is_clean cs in
    let next = is_clean (d ∷ cs) in
    if c == b'\r' then d == b'\n' && rest else not (c == b'\n' || c == 0) && next

is_clean-append :
    (xs ys : Bytes) → is_clean xs ≡ true → is_clean ys ≡ true → is_clean (xs ++ ys) ≡ true
is_clean-append [] ys h k = k
is_clean-append (c ∷ []) [] h k = h
is_clean-append (c ∷ []) (y ∷ ys) h k = ground arith
is_clean-append (c ∷ d ∷ xs) ys h k =
    ground (arith, is_clean-append xs ys, is_clean-append (d ∷ xs) ys)

without_nul-is_clean : (cs : Bytes) → IsPlain cs → is_clean (without_nul cs) ≡ true
unfolding without_nul
without_nul-is_clean [] h = refl
without_nul-is_clean (c ∷ cs) (p, q, h) = elim (Bool-cases (c == 0)) [
  | inl e ↦ rw e (without_nul-is_clean cs h)
  | inr e ↦
      rw e (is_clean-append (c ∷ []) (without_nul cs) (ground arith) (without_nul-is_clean cs h))
]

walk-is_clean :
    (ls : List Line) (w : Walk)
    → ArePlain ls
    → is_clean w.header ≡ true
    → is_clean (walk_lines ls w).header ≡ true
unfolding walk_lines
walk-is_clean [] w p h = h
walk-is_clean (l ∷ ls) w p h = elim (Bool-cases (is_blank l.content)) [
  | inl e ↦ rw e h
  | inr e ↦ rw e (elim (Bool-cases (starts_body l.content)) [
    | inl f ↦ rw f h
    | inr f ↦ rw f (
        walk-is_clean ls _ p.1 (
          is_clean-append w.header _ h (
            is_clean-append (without_nul l.content) crlf_bytes (without_nul-is_clean l.content p.0)
              refl)))
  ])
]

window-is_clean : (window : Bytes) → is_clean (walk_window window).header ≡ true
unfolding walk_window
window-is_clean window = elim (Bool-cases (has_bom window)) [
  | inl e ↦ rw e (
      walk-is_clean (split_lines (drop 3 window)) (start_at 3)
        (split_lines-ArePlain (drop 3 window)) refl)
  | inr e ↦
      rw e (walk-is_clean (split_lines window) (start_at 0) (split_lines-ArePlain window) refl)
]

-- The repaired header has only CR LF line ends and no NUL.
pub normalized-is_clean :
    (prefix : Bytes) (cap : ℕ) → is_clean (normalize_eml_header prefix cap).normalized_header ≡ true
unfolding normalize_eml_header conclude walk_window
normalized-is_clean prefix cap =
    is_clean-append (walk_window window).header crlf_bytes (window-is_clean window) refl
  where
    window : Bytes
    window = take (min (length prefix) cap) prefix
