-- ===== src/Normalize/NulLine.antt =====
-- A line of NULs in the header section: eml_normalizer.cpp scrubs it and keeps what is left.
use mathlib.Core.List.{append-nil, append_assoc}
use eml_to_pst.Base.{
  ℕ, zero, suc, ◌≤◌, ◌≡◌, refl, sym, ap, ◌∙◌, List, [], ◌∷◌, ◌++◌, ◌||◌, false, arith, length, take,
  replicate, min, Bool-cases, inl, inr,
}
use eml_to_pst.Base.Text.{Bytes, text_eq}
use eml_to_pst.Lines.{Ending, Line, split_lines}
use eml_to_pst.Normalize.{
  Walk, is_bad, keep_line, is_blank, starts_body, holds_nul, without_nul, walk_lines, walk_window,
  start_at, has_bom, crlf_bytes, conclude, normalize_eml_header,
}

walk_prefix :
    (ls : List Line) (w : Walk) → (out : Bytes) × ((walk_lines ls w).header ≡ w.header ++ out)
unfolding walk_lines
walk_prefix [] w = ([], sym (append-nil w.header))
walk_prefix (l ∷ ls) w = elim (Bool-cases (is_blank l.content)) [
  | inl e ↦ rw e ([], sym (append-nil w.header))
  | inr e ↦ elim (Bool-cases (starts_body l.content)) [
    | inl f ↦ rw (e, f) ([], sym (append-nil w.header))
    | inr f ↦
        let kept = without_nul l.content ++ crlf_bytes in
        let (out, h) =
          walk_prefix ls
            (keep_line l (record w { saw_bad_ending = w.saw_bad_ending || is_bad l.ending })) in
        rw (e, f) (kept ++ out, h ∙ append_assoc w.header kept out)
  ]
]

split-nuls :
    (n : ℕ) (rest : Bytes)
    → split_lines (replicate n 0 ++ (crlf_bytes ++ rest))
      ≡ record { content = replicate n 0; ending = Ending.crlf } ∷ split_lines rest
unfolding split_lines
split-nuls zero rest = refl
split-nuls (suc n) rest = rw (split-nuls n rest) refl

without_nul-nuls : (n : ℕ) → without_nul (replicate n 0) ≡ []
unfolding without_nul
without_nul-nuls zero = refl
without_nul-nuls (suc n) = without_nul-nuls n

take-all : (n : ℕ) (xs : Bytes) → length xs ≤ n → take n xs ≡ xs
take-all zero [] h = refl
take-all zero (x ∷ xs) h = absurd (omega arith)
take-all (suc n) [] h = refl
take-all (suc n) (x ∷ xs) h = ap (λ t. x ∷ t) (take-all n xs (omega arith))

nuls-starts_body : (n : ℕ) → starts_body (replicate (suc n) 0) ≡ false
unfolding starts_body holds_nul
nuls-starts_body n = ground arith

-- A walk whose first line is kept and leaves nothing visible begins with a blank line.
walk-nul_line :
    (n : ℕ) (ls : List Line) (w : Walk)
    → w.header ≡ []
    → (tail : Bytes) × ((walk_lines
          (record { content = replicate (suc n) 0; ending = Ending.crlf } ∷ ls)
          w).header
        ≡ crlf_bytes ++ tail)
unfolding walk_lines
walk-nul_line n ls w h =
    let l : Line = record { content = replicate (suc n) 0; ending = Ending.crlf } in
    let (out, p) =
      walk_prefix ls
        (keep_line l (record w { saw_bad_ending = w.saw_bad_ending || is_bad l.ending })) in
    rw (nuls-starts_body n) (out, p ∙ rw (h, without_nul-nuls (suc n)) refl)

nuls-has_bom : (n : ℕ) (rest : Bytes) → has_bom (replicate (suc n) 0 ++ rest) ≡ false
unfolding text_eq
nuls-has_bom n rest = refl

-- A header text that starts with a blank line.
abbrev pub StartsBlank : Bytes → Type 0
StartsBlank header = (tail : Bytes) × (header ≡ crlf_bytes ++ tail)

-- Where the first line of a message holds nothing but NULs, the repaired header starts with a
-- blank line, so that what follows, the message's header fields, is no longer its header.
pub nul_line_ends_header :
    (n : ℕ) (rest : Bytes) (cap : ℕ)
    → length (replicate (suc n) 0 ++ (crlf_bytes ++ rest)) ≤ cap
    → StartsBlank
        (normalize_eml_header (replicate (suc n) 0 ++ (crlf_bytes ++ rest)) cap).normalized_header
unfolding normalize_eml_header conclude walk_window
nul_line_ends_header n rest cap h =
    let text = replicate (suc n) 0 ++ (crlf_bytes ++ rest) in
    let whole : take (min (length text) cap) text ≡ text = take-all _ text (omega arith) in
    let (tail, p) = walk-nul_line n (split_lines rest) (start_at 0) refl in
    (
      tail ++ crlf_bytes,
      rw (whole, nuls-has_bom n (crlf_bytes ++ rest), split-nuls (suc n) rest)
          (ap (λ t. t ++ crlf_bytes) p ∙ append_assoc crlf_bytes tail crlf_bytes),
    )
