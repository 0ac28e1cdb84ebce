-- ===== src/Lines/Split.antt =====
-- The lines are the window, cut, and no line holds a byte that ends one.
use eml_to_pst.Base.{
  ℕ, ◌+◌, ◌≡◌, ◌≢◌, refl, ap, List, [], ◌∷◌, ◌++◌, arith, length, length-append, Bool-cases, inl,
  inr, ◌==◌, if◌then◌else◌, ◌⊎◌,
}
use eml_to_pst.Base.Text.{Bytes}
use eml_to_pst.Lines.{
  Ending, Line, ending_bytes, line_bytes, line_size, push_byte, cr_before, push_cr, split_lines,
}

abbrev pub join_lines : List Line → Bytes
join_lines [] = []
join_lines (l ∷ ls) = line_bytes l ++ join_lines ls

join-push_byte : (c : ℕ) (ls : List Line) → join_lines (push_byte c ls) ≡ c ∷ join_lines ls
join-push_byte c [] = refl
join-push_byte c (l ∷ ls) = refl

join-cr_before :
    (content : Bytes) (e : Ending) (l : Line) (ls : List Line)
    → l.content ≡ content
    → l.ending ≡ e
    → join_lines (cr_before content e l ls) ≡ b'\r' ∷ join_lines (l ∷ ls)
join-cr_before [] Ending.lf l ls p q = rw (p, q)
join-cr_before _ _ l ls p q = refl

join-push_cr : (ls : List Line) → join_lines (push_cr ls) ≡ b'\r' ∷ join_lines ls
join-push_cr [] = refl
join-push_cr (l ∷ ls) = join-cr_before l.content l.ending l ls refl refl

-- Joining the lines with their ends gives the text back, byte for byte.
pub join-split_lines : (text : Bytes) → join_lines (split_lines text) ≡ text
unfolding split_lines
join-split_lines [] = refl
join-split_lines (c ∷ cs) =
    ground
      (arith, join-split_lines cs, join-push_byte c (split_lines cs), join-push_cr (split_lines cs))

abbrev pub total_size : List Line → ℕ
total_size [] = 0
total_size (l ∷ ls) = line_size l + total_size ls

length-join_lines : (ls : List Line) → length (join_lines ls) ≡ total_size ls
length-join_lines [] = refl
length-join_lines (l ∷ ls) = omega (
  arith,
  length-append {0} (line_bytes l) (join_lines ls),
  length-append {0} l.content (ending_bytes l.ending),
  length-join_lines ls,
)

pub total_size-split : (text : Bytes) → total_size (split_lines text) ≡ length text
total_size-split text =
    omega (arith, length-join_lines (split_lines text), ap length (join-split_lines text))

-- No byte of the content ends a line.
abbrev pub IsPlain : Bytes → Type 0
IsPlain [] = Unit
IsPlain (c ∷ cs) = (c ≢ b'\n') × (c ≢ b'\r') × IsPlain cs

abbrev pub ArePlain : List Line → Type 0
ArePlain [] = Unit
ArePlain (l ∷ ls) = IsPlain l.content × ArePlain ls

cr_before-ArePlain :
    (content : Bytes) (e : Ending) (l : Line) (ls : List Line)
    → ArePlain (l ∷ ls)
    → ArePlain (cr_before content e l ls)
cr_before-ArePlain [] Ending.lf l ls h = (tt, h.1)
cr_before-ArePlain _ _ l ls h = (tt, h)

push_cr-ArePlain : (ls : List Line) → ArePlain ls → ArePlain (push_cr ls)
push_cr-ArePlain [] h = (tt, tt)
push_cr-ArePlain (l ∷ ls) h = cr_before-ArePlain l.content l.ending l ls h

push_byte-ArePlain :
    (c : ℕ) (ls : List Line) → c ≢ b'\n' → c ≢ b'\r' → ArePlain ls → ArePlain (push_byte c ls)
push_byte-ArePlain c [] p q h = ((p, q, tt), tt)
push_byte-ArePlain c (l ∷ ls) p q h = ((p, q, h.0), h.1)

split_byte-ArePlain :
    (c : ℕ) (rest : List Line)
    → ArePlain rest
    → ArePlain (if c == b'\r' then push_cr rest else push_byte c rest) ⊎ (c ≡ b'\n')
split_byte-ArePlain c rest h = elim (Bool-cases (c == b'\n')) [
  | inl e ↦ inr (ground arith)
  | inr e ↦ inl (elim (Bool-cases (c == b'\r')) [
    | inl f ↦ rw f (push_cr-ArePlain rest h)
    | inr f ↦ rw f (push_byte-ArePlain c rest (ground arith) (ground arith) h)
  ])
]

pub split_lines-ArePlain : (text : Bytes) → ArePlain (split_lines text)
unfolding split_lines
split_lines-ArePlain [] = tt
split_lines-ArePlain (c ∷ cs) = elim (Bool-cases (c == b'\n')) [
  | inl e ↦ rw e (tt, split_lines-ArePlain cs)
  | inr e ↦ rw e (elim (split_byte-ArePlain c (split_lines cs) (split_lines-ArePlain cs)) [
    | inl h ↦ h
    | inr f ↦ absurd (ground arith)
  ])
]

-- Only the last line can end with the window, and it is not empty then.
abbrev pub OpenLast : Line → List Line → Type 0
OpenLast l ls = l.ending ≡ Ending.open_end → (l.content ≢ []) × (ls ≡ [])

abbrev pub AreEnded : List Line → Type 0
AreEnded [] = Unit
AreEnded (l ∷ ls) = OpenLast l ls × AreEnded ls

push_byte-AreEnded : (c : ℕ) (ls : List Line) → AreEnded ls → AreEnded (push_byte c ls)
push_byte-AreEnded c [] h = (λ _. (cc, refl), tt)
push_byte-AreEnded c (l ∷ ls) h = (λ e. (cc, (h.0 e).1), h.1)

cr_before-AreEnded :
    (content : Bytes) (e : Ending) (l : Line) (ls : List Line)
    → AreEnded (l ∷ ls)
    → AreEnded (cr_before content e l ls)
cr_before-AreEnded [] Ending.lf l ls h = (λ e. cc, h.1)
cr_before-AreEnded _ _ l ls h = (λ e. cc, h)

push_cr-AreEnded : (ls : List Line) → AreEnded ls → AreEnded (push_cr ls)
push_cr-AreEnded [] h = (λ e. cc, tt)
push_cr-AreEnded (l ∷ ls) h = cr_before-AreEnded l.content l.ending l ls h

pub split_lines-AreEnded : (text : Bytes) → AreEnded (split_lines text)
unfolding split_lines
split_lines-AreEnded [] = tt
split_lines-AreEnded (c ∷ cs) = elim (Bool-cases (c == b'\n')) [
  | inl e ↦ rw e (λ e. cc, split_lines-AreEnded cs)
  | inr e ↦ elim (Bool-cases (c == b'\r')) [
    | inl f ↦ rw (e, f) (push_cr-AreEnded (split_lines cs) (split_lines-AreEnded cs))
    | inr f ↦ rw (e, f) (push_byte-AreEnded c (split_lines cs) (split_lines-AreEnded cs))
  ]
]
