-- ===== src/Lines.antt =====
-- The scan for line ends that worker/headers/header_inspector.cpp and
-- worker/normalize/eml_normalizer.cpp both begin each round of their loops with. Here the window
-- is split first; the loops then walk over the lines, and look at none behind their last.
pub mod Split
use eml_to_pst.Base.{ℕ, ◌+◌, List, [], ◌∷◌, ◌++◌, length, ◌==◌, if◌then◌else◌}
use eml_to_pst.Base.Text.{Bytes}

-- How a line ends: LF, a CR that no LF follows, CR LF, or the end of the window.
pub data Ending : Type 0 where
  lf cr crlf open_end : Ending

pub record Line : Type 0 where
  pub content : Bytes
  pub ending : Ending

abbrev pub ending_bytes : Ending → Bytes
ending_bytes Ending.lf = b'\n' ∷ []
ending_bytes Ending.cr = b'\r' ∷ []
ending_bytes Ending.crlf = b'\r' ∷ b'\n' ∷ []
ending_bytes Ending.open_end = []

-- The bytes that a line takes: `next_pos - pos`.
abbrev pub line_size : Line → ℕ
line_size l = length l.content + length (ending_bytes l.ending)

abbrev pub line_bytes : Line → Bytes
line_bytes l = l.content ++ ending_bytes l.ending

abbrev pub empty_line : Ending → Line
empty_line e = record { content = []; ending = e }

-- A byte in front of what the rest of the window splits into.
abbrev pub push_byte : ℕ → List Line → List Line
push_byte c [] = record { content = c ∷ []; ending = Ending.open_end } ∷ []
push_byte c (l ∷ ls) = record l { content = c ∷ l.content } ∷ ls

-- A CR in front of a line: it joins an LF that comes at once.
abbrev pub cr_before : Bytes → Ending → Line → List Line → List Line
cr_before [] Ending.lf l ls = empty_line Ending.crlf ∷ ls
cr_before _ _ l ls = empty_line Ending.cr ∷ l ∷ ls

abbrev pub push_cr : List Line → List Line
push_cr [] = empty_line Ending.cr ∷ []
push_cr (l ∷ ls) = cr_before l.content l.ending l ls

unfoldable pub split_lines : Bytes → List Line
split_lines [] = []
split_lines (c ∷ cs) =
    let rest = split_lines cs in
    if c == b'\n'
    then empty_line Ending.lf ∷ rest
    else if c == b'\r'
    then push_cr rest
    else push_byte c rest
