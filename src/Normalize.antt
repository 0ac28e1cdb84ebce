-- ===== src/Normalize.antt =====
-- worker/normalize/eml_normalizer.cpp: the repair of a header section before the second attempt
-- to import a message.
pub mod Output
pub mod Body
pub mod NulLine
use eml_to_pst.Base.{
  ℕ, zero, suc, ◌+◌, List, [], ◌∷◌, ◌++◌, Bool, true, false, not, ◌&&◌, ◌||◌, Option, none, some,
  ltb, leb, ◌==◌, if◌then◌else◌, length, take, drop, min,
}
use eml_to_pst.Base.Text.{Bytes, codes, text_eq, find}
use eml_to_pst.Lines.{Ending, Line, line_size, split_lines}

-- `repairs` in the order in which they are recorded.
pub record EmlNormalization : Type 0 where
  pub changed : Bool
  pub normalized_header : Bytes
  pub original_header_bytes : ℕ
  pub separator_inserted : Bool
  pub repairs : List Bytes

-- Printable US-ASCII without the colon.
unfoldable pub all_ftext : ℕ → Bytes → Bool
all_ftext zero cs = true
all_ftext (suc n) [] = true
all_ftext (suc n) (c ∷ cs) = not (ltb c 33 || ltb 126 c || c == b':') && all_ftext n cs

abbrev named_at : Option ℕ → Bytes → Bool
named_at none line = false
named_at (some zero) line = false
named_at (some (suc colon)) line = all_ftext (suc colon) line

unfoldable pub is_header_like_line : Bytes → Bool
unfolding find all_ftext
is_header_like_line [] = false
is_header_like_line (c ∷ cs) =
    if c == b' ' || c == b'\t' then true else named_at (find b':' (c ∷ cs)) (c ∷ cs)

unfoldable pub holds_nul : Bytes → Bool
holds_nul [] = false
holds_nul (c ∷ cs) = c == 0 || holds_nul cs

unfoldable pub without_nul : Bytes → Bytes
without_nul [] = []
without_nul (c ∷ cs) = let rest = without_nul cs in if c == 0 then rest else c ∷ rest

-- How the loop ended: at a blank line, at a line that starts the body, or at the window's end.
pub data Boundary : Type 0 where
  separator body window_end : Boundary

-- The variables of the loop; `pos` is the position behind the last line that was taken.
pub record Walk : Type 0 where
  pub header : Bytes
  pub pos : ℕ
  pub saw_nul : Bool
  pub saw_bad_ending : Bool
  pub boundary : Boundary

-- LF and a lone CR are bad endings.
abbrev pub is_bad : Ending → Bool
is_bad Ending.lf = true
is_bad Ending.cr = true
is_bad _ = false

abbrev pub is_blank : Bytes → Bool
is_blank [] = true
is_blank (c ∷ cs) = false

abbrev pub crlf_bytes : Bytes
crlf_bytes = b'\r' ∷ b'\n' ∷ []

-- A line that is kept: its NULs go, and it ends in CR LF.
abbrev pub keep_line : Line → Walk → Walk
keep_line l w = record w {
  header = w.header ++ (without_nul l.content ++ crlf_bytes);
  pos = w.pos + line_size l;
  saw_nul = w.saw_nul || holds_nul l.content;
}

-- A line that cannot be a header line and has no NUL starts the body.
unfoldable pub starts_body : Bytes → Bool
unfolding is_header_like_line holds_nul
starts_body line = not (is_header_like_line line) && not (holds_nul line)

unfoldable pub walk_lines : List Line → Walk → Walk
unfolding without_nul holds_nul starts_body
walk_lines [] w = w
walk_lines (l ∷ ls) w =
    let seen = record w { saw_bad_ending = w.saw_bad_ending || is_bad l.ending } in
    let rest = walk_lines ls (keep_line l seen) in
    if is_blank l.content
    then record seen { pos = w.pos + line_size l; boundary = Boundary.separator }
    else if starts_body l.content
    then record seen { boundary = Boundary.body }
    else rest

abbrev pub start_at : ℕ → Walk
start_at pos = record {
  header = [];
  pos = pos;
  saw_nul = false;
  saw_bad_ending = false;
  boundary = Boundary.window_end;
}

abbrev pub bom : Bytes
bom = 0xEF ∷ 0xBB ∷ 0xBF ∷ []

abbrev pub has_bom : Bytes → Bool
has_bom window = text_eq (take 3 window) bom

unfoldable pub walk_window : Bytes → Walk
walk_window window =
    if has_bom window
    then walk_lines (split_lines (drop 3 window)) (start_at 3)
    else walk_lines (split_lines window) (start_at 0)

abbrev pub inserts : Boundary → Bool
inserts Boundary.separator = false
inserts _ = true

abbrev pub repair_if : Bool → Bytes → List Bytes
repair_if true name = name ∷ []
repair_if false name = []

-- What follows the loop.
unfoldable pub conclude : Bool → Walk → EmlNormalization
conclude bom_found w = record {
  changed = bom_found || inserts w.boundary || w.saw_nul || w.saw_bad_ending;
  normalized_header = w.header ++ crlf_bytes;
  original_header_bytes = w.pos;
  separator_inserted = inserts w.boundary;
  repairs =
      repair_if bom_found (codes "utf8-bom")
      ++ (repair_if (inserts w.boundary) (codes "separator-inserted")
          ++ (repair_if w.saw_nul (codes "nul")
              ++ repair_if w.saw_bad_ending (codes "line-endings")));
}

unfoldable pub normalize_eml_header : Bytes → ℕ → EmlNormalization
normalize_eml_header prefix cap =
    let window = take (min (length prefix) cap) prefix in
    conclude (has_bom window) (walk_window window)
