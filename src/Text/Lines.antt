-- ===== src/Text/Lines.antt =====
-- `text_line_start`, `text_line_of` and `text_byte_to_char` of src/text.c.
pub mod Prefix
pub mod Scan
pub mod Start
use cpymacs.Base.{
  Bool, List, Option, [], count_if, false, if◌then◌else◌, leb, ltb, none, some, true, ℕ, ◌&&◌, ◌+◌,
  ◌-◌, ◌==◌, ◌∷◌,
}
use cpymacs.Text.Piece.{
  piece, null, Fields, Piece, Stores, data_at, data_of, is_char, is_newline, nb, nc, nl,
}
use cpymacs.Text.Edit.{Text, sub_size, text_lines, text_size}

-- The loop of `prefix_metric`. The flag `chars` picks the counts of characters or of newlines.
abbrev pub metric_test : Bool → ℕ → Bool
metric_test chars = if chars then is_char else is_newline

abbrev pub metric_sum : Bool → Piece → ℕ
metric_sum chars p = if chars then nc p else nl p

abbrev pub metric_own : Bool → Fields → ℕ
metric_own chars f = if chars then f.chars else f.newlines

unfoldable pub prefix_from : Stores → Bool → Piece → ℕ → ℕ → ℕ
prefix_from m chars null at result = result
prefix_from m chars (piece l f r) at result =
    let low = prefix_from m chars l at result in
    let result1 = result + metric_sum chars l in
    let at1 = at - nb l in
    let high = prefix_from m chars r (at1 - f.length) (result1 + metric_own chars f) in
    if ltb at (nb l)
    then low
    else if leb at1 f.length
    then result1 + count_if (metric_test chars) (data_at m f.source f.offset at1)
    else high

unfoldable pub prefix_metric : Text → ℕ → Bool → ℕ
prefix_metric t at chars = prefix_from t.stores chars t.root at 0

unfoldable pub text_line_of : Text → ℕ → ℕ
text_line_of t at = prefix_metric t at false

unfoldable pub text_byte_to_char : Text → ℕ → ℕ
text_byte_to_char t at = prefix_metric t at true

-- `for(…) if(s[i]=='\n' && --line==0) return …`: the index i, or the `line` that is left.
unfoldable pub scan_lines : List ℕ → ℕ → ℕ → Option ℕ × ℕ
scan_lines [] i line = (none, line)
scan_lines (c ∷ s) i line =
    if is_newline c && line == 1
    then (some i, 0)
    else scan_lines s (i + 1) (if is_newline c then sub_size line 1 else line)

unfoldable pub line_start_from : Stores → Piece → ℕ → ℕ → Option ℕ
line_start_from m null line off = none
line_start_from m (piece l f r) line off =
    let low = line_start_from m l line off in
    let line1 = line - nl l in
    let off1 = off + nb l in
    let scan = if leb line1 f.newlines then scan_lines (data_of m f) 0 line1 else (none, line1) in
    let high = line_start_from m r (sub_size scan.1 f.newlines) (off1 + f.length) in
    if leb line (nl l) then low else elim scan.0 [ some i ↦ some (off1 + i + 1) | none ↦ high ]

-- The return at the end of the loop, past the last piece, is the size again.
unfoldable pub text_line_start : Text → ℕ → ℕ
text_line_start t line =
    let found = line_start_from t.stores t.root line 0 in
    if line == 0
    then 0
    else if leb (text_lines t) line
    then text_size t
    else elim found [ some at ↦ at | none ↦ text_size t ]
