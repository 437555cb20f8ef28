-- ===== src/Column.antt =====
-- Columns of a line: `scan_columns`, `editor_column` and `editor_at_column_ex` of src/buffer.c. What is
-- written through a pointer is returned.
use cpymacs.Base.{
  Bool, List, Option, [], drop, false, if◌then◌else◌, leb, ltb, none, some, suc, true, zero, ℕ, ◌%◌,
  ◌&&◌, ◌+◌, ◌-◌, ◌/◌, ◌==◌, ◌||◌, ◌∷◌,
}
use cpymacs.Motion.{moved_by, negated}
use cpymacs.Buffer.{Buffer, Editor, put_buffer}
use cpymacs.Window.{active, set_active}
use cpymacs.Utf8.{utf8_decode}
use cpymacs.Text.Read.{text_copy}
use cpymacs.Text.Edit.{text_boundary, text_byte, text_lines}
use cpymacs.Text.Lines.{text_line_of, text_line_start}
use cpymacs.Buffer.Undo.{Long, pos}

-- `wcwidth` is the parameter, with no width for -1.
module _ (wcwidth : ℕ → Option ℕ) where
  unfoldable pub width_of : ℕ → ℕ
  width_of c = elim (wcwidth c) [ some w ↦ w | none ↦ if ltb c 32 || c == 127 then 2 else 1 ]

  -- the column behind the character c, 9 for a tab
  unfoldable pub next_column : Buffer → ℕ → ℕ → ℕ
  next_column b column c =
      column + (if c == 9 then b.tab_width - column % b.tab_width else width_of c)

  -- The inner loop over the bytes that are left of a chunk, on fuel: whether it returns from the
  -- function, how many bytes it has passed, and the column.
  unfoldable pub scan_piece : ℕ → Buffer → ℕ → Bool → List ℕ → ℕ → ℕ → Bool × ℕ × ℕ
  scan_piece zero b target limit s i column = (false, i, column)
  scan_piece (suc fuel) b target limit [] i column = (false, i, column)
  scan_piece (suc fuel) b target limit (c ∷ s) i column =
      let (code, k) = utf8_decode (c ∷ s) in
      let after = next_column b column code in
      let rest = scan_piece fuel b target limit (drop k (c ∷ s)) (i + k) after in
      if limit && ltb target after then (true, i, column) else rest

  -- `while(n && !text_boundary(&b->text,at+n)) n--`
  unfoldable pub back_to_boundary : Buffer → ℕ → ℕ → ℕ
  back_to_boundary b at zero = 0
  back_to_boundary b at (suc n) =
      let rest = back_to_boundary b at n in
      if text_boundary b.text (at + suc n) then suc n else rest

  -- `while(at<end)`, on fuel
  unfoldable pub scan_columns : ℕ → Buffer → ℕ → ℕ → ℕ → ℕ → Bool → ℕ × ℕ
  scan_columns zero b at end column target limit = (at, column)
  scan_columns (suc fuel) b at end column target limit =
      let n = back_to_boundary b at (if ltb 4096 (end - at) then 4096 else end - at) in
      let out = scan_piece n b target limit (text_copy b.text at n) 0 column in
      let rest = scan_columns fuel b (at + n) end out.2 target limit in
      if ltb at end then (if out.0 then (at + out.1, out.2) else rest) else (at, column)

  unfoldable pub editor_column : Buffer → ℕ → ℕ × Buffer
  editor_column b point =
      let start = text_line_start b.text (text_line_of b.text point) in
      let cache = b.column_cache in
      let hit = cache.valid && (cache.line_start == start && leb cache.point point) in
      let at = if hit then cache.point else start in
      let col =
        (scan_columns (point - at) b at point (if hit then cache.column else 0) 0 false).1 in
      (
        col,
        if ltb 4096 (point - start)
            then record b {
              column_cache = record {
                point = point;
                column = col;
                line_start = start;
                valid = true;
              };
            }
            else b,
      )

  -- The offset, `*actual` and the buffer.
  unfoldable pub editor_at_column_ex : Buffer → ℕ → ℕ → ℕ × ℕ × Buffer
  editor_at_column_ex b line column =
      let start = text_line_start b.text line in
      let next_start = text_line_start b.text (line + 1) in
      let end =
        if ltb start next_start && text_byte b.text (next_start - 1) == 10
        then next_start - 1
        else next_start in
      let cache = b.seek_cache in
      let hit = cache.valid && (cache.line_start == start && leb cache.column column) in
      let from = if hit then cache.point else start in
      let (at, col) =
        scan_columns (end - from) b from end (if hit then cache.column else 0) column true in
      (
        at,
        col,
        if ltb 4096 (at - start)
            then record b {
              seek_cache = record { point = at; column = col; line_start = start; valid = true };
            }
            else b,
      )

  unfoldable pub editor_at_column : Buffer → ℕ → ℕ → ℕ × Buffer
  editor_at_column b line column = let out = editor_at_column_ex b line column in (out.0, out.2)

  -- the row that a count of lines leads to, among the lines of the text
  unfoldable pub row_moved : Buffer → Long → ℕ
  row_moved b count =
      let row = moved_by (text_line_of b.text b.point) count in
      if leb (text_lines b.text) row then text_lines b.text - 1 else row

  -- next-line, and previous-line with the count negated
  unfoldable pub line_motion : Editor → Buffer → Long → Option (Bool × Editor)
  line_motion e b count =
      let (col, measured) = editor_column b b.point in
      let ready = if b.goal_valid then b else record measured { goal = col; goal_valid = true } in
      let (at, c) = editor_at_column ready (row_moved ready count) ready.goal in
      some (true, put_buffer e (record c { point = at }))

  -- scroll-up-command, and scroll-down-command for `down`
  unfoldable pub scroll : Editor → Buffer → Bool → Long → Bool → Option (Bool × Editor)
  scroll e b down count given =
      let page = if ltb (e.rows - 4) 1 then 1 else e.rows - 4 in
      let wanted = if given then count else pos page in
      let amount = if down then negated wanted else wanted in
      let (col, measured) = editor_column b b.point in
      let (at, c) = editor_at_column measured (row_moved b amount) col in
      let p = active e.windows in
      some (
        true,
        put_buffer
            (record e { windows = set_active e.windows (record p { top = moved_by p.top amount }) })
            (record c { point = at }),
      )

  unfoldable pub recenter : Editor → Buffer → Option (Bool × Editor)
  recenter e b =
      let line = text_line_of b.text b.point in
      let half = if ltb 4 e.rows then e.rows / 2 else 1 in
      some (
        true,
        record e {
          windows =
              set_active e.windows
                (record (active e.windows) { top = if ltb half line then line - half else 0 });
        },
      )
