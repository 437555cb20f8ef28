-- ===== src/Motion.antt =====
-- Motion of the point: `eol`, `word_at`, `move_word` and `move_char` of src/commands.c, `kill_range`
-- there, and the commands of `dispatch` that move the point by them or kill what they pass over.
pub mod Chars
pub mod Words
use cpymacs.Base.{
  Bool, Option, false, if◌then◌else◌, leb, ltb, not, some, suc, true, zero, ℕ, ◌&&◌, ◌*◌, ◌+◌, ◌-◌,
  ◌/◌, ◌==◌,
}
use cpymacs.Buffer.{
  Buffer, Editor, mark_deactivated, mark_not_set, mark_set, put_buffer, with_message,
}
use cpymacs.Utf8.{utf8_decode}
use cpymacs.Text.Read.{text_copy, text_next, text_prev}
use cpymacs.Text.Edit.{text_byte, text_size, text_chars}
use cpymacs.Text.Lines.{text_line_of, text_line_start}
use cpymacs.Buffer.Undo.{Long, negsuc, pos}
use cpymacs.Text.Place.{text_char_to_byte}
use cpymacs.Buffer.Find.Occurs.{part}

unfoldable pub eol : Buffer → ℕ → ℕ
eol b at =
    let start = text_line_start b.text (text_line_of b.text at + 1) in
    if not (start == 0) && text_byte b.text (start - 1) == 10 then start - 1 else start

-- `iswalnum` is the parameter.
module _ (alphanumeric : ℕ → Bool) where
  unfoldable pub word_at : Buffer → ℕ → Bool
  word_at b at =
      let n = text_next b.text at - at in
      if leb (text_size b.text) at
      then false
      else alphanumeric (utf8_decode (text_copy b.text at n)).0

  -- `while(at<size && word_at(b,at)==inside) at=text_next(…)`, on fuel
  unfoldable pub pass_next : ℕ → Buffer → Bool → ℕ → ℕ
  pass_next zero b inside at = at
  pass_next (suc fuel) b inside at =
      let rest = pass_next fuel b inside (text_next b.text at) in
      let here = word_at b at in
      if ltb at (text_size b.text) && (if inside then here else not here) then rest else at

  -- `while(at && word_at(b,text_prev(…,at))==inside) at=text_prev(…)`, on fuel
  unfoldable pub pass_prev : ℕ → Buffer → Bool → ℕ → ℕ
  pass_prev zero b inside at = at
  pass_prev (suc fuel) b inside at =
      let rest = pass_prev fuel b inside (text_prev b.text at) in
      let here = word_at b (text_prev b.text at) in
      if ltb 0 at && (if inside then here else not here) then rest else at

  unfoldable pub word_forward : Buffer → ℕ → ℕ
  word_forward b at =
      let start = pass_next (text_size b.text - at) b false at in
      pass_next (text_size b.text - start) b true start

  unfoldable pub word_back : Buffer → ℕ → ℕ
  word_back b at = let start = pass_prev at b false at in pass_prev start b true start

  unfoldable pub words_forward : ℕ → Buffer → ℕ → ℕ
  words_forward zero b at = at
  words_forward (suc n) b at = words_forward n b (word_forward b at)

  unfoldable pub words_back : ℕ → Buffer → ℕ → ℕ
  words_back zero b at = at
  words_back (suc n) b at = words_back n b (word_back b at)

  unfoldable pub move_word : Buffer → ℕ → Long → ℕ
  move_word b at (pos n) = words_forward n b at
  move_word b at (negsuc n) = words_back (suc n) b at

unfoldable pub chars_forward : ℕ → Buffer → ℕ → ℕ
chars_forward zero b at = at
chars_forward (suc n) b at =
    let rest = chars_forward n b (text_next b.text at) in
    if ltb at (text_size b.text) then rest else at

unfoldable pub chars_back : ℕ → Buffer → ℕ → ℕ
chars_back zero b at = at
chars_back (suc n) b at =
    let rest = chars_back n b (text_prev b.text at) in if at == 0 then at else rest

unfoldable pub move_char : Buffer → ℕ → Long → ℕ
move_char b at (pos n) = chars_forward n b at
move_char b at (negsuc n) = chars_back (suc n) b at

unfoldable pub negated : Long → Long
negated (pos zero) = pos 0
negated (pos (suc n)) = negsuc n
negated (negsuc n) = pos (n + 1)

-- 0 for a negative count
abbrev pub times_of : Long → ℕ
times_of (pos n) = n
times_of (negsuc n) = 0

-- `a+count`, and 0 where that is negative
unfoldable pub moved_by : ℕ → Long → ℕ
moved_by a (pos n) = a + n
moved_by a (negsuc n) = a - (n + 1)

-- forward-char, and backward-char with the count negated
unfoldable pub char_command : Editor → Buffer → Long → Option (Bool × Editor)
char_command e b count = some (true, put_buffer e (record b { point = move_char b b.point count }))

-- forward-word, and backward-word with the count negated
unfoldable pub word_command : (ℕ → Bool) → Editor → Buffer → Long → Option (Bool × Editor)
word_command alphanumeric e b count =
    some (true, put_buffer e (record b { point = move_word alphanumeric b b.point count }))

-- beginning-of-line and end-of-line
unfoldable pub line_command : Editor → Buffer → Bool → Long → Option (Bool × Editor)
line_command e b to_end count =
    let start = text_line_start b.text (moved_by (text_line_of b.text b.point) count - 1) in
    some (true, put_buffer e (record b { point = if to_end then eol b start else start }))

-- set-mark-command, mark-whole-buffer and exchange-point-and-mark
unfoldable pub set_mark : Editor → Buffer → Bool → Option (Bool × Editor)
set_mark e b given =
    if not given && b.mark_active
    then some
        (true, with_message (put_buffer e (record b { mark_active = false })) mark_deactivated)
    else some (
      true,
      with_message (put_buffer e (record b { mark = b.point; has_mark = true; mark_active = true }))
          mark_set,
    )

unfoldable pub mark_whole_buffer : Editor → Buffer → Option (Bool × Editor)
mark_whole_buffer e b = some (
  true,
  put_buffer e
      (record b { mark = text_size b.text; has_mark = true; mark_active = true; point = 0 }),
)

unfoldable pub exchange_point_and_mark : Editor → Buffer → Option (Bool × Editor)
exchange_point_and_mark e b =
    if not b.has_mark
    then some (false, with_message e mark_not_set)
    else some (true, put_buffer e (record b { point = b.mark; mark = b.point; mark_active = true }))

-- beginning-of-buffer and end-of-buffer; with a count, by tenths of the characters
unfoldable pub buffer_end : Editor → Buffer → Bool → Long → Bool → Option (Bool × Editor)
buffer_end e b to_end count given =
    let part = if ltb 10 (times_of count) then 10 else times_of count in
    let all = text_chars b.text in
    let ch = all * part / 10 in
    let at =
      if given
      then text_char_to_byte b.text (if to_end then all - ch else ch)
      else if to_end
      then text_size b.text
      else 0 in
    some (true, put_buffer e (record b { mark = b.point; has_mark = true; point = at }))

-- goto-line and goto-char for the number that is given, with no prompt
unfoldable pub goto_place : Editor → Buffer → Bool → ℕ → Option (Bool × Editor)
goto_place e b by_line value =
    let at =
      if by_line
      then text_line_start b.text (value - 1)
      else text_char_to_byte b.text (value - 1) in
    some (true, put_buffer e (record b { point = at }))
