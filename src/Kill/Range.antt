-- ===== src/Kill/Range.antt =====
-- `kill_range` of src/commands.c and the commands of `dispatch` that kill and yank. `previous` is
-- `last_kind` as it was before the command.
use cpymacs.Base.{
  Bool, Option, [], false, get_elem?, if◌then◌else◌, length, ltb, not, some, suc, true, zero, ℕ,
  ◌%◌, ◌&&◌, ◌+◌, ◌-◌, ◌==◌, ◌>>=◌, ◌||◌,
}
use cpymacs.Kill.{push_kill}
use cpymacs.Motion.{eol, move_char, move_word, moved_by}
use cpymacs.Buffer.{
  Buffer, Editor, editor_buffer, editor_insert, editor_replace, kill_ring_empty, mark_not_set,
  no_yank, put_buffer, with_message,
}
use cpymacs.Window.{editor_by_id, put_by_id}
use cpymacs.Window.Command.{around}
use cpymacs.Text.Read.{text_slice}
use cpymacs.Text.Edit.{text_byte, text_size}
use cpymacs.Text.Lines.{text_line_of, text_line_start}
use cpymacs.Buffer.Undo.{Long, negsuc, pos}

abbrev pub after_kill : Editor → ℕ → Editor
after_kill e kind = record e { last_kind = kind }

module _ (text_changed : Editor → Editor) where
  -- `none` if the hook has dropped the buffer that the code then writes to
  unfoldable pub kill_between :
      Editor → Buffer → ℕ → ℕ → Bool → Bool → Bool → Option (Bool × Editor)
  kill_between e b low high backward only_copy append =
      let s = text_slice b.text low (high - low) in
      let copied : Option (Bool × Editor) =
        some
          (true, put_buffer (push_kill e s backward append) (record b { mark_active = false })) in
      let killed : Option (Bool × Editor) =
        editor_replace text_changed e low (high - low) [] >>= (λ out.
          if out.0
          then (editor_by_id out.1 b.id >>= (λ c. some (
            true,
            put_by_id (push_kill out.1 s backward append)
                (record c { mark_active = false; point = low }),
          )))
          else some (false, out.1)) in
      if low == high then some (true, e) else if only_copy then copied else killed

  unfoldable pub kill_range : Editor → ℕ → ℕ → Bool → Bool → Bool → Option (Bool × Editor)
  kill_range e from to backward only_copy append = do
    b ← editor_buffer e
    kill_between e b (if ltb to from then to else from) (if ltb to from then from else to) backward
        only_copy append

  -- kill-region and copy-region-as-kill
  unfoldable pub kill_region : Editor → Buffer → Bool → ℕ → Option (Bool × Editor)
  kill_region e b copy previous =
      if not b.has_mark
      then some (false, with_message e mark_not_set)
      else kill_range (after_kill e (if copy then 0 else 1)) b.point b.mark (ltb b.mark b.point)
          copy (not copy && previous == 1)

  -- no byte but spaces and tabs in the range
  unfoldable pub is_blank : Buffer → ℕ → ℕ → Bool
  is_blank b at zero = true
  is_blank b at (suc n) =
      let c = text_byte b.text at in (c == 32 || c == 9) && is_blank b (at + 1) n

  -- where kill-line stops
  unfoldable pub kill_line_end : Buffer → Long → Bool → ℕ
  kill_line_end b count given =
      let row = text_line_of b.text b.point in
      let end = eol b b.point in
      if given
      then text_line_start b.text (moved_by row count)
      else if is_blank b b.point (end - b.point) && ltb end (text_size b.text)
      then end + 1
      else end

  unfoldable pub kill_line : Editor → Buffer → Long → Bool → ℕ → Option (Bool × Editor)
  kill_line e b count given previous =
      let z = kill_line_end b count given in
      kill_range (after_kill e 1) b.point z (ltb z b.point) false (previous == 1)

  -- kill-word, and backward-kill-word with the count negated
  unfoldable pub kill_word : (ℕ → Bool) → Editor → Buffer → Long → ℕ → Option (Bool × Editor)
  kill_word alphanumeric e b count previous =
      let at = move_word alphanumeric b b.point count in
      kill_range (after_kill e 1) b.point at (ltb at b.point) false (previous == 1)

  -- delete-char, and backward-delete-char-untabify with the count negated, which never kills
  unfoldable pub delete_char : Editor → Buffer → Long → Bool → ℕ → Option (Bool × Editor)
  delete_char e b n kills previous =
      let at = move_char b b.point n in
      let low = if ltb at b.point then at else b.point in
      let high = if ltb b.point at then at else b.point in
      let back : Bool = elim n [ pos k ↦ false | negsuc k ↦ true ] in
      if kills
      then kill_range (after_kill e 1) low high back false (previous == 1)
      else editor_replace text_changed e low (high - low) []

  -- what yank and yank-pop do once the range of the last yank is gone
  unfoldable pub yank_entry : Editor → Buffer → Option (Bool × Editor)
  yank_entry e b = do
    s ← get_elem? e.kill_ring e.yank_index
    out ← editor_insert text_changed (put_by_id e (record b { mark = b.point; has_mark = true })) s
    c ← editor_by_id out.1 b.id
    some (out.0, if out.0 then record out.1 { yank_end = c.point; last_kind = 2 } else out.1)

  unfoldable pub yank : Editor → Buffer → Long → Bool → Option (Bool × Editor)
  yank e b count given =
      let n : ℕ = elim count [ pos k ↦ k - 1 | negsuc k ↦ 0 ] in
      let e' = record e {
        yank_index = if given then n % length e.kill_ring else 0;
        yank_start = b.point;
      } in
      if length e.kill_ring == 0
      then some (false, with_message e kill_ring_empty)
      else yank_entry e' b

  unfoldable pub yank_pop : Editor → Buffer → Long → ℕ → Option (Bool × Editor)
  yank_pop e b count previous =
      let e' = record e { yank_index = around e.yank_index count (length e.kill_ring) } in
      let popped : Option (Bool × Editor) =
        editor_replace text_changed e' e.yank_start (e.yank_end - e.yank_start) [] >>= (λ out.
          if out.0
          then (editor_by_id out.1 b.id
              >>= (λ c. yank_entry out.1 (record c { point = out.1.yank_start })))
          else some (false, out.1)) in
      if length e.kill_ring == 0
      then some (false, with_message e kill_ring_empty)
      else if not (previous == 2)
      then some (false, with_message e no_yank)
      else popped
