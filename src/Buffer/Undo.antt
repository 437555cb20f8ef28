-- ===== src/Buffer/Undo.antt =====
-- `undo` of src/commands.c, which goes back and forth in the history of the current buffer.
use cpymacs.Base.{
  Bool, Option, false, get_elem?, if◌then◌else◌, length, ltb, none, not, some, suc, take, true,
  zero, ℕ, ◌%◌, ◌&&◌, ◌+◌, ◌-◌, ◌==◌, ◌^◌,
}
use cpymacs.Buffer.{
  Buffer, Edit, Editor, buffer_is_read_only, editor_buffer, editor_lex_invalidate, no_further_redo,
  no_further_undo, put_buffer, redone, undone, with_message,
}
use cpymacs.Text.Edit.{Text}
use cpymacs.Text.Replace.{text_replace}

-- `long`
pub data Long : Type 0 where
  pos : ℕ → Long
  negsuc : ℕ → Long

-- the index of the entry that comes next
unfoldable pub entry : Bool → Buffer → ℕ
entry redo b = if redo then b.history_pos else b.history_pos - 1

-- there is such an entry
unfoldable pub has_more : Bool → Buffer → Bool
has_more redo b = if redo then ltb b.history_pos (length b.history) else ltb 0 b.history_pos

-- the test of the inner loop
unfoldable pub goes_on : Bool → ℕ → Buffer → Bool
goes_on redo group b =
    has_more redo b
    && elim (get_elem? b.history (entry redo b)) [ none ↦ false | some d ↦ d.group == group ]

-- the buffer after one round of the inner loop, whose change of the text leaves t
unfoldable pub stepped : Bool → Buffer → Edit → Text → Buffer
stepped redo b d t = record (editor_lex_invalidate b d.at) {
  text = t;
  point = if redo then d.after_point else d.before_point;
  mark = if redo then d.after_mark else d.before_mark;
  state = if redo then d.after_state else d.before_state;
  history_pos = if redo then b.history_pos + 1 else b.history_pos - 1;
  revision = (b.revision + 1) % 2 ^ 64;
}

unfoldable pub undo_edit : Bool → Buffer → Edit → Option Buffer
undo_edit redo b d =
    let put_in = if redo then take d.added_len d.added else take d.removed_len d.removed in
    elim (text_replace b.text d.at (if redo then d.removed_len else d.added_len) put_in) [
      | none ↦ none
      | some t ↦ some (stepped redo b d t)
    ]

-- The inner loop, on fuel. Buffer/Loop shows that as many rounds as there are entries are enough.
unfoldable pub undo_while : ℕ → Bool → ℕ → Buffer → Option Buffer
undo_while zero redo group b = none
undo_while (suc fuel) redo group b = elim (get_elem? b.history (entry redo b)) [
  | none ↦ none
  | some d ↦ elim (undo_edit redo b d) [
    | none ↦ none
    | some b' ↦
        let rest = undo_while fuel redo group b' in if goes_on redo group b' then rest else some b'
  ]
]

unfoldable pub undo_group : Bool → Buffer → Option Buffer
undo_group redo b = elim (get_elem? b.history (entry redo b)) [
  | none ↦ none
  | some d ↦ undo_while (length b.history) redo d.group b
]

-- The outer loop: false for a round that finds no entry, after which the rounds before it stay.
unfoldable pub undo_times : ℕ → Bool → Buffer → Option (Bool × Buffer)
undo_times zero redo b = some (true, b)
undo_times (suc n) redo b =
    let later : Option (Bool × Buffer) = elim (undo_group redo b) [
      | none ↦ none
      | some b' ↦ undo_times n redo b'
    ] in
    if has_more redo b then later else some (false, b)

abbrev pub magnitude : Long → ℕ
magnitude (pos n) = n
magnitude (negsuc n) = n + 1

-- a negative count goes the other way
abbrev pub direction : Bool → Long → Bool
direction redo (pos n) = redo
direction redo (negsuc n) = not redo

module _ (text_changed : Editor → Editor) where
  -- what `undo` leaves of the editor after its loops
  unfoldable pub undo_ends : Bool → Editor → Bool × Buffer → Bool × Editor
  undo_ends redo e (true, b) = (
    true,
    with_message (text_changed (put_buffer e (record b { mark_active = false })))
        (if redo then redone else undone),
  )
  undo_ends redo e (false, b) =
      (false, with_message (put_buffer e b) (if redo then no_further_redo else no_further_undo))

  unfoldable pub undo_in : Editor → Buffer → Bool → Long → Option (Bool × Editor)
  undo_in e b redo n =
      let way = direction redo n in
      let change : Option (Bool × Editor) = elim (undo_times (magnitude n) way b) [
        | none ↦ none
        | some out ↦ some (undo_ends way e out)
      ] in
      if b.readonly then some (false, with_message e buffer_is_read_only) else change

  unfoldable pub undo : Editor → Bool → Long → Option (Bool × Editor)
  undo e redo n = elim (editor_buffer e) [ none ↦ none | some b ↦ undo_in e b redo n ]
