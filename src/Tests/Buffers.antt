-- ===== src/Tests/Buffers.antt =====
-- A buffer of the text "aé", a newline and "b", and the theorems about buffers on it.
use cpymacs.Base.{
  Bool, [], arith, codes, false, length, none, refl, some, take, true, ℕ, ◌%◌, ◌+◌, ◌^◌, ◌∷◌, ◌≡◌,
  ◌≤◌,
}
use cpymacs.Buffer.{
  Buffer, ColumnCache, Editor, Message, earlier, editor_buffer, editor_replace, put_buffer,
  with_message, Edit, relocate, Syntax,
}
use cpymacs.Utf8.{
  utf8_decode, utf8_valid, valid_from, decode_multi, decode_tail, lead, out_of_range,
}
use cpymacs.Utf8.Boundary.{boundary}
use cpymacs.Utf8.Bytes.{is_continuation}
use cpymacs.Text.Piece.{data_at}
use cpymacs.Buffer.History.{IsBuffer, view, Changes, View}
use cpymacs.Buffer.Replace.{IsEdited, editable, editor_replace-edits, editor_replace-keeps}
use cpymacs.Tests.Texts.{sample_bytes, sample, sample-IsText, sample-valid}
use cpymacs.Buffer.Times.{IsUndone, undo_lem}
use cpymacs.Buffer.Loop.{undo_group_lem}
use cpymacs.Buffer.Undo.{Long, goes_on, has_more, undo, undo_ends, undo_group}
use cpymacs.Buffer.Group.{IsGroup}
use cpymacs.Buffer.Roundtrip.{IsBack, undo_group-editor_replace}
use cpymacs.Text.Edit.Insert.{splice}
use cpymacs.Buffer.Relocate.{relocate-boundary}
use cpymacs.Kill.{kill_ring_size, push_kill}
use cpymacs.Kill.Ring.{push_kill-take, push_kill_bound}

abbrev no_cache : ColumnCache
no_cache = record { point = 0; column = 0; line_start = 0; valid = false }

abbrev no_syntax : Syntax
no_syntax = record { name = codes "text"; keywords = []; builtins = []; kind = 0 }

-- just opened, with the point behind "aé"
abbrev pub opened : Buffer
opened = record {
  id = 1;
  path = none;
  name = codes "notes";
  text = sample;
  point = 3;
  mark = 0;
  goal = 0;
  has_mark = true;
  mark_active = true;
  goal_valid = true;
  readonly = false;
  crlf = false;
  bom = false;
  revision = 0;
  state = 0;
  saved_state = 0;
  history = [];
  history_cap = 0;
  history_pos = 0;
  tab_width = 4;
  indent_width = 4;
  auto_indent = false;
  mode = codes "fundamental-mode";
  syntax = no_syntax;
  lex_states = [];
  lex_valid = 0;
  column_cache = no_cache;
  seek_cache = no_cache;
}

abbrev pub editor : Editor
editor = record {
  buffers = opened ∷ [];
  current = 0;
  next_id = 1;
  pending_buffer = 0;
  windows = record {
    panes = record { buffer = 1; top = 0; left = 0; point = 0 } ∷ [];
    active_pane = 0;
    split_vertical = false;
  };
  bindings = [];
  kill_ring = [];
  yank_index = 0;
  kill_generation = 0;
  yank_start = 0;
  yank_end = 0;
  last_kind = 0;
  message = earlier;
  key_prefix = [];
  minibuffer = record { prompt = []; prompt_command = []; input = []; input_point = 0 };
  search = record {
    origin = 0;
    backward = false;
    failed = false;
    wrapped = false;
    good = [];
    last = [];
    replace_from = [];
    replace_to = [];
    replace_at = 0;
  };
  argument = record { given = false; digits = false; negative = false; value = 0 };
  group = 1;
  next_state = 0;
  quit = false;
  detach = false;
  show_line_numbers = false;
  rows = 24;
  font_size = 16;
  command_depth = 0;
  macro = record { keys = []; recording = false; playing = false };
}

-- no hook
abbrev pub no_hook : Editor → Editor
no_hook e = e

pub opened-IsBuffer : IsBuffer (view opened) opened
opened-IsBuffer = record {
  text = sample-IsText;
  within = omega arith;
  past = refl;
  future = (view opened, refl);
}

current : editor_buffer editor ≡ some opened
unfolding editor_buffer
current = refl

x_valid : utf8_valid (120 ∷ []) ≡ true
unfolding utf8_valid valid_from utf8_decode
x_valid = refl

editor_replace-keeps_example :
    (m : Message) × (editor_replace no_hook editor 2 1 (120 ∷ [])
      ≡ some (editable opened 2 1 (120 ∷ []), with_message editor m))
unfolding boundary data_at is_continuation
editor_replace-keeps_example =
    editor_replace-keeps no_hook (view opened) editor opened 2 1 (120 ∷ []) current opened-IsBuffer
      refl

editor_replace-edits_example :
    (b' : Buffer) × (editor_replace no_hook editor 1 2 (120 ∷ [])
      ≡ some (
        true,
        no_hook (put_buffer (record editor { next_state = (editor.next_state + 1) % 2 ^ 64 }) b'),
      ))
    × IsEdited (view opened) editor opened 1 2 (120 ∷ []) b'
unfolding boundary data_at is_continuation utf8_valid valid_from utf8_decode
editor_replace-edits_example =
    editor_replace-edits no_hook (view opened) editor opened 1 2 (120 ∷ []) current opened-IsBuffer
      (omega arith) refl

undo_group-editor_replace_example :
    (b' : Buffer) × (editor_replace no_hook editor 1 2 (120 ∷ [])
      ≡ some (
        true,
        no_hook (put_buffer (record editor { next_state = (editor.next_state + 1) % 2 ^ 64 }) b'),
      ))
    × (out : Buffer) × (undo_group false b' ≡ some out)
    × IsBack opened out
unfolding boundary data_at is_continuation utf8_valid valid_from utf8_decode goes_on has_more
undo_group-editor_replace_example =
    undo_group-editor_replace no_hook (view opened) editor opened 1 2 (120 ∷ []) current
      opened-IsBuffer (omega arith) refl refl

-- the insertion of the last "b"
abbrev typed : Edit
typed = record {
  at = 4;
  removed_len = 0;
  added_len = 1;
  before_point = 4;
  after_point = 5;
  before_mark = 0;
  after_mark = 0;
  removed = [];
  added = 98 ∷ [];
  group = 1;
  before_state = 0;
  after_state = 1;
}

abbrev before_typing : View
before_typing = (97 ∷ 195 ∷ 169 ∷ 10 ∷ [], 0)

abbrev typed_in : Buffer
typed_in = record opened { state = 1; history = typed ∷ []; history_cap = 64; history_pos = 1 }

typed-Changes : Changes typed before_typing (view typed_in)
unfolding boundary data_at is_continuation utf8_valid valid_from utf8_decode lead decode_multi
    decode_tail out_of_range
typed-Changes = record {
  valid = refl;
  new = refl;
  start = refl;
  end = refl;
  size = refl;
  removed = refl;
  result = refl;
  before = refl;
  after = refl;
}

typed_in-IsBuffer : IsBuffer before_typing typed_in
typed_in-IsBuffer = record {
  text = sample-IsText;
  within = omega arith;
  past = (view typed_in, typed-Changes, refl);
  future = (view typed_in, refl);
}

undo_group_example :
    (group : ℕ) × (out : Buffer) × (undo_group false typed_in ≡ some out)
    × IsGroup before_typing false group typed_in out
unfolding has_more
undo_group_example =
    undo_group_lem false before_typing typed_in typed_in-IsBuffer (omega arith) refl

abbrev typed_editor : Editor
typed_editor = record editor { buffers = typed_in ∷ [] }

typed_current : editor_buffer typed_editor ≡ some typed_in
unfolding editor_buffer
typed_current = refl

undo_example :
    (out : Bool × Buffer) × (undo no_hook typed_editor false (Long.pos 2)
      ≡ some (undo_ends no_hook false typed_editor out))
    × IsUndone before_typing false typed_in out
undo_example =
    undo_lem no_hook before_typing typed_editor typed_in false (Long.pos 2) typed_current
      typed_in-IsBuffer (omega arith) refl

relocate-boundary_example :
    boundary (splice sample_bytes 1 2 (120 ∷ [])) (relocate 4 1 2 1 true) ≡ true
unfolding boundary is_continuation
relocate-boundary_example =
    relocate-boundary sample_bytes 1 2 (120 ∷ []) sample-valid x_valid refl refl 4 true refl

push_kill-take_example :
    (push_kill editor (97 ∷ []) true false).kill_ring
    ≡ take kill_ring_size ((97 ∷ []) ∷ editor.kill_ring)
push_kill-take_example = push_kill-take editor (97 ∷ []) true (omega arith)

push_kill_bound_example : length (push_kill editor (97 ∷ []) true true).kill_ring ≤ kill_ring_size
push_kill_bound_example = push_kill_bound editor (97 ∷ []) true true (omega arith)
