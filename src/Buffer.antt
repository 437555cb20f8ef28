-- ===== src/Buffer.antt =====
-- Buffers and their edits: `Edit`, `ColumnCache` and `Buffer` of include/editor.h, `editor_replace`
-- and `editor_insert` of src/buffer.c, `editor_lex_invalidate` of src/syntax.c.
pub mod Undo
pub mod History
pub mod Replace
pub mod Step
pub mod Group
pub mod Loop
pub mod Times
pub mod Roundtrip
pub mod Relocate
pub mod SetText
pub mod Find
use cpymacs.Base.{
  Bool, List, Name, Option, [], false, get_elem?, if◌then◌else◌, leb, length, ltb, none, not, set,
  some, take, true, ℕ, ◌%◌, ◌&&◌, ◌*◌, ◌++◌, ◌+◌, ◌-◌, ◌==◌, ◌^◌, ◌||◌, ◌∷◌,
}
use cpymacs.Text.Edit.{Text, text_boundary, text_size}
use cpymacs.Utf8.{utf8_valid}
use cpymacs.Text.Read.{text_slice}
use cpymacs.Text.Lines.{text_line_of}
use cpymacs.Text.Replace.{text_replace}

-- `Edit`
pub record Edit : Type 0 where
  pub at : ℕ
  pub removed_len : ℕ
  pub added_len : ℕ
  pub before_point : ℕ
  pub after_point : ℕ
  pub before_mark : ℕ
  pub after_mark : ℕ
  pub removed : List ℕ
  pub added : List ℕ
  pub group : ℕ
  pub before_state : ℕ
  pub after_state : ℕ

-- `ColumnCache`
pub record ColumnCache : Type 0 where
  pub point : ℕ
  pub column : ℕ
  pub line_start : ℕ
  pub valid : Bool

-- `Syntax`
pub record Syntax : Type 0 where
  pub name : Name
  pub keywords : Name
  pub builtins : Name
  pub kind : ℕ

-- `Buffer`, less what the file system says of its file. `history_len` is the length of the list, and
-- `lex_states` is the part of the array that is written.
pub record Buffer : Type 0 where
  pub id : ℕ
  pub path : Option Name
  pub name : Name
  pub text : Text
  pub point : ℕ
  pub mark : ℕ
  pub goal : ℕ
  pub has_mark : Bool
  pub mark_active : Bool
  pub goal_valid : Bool
  pub readonly : Bool
  pub crlf : Bool
  pub bom : Bool
  pub revision : ℕ
  pub state : ℕ
  pub saved_state : ℕ
  pub history : List Edit
  pub history_cap : ℕ
  pub history_pos : ℕ
  pub tab_width : ℕ
  pub indent_width : ℕ
  pub auto_indent : Bool
  pub mode : Name
  pub syntax : Syntax
  pub lex_states : List ℕ
  pub lex_valid : ℕ
  pub column_cache : ColumnCache
  pub seek_cache : ColumnCache

-- `Pane`
pub record Pane : Type 0 where
  pub buffer : ℕ
  pub top : ℕ
  pub left : ℕ
  pub point : ℕ

-- `Binding`
pub record Binding : Type 0 where
  pub key : Name
  pub command : Name
  pub mode : Name

-- the messages, by what they say; `said` is one that other text is part of
pub data Message : Type 0 where
  earlier no_message said : Message
  buffer_is_read_only invalid_edit : Message
  no_further_undo no_further_redo undone redone : Message
  text_must_be_utf8 buffer_limit : Message
  window_limit sole_window : Message
  quit_said kill_ring_empty no_yank mark_not_set mark_set mark_deactivated : Message
  invalid_count no_transposition : Message
  argument_limit recursion_limit numeric_limit undefined_key invalid_key : Message
  macro_limit macro_started macro_defined macro_recursive : Message
  input_too_long not_available : Message
  search_empty replace_finished no_such_buffer : Message
  kill_canceled quit_canceled mark_saved answer_keys : Message
  unsupported_encoding no_file_name not_regular refused : Message

-- The parts of `Editor`, in groups. The windows of `pane_count` panes.
pub record Windows : Type 0 where
  pub panes : List Pane
  pub active_pane : ℕ
  pub split_vertical : Bool

-- `prefix_set`, `prefix_digits`, `prefix_negative` and `prefix_value`
pub record Argument : Type 0 where
  pub given : Bool
  pub digits : Bool
  pub negative : Bool
  pub value : ℕ

-- `prompt`, `prompt_command`, `input` and `input_point`; no `prompt_command` is the empty one
pub record Minibuffer : Type 0 where
  pub prompt : Name
  pub prompt_command : Name
  pub input : Name
  pub input_point : ℕ

-- the fields of searching and replacing
pub record Search : Type 0 where
  pub origin : ℕ
  pub backward : Bool
  pub failed : Bool
  pub wrapped : Bool
  pub good : Name
  pub last : Name
  pub replace_from : Name
  pub replace_to : Name
  pub replace_at : ℕ

-- `macro_keys`, `macro_recording` and `macro_playing`
pub record Macro : Type 0 where
  pub keys : List Name
  pub recording : Bool
  pub playing : Bool

-- `Editor`, less what only Python and the front ends use
pub record Editor : Type 0 where
  pub buffers : List Buffer
  pub current : ℕ
  pub next_id : ℕ
  pub pending_buffer : ℕ
  pub windows : Windows
  pub bindings : List Binding
  pub kill_ring : List (List ℕ)
  pub yank_index : ℕ
  pub kill_generation : ℕ
  pub yank_start : ℕ
  pub yank_end : ℕ
  pub last_kind : ℕ
  pub message : Message
  pub key_prefix : Name
  pub minibuffer : Minibuffer
  pub search : Search
  pub argument : Argument
  pub group : ℕ
  pub next_state : ℕ
  pub quit : Bool
  pub detach : Bool
  pub show_line_numbers : Bool
  pub rows : ℕ
  pub font_size : ℕ
  pub command_depth : ℕ
  pub macro : Macro

-- `none` for an index out of the array, which the code does not test
unfoldable pub editor_buffer : Editor → Option Buffer
editor_buffer e = get_elem? e.buffers e.current

-- the editor after changes of `*editor_buffer(e)`
unfoldable pub put_buffer : Editor → Buffer → Editor
put_buffer e b = record e { buffers = set e.buffers e.current b }

abbrev pub with_message : Editor → Message → Editor
with_message e m = record e { message = m }

unfoldable pub invalidate_cache : ℕ → ColumnCache → ColumnCache
invalidate_cache at c = if ltb at c.point then record c { valid = false } else c

unfoldable pub editor_lex_invalidate : Buffer → ℕ → Buffer
unfolding invalidate_cache
editor_lex_invalidate b at =
    let row = text_line_of b.text at in
    record b {
      column_cache = invalidate_cache at b.column_cache;
      seek_cache = invalidate_cache at b.seek_cache;
      lex_valid = if ltb (row + 1) b.lex_valid then row + 1 else b.lex_valid;
    }

unfoldable pub relocate : ℕ → ℕ → ℕ → ℕ → Bool → ℕ
relocate point at removed added right =
    if ltb point at || (point == at && not right)
    then point
    else if leb point (at + removed)
    then at + added
    else point - removed + added

-- the tests of `editor_replace` on its range and its bytes
unfoldable pub replace_refuses : Buffer → ℕ → ℕ → List ℕ → Bool
replace_refuses b at count s =
    ltb (text_size b.text) at
    || (ltb (text_size b.text - at) count
        || (not (text_boundary b.text at)
            || (not (text_boundary b.text (at + count)) || not (utf8_valid s))))

-- the record that `editor_replace` appends
unfoldable pub new_edit : Editor → Buffer → ℕ → ℕ → List ℕ → Edit
new_edit e b at count s = record {
  at = at;
  removed_len = count;
  added_len = length s;
  before_point = b.point;
  after_point = relocate b.point at count (length s) true;
  before_mark = b.mark;
  after_mark = relocate b.mark at count (length s) false;
  removed = text_slice b.text at count;
  added = s;
  group = e.group;
  before_state = b.state;
  after_state = (e.next_state + 1) % 2 ^ 64;
}

-- The buffer after an edit that leaves the text t.
unfoldable pub edited : Editor → Buffer → ℕ → ℕ → List ℕ → Text → Buffer
edited e b at count s t =
    let h = take b.history_pos b.history in
    let d = new_edit e b at count s in
    record (editor_lex_invalidate b at) {
      text = t;
      point = d.after_point;
      mark = d.after_mark;
      mark_active = false;
      goal_valid = false;
      revision = (b.revision + 1) % 2 ^ 64;
      state = d.after_state;
      history = h ++ (d ∷ []);
      history_cap =
          if length h == b.history_cap
          then (if b.history_cap == 0 then 64 else b.history_cap * 2)
          else b.history_cap;
      history_pos = length h + 1;
    }

-- `plugins_event(e,"text_changed")`, which runs Python code, is the parameter: it leaves an editor.
module _ (text_changed : Editor → Editor) where
  -- what `editor_replace` does with the current buffer
  unfoldable pub replace_in : Editor → Buffer → ℕ → ℕ → List ℕ → Option (Bool × Editor)
  replace_in e b at count s =
      let change : Option (Bool × Editor) = elim (text_replace b.text at count s) [
        | none ↦ none
        | some t ↦ some (
          true,
          text_changed (
              put_buffer (record e { next_state = (e.next_state + 1) % 2 ^ 64 })
                (edited e b at count s t)),
        )
      ] in
      if b.readonly
      then some (false, with_message e buffer_is_read_only)
      else if replace_refuses b at count s
      then some (false, with_message e invalid_edit)
      else if count == 0 && length s == 0
      then some (true, e)
      else change

  -- `none` if there is no current buffer, or if the change of the text never ends
  unfoldable pub editor_replace : Editor → ℕ → ℕ → List ℕ → Option (Bool × Editor)
  editor_replace e at count s = elim (editor_buffer e) [
    | none ↦ none
    | some b ↦ replace_in e b at count s
  ]

  unfoldable pub editor_insert : Editor → List ℕ → Option (Bool × Editor)
  editor_insert e s = elim (editor_buffer e) [ none ↦ none | some b ↦ editor_replace e b.point 0 s ]
