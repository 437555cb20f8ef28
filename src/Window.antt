-- ===== src/Window.antt =====
-- The buffers of an editor and the windows that show them: `editor_by_id`, `editor_switch`,
-- `editor_new_buffer` and `editor_drop_buffer` of src/buffer.c.
pub mod Lookup
pub mod Session
pub mod Drop
pub mod Command
pub mod Safe
pub mod Switching
use cpymacs.Base.{
  List, Name, Option, [], codes, false, get_or, if◌then◌else◌, leb, length, none, set, some, suc, ℕ,
  ◌++◌, ◌+◌, ◌==◌, ◌>>=◌, ◌∷◌,
}
use cpymacs.Buffer.{
  Buffer, ColumnCache, Editor, Pane, Windows, buffer_limit, editor_buffer, with_message,
}
use cpymacs.Text.Edit.{Text, text_init}

-- A pointer to a buffer is its id, which stays the same as long as the buffer lives.
unfoldable pub find_id : List Buffer → ℕ → Option Buffer
find_id [] id = none
find_id (b ∷ buffers) id = let rest = find_id buffers id in if b.id == id then some b else rest

unfoldable pub editor_by_id : Editor → ℕ → Option Buffer
editor_by_id e id = find_id e.buffers id

-- the index of the buffer that the pointer is to
unfoldable pub index_of : List Buffer → ℕ → Option ℕ
index_of [] id = none
index_of (b ∷ buffers) id =
    let rest = index_of buffers id >>= (λ i. some (suc i)) in if b.id == id then some 0 else rest

unfoldable pub put_id : List Buffer → Buffer → List Buffer
put_id [] b = []
put_id (c ∷ buffers) b =
    let rest = put_id buffers b in if c.id == b.id then b ∷ buffers else c ∷ rest

-- changes of `*b` for a pointer b that may be to any buffer
unfoldable pub put_by_id : Editor → Buffer → Editor
put_by_id e b = record e { buffers = put_id e.buffers b }

abbrev pub no_pane : Pane
no_pane = record { buffer = 0; top = 0; left = 0; point = 0 }

abbrev pub active : Windows → Pane
active w = get_or w.panes w.active_pane no_pane

abbrev pub set_active : Windows → Pane → Windows
set_active w p = record w { panes = set w.panes w.active_pane p }

unfoldable pub editor_switch : Editor → ℕ → Editor
editor_switch e id = elim (index_of e.buffers id) [
  | none ↦ e
  | some i ↦ record e {
    current = i;
    windows = set_active e.windows (record (active e.windows) { buffer = id });
  }
]

abbrev pub max_buffers : ℕ
max_buffers = 256

abbrev pub max_panes : ℕ
max_panes = 8

abbrev pub no_column : ColumnCache
no_column = record { point = 0; column = 0; line_start = 0; valid = false }

-- a buffer as `editor_new_buffer` makes it
unfoldable pub fresh_buffer : ℕ → Name → Text → Buffer
fresh_buffer id name t = record {
  id = id;
  path = none;
  name = name;
  text = t;
  point = 0;
  mark = 0;
  goal = 0;
  has_mark = false;
  mark_active = false;
  goal_valid = false;
  readonly = false;
  crlf = false;
  bom = false;
  revision = 0;
  state = 0;
  saved_state = 0;
  history = [];
  history_cap = 0;
  history_pos = 0;
  tab_width = 4;
  indent_width = 4;
  auto_indent = false;
  mode = codes "fundamental-mode";
  syntax = record { name = codes "text"; keywords = []; builtins = []; kind = 0 };
  lex_states = [];
  lex_valid = 0;
  column_cache = no_column;
  seek_cache = no_column;
}

-- The id of the new buffer, `none` for NULL, with the editor.
unfoldable pub editor_new_buffer : Editor → Name → Option (Option ℕ × Editor)
editor_new_buffer e name =
    if leb max_buffers (length e.buffers)
    then some (none, with_message e buffer_limit)
    else elim (text_init []) [
      | none ↦ none
      | some t ↦
          let id = e.next_id + 1 in
          some (
            some id,
            record e { buffers = e.buffers ++ (fresh_buffer id name t ∷ []); next_id = id },
          )
    ]

-- the first buffer that is another one
unfoldable pub fallback_for : List Buffer → ℕ → Option Buffer
fallback_for [] id = none
fallback_for (b ∷ buffers) id =
    let rest = fallback_for buffers id in if b.id == id then rest else some b

unfoldable pub without : List Buffer → ℕ → List Buffer
without [] id = []
without (b ∷ buffers) id = let rest = without buffers id in if b.id == id then buffers else b ∷ rest

-- the windows of a dropped buffer show the other one
unfoldable pub show_instead : ℕ → Buffer → List Pane → List Pane
show_instead id other [] = []
show_instead id other (p ∷ panes) =
    (if p.buffer == id
      then record { buffer = other.id; top = 0; left = 0; point = other.point }
      else p)
    ∷ show_instead id other panes

-- what `editor_drop_buffer` does once there is another buffer
unfoldable pub drop_for : Editor → ℕ → Option Editor
drop_for e id = do
  selected ← editor_buffer e
  elim (fallback_for e.buffers id) [
    | none ↦ some e
    | some other ↦ some (
        editor_switch
          (record e {
            windows = record e.windows { panes = show_instead id other e.windows.panes };
            buffers = without e.buffers id;
          })
          (if selected.id == id then other.id else selected.id))
  ]

unfoldable pub editor_drop_buffer : Editor → ℕ → Option Editor
editor_drop_buffer e id =
    let spare = editor_new_buffer e (codes "*scratch*") >>= (λ out. drop_for out.1 id) in
    if length e.buffers == 1 then spare else drop_for e id
