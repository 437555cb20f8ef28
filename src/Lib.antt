-- ===== src/Lib.antt =====
-- cpymacs: the core of the editor.
--
-- The program keeps each buffer's text in a treap of pieces (src/text.c): a node names a range of
-- one of two byte stores, the original text that is never changed and the array to which insertions
-- append. In-order, the ranges are the text; every node carries sums of bytes, newlines and
-- characters, by which offsets, lines and characters are found. All text is UTF-8.
--
-- The files:
--   Base         Boolean tests on numbers (Base/Tests), lists over native numbers (Base/Lists), C
--                strings (Base/Names)
--   Utf8         `utf8_decode` and `utf8_valid` (src/text.c). Utf8/Chars describes valid text as a
--                sequence of characters, Utf8/Boundary where it can be cut, Utf8/Cancel what a valid
--                start leaves.
--   Text/Piece   `struct Piece`, `update`, `random_next`, `node`, `merge`, `split`, `pieces`. The
--                null pointer is `null`; a function that changes nodes in place returns the tree.
--                Piece/Bytes has the bytes of a tree and its invariant.
--   Text/Edit    `Text` (include/text.h), `text_init`, `text_insert`, `text_delete`, `text_boundary`,
--                `text_byte` and the sizes. Edit/Insert has the invariant `IsText` of a text.
--   Text/Read    `text_copy`, `text_slice`, `text_next`, `text_prev`
--   Text/Lines   `text_line_start`, `text_line_of`, `text_byte_to_char`
--   Text/Check   `text_check`
--   Text/Write   `text_write`; the stream is the interface `Stream`
--   Text/Place   `text_char_to_byte`
--   Text/Replace a deletion and an insertion at one place, as edits and undo make them
--   Buffer       `Buffer`, `Edit` and `Editor` (include/editor.h); the fields of `Editor` for the
--                windows, the numeric argument, the minibuffer, searching and macros are records of
--                their own; `editor_replace`, `editor_insert`, `relocate`
--                (src/buffer.c), `editor_lex_invalidate` (src/syntax.c). The current buffer is an
--                index into the list of buffers; the Python hook that an edit calls is a parameter.
--                Buffer/History has the invariant `IsBuffer` of a buffer and its history,
--                Buffer/Replace the edits.
--   Buffer/Undo  `undo` (src/commands.c): Buffer/Step has one entry, Buffer/Group and Buffer/Loop one
--                group of entries, Buffer/Times all rounds, Buffer/Roundtrip undo after an edit.
--                Buffer/Relocate has the places of points and marks.
--   Buffer/SetText  `editor_set_text` (src/buffer.c): SetText/Whole has what is kept of the text,
--                SetText/Sets the outcome
--   Buffer/Find  `editor_find` (src/buffer.c): Find/Failure has the table `pi`, Find/Scan the loop over
--                the bytes, Find/Chunks the chunks, Find/Occurs what is sought, Find/Correct the search
--   File         the decoding of a file in `editor_open` and its writing in `editor_save`
--                (src/buffer.c); File/LineEnds has the line ends
--   Window       the list of buffers and the windows: `editor_by_id`, `editor_switch`,
--                `editor_new_buffer`, `editor_drop_buffer` (src/buffer.c). A pointer to a buffer is its
--                id. Window/Command has the window and buffer commands of `dispatch`
--                (src/commands.c), Window/Session the invariant of a session.
--   Key          `editor_bind`, the default bindings; Key/Press `editor_key` (src/commands.c), with
--                `editor_command` and `prompt_key` as parameters; Key/Table has the bindings as a
--                table, Key/Argument the numeric argument
--   Minibuffer   `prompt`, `prompt_clear`, `str_prev`, `str_next`, `input_insert` and the editing keys
--                of `prompt_key` (src/commands.c)
--                Minibuffer/Answer has the incremental search, query-replace, the confirmations,
--                `editor_external_yank` and `editor_paste`, Minibuffer/Replace the end of query-replace
--   Column       `scan_columns`, `editor_column`, `editor_at_column` (src/buffer.c) and the commands
--                of `dispatch` that move by lines
--   Editing      the commands of `dispatch` that edit around the point
--   Motion       `eol`, `word_at`, `move_word`, `move_char` and their commands (src/commands.c);
--                Motion/Words has the words that `move_word` passes
--   Kill         the kill ring, `push_kill` (src/commands.c); Kill/Range has `kill_range` and the
--                commands that kill and yank, Kill/Restore a kill and a yank after it
--   TermStyle    the colours of the terminal front end (src/term_style.c): `term_index_rgb`, `blend`,
--                `contrast_text`, `contrast_background`, `distance`, `quantize`,
--                `term_palette_update`; TermStyle/Mode: `term_colors_parse`,
--                `term_colors_resolve`. The arithmetic on `double` is a parameter (`Floats`).
--   Tests        theorems at concrete states
--
-- Numbers. A `size_t` is a natural number; sums of lengths of ranges in memory are not reduced, and
-- subtraction that can pass below zero wraps around (`sub_size`). `uint32_t` arithmetic of the random
-- state and of decoding is reduced. Bytes are numbers.
--
-- Loops. A walk down the tree and a loop over bytes are structural recursion. The loop of `pieces`
-- runs on fuel, one round for each byte, which is enough since a round takes at least one byte of
-- valid text; past its fuel it gives `none`. The loop that doubles the capacity runs 64 rounds,
-- enough to pass every 64-bit size. `utf8_valid` runs one round for each byte. The inner loop of
-- `undo` runs one round for each entry of the history, since every round leaves one fewer ahead.
-- The loops of `editor_find` run j rounds to fall back, since each makes j less, and a round for each
-- byte that is left of the text, of which each chunk takes one or more; those of `move_word` run a
-- round for each byte ahead. The loops over columns and over the characters of a word run a round for
-- each byte, and query-replace a round for each byte of the text. The loop of quit-confirm runs a round
-- for each place of the buffer list, which has 256, and one more.
--
-- Pointers. Where the code uses a buffer after a hook that may have dropped it, the model looks the
-- buffer up by its id and has no result if it is gone.
--
-- Not modelled: `dispatch` as a whole, `editor_command`, completion, the views and the protocol (src/view.c, src/protocol.c), the
-- states of the lexer (src/syntax.c); allocation and its failure, which ends the program; the release of nodes;
-- input and output (src/main.c, src/transport.c, src/tui.c, src/gui_x11.c) and the Python host
-- (src/python.c).
pub mod Base
pub mod Utf8
pub mod Text
pub mod Buffer
pub mod Column
pub mod Editing
pub mod File
pub mod Key
pub mod Kill
pub mod Minibuffer
pub mod Motion
pub mod TermStyle
pub mod Window
pub mod Tests
