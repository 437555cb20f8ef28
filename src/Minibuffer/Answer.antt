-- ===== src/Minibuffer/Answer.antt =====
-- `search_update`, `query_next`, the confirmations of `prompt_key`, `editor_external_yank` and
-- `editor_paste` of src/commands.c. `editor_command` and `editor_save` are parameters.
use cpymacs.Base.{
  Bool, List, Name, Option, [], codes, contains, false, get_elem?, if◌then◌else◌, leb, length, none,
  not, same_name, some, starts_with, suc, true, zero, ℕ, ◌%◌, ◌&&◌, ◌++◌, ◌+◌, ◌-◌, ◌==◌, ◌>>=◌,
  ◌^◌, ◌||◌,
}
use cpymacs.Kill.{push_kill}
use cpymacs.Minibuffer.{fitted, input_insert, prompt, prompt_clear}
use cpymacs.Buffer.{
  Buffer, Editor, Minibuffer, answer_keys, editor_buffer, editor_insert, editor_replace,
  input_too_long, kill_canceled, put_buffer, quit_canceled, replace_finished, with_message,
}
use cpymacs.Window.{max_buffers, editor_by_id, editor_drop_buffer, editor_switch}
use cpymacs.Utf8.{utf8_valid}
use cpymacs.Key.Press.{Outcome}
use cpymacs.Text.Edit.{text_size}
use cpymacs.Buffer.Find.{editor_find}
use cpymacs.Buffer.Undo.{Long, pos}

abbrev pub repeat_start : Editor → Buffer → Bool → ℕ
repeat_start e b again =
    let n = length e.minibuffer.input in
    if not again
    then e.search.origin
    else if e.search.backward && leb n b.point
    then b.point - n
    else b.point

-- the search in a buffer, and whether it has wrapped around
unfoldable pub search_from : Editor → Buffer → Bool → Option ℕ × Bool
search_from e b again =
    let s = e.search in
    let first = editor_find b e.minibuffer.input (repeat_start e b again) s.backward in
    let second =
      editor_find b e.minibuffer.input (if s.backward then text_size b.text else 0) s.backward in
    elim first [
      | some at ↦ (some at, s.wrapped)
      | none ↦ if again then (second, true) else (none, s.wrapped)
    ]

unfoldable pub search_label : Bool → Bool → Bool → Name
search_label failed wrapped backward =
    (if failed then codes "Failing " else if wrapped then codes "Wrapped " else [])
    ++ (codes "I-search" ++ ((if backward then codes " backward" else []) ++ codes ": "))

unfoldable pub search_found : Editor → Buffer → Option ℕ × Bool → Editor
search_found e b (at, wrapped) =
    let s = record e.search { wrapped = wrapped } in
    let input = e.minibuffer.input in
    let shown : Bool → Minibuffer = λ failed. record e.minibuffer {
      prompt = fitted 100 (search_label failed wrapped s.backward);
    } in
    elim at [
      | none ↦ record e { search = record s { failed = true }; minibuffer = shown true }
      | some k ↦
          put_buffer
            (record e {
              search = record s { failed = false; good = input };
              minibuffer = shown false;
            })
            (record b { point = if s.backward then k else k + length input })
    ]

unfoldable pub search_update : Editor → Bool → Option Editor
search_update e again = do
  b ← editor_buffer e
  some (if length e.minibuffer.input == 0 then e else search_found e b (search_from e b again))

-- `query_next` in the current buffer
unfoldable pub query_next_at : Editor → Buffer → Option ℕ → Option Editor
query_next_at e b none = some (with_message (prompt_clear e) replace_finished)
query_next_at e b (some at) =
    let c = record b {
      point = at + length e.search.replace_from;
      mark = at;
      has_mark = true;
      mark_active = true;
    } in
    let e' = put_buffer (record e { search = record e.search { replace_at = at } }) c in
    some (prompt e' (codes "Replace? y/n/!/q: ") (codes "query-step") [])

unfoldable pub query_next : Editor → Option Editor
query_next e = do
  b ← editor_buffer e
  query_next_at e b (editor_find b e.search.replace_from b.point false)

-- a round of the loop of replacements once the edit has been made, or refused
unfoldable pub replace_on : Bool × Editor → Outcome
replace_on (false, d) = some (false, prompt_clear d)
replace_on (true, d) =
    editor_buffer d
    >>= (λ b.
        query_next
          (put_buffer d (record b { point = d.search.replace_at + length d.search.replace_to })))
    >>= (λ f. some (true, f))

module _ (text_changed : Editor → Editor) (save : Editor → Option Name → Bool → Outcome) where
  -- kill-confirm
  unfoldable pub kill_confirm_key : Editor → Name → Outcome
  kill_confirm_key e key =
      let closed = prompt_clear e in
      let dropped : Outcome = elim (editor_by_id e e.pending_buffer) [
        | none ↦ some (true, closed)
        | some b ↦ editor_drop_buffer closed b.id >>= (λ d. some (true, d))
      ] in
      if same_name key (codes "y")
      then dropped
      else if same_name key (codes "n")
          || (same_name key (codes "C-g") || same_name key (codes "RET"))
      then some (true, with_message closed kill_canceled)
      else some (true, e)

  -- The loop over the buffers in quit-confirm, from i on; false if a buffer cannot be written. There
  -- is no result past the fuel.
  unfoldable pub save_all : ℕ → ℕ → Editor → Outcome
  save_all zero i e = none
  save_all (suc n) i e = elim (get_elem? e.buffers i) [
    | none ↦ some (true, e)
    | some b ↦
        let written = save (editor_switch e b.id) none false >>= (λ out.
          if out.0 then save_all n (i + 1) out.1 else some (false, prompt_clear out.1)) in
        if b.state == b.saved_state then save_all n (i + 1) e else written
  ]

  unfoldable pub quit_confirm_key : Editor → Name → Outcome
  quit_confirm_key e key =
      let closed = prompt_clear e in
      let written = save_all (max_buffers + 1) 0 e >>= (λ out.
        if out.0
        then (get_elem? out.1.buffers e.current >>= (λ b.
            some (true, record (prompt_clear (editor_switch out.1 b.id)) { quit = true })))
        else some out) in
      if same_name key (codes "y")
      then some (true, record closed { quit = true })
      else if same_name key (codes "s")
      then written
      else if same_name key (codes "n")
          || (same_name key (codes "C-g") || same_name key (codes "RET"))
      then some (true, with_message closed quit_canceled)
      else some (true, e)

  -- one round of the loop of replacements: false if the edit is refused, and the next place to replace
  unfoldable pub replace_once : Editor → Outcome
  replace_once e =
      editor_replace text_changed (record e { group = (e.group + 1) % 2 ^ 64 }) e.search.replace_at
        (length e.search.replace_from) e.search.replace_to
      >>= replace_on

  -- `do{…}while(all && *e->prompt_command)`, on fuel; there is no result past it
  unfoldable pub replace_while : ℕ → Bool → Editor → Outcome
  replace_while zero all e = none
  replace_while (suc fuel) all e = replace_once e >>= (λ out.
      if out.0 && (all && not (length out.1.minibuffer.prompt_command == 0))
      then replace_while fuel all out.1
      else some out)

  -- query-step, with a round for each byte of the text
  unfoldable pub query_step_key : Editor → Buffer → Name → Outcome
  query_step_key e b key =
      if same_name key (codes "q") || (same_name key (codes "RET") || same_name key (codes "C-g"))
      then some (true, put_buffer (prompt_clear e) (record b { mark_active = false }))
      else if same_name key (codes "y") || same_name key (codes "!")
      then replace_while (text_size b.text + 1) (same_name key (codes "!")) e
      else if same_name key (codes "n")
      then (query_next e >>= (λ d. some (true, d)))
      else some (true, e)

unfoldable pub editor_external_yank :
    (Editor → Name → Option Name → Long → Bool → Outcome) → Editor → List ℕ → Outcome
editor_external_yank run e s =
    if not (utf8_valid s)
    then some (false, e)
    else run (push_kill e s false false) (codes "yank") none (pos 1) false

unfoldable pub editor_paste : (Editor → Editor) → Editor → List ℕ → Outcome
editor_paste text_changed e s =
    let command = e.minibuffer.prompt_command in
    let taken : Outcome = elim (input_insert e.minibuffer s) [
      | none ↦ some (false, with_message e input_too_long)
      | some m ↦
          let e' = record e { minibuffer = m } in
          if starts_with (codes "isearch-") command
          then (search_update e' false >>= (λ d. some (true, d)))
          else some (true, e')
    ] in
    if not (utf8_valid s)
    then some (false, e)
    else if length command == 0
    then editor_insert text_changed e s
    else if contains (codes "confirm") command || same_name command (codes "query-step")
    then some (false, with_message e answer_keys)
    else taken
