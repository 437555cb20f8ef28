-- ===== src/Window/Command.antt =====
-- The commands of `dispatch` in src/commands.c that change the windows, and that switch buffers.
use cpymacs.Base.{
  Bool, List, Name, Option, [], codes, drop, false, get_elem?, get_or, if◌then◌else◌, leb, length,
  ltb, none, same_name, some, take, true, ℕ, ◌%◌, ◌&&◌, ◌++◌, ◌+◌, ◌-◌, ◌==◌, ◌>>=◌, ◌∷◌,
}
use cpymacs.Buffer.{Buffer, Editor, Windows, sole_window, window_limit, with_message}
use cpymacs.Window.{
  active, editor_by_id, editor_new_buffer, editor_switch, max_panes, no_pane, put_by_id, set_active,
}
use cpymacs.Text.Edit.{text_size}
use cpymacs.Buffer.Undo.{Long, negsuc, pos}

-- the active window's copy of the point of *b
abbrev pub save_point : Editor → Buffer → Windows
save_point e b = set_active e.windows (record (active e.windows) { point = b.point })

-- split-window-below, and split-window-right for `vertical`
unfoldable pub split_window : Editor → Buffer → Bool → Option (Bool × Editor)
split_window e b vertical =
    let w = save_point e b in
    if leb max_panes (length e.windows.panes)
    then some (false, with_message e window_limit)
    else some (
      true,
      record e {
        windows = record w { panes = w.panes ++ (active w ∷ []); split_vertical = vertical };
      },
    )

-- `(a+n)%m`, with m added to a negative result
unfoldable pub around : ℕ → Long → ℕ → ℕ
around a (pos n) m = (a + n) % m
around a (negsuc n) m =
    if leb (n + 1) a
    then (a - (n + 1)) % m
    else (let r = (n + 1 - a) % m in if r == 0 then 0 else m - r)

unfoldable pub other_window : Editor → Buffer → Long → Option (Bool × Editor)
other_window e b count =
    let w = save_point e b in
    let n = around w.active_pane count (length w.panes) in
    let e' = record e { windows = record w { active_pane = n } } in
    let p = get_or w.panes n no_pane in
    elim (editor_by_id e' p.buffer) [
      | none ↦ some (true, e')
      | some q ↦
          let at = if ltb (text_size q.text) p.point then text_size q.text else p.point in
          some (true, put_by_id (editor_switch e' q.id) (record q { point = at }))
    ]

unfoldable pub delete_other_windows : Editor → Option (Bool × Editor)
delete_other_windows e = some (
  true,
  record e { windows = record e.windows { panes = active e.windows ∷ []; active_pane = 0 } },
)

-- the windows without the active one
unfoldable pub pane_removed : Windows → Windows
pane_removed w =
    let panes = take w.active_pane w.panes ++ drop (w.active_pane + 1) w.panes in
    record w {
      panes = panes;
      active_pane = if leb (length panes) w.active_pane then 0 else w.active_pane;
    }

unfoldable pub delete_window : Editor → Option (Bool × Editor)
delete_window e =
    let e' = record e { windows = pane_removed e.windows } in
    if length e.windows.panes == 1
    then some (false, with_message e sole_window)
    else elim (editor_by_id e' (active e'.windows).buffer) [
      | none ↦ some (true, e')
      | some q ↦ some (true, editor_switch e' q.id)
    ]

-- next-buffer, and previous-buffer with the count negated; `none` for an index out of the array
unfoldable pub step_buffer : Editor → Long → Option (Bool × Editor)
step_buffer e count = do
  q ← get_elem? e.buffers (around e.current count (length e.buffers))
  some (true, editor_switch e q.id)

-- `for(…) if(!strcmp(name,arg))`: the first buffer with the name
unfoldable pub first_named : List Buffer → Name → Option Buffer
first_named [] name = none
first_named (b ∷ buffers) name =
    let rest = first_named buffers name in if same_name b.name name then some b else rest

-- the loop that goes on to the last one
unfoldable pub last_named : List Buffer → Name → Option Buffer
last_named [] name = none
last_named (b ∷ buffers) name = elim (last_named buffers name) [
  | some c ↦ some c
  | none ↦ if same_name b.name name then some b else none
]

-- switch-to-buffer with an argument; `after_open` is `plugins_event(e,"after_open")`
unfoldable pub switch_to_buffer : (Editor → Editor) → Editor → Name → Option (Bool × Editor)
switch_to_buffer after_open e arg =
    let empty = length arg == 0 in
    let following : Option (Bool × Editor) =
      get_elem? e.buffers ((e.current + 1) % length e.buffers)
      >>= (λ q. some (true, editor_switch e q.id)) in
    let made : Option (Bool × Editor) =
      editor_new_buffer e (if empty then codes "*scratch*" else arg) >>= (λ out. elim out.0 [
        | none ↦ some (false, out.1)
        | some id ↦ some (true, after_open (editor_switch out.1 id))
      ]) in
    if empty && ltb 1 (length e.buffers) then following else elim (first_named e.buffers arg) [
      | some q ↦ some (true, editor_switch e q.id)
      | none ↦ made
    ]
