-- ===== src/Key.antt =====
-- The key bindings: `editor_bind` and `editor_default_bindings` of src/commands.c. The capacity of
-- the array is that of a list.
pub mod Table
pub mod Press
pub mod Argument
use cpymacs.Base.{
  Bool, List, Name, Option, [], codes, false, if◌then◌else◌, leb, length, none, same_name, some,
  starts_with, ◌&&◌, ◌++◌, ◌+◌, ◌-◌, ◌||◌, ◌∷◌,
}
use cpymacs.Buffer.{Binding, Editor}
use cpymacs.Buffer.Undo.{undo}

-- `editor_bind`'s search and its append; the empty mode is that of all buffers
unfoldable pub bind_in : List Binding → Name → Name → Name → List Binding
bind_in [] key command mode = record { key = key; command = command; mode = mode } ∷ []
bind_in (k ∷ bindings) key command mode =
    let rest = bind_in bindings key command mode in
    if same_name k.key key && same_name k.mode mode
    then record k { command = command } ∷ bindings
    else k ∷ rest

unfoldable pub editor_bind : Editor → Name → Name → Name → Editor
editor_bind e key command mode =
    if leb 100 (length key) || (leb 100 (length command) || leb 80 (length mode))
    then e
    else record e { bindings = bind_in e.bindings key command mode }

-- `pairs`
abbrev pub default_pairs : List (Name × Name)
default_pairs =
    (codes "C-f", codes "forward-char")
    ∷ (codes "C-b", codes "backward-char")
    ∷ (codes "C-p", codes "previous-line")
    ∷ (codes "C-n", codes "next-line")
    ∷ (codes "C-a", codes "beginning-of-line")
    ∷ (codes "C-e", codes "end-of-line")
    ∷ (codes "M-f", codes "forward-word")
    ∷ (codes "M-b", codes "backward-word")
    ∷ (codes "M-<", codes "beginning-of-buffer")
    ∷ (codes "M->", codes "end-of-buffer")
    ∷ (codes "C-d", codes "delete-char")
    ∷ (codes "DEL", codes "backward-delete-char-untabify")
    ∷ (codes "<delete>", codes "delete-char")
    ∷ (codes "M-d", codes "kill-word")
    ∷ (codes "M-DEL", codes "backward-kill-word")
    ∷ (codes "C-k", codes "kill-line")
    ∷ (codes "C-w", codes "kill-region")
    ∷ (codes "M-w", codes "copy-region-as-kill")
    ∷ (codes "C-y", codes "yank")
    ∷ (codes "M-y", codes "yank-pop")
    ∷ (codes "C-SPC", codes "set-mark-command")
    ∷ (codes "C-@", codes "set-mark-command")
    ∷ (codes "C-x h", codes "mark-whole-buffer")
    ∷ (codes "C-x C-x", codes "exchange-point-and-mark")
    ∷ (codes "RET", codes "newline")
    ∷ (codes "TAB", codes "indent-for-tab-command")
    ∷ (codes "C-o", codes "open-line")
    ∷ (codes "C-j", codes "newline-and-indent")
    ∷ (codes "C-t", codes "transpose-chars")
    ∷ (codes "M-\\", codes "delete-horizontal-space")
    ∷ (codes "C-/", codes "undo")
    ∷ (codes "C-_", codes "undo")
    ∷ (codes "C-x u", codes "undo")
    ∷ (codes "C-?", codes "undo-redo")
    ∷ (codes "C-s", codes "isearch-forward")
    ∷ (codes "C-r", codes "isearch-backward")
    ∷ (codes "M-%", codes "query-replace")
    ∷ (codes "M-g g", codes "goto-line")
    ∷ (codes "M-g M-g", codes "goto-line")
    ∷ (codes "M-x", codes "execute-extended-command")
    ∷ (codes "C-x C-f", codes "find-file")
    ∷ (codes "C-x C-s", codes "save-buffer")
    ∷ (codes "C-x C-w", codes "write-file")
    ∷ (codes "C-x C-c", codes "save-buffers-kill-terminal")
    ∷ (codes "C-x b", codes "switch-to-buffer")
    ∷ (codes "C-x k", codes "kill-buffer")
    ∷ (codes "C-x C-b", codes "list-buffers")
    ∷ (codes "C-x <right>", codes "next-buffer")
    ∷ (codes "C-x <left>", codes "previous-buffer")
    ∷ (codes "C-x 2", codes "split-window-below")
    ∷ (codes "C-x 3", codes "split-window-right")
    ∷ (codes "C-x 0", codes "delete-window")
    ∷ (codes "C-x 1", codes "delete-other-windows")
    ∷ (codes "C-x o", codes "other-window")
    ∷ (codes "C-x C-q", codes "toggle-read-only")
    ∷ (codes "C-v", codes "scroll-up-command")
    ∷ (codes "M-v", codes "scroll-down-command")
    ∷ (codes "C-l", codes "recenter-top-bottom")
    ∷ (codes "C-g", codes "keyboard-quit")
    ∷ (codes "C-u", codes "universal-argument")
    ∷ (codes "M-u", codes "upcase-word")
    ∷ (codes "M-l", codes "downcase-word")
    ∷ (codes "M-c", codes "capitalize-word")
    ∷ (codes "<left>", codes "backward-char")
    ∷ (codes "<right>", codes "forward-char")
    ∷ (codes "<up>", codes "previous-line")
    ∷ (codes "<down>", codes "next-line")
    ∷ (codes "<home>", codes "beginning-of-line")
    ∷ (codes "<end>", codes "end-of-line")
    ∷ (codes "<prior>", codes "scroll-down-command")
    ∷ (codes "<next>", codes "scroll-up-command")
    ∷ (codes "C-x (", codes "start-kbd-macro")
    ∷ (codes "C-x )", codes "end-kbd-macro")
    ∷ (codes "C-x e", codes "call-last-kbd-macro")
    ∷ (codes "C-h b", codes "describe-bindings")
    ∷ (codes "C-h m", codes "describe-mode")
    ∷ (codes "C-x +", codes "text-scale-increase")
    ∷ (codes "C-x -", codes "text-scale-decrease")
    ∷ []

unfoldable pub bind_all : Editor → List (Name × Name) → Editor
bind_all e [] = e
bind_all e ((key, command) ∷ pairs) = bind_all (editor_bind e key command []) pairs

unfoldable pub editor_default_bindings : Editor → Editor
editor_default_bindings e = bind_all e default_pairs

-- What a scan of the bindings has found: the command, and whether the keys start a longer binding.
abbrev pub Hit : Type 0
Hit = Option Name × Bool

-- one pass of the loop in `editor_key`, over the bindings of one mode
unfoldable pub scan_bindings : List Binding → Name → Name → Hit → Hit
scan_bindings [] mode full hit = hit
scan_bindings (k ∷ bindings) mode full hit = scan_bindings bindings mode full (
    if same_name k.mode mode
    then (
      if same_name k.key full then some k.command else hit.0,
      hit.1 || starts_with (full ++ codes " ") k.key,
    )
    else hit)

-- both passes: the bindings of all buffers, then those of the buffer's mode
unfoldable pub find_binding : List Binding → Name → Name → Hit
find_binding bindings mode full =
    scan_bindings bindings mode full (scan_bindings bindings [] full (none, false))
