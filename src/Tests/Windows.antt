-- ===== src/Tests/Windows.antt =====
-- The theorems on windows, kills and motion at a concrete session.
use cpymacs.Base.{[], arith, codes, get_or, refl, some, suc, true, zero, ℕ, ◌<◌, ◌∷◌, ◌≡◌}
use cpymacs.Buffer.{Editor, editor_buffer}
use cpymacs.Window.{editor_drop_buffer, find_id, no_pane}
use cpymacs.Tests.Buffers.{editor, no_hook, opened}
use cpymacs.Window.Drop.{IsDropped, editor_drop_buffer_lem}
use cpymacs.Window.Safe.{Keeps}
use cpymacs.Window.Command.{
  delete_other_windows, delete_window, other_window, split_window, step_buffer, switch_to_buffer,
}
use cpymacs.Window.Lookup.{Has, IsAscending}
use cpymacs.Window.Session.{IsSession}
use cpymacs.Window.Switching.{window_commands_lem}
use cpymacs.Buffer.Undo.{negsuc}

pub session : IsSession editor
unfolding IsAscending find_id editor_buffer
session = record {
  parts = record {
    ids = (omega arith, omega arith);
    few = omega arith;
    windows = record {
      some_pane = omega arith;
      few = omega arith;
      inside = omega arith;
      shown = λ i l. only i l;
    };
  };
  current = (opened, refl, refl);
}
  where
    only : (i : ℕ) → i < 1 → Has (opened ∷ []) (get_or editor.windows.panes i no_pane).buffer
    only zero l = (opened, unfold find_id in refl)
    only (suc i) l = absurd (omega (arith, l))

here : editor_buffer editor ≡ some opened
unfolding editor_buffer
here = refl

there : Has editor.buffers 1
unfolding find_id
there = (opened, refl)

editor_drop_buffer_lem_example :
    (out : Editor) × (editor_drop_buffer editor 1 ≡ some out) × IsDropped editor 1 out
editor_drop_buffer_lem_example = editor_drop_buffer_lem editor 1 session there

window_commands_lem_example :
    Keeps (split_window editor opened true)
    × Keeps (other_window editor opened (negsuc 2))
    × Keeps (delete_other_windows editor)
    × Keeps (delete_window editor)
    × Keeps (step_buffer editor (negsuc 2))
    × Keeps (switch_to_buffer no_hook editor (codes "other"))
window_commands_lem_example =
    window_commands_lem editor session opened no_hook (negsuc 2) (codes "other") true here
      (λ d v. v)
