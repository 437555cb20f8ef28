-- ===== src/Tests/Keys.antt =====
-- The theorems on keys, bindings and the minibuffer at concrete keys.
use cpymacs.Base.{
  Bool, Name, Option, [], arith, codes, if◌then◌else◌, map, none, refl, same_name, some, true, ◌&&◌,
  ◌∷◌, ◌≡◌,
}
use cpymacs.Key.{editor_bind, find_binding}
use cpymacs.Minibuffer.{back_over, forward_over, input_key, str_next, str_prev}
use cpymacs.Buffer.{Editor, Minibuffer}
use cpymacs.Tests.Buffers.{editor, no_hook}
use cpymacs.Utf8.Bytes.{is_continuation}
use cpymacs.Key.Argument.{IsReady, decimal, fits, press_all, typed_argument_lem}
use cpymacs.Key.Table.{IsTable, command_for, editor_bind_lem, command_at}
use cpymacs.Key.Press.{Outcome, count_of}
use cpymacs.Buffer.Undo.{Long, pos}
use cpymacs.Minibuffer.Bounds.{IsInput, input_key-IsInput}

abbrev no_command : Editor → Name → Option Name → Long → Bool → Outcome
no_command e command arg count given = some (true, e)

abbrev no_answer : Editor → Name → Outcome
no_answer e key = some (true, e)

ready : IsReady no_hook no_command no_answer editor
ready = record { closed = refl; fresh = refl; unrecorded = refl }

typed_argument_lem_example :
    (out : Editor) × (press_all no_hook no_command no_answer editor
        (codes "C-u" ∷ map (λ x. x ∷ []) (49 ∷ (50 ∷ [])))
      ≡ some (true, out))
    × IsReady no_hook no_command no_answer out
    × (count_of out.argument ≡ pos (decimal 0 (49 ∷ (50 ∷ []))))
unfolding fits
typed_argument_lem_example =
    typed_argument_lem no_hook no_command no_answer 49 (50 ∷ []) editor ready refl refl

abbrev one_key : Editor
one_key = record editor {
  bindings = record { key = codes "C-f"; command = codes "forward-char"; mode = [] } ∷ [];
}

one_key-IsTable : IsTable one_key.bindings
unfolding IsTable command_at
one_key-IsTable = (refl, tt)

editor_bind_lem_example :
    IsTable (editor_bind one_key (codes "TAB") (codes "complete") (codes "c-mode")).bindings
    × ((mode' key' : Name)
        → command_at
            (editor_bind one_key (codes "TAB") (codes "complete") (codes "c-mode")).bindings
            mode'
            key'
          ≡ (if same_name (codes "c-mode") mode' && same_name (codes "TAB") key'
              then some (codes "complete")
              else command_at one_key.bindings mode' key'))
    × ((mode' key' : Name)
        → (find_binding
            (editor_bind one_key (codes "TAB") (codes "complete") (codes "c-mode")).bindings
            mode'
            key').0
          ≡ command_for
              (editor_bind one_key (codes "TAB") (codes "complete") (codes "c-mode")).bindings
              mode'
              key')
editor_bind_lem_example =
    editor_bind_lem one_key (codes "TAB") (codes "complete") (codes "c-mode") one_key-IsTable
      (omega arith) (omega arith) (omega arith)

abbrev typed : Minibuffer
typed = record {
  prompt = codes "Find file: ";
  prompt_command = codes "find-file";
  input = 97 ∷ (195 ∷ (169 ∷ []));
  input_point = 3;
}

typed-IsInput : IsInput typed
typed-IsInput = record { fits = omega arith; inside = omega arith }

rubbed_out :
    input_key typed none (codes "DEL") ≡ some (record typed { input = 97 ∷ []; input_point = 1 })
unfolding input_key str_prev back_over same_name str_next forward_over is_continuation
rubbed_out = refl

input_key-IsInput_example : IsInput (record typed { input = 97 ∷ []; input_point = 1 })
input_key-IsInput_example =
    input_key-IsInput typed none (codes "DEL") typed-IsInput
      (record typed { input = 97 ∷ []; input_point = 1 }) rubbed_out
