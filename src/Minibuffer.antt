-- ===== src/Minibuffer.antt =====
-- The minibuffer: `prompt`, `prompt_clear`, `str_prev`, `str_next`, `input_insert` and the editing keys
-- of `prompt_key` in src/commands.c.
pub mod Bounds
pub mod Answer
pub mod Replace
use cpymacs.Base.{
  Name, Option, [], codes, drop, get_or, if◌then◌else◌, leb, length, none, not, same_name, some,
  suc, take, zero, ℕ, ◌&&◌, ◌++◌, ◌+◌, ◌-◌, ◌==◌, ◌||◌, ◌∷◌,
}
use cpymacs.Buffer.{Editor, Minibuffer}
use cpymacs.Utf8.Bytes.{is_continuation}
use cpymacs.Text.Edit.{inserted}

-- `snprintf(to,size,"%s",s)` keeps size - 1 bytes
abbrev pub fitted : ℕ → Name → Name
fitted size s = take (size - 1) s

abbrev pub prompt_max : ℕ
prompt_max = 4096

-- `prompt`; no initial text is the empty one
unfoldable pub prompt : Editor → Name → Name → Name → Editor
prompt e label command initial = record e {
  minibuffer = record {
    prompt = fitted 100 label;
    prompt_command = fitted 100 command;
    input = fitted prompt_max initial;
    input_point = length (fitted prompt_max initial);
  };
}

unfoldable pub prompt_clear : Editor → Editor
prompt_clear e = record e {
  minibuffer = record { prompt = []; prompt_command = []; input = []; input_point = 0 };
}

-- `while(i && …) i--` below the first step
unfoldable pub back_over : Name → ℕ → ℕ
back_over s zero = 0
back_over s (suc i) =
    let rest = back_over s i in if is_continuation (get_or s (suc i) 0) then rest else suc i

unfoldable pub str_prev : Name → ℕ → ℕ
str_prev s zero = 0
str_prev s (suc i) = back_over s i

-- `while(s[i] && …) i++` over the bytes from i on
unfoldable pub forward_over : Name → ℕ → ℕ
forward_over [] i = i
forward_over (c ∷ s) i = let rest = forward_over s (i + 1) in if is_continuation c then rest else i

unfoldable pub str_next : Name → ℕ → ℕ
str_next s i = elim (drop i s) [ [] ↦ i | c ∷ rest ↦ forward_over rest (i + 1) ]

-- The bytes go in at the point if there is room for them and the NUL.
unfoldable pub input_insert : Minibuffer → Name → Option Minibuffer
input_insert m s =
    if leb (prompt_max - length m.input) (length s)
    then none
    else some (record m {
      input = take m.input_point m.input ++ (s ++ drop m.input_point m.input);
      input_point = m.input_point + length s;
    })

-- What a key does to the input: `none` if the key is none of these. `yanked` is the first kill.
unfoldable pub input_key : Minibuffer → Option Name → Name → Option Minibuffer
input_key m yanked key =
    let at = str_prev m.input m.input_point in
    let next_at = str_next m.input m.input_point in
    let inserted : Name → Minibuffer = λ s. elim (input_insert m s) [ none ↦ m | some m' ↦ m' ] in
    if same_name key (codes "C-a")
    then some (record m { input_point = 0 })
    else if same_name key (codes "C-e")
    then some (record m { input_point = length m.input })
    else if same_name key (codes "C-b") || same_name key (codes "<left>")
    then some (record m { input_point = at })
    else if same_name key (codes "C-f") || same_name key (codes "<right>")
    then some (record m { input_point = next_at })
    else if same_name key (codes "DEL")
    then some (record m { input = take at m.input ++ drop m.input_point m.input; input_point = at })
    else if same_name key (codes "C-d") || same_name key (codes "<delete>")
    then some (record m { input = take m.input_point m.input ++ drop next_at m.input })
    else if same_name key (codes "C-k")
    then some (record m { input = take m.input_point m.input })
    else if same_name key (codes "C-y")
    then some (elim yanked [ none ↦ m | some s ↦ inserted s ])
    else if not (length key == 0) && (length key == 1 || leb 128 (get_or key 0 0))
    then some (inserted key)
    else none
