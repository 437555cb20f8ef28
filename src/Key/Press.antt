-- ===== src/Key/Press.antt =====
-- `editor_key` of src/commands.c: recording, the numeric argument, key sequences and text.
-- `editor_command` and `prompt_key`, which call it in turn, are parameters.
use cpymacs.Base.{
  Bool, Name, Option, [], codes, false, get_or, if◌then◌else◌, leb, length, ltb, none, not,
  same_name, some, suc, take, true, zero, ℕ, ◌%◌, ◌&&◌, ◌*◌, ◌++◌, ◌+◌, ◌-◌, ◌==◌, ◌>>=◌, ◌^◌, ◌||◌,
  ◌∷◌,
}
use cpymacs.Key.{find_binding}
use cpymacs.Buffer.{
  Argument, Buffer, Editor, argument_limit, editor_buffer, editor_insert, invalid_count,
  invalid_key, macro_limit, no_message, said, undefined_key, with_message,
}
use cpymacs.Utf8.{utf8_valid}
use cpymacs.Buffer.Undo.{Long, negsuc, pos}

abbrev pub Outcome : Type 0
Outcome = Option (Bool × Editor)

abbrev pub no_argument : Argument
no_argument = record { given = false; digits = false; negative = false; value = 0 }

abbrev pub is_digit : ℕ → Bool
is_digit c = leb 48 c && ltb c 58

-- 45 is '-'
abbrev pub is_argument_byte : ℕ → Bool
is_argument_byte c = is_digit c || c == 45

unfoldable pub is_meta_digit : Name → Bool
is_meta_digit key =
    length key == 3
    && (get_or key 0 0 == 77 && (get_or key 1 0 == 45 && is_argument_byte (get_or key 2 0)))

unfoldable pub is_plain_digit : Argument → Name → Bool
is_plain_digit a key = a.given && (length key == 1 && is_argument_byte (get_or key 0 0))

-- C-u
unfoldable pub universal_argument : Argument → Argument
universal_argument a =
    if not a.given
    then record { given = true; digits = false; negative = false; value = 4 }
    else if not a.digits && leb a.value 25000
    then record a { value = a.value * 4 }
    else a

-- The argument after the byte c of a digit or a minus sign, and whether it is taken.
unfoldable pub argument_byte : Argument → ℕ → Bool × Argument
argument_byte old c =
    let a = if old.given then old else record old { value = 0; digits = false; negative = false } in
    let start = if a.digits then a.value else 0 in
    if c == 45
    then (true, record a { given = true; negative = true; value = if a.digits then a.value else 1 })
    else if ltb 10000 start
    then (false, record a { value = start })
    else (true, record a { given = true; digits = true; value = start * 10 + (c - 48) })

-- the count of a command or of a text
unfoldable pub count_of : Argument → Long
count_of a =
    let n = if a.given then a.value else 1 in
    if a.negative then (if n == 0 then pos 0 else negsuc (n - 1)) else pos n

-- `isearch` and the other prompts take the key
unfoldable pub record_key : Editor → Name → Bool × Editor
record_key e key =
    if e.macro.recording && not e.macro.playing
    then (if leb 10000 (length e.macro.keys)
        then (
          false,
          record e { macro = record e.macro { recording = false }; message = macro_limit },
        )
        else (true, record e { macro = record e.macro { keys = e.macro.keys ++ (key ∷ []) } }))
    else (true, e)

-- the keys so far and this one: `snprintf` with "%.70s %.25s"
unfoldable pub full_key : Name → Name → Name
full_key before key =
    if length before == 0
    then take 99 key
    else take 99 (take 70 before ++ (codes " " ++ take 25 key))

unfoldable pub repeated : ℕ → Name → Name
repeated zero key = []
repeated (suc n) key = key ++ repeated n key

abbrev pub many : Long → Bool
many (pos n) = ltb 100000 n
many (negsuc n) = true

abbrev pub times : Long → ℕ
times (pos n) = n
times (negsuc n) = 0

module _ (text_changed : Editor → Editor)
    (run : Editor → Name → Option Name → Long → Bool → Outcome)
    (answer : Editor → Name → Outcome) where
  -- a key that is text
  unfoldable pub type_key : Editor → Name → Outcome
  type_key e key =
      let n = count_of e.argument in
      let e' = record e {
        argument = record e.argument { given = false; digits = false; negative = false };
      } in
      let ready = record e' {
        group = (e'.group + 1) % 2 ^ 64;
        last_kind = 0;
        message = no_message;
      } in
      if many n
      then some (false, with_message e' invalid_count)
      else editor_insert text_changed ready (repeated (times n) key)

  -- the key sequence `full`, in the mode of the buffer
  unfoldable pub sequence_key : Editor → Buffer → Name → Name → Outcome
  sequence_key e b key full =
      let hit = find_binding e.bindings b.mode full in
      let alone = length e.key_prefix == 0 in
      let printable = alone && (length key == 1 || leb 128 (get_or key 0 0)) in
      let e' = record e { key_prefix = [] } in
      let undefined = record e' {
        argument = record e.argument { given = false };
        message = undefined_key;
      } in
      elim hit.0 [
        | some command ↦
            run
              (record e' {
                argument = record e.argument { given = false; digits = false; negative = false };
              })
              command none (count_of e.argument) e.argument.given
        | none ↦
            if hit.1
            then some (true, record e { key_prefix = full; message = said })
            else if printable && utf8_valid key
            then type_key e' key
            else some (false, undefined)
      ]

  -- a key outside the minibuffer, when it is recorded
  unfoldable pub plain_key : Editor → Name → Outcome
  plain_key e key =
      let alone = length e.key_prefix == 0 in
      let meta = is_meta_digit key in
      let (taken, a) = argument_byte e.argument (get_or key (if meta then 2 else 0) 0) in
      if same_name key (codes "C-g")
      then run e (codes "keyboard-quit") none (pos 1) false
      else if same_name key (codes "C-u") && alone
      then some (true, record e { argument = universal_argument e.argument; message = said })
      else if alone && (meta || is_plain_digit e.argument key)
      then some (taken, record e { argument = a; message = if taken then said else argument_limit })
      else (do b ← editor_buffer e; sequence_key e b key (full_key e.key_prefix key))

  unfoldable pub editor_key : Editor → Name → Outcome
  editor_key e key =
      let (going, e') = record_key e key in
      if length key == 0 || ltb 80 (length key)
      then some (false, with_message e invalid_key)
      else if not going
      then some (false, e')
      else if not (length e'.minibuffer.prompt_command == 0)
      then answer e' key
      else plain_key e' key
