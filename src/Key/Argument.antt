-- ===== src/Key/Argument.antt =====
-- The numeric argument of `editor_key` in src/commands.c.
use cpymacs.Base.{
  Bool, Bool-cases, List, Name, Option, [], and_true, ap, arith, codes, false, if◌then◌else◌, inl,
  inr, leb, length, ltb, map, not, refl, same_name, some, true, ℕ, ◌&&◌, ◌*◌, ◌+◌, ◌-◌, ◌==◌, ◌>>=◌,
  ◌∙◌, ◌∷◌, ◌≡◌, ◌≤◌,
}
use cpymacs.Buffer.{Argument, Editor, said}
use cpymacs.Key.Press.{
  Outcome, argument_byte, editor_key, is_argument_byte, is_digit, is_meta_digit, is_plain_digit,
  plain_key, record_key, universal_argument, count_of,
}
use cpymacs.Buffer.Undo.{Long, pos}

-- the number that digits add to the one before them
unfoldable pub decimal : ℕ → List ℕ → ℕ
decimal n [] = n
decimal n (c ∷ s) = decimal (n * 10 + (c - 48)) s

-- All are digits, and no digit follows a number above ten thousand.
unfoldable pub fits : ℕ → List ℕ → Bool
fits n [] = true
fits n (c ∷ s) = leb n 10000 && (is_digit c && fits (n * 10 + (c - 48)) s)

abbrev pub IsArgument : Argument → Type 0
IsArgument a = a.value ≤ 100009

universal_argument-IsArgument : (a : Argument) → IsArgument a → IsArgument (universal_argument a)
unfolding universal_argument
universal_argument-IsArgument a h = elim (Bool-cases (not a.given)) [
  | inl e ↦ rw e (omega arith)
  | inr e ↦ elim (Bool-cases (not a.digits && leb a.value 25000)) [
    | inl z ↦ rw (e, z) (ground (arith, z))
    | inr z ↦ rw (e, z) h
  ]
]

argument_byte-IsArgument :
    (a : Argument) (c : ℕ)
    → is_argument_byte c ≡ true
    → IsArgument a
    → IsArgument (argument_byte a c).1
unfolding argument_byte
argument_byte-IsArgument a c d h = elim (Bool-cases a.given) [
  | inl g ↦ elim (Bool-cases a.digits) [
    | inl e ↦ rw (g, e) (ground (arith, h, d))
    | inr e ↦ rw (g, e) (ground (arith, h, d))
  ]
  | inr g ↦ rw g (ground (arith, h, d))
]

digit_byte :
    (a : Argument) (c n : ℕ)
    → a.given ≡ true
    → (if a.digits then a.value else 0) ≡ n
    → leb n 10000 ≡ true
    → is_digit c ≡ true
    → argument_byte a c
      ≡ (true, record a { given = true; digits = true; value = n * 10 + (c - 48) })
unfolding argument_byte
digit_byte a c n g v l d =
    let no_sign : (c == 45) ≡ false = ground arith in
    let small : ltb 10000 n ≡ false = ground arith in rw (g, v, no_sign, small) refl

module _ (text_changed : Editor → Editor)
    (run : Editor → Name → Option Name → Long → Bool → Outcome)
    (answer : Editor → Name → Outcome) where
  -- the keys one after the other, as long as each is taken
  unfoldable pub press_all : Editor → List Name → Outcome
  press_all e [] = some (true, e)
  press_all e (key ∷ keys) = do
    out ← editor_key text_changed run answer e key
    if out.0 then press_all out.1 keys else some out

  -- No prompt is open, no key sequence is begun and no macro is recorded.
  pub record IsReady (e : Editor) : Type 0 where
    pub closed : e.minibuffer.prompt_command ≡ []
    pub fresh : e.key_prefix ≡ []
    pub unrecorded : (e.macro.recording && not e.macro.playing) ≡ false

  digit_key :
      (e : Editor) (c n : ℕ)
      → IsReady e
      → e.argument.given ≡ true
      → (if e.argument.digits then e.argument.value else 0) ≡ n
      → leb n 10000 ≡ true
      → is_digit c ≡ true
      → editor_key text_changed run answer e (c ∷ [])
        ≡ some (
          true,
          record e {
            argument = record e.argument { given = true; digits = true; value = n * 10 + (c - 48) };
            message = said;
          },
        )
  unfolding editor_key plain_key record_key is_meta_digit is_plain_digit same_name
  digit_key e c n r g v l d =
      let key = c ∷ [] in
      let at_rest : record_key e key ≡ (true, e) = rw (r.unrecorded, record_key) refl in
      let start : editor_key text_changed run answer e key
          ≡ plain_key text_changed run answer e key =
        rw (at_rest, r.closed) refl in
      let no_g : (c == 67) ≡ false = ground arith in
      let takes : is_argument_byte c ≡ true = ground arith in
      let alone : (length e.key_prefix == 0) ≡ true = rw r.fresh refl in
      let byte = digit_byte e.argument c n g v l d in start ∙ rw (byte, no_g, alone, takes, g) refl

  -- the argument after more digits, with the message that the last of them leaves
  digits_keys :
      (s : List ℕ) (e : Editor) (n : ℕ)
      → IsReady e
      → e.argument ≡ record { given = true; digits = true; negative = false; value = n }
      → fits n s ≡ true
      → (out : Editor) × (press_all e (map (λ c. c ∷ []) s) ≡ some (true, out))
        × IsReady out
        × (out.argument
            ≡ record { given = true; digits = true; negative = false; value = decimal n s })
  unfolding press_all fits decimal
  digits_keys [] e n r g f = (e, refl, r, g)
  digits_keys (c ∷ s) e n r g f =
      let (l, more) = and_true (leb n 10000) (is_digit c && fits (n * 10 + (c - 48)) s) f in
      let (d, rest) = and_true (is_digit c) (fits (n * 10 + (c - 48)) s) more in
      let start : (if e.argument.digits then e.argument.value else 0) ≡ n = rw g refl in
      let here = digit_key e c n r (ap (λ a. a.given) g) start l d in
      let a' = record e.argument { given = true; digits = true; value = n * 10 + (c - 48) } in
      let e' = record e { argument = a'; message = said } in
      let r' : IsReady e' = record {
        closed = r.closed;
        fresh = r.fresh;
        unrecorded = r.unrecorded;
      } in
      let same : a'
          ≡ record { given = true; digits = true; negative = false; value = n * 10 + (c - 48) } =
        ap {A = Argument} {B = Argument}
          (λ a. record a { given = true; digits = true; value = n * 10 + (c - 48) }) g in
      let (out, q, ready, value) = digits_keys s e' (n * 10 + (c - 48)) r' same rest in
      (out, rw here q, ready, value)

  universal_key :
      (e : Editor)
      → IsReady e
      → editor_key text_changed run answer e (codes "C-u")
        ≡ some (true, record e { argument = universal_argument e.argument; message = said })
  unfolding editor_key plain_key record_key same_name
  universal_key e r =
      let at_rest : record_key e (codes "C-u") ≡ (true, e) = rw (r.unrecorded, record_key) refl in
      let start : editor_key text_changed run answer e (codes "C-u")
          ≡ plain_key text_changed run answer e (codes "C-u") =
        rw (at_rest, r.closed) refl in
      start ∙ rw r.fresh refl

  -- Where no argument has been given yet and no prompt, key sequence or recording is on, typing C-u and
  -- then the digits of a number, of which no digit follows a number above ten thousand, gives that
  -- number as the count of what comes next. All keys are taken, and again no prompt, key sequence or
  -- recording is on.
  pub typed_argument_lem :
      (c : ℕ) (s : List ℕ) (e : Editor)
      → IsReady e
      → e.argument.given ≡ false
      → fits 0 (c ∷ s) ≡ true
      → (out : Editor) × (press_all e (codes "C-u" ∷ map (λ x. x ∷ []) (c ∷ s)) ≡ some (true, out))
        × IsReady out
        × (count_of out.argument ≡ pos (decimal 0 (c ∷ s)))
  unfolding press_all universal_argument fits decimal count_of
  typed_argument_lem c s e r g f =
      let (d, rest) = and_true (is_digit c) (fits (0 * 10 + (c - 48)) s) f in
      let four : Argument = record { given = true; digits = false; negative = false; value = 4 } in
      let e1 = record e { argument = four; message = said } in
      let first : editor_key text_changed run answer e (codes "C-u") ≡ some (true, e1) =
        universal_key e r ∙ rw g refl in
      let r1 : IsReady e1 = record {
        closed = r.closed;
        fresh = r.fresh;
        unrecorded = r.unrecorded;
      } in
      let second = digit_key e1 c 0 r1 refl refl refl d in
      let e2 = record e1 {
        argument = record four { given = true; digits = true; value = 0 * 10 + (c - 48) };
        message = said;
      } in
      let r2 : IsReady e2 = record {
        closed = r.closed;
        fresh = r.fresh;
        unrecorded = r.unrecorded;
      } in
      let (out, q, ready, value) = digits_keys s e2 (0 * 10 + (c - 48)) r2 refl rest in
      (out, rw (first, second) q, ready, rw value refl)
