-- ===== src/Minibuffer/Bounds.antt =====
-- The input of the minibuffer of src/commands.c stays in its array, and its point in it.
use cpymacs.Base.{
  Bool, Bool-cases, Name, Option, Option-cases, [], arith, drop, false, if◌then◌else◌, inl, inr,
  leb, length, length-append, length-drop, length-take, none, none≢some, refl, some, some-injective,
  subst, suc, sym, take, true, zero, ℕ, ◌++◌, ◌+◌, ◌-◌, ◌<◌, ◌∙◌, ◌∷◌, ◌≡◌, ◌≤◌,
}
use cpymacs.Minibuffer.{
  back_over, forward_over, input_insert, input_key, prompt, prompt_max, str_next, str_prev,
}
use cpymacs.Buffer.{Editor, Minibuffer}

-- The input and the NUL fit in the array, and the point is in the input.
pub record IsInput (m : Minibuffer) : Type 0 where
  pub fits : length m.input < prompt_max
  pub inside : m.input_point ≤ length m.input

back_over_le : (s : Name) (i : ℕ) → back_over s i ≤ i
unfolding back_over
back_over_le s zero = omega arith
back_over_le s (suc i) = ground (arith, back_over_le s i)

pub str_prev_le : (s : Name) (i : ℕ) → str_prev s i ≤ i
unfolding str_prev
str_prev_le s zero = omega arith
str_prev_le s (suc i) = let r = back_over_le s i in omega (arith, r)

forward_over_le : (s : Name) (i : ℕ) → (i ≤ forward_over s i) × (forward_over s i ≤ i + length s)
unfolding forward_over
forward_over_le [] i = (omega arith, omega arith)
forward_over_le (c ∷ s) i =
    let (a, b) = forward_over_le s (i + 1) in (ground (arith, a), ground (arith, b))

pub str_next_le : (s : Name) (i : ℕ) → i ≤ length s → (i ≤ str_next s i) × (str_next s i ≤ length s)
unfolding str_next
str_next_le s i h = go (drop i s) (length-drop i s)
  where
    go :
        (rest : Name)
        → length rest ≡ length s - i
        → (i ≤ elim rest [ [] ↦ i | c ∷ more ↦ forward_over more (i + 1) ])
          × (elim rest [ [] ↦ i | c ∷ more ↦ forward_over more (i + 1) ] ≤ length s)
    go [] e = (omega arith, h)
    go (c ∷ more) e =
        let (a, b) = forward_over_le more (i + 1) in (omega (arith, a), omega (arith, b, e, h))

pub prompt-IsInput :
    (e : Editor) (label command initial : Name)
    → IsInput (prompt e label command initial).minibuffer
unfolding prompt
prompt-IsInput e label command initial =
    let size = length-take (prompt_max - 1) initial in
    record { fits = omega (arith, size); inside = omega arith }

-- a test of a chain of them
branch :
    (P : Minibuffer → Type 0) (c : Bool) (m : Minibuffer) (rest : Option Minibuffer)
    → P m
    → ((x : Minibuffer) → rest ≡ some x → P x)
    → (x : Minibuffer) → (if c then some m else rest) ≡ some x
    → P x
branch P true m rest p q x h = subst P (some-injective _ _ h) p
branch P false m rest p q x h = q x h

-- Bytes go in only where there is room for them, and the point moves behind them.
pub input_insert-IsInput :
    (m : Minibuffer) (s : Name)
    → IsInput m
    → (m' : Minibuffer) → input_insert m s ≡ some m'
    → IsInput m'
unfolding input_insert
input_insert-IsInput m s v m' h = elim (Bool-cases (leb (prompt_max - length m.input) (length s))) [
  | inl e ↦ absurd (none≢some (sym (rw e refl) ∙ h))
  | inr e ↦
      let inside = v.inside in
      let x = length-append (take m.input_point m.input) (s ++ drop m.input_point m.input) in
      let y = length-append s (drop m.input_point m.input) in
      let z = length-take m.input_point m.input in
      let w = length-drop m.input_point m.input in
      let filled : IsInput (record m {
        input = take m.input_point m.input ++ (s ++ drop m.input_point m.input);
        input_point = m.input_point + length s;
      }) =
        record {
          fits = ground (arith, x, y, z, w, e, v.fits, inside);
          inside = omega (arith, x, y, z, w, inside);
        } in
      subst IsInput (some-injective _ _ (sym (rw e refl) ∙ h)) filled
]

inserted-IsInput :
    (m : Minibuffer) (s : Name)
    → IsInput m
    → IsInput (elim (input_insert m s) [ none ↦ m | some m' ↦ m' ])
inserted-IsInput m s v = elim (Option-cases (input_insert m s)) [
  | inl h ↦ rw h v
  | inr (m', h) ↦ rw h (input_insert-IsInput m s v m' h)
]

yanked-IsInput :
    (m : Minibuffer) (yanked : Option Name)
    → IsInput m
    → IsInput
        (elim yanked [ none ↦ m | some s ↦ elim (input_insert m s) [ none ↦ m | some m' ↦ m' ] ])
yanked-IsInput m none v = v
yanked-IsInput m (some s) v = inserted-IsInput m s v

-- Each key that `input_key` takes (C-a, C-e, C-b, C-f, the arrows to the left and right, DEL, C-d,
-- delete, C-k, C-y and a character) leaves an input that fits in its array with its NUL, and the point
-- in it, where this holds before, whatever the first kill is. Other keys, such as TAB, RET, C-g, C-s
-- and C-r, are not covered.
pub input_key-IsInput :
    (m : Minibuffer) (yanked : Option Name) (key : Name)
    → IsInput m
    → (m' : Minibuffer) → input_key m yanked key ≡ some m'
    → IsInput m'
unfolding input_key
input_key-IsInput m yanked key v =
    let fits = v.fits in
    let inside = v.inside in
    let at = str_prev m.input m.input_point in
    let back = str_prev_le m.input m.input_point in
    let (on, end) = str_next_le m.input m.input_point inside in
    let after = str_next m.input m.input_point in
    let cut = λ (k : ℕ). length-take k m.input in
    let joined = λ (k : ℕ) (j : ℕ). length-append (take k m.input) (drop j m.input) in
    let left_off = λ (k : ℕ). length-drop k m.input in
    let first : IsInput (record m { input_point = 0 }) = record {
      fits = fits;
      inside = omega arith;
    } in
    let last : IsInput (record m { input_point = length m.input }) = record {
      fits = fits;
      inside = omega arith;
    } in
    let left : IsInput (record m { input_point = at }) = record {
      fits = fits;
      inside = omega (arith, back, inside);
    } in
    let right : IsInput (record m { input_point = after }) = record { fits = fits; inside = end } in
    let rubbed : IsInput
        (record m { input = take at m.input ++ drop m.input_point m.input; input_point = at }) =
      record {
        fits = omega (arith, joined at m.input_point, cut at, left_off m.input_point, fits, back);
        inside = omega (arith, joined at m.input_point, cut at, inside, back);
      } in
    let deleted : IsInput (record m { input = take m.input_point m.input ++ drop after m.input }) =
      record {
        fits =
            omega (arith, joined m.input_point after, cut m.input_point, left_off after, fits, on);
        inside = omega (arith, joined m.input_point after, cut m.input_point, inside);
      } in
    let killed : IsInput (record m { input = take m.input_point m.input }) = record {
      fits = omega (arith, cut m.input_point, fits);
      inside = omega (arith, cut m.input_point, inside);
    } in
    branch IsInput _ _ _ first (
      branch IsInput _ _ _ last (
        branch IsInput _ _ _ left (
          branch IsInput _ _ _ right (
            branch IsInput _ _ _ rubbed (
              branch IsInput _ _ _ deleted (
                branch IsInput _ _ _ killed (
                  branch IsInput _ _ _ (yanked-IsInput m yanked v) (
                    branch IsInput _ _ _ (inserted-IsInput m key v)
                      (λ x h. absurd (none≢some h))))))))))
