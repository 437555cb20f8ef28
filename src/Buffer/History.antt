-- ===== src/Buffer/History.antt =====
-- The history of a buffer (`history` and `history_pos` of include/editor.h): what its entries say of
-- the text and the state.
use cpymacs.Base.{
  List, [], ap, ap₂, arith, drop, get_elem?, length, length-drop, length-take, refl, some, suc, sym,
  take, true, zero, ℕ, ◌++◌, ◌+◌, ◌<◌, ◌∙◌, ◌∷◌, ◌≡◌, ◌≤◌,
}
use cpymacs.Buffer.{Buffer, Edit}
use mathlib.Core.Path.{subst}
use mathlib.Core.Option.{some-injective}
use cpymacs.Utf8.{utf8_valid}
use cpymacs.Utf8.Boundary.{boundary, boundary-le}
use cpymacs.Text.Edit.Byte.{content}
use cpymacs.Text.Edit.Insert.{IsText, splice}
use cpymacs.Text.Edit.Splice.{
  boundary-splice_end, boundary-splice_start, removed-utf8_valid, splice-splice,
}

-- the bytes of a text and its state
abbrev pub View : Type 0
View = List ℕ × ℕ

-- The entry d stands for a change from one view to another.
pub record Changes (d : Edit) (v w : View) : Type 0 where
  pub valid : utf8_valid v.0 ≡ true
  pub new : utf8_valid d.added ≡ true
  pub start : boundary v.0 d.at ≡ true
  pub end : boundary v.0 (d.at + d.removed_len) ≡ true
  pub size : d.added_len ≡ length d.added
  pub removed : d.removed ≡ take d.removed_len (drop d.at v.0)
  pub result : w.0 ≡ splice v.0 d.at d.removed_len d.added
  pub before : v.1 ≡ d.before_state
  pub after : w.1 ≡ d.after_state

-- Entries one behind the other lead from one view to another.
abbrev pub Chain : List Edit → View → View → Type 0
Chain [] v w = v ≡ w
Chain (d ∷ h) v w = (u : View) × Changes d v u × Chain h u w

abbrev pub view : Buffer → View
view b = (content b.text, b.state)

-- The invariant of a buffer whose history starts with a view: the entries up to `history_pos` lead
-- from it to the present, and those behind on from there.
pub record IsBuffer (first : View) (b : Buffer) : Type 0 where
  pub text : IsText b.text
  pub within : b.history_pos ≤ length b.history
  pub past : Chain (take b.history_pos b.history) first (view b)
  pub future : (last : View) × Chain (drop b.history_pos b.history) (view b) last

pub Chain-append :
    (h : List Edit) (d : Edit) (u v w : View)
    → Chain h u v
    → Changes d v w
    → Chain (h ++ (d ∷ [])) u w
Chain-append [] d u v w p c = (w, subst (λ x. Changes d x w) (sym p) c, refl)
Chain-append (x ∷ h) d u v w (y, a, r) c = (y, a, Chain-append h d y v w r c)

-- The last entry of a chain leads to its end.
pub Chain-last :
    (h : List Edit) (d : Edit) (u w : View)
    → Chain (h ++ (d ∷ [])) u w
    → (v : View) × Chain h u v × Changes d v w
Chain-last [] d u w (y, c, e) = (u, refl, subst (Changes d u) e c)
Chain-last (x ∷ h) d u w (y, a, r) = let (v, p, c) = Chain-last h d y w r in (v, (y, a, p), c)

-- the entry at an index, in the list and in its two parts
pub get_elem?-some :
    {A : Type 0} (k : ℕ) (h : List A) → k < length h → (d : A) × (get_elem? h k ≡ some d)
get_elem?-some k [] l = absurd (omega arith)
get_elem?-some zero (x ∷ h) l = (x, refl)
get_elem?-some (suc k) (x ∷ h) l = get_elem?-some k h (omega arith)

pub get_elem?_lt : {A : Type 0} (k : ℕ) (h : List A) (d : A) → get_elem? h k ≡ some d → k < length h
get_elem?_lt k [] d e = cc
get_elem?_lt zero (x ∷ h) d e = omega arith
get_elem?_lt (suc k) (x ∷ h) d e = omega (arith, get_elem?_lt k h d e)

pub take-suc :
    {A : Type 0} (k : ℕ) (h : List A) (d : A)
    → get_elem? h k ≡ some d
    → take (suc k) h ≡ take k h ++ (d ∷ [])
take-suc k [] d e = cc
take-suc zero (x ∷ h) d e = ap (λ y. y ∷ []) (some-injective x d e)
take-suc (suc k) (x ∷ h) d e = ap (x ∷◌) (take-suc k h d e)

pub drop-entry :
    {A : Type 0} (k : ℕ) (h : List A) (d : A)
    → get_elem? h k ≡ some d
    → drop k h ≡ d ∷ drop (suc k) h
drop-entry k [] d e = cc
drop-entry zero (x ∷ h) d e = ap (λ y. y ∷ h) (some-injective x d e)
drop-entry (suc k) (x ∷ h) d e = drop-entry k h d e

-- What undoes a change.
pub record Restores (d : Edit) (v w : View) : Type 0 where
  pub valid : utf8_valid d.removed ≡ true
  pub size : d.removed_len ≡ length d.removed
  pub start : boundary w.0 d.at ≡ true
  pub end : boundary w.0 (d.at + d.added_len) ≡ true
  pub result : splice w.0 d.at d.added_len d.removed ≡ v.0

pub Changes-Restores : (d : Edit) (v w : View) → Changes d v w → Restores d v w
Changes-Restores d v w c =
    let within = boundary-le v.0 (d.at + d.removed_len) c.end in
    record {
      valid =
          rw c.removed
            (removed-utf8_valid v.0 d.at d.removed_len d.added c.valid c.new c.start c.end);
      size = omega (
        arith,
        within,
        ap length c.removed,
        length-take d.removed_len (drop d.at v.0),
        length-drop d.at v.0,
      );
      start =
          rw c.result
            (boundary-splice_start v.0 d.at d.removed_len d.added c.valid c.new c.start c.end);
      end =
          rw (c.result, c.size)
            (boundary-splice_end v.0 d.at d.removed_len d.added c.valid c.new c.start c.end);
      result =
          rw (c.result, c.size, c.removed) (splice-splice v.0 d.at d.removed_len d.added within);
    }

-- An entry says what was there before.
pub Changes-before : (d : Edit) (u v w : View) → Changes d u w → Changes d v w → u ≡ v
Changes-before d u v w c c' =
    ap₂ (λ x y. (x, y)) (sym (Changes-Restores d u w c).result ∙ (Changes-Restores d v w c').result)
      (c.before ∙ sym c'.before)

-- An entry says what is there behind it.
pub Changes-after : (d : Edit) (u v w : View) → Changes d u v → Changes d u w → v ≡ w
Changes-after d u v w c c' = ap₂ (λ x y. (x, y)) (c.result ∙ sym c'.result) (c.after ∙ sym c'.after)
