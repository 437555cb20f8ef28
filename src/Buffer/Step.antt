-- ===== src/Buffer/Step.antt =====
-- One round of the inner loop of `undo` of src/commands.c on a buffer with a valid history.
use cpymacs.Base.{
  Bool, List, ap, ap₂, arith, drop, false, get_elem?, if◌then◌else◌, length, refl, some, suc, sym,
  take, take_all, true, ℕ, ◌+◌, ◌-◌, ◌∙◌, ◌≡◌, ◌≤◌,
}
use cpymacs.Buffer.{Buffer, Edit, editor_lex_invalidate}
use cpymacs.Buffer.History.{
  IsBuffer, Chain, Chain-last, Changes, View, drop-entry, take-suc, view, Chain-append,
  Changes-Restores, get_elem?_lt,
}
use mathlib.Core.Path.{subst}
use cpymacs.Text.Edit.{Text, size_max}
use cpymacs.Text.Replace.{Replaces, added_len, text_replace, text_replace_lem}
use cpymacs.Buffer.Undo.{stepped, undo_edit}
use cpymacs.Text.Edit.Byte.{content}

-- the bytes that a round puts in
abbrev pub put_back : Bool → Edit → List ℕ
put_back redo d = if redo then d.added else d.removed

-- The entry leads from one view to the other, or back.
abbrev pub Leads : Bool → Edit → View → View → Type 0
Leads true d v w = Changes d v w
Leads false d v w = Changes d w v

-- What a round leaves: the invariant with the same first view and the same history, one entry further
-- on, and the point and the mark that the entry has for it.
pub record IsStep (first : View) (redo : Bool) (b : Buffer) (d : Edit) (out : Buffer) : Type 0 where
  pub valid : IsBuffer first out
  pub change : Leads redo d (view b) (view out)
  pub kept : out.history ≡ b.history
  pub position : out.history_pos ≡ (if redo then b.history_pos + 1 else b.history_pos - 1)
  pub place :
      (out.point ≡ (if redo then d.after_point else d.before_point))
      × (out.mark ≡ (if redo then d.after_mark else d.before_mark))
  pub grows : added_len out.text ≤ added_len b.text + length (put_back redo d)

back_returns :
    (b : Buffer) (d : Edit) (t : Text)
    → d.removed_len ≡ length d.removed
    → text_replace b.text d.at d.added_len d.removed ≡ some t
    → undo_edit false b d ≡ some (stepped false b d t)
unfolding undo_edit
back_returns b d t z e =
    let whole : take d.removed_len d.removed ≡ d.removed =
      take_all d.removed_len d.removed (omega (arith, z)) in
    rw (ap (text_replace b.text d.at d.added_len) whole ∙ e, undo_edit) refl

forward_returns :
    (b : Buffer) (d : Edit) (t : Text)
    → d.added_len ≡ length d.added
    → text_replace b.text d.at d.removed_len d.added ≡ some t
    → undo_edit true b d ≡ some (stepped true b d t)
unfolding undo_edit
forward_returns b d t z e =
    let whole : take d.added_len d.added ≡ d.added =
      take_all d.added_len d.added (omega (arith, z)) in
    rw (ap (text_replace b.text d.at d.removed_len) whole ∙ e, undo_edit) refl

module _ (first : View) (b : Buffer) (k : ℕ) (d : Edit) (v : IsBuffer first b)
    (g : get_elem? b.history k ≡ some d) where
  -- the change that the last entry before the position stands for
  last_change :
      b.history_pos ≡ suc k → (u : View) × Chain (take k b.history) first u × Changes d u (view b)
  last_change p = Chain-last (take k b.history) d first (view b) (
      subst (λ h. Chain h first (view b)) (ap (λ j. take j b.history) p ∙ take-suc k b.history d g)
        v.past)

  -- the change that the entry behind the position stands for
  first_change :
      b.history_pos ≡ k
      → (last : View) × (u : View) × Changes d (view b) u × Chain (drop (suc k) b.history) u last
  first_change p =
      let (last, c) = v.future in
      let (u, change, rest) =
        subst (λ h. Chain h (view b) last)
          (ap (λ j. drop j b.history) p ∙ drop-entry k b.history d g) c in
      (last, u, change, rest)

  stepped-back :
      (u : View) (t : Text)
      → b.history_pos ≡ suc k
      → Chain (take k b.history) first u
      → Changes d u (view b)
      → Replaces b.text d.at d.added_len d.removed t
      → IsStep first false b d (stepped false b d t)
  unfolding stepped editor_lex_invalidate
  stepped-back u t p pre c r =
      let before = Changes-Restores d u (view b) c in
      let now : u ≡ (content t, d.before_state) =
        ap₂ (λ x y. (x, y)) (sym (r.result ∙ before.result)) c.before in
      let here : b.history_pos - 1 ≡ k = omega (arith, p) in
      record {
        valid = record {
          text = r.valid;
          within = omega (arith, v.within);
          past = rw here (subst (Chain (take k b.history) first) now pre);
          future =
              let (last, rest) = v.future in
              (
                last,
                rw (here, drop-entry k b.history d g)
                    (
                      view b,
                      subst (λ x. Changes d x (view b)) now c,
                      subst (λ j. Chain (drop j b.history) (view b) last) p rest,
                    ),
              );
        };
        change = subst (λ x. Changes d x (view b)) now c;
        kept = refl;
        position = refl;
        place = (refl, refl);
        grows = r.grows;
      }

  stepped-forward :
      (u last : View) (t : Text)
      → b.history_pos ≡ k
      → Chain (drop (suc k) b.history) u last
      → Changes d (view b) u
      → Replaces b.text d.at d.removed_len d.added t
      → IsStep first true b d (stepped true b d t)
  unfolding stepped editor_lex_invalidate
  stepped-forward u last t p rest c r =
      let now : u ≡ (content t, d.after_state) =
        ap₂ (λ x y. (x, y)) (c.result ∙ sym r.result) c.after in
      let there : b.history_pos + 1 ≡ suc k = omega (arith, p) in
      record {
        valid = record {
          text = r.valid;
          within = omega (arith, p, get_elem?_lt k b.history d g);
          past =
              rw (there, take-suc k b.history d g)
                (Chain-append (take k b.history) d first (view b) (content t, d.after_state)
                  (subst (λ j. Chain (take j b.history) first (view b)) p v.past)
                  (subst (Changes d (view b)) now c));
          future = (last, rw there (subst (λ x. Chain (drop (suc k) b.history) x last) now rest));
        };
        change = subst (Changes d (view b)) now c;
        kept = refl;
        position = refl;
        place = (refl, refl);
        grows = r.grows;
      }

-- Undoing the entry in front of the position of a valid history always returns, if the store has room
-- for the bytes that come back.
pub undo_edit-back :
    (first : View) (b : Buffer) (k : ℕ) (d : Edit)
    → IsBuffer first b
    → b.history_pos ≡ suc k
    → get_elem? b.history k ≡ some d
    → added_len b.text + length d.removed + 1 ≤ size_max
    → (out : Buffer) × (undo_edit false b d ≡ some out) × IsStep first false b d out
undo_edit-back first b k d v p g room =
    let (u, pre, c) = last_change first b k d v g p in
    let back = Changes-Restores d u (view b) c in
    let (t, e, r) =
      text_replace_lem b.text d.at d.added_len d.removed v.text back.start back.end back.valid
        room in
    (
      stepped false b d t,
      back_returns b d t back.size e,
      stepped-back first b k d v g u t p pre c r,
    )

-- Redoing the entry at the position of a valid history always returns, if the store has room for the
-- bytes that come back.
pub undo_edit-forward :
    (first : View) (b : Buffer) (k : ℕ) (d : Edit)
    → IsBuffer first b
    → b.history_pos ≡ k
    → get_elem? b.history k ≡ some d
    → added_len b.text + length d.added + 1 ≤ size_max
    → (out : Buffer) × (undo_edit true b d ≡ some out) × IsStep first true b d out
undo_edit-forward first b k d v p g room =
    let (last, u, c, rest) = first_change first b k d v g p in
    let (t, e, r) =
      text_replace_lem b.text d.at d.removed_len d.added v.text c.start c.end c.new room in
    (
      stepped true b d t,
      forward_returns b d t c.size e,
      stepped-forward first b k d v g u last t p rest c r,
    )
