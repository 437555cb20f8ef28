-- ===== src/Buffer/Times.antt =====
-- `undo` of src/commands.c as a whole.
use cpymacs.Base.{Bool, Bool-cases, false, inl, inr, refl, some, suc, true, zero, ℕ, ◌∙◌, ◌≡◌}
use cpymacs.Buffer.{Buffer, Editor, editor_buffer}
use cpymacs.Buffer.History.{IsBuffer, View}
use cpymacs.Buffer.Loop.{undo_group_lem}
use cpymacs.Buffer.Undo.{
  Long, direction, has_more, magnitude, undo, undo_ends, undo_group, undo_in, undo_times,
}
use cpymacs.Buffer.Group.{HasRoom}

module _ (redo : Bool) (n : ℕ) (b : Buffer) where
  times_none : undo_times zero redo b ≡ some (true, b)
  unfolding undo_times
  times_none = refl

  times_ends : has_more redo b ≡ false → undo_times (suc n) redo b ≡ some (false, b)
  unfolding undo_times
  times_ends m = rw m refl

  times_more :
      (b' : Buffer)
      → has_more redo b ≡ true
      → undo_group redo b ≡ some b'
      → undo_times (suc n) redo b ≡ undo_times n redo b'
  unfolding undo_times
  times_more b' m e = rw m (rw (e, undo_times) refl)

-- What the rounds of `undo` leave.
pub record IsUndone (first : View) (redo : Bool) (b : Buffer) (out : Bool × Buffer) : Type 0 where
  pub valid : IsBuffer first out.1
  pub room : HasRoom redo out.1
  pub kept : out.1.history ≡ b.history
  pub spent : out.0 ≡ false → has_more redo out.1 ≡ false

-- On a valid history any number of rounds of `undo` ends, if the store has room for what comes back;
-- the history and the invariant are kept, and the answer false means that no entry is ahead.
pub undo_times_lem :
    (n : ℕ) (redo : Bool) (first : View) (b : Buffer)
    → IsBuffer first b
    → HasRoom redo b
    → (out : Bool × Buffer) × (undo_times n redo b ≡ some out) × IsUndone first redo b out
undo_times_lem zero redo first b v room = (
  (true, b),
  times_none redo zero b,
  record { valid = v; room = room; kept = refl; spent = λ e. cc },
)
undo_times_lem (suc n) redo first b v room = elim (Bool-cases (has_more redo b)) [
  | inl m ↦
      let (group, b', e, i) = undo_group_lem redo first b v room m in
      let (out, e', u) = undo_times_lem n redo first b' i.valid i.room in
      (
        out,
        times_more redo n b b' m e ∙ e',
        record { valid = u.valid; room = u.room; kept = u.kept ∙ i.kept; spent = u.spent },
      )
  | inr m ↦ (
    (false, b),
    times_ends redo n b m,
    record { valid = v; room = room; kept = refl; spent = λ e. m },
  )
]

module _ (text_changed : Editor → Editor) where
  undo_returns :
      (e : Editor) (b : Buffer) (redo : Bool) (n : Long) (out : Bool × Buffer)
      → editor_buffer e ≡ some b
      → b.readonly ≡ false
      → undo_times (magnitude n) (direction redo n) b ≡ some out
      → undo text_changed e redo n ≡ some (undo_ends text_changed (direction redo n) e out)
  unfolding undo undo_in
  undo_returns e b redo n out h w t = rw (h, undo) (simp w (rw (t, undo_in) refl))

  -- `undo` and `redo` of a buffer with a valid history that is not read-only always return, for every
  -- count and in both directions, if the store has room for what comes back. What they leave in the
  -- buffer has the same history and keeps the invariant; false is returned only where no entry is
  -- ahead.
  pub undo_lem :
      (first : View) (e : Editor) (b : Buffer) (redo : Bool) (n : Long)
      → editor_buffer e ≡ some b
      → IsBuffer first b
      → HasRoom (direction redo n) b
      → b.readonly ≡ false
      → (out : Bool × Buffer) × (undo text_changed e redo n
          ≡ some (undo_ends text_changed (direction redo n) e out))
        × IsUndone first (direction redo n) b out
  undo_lem first e b redo n h v room w =
      let (out, t, u) = undo_times_lem (magnitude n) (direction redo n) first b v room in
      (out, undo_returns e b redo n out h w t, u)
