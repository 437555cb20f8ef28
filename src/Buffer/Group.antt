-- ===== src/Buffer/Group.antt =====
-- The inner loop of `undo` of src/commands.c, which undoes or redoes the entries of one group.
use cpymacs.Base.{
  ==→eq, Bool, Bool-cases, List, Option-cases, [], and_true, ap, ap₂, arith, drop, false, get_elem?,
  if◌then◌else◌, inl, inr, length, length-append, ltb→lt, none, refl, some, suc, sym, take, true, ℕ,
  ◌&&◌, ◌++◌, ◌+◌, ◌-◌, ◌<◌, ◌==◌, ◌∙◌, ◌∷◌, ◌≡◌, ◌≤◌, ◌⊎◌,
}
use cpymacs.Buffer.{Buffer, Edit}
use cpymacs.Buffer.History.{IsBuffer, View, drop-entry, take-suc}
use cpymacs.Text.Edit.{size_max}
use cpymacs.Text.Replace.{added_len}
use cpymacs.Buffer.Undo.{entry, has_more, undo_edit, goes_on, undo_while}
use cpymacs.Buffer.Step.{IsStep, undo_edit-back, undo_edit-forward}

-- the bytes that going back and forth over entries can put in
abbrev pub cost : List Edit → ℕ
cost [] = 0
cost (d ∷ h) = length d.removed + length d.added + cost h

cost-append : (h h' : List Edit) → cost (h ++ h') ≡ cost h + cost h'
cost-append [] h' = omega arith
cost-append (d ∷ h) h' = omega (arith, cost-append h h')

-- the entries that the loop can still reach
abbrev pub ahead : Bool → Buffer → List Edit
ahead redo b = if redo then drop b.history_pos b.history else take b.history_pos b.history

-- The store has room for all that the loop can put in.
abbrev pub HasRoom : Bool → Buffer → Type 0
HasRoom redo b = added_len b.text + cost (ahead redo b) + 1 ≤ size_max

-- the places between two positions, which the loop goes over from the first to the second
abbrev pub Between : Bool → ℕ → ℕ → ℕ → Type 0
Between true from to j = (from ≤ j) × (j < to)
Between false from to j = (to ≤ j) × (j < from)

-- What a round leaves for the rounds behind it.
pub record Rolls (first : View) (redo : Bool) (b : Buffer) (d : Edit) (out : Buffer) : Type 0 where
  pub returns : undo_edit redo b d ≡ some out
  pub step : IsStep first redo b d out
  pub room : HasRoom redo out
  pub fewer : length (ahead redo out) + 1 ≡ length (ahead redo b)

pub rolls :
    (redo : Bool) (first : View) (b : Buffer) (d : Edit)
    → IsBuffer first b
    → HasRoom redo b
    → has_more redo b ≡ true
    → get_elem? b.history (entry redo b) ≡ some d
    → (out : Buffer) × Rolls first redo b d out
unfolding has_more entry
rolls true first b d v room m g =
    let k = b.history_pos in
    let parts = drop-entry k b.history d g in
    let price = ap cost parts in
    let (out, e, s) = undo_edit-forward first b k d v refl g (omega (arith, room, price)) in
    let same : drop out.history_pos out.history ≡ drop (suc k) b.history =
      let there : out.history_pos ≡ suc k = omega (arith, s.position) in ap₂ drop there s.kept in
    (
      out,
      record {
        returns = e;
        step = s;
        room = omega (arith, room, price, s.grows, ap cost same);
        fewer = omega (arith, ap length parts, ap length same);
      },
    )
rolls false first b d v room m g =
    let k = b.history_pos - 1 in
    let p : b.history_pos ≡ suc k = omega (arith, ltb→lt 0 b.history_pos m) in
    let parts : take b.history_pos b.history ≡ take k b.history ++ (d ∷ []) =
      ap (λ j. take j b.history) p ∙ take-suc k b.history d g in
    let price = ap cost parts ∙ cost-append (take k b.history) (d ∷ []) in
    let (out, e, s) = undo_edit-back first b k d v p g (omega (arith, room, price)) in
    let same : take out.history_pos out.history ≡ take k b.history = ap₂ take s.position s.kept in
    (
      out,
      record {
        returns = e;
        step = s;
        room = omega (arith, room, price, s.grows, ap cost same);
        fewer =
            omega
              (arith, ap length parts ∙ length-append (take k b.history) (d ∷ []), ap length same);
      },
    )

module _ (redo : Bool) (group : ℕ) (b : Buffer) where
  goes_on-none :
      get_elem? b.history (entry redo b) ≡ none → goes_on redo group b ≡ (has_more redo b && false)
  unfolding goes_on
  goes_on-none n = rw (n, goes_on) refl

  pub goes_on-some :
      (d : Edit)
      → get_elem? b.history (entry redo b) ≡ some d
      → goes_on redo group b ≡ (has_more redo b && (d.group == group))
  unfolding goes_on
  goes_on-some d n = rw (n, goes_on) refl

  pub goes_on-true :
      goes_on redo group b ≡ true
      → (has_more redo b ≡ true)
        × (d : Edit) × (get_elem? b.history (entry redo b) ≡ some d)
        × (d.group ≡ group)
  goes_on-true h = elim (Option-cases (get_elem? b.history (entry redo b))) [
    | inl n ↦
        let no = sym (goes_on-none n) ∙ h in absurd (cc (and_true (has_more redo b) false no).1)
    | inr (d, g) ↦
        let yes = and_true (has_more redo b) (d.group == group) (sym (goes_on-some d g) ∙ h) in
        (yes.0, d, g, ==→eq d.group group yes.1)
  ]

-- What the loop leaves: it went over entries of the group only, and the one it stopped at is of
-- another.
pub record IsGroup (first : View) (redo : Bool) (group : ℕ) (b out : Buffer) : Type 0 where
  pub valid : IsBuffer first out
  pub room : HasRoom redo out
  pub kept : out.history ≡ b.history
  pub further : Between redo b.history_pos out.history_pos (entry redo b)
  pub members :
      (j : ℕ) (d : Edit)
      → Between redo b.history_pos out.history_pos j
      → get_elem? b.history j ≡ some d
      → d.group ≡ group
  pub stops : goes_on redo group out ≡ false

module _ (fuel : ℕ) (redo : Bool) (group : ℕ) (b b' : Buffer) (d : Edit)
    (g : get_elem? b.history (entry redo b) ≡ some d) (e : undo_edit redo b d ≡ some b') where
  pub while_last : goes_on redo group b' ≡ false → undo_while (suc fuel) redo group b ≡ some b'
  unfolding undo_while
  while_last h = rw (g, undo_while) (rw (e, undo_while) (rw h refl))

  pub while_more :
      goes_on redo group b' ≡ true
      → undo_while (suc fuel) redo group b ≡ undo_while fuel redo group b'
  unfolding undo_while
  while_more h = rw (g, undo_while) (rw (e, undo_while) (rw h refl))

-- the entry of a round, and those of the rounds behind it
pub Between-rest :
    (redo : Bool) (b : Buffer) (p to j : ℕ)
    → has_more redo b ≡ true
    → p ≡ (if redo then b.history_pos + 1 else b.history_pos - 1)
    → Between redo b.history_pos to j
    → (j ≡ entry redo b) ⊎ Between redo p to j
unfolding entry has_more
Between-rest true b p to j m q (l, u) = elim (Bool-cases (j == b.history_pos)) [
  | inl e ↦ inl (==→eq j b.history_pos e)
  | inr e ↦ inr (ground arith)
]
Between-rest false b p to j m q (l, u) = elim (Bool-cases (j == b.history_pos - 1)) [
  | inl e ↦ inl (==→eq j (b.history_pos - 1) e)
  | inr e ↦ inr (ground arith)
]
