-- ===== src/Buffer/Loop.antt =====
-- The loops of `undo` of src/commands.c: they end, and go over whole groups of entries.
use cpymacs.Base.{
  Bool, Bool-cases, ap, arith, eq→==, false, get_elem?, if◌then◌else◌, inl, inr, length,
  length-drop, length-take, ltb→lt, refl, some, suc, sym, tests, true, zero, ℕ, ◌+◌, ◌-◌, ◌∙◌, ◌≡◌,
  ◌≤◌,
}
use cpymacs.Buffer.{Buffer, Edit}
use cpymacs.Buffer.History.{IsBuffer, View, get_elem?-some}
use mathlib.Core.Option.{some-injective}
use cpymacs.Buffer.Undo.{entry, goes_on, has_more, undo_group, undo_while}
use cpymacs.Buffer.Group.{
  Between, HasRoom, IsGroup, Rolls, ahead, Between-rest, goes_on-true, goes_on-some, rolls,
  while_last, while_more,
}

Between-entry :
    (redo : Bool) (b : Buffer) (p : ℕ)
    → has_more redo b ≡ true
    → p ≡ (if redo then b.history_pos + 1 else b.history_pos - 1)
    → Between redo b.history_pos p (entry redo b)
unfolding entry has_more
Between-entry true b p m q = omega (arith, q)
Between-entry false b p m q = omega (arith, q, ltb→lt 0 b.history_pos m)

Between-none : (redo : Bool) (p j : ℕ) → ¬ Between redo p p j
Between-none true p j h = omega (arith, h)
Between-none false p j h = omega (arith, h)

Between-wider :
    (redo : Bool) (b : Buffer) (p to : ℕ)
    → has_more redo b ≡ true
    → p ≡ (if redo then b.history_pos + 1 else b.history_pos - 1)
    → (e : ℕ) × Between redo p to e
    → Between redo b.history_pos to (entry redo b)
unfolding entry has_more
Between-wider true b p to m q (e, (l, u)) = omega (arith, q, l, u)
Between-wider false b p to m q (e, (l, u)) = omega (arith, q, l, u, ltb→lt 0 b.history_pos m)

module _ (first : View) (redo : Bool) (group : ℕ) (b b' : Buffer) (d : Edit)
    (more : has_more redo b ≡ true) (g : get_elem? b.history (entry redo b) ≡ some d)
    (same : d.group ≡ group) (r : Rolls first redo b d b') where
  here : (j : ℕ) (d' : Edit) → j ≡ entry redo b → get_elem? b.history j ≡ some d' → d'.group ≡ group
  here j d' e h =
      let both : some d ≡ some d' = sym g ∙ ap (get_elem? b.history) (sym e) ∙ h in
      ap (λ x. x.group) (sym (some-injective d d' both)) ∙ same

  group_one : goes_on redo group b' ≡ false → IsGroup first redo group b b'
  group_one s = record {
    valid = r.step.valid;
    room = r.room;
    kept = r.step.kept;
    further = Between-entry redo b b'.history_pos more r.step.position;
    members = λ j d' w h.
        elim (Between-rest redo b b'.history_pos b'.history_pos j more r.step.position w) [
          | inl e ↦ here j d' e h
          | inr n ↦ absurd (Between-none redo b'.history_pos j n)
        ];
    stops = s;
  }

  group_more : (out : Buffer) → IsGroup first redo group b' out → IsGroup first redo group b out
  group_more out i = record {
    valid = i.valid;
    room = i.room;
    kept = i.kept ∙ r.step.kept;
    further =
        Between-wider redo b b'.history_pos out.history_pos more r.step.position
          (entry redo b', i.further);
    members = λ j d' w h.
        elim (Between-rest redo b b'.history_pos out.history_pos j more r.step.position w) [
          | inl e ↦ here j d' e h
          | inr n ↦ i.members j d' n (ap (λ l. get_elem? l j) r.step.kept ∙ h)
        ];
    stops = i.stops;
  }

-- The loop ends within as many rounds as there are entries ahead.
pub undo_while_lem :
    (fuel : ℕ) (redo : Bool) (group : ℕ) (first : View) (b : Buffer)
    → IsBuffer first b
    → HasRoom redo b
    → goes_on redo group b ≡ true
    → length (ahead redo b) ≤ fuel
    → (out : Buffer) × (undo_while fuel redo group b ≡ some out) × IsGroup first redo group b out
undo_while_lem zero redo group first b v room m f =
    let (more, d, g, same) = goes_on-true redo group b m in
    let (b', r) = rolls redo first b d v room more g in absurd (omega (arith, f, r.fewer))
undo_while_lem (suc fuel) redo group first b v room m f =
    let (more, d, g, same) = goes_on-true redo group b m in
    let (b', r) = rolls redo first b d v room more g in
    elim (Bool-cases (goes_on redo group b')) [
      | inl w ↦
          let (out, e, i) =
            undo_while_lem fuel redo group first b' r.step.valid r.room w
              (omega (arith, f, r.fewer)) in
          (
            out,
            while_more fuel redo group b b' d g r.returns w ∙ e,
            group_more first redo group b b' d more g same r out i,
          )
      | inr w ↦ (
        b',
        while_last fuel redo group b b' d g r.returns w,
        group_one first redo group b b' d more g same r w,
      )
    ]

entry_there :
    (redo : Bool) (first : View) (b : Buffer)
    → IsBuffer first b
    → has_more redo b ≡ true
    → (d : Edit) × (get_elem? b.history (entry redo b) ≡ some d)
unfolding entry has_more
entry_there true first b v m = get_elem?-some b.history_pos b.history (omega tests)
entry_there false first b v m =
    get_elem?-some (b.history_pos - 1) b.history (omega (tests, v.within))

ahead_fits :
    (redo : Bool) (first : View) (b : Buffer)
    → IsBuffer first b
    → length (ahead redo b) ≤ length b.history
ahead_fits true first b v = omega (arith, length-drop b.history_pos b.history)
ahead_fits false first b v = omega (arith, length-take b.history_pos b.history)

pub group_returns :
    (redo : Bool) (b : Buffer) (d : Edit)
    → get_elem? b.history (entry redo b) ≡ some d
    → undo_group redo b ≡ undo_while (length b.history) redo d.group b
unfolding undo_group
group_returns redo b d g = rw (g, undo_group) refl

-- On a valid history with an entry ahead one round of `undo` ends, if the store has room for what
-- comes back: it goes over at least one entry, over entries of one group only, and stops where the
-- entry ahead is none or of another group; the history and the invariant are kept.
pub undo_group_lem :
    (redo : Bool) (first : View) (b : Buffer)
    → IsBuffer first b
    → HasRoom redo b
    → has_more redo b ≡ true
    → (group : ℕ) × (out : Buffer) × (undo_group redo b ≡ some out) × IsGroup first redo group b out
undo_group_lem redo first b v room m =
    let (d, g) = entry_there redo first b v m in
    let start : goes_on redo d.group b ≡ true =
      goes_on-some redo d.group b d g ∙ rw m (eq→== d.group d.group refl) in
    let (out, e, i) =
      undo_while_lem (length b.history) redo d.group first b v room start
        (ahead_fits redo first b v) in
    (d.group, out, group_returns redo b d g ∙ e, i)
