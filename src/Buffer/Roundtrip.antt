-- ===== src/Buffer/Roundtrip.antt =====
-- `undo` of src/commands.c right after `editor_replace` of src/buffer.c.
use cpymacs.Base.{
  Bool, Bool-cases, List, [], ap, ap₂, arith, drop, false, get_elem?, inl, inr, length,
  length-append, length-take, ltb, none, not, refl, some, suc, sym, take, tests, true, zero, ℕ, ◌%◌,
  ◌&&◌, ◌++◌, ◌+◌, ◌-◌, ◌<◌, ◌==◌, ◌^◌, ◌∙◌, ◌∷◌, ◌≡◌, ◌≤◌,
}
use cpymacs.Buffer.{Buffer, Editor, new_edit, Edit, editor_buffer, editor_replace, put_buffer}
use cpymacs.Buffer.History.{IsBuffer, View, view, Changes-before}
use cpymacs.Buffer.Replace.{IsEdited, editable, editor_replace-edits, nothing}
use cpymacs.Text.Edit.{size_max}
use cpymacs.Text.Replace.{added_len}
use cpymacs.Buffer.Loop.{group_returns}
use cpymacs.Buffer.Undo.{entry, goes_on, has_more, undo_edit, undo_group, undo_while}
use cpymacs.Buffer.Step.{undo_edit-back}
use cpymacs.Buffer.Group.{while_last}
use cpymacs.Text.Edit.Byte.{content}

get_elem?-append_lt :
    {A : Type 0} (h h' : List A) (k : ℕ) → k < length h → get_elem? (h ++ h') k ≡ get_elem? h k
get_elem?-append_lt [] h' k l = absurd (omega arith)
get_elem?-append_lt (x ∷ h) h' zero l = refl
get_elem?-append_lt (x ∷ h) h' (suc k) l = get_elem?-append_lt h h' k (omega arith)

get_elem?-append_end :
    {A : Type 0} (h : List A) (d : A) → get_elem? (h ++ (d ∷ [])) (length h) ≡ some d
get_elem?-append_end [] d = refl
get_elem?-append_end (x ∷ h) d = get_elem?-append_end h d

get_elem?-take :
    {A : Type 0} (n k : ℕ) (h : List A) → k < n → get_elem? (take n h) k ≡ get_elem? h k
get_elem?-take zero k h l = absurd (omega arith)
get_elem?-take (suc n) k [] l = refl
get_elem?-take (suc n) zero (x ∷ h) l = refl
get_elem?-take (suc n) (suc k) (x ∷ h) l = get_elem?-take n k h (omega arith)

-- what an undone edit brings back
pub record IsBack (b out : Buffer) : Type 0 where
  pub same_view : view out ≡ view b
  pub same_place : (out.point ≡ b.point) × (out.mark ≡ b.mark)

module _ (first : View) (e : Editor) (b : Buffer) (at count : ℕ) (s : List ℕ) (b' : Buffer)
    (v : IsBuffer first b) (i : IsEdited first e b at count s b') where
  past_size : length (take b.history_pos b.history) ≡ b.history_pos
  past_size = omega (arith, v.within, length-take b.history_pos b.history)

  at_end : b'.history_pos ≡ suc b.history_pos
  at_end = omega (
    arith,
    past_size,
    i.present ∙ ap length i.logged,
    length-append (take b.history_pos b.history) (new_edit e b at count s ∷ []),
  )

  last_entry : get_elem? b'.history b.history_pos ≡ some (new_edit e b at count s)
  last_entry =
      ap₂ get_elem? i.logged (sym past_size)
      ∙ get_elem?-append_end (take b.history_pos b.history) (new_edit e b at count s)

  -- the entries before the edit are those of the buffer as it was
  earlier_entry : (k : ℕ) → k < b.history_pos → get_elem? b'.history k ≡ get_elem? b.history k
  earlier_entry k l =
      ap (λ h. get_elem? h k) i.logged
      ∙ get_elem?-append_lt (take b.history_pos b.history) (new_edit e b at count s ∷ []) k
          (omega (arith, past_size, l))
      ∙ get_elem?-take b.history_pos k b.history l

goes_on_same :
    (group : ℕ) (x y : Buffer)
    → x.history_pos ≡ y.history_pos
    → ((k : ℕ) → k < y.history_pos → get_elem? x.history k ≡ get_elem? y.history k)
    → goes_on false group x ≡ goes_on false group y
unfolding goes_on has_more entry
goes_on_same group x y p same = elim (Bool-cases (ltb 0 y.history_pos)) [
  | inr m ↦ rw (p, m) refl
  | inl m ↦ rw p (
      ap
        (λ o.
          ltb 0 y.history_pos && elim o as (λ o. Bool) [ none ↦ false | some d ↦ d.group == group ])
        (same (y.history_pos - 1) (omega tests)))
]

group_ends :
    (b b' : Buffer) (d : Edit)
    → get_elem? b.history (entry false b) ≡ some d
    → undo_edit false b d ≡ some b'
    → goes_on false d.group b' ≡ false
    → undo_group false b ≡ some b'
group_ends b b' d g e w =
    let (fuel, p) = size b.history (entry false b) g in
    group_returns false b d g
    ∙ ap (λ n. undo_while n false d.group b) p
    ∙ while_last fuel false d.group b b' d g e w
  where
    size : (h : List Edit) (k : ℕ) → get_elem? h k ≡ some d → (n : ℕ) × (length h ≡ suc n)
    size [] k e = cc
    size (x ∷ h) k e = (length h, refl)

undo_group-edited :
    (first : View) (e : Editor) (b : Buffer) (at count : ℕ) (s : List ℕ) (b' : Buffer)
    → IsBuffer first b
    → IsEdited first e b at count s b'
    → goes_on false e.group b ≡ false
    → added_len b'.text + count + 1 ≤ size_max
    → (out : Buffer) × (undo_group false b' ≡ some out) × IsBack b out
unfolding new_edit entry
undo_group-edited first e b at count s b' v i w room =
    let d = new_edit e b at count s in
    let end = at_end first e b at count s b' v i in
    let last = last_entry first e b at count s b' v i in
    let size : length d.removed ≤ count =
      omega (arith, ap length i.change.removed, length-take count (drop at (content b.text))) in
    let (out, ret, step) =
      undo_edit-back first b' b.history_pos d i.valid end last (omega (arith, room, size)) in
    let there : entry false b' ≡ b.history_pos = omega (arith, end) in
    let back : out.history_pos ≡ b.history_pos = omega (arith, end, step.position) in
    let stop =
      goes_on_same d.group out b back
        (λ k l. ap (λ h. get_elem? h k) step.kept ∙ earlier_entry first e b at count s b' v i k l)
      ∙ w in
    (
      out,
      group_ends b' out d (ap (get_elem? b'.history) there ∙ last) ret stop,
      record {
        same_view = Changes-before d (view out) (view b) (view b') step.change i.change;
        same_place = step.place;
      },
    )

-- An edit that is carried out, and then undone, brings back the bytes, the state, the point and the
-- mark from before it, if the entry before it is of another group and the store has room for the new
-- bytes and for those that come back.
pub undo_group-editor_replace :
    (text_changed : Editor → Editor) (first : View) (e : Editor) (b : Buffer) (at count : ℕ)
    (s : List ℕ)
    → editor_buffer e ≡ some b
    → IsBuffer first b
    → added_len b.text + length s + count + 1 ≤ size_max
    → (editable b at count s && not (nothing count s)) ≡ true
    → goes_on false e.group b ≡ false
    → (b' : Buffer) × (editor_replace text_changed e at count s
        ≡ some (
          true,
          text_changed (put_buffer (record e { next_state = (e.next_state + 1) % 2 ^ 64 }) b'),
        ))
      × (out : Buffer) × (undo_group false b' ≡ some out)
      × IsBack b out
undo_group-editor_replace text_changed first e b at count s h v room k w =
    let (b', edit, i) =
      editor_replace-edits text_changed first e b at count s h v (omega (arith, room)) k in
    let (out, ends, back) =
      undo_group-edited first e b at count s b' v i w (omega (arith, room, i.grows)) in
    (b', edit, out, ends, back)
