-- ===== src/Window/Drop.antt =====
-- `editor_new_buffer` and `editor_drop_buffer` of src/buffer.c on a list of buffers that is valid.
use cpymacs.Base.{
  ==→eq, Bool-cases, List, Name, [], ap, arith, codes, false, get_elem?, get_or, if◌then◌else◌, inl,
  inr, leb, length, length-append, none, none≢some, refl, some, subst, suc, sym, true, zero, ℕ,
  ◌++◌, ◌+◌, ◌<◌, ◌==◌, ◌∙◌, ◌∷◌, ◌≡◌, ◌≢◌, ◌≤◌, ◌⊎◌,
}
use cpymacs.Buffer.{Buffer, Editor, Pane, editor_buffer, buffer_limit, with_message}
use cpymacs.Window.{
  drop_for, editor_by_id, editor_switch, fallback_for, find_id, no_pane, show_instead, without,
  editor_new_buffer, max_buffers, editor_drop_buffer, fresh_buffer,
}
use cpymacs.Window.Lookup.{
  Has, IsAscending, IsAscending-without, find_id-get_elem?, find_id-without, find_id_here,
  find_id_skip, find_id-without_same, IsAscending-append, IsAscending-le, find_id-append,
}
use cpymacs.Window.Session.{IsOpen, IsSession, editor_switch-IsSession, editor_switch-buffers}
use cpymacs.Utf8.Valid.{utf8_valid-nil}
use cpymacs.Text.Edit.Refine.{text_init_refines}

-- There is another buffer than the one with the id.
fallback_for_lem :
    (low high id : ℕ) (buffers : List Buffer)
    → IsAscending low buffers high
    → 2 ≤ length buffers
    → (b : Buffer) × (fallback_for buffers id ≡ some b)
      × (find_id buffers b.id ≡ some b)
      × (b.id ≢ id)
unfolding fallback_for IsAscending
fallback_for_lem low high id [] v h = absurd (omega (arith, h))
fallback_for_lem low high id (b ∷ []) v h = absurd (omega (arith, h))
fallback_for_lem low high id (b ∷ (c ∷ buffers)) (m, (n, v)) h = elim (Bool-cases (b.id == id)) [
  | inl e ↦
      let y : (c.id == id) ≡ false = ground (arith, e, n) in
      let z : (b.id == c.id) ≡ false = ground (arith, n) in
      (
        c,
        rw (e, y) refl,
        find_id_skip b (c ∷ buffers) c.id z ∙ find_id_here c buffers c.id (ground arith),
        ground (arith, y),
      )
  | inr e ↦ (b, rw e refl, find_id_here b (c ∷ buffers) b.id (ground arith), ground (arith, e))
]

show_instead-length :
    (id : ℕ) (other : Buffer) (panes : List Pane)
    → length (show_instead id other panes) ≡ length panes
unfolding show_instead
show_instead-length id other [] = refl
show_instead-length id other (p ∷ panes) = ap suc (show_instead-length id other panes)

-- After that no window shows the dropped buffer.
show_instead_cases :
    (id : ℕ) (other : Buffer) (panes : List Pane) (i : ℕ)
    → i < length panes
    → ((get_or (show_instead id other panes) i no_pane).buffer ≡ other.id)
      ⊎ (((get_or (show_instead id other panes) i no_pane).buffer ≡ (get_or panes i no_pane).buffer)
          × (((get_or panes i no_pane).buffer == id) ≡ false))
unfolding show_instead
show_instead_cases id other [] i h = absurd (omega (arith, h))
show_instead_cases id other (p ∷ panes) zero h = elim (Bool-cases (p.buffer == id)) [
  | inl e ↦ inl (rw e refl)
  | inr e ↦ inr (rw e refl, e)
]
show_instead_cases id other (p ∷ panes) (suc i) h =
    show_instead_cases id other panes i (omega (arith, h))

length-without : (buffers : List Buffer) (id : ℕ) → length (without buffers id) ≤ length buffers
unfolding without
length-without [] id = omega arith
length-without (b ∷ buffers) id = elim (Bool-cases (b.id == id)) [
  | inl e ↦ rw e (omega arith)
  | inr e ↦ let r = length-without buffers id in rw e (omega (arith, r))
]

differs : (a b : ℕ) → a ≢ b → (b == a) ≡ false
differs a b h = elim (Bool-cases (b == a)) [ inl e ↦ absurd (h (sym (==→eq b a e))) | inr e ↦ e ]

-- What dropping a buffer gives: the invariant, the buffer gone, and the other ones as they were.
pub record IsDropped (e : Editor) (id : ℕ) (out : Editor) : Type 0 where
  pub valid : IsSession out
  pub gone : editor_by_id out id ≡ none
  pub kept :
      (other : ℕ) → other ≢ id → Has e.buffers other → editor_by_id out other ≡ editor_by_id e other

drop_for_lem :
    (e : Editor) (id : ℕ)
    → IsSession e
    → 2 ≤ length e.buffers
    → (out : Editor) × (drop_for e id ≡ some out) × IsDropped e id out
unfolding drop_for editor_by_id editor_buffer
drop_for_lem e id v h =
    let (selected, here, shown) = v.current in
    let (other, found, has, differ) = fallback_for_lem 0 e.next_id id e.buffers v.parts.ids h in
    let other_has : Has (without e.buffers id) other.id =
      (other, find_id-without e.buffers id other.id (differs other.id id differ) ∙ has) in
    let panes = show_instead id other e.windows.panes in
    let e' = record e {
      windows = record e.windows { panes = panes };
      buffers = without e.buffers id;
    } in
    let next_one = if selected.id == id then other.id else selected.id in
    let size = show_instead-length id other e.windows.panes in
    let few = length-without e.buffers id in
    let w = v.parts.windows in
    let parts : IsOpen e' = record {
      ids = IsAscending-without 0 e.next_id id e.buffers v.parts.ids;
      few = omega (arith, few, v.parts.few);
      windows = record {
        some_pane = omega (arith, size, w.some_pane);
        few = omega (arith, size, w.few);
        inside = omega (arith, size, w.inside);
        shown = λ i l.
            elim (show_instead_cases id other e.windows.panes i (omega (arith, l, size))) [
              | inl q ↦ subst (Has (without e.buffers id)) (sym q) other_has
              | inr (q, d) ↦
                  let (x, f) = w.shown i (omega (arith, l, size)) in
                  subst (Has (without e.buffers id)) (sym q)
                    (x, find_id-without e.buffers id _ (ground (arith, d)) ∙ f)
            ];
      };
    } in
    let chosen : Has (without e.buffers id) next_one = elim (Bool-cases (selected.id == id)) [
      | inl z ↦ rw z other_has
      | inr z ↦
          let f = find_id-get_elem? 0 e.next_id e.current e.buffers selected v.parts.ids here in
          rw z (selected, find_id-without e.buffers id selected.id (ground (arith, z)) ∙ f.0)
    ] in
    (
      editor_switch e' next_one,
      rw (here, found) refl,
      record {
        valid = editor_switch-IsSession e' next_one parts chosen;
        gone =
            ap (λ x. find_id x id) (editor_switch-buffers e' next_one)
            ∙ find_id-without_same 0 e.next_id id e.buffers v.parts.ids;
        kept = λ o l f.
            ap (λ x. find_id x o) (editor_switch-buffers e' next_one)
            ∙ find_id-without e.buffers id o (differs o id l);
      },
    )

find_id_last :
    (low high : ℕ) (buffers : List Buffer) (b : Buffer)
    → IsAscending low buffers high
    → high < b.id
    → find_id (buffers ++ (b ∷ [])) b.id ≡ some b
unfolding IsAscending
find_id_last low high [] b v h = find_id_here b [] b.id (ground arith)
find_id_last low high (c ∷ buffers) b (m, v) h =
    let l = IsAscending-le c.id high buffers v in
    find_id_skip c (buffers ++ (b ∷ [])) b.id (ground (arith, l, h))
    ∙ find_id_last c.id high buffers b v h

get_elem?-append :
    (buffers more : List Buffer) (i : ℕ) (b : Buffer)
    → get_elem? buffers i ≡ some b
    → get_elem? (buffers ++ more) i ≡ some b
get_elem?-append [] more i b h = absurd (none≢some h)
get_elem?-append (c ∷ buffers) more zero b h = h
get_elem?-append (c ∷ buffers) more (suc i) b h = get_elem?-append buffers more i b h

-- A new buffer is one more, with a new id, or there are as many as there can be.
pub editor_new_buffer_lem :
    (e : Editor) (name : Name)
    → IsSession e
    → length e.buffers < max_buffers
    → (out : Editor) × (editor_new_buffer e name ≡ some (some (e.next_id + 1), out))
      × IsSession out
      × Has out.buffers (e.next_id + 1)
      × (length out.buffers ≡ length e.buffers + 1)
      × ((id : ℕ) → Has e.buffers id → editor_by_id out id ≡ editor_by_id e id)
unfolding editor_new_buffer editor_by_id editor_buffer
editor_new_buffer_lem e name v h =
    let (t, made, text, bytes_of) = text_init_refines [] utf8_valid-nil in
    let id = e.next_id + 1 in
    let b = fresh_buffer id name t in
    let same : b.id ≡ id = unfold fresh_buffer in refl in
    let buffers = e.buffers ++ (b ∷ []) in
    let w = v.parts.windows in
    let room : leb max_buffers (length e.buffers) ≡ false = ground arith in
    let above : e.next_id < b.id = omega (arith, same) in
    let size : length buffers ≡ length e.buffers + 1 = length-append e.buffers (b ∷ []) in
    let (x, here, shown) = v.current in
    (
      record e { buffers = buffers; next_id = id },
      rw (made, room) refl,
      record {
        parts = record {
          ids =
              subst (IsAscending 0 buffers) same
                (IsAscending-append 0 e.next_id e.buffers b above v.parts.ids);
          few = omega (arith, size, h);
          windows = record {
            some_pane = w.some_pane;
            few = w.few;
            inside = w.inside;
            shown = λ i l.
                let (y, f) = w.shown i l in (y, find_id-append e.buffers (b ∷ []) _ (y, f) ∙ f);
          };
        };
        current = (x, get_elem?-append e.buffers (b ∷ []) e.current x here, shown);
      },
      (
        b,
        subst (λ k. find_id buffers k ≡ some b) same
            (find_id_last 0 e.next_id e.buffers b v.parts.ids above),
      ),
      size,
      λ k f. find_id-append e.buffers (b ∷ []) k f,
    )

pub editor_new_buffer_full :
    (e : Editor) (name : Name)
    → leb max_buffers (length e.buffers) ≡ true
    → editor_new_buffer e name ≡ some (none, with_message e buffer_limit)
unfolding editor_new_buffer
editor_new_buffer_full e name h = rw h refl

some_buffer : (buffers : List Buffer) (id : ℕ) → Has buffers id → 1 ≤ length buffers
unfolding find_id
some_buffer [] id (b, h) = absurd (none≢some h)
some_buffer (c ∷ buffers) id f = omega arith

-- Whatever buffer is dropped, the last one too, there is a current one afterwards and the invariant
-- holds; the dropped buffer is gone, and each other buffer is as it was.
pub editor_drop_buffer_lem :
    (e : Editor) (id : ℕ)
    → IsSession e
    → Has e.buffers id
    → (out : Editor) × (editor_drop_buffer e id ≡ some out) × IsDropped e id out
unfolding editor_drop_buffer editor_by_id
editor_drop_buffer_lem e id v f = elim (Bool-cases (length e.buffers == 1)) [
  | inl h ↦
      let (e', made, valid, has, size, kept) =
        editor_new_buffer_lem e (codes "*scratch*") v (ground (arith, h)) in
      let (out, q, d) = drop_for_lem e' id valid (ground (arith, size, h)) in
      (
        out,
        rw (h, made) q,
        record {
          valid = d.valid;
          gone = d.gone;
          kept = λ o l g. d.kept o l (g.0, kept o g ∙ g.1) ∙ kept o g;
        },
      )
  | inr h ↦
      let filled : 1 ≤ length e.buffers = some_buffer e.buffers id f in
      let (out, q, d) = drop_for_lem e id v (ground (arith, h, filled)) in (out, rw h q, d)
]
