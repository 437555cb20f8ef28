-- ===== src/Window/Session.antt =====
-- The invariant of the buffers and windows of an `Editor`: what the functions of src/buffer.c and the
-- window commands of src/commands.c keep.
use cpymacs.Base.{
  Bool-cases, List, Option-cases, [], ap, arith, get_elem?, get_or, get_or-set, get_or-set_cases,
  inl, inr, length, length-set, none≢some, refl, set, some, some-injective, subst, suc, sym, zero,
  ℕ, ◌<◌, ◌==◌, ◌∙◌, ◌∷◌, ◌≡◌, ◌≤◌,
}
use cpymacs.Buffer.{Buffer, Editor, Pane, Windows, editor_buffer, put_buffer}
use cpymacs.Window.{
  editor_by_id, editor_switch, find_id, max_buffers, max_panes, no_pane, set_active, active,
  index_of,
}
use cpymacs.Window.Lookup.{Has, IsAscending, find_id_here, find_id_lem, find_id_skip, index_of_lem}

-- The windows: one to eight, the active one among them, and each shows a buffer of the list.
pub record IsWindows (buffers : List Buffer) (w : Windows) : Type 0 where
  pub some_pane : 1 ≤ length w.panes
  pub few : length w.panes ≤ max_panes
  pub inside : w.active_pane < length w.panes
  pub shown : (i : ℕ) → i < length w.panes → Has buffers (get_or w.panes i no_pane).buffer

-- The buffers, with ids that go up, and the windows.
pub record IsOpen (e : Editor) : Type 0 where
  pub ids : IsAscending 0 e.buffers e.next_id
  pub few : length e.buffers ≤ max_buffers
  pub windows : IsWindows e.buffers e.windows

-- Besides, the active window shows the current buffer.
pub record IsSession (e : Editor) : Type 0 where
  pub parts : IsOpen e
  pub current : (b : Buffer) × (editor_buffer e ≡ some b) × ((active e.windows).buffer ≡ b.id)

-- a window that is changed to show a buffer of the list
pub set_pane-IsWindows :
    (buffers : List Buffer) (w : Windows) (p : Pane)
    → IsWindows buffers w
    → Has buffers p.buffer
    → IsWindows buffers (set_active w p)
set_pane-IsWindows buffers w p v h =
    let size = length-set w.panes w.active_pane p in
    record {
      some_pane = omega (arith, size, v.some_pane);
      few = omega (arith, size, v.few);
      inside = omega (arith, size, v.inside);
      shown = λ i l. elim (get_or-set_cases w.panes w.active_pane i p no_pane) [
        | inl e ↦ subst (λ x. Has buffers x.buffer) (sym e) h
        | inr e ↦ subst (λ x. Has buffers x.buffer) (sym e) (v.shown i (omega (arith, l, size)))
      ];
    }

pub editor_switch-buffers : (e : Editor) (id : ℕ) → (editor_switch e id).buffers ≡ e.buffers
unfolding editor_switch
editor_switch-buffers e id = elim (Option-cases (index_of e.buffers id)) [
  | inl h ↦ rw (h, editor_switch) refl
  | inr (i, h) ↦ rw (h, editor_switch) refl
]

pub editor_switch-buffer :
    (e : Editor) (id : ℕ)
    → Has e.buffers id
    → editor_buffer (editor_switch e id) ≡ editor_by_id e id
unfolding editor_switch editor_buffer editor_by_id
editor_switch-buffer e id h =
    let (i, at, same) = index_of_lem e.buffers id h in rw (at, editor_switch) same

-- Switching to a buffer of the list makes it the one that the active window shows.
pub editor_switch-IsSession :
    (e : Editor) (id : ℕ) → IsOpen e → Has e.buffers id → IsSession (editor_switch e id)
unfolding editor_switch editor_buffer
editor_switch-IsSession e id v h =
    let (i, at, same) = index_of_lem e.buffers id h in
    let p = record (active e.windows) { buffer = id } in
    let there = record e { current = i; windows = set_active e.windows p } in
    let q : editor_switch e id ≡ there = rw (at, editor_switch) refl in
    subst IsSession (sym q) (record {
      parts = record {
        ids = v.ids;
        few = v.few;
        windows = set_pane-IsWindows e.buffers e.windows p v.windows h;
      };
      current = (
        h.0,
        same ∙ h.1,
        ap (λ x. x.buffer)
              (get_or-set e.windows.panes e.windows.active_pane p no_pane v.windows.inside)
            ∙ sym (find_id_lem e.buffers id h.0 h.1),
      );
    })

pub find_id-set :
    (buffers : List Buffer) (i id : ℕ) (b c : Buffer)
    → get_elem? buffers i ≡ some b
    → c.id ≡ b.id
    → Has buffers id
    → Has (set buffers i c) id
unfolding find_id
find_id-set [] i id b c e s (x, h) = absurd (none≢some h)
find_id-set (d ∷ buffers) zero id b c e s (x, h) =
    let same = ap (λ y. y.id) (some-injective _ _ e) in
    elim (Bool-cases (d.id == id)) [
      | inl z ↦ (c, find_id_here c buffers id (ground (arith, z, same, s)))
      | inr z ↦ (
        x,
        find_id_skip c buffers id (ground (arith, z, same, s))
            ∙ sym (find_id_skip d buffers id z)
            ∙ h,
      )
    ]
find_id-set (d ∷ buffers) (suc i) id b c e s (x, h) = elim (Bool-cases (d.id == id)) [
  | inl z ↦ (d, find_id_here d (set buffers i c) id z)
  | inr z ↦
      let (y, g) = find_id-set buffers i id b c e s (x, sym (find_id_skip d buffers id z) ∙ h) in
      (y, find_id_skip d (set buffers i c) id z ∙ g)
]

-- The invariant does not look into the buffers.
IsAscending-set :
    (low high i : ℕ) (buffers : List Buffer) (b c : Buffer)
    → get_elem? buffers i ≡ some b
    → c.id ≡ b.id
    → IsAscending low buffers high
    → IsAscending low (set buffers i c) high
unfolding IsAscending
IsAscending-set low high i [] b c e s h = h
IsAscending-set low high zero (d ∷ buffers) b c e s (m, h) =
    let same = s ∙ ap (λ y. y.id) (sym (some-injective _ _ e)) in
    (omega (arith, m, same), subst (λ x. IsAscending x buffers high) (sym same) h)
IsAscending-set low high (suc i) (d ∷ buffers) b c e s (m, h) =
    (m, IsAscending-set d.id high i buffers b c e s h)

pub get_elem?-set :
    (buffers : List Buffer) (i : ℕ) (b c : Buffer)
    → get_elem? buffers i ≡ some b
    → get_elem? (set buffers i c) i ≡ some c
get_elem?-set [] i b c e = absurd (none≢some e)
get_elem?-set (d ∷ buffers) zero b c e = refl
get_elem?-set (d ∷ buffers) (suc i) b c e = get_elem?-set buffers i b c e

pub put_buffer-IsSession :
    (e : Editor) (b c : Buffer)
    → editor_buffer e ≡ some b
    → c.id ≡ b.id
    → IsSession e
    → IsSession (put_buffer e c)
unfolding editor_buffer put_buffer
put_buffer-IsSession e b c h s v =
    let (x, here, shown) = v.current in
    let same : x ≡ b = some-injective _ _ (sym here ∙ h) in
    record {
      parts = record {
        ids = IsAscending-set 0 e.next_id e.current e.buffers b c h s v.parts.ids;
        few = omega (arith, length-set e.buffers e.current c, v.parts.few);
        windows = record {
          some_pane = v.parts.windows.some_pane;
          few = v.parts.windows.few;
          inside = v.parts.windows.inside;
          shown = λ i l. find_id-set e.buffers e.current _ b c h s (v.parts.windows.shown i l);
        };
      };
      current = (c, get_elem?-set e.buffers e.current b c h, shown ∙ ap (λ y. y.id) same ∙ sym s);
    }
