-- ===== src/Window/Switching.antt =====
-- The commands of `dispatch` in src/commands.c that go to another window or buffer keep the invariant
-- of the windows.
use cpymacs.Base.{
  Bool, Bool-cases, List, Name, Option-cases, [], ap, arith, codes, false, get_elem?, get_or,
  if◌then◌else◌, inl, inr, leb, length, ltb, none≢some, refl, same_name, set, some, some-injective,
  subst, suc, sym, true, zero, ℕ, ◌%◌, ◌&&◌, ◌+◌, ◌<◌, ◌==◌, ◌∙◌, ◌∷◌, ◌≡◌, ◌≤◌,
}
use native.Mathlib.Nat.{mod-lt}
use cpymacs.Buffer.{
  Buffer, Editor, editor_buffer, put_buffer, sole_window, with_message, buffer_limit,
}
use cpymacs.Window.{
  editor_by_id, editor_switch, index_of, put_by_id, put_id, find_id, no_pane, max_buffers,
}
use cpymacs.Window.Safe.{
  Keeps, removed-IsWindows, with_message-IsSession, around_lt, saved, delete_other_windows-Keeps,
  split_window-Keeps,
}
use cpymacs.Window.Command.{
  delete_window, other_window, pane_removed, step_buffer, around, save_point, first_named,
  switch_to_buffer, delete_other_windows, split_window,
}
use cpymacs.Window.Lookup.{find_id_lem, index_of_lem, find_id-get_elem?}
use cpymacs.Window.Session.{
  IsOpen, IsSession, editor_switch-IsSession, editor_switch-buffer, editor_switch-buffers,
  put_buffer-IsSession,
}
use cpymacs.Buffer.Undo.{Long}
use cpymacs.Text.Edit.{text_size}
use cpymacs.Window.Drop.{editor_new_buffer_full, editor_new_buffer_lem}

pub put_id-index_of :
    (buffers : List Buffer) (c : Buffer) (i : ℕ)
    → index_of buffers c.id ≡ some i
    → put_id buffers c ≡ set buffers i c
unfolding put_id index_of
put_id-index_of [] c i h = absurd (none≢some h)
put_id-index_of (b ∷ buffers) c i h = elim (Bool-cases (b.id == c.id)) [
  | inl e ↦ let q : i ≡ 0 = some-injective _ _ (sym h ∙ rw e refl) in rw (e, q) refl
  | inr e ↦ elim (Option-cases (index_of buffers c.id)) [
    | inl z ↦ absurd (none≢some (sym (rw (e, z) refl) ∙ h))
    | inr (j, z) ↦
        let q : i ≡ suc j = some-injective _ _ (sym h ∙ rw (e, z) refl) in
        rw (e, q) (ap (b ∷◌) (put_id-index_of buffers c j z))
  ]
]

get_elem?-lt :
    (buffers : List Buffer) (i : ℕ) (b : Buffer) → get_elem? buffers i ≡ some b → i < length buffers
get_elem?-lt [] i b h = absurd (none≢some h)
get_elem?-lt (c ∷ buffers) zero b h = omega arith
get_elem?-lt (c ∷ buffers) (suc i) b h = let r = get_elem?-lt buffers i b h in omega (arith, r)

get_elem?-some :
    (buffers : List Buffer) (i : ℕ)
    → i < length buffers
    → (b : Buffer) × (get_elem? buffers i ≡ some b)
get_elem?-some [] i h = absurd (omega (arith, h))
get_elem?-some (c ∷ buffers) zero h = (c, refl)
get_elem?-some (c ∷ buffers) (suc i) h = get_elem?-some buffers i (omega (arith, h))

module _ (e : Editor) (v : IsSession e) where
  -- changing a buffer that was just switched to
  switch_then_put :
      (e' : Editor) (q c : Buffer)
      → IsOpen e'
      → editor_by_id e' q.id ≡ some q
      → c.id ≡ q.id
      → IsSession (put_by_id (editor_switch e' q.id) c)
  unfolding editor_by_id editor_switch
  switch_then_put e' q c k f s =
      let d = editor_switch e' q.id in
      let valid = editor_switch-IsSession e' q.id k (q, f) in
      let here = editor_switch-buffer e' q.id (q, f) ∙ f in
      let (i, at, same) = index_of_lem e'.buffers q.id (q, f) in
      let there : d.current ≡ i = rw (at, editor_switch) refl in
      let buffers : d.buffers ≡ e'.buffers = editor_switch-buffers e' q.id in
      let index : index_of d.buffers c.id ≡ some d.current =
        ap (λ x. index_of x c.id) buffers ∙ ap (index_of e'.buffers) s ∙ at ∙ ap some (sym there) in
      subst IsSession (put_as d c index) (put_buffer-IsSession d q c here s valid)
    where
      put_as :
          (d : Editor) (c : Buffer)
          → index_of d.buffers c.id ≡ some d.current
          → put_buffer d c ≡ put_by_id d c
      put_as d c h =
          unfold put_buffer put_by_id in
          ap (λ x. record d { buffers = x }) (sym (put_id-index_of d.buffers c d.current h))

  delete_window-Keeps : Keeps (delete_window e)
  unfolding delete_window editor_by_id
  delete_window-Keeps = elim (Bool-cases (length e.windows.panes == 1)) [
    | inl h ↦ rw h (false, with_message e sole_window, refl, with_message-IsSession e sole_window v)
    | inr h ↦
        let w = pane_removed e.windows in
        let e' = record e { windows = w } in
        let two : 2 ≤ length e.windows.panes = ground (arith, h, v.parts.windows.some_pane) in
        let k = removed-IsWindows e.buffers e.windows v.parts.windows two in
        let (q, f) = k.shown w.active_pane k.inside in
        let same = find_id_lem e.buffers _ q f in
        let o : IsOpen e' = record { ids = v.parts.ids; few = v.parts.few; windows = k } in
        rw (h, f)
          (
            true,
            editor_switch e' q.id,
            refl,
            editor_switch-IsSession e' q.id o (q, ap (find_id e.buffers) same ∙ f),
          )
  ]

  step_buffer-Keeps : (count : Long) → Keeps (step_buffer e count)
  unfolding step_buffer editor_buffer
  step_buffer-Keeps count =
      let (x, here, s) = v.current in
      let i = around e.current count (length e.buffers) in
      let inside = get_elem?-lt e.buffers e.current x here in
      let (q, f) =
        get_elem?-some e.buffers i
          (around_lt e.current (length e.buffers) count (omega (arith, inside))) in
      let (has, l) = find_id-get_elem? 0 e.next_id i e.buffers q v.parts.ids f in
      rw f (true, editor_switch e q.id, refl, editor_switch-IsSession e q.id v.parts (q, has))

  other_window-Keeps :
      (b : Buffer) (count : Long) → editor_buffer e ≡ some b → Keeps (other_window e b count)
  unfolding other_window editor_by_id
  other_window-Keeps b count here =
      let w = save_point e b in
      let k = saved e b v here in
      let n = around w.active_pane count (length w.panes) in
      let w' = record w { active_pane = n } in
      let e' = record e { windows = w' } in
      let inside = around_lt w.active_pane (length w.panes) count k.some_pane in
      let (q, f) = k.shown n inside in
      let p = get_or w.panes n no_pane in
      let c = record q {
        point = if ltb (text_size q.text) p.point then text_size q.text else p.point;
      } in
      let o : IsOpen e' = record {
        ids = v.parts.ids;
        few = v.parts.few;
        windows = record { some_pane = k.some_pane; few = k.few; inside = inside; shown = k.shown };
      } in
      let same = find_id_lem e.buffers _ q f in
      (
        true,
        put_by_id (editor_switch e' q.id) c,
        rw (f, other_window) refl,
        switch_then_put e' q c o (ap (find_id e.buffers) same ∙ f) refl,
      )

  find_id_of_named :
      (name : Name) (buffers : List Buffer) (q : Buffer)
      → first_named buffers name ≡ some q
      → (i : ℕ) × (get_elem? buffers i ≡ some q)
  unfolding first_named
  find_id_of_named name [] q h = absurd (none≢some h)
  find_id_of_named name (b ∷ buffers) q h = elim (Bool-cases (same_name b.name name)) [
    | inl z ↦ (0, sym (rw z refl) ∙ h)
    | inr z ↦ let (i, f) = find_id_of_named name buffers q (sym (rw z refl) ∙ h) in (suc i, f)
  ]

  switch_to_buffer-Keeps :
      (after_open : Editor → Editor) (arg : Name)
      → ((d : Editor) → IsSession d → IsSession (after_open d))
      → Keeps (switch_to_buffer after_open e arg)
  unfolding switch_to_buffer
  switch_to_buffer-Keeps after_open arg hook =
      let empty = length arg == 0 in
      let name = if empty then codes "*scratch*" else arg in
      elim (Bool-cases (empty && ltb 1 (length e.buffers))) [
        | inl h ↦
            let (q, f) =
              get_elem?-some e.buffers ((e.current + 1) % length e.buffers)
                (mod-lt (e.current + 1) (ground (arith, h))) in
            let (has, l) = find_id-get_elem? 0 e.next_id _ e.buffers q v.parts.ids f in
            rw (h, f)
              (true, editor_switch e q.id, refl, editor_switch-IsSession e q.id v.parts (q, has))
        | inr h ↦ elim (Option-cases (first_named e.buffers arg)) [
          | inr (q, f) ↦
              let (i, g) = find_id_of_named arg e.buffers q f in
              let (has, l) = find_id-get_elem? 0 e.next_id i e.buffers q v.parts.ids g in
              rw (h, f)
                (true, editor_switch e q.id, refl, editor_switch-IsSession e q.id v.parts (q, has))
          | inl f ↦ elim (Bool-cases (leb max_buffers (length e.buffers))) [
            | inl full ↦
                let g = editor_new_buffer_full e name full in
                rw (h, f, g)
                  (
                    false,
                    with_message e buffer_limit,
                    refl,
                    with_message-IsSession e buffer_limit v,
                  )
            | inr room ↦
                let (out, made, valid, has, size, kept) =
                  editor_new_buffer_lem e name v (ground (arith, room)) in
                let id = e.next_id + 1 in
                rw (h, f, made)
                  (
                    true,
                    after_open (editor_switch out id),
                    refl,
                    hook (editor_switch out id) (editor_switch-IsSession out id valid.parts has),
                  )
          ]
        ]
      ]

  -- In a valid session with the current buffer b, each window and buffer command gives an answer and a
  -- valid session, whatever its count or name: one to eight windows, an active one among them, each
  -- showing a buffer that there is, and the active one the current buffer. For switch-to-buffer the hook
  -- has to leave valid sessions.
  pub window_commands_lem :
      (b : Buffer) (after_open : Editor → Editor) (count : Long) (name : Name) (vertical : Bool)
      → editor_buffer e ≡ some b
      → ((d : Editor) → IsSession d → IsSession (after_open d))
      → Keeps (split_window e b vertical)
        × Keeps (other_window e b count)
        × Keeps (delete_other_windows e)
        × Keeps (delete_window e)
        × Keeps (step_buffer e count)
        × Keeps (switch_to_buffer after_open e name)
  window_commands_lem b after_open count name vertical here hook = (
    split_window-Keeps e b v here vertical,
    other_window-Keeps b count here,
    delete_other_windows-Keeps e b v here,
    delete_window-Keeps,
    step_buffer-Keeps count,
    switch_to_buffer-Keeps after_open name hook,
  )
