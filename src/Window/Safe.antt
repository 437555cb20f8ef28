-- ===== src/Window/Safe.antt =====
-- The window commands of `dispatch` in src/commands.c keep the invariant of the windows.
use cpymacs.Base.{
  Bool, Bool-cases, List, Option, [], ap, arith, drop, false, get_or, get_or-append_ge,
  get_or-append_lt, get_or-drop, get_or-set, get_or-take, inl, inr, leb, length, length-append,
  length-drop, length-set, length-take, ltb, refl, some, some-injective, subst, suc, sym, take,
  true, zero, ℕ, ◌++◌, ◌+◌, ◌-◌, ◌<◌, ◌∙◌, ◌∷◌, ◌≡◌, ◌≤◌,
}
use native.Mathlib.Nat.{mod-lt}
use cpymacs.Buffer.{
  Buffer, Editor, editor_buffer, window_limit, with_message, Message, Pane, Windows,
}
use cpymacs.Window.{active, max_panes, no_pane}
use cpymacs.Window.Command.{around, split_window, delete_other_windows, pane_removed, save_point}
use cpymacs.Window.Session.{IsSession, IsWindows, set_pane-IsWindows}
use cpymacs.Buffer.Undo.{Long, negsuc, pos}
use cpymacs.Window.Lookup.{Has}

pub around_lt : (a m : ℕ) (count : Long) → 1 ≤ m → around a count m < m
unfolding around
around_lt a m (pos n) h = mod-lt (a + n) h
around_lt a m (negsuc n) h = elim (Bool-cases (leb (n + 1) a)) [
  | inl e ↦ rw e (mod-lt (a - (n + 1)) h)
  | inr e ↦ rw e (ground arith)
]

-- What a window command gives: an answer, and a valid editor.
abbrev pub Keeps : Option (Bool × Editor) → Type 0
Keeps o = (ok : Bool) × (out : Editor) × (o ≡ some (ok, out)) × IsSession out

-- a change of the windows only
windows-IsSession :
    (e : Editor) (w : Windows) (b : Buffer)
    → IsSession e
    → editor_buffer e ≡ some b
    → IsWindows e.buffers w
    → (active w).buffer ≡ b.id
    → IsSession (record e { windows = w })
unfolding editor_buffer
windows-IsSession e w b v here k same = record {
  parts = record { ids = v.parts.ids; few = v.parts.few; windows = k };
  current = (b, here, same);
}

pub with_message-IsSession : (e : Editor) (m : Message) → IsSession e → IsSession (with_message e m)
unfolding editor_buffer
with_message-IsSession e m v = record {
  parts = record { ids = v.parts.ids; few = v.parts.few; windows = v.parts.windows };
  current = v.current;
}

append-IsWindows :
    (buffers : List Buffer) (w : Windows) (p : Pane) (vertical : Bool)
    → IsWindows buffers w
    → length w.panes < max_panes
    → Has buffers p.buffer
    → IsWindows buffers (record w { panes = w.panes ++ (p ∷ []); split_vertical = vertical })
append-IsWindows buffers w p vertical v h f =
    let size = length-append w.panes (p ∷ []) in
    record {
      some_pane = omega (arith, size);
      few = omega (arith, size, h);
      inside = omega (arith, size, v.inside);
      shown = λ i l. elim (Bool-cases (ltb i (length w.panes))) [
        | inl e ↦
            subst (λ x. Has buffers x.buffer)
              (sym (get_or-append_lt w.panes (p ∷ []) i no_pane (ground (arith, e))))
              (v.shown i (ground (arith, e)))
        | inr e ↦
            subst (λ x. Has buffers x.buffer)
              (sym (
                get_or-append_ge w.panes (p ∷ []) i no_pane (ground (arith, e))
                ∙ ap (λ k. get_or (p ∷ []) k no_pane) {y = 0} (ground (arith, e, l, size))))
              f
      ];
    }

pub removed-IsWindows :
    (buffers : List Buffer) (w : Windows)
    → IsWindows buffers w
    → 2 ≤ length w.panes
    → IsWindows buffers (pane_removed w)
unfolding pane_removed
removed-IsWindows buffers w v h =
    let n = w.active_pane in
    let front = take n w.panes in
    let back = drop (n + 1) w.panes in
    let inside = v.inside in
    let few = v.few in
    let front_size : length front ≡ n = omega (arith, length-take n w.panes, inside) in
    let size : length (front ++ back) + 1 ≡ length w.panes =
      omega (arith, length-append front back, front_size, length-drop (n + 1) w.panes, inside) in
    record {
      some_pane = omega (arith, size, h);
      few = omega (arith, size, few);
      inside = ground (arith, size, h);
      shown = λ i l. elim (Bool-cases (ltb i n)) [
        | inl e ↦
            subst (λ x. Has buffers x.buffer)
              (sym (
                get_or-append_lt front back i no_pane (ground (arith, e, front_size))
                ∙ get_or-take n i w.panes no_pane (ground (arith, e))))
              (v.shown i (ground (arith, e, inside)))
        | inr e ↦
            subst (λ x. Has buffers x.buffer)
              (sym (
                get_or-append_ge front back i no_pane (ground (arith, e, front_size))
                ∙ get_or-drop (n + 1) (i - length front) w.panes no_pane))
              (v.shown (n + 1 + (i - length front)) (ground (arith, e, front_size, size, l)))
      ];
    }

module _ (e : Editor) (b : Buffer) (v : IsSession e) (here : editor_buffer e ≡ some b) where
  shows : (active e.windows).buffer ≡ b.id
  shows = let (x, h, s) = v.current in s ∙ ap (λ y. y.id) (some-injective _ _ (sym h ∙ here))

  abbrev marked : Pane
  marked = record (active e.windows) { point = b.point }

  pub saved : IsWindows e.buffers (save_point e b)
  saved =
      set_pane-IsWindows e.buffers e.windows marked v.parts.windows
        (v.parts.windows.shown e.windows.active_pane v.parts.windows.inside)

  saved_active : active (save_point e b) ≡ marked
  saved_active =
      get_or-set e.windows.panes e.windows.active_pane marked no_pane v.parts.windows.inside

  pub split_window-Keeps : (vertical : Bool) → Keeps (split_window e b vertical)
  unfolding split_window
  split_window-Keeps vertical = elim (Bool-cases (leb max_panes (length e.windows.panes))) [
    | inl h ↦
        rw h (false, with_message e window_limit, refl, with_message-IsSession e window_limit v)
    | inr h ↦
        let w = save_point e b in
        let size = length-set e.windows.panes e.windows.active_pane marked in
        let less : e.windows.active_pane < length w.panes =
          omega (arith, size, v.parts.windows.inside) in
        let w' = record w { panes = w.panes ++ (active w ∷ []); split_vertical = vertical } in
        let k =
          append-IsWindows e.buffers w (active w) vertical saved (ground (arith, h, size))
            (saved.shown w.active_pane saved.inside) in
        let s =
          ap (λ x. x.buffer)
            (get_or-append_lt w.panes (active w ∷ []) e.windows.active_pane no_pane less
              ∙ saved_active)
          ∙ shows in
        rw h (true, record e { windows = w' }, refl, windows-IsSession e w' b v here k s)
  ]

  pub delete_other_windows-Keeps : Keeps (delete_other_windows e)
  unfolding delete_other_windows
  delete_other_windows-Keeps =
      let w = record e.windows { panes = active e.windows ∷ []; active_pane = 0 } in
      let k : IsWindows e.buffers w = record {
        some_pane = omega arith;
        few = omega arith;
        inside = omega arith;
        shown = λ i l. only i l;
      } in
      (true, record e { windows = w }, refl, windows-IsSession e w b v here k shows)
    where
      only : (i : ℕ) → i < 1 → Has e.buffers (get_or (active e.windows ∷ []) i no_pane).buffer
      only zero l = v.parts.windows.shown e.windows.active_pane v.parts.windows.inside
      only (suc i) l = absurd (omega (arith, l))
