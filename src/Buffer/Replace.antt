-- ===== src/Buffer/Replace.antt =====
-- `editor_replace` of src/buffer.c on a buffer with a valid history.
use cpymacs.Base.{
  Bool, Bool-cases, List, [], arith, drop_all, false, inl, inr, length, length-append, not, refl,
  some, sym, take, take_all, true, ℕ, ◌%◌, ◌&&◌, ◌++◌, ◌+◌, ◌==◌, ◌^◌, ◌∙◌, ◌∷◌, ◌≡◌, ◌≤◌,
}
use cpymacs.Buffer.{
  Buffer, Editor, edited, new_edit, replace_refuses, Message, editor_buffer, editor_replace,
  relocate, replace_in, with_message, buffer_is_read_only, invalid_edit, put_buffer,
  editor_lex_invalidate,
}
use cpymacs.Buffer.History.{IsBuffer, Changes, View, view, Chain-append}
use cpymacs.Utf8.{utf8_valid}
use cpymacs.Utf8.Boundary.{boundary, boundary-le}
use cpymacs.Text.Edit.{Text, size_max}
use cpymacs.Text.Replace.{Replaces, added_len, text_replace, text_replace_lem}
use cpymacs.Text.Edit.Byte.{content, text_boundary_lem, text_size_lem}
use cpymacs.Text.Edit.Insert.{IsText, splice}
use cpymacs.Text.Read.Slice.{text_slice_lem}

-- the ranges and bytes that `editor_replace` accepts
abbrev pub accepted : Buffer → ℕ → ℕ → List ℕ → Bool
accepted b at count s =
    boundary (content b.text) at && (boundary (content b.text) (at + count) && utf8_valid s)

abbrev pub editable : Buffer → ℕ → ℕ → List ℕ → Bool
editable b at count s = not b.readonly && accepted b at count s

abbrev pub nothing : ℕ → List ℕ → Bool
nothing count s = count == 0 && length s == 0

replace_refuses_lem :
    (b : Buffer) (at count : ℕ) (s : List ℕ)
    → IsText b.text
    → replace_refuses b at count s ≡ not (accepted b at count s)
unfolding replace_refuses
replace_refuses_lem b at count s v =
    rw
      (
        text_size_lem b.text v.tree,
        text_boundary_lem b.text at v.tree,
        text_boundary_lem b.text (at + count) v.tree,
      )
      (ground (arith, boundary-le (content b.text) at, boundary-le (content b.text) (at + count)))

module _ (first : View) (e : Editor) (b : Buffer) (at count : ℕ) (s : List ℕ) (v : IsBuffer first b)
    (ok : accepted b at count s ≡ true) where
  guards :
      (boundary (content b.text) at ≡ true)
      × (boundary (content b.text) (at + count) ≡ true)
      × (utf8_valid s ≡ true)
  guards = ground arith

  new_edit-Changes :
      (t : Text)
      → Replaces b.text at count s t
      → Changes (new_edit e b at count s) (view b) (view (edited e b at count s t))
  unfolding new_edit edited
  new_edit-Changes t r = record {
    valid = v.text.utf8;
    new = guards.2;
    start = guards.0;
    end = guards.1;
    size = refl;
    removed = text_slice_lem b.text at count v.text;
    result = r.result;
    before = refl;
    after = refl;
  }

  edited-IsBuffer :
      (t : Text) → Replaces b.text at count s t → IsBuffer first (edited e b at count s t)
  unfolding edited
  edited-IsBuffer t r =
      let h = take b.history_pos b.history in
      let d = new_edit e b at count s in
      let size : length (h ++ (d ∷ [])) ≡ length h + 1 = length-append h (d ∷ []) in
      record {
        text = r.valid;
        within = omega (arith, size);
        past = rw (take_all (length h + 1) (h ++ (d ∷ [])) (omega (arith, size))) (
            Chain-append h d first (view b) (content t, d.after_state) v.past
              (new_edit-Changes t r));
        future = (
          (content t, d.after_state),
          rw (drop_all (length h + 1) (h ++ (d ∷ [])) (omega (arith, size))) refl,
        );
      }

-- What an edit that is carried out leaves of the buffer: the invariant with the same first view, the
-- new text, the point and the mark moved, the edit as the last entry behind those before it, and a
-- store that grew by no more than the new bytes; it is the same buffer, as writable as before.
pub record IsEdited (first : View) (e : Editor) (b : Buffer) (at count : ℕ) (s : List ℕ)
    (out : Buffer) : Type 0 where
  pub valid : IsBuffer first out
  pub result : content out.text ≡ splice (content b.text) at count s
  pub change : Changes (new_edit e b at count s) (view b) (view out)
  pub moved :
      (out.point ≡ relocate b.point at count (length s) true)
      × (out.mark ≡ relocate b.mark at count (length s) false)
  pub logged : out.history ≡ take b.history_pos b.history ++ (new_edit e b at count s ∷ [])
  pub present : out.history_pos ≡ length out.history
  pub grows : added_len out.text ≤ added_len b.text + length s
  pub same : (out.id ≡ b.id) × (out.readonly ≡ b.readonly)

module _ (text_changed : Editor → Editor) where
  in_current :
      (e : Editor) (b : Buffer) (at count : ℕ) (s : List ℕ)
      → editor_buffer e ≡ some b
      → editor_replace text_changed e at count s ≡ replace_in text_changed e b at count s
  unfolding editor_replace
  in_current e b at count s h = rw (h, editor_replace)

  replace_in-keeps :
      (first : View) (e : Editor) (b : Buffer) (at count : ℕ) (s : List ℕ)
      → IsBuffer first b
      → (editable b at count s && not (nothing count s)) ≡ false
      → (m : Message) × (replace_in text_changed e b at count s
          ≡ some (editable b at count s, with_message e m))
  unfolding replace_in
  replace_in-keeps first e b at count s v h =
      rw (replace_refuses_lem b at count s v.text) (elim (Bool-cases b.readonly) [
        | inl r ↦ (buffer_is_read_only, rw r refl)
        | inr r ↦ elim (Bool-cases (accepted b at count s)) [
          | inl a ↦ let z : nothing count s ≡ true = ground arith in (e.message, rw (r, a, z) refl)
          | inr a ↦ (invalid_edit, rw (r, a) refl)
        ]
      ])

  -- A read-only buffer, a range or bytes that are not accepted, and an empty edit leave the editor as
  -- it is, but for the message; the answer is whether the edit could be made.
  pub editor_replace-keeps :
      (first : View) (e : Editor) (b : Buffer) (at count : ℕ) (s : List ℕ)
      → editor_buffer e ≡ some b
      → IsBuffer first b
      → (editable b at count s && not (nothing count s)) ≡ false
      → (m : Message) × (editor_replace text_changed e at count s
          ≡ some (editable b at count s, with_message e m))
  editor_replace-keeps first e b at count s h v k =
      let (m, p) = replace_in-keeps first e b at count s v k in (m, in_current e b at count s h ∙ p)

  replace_in-edits :
      (first : View) (e : Editor) (b : Buffer) (at count : ℕ) (s : List ℕ) (t : Text)
      → IsBuffer first b
      → (editable b at count s && not (nothing count s)) ≡ true
      → text_replace b.text at count s ≡ some t
      → replace_in text_changed e b at count s
        ≡ some (
          true,
          text_changed (
              put_buffer
                (record e { next_state = (e.next_state + 1) % 2 ^ 64 })
                (edited e b at count s t)),
        )
  unfolding replace_in
  replace_in-edits first e b at count s t v h q =
      let r : b.readonly ≡ false = ground arith in
      let a : accepted b at count s ≡ true = ground arith in
      let z : nothing count s ≡ false = ground arith in
      rw (replace_refuses_lem b at count s v.text) (simp (r, a, z) (rw (q, replace_in) refl))

  edited-IsEdited :
      (first : View) (e : Editor) (b : Buffer) (at count : ℕ) (s : List ℕ) (t : Text)
      → IsBuffer first b
      → accepted b at count s ≡ true
      → Replaces b.text at count s t
      → IsEdited first e b at count s (edited e b at count s t)
  unfolding edited new_edit editor_lex_invalidate
  edited-IsEdited first e b at count s t v a r = record {
    valid = edited-IsBuffer first e b at count s v a t r;
    result = r.result;
    change = new_edit-Changes first e b at count s v a t r;
    moved = (refl, refl);
    logged = refl;
    grows = r.grows;
    same = (refl, refl);
    present = sym (length-append (take b.history_pos b.history) (new_edit e b at count s ∷ []));
  }

  -- An edit that is not empty, of a buffer with a valid history that is not read-only, on a range
  -- between boundaries and with valid bytes that the store has room for, is carried out:
  -- `editor_replace` returns true with what the hook makes of the editor with the edited buffer and the
  -- next state number. The edited buffer has the bytes in place of the range, the point and the mark
  -- moved by `relocate`, the edit as the last entry of a valid history, and nothing to redo.
  pub editor_replace-edits :
      (first : View) (e : Editor) (b : Buffer) (at count : ℕ) (s : List ℕ)
      → editor_buffer e ≡ some b
      → IsBuffer first b
      → added_len b.text + length s + 1 ≤ size_max
      → (editable b at count s && not (nothing count s)) ≡ true
      → (b' : Buffer) × (editor_replace text_changed e at count s
          ≡ some (
            true,
            text_changed (put_buffer (record e { next_state = (e.next_state + 1) % 2 ^ 64 }) b'),
          ))
        × IsEdited first e b at count s b'
  editor_replace-edits first e b at count s h v room k =
      let a : accepted b at count s ≡ true = ground arith in
      let (start, end, u) = guards first e b at count s v a in
      let (t, q, r) = text_replace_lem b.text at count s v.text start end u room in
      (
        edited e b at count s t,
        in_current e b at count s h ∙ replace_in-edits first e b at count s t v k q,
        edited-IsEdited first e b at count s t v a r,
      )
