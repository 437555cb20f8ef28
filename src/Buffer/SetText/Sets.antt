-- ===== src/Buffer/SetText/Sets.antt =====
-- `editor_set_text` of src/buffer.c leaves the text that it is given.
use cpymacs.Base.{
  Bool, Bool-cases, List, [], ap, arith, drop, false, if◌then◌else◌, inl, inr, length, length-drop,
  length-take, refl, some, sym, take, take-append-drop, take_all, true, ℕ, ◌%◌, ◌&&◌, ◌++◌, ◌+◌,
  ◌-◌, ◌==◌, ◌^◌, ◌∙◌, ◌∷◌, ◌≡◌, ◌≤◌, ◌⊎◌,
}
use cpymacs.Buffer.SetText.Whole.{
  head, middle, same_head, span, middle-utf8_valid, old_head, old_tail, splice-middle, tail,
}
use cpymacs.Buffer.{
  Buffer, Editor, editor_buffer, editor_replace, Message, put_buffer, with_message,
}
use cpymacs.Utf8.{utf8_valid}
use cpymacs.Text.Read.{text_slice}
use cpymacs.Text.Edit.{text_size, size_max}
use cpymacs.Text.Edit.Byte.{content, text_size_lem}
use cpymacs.Text.Read.Slice.{text_slice_lem}
use cpymacs.Buffer.History.{IsBuffer, View}
use cpymacs.Buffer.SetText.{editor_set_text, set_text_in}
use cpymacs.Text.Replace.{added_len}
use cpymacs.Buffer.Replace.{IsEdited, accepted, editor_replace-edits, nothing, editor_replace-keeps}
use cpymacs.Text.Edit.Insert.{splice}

splice_nothing :
    (c : List ℕ) (at count : ℕ) (s : List ℕ) → count ≡ 0 → length s ≡ 0 → splice c at count s ≡ c
splice_nothing c at count [] e h =
    ap (λ k. take at c ++ drop k c) {y = at} (omega (arith, e)) ∙ take-append-drop at c
splice_nothing c at count (x ∷ s) e h = absurd (omega (arith, h))

module _ (text_changed : Editor → Editor) (first : View) (e : Editor) (b : Buffer) (s : List ℕ)
    (here : editor_buffer e ≡ some b) (v : IsBuffer first b) (new : utf8_valid s ≡ true) where
  abbrev pub old : List ℕ
  old = content b.text

  old_valid : utf8_valid old ≡ true
  old_valid = v.text.utf8

  whole : text_slice b.text 0 (text_size b.text) ≡ old
  whole =
      text_slice_lem b.text 0 (text_size b.text) v.text
      ∙ take_all (text_size b.text) old (omega (arith, text_size_lem b.text v.text.tree))

  abbrev same : Bool
  same = head old s == length old && head old s == length s

  same_text : same ≡ true → old ≡ s
  same_text h =
      sym (take_all (head old s) old (ground (arith, h)))
      ∙ same_head old s old_valid new
      ∙ take_all (head old s) s (ground (arith, h))

  run : editor_set_text text_changed e s ≡ (
      if same
      then some (true, e)
      else editor_replace text_changed e (head old s) (span old s) (middle old s))
  unfolding editor_set_text set_text_in
  run = rw (here, editor_set_text) (rw (whole, text_size_lem b.text v.text.tree, new) refl)

  middle_size : length (middle old s) ≤ length s
  middle_size = omega (
    arith,
    length-take (length s - head old s - tail old s) (drop (head old s) s),
    length-drop (head old s) s,
  )

  abbrev pub Edits : Type 0
  Edits =
      (b' : Buffer) × (editor_set_text text_changed e s
        ≡ some (
          true,
          text_changed (put_buffer (record e { next_state = (e.next_state + 1) % 2 ^ 64 }) b'),
        ))
      × (IsEdited first e b (head old s) (span old s) (middle old s) b')
      × (content b'.text ≡ s)

  -- For a buffer with a valid history that is not read-only, and valid bytes that the store has room
  -- for, `editor_set_text` returns true, and then either the text is these bytes already and nothing
  -- changes but for the message, or the hook gets the editor with a buffer that one edit, of the part
  -- between what both texts have in common, has given these bytes.
  pub editor_set_text_lem :
      b.readonly ≡ false
      → added_len b.text + length s + 1 ≤ size_max
      → ((m : Message) × (editor_set_text text_changed e s ≡ some (true, with_message e m))
          × (old ≡ s))
        ⊎ Edits
  editor_set_text_lem r room = elim (Bool-cases same) [
    | inl h ↦ inl (e.message, run ∙ rw h refl, same_text h)
    | inr h ↦
        let ok : accepted b (head old s) (span old s) (middle old s) ≡ true =
          rw
            (
              old_head old s old_valid new,
              old_tail old s old_valid new,
              middle-utf8_valid old s old_valid new,
            )
            refl in
        let go : editor_set_text text_changed e s
            ≡ editor_replace text_changed e (head old s) (span old s) (middle old s) =
          run ∙ (rw h refl) in
        elim (Bool-cases (nothing (span old s) (middle old s))) [
          | inl z ↦
              let (m, q) =
                editor_replace-keeps text_changed first e b (head old s) (span old s) (middle old s)
                  here v (rw (r, ok, z) refl) in
              inl (
                m,
                go ∙ q ∙ rw (r, ok) refl,
                sym (
                      splice_nothing old (head old s) (span old s) (middle old s)
                        (ground (arith, z)) (ground (arith, z)))
                    ∙ splice-middle old s old_valid new,
              )
          | inr z ↦
              let (b', q, edit) =
                editor_replace-edits text_changed first e b (head old s) (span old s) (middle old s)
                  here v (omega (arith, room, middle_size)) (rw (r, ok, z) refl) in
              inr (b', go ∙ q, edit, edit.result ∙ splice-middle old s old_valid new)
        ]
  ]
