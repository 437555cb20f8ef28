-- ===== src/Tests/Edits.antt =====
-- The theorems on searches, whole texts, kills and words at a concrete buffer.
use cpymacs.Base.{
  Bool, List, [], arith, false, leb, length, min, refl, some, true, ℕ, ◌&&◌, ◌∷◌, ◌≡◌, ◌⊎◌,
}
use cpymacs.Motion.{move_word}
use cpymacs.Buffer.{Buffer, Editor, Message, editor_buffer, with_message}
use cpymacs.Utf8.{utf8_decode, utf8_valid, valid_from}
use cpymacs.Tests.Buffers.{editor, no_hook, opened, opened-IsBuffer}
use cpymacs.Tests.Windows.{session}
use cpymacs.Tests.Texts.{sample-IsText}
use cpymacs.Utf8.Boundary.{boundary}
use cpymacs.Utf8.Bytes.{is_continuation}
use cpymacs.Motion.Words.{move_word_lem, IsWord, IsWordBack, Repeated}
use cpymacs.Kill.Restore.{kill_range-yank}
use cpymacs.Kill.Range.{kill_range, yank}
use cpymacs.Text.Read.{copy_range, text_copy}
use cpymacs.Text.Edit.{text_size}
use cpymacs.Text.Piece.{data_at, nb}
use cpymacs.Text.Edit.Byte.{content}
use cpymacs.Text.Edit.Insert.{splice}
use cpymacs.Buffer.History.{view}
use cpymacs.Buffer.SetText.{editor_set_text}
use cpymacs.Buffer.Find.{
  advance, editor_find, failures, fall_back, fill_pi, find_chunks, scan_chunk,
}
use cpymacs.Buffer.Undo.{negsuc, pos}
use cpymacs.Buffer.SetText.Sets.{Edits, editor_set_text_lem}
use cpymacs.Buffer.Find.Correct.{editor_find_lem}
use cpymacs.Buffer.Find.Occurs.{IsFirstFrom, IsLastTo}

editor_find_lem_example :
    IsFirstFrom
      (content opened.text)
      (195 ∷ (169 ∷ []))
      (min 0 (length (content opened.text)))
      (editor_find opened (195 ∷ (169 ∷ [])) 0 false)
    × IsLastTo
        (content opened.text)
        (195 ∷ (169 ∷ []))
        (min 0 (length (content opened.text)))
        (editor_find opened (195 ∷ (169 ∷ [])) 0 true)
editor_find_lem_example = editor_find_lem opened 0 sample-IsText (195 ∷ (169 ∷ []))

found : editor_find opened (195 ∷ (169 ∷ [])) 0 false ≡ some 1
unfolding editor_find find_chunks scan_chunk failures fill_pi advance fall_back text_size text_copy
    copy_range nb data_at
found = refl

abbrev wanted : List ℕ
wanted = 97 ∷ (120 ∷ [])

wanted-valid : utf8_valid wanted ≡ true
unfolding utf8_valid valid_from utf8_decode
wanted-valid = refl

here : editor_buffer editor ≡ some opened
unfolding editor_buffer
here = refl

editor_set_text_lem_example :
    ((m : Message) × (editor_set_text no_hook editor wanted ≡ some (true, with_message editor m))
      × (content opened.text ≡ wanted))
    ⊎ Edits no_hook (view opened) editor opened wanted here opened-IsBuffer wanted-valid
editor_set_text_lem_example =
    editor_set_text_lem no_hook (view opened) editor opened wanted here opened-IsBuffer wanted-valid
      refl (omega arith)

abbrev letters : ℕ → Bool
letters c = leb 97 c && leb c 122

move_word_lem_example :
    Repeated (IsWord opened sample-IsText letters) 1 3 (move_word letters opened 3 (pos 1))
    × Repeated (IsWordBack opened sample-IsText letters) 2 3 (move_word letters opened 3 (negsuc 1))
unfolding boundary data_at is_continuation
move_word_lem_example = move_word_lem opened sample-IsText letters 3 1 refl

kill_range-yank_example :
    (killed : Editor) × (c : Buffer) × (out : Editor) × (d : Buffer) × (kill_range no_hook editor 1
        3 false false false
      ≡ some (true, killed))
    × (editor_buffer killed ≡ some c)
    × (content c.text ≡ splice (content opened.text) 1 2 [])
    × (yank no_hook killed c (pos 1) false ≡ some (true, out))
    × (editor_buffer out ≡ some d)
    × (content d.text ≡ content opened.text)
unfolding boundary data_at is_continuation
kill_range-yank_example =
    kill_range-yank no_hook (λ d. refl) (view opened) editor opened 1 3 session here opened-IsBuffer
      refl (omega arith) refl refl (omega arith)
