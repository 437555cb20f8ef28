-- ===== src/Tests/Texts.antt =====
-- The text "aé", a newline and "b", and the theorems about texts on it.
use cpymacs.Base.{
  Bool, List, [], arith, count_if, drop, false, inl, refl, some, take, true, ℕ, ◌∷◌, ◌≡◌, ◌≤◌, ◌⊎◌,
}
use cpymacs.Text.Piece.{
  piece, null, data_at, is_char, is_newline, nb, nc, nl, store, Piece, merge, pieces, split,
}
use cpymacs.Utf8.{
  decode_multi, decode_tail, lead, out_of_range, utf8_decode, utf8_valid, valid_from,
}
use cpymacs.Utf8.Boundary.{boundary, utf8_valid-split}
use cpymacs.Utf8.Bytes.{is_continuation}
use cpymacs.Text.Read.{text_next, text_prev, text_slice}
use cpymacs.Text.Edit.{Text, new_cap, size_max, text_delete, text_init, text_lines, text_insert}
use cpymacs.Text.Lines.{text_byte_to_char, text_line_of, text_line_start}
use cpymacs.Text.Lines.Scan.{start_of_line}
use cpymacs.Text.Lines.Prefix.{text_byte_to_char_lem, text_line_of_lem}
use cpymacs.Text.Lines.Start.{text_line_of-text_line_start, text_line_start_lem}
use cpymacs.Text.Edit.Refine.{
  Deletes, Inserts, text_delete_refines, text_init_refines, text_insert_refines,
}
use cpymacs.Text.Edit.Byte.{content}
use cpymacs.Text.Edit.Growth.{new_cap_bounds}
use cpymacs.Text.Edit.Insert.{IsText}
use cpymacs.Text.Read.Step.{IsNext, IsPrev, text_next-IsNext, text_prev-IsPrev, text_prev-text_next}
use cpymacs.Text.Read.Slice.{text_slice_lem}
use cpymacs.Text.Piece.Split.{split-IsCut}
use cpymacs.Text.Piece.Merge.{merge-IsValid}
use cpymacs.Text.Piece.Cut.{IsCut}
use cpymacs.Text.Piece.Bytes.{IsValid, bytes}
use cpymacs.Text.Edit.Pieces.{pieces_lem}
use cpymacs.Text.Check.{text_check, text_check_lem, AllOwn, text_check-valid}

abbrev pub sample_bytes : List ℕ
sample_bytes = 97 ∷ 195 ∷ 169 ∷ 10 ∷ 98 ∷ []

abbrev pub sample : Text
sample = record {
  root =
      piece null
        (record {
          offset = 0;
          length = 5;
          newlines = 1;
          chars = 4;
          bytes_sum = 5;
          lines_sum = 1;
          chars_sum = 4;
          priority = 7;
          source = 0;
        })
        null;
  stores = record { original = sample_bytes; added = [] };
  added_cap = 0;
  random = 7;
}

sample-content : content sample ≡ sample_bytes
unfolding data_at
sample-content = refl

pub sample-valid : utf8_valid sample_bytes ≡ true
unfolding utf8_valid valid_from utf8_decode lead decode_multi decode_tail out_of_range
    is_continuation
sample-valid = refl

pub sample-IsText : IsText sample
unfolding data_at store nb nl nc is_continuation
sample-IsText = record {
  tree = (
    record { within = omega arith; newlines = refl; chars = refl },
    record { bytes_sum = refl; lines_sum = refl; chars_sum = refl; left_le = tt; right_le = tt },
    tt,
    tt,
  );
  room = inl refl;
  small = omega arith;
  utf8 = sample-valid;
}

text_insert_refines_example :
    (out : Bool × Text) × (text_insert sample 1 (98 ∷ []) ≡ some out)
    × Inserts sample 1 (98 ∷ []) out
text_insert_refines_example = text_insert_refines sample 1 (98 ∷ []) sample-IsText

text_delete_refines_example : Deletes sample 1 2 (text_delete sample 1 2)
text_delete_refines_example = text_delete_refines sample 1 2 sample-IsText

text_init_refines_example :
    (t : Text) × (text_init sample_bytes ≡ some t) × IsText t × (content t ≡ sample_bytes)
text_init_refines_example = text_init_refines sample_bytes sample-valid

text_slice_example : text_slice sample 1 9 ≡ take 9 (drop 1 (content sample))
text_slice_example = text_slice_lem sample 1 9 sample-IsText

text_next_example : IsNext (content sample) 1 (text_next sample 1)
unfolding data_at
text_next_example = text_next-IsNext sample 1 sample-IsText (omega arith)

text_prev_example : IsPrev (content sample) 3 (text_prev sample 3)
unfolding data_at
text_prev_example = text_prev-IsPrev sample 3 sample-IsText (omega arith) (omega arith)

text_prev-text_next_example : text_prev sample (text_next sample 1) ≡ 1
unfolding boundary data_at is_continuation
text_prev-text_next_example = text_prev-text_next sample 1 sample-IsText refl (omega arith)

text_line_of_example : text_line_of sample 4 ≡ count_if is_newline (take 4 (content sample))
text_line_of_example = text_line_of_lem sample 4 sample-IsText

text_byte_to_char_example : text_byte_to_char sample 3 ≡ count_if is_char (take 3 (content sample))
text_byte_to_char_example = text_byte_to_char_lem sample 3 sample-IsText

text_line_start_example : text_line_start sample 1 ≡ start_of_line 1 (content sample)
text_line_start_example = text_line_start_lem sample 1 sample-IsText (omega arith)

text_line_of-text_line_start_example : text_line_of sample (text_line_start sample 1) ≡ 1
unfolding text_lines nl
text_line_of-text_line_start_example =
    text_line_of-text_line_start sample 1 sample-IsText (omega arith) (omega arith)

new_cap_bounds_example : (5 ≤ new_cap 0 5) × (new_cap 0 5 ≤ size_max) × (0 ≤ new_cap 0 5)
new_cap_bounds_example = new_cap_bounds 0 5 (omega arith) (omega arith)

utf8_valid-split_example :
    (utf8_valid (take 3 sample_bytes) ≡ true) × (utf8_valid (drop 3 sample_bytes) ≡ true)
unfolding boundary is_continuation
utf8_valid-split_example = utf8_valid-split sample_bytes 3 sample-valid refl

split_example :
    let s = split sample.stores 7 sample.root 2 in IsCut sample.stores sample.root 2 s.0 s.1
split_example = split-IsCut sample.stores 7 sample.root 2 sample-IsText.tree

merge_example : IsValid sample.stores (merge sample.root sample.root)
merge_example =
    merge-IsValid sample.stores sample.root sample.root sample-IsText.tree sample-IsText.tree

pieces_example :
    (out : Piece × ℕ) × (pieces sample.stores 7 0 0 5 ≡ some out)
    × IsValid sample.stores out.0
    × (bytes sample.stores out.0 ≡ data_at sample.stores 0 0 5)
unfolding data_at store
pieces_example = pieces_lem sample.stores 7 0 0 5 (omega arith) sample-valid

sample-text_check : text_check sample ≡ true
sample-text_check = text_check-valid sample sample-IsText

text_check_example :
    ((text_check sample ≡ true) × AllOwn sample.stores sample.root)
    ⊎ ((text_check sample ≡ false) × (¬ AllOwn sample.stores sample.root))
text_check_example = text_check_lem sample
