-- ===== src/Text/Place.antt =====
-- `text_char_to_byte` of src/text.c.
use cpymacs.Base.{List, [], if◌then◌else◌, leb, ltb, ℕ, ◌+◌, ◌-◌, ◌==◌, ◌∷◌}
use cpymacs.Text.Edit.{Text}
use cpymacs.Text.Piece.{Piece, Stores, data_of, is_char, nb, nc, null, piece}

-- the loop over the bytes of a piece: the offset of the character ch, or the end
unfoldable pub char_offset : List ℕ → ℕ → ℕ
char_offset [] ch = 0
char_offset (c ∷ s) ch =
    let skipped = char_offset s ch + 1 in
    let passed = char_offset s (ch - 1) + 1 in
    if is_char c then (if ch == 0 then 0 else passed) else skipped

unfoldable pub char_to_byte_from : Stores → Piece → ℕ → ℕ → ℕ
char_to_byte_from m null ch off = off
char_to_byte_from m (piece l f r) ch off =
    let low = char_to_byte_from m l ch off in
    let ch1 = ch - nc l in
    let off1 = off + nb l in
    let high = char_to_byte_from m r (ch1 - f.chars) (off1 + f.length) in
    if ltb ch (nc l)
    then low
    else if leb ch1 f.chars
    then off1 + char_offset (data_of m f) ch1
    else high

unfoldable pub text_char_to_byte : Text → ℕ → ℕ
text_char_to_byte t ch = char_to_byte_from t.stores t.root ch 0
