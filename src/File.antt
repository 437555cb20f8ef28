-- ===== src/File.antt =====
-- A file on the disk and the buffer that stands for it: what `editor_open` does with the bytes it read
-- and `editor_save` (src/buffer.c) writes.
pub mod LineEnds
pub mod Roundtrip
use cpymacs.Base.{
  Bool, List, Option, [], drop, false, if◌then◌else◌, none, not, some, starts_with, true, ℕ, ◌&&◌,
  ◌==◌, ◌>>=◌, ◌∷◌,
}
use cpymacs.Utf8.{utf8_valid}
use cpymacs.Text.Edit.{Text}
use cpymacs.Text.Write.{Stream, text_write}

abbrev pub bom_bytes : List ℕ
bom_bytes = 0xef ∷ 0xbb ∷ 0xbf ∷ []

-- the bytes of a file as a buffer keeps them
pub record Decoded : Type 0 where
  pub bom : Bool
  pub crlf : Bool
  pub text : List ℕ

-- The loop over the line ends: whether one follows a CR, and whether one does not. The flag says that
-- the byte before is a CR.
unfoldable pub line_ends : Bool → List ℕ → Bool × Bool
line_ends cr [] = (false, false)
line_ends cr (c ∷ s) =
    let (crlf, any_lf) = line_ends (c == b'\r') s in
    if c == b'\n' then (if cr then (true, any_lf) else (crlf, true)) else (crlf, any_lf)

abbrev pub at_newline : List ℕ → Bool
at_newline [] = false
at_newline (c ∷ s) = c == b'\n'

-- the copy that leaves out a CR in front of a newline
unfoldable pub without_cr : List ℕ → List ℕ
without_cr [] = []
without_cr (c ∷ s) =
    let rest = without_cr s in if c == b'\r' && at_newline s then rest else c ∷ rest

unfoldable pub decode_text : Bool → List ℕ → Option Decoded
decode_text bom s =
    let (crlf, any_lf) = line_ends false s in
    if not (utf8_valid s)
    then none
    else if crlf && not any_lf
    then some (record { bom = bom; crlf = true; text = without_cr s })
    else some (record { bom = bom; crlf = false; text = s })

-- What `editor_open` makes of the bytes of a file; `none` for an encoding that it refuses.
unfoldable pub decode_file : List ℕ → Option Decoded
decode_file s = if starts_with bom_bytes s then decode_text true (drop 3 s) else decode_text false s

module _ (K : Stream) where
  -- what `editor_save` writes to its temporary file
  unfoldable pub write_file : Bool → Bool → Text → K.File → Option K.File
  write_file bom crlf t f = do
    g ← (if bom then K.fwrite f bom_bytes else some f)
    text_write K t g crlf
