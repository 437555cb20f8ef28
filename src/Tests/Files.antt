-- ===== src/Tests/Files.antt =====
-- A file with CR LF line ends, written to a stream that is a list.
use cpymacs.Base.{List, [], false, inr, none, refl, some, starts_with, true, ℕ, ◌++◌, ◌∷◌, ◌≡◌, ◌⊎◌}
use cpymacs.File.{Decoded, decode_file, decode_text, line_ends, without_cr, write_file}
use cpymacs.Utf8.{utf8_decode, utf8_valid, valid_from}
use cpymacs.File.Roundtrip.{write_file-decode_file}
use cpymacs.Text.Edit.{Text, text_init}
use cpymacs.Text.Write.{IsAppending, Stream, Writes}
use cpymacs.Text.Edit.Insert.{IsText}

abbrev memory : Stream
memory = record {
  File = List ℕ;
  fwrite = λ f s. some (f ++ s);
  fputc = λ f c. some (f ++ (c ∷ []));
}

memory-IsAppending : IsAppending memory
memory-IsAppending = record {
  written = λ f. f;
  fwrite_lem = λ f s. inr (f ++ s, refl, refl);
  fputc_lem = λ f c. inr (f ++ (c ∷ []), refl, refl);
}

abbrev dos_file : List ℕ
dos_file = 97 ∷ 13 ∷ 10 ∷ 98 ∷ 13 ∷ 10 ∷ []

dos_decoded :
    decode_file dos_file ≡ some (record { bom = false; crlf = true; text = 97 ∷ 10 ∷ 98 ∷ 10 ∷ [] })
unfolding decode_file decode_text line_ends without_cr utf8_valid valid_from utf8_decode starts_with
dos_decoded = refl

write_file-decode_file_example :
    (decode_file dos_file ≡ none)
    ⊎ ((d : Decoded) × (t : Text) × (decode_file dos_file ≡ some d)
        × (text_init d.text ≡ some t)
        × IsText t
        × Writes memory memory-IsAppending (write_file memory d.bom d.crlf t []) [] dos_file)
write_file-decode_file_example = write_file-decode_file memory memory-IsAppending dos_file []
