-- ===== src/File/Roundtrip.antt =====
-- Opening a file and saving its buffer gives back the bytes of the file.
use cpymacs.Base.{
  ==→eq, Bool, Bool-cases, List, Name, [], and_true, ap, append-nil, ap₂, arith, drop, false,
  if◌then◌else◌, inl, inr, length, none, not, refl, some, starts_with, subst, sym, true, ℕ, ◌&&◌,
  ◌++◌, ◌==◌, ◌∙◌, ◌∷◌, ◌≡◌, ◌⊎◌,
}
use cpymacs.File.{line_ends, without_cr, Decoded, bom_bytes, decode_file, decode_text, write_file}
use cpymacs.Text.Write.{
  encoded, IsAppending, Stream, Writes, Writes-then, text_write, text_write-Writes,
}
use cpymacs.Utf8.{utf8_valid}
use cpymacs.Utf8.Valid.{Chars-utf8_valid, utf8_valid-Chars}
use cpymacs.Text.Edit.{Text, text_init}
use cpymacs.Text.Edit.Refine.{text_init_refines}
use cpymacs.Text.Edit.Byte.{content}
use cpymacs.Text.Edit.Insert.{IsText}
use cpymacs.File.LineEnds.{with_cr-without_cr, without_cr-Chars}

starts_with-drop : (p s : Name) → starts_with p s ≡ true → p ++ drop (length p) s ≡ s
unfolding starts_with
starts_with-drop [] s h = refl
starts_with-drop (x ∷ p) [] h = cc
starts_with-drop (x ∷ p) (y ∷ s) h =
    let both = and_true (x == y) (starts_with p s) h in
    ap₂ ◌∷◌ (==→eq x y both.0) (starts_with-drop p s both.1)

-- the bytes that a decoded file stands for
abbrev pub encode_file : Decoded → List ℕ
encode_file d = (if d.bom then bom_bytes else []) ++ encoded d.crlf d.text

-- What decoding a text part gives: valid text, that is written as the part again.
record IsDecoded (bom : Bool) (s : List ℕ) (d : Decoded) : Type 0 where
  flag : d.bom ≡ bom
  valid : utf8_valid d.text ≡ true
  again : encoded d.crlf d.text ≡ s

module _ (bom : Bool) (s : List ℕ) where
  refuses_text : utf8_valid s ≡ false → decode_text bom s ≡ none
  unfolding decode_text
  refuses_text u = rw u refl

  decodes_crlf :
      utf8_valid s ≡ true
      → ((line_ends false s).0 && not (line_ends false s).1) ≡ true
      → decode_text bom s ≡ some (record { bom = bom; crlf = true; text = without_cr s })
  unfolding decode_text
  decodes_crlf u e = rw (u, e) refl

  decodes_plain :
      utf8_valid s ≡ true
      → ((line_ends false s).0 && not (line_ends false s).1) ≡ false
      → decode_text bom s ≡ some (record { bom = bom; crlf = false; text = s })
  unfolding decode_text
  decodes_plain u e = rw (u, e) refl

  -- A text part is refused if it is not valid, and else decoded.
  abbrev Outcome : Type 0
  Outcome =
      ((decode_text bom s ≡ none) × (utf8_valid s ≡ false))
      ⊎ ((d : Decoded) × (decode_text bom s ≡ some d) × IsDecoded bom s d)

  decode_text_lem : Outcome
  decode_text_lem = elim (Bool-cases (utf8_valid s)) [
    | inr u ↦ inl (refuses_text u, u)
    | inl u ↦ elim (Bool-cases ((line_ends false s).0 && not (line_ends false s).1)) [
      | inl e ↦
          let clean : (line_ends false s).1 ≡ false = ground arith in
          inr (
            record { bom = bom; crlf = true; text = without_cr s },
            decodes_crlf u e,
            record {
              flag = refl;
              valid = Chars-utf8_valid (without_cr-Chars (utf8_valid-Chars s u));
              again = with_cr-without_cr s clean;
            },
          )
      | inr e ↦ inr (
        record { bom = bom; crlf = false; text = s },
        decodes_plain u e,
        record { flag = refl; valid = u; again = refl },
      )
    ]
  ]

-- Every file is refused, or decoded to valid text whose encoding is the file.
pub decode_file_lem :
    (s : List ℕ)
    → (decode_file s ≡ none)
      ⊎ ((d : Decoded) × (decode_file s ≡ some d)
          × (utf8_valid d.text ≡ true)
          × (encode_file d ≡ s))
unfolding decode_file
decode_file_lem s = elim (Bool-cases (starts_with bom_bytes s)) [
  | inl e ↦ elim (decode_text_lem true (drop 3 s)) [
    | inl n ↦ inl (rw e n.0)
    | inr (d, p, i) ↦ inr (
      d,
      rw e p,
      i.valid,
      rw i.flag (ap (bom_bytes ++◌) i.again ∙ starts_with-drop bom_bytes s e),
    )
  ]
  | inr e ↦ elim (decode_text_lem false s) [
    | inl n ↦ inl (rw e n.0)
    | inr (d, p, i) ↦ inr (d, rw e p, i.valid, rw i.flag i.again)
  ]
]

module _ (K : Stream) (A : IsAppending K) where
  -- `write_file` fails with its stream, or writes the encoding.
  write_file-Writes :
      (bom crlf : Bool) (t : Text) (f : K.File)
      → Writes K A
          (write_file K bom crlf t f)
          f
          ((if bom then bom_bytes else []) ++ encoded crlf (content t))
  unfolding write_file
  write_file-Writes bom crlf t f =
      Writes-then K A (if bom then K.fwrite f bom_bytes else some f) f
        (if bom then bom_bytes else []) (encoded crlf (content t)) (λ g. text_write K t g crlf)
        (mark bom) (λ g. text_write-Writes K A t g crlf)
    where
      mark :
          (b : Bool)
          → Writes K A (if b then K.fwrite f bom_bytes else some f) f (if b then bom_bytes else [])
      mark true = A.fwrite_lem f bom_bytes
      mark false = inr (f, refl, sym (append-nil _))

  -- A file that `editor_open` takes is read into a valid text; writing the text with the flags that
  -- were read fails with the stream, or appends the bytes of the file, none changed.
  pub write_file-decode_file :
      (s : List ℕ) (f : K.File)
      → (decode_file s ≡ none)
        ⊎ ((d : Decoded) × (t : Text) × (decode_file s ≡ some d)
            × (text_init d.text ≡ some t)
            × IsText t
            × Writes K A (write_file K d.bom d.crlf t f) f s)
  write_file-decode_file s f = elim (decode_file_lem s) [
    | inl n ↦ inl n
    | inr (d, e, u, again) ↦
        let (t, i, v, same) = text_init_refines d.text u in
        inr (
          d,
          t,
          e,
          i,
          v,
          subst (Writes K A (write_file K d.bom d.crlf t f) f)
              (ap (λ x. (if d.bom then bom_bytes else []) ++ encoded d.crlf x) same ∙ again)
              (write_file-Writes d.bom d.crlf t f),
        )
  ]
