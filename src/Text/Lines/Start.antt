-- ===== src/Text/Lines/Start.antt =====
-- `text_line_start` of src/text.c finds the place behind the newlines of the lines above.
use cpymacs.Base.{
  Bool-cases, List, [], ap, arith, count_if, false, inl, inr, leb, length, refl, some, suc, sym,
  take, tests, true, zero, ℕ, ◌++◌, ◌+◌, ◌-◌, ◌<◌, ◌==◌, ◌∙◌, ◌∷◌, ◌≡◌, ◌≤◌, ◌⊎◌,
}
use cpymacs.Text.Piece.{piece, null, Fields, Piece, Stores, data_of, is_newline, nb, nl}
use cpymacs.Text.Edit.{Text, size_max, sub_size, text_lines}
use cpymacs.Text.Lines.{line_start_from, scan_lines, text_line_start, text_line_of}
use cpymacs.Text.Piece.Bytes.{IsValid, bytes, length-data_of, nb-eq-length, nl-eq-count}
use cpymacs.Text.Lines.Scan.{
  scan_lines_lem, start_of_line, start_of_line-append_gt, start_of_line-append_le,
  start_of_line_past,
}
use cpymacs.Text.Edit.Byte.{content, text_size_lem}
use cpymacs.Text.Edit.Insert.{IsText}
use cpymacs.Text.Lines.Prefix.{text_line_of_lem}

module _ (m : Stores) (l : Piece) (f : Fields) (r : Piece) (line off : ℕ) where
  line_low :
      leb line (nl l) ≡ true
      → line_start_from m (piece l f r) line off ≡ line_start_from m l line off
  unfolding line_start_from
  line_low e = rw (e, line_start_from)

  line_own :
      (i : ℕ)
      → leb line (nl l) ≡ false
      → leb (line - nl l) f.newlines ≡ true
      → (scan_lines (data_of m f) 0 (line - nl l)).0 ≡ some i
      → line_start_from m (piece l f r) line off ≡ some (off + nb l + i + 1)
  unfolding line_start_from
  line_own i e h g = rw (e, h, g, line_start_from)

  line_high :
      leb line (nl l) ≡ false
      → leb (line - nl l) f.newlines ≡ false
      → line_start_from m (piece l f r) line off
        ≡ line_start_from m r (sub_size (line - nl l) f.newlines) (off + nb l + f.length)
  unfolding line_start_from
  line_high e h = rw (e, h, line_start_from) (rw h)

  module _ (v : IsValid m (piece l f r)) (b : line ≤ size_max) where
    lines_left : nl l ≡ count_if is_newline (bytes m l)
    lines_left = nl-eq-count m l v.2

    size_left : nb l ≡ length (bytes m l)
    size_left = nb-eq-length m l v.2

    start_low :
        leb line (nl l) ≡ true
        → line_start_from m l line off ≡ some (off + start_of_line line (bytes m l))
        → line_start_from m (piece l f r) line off
          ≡ some (off + start_of_line line (bytes m (piece l f r)))
    start_low e low =
        line_low e
        ∙ low
        ∙ ap (λ k. some (off + k))
            (sym (
              start_of_line-append_le line (bytes m l) (data_of m f ++ bytes m r)
                (omega (tests, lines_left))))

    start_own :
        leb line (nl l) ≡ false
        → leb (line - nl l) f.newlines ≡ true
        → line_start_from m (piece l f r) line off
          ≡ some (off + start_of_line line (bytes m (piece l f r)))
    start_own e h =
        let (i, found, at) =
          scan_lines_lem (data_of m f) 0 (line - nl l) (omega tests) (omega arith)
            (omega (tests, v.0.newlines)) in
        let gt =
          start_of_line-append_gt line (bytes m l) (data_of m f ++ bytes m r)
            (omega (tests, lines_left)) in
        let le =
          start_of_line-append_le (line - nl l) (data_of m f) (bytes m r)
            (omega (tests, v.0.newlines)) in
        let same = ap (λ k. start_of_line (line - k) (data_of m f ++ bytes m r)) lines_left in
        line_own i e h found ∙ ap some (omega (arith, at, gt, le, same, size_left))

    start_high :
        leb line (nl l) ≡ false
        → leb (line - nl l) f.newlines ≡ false
        → line_start_from m r (line - nl l - f.newlines) (off + nb l + f.length)
          ≡ some (off + nb l + f.length + start_of_line (line - nl l - f.newlines) (bytes m r))
        → line_start_from m (piece l f r) line off
          ≡ some (off + start_of_line line (bytes m (piece l f r)))
    start_high e h high =
        let less : sub_size (line - nl l) f.newlines ≡ line - nl l - f.newlines = omega tests in
        let gt =
          start_of_line-append_gt line (bytes m l) (data_of m f ++ bytes m r)
            (omega (tests, lines_left)) in
        let gt' =
          start_of_line-append_gt (line - nl l) (data_of m f) (bytes m r)
            (omega (tests, v.0.newlines)) in
        let same = ap (λ k. start_of_line (line - k) (data_of m f ++ bytes m r)) lines_left in
        let same' = ap (λ k. start_of_line (line - nl l - k) (bytes m r)) v.0.newlines in
        line_high e h
        ∙ ap (λ k. line_start_from m r k (off + nb l + f.length)) less
        ∙ high
        ∙ ap some (omega (arith, gt, gt', same, same', size_left, length-data_of m f v.0))

line_start_from_lem :
    (m : Stores) (p : Piece) (line off : ℕ)
    → IsValid m p
    → 0 < line
    → line ≤ size_max
    → line ≤ nl p
    → line_start_from m p line off ≡ some (off + start_of_line line (bytes m p))
unfolding nl
line_start_from_lem m null line off v p b h = absurd (omega arith)
line_start_from_lem m (piece l f r) line off v p b h =
    go (Bool-cases (leb line (nl l))) (Bool-cases (leb (line - nl l) f.newlines))
      (line_start_from_lem m l line off v.2 p b)
      (line_start_from_lem m r (line - nl l - f.newlines) (off + nb l + f.length) v.3)
  where
    Found : Piece → ℕ → ℕ → Type 0
    Found q k o = line_start_from m q k o ≡ some (o + start_of_line k (bytes m q))

    go :
        (leb line (nl l) ≡ true) ⊎ (leb line (nl l) ≡ false)
        → (leb (line - nl l) f.newlines ≡ true) ⊎ (leb (line - nl l) f.newlines ≡ false)
        → (line ≤ nl l → Found l line off)
        → (0 < line - nl l - f.newlines
            → line - nl l - f.newlines ≤ size_max
            → line - nl l - f.newlines ≤ nl r
            → Found r (line - nl l - f.newlines) (off + nb l + f.length))
        → Found (piece l f r) line off
    go (inl e) _ low _ = start_low m l f r line off v b e (low (omega tests))
    go (inr e) (inl g) _ _ = start_own m l f r line off v b e g
    go (inr e) (inr g) _ high =
        start_high m l f r line off v b e g
          (high (omega tests) (omega arith) (omega (arith, v.1.lines_sum)))

-- In a valid text `text_line_start` gives the place behind as many newlines as its argument says,
-- and the end of the text where there are fewer, for every line that a `size_t` holds.
pub text_line_start_lem :
    (t : Text) (line : ℕ)
    → IsText t
    → line ≤ size_max
    → text_line_start t line ≡ start_of_line line (content t)
unfolding text_line_start text_lines
text_line_start_lem t zero v b = refl
text_line_start_lem t (suc k) v b =
    let z : (suc k == 0) ≡ false = ground arith in
    elim (Bool-cases (leb (nl t.root + 1) (suc k))) [
      | inl e ↦
          rw (z, e)
            (text_size_lem t v.tree
              ∙ sym (
                  start_of_line_past (suc k) (content t)
                    (omega (tests, nl-eq-count t.stores t.root v.tree))))
      | inr e ↦
          rw
            (
              z,
              e,
              line_start_from_lem t.stores t.root (suc k) 0 v.tree (omega arith) b (omega tests),
            )
            (omega arith)
    ]

count-start_of_line :
    (k : ℕ) (s : List ℕ)
    → k ≤ count_if is_newline s
    → count_if is_newline (take (start_of_line k s) s) ≡ k
count-start_of_line zero s h = refl
count-start_of_line (suc k) [] h = absurd (omega arith)
count-start_of_line (suc k) (c ∷ s) h = elim (Bool-cases (is_newline c)) [
  | inl e ↦ rw e (omega (arith, count-start_of_line k s (ground arith)))
  | inr e ↦ rw e (omega (arith, count-start_of_line (suc k) s (ground arith)))
]

-- In a valid text the line of a line's start is that line, for every line that the text has.
pub text_line_of-text_line_start :
    (t : Text) (line : ℕ)
    → IsText t
    → line ≤ size_max
    → line < text_lines t
    → text_line_of t (text_line_start t line) ≡ line
unfolding text_lines
text_line_of-text_line_start t line v b h =
    text_line_of_lem t (text_line_start t line) v
    ∙ ap (λ k. count_if is_newline (take k (content t))) (text_line_start_lem t line v b)
    ∙ count-start_of_line line (content t) (omega (arith, nl-eq-count t.stores t.root v.tree))
