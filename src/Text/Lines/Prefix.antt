-- ===== src/Text/Lines/Prefix.antt =====
-- `text_line_of` and `text_byte_to_char` of src/text.c count in front of an offset.
use cpymacs.Base.{
  Bool, Bool-cases, List, [], ap, arith, count_if, count_if-append, false, inl, inr, leb, length,
  ltb, sym, take, take-append_ge, take-append_le, take_all, tests, true, ℕ, ◌++◌, ◌+◌, ◌-◌, ◌∙◌,
  ◌≡◌, ◌≤◌, ◌⊎◌,
}
use cpymacs.Text.Piece.{
  piece, null, Fields, Piece, Stores, data_at, data_of, is_char, is_newline, nb,
}
use cpymacs.Text.Edit.{Text}
use cpymacs.Text.Lines.{
  metric_own, metric_sum, metric_test, prefix_from, prefix_metric, text_byte_to_char, text_line_of,
}
use cpymacs.Text.Piece.Bytes.{
  IsPiece, IsValid, bytes, data_at-take, length-data_of, nb-eq-length, nc-eq-count, nl-eq-count,
}
use cpymacs.Text.Edit.Byte.{content}
use cpymacs.Text.Edit.Insert.{IsText}

metric_sum_lem :
    (m : Stores) (chars : Bool) (p : Piece)
    → IsValid m p
    → metric_sum chars p ≡ count_if (metric_test chars) (bytes m p)
metric_sum_lem m true p v = nc-eq-count m p v
metric_sum_lem m false p v = nl-eq-count m p v

metric_own_lem :
    (m : Stores) (chars : Bool) (f : Fields)
    → IsPiece m f
    → metric_own chars f ≡ count_if (metric_test chars) (data_of m f)
metric_own_lem m true f v = v.chars
metric_own_lem m false f v = v.newlines

-- The counts in front of a place in three lists joined, by the part in which it lies.
module _ (p : ℕ → Bool) (a d r : List ℕ) (at : ℕ) where
  count_left : at ≤ length a → count_if p (take at (a ++ (d ++ r))) ≡ count_if p (take at a)
  count_left h = ap (count_if p) (take-append_le at a (d ++ r) h)

  count_middle :
      length a ≤ at
      → at - length a ≤ length d
      → count_if p (take at (a ++ (d ++ r))) ≡ count_if p a + count_if p (take (at - length a) d)
  count_middle h k =
      ap (count_if p)
        (take-append_ge at a (d ++ r) h ∙ ap (a ++◌) (take-append_le (at - length a) d r k))
      ∙ count_if-append p a (take (at - length a) d)

  count_right :
      length a ≤ at
      → length d ≤ at - length a
      → count_if p (take at (a ++ (d ++ r)))
        ≡ count_if p a + (count_if p d + count_if p (take (at - length a - length d) r))
  count_right h k =
      ap (count_if p)
        (take-append_ge at a (d ++ r) h ∙ ap (a ++◌) (take-append_ge (at - length a) d r k))
      ∙ count_if-append p a (d ++ take (at - length a - length d) r)
      ∙ ap (count_if p a +◌) (count_if-append p d (take (at - length a - length d) r))

prefix_from_lem :
    (m : Stores) (chars : Bool) (p : Piece) (at result : ℕ)
    → IsValid m p
    → prefix_from m chars p at result ≡ result + count_if (metric_test chars) (take at (bytes m p))
unfolding prefix_from
prefix_from_lem m chars null at result v =
    omega (arith, ap (count_if (metric_test chars)) (take_all at [] (omega arith)))
prefix_from_lem m chars (piece l f r) at result (v, b, vl, vr) =
    go (nb-eq-length m l vl) (length-data_of m f v) (metric_sum_lem m chars l vl)
      (metric_own_lem m chars f v) (Bool-cases (ltb at (nb l)))
      (Bool-cases (leb (at - nb l) f.length)) (prefix_from_lem m chars l at result vl)
      (prefix_from_lem m chars r (at - nb l - f.length)
        (result + metric_sum chars l + metric_own chars f) vr)
  where
    test : ℕ → Bool
    test = metric_test chars

    go :
        nb l ≡ length (bytes m l)
        → length (data_of m f) ≡ f.length
        → metric_sum chars l ≡ count_if test (bytes m l)
        → metric_own chars f ≡ count_if test (data_of m f)
        → (ltb at (nb l) ≡ true) ⊎ (ltb at (nb l) ≡ false)
        → (leb (at - nb l) f.length ≡ true) ⊎ (leb (at - nb l) f.length ≡ false)
        → prefix_from m chars l at result ≡ result + count_if test (take at (bytes m l))
        → prefix_from m chars r
            (at - nb l - f.length)
            (result + metric_sum chars l + metric_own chars f)
          ≡ result
            + metric_sum chars l
            + metric_own chars f
            + count_if test (take (at - nb l - f.length) (bytes m r))
        → prefix_from m chars (piece l f r) at result
          ≡ result + count_if test (take at (bytes m (piece l f r)))
    go sl sd cl cd (inl e) _ low _ = rw e (
        low
        ∙ ap (result +◌)
            (sym (count_left test (bytes m l) (data_of m f) (bytes m r) at (omega tests))))
    go sl sd cl cd (inr e) (inl h) _ _ =
        let mid =
          count_middle test (bytes m l) (data_of m f) (bytes m r) at (omega tests) (omega tests) in
        let own = data_at-take m f.source f.offset f.length (at - nb l) (omega tests) in
        let own' : count_if test (data_at m f.source f.offset (at - nb l))
            ≡ count_if test (take (at - length (bytes m l)) (data_of m f)) =
          ap (count_if test) own ∙ ap (λ k. count_if test (take (at - k) (data_of m f))) sl in
        rw (e, h) (omega (arith, mid, own', cl))
    go sl sd cl cd (inr e) (inr h) _ high =
        let far =
          count_right test (bytes m l) (data_of m f) (bytes m r) at (omega tests) (omega tests) in
        let same : count_if test (take (at - nb l - f.length) (bytes m r))
            ≡ count_if test (take (at - length (bytes m l) - length (data_of m f)) (bytes m r)) =
          ap (λ k. count_if test (take k (bytes m r))) (omega arith) in
        rw (e, h) (omega (arith, high, far, same, cl, cd))

-- `text_line_of` counts the newlines in front of an offset of a valid text.
pub text_line_of_lem :
    (t : Text) (at : ℕ) → IsText t → text_line_of t at ≡ count_if is_newline (take at (content t))
unfolding text_line_of prefix_metric
text_line_of_lem t at v = prefix_from_lem t.stores false t.root at 0 v.tree ∙ omega arith

-- `text_byte_to_char` counts the bytes in front of an offset that start a character, in a valid text.
pub text_byte_to_char_lem :
    (t : Text) (at : ℕ) → IsText t → text_byte_to_char t at ≡ count_if is_char (take at (content t))
unfolding text_byte_to_char prefix_metric
text_byte_to_char_lem t at v = prefix_from_lem t.stores true t.root at 0 v.tree ∙ omega arith
