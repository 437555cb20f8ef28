-- ===== src/Text/Read/Slice.antt =====
-- `copy_range`, `text_copy` and `text_slice` of src/text.c copy ranges of the text.
use cpymacs.Base.{
  ==→eq, Bool, Bool-cases, List, [], ap, ap₂, arith, drop, false, if◌then◌else◌, inl, inr, leb,
  length, ltb, not, refl, sym, take, tests, true, ℕ, ◌&&◌, ◌++◌, ◌+◌, ◌-◌, ◌==◌, ◌∙◌, ◌≡◌, ◌≤◌,
}
use cpymacs.Text.Piece.{piece, null, Fields, Piece, Stores, data_at, data_of, nb}
use cpymacs.Text.Read.{copy_range, from_left, from_own, own_start, text_copy, text_slice}
use cpymacs.Text.Edit.{Text, text_size}
use cpymacs.Text.Piece.Bytes.{
  IsValid, bytes, data_at-drop, data_at-take, length-data_of, nb-eq-length,
}
use cpymacs.Text.Edit.Byte.{content, text_size_lem}
use cpymacs.Text.Edit.Insert.{IsText}
use cpymacs.Text.Read.Copy.{
  left_part, own_part, range, range-append, range_min, range_none, range_past, right_part,
}

-- a range of the piece's own bytes, read from the store
own_range :
    (m : Stores) (f : Fields) (k n : ℕ)
    → k + n ≤ f.length
    → data_at m f.source (f.offset + k) n ≡ range k n (data_of m f)
own_range m f k n h =
    data_at-take m f.source (f.offset + k) (f.length - k) n (omega arith)
    ∙ ap (take n) (data_at-drop m f.source f.offset f.length k)

own_fits :
    (left len at n : ℕ)
    → (not (n == 0) && ltb at (left + len)) ≡ true
    → own_start left at + from_own left len at n ≤ len
own_fits left len at n h = ground arith

-- A test under which two values are equal.
if_same {ℓ} :
    {A : Type ℓ} (b : Bool) (z : A) {x y : A}
    → (b ≡ true → x ≡ y)
    → (if b then x else z) ≡ (if b then y else z)
if_same true z h = h refl
if_same false z h = refl

-- the range of a node's bytes, in its three parts
range_node :
    (at n left len : ℕ) (a d r : List ℕ)
    → left ≡ length a
    → len ≡ length d
    → range at n (a ++ (d ++ r))
      ≡ range at n a
        ++ (range (at - left) (n - (left - at)) d
            ++ range (at - left - len) (n - (left - at) - (len - (at - left))) r)
range_node at n left len a d r e h =
    rw (e, h)
      (range-append at n a (d ++ r)
        ∙ ap (range at n a ++◌) (range-append (at - length a) (n - (length a - at)) d r))

module _ (m : Stores) (l : Piece) (f : Fields) (r : Piece) (at n : ℕ)
    (v : IsValid m (piece l f r)) where
  size_left : nb l ≡ length (bytes m l)
  size_left = nb-eq-length m l v.2

  size_own : f.length ≡ length (data_of m f)
  size_own = sym (length-data_of m f v.0)

  own_copied :
      let at1 = at + from_left (nb l) at n in
      let n1 = n - from_left (nb l) at n in
      (if not (n1 == 0) && ltb at1 (nb l + f.length)
        then data_at m f.source (f.offset + own_start (nb l) at1) (from_own (nb l) f.length at1 n1)
        else [])
      ≡ range (at - nb l) (n - (nb l - at)) (data_of m f)
  own_copied =
      let at1 = at + from_left (nb l) at n in
      let n1 = n - from_left (nb l) at n in
      if_same (not (n1 == 0) && ltb at1 (nb l + f.length)) [] (λ h.
        own_range m f (own_start (nb l) at1) (from_own (nb l) f.length at1 n1)
          (own_fits (nb l) f.length at1 n1 h))
      ∙ ap
          (λ k.
            if not (n1 == 0) && ltb at1 (nb l + k)
            then range (own_start (nb l) at1) (from_own (nb l) k at1 n1) (data_of m f)
            else [])
          size_own
      ∙ own_part (nb l) at n (data_of m f)

  rest_copied :
      ((i k : ℕ) → copy_range m r i k ≡ range i k (bytes m r))
      → let at1 = at + from_left (nb l) at n in
        let n1 = n - from_left (nb l) at n in
        let own = from_own (nb l) f.length at1 n1 in
        (if n1 - own == 0 then [] else copy_range m r (at1 + own - nb l - f.length) (n1 - own))
        ≡ range (at - nb l - f.length) (n - (nb l - at) - (f.length - (at - nb l))) (bytes m r)
  rest_copied high =
      let at1 = at + from_left (nb l) at n in
      let n1 = n - from_left (nb l) at n in
      let own = from_own (nb l) f.length at1 n1 in
      ap (λ x. if n1 - own == 0 then [] else x) (high (at1 + own - nb l - f.length) (n1 - own))
      ∙ right_part (nb l) f.length at n (bytes m r)

  copy_node :
      copy_range m l at (from_left (nb l) at n) ≡ range at (from_left (nb l) at n) (bytes m l)
      → ((i k : ℕ) → copy_range m r i k ≡ range i k (bytes m r))
      → copy_range m (piece l f r) at n ≡ range at n (bytes m (piece l f r))
  unfolding copy_range
  copy_node low high = elim (Bool-cases (n == 0)) [
    | inl h ↦
        rw h (sym (range_none at n (bytes m l ++ (data_of m f ++ bytes m r)) (inl (==→eq n 0 h))))
    | inr h ↦ rw h (
        ap₂ ◌++◌
          (ap (λ x. if ltb at (nb l) then x else []) low
            ∙ ap (λ k. if ltb at k then range at (from_left k at n) (bytes m l) else []) size_left
            ∙ left_part at n (bytes m l))
          (ap₂ ◌++◌ own_copied (rest_copied high))
        ∙ sym (
            range_node at n (nb l) f.length (bytes m l) (data_of m f) (bytes m r) size_left
              size_own))
  ]

-- `copy_range` copies the range of the tree's bytes, as far as there are any.
pub copy_range_lem :
    (m : Stores) (p : Piece) (at n : ℕ) → IsValid m p → copy_range m p at n ≡ range at n (bytes m p)
unfolding copy_range
copy_range_lem m null at n v = sym (range_past at n [] (omega arith))
copy_range_lem m (piece l f r) at n v =
    copy_node m l f r at n v (copy_range_lem m l at (from_left (nb l) at n) v.2)
      (λ i k. copy_range_lem m r i k v.3)

pub text_copy_lem :
    (t : Text) (at n : ℕ) → IsText t → at ≤ text_size t → text_copy t at n ≡ range at n (content t)
unfolding text_copy
text_copy_lem t at n v h =
    let inside : leb at (text_size t) ≡ true = ground arith in
    rw inside (
      copy_range_lem t.stores t.root at (if ltb (text_size t - at) n then text_size t - at else n)
        v.tree
      ∙ range_min at n (text_size t - at) (content t) (omega (arith, text_size_lem t v.tree)))

-- `text_slice` gives the bytes of a range of a valid text, cut at the end of the text.
pub text_slice_lem :
    (t : Text) (at n : ℕ) → IsText t → text_slice t at n ≡ take n (drop at (content t))
unfolding text_slice
text_slice_lem t at n v = elim (Bool-cases (ltb (text_size t) at)) [
  | inl h ↦ rw h (
      text_copy_lem t (text_size t) _ v (omega arith)
      ∙ range_past (text_size t) _ (content t) (omega (arith, text_size_lem t v.tree))
      ∙ sym (range_past at n (content t) (omega (tests, text_size_lem t v.tree))))
  | inr h ↦ rw h (
      text_copy_lem t at (if ltb (text_size t - at) n then text_size t - at else n) v (omega tests)
      ∙ range_min at n (text_size t - at) (content t) (omega (arith, text_size_lem t v.tree)))
]
