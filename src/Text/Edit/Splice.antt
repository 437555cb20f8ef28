-- ===== src/Text/Edit/Splice.antt =====
-- Replacing a range of a list of bytes, as `text_delete` and `text_insert` of src/text.c do together:
-- what undoes it, and where its boundaries are.
use cpymacs.Base.{
  Bool-cases, List, ap, ap₂, arith, drop, drop-append_ge, drop-drop, false, get_or, get_or-drop,
  inl, inr, length, length-append, length-drop, length-take, sym, take, take-append-drop,
  take-append_le, take_all, true, ℕ, ◌++◌, ◌+◌, ◌-◌, ◌<◌, ◌==◌, ◌∙◌, ◌≡◌, ◌≤◌,
}
use cpymacs.Utf8.Boundary.{boundary, boundary-le, head_Chars, utf8_valid-append, utf8_valid-split}
use cpymacs.Utf8.{utf8_valid}
use cpymacs.Utf8.Valid.{utf8_valid-Chars}
use cpymacs.Utf8.Bytes.{is_continuation}
use cpymacs.Text.Edit.Insert.{splice}

-- A place with valid text behind it is a boundary.
pub boundary_of_valid :
    (s : List ℕ) (at : ℕ) → at ≤ length s → utf8_valid (drop at s) ≡ true → boundary s at ≡ true
unfolding boundary
boundary_of_valid s at h u =
    let first = head_Chars (utf8_valid-Chars (drop at s) u) in
    let same = get_or-drop at 0 s 0 in
    let same' : get_or s (at + 0) 0 ≡ get_or s at 0 = ap (λ k. get_or s k 0) (omega arith) in
    let size = length-drop at s in
    elim (Bool-cases (at == length s)) [
      | inl e ↦ ground arith
      | inr e ↦
          let pos : 0 < length (drop at s) = ground arith in
          let head : is_continuation (get_or s at 0) ≡ false =
            ap is_continuation (sym (same ∙ same')) ∙ first pos in
          ground arith
    ]

module _ (c : List ℕ) (at count : ℕ) (s : List ℕ) (within : at + count ≤ length c) where
  at_size : length (take at c) ≡ at
  at_size = omega (arith, length-take at c)

  pub length-splice : length (splice c at count s) ≡ length c - count + length s
  length-splice = omega (
    arith,
    at_size,
    length-append (take at c) (s ++ drop (at + count) c),
    length-append s (drop (at + count) c),
    length-drop (at + count) c,
  )

  -- the parts of the new text
  pub take-splice : take at (splice c at count s) ≡ take at c
  take-splice =
      take-append_le at (take at c) (s ++ drop (at + count) c) (omega (arith, at_size))
      ∙ take_all at (take at c) (omega (arith, at_size))

  pub drop-splice_start : drop at (splice c at count s) ≡ s ++ drop (at + count) c
  drop-splice_start =
      drop-append_ge at (take at c) (s ++ drop (at + count) c) (omega (arith, at_size))
      ∙ ap (λ k. drop k (s ++ drop (at + count) c)) {y = 0} (omega (arith, at_size))

  pub drop-splice_end : drop (at + length s) (splice c at count s) ≡ drop (at + count) c
  drop-splice_end =
      sym (drop-drop at (length s) (splice c at count s))
      ∙ ap (drop (length s)) drop-splice_start
      ∙ drop-append_ge (length s) s (drop (at + count) c) (omega arith)
      ∙ ap (λ k. drop k (drop (at + count) c)) {y = 0} (omega arith)

  -- Putting the removed bytes back gives the old text.
  pub splice-splice : splice (splice c at count s) at (length s) (take count (drop at c)) ≡ c
  splice-splice =
      ap₂ (λ x y. x ++ (take count (drop at c) ++ y)) take-splice
        (drop-splice_end ∙ sym (drop-drop at count c))
      ∙ ap (take at c ++◌) (take-append-drop count (drop at c))
      ∙ take-append-drop at c

  -- the bytes put in are the ones now there
  pub take-drop-splice : take (length s) (drop at (splice c at count s)) ≡ s
  take-drop-splice =
      ap (take (length s)) drop-splice_start
      ∙ take-append_le (length s) s (drop (at + count) c) (omega arith)
      ∙ take_all (length s) s (omega arith)

module _ (c : List ℕ) (at count : ℕ) (s : List ℕ) (valid : utf8_valid c ≡ true)
    (new : utf8_valid s ≡ true) (start : boundary c at ≡ true)
    (end : boundary c (at + count) ≡ true) where
  inside : at + count ≤ length c
  inside = boundary-le c (at + count) end

  pub boundary-splice_start : boundary (splice c at count s) at ≡ true
  boundary-splice_start =
      boundary_of_valid (splice c at count s) at
        (omega (arith, length-splice c at count s inside, inside))
        (ap utf8_valid (drop-splice_start c at count s inside)
          ∙ utf8_valid-append s (drop (at + count) c) new
              (utf8_valid-split c (at + count) valid end).1)

  pub boundary-splice_end : boundary (splice c at count s) (at + length s) ≡ true
  boundary-splice_end =
      boundary_of_valid (splice c at count s) (at + length s)
        (omega (arith, length-splice c at count s inside, inside))
        (ap utf8_valid (drop-splice_end c at count s inside)
          ∙ (utf8_valid-split c (at + count) valid end).1)

  -- The removed bytes are valid text.
  pub removed-utf8_valid : utf8_valid (take count (drop at c)) ≡ true
  removed-utf8_valid =
      (utf8_valid-split (drop at c) count (utf8_valid-split c at valid start).1 (
        boundary_of_valid (drop at c) count (omega (arith, length-drop at c, inside))
          (ap utf8_valid (drop-drop at count c) ∙ (utf8_valid-split c (at + count) valid end).1))).0
