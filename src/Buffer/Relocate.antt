-- ===== src/Buffer/Relocate.antt =====
-- `relocate` of src/buffer.c: where a point or a mark goes in an edited text.
use cpymacs.Base.{
  ==→eq, Bool, Bool-cases, List, and_true, ap, arith, drop, drop-drop, get_or-append_lt,
  get_or-take, inl, inr, leb, leb→lt, length, length-take, ltb, ltb→lt, not, sym, take, true, ℕ,
  ◌&&◌, ◌++◌, ◌+◌, ◌-◌, ◌<◌, ◌==◌, ◌∙◌, ◌≡◌, ◌≤◌,
}
use cpymacs.Buffer.{relocate}
use cpymacs.Utf8.{utf8_valid}
use cpymacs.Utf8.Boundary.{boundary, boundary-le, utf8_valid-split}
use cpymacs.Text.Edit.Insert.{splice}
use cpymacs.Text.Edit.Splice.{
  boundary_of_valid, drop-splice_end, length-splice, boundary-splice_end, boundary-splice_start,
}

module _ (c : List ℕ) (at count : ℕ) (s : List ℕ) (valid : utf8_valid c ≡ true)
    (new : utf8_valid s ≡ true) (start : boundary c at ≡ true)
    (end : boundary c (at + count) ≡ true) where
  all_in : at + count ≤ length c
  all_in = boundary-le c (at + count) end

  -- a boundary before the range stays one
  boundary_before : (p : ℕ) → p < at → boundary c p ≡ true → boundary (splice c at count s) p ≡ true
  unfolding boundary
  boundary_before p l b =
      let size = length-splice c at count s all_in in
      let part : length (take at c) ≡ at = omega (arith, all_in, length-take at c) in
      let same =
        get_or-append_lt (take at c) (s ++ drop (at + count) c) p 0 (omega (arith, part, l))
        ∙ get_or-take at p c 0 l in
      let inside : p < length (splice c at count s) = omega (arith, size, all_in, l) in
      let inside' : p < length c = omega (arith, all_in, l) in
      rw same (ground (arith, b, inside, inside'))

  boundary_behind :
      (p : ℕ)
      → at + count < p
      → boundary c p ≡ true
      → boundary (splice c at count s) (p - count + length s) ≡ true
  boundary_behind p l b =
      let size = length-splice c at count s all_in in
      let top = boundary-le c p b in
      let rest : drop (p - count + length s) (splice c at count s) ≡ drop p c =
        ap (λ k. drop k (splice c at count s)) {x = p - count + length s}
          {y = at + length s + (p - (at + count))} (omega (arith, l))
        ∙ sym (drop-drop (at + length s) (p - (at + count)) (splice c at count s))
        ∙ ap (drop (p - (at + count))) (drop-splice_end c at count s all_in)
        ∙ drop-drop (at + count) (p - (at + count)) c
        ∙ ap (λ k. drop k c) {x = at + count + (p - (at + count))} {y = p} (omega (arith, l)) in
      boundary_of_valid (splice c at count s) (p - count + length s) (omega (arith, size, top, l))
        (ap utf8_valid rest ∙ (utf8_valid-split c p valid b).1)

  -- In a valid text whose range between two boundaries is replaced by valid bytes, a point at a
  -- boundary is moved to a boundary of the new text, whichever side it keeps to.
  pub relocate-boundary :
      (p : ℕ) (right : Bool)
      → boundary c p ≡ true
      → boundary (splice c at count s) (relocate p at count (length s) right) ≡ true
  unfolding relocate
  relocate-boundary p right b = elim (Bool-cases (ltb p at)) [
    | inl e ↦ rw e (boundary_before p (ltb→lt p at e) b)
    | inr e ↦ elim (Bool-cases (p == at && not right)) [
      | inl z ↦
          rw (e, z)
            (ap (boundary (splice c at count s)) (==→eq p at (and_true (p == at) (not right) z).0)
              ∙ boundary-splice_start c at count s valid new start end)
      | inr z ↦ elim (Bool-cases (leb p (at + count))) [
        | inl x ↦ rw (e, z, x) (boundary-splice_end c at count s valid new start end)
        | inr x ↦ rw (e, z, x) (boundary_behind p (leb→lt p (at + count) x) b)
      ]
    ]
  ]
