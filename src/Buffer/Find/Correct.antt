-- ===== src/Buffer/Find/Correct.antt =====
-- `editor_find` of src/buffer.c finds the first place from `start` on, or the last one before it.
use cpymacs.Base.{
  Bool, List, Option, [], ap, arith, drop, false, if◌then◌else◌, leb, length, ltb, min, none, refl,
  some, subst, sym, take, true, ℕ, ◌+◌, ◌-◌, ◌<◌, ◌==◌, ◌∙◌, ◌∷◌, ◌≡◌, ◌≤◌,
}
use cpymacs.Buffer.{Buffer}
use cpymacs.Text.Edit.{Text}
use cpymacs.Text.Edit.Byte.{content, text_size_lem}
use cpymacs.Text.Edit.Insert.{IsText}
use cpymacs.Buffer.Find.{editor_find, failures, find_chunks, scan_chunk}
use cpymacs.Buffer.Find.Occurs.{IsFirstFrom, IsLastTo, first_of, last_of, part, part_size}
use cpymacs.Buffer.Find.Chunks.{find_chunks_lem}
use cpymacs.Buffer.Find.Scan.{IsFirst, IsLast, Nowhere, scan_backward, scan_forward}
use cpymacs.Buffer.Find.Failure.{Fits_zero, IsLongest, failures_lem}

-- the search in the part of c from `off` to `limit`
module _ (c p : List ℕ) (off limit : ℕ) (b : limit ≤ length c) (o : off ≤ limit)
    (positive : 0 < length p) (t : Text) (v : IsText t) (same : content t ≡ c) where
  abbrev search : Bool → Option ℕ
  search backward = find_chunks (limit - off) p (failures p) backward t off limit 0 none

  start-IsLongest : IsLongest p (part c p off limit b o) 0 (length p) 0
  start-IsLongest = record {
    below = positive;
    fits = Fits_zero p (part c p off limit b o) 0;
    most = λ k l f. f.0;
  }

  nowhere : Nowhere p (part c p off limit b o) off 0
  nowhere k l f = absurd (omega (arith, l, f.0, positive))

  in_one :
      (backward : Bool)
      → search backward
        ≡ (scan_chunk p (failures p) backward (part c p off limit b o) (off + 0) 0 none).2
  in_one backward =
      find_chunks_lem p (failures p) backward (limit - off) t off limit 0 none v
        (omega (arith, b, ap length same)) (omega arith)
      ∙ ap
          (λ x. (scan_chunk p (failures p) backward (take (limit - off) (drop off x)) off 0 none).2)
          same
      ∙ ap (λ x. (scan_chunk p (failures p) backward (part c p off limit b o) x 0 none).2)
          (omega arith)

  found_first : limit ≡ length c → IsFirstFrom c p off (search false)
  found_first e =
      let (h, size) = failures_lem p positive in
      first_of c p off limit b o positive (search false) e (
        subst (IsFirst p (part c p off limit b o) off (limit - off)) (sym (in_one false)) (
          subst
            (λ x.
              IsFirst p (part c p off limit b o) off x
                (scan_chunk p (failures p) false (part c p off limit b o) (off + 0) 0 none).2)
            (omega (arith, part_size c p off limit b o))
            (scan_forward p (part c p off limit b o) off (failures p) h size
              (part c p off limit b o) 0 0 positive refl start-IsLongest nowhere)))

  found_last : off ≡ 0 → IsLastTo c p limit (search true)
  unfolding IsLast
  found_last e =
      let (h, size) = failures_lem p positive in
      last_of c p off limit b o positive (search true) e (
        subst (IsLast p (part c p off limit b o) off (limit - off)) (sym (in_one true)) (
          subst
            (λ x.
              IsLast p (part c p off limit b o) off x
                (scan_chunk p (failures p) true (part c p off limit b o) (off + 0) 0 none).2)
            (omega (arith, part_size c p off limit b o))
            (scan_backward p (part c p off limit b o) off (failures p) h size
              (part c p off limit b o) 0 0 none positive refl start-IsLongest nowhere)))

module _ (b : Buffer) (start : ℕ) (v : IsText b.text) where
  abbrev from : ℕ
  from = min start (length (content b.text))

  find_nothing :
      IsFirstFrom (content b.text) [] from (some from)
      × IsLastTo (content b.text) [] from (some from)
  unfolding IsFirstFrom IsLastTo
  find_nothing = ((omega arith, refl, λ k l g. l), (omega arith, refl, λ k l g. omega (arith, l)))

  -- In a valid text, `editor_find` forward gives the first place from `start` on at which the pattern
  -- stands, and SIZE_MAX only if it stands nowhere there; backward it gives the last place at which the
  -- pattern stands wholly before `start`, and SIZE_MAX only if there is none. A start behind the end
  -- counts as the end. This holds for the empty pattern too.
  pub editor_find_lem :
      (needle : List ℕ)
      → IsFirstFrom (content b.text) needle from (editor_find b needle start false)
        × IsLastTo (content b.text) needle from (editor_find b needle start true)
  unfolding editor_find
  editor_find_lem [] =
      let e : (if leb start (length (content b.text)) then start else length (content b.text))
          ≡ from =
        ground arith in
      rw (text_size_lem b.text v.tree) (rw e find_nothing)
  editor_find_lem (x ∷ p) =
      let c = content b.text in
      let needle = x ∷ p in
      let at = if ltb (length c) start then length c else start in
      let e : at ≡ from = ground arith in
      let le : at ≤ length c = ground arith in
      let z : (length needle == 0) ≡ false = ground arith in
      let first =
        find_chunks (length c - at) needle (failures needle) false b.text at (length c) 0 none in
      let last = find_chunks (at - 0) needle (failures needle) true b.text 0 at 0 none in
      rw (text_size_lem b.text v.tree) (
        simp z (
          subst (λ s. IsFirstFrom c needle s first) e
              (found_first c needle at (length c) (omega arith) le (omega arith) b.text v refl
                refl),
          subst (λ s. IsLastTo c needle s last) e
              (found_last c needle 0 at le (omega arith) (omega arith) b.text v refl refl),
        ))
