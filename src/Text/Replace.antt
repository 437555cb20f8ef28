-- ===== src/Text/Replace.antt =====
-- `text_delete` and then `text_insert` at the same place, as `editor_replace` of src/buffer.c and
-- `undo` of src/commands.c call them. Neither looks at the two results.
use cpymacs.Base.{
  Bool, List, Option, [], ap, ap₂, arith, drop, leb-true, length, none, refl, some, take, true, ℕ,
  ◌++◌, ◌+◌, ◌∙◌, ◌≡◌, ◌≤◌,
}
use cpymacs.Text.Edit.{Text, size_max, text_delete, text_insert}
use cpymacs.Utf8.{utf8_valid}
use cpymacs.Utf8.Boundary.{boundary, boundary-le}
use cpymacs.Utf8.Valid.{utf8_valid-nil}
use cpymacs.Text.Edit.Refine.{text_delete_refines, text_insert_refines}
use cpymacs.Text.Edit.Byte.{content}
use cpymacs.Text.Edit.Insert.{IsText, accepts, splice}
use cpymacs.Text.Edit.Splice.{boundary-splice_start, drop-splice_end, take-splice}

-- `none` if the insertion never ends
unfoldable pub text_replace : Text → ℕ → ℕ → List ℕ → Option Text
text_replace t at count s = elim (text_insert (text_delete t at count).1 at s) [
  | none ↦ none
  | some out ↦ some out.1
]

abbrev pub added_len : Text → ℕ
added_len t = length t.stores.added

-- What the two calls leave where both succeed.
pub record Replaces (t : Text) (at count : ℕ) (s : List ℕ) (out : Text) : Type 0 where
  pub valid : IsText out
  pub result : content out ≡ splice (content t) at count s
  pub grows : added_len out ≤ added_len t + length s

replace_returns :
    (t : Text) (at count : ℕ) (s : List ℕ) (out : Bool × Text)
    → text_insert (text_delete t at count).1 at s ≡ some out
    → text_replace t at count s ≡ some out.1
unfolding text_replace
replace_returns t at count s out e = rw (e, text_replace)

-- Both calls succeed on a range between boundaries and valid bytes that the store has room for, and
-- put the bytes in place of the range.
pub text_replace_lem :
    (t : Text) (at count : ℕ) (s : List ℕ)
    → IsText t
    → boundary (content t) at ≡ true
    → boundary (content t) (at + count) ≡ true
    → utf8_valid s ≡ true
    → added_len t + length s + 1 ≤ size_max
    → (out : Text) × (text_replace t at count s ≡ some out) × Replaces t at count s out
text_replace_lem t at count s v start end u room =
    let d = (text_delete t at count).1 in
    let deletes = text_delete_refines t at count v in
    let gone : content d ≡ splice (content t) at count [] = deletes.result ∙ rw (start, end) refl in
    let here : boundary (content d) at ≡ true =
      ap (λ x. boundary x at) gone
      ∙ boundary-splice_start (content t) at count [] v.utf8 utf8_valid-nil start end in
    let same = ap (λ m. length m.added) deletes.stored in
    let (out, e, inserts) = text_insert_refines d at s deletes.valid in
    let ok : accepts d at s ≡ true =
      rw (here, u) (leb-true _ size_max (omega (arith, same, room))) in
    (
      out.1,
      replace_returns t at count s out e,
      record {
        valid = inserts.valid;
        result = inserts.result ∙ rw ok (back gone);
        grows = omega (arith, inserts.grows, same);
      },
    )
  where
    back :
        {x : List ℕ}
        → x ≡ splice (content t) at count []
        → splice x at 0 s ≡ splice (content t) at count s
    back e =
        let within = boundary-le (content t) (at + count) end in
        ap₂ (λ y z. y ++ (s ++ z)) (ap (take at) e ∙ take-splice (content t) at count [] within)
          (ap (drop (at + 0)) e ∙ drop-splice_end (content t) at count [] within)
