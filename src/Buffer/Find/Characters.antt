-- ===== src/Buffer/Find/Characters.antt =====
-- What `editor_find` of src/buffer.c finds is made of whole characters.
use cpymacs.Base.{
  List, ap, arith, drop, drop-drop, false, get_or, get_or-drop, get_or-take, length, subst, sym,
  take-append-drop, true, ℕ, ◌++◌, ◌+◌, ◌<◌, ◌∙◌, ◌≡◌,
}
use cpymacs.Utf8.{utf8_valid}
use cpymacs.Utf8.Boundary.{boundary, head_Chars, utf8_valid-split}
use cpymacs.Utf8.Chars.{Chars}
use cpymacs.Utf8.Cancel.{Chars-cancel}
use cpymacs.Utf8.Valid.{Chars-utf8_valid, utf8_valid-Chars}
use cpymacs.Utf8.Bytes.{is_continuation}
use cpymacs.Text.Edit.Splice.{boundary_of_valid}
use cpymacs.Buffer.Find.Occurs.{Occurs, Occurs-within}

-- A valid pattern stands in a valid text only between boundaries.
pub Occurs-boundary :
    (c p : List ℕ) (at : ℕ)
    → utf8_valid c ≡ true
    → utf8_valid p ≡ true
    → 0 < length p
    → Occurs c p at
    → (boundary c at ≡ true) × (boundary c (at + length p) ≡ true)
Occurs-boundary c p at u w more e =
    let inside = Occurs-within c p at more e in
    let first =
      ap (λ x. is_continuation (get_or x 0 0)) e ∙ head_Chars (utf8_valid-Chars p w) more in
    let same = get_or-take (length p) 0 (drop at c) 0 more ∙ get_or-drop at 0 c 0 in
    let same' : get_or c (at + 0) 0 ≡ get_or c at 0 = ap (λ k. get_or c k 0) (omega arith) in
    let clean : is_continuation (get_or c at 0) ≡ false =
      ap is_continuation (sym (same ∙ same')) ∙ first in
    let start : boundary c at ≡ true = unfold boundary in ground (arith, inside, clean, more) in
    let rest_valid = (utf8_valid-split c at u start).1 in
    let parts : p ++ drop (length p) (drop at c) ≡ drop at c =
      ap (λ x. x ++ drop (length p) (drop at c)) (sym e)
      ∙ take-append-drop (length p) (drop at c) in
    let rest_chars =
      Chars-cancel (drop (length p) (drop at c)) (utf8_valid-Chars p w)
        (subst Chars (sym parts) (utf8_valid-Chars (drop at c) rest_valid)) in
    (
      start,
      boundary_of_valid c (at + length p) inside
          (ap utf8_valid (sym (drop-drop at (length p) c)) ∙ Chars-utf8_valid rest_chars),
    )
