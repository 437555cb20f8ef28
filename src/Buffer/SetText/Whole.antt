-- ===== src/Buffer/SetText/Whole.antt =====
-- What `editor_set_text` of src/buffer.c keeps of a text, and the text that it leaves.
use cpymacs.Base.{
  ==→eq, Bool-cases, List, [], ap, ap₂, arith, drop, drop-cons, drop-drop, drop_all, get_or, inl,
  inr, length, ltb, min, refl, subst, suc, sym, take, take-append-drop, take-take_le, true, zero, ℕ,
  ◌&&◌, ◌++◌, ◌+◌, ◌-◌, ◌<◌, ◌==◌, ◌∙◌, ◌∷◌, ◌≡◌, ◌≤◌,
}
use cpymacs.Utf8.{utf8_valid}
use cpymacs.Utf8.Boundary.{boundary, utf8_valid-split}
use cpymacs.Utf8.Bytes.{is_continuation}
use cpymacs.Text.Edit.Splice.{boundary_of_valid, removed-utf8_valid}
use cpymacs.Buffer.SetText.{common_head, common_tail, head_back, tail_back, kept_head, kept_tail}
use cpymacs.Utf8.Chars.{Chars}
use cpymacs.Utf8.Cancel.{Chars-cancel}
use cpymacs.Utf8.Valid.{Chars-utf8_valid, utf8_valid-Chars, utf8_valid-nil}
use cpymacs.Text.Edit.Insert.{splice}

take_head :
    (old s : List ℕ)
    → (take (common_head old s) old ≡ take (common_head old s) s)
      × (common_head old s ≤ length old)
      × (common_head old s ≤ length s)
unfolding common_head
take_head [] s = (refl, omega arith, omega arith)
take_head (x ∷ old) [] = (refl, omega arith, omega arith)
take_head (x ∷ old) (y ∷ s) = elim (Bool-cases (x == y)) [
  | inl e ↦
      let (same, a, b) = take_head old s in
      rw e (ap₂ ◌∷◌ (==→eq x y e) same, omega (arith, a), omega (arith, b))
  | inr e ↦ rw e (refl, omega arith, omega arith)
]

head_back_le : (s : List ℕ) (k : ℕ) → head_back s k ≤ k
unfolding head_back
head_back_le s zero = omega arith
head_back_le s (suc k) = ground (arith, head_back_le s k)

head_back-boundary :
    (s : List ℕ) (k : ℕ) → utf8_valid s ≡ true → k ≤ length s → boundary s (head_back s k) ≡ true
unfolding head_back
head_back-boundary s zero u h = boundary_of_valid s 0 (omega arith) u
head_back-boundary s (suc k) u h =
    elim (Bool-cases (ltb (suc k) (length s) && is_continuation (get_or s (suc k) 0))) [
      | inl e ↦ rw e (head_back-boundary s k u (omega (arith, h)))
      | inr e ↦ rw e (unfold boundary in ground (arith, h))
    ]

-- the same bytes at the end
module _ (old s : List ℕ) where
  abbrev SameEnd : ℕ → Type 0
  SameEnd tail = drop (length old - tail) old ≡ drop (length s - tail) s

  grows_end :
      (tail : ℕ)
      → tail < length old
      → tail < length s
      → get_or old (length old - tail - 1) 0 ≡ get_or s (length s - tail - 1) 0
      → SameEnd tail
      → SameEnd (tail + 1)
  grows_end tail a b e h =
      ap (λ k. drop k old) {y = length old - tail - 1} (omega arith)
      ∙ drop-cons (length old - tail - 1) old 0 (omega arith)
      ∙ ap₂ ◌∷◌ e (
          ap (λ k. drop k old) {x = suc (length old - tail - 1)} {y = length old - tail}
            (omega (arith, a))
          ∙ h
          ∙ ap (λ k. drop k s) {y = suc (length s - tail - 1)} (omega (arith, b)))
      ∙ sym (drop-cons (length s - tail - 1) s 0 (omega arith))
      ∙ ap (λ k. drop k s) {x = length s - tail - 1} {y = length s - (tail + 1)} (omega arith)

  shrinks_end : (k : ℕ) → suc k ≤ length old → suc k ≤ length s → SameEnd (suc k) → SameEnd k
  shrinks_end k a b h =
      ap (λ j. drop j old) {y = length old - suc k + 1} (omega (arith, a))
      ∙ sym (drop-drop (length old - suc k) 1 old)
      ∙ ap (drop 1) h
      ∙ drop-drop (length s - suc k) 1 s
      ∙ ap (λ j. drop j s) {x = length s - suc k + 1} {y = length s - k} (omega (arith, b))

  common_tail_lem :
      (k tail : ℕ)
      → tail + k ≤ length old
      → tail + k ≤ length s
      → SameEnd tail
      → SameEnd (common_tail k old s tail) × (common_tail k old s tail ≤ tail + k)
  unfolding common_tail
  common_tail_lem zero tail a b h = (h, omega arith)
  common_tail_lem (suc k) tail a b h =
      elim (Bool-cases (get_or old (length old - tail - 1) 0 == get_or s (length s - tail - 1) 0)) [
        | inl e ↦
            let (same, le) =
              common_tail_lem k (tail + 1) (omega (arith, a)) (omega (arith, b))
                (grows_end tail (omega (arith, a)) (omega (arith, b)) (==→eq _ _ e) h) in
            rw e (same, omega (arith, le))
        | inr e ↦ rw e (h, omega arith)
      ]

  tail_back_lem :
      (k : ℕ)
      → utf8_valid s ≡ true
      → k ≤ length old
      → k ≤ length s
      → SameEnd k
      → SameEnd (tail_back s k)
        × (tail_back s k ≤ k)
        × (boundary s (length s - tail_back s k) ≡ true)
  unfolding tail_back
  tail_back_lem zero u a b h = (h, omega arith, unfold boundary in ground arith)
  tail_back_lem (suc k) u a b h =
      elim (Bool-cases (is_continuation (get_or s (length s - suc k) 0))) [
        | inl e ↦
            let (same, le, top) =
              tail_back_lem k u (omega (arith, a)) (omega (arith, b)) (shrinks_end k a b h) in
            rw e (same, omega (arith, le), top)
        | inr e ↦ rw e (h, omega arith, unfold boundary in ground (arith, e, b))
      ]

kept_head_le : (old s : List ℕ) → kept_head old s ≤ common_head old s
unfolding kept_head
kept_head_le old s = head_back_le s (common_head old s)

kept_tail_lem :
    (old s : List ℕ)
    → utf8_valid s ≡ true
    → SameEnd old s (kept_tail old s)
      × (kept_tail old s ≤ min (length old - kept_head old s) (length s - kept_head old s))
      × (boundary s (length s - kept_tail old s) ≡ true)
unfolding kept_tail
kept_tail_lem old s u =
    let room = min (length old - kept_head old s) (length s - kept_head old s) in
    let k = common_tail room old s 0 in
    let a : room ≤ length old = ground arith in
    let b : room ≤ length s = ground arith in
    let (same, le) = common_tail_lem old s room 0 (omega (arith, a)) (omega (arith, b)) (
      drop_all (length old - 0) old (omega arith)
      ∙ sym (drop_all (length s - 0) s (omega arith))) in
    let (kept, less, top) =
      tail_back_lem old s k u (omega (arith, le, a)) (omega (arith, le, b)) same in
    (kept, omega (arith, less, le), top)

-- What is kept of a text c and the part of s that goes between.
module _ (c s : List ℕ) where
  abbrev pub head : ℕ
  head = kept_head c s

  abbrev pub tail : ℕ
  tail = kept_tail c s

  abbrev pub span : ℕ
  span = length c - head - tail

  abbrev pub middle : List ℕ
  middle = take (length s - head - tail) (drop head s)

module _ (c s : List ℕ) (old : utf8_valid c ≡ true) (new : utf8_valid s ≡ true) where
  ends :
      SameEnd c s (tail c s)
      × ((tail c s) ≤ min (length c - (head c s)) (length s - (head c s)))
      × (boundary s (length s - (tail c s)) ≡ true)
  ends = kept_tail_lem c s new

  pub same_head : take (head c s) c ≡ take (head c s) s
  same_head =
      let (same, a, b) = take_head c s in
      let le = kept_head_le c s in
      sym (take-take_le (head c s) (common_head c s) c le)
      ∙ ap (take (head c s)) same
      ∙ take-take_le (head c s) (common_head c s) s le

  pub within_old :
      ((head c s) + (tail c s) ≤ length c) × ((head c s) + span c s ≡ length c - (tail c s))
  within_old =
      let (same, a, b) = take_head c s in
      let le = kept_head_le c s in
      let (end, room, top) = ends in
      let r : (head c s) + (tail c s) ≤ length c = ground arith in (r, omega (arith, r))

  pub within_new :
      ((head c s) + (tail c s) ≤ length s)
      × ((head c s) + (length s - (head c s) - (tail c s)) ≡ length s - (tail c s))
  within_new =
      let (same, a, b) = take_head c s in
      let le = kept_head_le c s in
      let (end, room, top) = ends in
      let r : (head c s) + (tail c s) ≤ length s = ground arith in (r, omega (arith, r))

  new_head : boundary s (head c s) ≡ true
  unfolding kept_head
  new_head = head_back-boundary s (common_head c s) new (take_head c s).2

  pub old_head : boundary c (head c s) ≡ true
  old_head =
      let front = (utf8_valid-split s (head c s) new new_head).0 in
      boundary_of_valid c (head c s) (omega (arith, within_old.0)) (
        Chars-utf8_valid (
          Chars-cancel (drop (head c s) c)
            (utf8_valid-Chars (take (head c s) c) (ap utf8_valid same_head ∙ front))
            (subst Chars (sym (take-append-drop (head c s) c)) (utf8_valid-Chars c old))))

  pub old_tail : boundary c ((head c s) + span c s) ≡ true
  old_tail =
      ap (boundary c) within_old.1
      ∙ boundary_of_valid c (length c - (tail c s)) (omega arith)
          (ap utf8_valid ends.0 ∙ (utf8_valid-split s (length s - (tail c s)) new ends.2).1)

  new_tail : boundary s ((head c s) + (length s - (head c s) - (tail c s))) ≡ true
  new_tail = ap (boundary s) within_new.1 ∙ ends.2

  pub middle-utf8_valid : utf8_valid (middle c s) ≡ true
  middle-utf8_valid =
      removed-utf8_valid s (head c s) (length s - (head c s) - (tail c s)) [] new utf8_valid-nil
        new_head new_tail

  -- The new text is the old one with the part between put in.
  pub splice-middle : splice c (head c s) (span c s) (middle c s) ≡ s
  splice-middle =
      ap₂ (λ x y. x ++ ((middle c s) ++ y)) same_head
        (ap (λ k. drop k c) within_old.1
          ∙ ends.0
          ∙ ap (λ k. drop k s) (sym within_new.1)
          ∙ sym (drop-drop (head c s) (length s - (head c s) - (tail c s)) s))
      ∙ ap (take (head c s) s ++◌)
          (take-append-drop (length s - (head c s) - (tail c s)) (drop (head c s) s))
      ∙ take-append-drop (head c s) s
