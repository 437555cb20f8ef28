-- ===== src/Text/Read/Copy.antt =====
-- The arithmetic of `copy_range` of src/text.c, on ranges of lists.
use cpymacs.Base.{
  ==→eq, Bool-cases, List, [], ap, ap₂, arith, drop, drop_all, false, if◌then◌else◌, inl, inr,
  length, length-drop, ltb, not, refl, suc, sym, take, take_all, tests, zero, ℕ, ◌&&◌, ◌++◌, ◌+◌,
  ◌-◌, ◌==◌, ◌∙◌, ◌∷◌, ◌≡◌, ◌≢◌, ◌≤◌, ◌⊎◌,
}
use cpymacs.Text.Read.{from_left, from_own, own_start}

-- n elements from `at` on, as far as there are any
abbrev pub range : ℕ → ℕ → List ℕ → List ℕ
range at n a = take n (drop at a)

range_eq : (a : List ℕ) {i j k n : ℕ} → i ≡ j → k ≡ n → range i k a ≡ range j n a
range_eq a p q = ap₂ (λ i k. range i k a) p q

-- A range of two lists joined.
pub range-append :
    (at n : ℕ) (a b : List ℕ)
    → range at n (a ++ b) ≡ range at n a ++ range (at - length a) (n - (length a - at)) b
range-append at n [] b =
    range_eq b {j = at - 0} {n = n - (0 - at)} (omega arith) (omega arith)
    ∙ ap (λ x. x ++ range (at - 0) (n - (0 - at)) b)
        (sym (ap (take n) (drop_all at [] (omega arith)) ∙ take_all n [] (omega arith)))
range-append zero zero (x ∷ a) b = ap (λ k. range (0 - suc (length a)) k b) {x = 0} (omega arith)
range-append zero (suc n) (x ∷ a) b = ap (x ∷◌) (
    range-append zero n a b
    ∙ ap (take n a ++◌) (
        range_eq b {j = 0 - suc (length a)} {n = suc n - (suc (length a) - 0)} (omega arith)
          (omega arith)))
range-append (suc at) n (x ∷ a) b =
    range-append at n a b
    ∙ ap (range at n a ++◌) (
        range_eq b {j = suc at - suc (length a)} {n = n - (suc (length a) - suc at)} (omega arith)
          (omega arith))

pub range_past : (at n : ℕ) (a : List ℕ) → length a ≤ at → range at n a ≡ []
range_past at n a h = ap (take n) (drop_all at a h) ∙ take_all n [] (omega arith)

-- Counting no further than the end changes nothing.
pub range_min :
    (at n k : ℕ) (a : List ℕ)
    → k ≡ length a - at
    → range at (if ltb k n then k else n) a ≡ range at n a
range_min at n k a e = elim (Bool-cases (ltb k n)) [
  | inl h ↦ rw h (
      take_all k (drop at a) (omega (arith, length-drop at a))
      ∙ sym (take_all n (drop at a) (omega (tests, length-drop at a))))
  | inr h ↦ rw h
]

-- The three parts that `copy_range` writes at a node, for the bytes a of the left child, d of the
-- piece and r of the right child.
pub left_part :
    (at n : ℕ) (a : List ℕ)
    → (if ltb at (length a) then range at (from_left (length a) at n) a else []) ≡ range at n a
left_part at n a = elim (Bool-cases (ltb at (length a))) [
  | inl h ↦ rw h (range_min at n (length a - at) a refl)
  | inr h ↦ rw h (sym (range_past at n a (omega tests)))
]

from_left_lem : (left at n : ℕ) → n - from_left left at n ≡ n - (left - at)
from_left_lem left at n = ground arith

own_start_lem :
    (left at n : ℕ)
    → n - from_left left at n ≢ 0
    → own_start left (at + from_left left at n) ≡ at - left
own_start_lem left at n h = ground arith

pub range_none : (at n : ℕ) (d : List ℕ) → (n ≡ 0) ⊎ (length d ≤ at) → range at n d ≡ []
range_none at n d (inl e) = range_eq d {i = at} {n = 0} refl e
range_none at n d (inr h) = range_past at n d h

own_skipped :
    (left len at n : ℕ)
    → (not (n - from_left left at n == 0) && ltb (at + from_left left at n) (left + len)) ≡ false
    → (n - (left - at) ≡ 0) ⊎ (len ≤ at - left)
own_skipped left len at n h = ground arith

pub own_part :
    (left at n : ℕ) (d : List ℕ)
    → let at1 = at + from_left left at n in
      let n1 = n - from_left left at n in
      (if not (n1 == 0) && ltb at1 (left + length d)
        then range (own_start left at1) (from_own left (length d) at1 n1) d
        else [])
      ≡ range (at - left) (n - (left - at)) d
own_part left at n d =
    let at1 = at + from_left left at n in
    let n1 = n - from_left left at n in
    elim (Bool-cases (not (n1 == 0) && ltb at1 (left + length d))) [
      | inl h ↦
          let some_left : n1 ≢ 0 = ground arith in
          rw h (
            range_min (own_start left at1) n1 (length d - own_start left at1) d refl
            ∙ range_eq d (own_start_lem left at n some_left) (from_left_lem left at n))
      | inr h ↦
          rw h
            (sym (range_none (at - left) (n - (left - at)) d (own_skipped left (length d) at n h)))
    ]

rest_count :
    (left len at n : ℕ)
    → n
        - from_left left at n
        - from_own left len (at + from_left left at n) (n - from_left left at n)
      ≡ n - (left - at) - (len - (at - left))
rest_count left len at n = ground arith

rest_start :
    (left len at n : ℕ)
    → n - (left - at) - (len - (at - left)) ≢ 0
    → at
        + from_left left at n
        + from_own left len (at + from_left left at n) (n - from_left left at n)
        - left
        - len
      ≡ at - left - len
rest_start left len at n h = ground arith

pub right_part :
    (left len at n : ℕ) (r : List ℕ)
    → let at1 = at + from_left left at n in
      let n1 = n - from_left left at n in
      let own = from_own left len at1 n1 in
      (if n1 - own == 0 then [] else range (at1 + own - left - len) (n1 - own) r)
      ≡ range (at - left - len) (n - (left - at) - (len - (at - left))) r
right_part left len at n r =
    rw (rest_count left len at n) (elim (Bool-cases (n - (left - at) - (len - (at - left)) == 0)) [
      | inl h ↦ rw h (sym (range_none (at - left - len) _ r (inl (==→eq _ 0 h))))
      | inr h ↦ rw h (range_eq r (rest_start left len at n (ground arith)) refl)
    ])
