-- ===== src/Buffer/Find/Scan.antt =====
-- The loops of `editor_find` of src/buffer.c over what is read of the text.
use cpymacs.Base.{
  ==→eq, Bool-cases, List, Option, [], ap, arith, drop, drop-drop, false, get_or, get_or-drop, inl,
  inr, leb, length, none, some, subst, suc, sym, true, ℕ, ◌+◌, ◌-◌, ◌<◌, ◌==◌, ◌∙◌, ◌∷◌, ◌≡◌, ◌≤◌,
}
use cpymacs.Buffer.Find.Failure.{Fits, IsLongest, IsFailure, Fits_through, Fits_within, advance_lem}
use cpymacs.Buffer.Find.{advance, scan_chunk}

module _ (p : List ℕ) (d : List ℕ) (off : ℕ) where
  -- The pattern ends nowhere in the first n bytes.
  abbrev pub Nowhere : ℕ → Type 0
  Nowhere n = (k : ℕ) → k ≤ n → Fits p d k (length p) → ⊥

  -- The result for the first n bytes, as the search forward has it: the first end of the pattern.
  unfoldable pub IsFirst : ℕ → Option ℕ → Type 0
  IsFirst n none = Nowhere n
  IsFirst n (some at) =
      (k : ℕ) × (k ≤ n)
      × (at ≡ off + k - length p)
      × Fits p d k (length p)
      × ((i : ℕ) → Fits p d i (length p) → k ≤ i)

  -- The same backward: the last end of the pattern.
  unfoldable pub IsLast : ℕ → Option ℕ → Type 0
  IsLast n none = Nowhere n
  IsLast n (some at) =
      (k : ℕ) × (k ≤ n)
      × (at ≡ off + k - length p)
      × Fits p d k (length p)
      × ((i : ℕ) → i ≤ n → Fits p d i (length p) → i ≤ k)

  IsLast-more :
      (n : ℕ) (result : Option ℕ)
      → (Fits p d (n + 1) (length p) → ⊥)
      → IsLast n result
      → IsLast (n + 1) result
  unfolding IsLast
  IsLast-more n none never w = λ k b f. elim (Bool-cases (k == n + 1)) [
    | inl z ↦ never (subst (λ x. Fits p d x (length p)) (==→eq k (n + 1) z) f)
    | inr z ↦ w k (ground (arith, z, b)) f
  ]
  IsLast-more n (some at) never (k, b, e, f, most) = (
    k,
    omega (arith, b),
    e,
    f,
    λ i c g. elim (Bool-cases (i == n + 1)) [
      | inl z ↦ absurd (never (subst (λ x. Fits p d x (length p)) (==→eq i (n + 1) z) g))
      | inr z ↦ most i (ground (arith, z, c)) g
    ],
  )

  module _ (pi : List ℕ) (h : IsFailure p pi) (size : length pi ≡ length p) where
    -- what one byte more shows
    step_lem :
        (n j c : ℕ)
        → get_or d n 0 ≡ c
        → IsLongest p d n (length p) j
        → IsLongest p d (n + 1) (length p + 1) (advance p pi c j)
    step_lem n j c e v =
        let below = v.below in
        subst (λ x. IsLongest p d (n + 1) (length p + 1) (advance p pi x j)) e
          (advance_lem p pi d n (length p) j h (omega (arith, below, size)) v)

    -- behind a match j falls back
    matched :
        (n : ℕ)
        → 0 < length p
        → Fits p d (n + 1) (length p)
        → IsLongest p d (n + 1) (length p) (get_or pi (length p - 1) 0)
    matched n positive f =
        let here = h (length p - 1) (omega (arith, size, positive)) in
        let same : length p - 1 + 1 ≡ length p = omega (arith, positive) in
        record {
          below = omega (arith, here.below, same);
          fits =
              Fits_through p d (n + 1) (length p) (get_or pi (length p - 1) 0) f
                (subst (λ x. Fits p p x (get_or pi (length p - 1) 0)) same here.fits);
          most = λ k b g. here.most k (omega (arith, b, same)) (
              subst (λ x. Fits p p x k) (sym same)
                (Fits_within p d (n + 1) (length p) k f g (omega (arith, b))));
        }

    missed :
        (n j : ℕ)
        → (j == length p) ≡ false
        → IsLongest p d (n + 1) (length p + 1) j
        → IsLongest p d (n + 1) (length p) j × (Fits p d (n + 1) (length p) → ⊥)
    missed n j e v =
        let below = v.below in
        (
          record {
            below = ground (arith, e, below);
            fits = v.fits;
            most = λ k b f. v.most k (omega (arith, b)) f;
          },
          λ f. let r = v.most (length p) (omega arith) f in absurd (ground (arith, e, below, r)),
        )

    rest_of : (n c : ℕ) (s : List ℕ) → drop n d ≡ c ∷ s → (get_or d n 0 ≡ c) × (drop (n + 1) d ≡ s)
    rest_of n c s e = (
      ap (λ k. get_or d k 0) {y = n + 0} (omega arith)
          ∙ sym (get_or-drop n 0 d 0)
          ∙ ap (λ x. get_or x 0 0) e,
      sym (drop-drop n 1 d) ∙ ap (drop 1) e,
    )

    moved :
        (R : ℕ → Option ℕ → Type 0) (s : List ℕ) (n : ℕ) (f : ℕ → Option ℕ)
        → R (n + 1 + length s) (f (off + (n + 1)))
        → R (n + suc (length s)) (f (off + n + 1))
    moved R s n f r =
        subst (λ x. R x (f (off + n + 1))) (omega arith)
          (subst (λ x. R (n + 1 + length s) (f x)) (omega arith) r)

    pub scan_forward :
        (s : List ℕ) (n j : ℕ)
        → 0 < length p
        → drop n d ≡ s
        → IsLongest p d n (length p) j
        → Nowhere n
        → IsFirst (n + length s) (scan_chunk p pi false s (off + n) j none).2
    unfolding scan_chunk IsFirst
    scan_forward [] n j positive e v w = λ k b. w k (omega (arith, b))
    scan_forward (c ∷ s) n j positive e v w =
        let (read, rest) = rest_of n c s e in
        let here = step_lem n j c read v in
        elim (Bool-cases (advance p pi c j == length p)) [
          | inl m ↦
              let j' = advance p pi c j in
              let f : Fits p d (n + 1) (length p) =
                subst (Fits p d (n + 1)) (==→eq j' (length p) m) here.fits in
              rw m (
                n + 1,
                omega arith,
                omega arith,
                f,
                λ i g. elim (Bool-cases (leb (n + 1) i)) [
                  | inl b ↦ ground (arith, b)
                  | inr b ↦ absurd (w i (ground (arith, b)) g)
                ],
              )
          | inr m ↦
              let (v', never) = missed n (advance p pi c j) m here in
              let none_yet : Nowhere (n + 1) = λ k b f. elim (Bool-cases (k == n + 1)) [
                | inl z ↦ never (subst (λ x. Fits p d x (length p)) (==→eq k (n + 1) z) f)
                | inr z ↦ w k (ground (arith, z, b)) f
              ] in
              let later = scan_forward s (n + 1) (advance p pi c j) positive rest v' none_yet in
              rw m (
                moved (IsFirst) s n (λ x. (scan_chunk p pi false s x (advance p pi c j) none).2)
                  later)
        ]

    pub scan_backward :
        (s : List ℕ) (n j : ℕ) (result : Option ℕ)
        → 0 < length p
        → drop n d ≡ s
        → IsLongest p d n (length p) j
        → IsLast n result
        → IsLast (n + length s) (scan_chunk p pi true s (off + n) j result).2
    unfolding scan_chunk IsLast
    scan_backward [] n j result positive e v w = subst (λ x. IsLast x result) (omega arith) w
    scan_backward (c ∷ s) n j result positive e v w =
        let (read, rest) = rest_of n c s e in
        let here = step_lem n j c read v in
        elim (Bool-cases (advance p pi c j == length p)) [
          | inl m ↦
              let j' = advance p pi c j in
              let f : Fits p d (n + 1) (length p) =
                subst (Fits p d (n + 1)) (==→eq j' (length p) m) here.fits in
              let now : IsLast (n + 1) (some (off + n + 1 - length p)) =
                (n + 1, omega arith, omega arith, f, λ i b g. b) in
              let again = ap (λ x. get_or pi (x - 1) 0) (sym (==→eq j' (length p) m)) in
              let v' = subst (IsLongest p d (n + 1) (length p)) again (matched n positive f) in
              let later =
                scan_backward s (n + 1) (get_or pi (j' - 1) 0) (some (off + n + 1 - length p))
                  positive rest v' now in
              rw m (
                moved IsLast s n
                  (λ x.
                    (scan_chunk p pi true s x (get_or pi (j' - 1) 0)
                      (some (off + n + 1 - length p))).2)
                  later)
          | inr m ↦
              let (v', never) = missed n (advance p pi c j) m here in
              let later =
                scan_backward s (n + 1) (advance p pi c j) result positive rest v'
                  (IsLast-more n result never w) in
              rw m (
                moved IsLast s n (λ x. (scan_chunk p pi true s x (advance p pi c j) result).2)
                  later)
        ]
