-- ===== src/Buffer/Find/Failure.antt =====
-- The automaton of `editor_find` of src/buffer.c: how far the pattern fits at the end of what is read.
use cpymacs.Base.{
  ==→eq, Bool-cases, List, [], ap, arith, get_or, get_or-append_ge, get_or-append_lt, inl, inr,
  length, length-append, not, refl, subst, suc, sym, zero, ℕ, ◌&&◌, ◌++◌, ◌+◌, ◌-◌, ◌<◌, ◌==◌, ◌∙◌,
  ◌∷◌, ◌≡◌, ◌≤◌, ◌⊎◌,
}
use cpymacs.Buffer.Find.{advance, fall_back, fill_pi, failures}

module _ (p d : List ℕ) where
  -- The first k bytes of p are the last of the first n of d.
  abbrev pub Fits : ℕ → ℕ → Type 0
  Fits n k = (k ≤ n) × ((i : ℕ) → i < k → get_or d (n - k + i) 0 ≡ get_or p i 0)

  -- j is the greatest such k below the limit.
  pub record IsLongest (n limit j : ℕ) : Type 0 where
    pub below : j < limit
    pub fits : Fits n j
    pub most : (k : ℕ) → k < limit → Fits n k → k ≤ j

  pub Fits_zero : (n : ℕ) → Fits n 0
  Fits_zero n = (omega arith, λ i h. absurd (omega (arith, h)))

  pub Fits_more : (n k : ℕ) → Fits n k → get_or d n 0 ≡ get_or p k 0 → Fits (n + 1) (k + 1)
  Fits_more n k (le, same) e = (
    omega (arith, le),
    λ i h. elim (Bool-cases (i == k)) [
      | inl z ↦
          ap (λ x. get_or d x 0) {y = n} (ground (arith, z, le))
          ∙ e
          ∙ ap (λ x. get_or p x 0) (ground (arith, z))
      | inr z ↦
          ap (λ x. get_or d x 0) {y = n - k + i} (ground (arith, le))
          ∙ same i (ground (arith, z, h))
    ],
  )

  pub Fits_less : (n k : ℕ) → Fits (n + 1) (suc k) → Fits n k × (get_or d n 0 ≡ get_or p k 0)
  Fits_less n k (le, same) = (
    (
      omega (arith, le),
      λ i h.
          ap (λ x. get_or d x 0) {y = n + 1 - suc k + i} (omega (arith, le))
          ∙ same i (omega (arith, h)),
    ),
    ap (λ x. get_or d x 0) {y = n + 1 - suc k + k} (omega (arith, le)) ∙ same k (omega arith),
  )

  pub Fits_last :
      (n k : ℕ)
      → Fits (n + 1) k
      → (k ≡ 0) ⊎ ((k' : ℕ) × (k ≡ k' + 1) × Fits n k' × (get_or d n 0 ≡ get_or p k' 0))
  Fits_last n zero f = inl refl
  Fits_last n (suc k) f = let (shorter, g) = Fits_less n k f in inr (k, omega arith, shorter, g)

module _ (p : List ℕ) where
  -- a shorter fit is one within the longer, and the other way round
  pub Fits_within : (d : List ℕ) (n j k : ℕ) → Fits p d n j → Fits p d n k → k ≤ j → Fits p p j k
  Fits_within d n j k (lj, sj) (lk, sk) h = (
    h,
    λ i b.
        sym (sj (j - k + i) (omega (arith, b, h)))
        ∙ ap (λ x. get_or d x 0) {y = n - k + i} (omega (arith, lj, h, b))
        ∙ sk i b,
  )

  pub Fits_through : (d : List ℕ) (n j k : ℕ) → Fits p d n j → Fits p p j k → Fits p d n k
  Fits_through d n j k (lj, sj) (h, s) = (
    omega (arith, lj, h),
    λ i b.
        ap (λ x. get_or d x 0) {y = n - j + (j - k + i)} (omega (arith, lj, h, b))
        ∙ sj (j - k + i) (omega (arith, b, h))
        ∙ s i b,
  )

  -- what `pi` says of the pattern's starts
  abbrev pub IsFailure : List ℕ → Type 0
  IsFailure pi = (i : ℕ) → i < length pi → IsLongest p p (i + 1) (i + 1) (get_or pi i 0)

  -- The greatest of the fits that c goes on, and c goes on it if it is not empty.
  record IsNext (d : List ℕ) (n limit c j : ℕ) : Type 0 where
    fits : Fits p d n j
    most : (k : ℕ) → k < limit → Fits p d n k → get_or p k 0 ≡ c → k ≤ j
    goes : (j ≡ 0) ⊎ (c ≡ get_or p j 0)

  fall_back_lem :
      (fuel : ℕ) (pi d : List ℕ) (n limit c j : ℕ)
      → IsFailure pi
      → j ≤ fuel
      → j < limit
      → j ≤ length pi
      → Fits p d n j
      → ((k : ℕ) → k < limit → Fits p d n k → get_or p k 0 ≡ c → k ≤ j)
      → IsNext d n limit c (fall_back fuel p pi c j) × (fall_back fuel p pi c j ≤ j)
  unfolding fall_back
  fall_back_lem zero pi d n limit c j h f b l fits most =
      (record { fits = fits; most = most; goes = inl (omega (arith, f)) }, omega arith)
  fall_back_lem (suc fuel) pi d n limit c j h f b l fits most =
      elim (Bool-cases (not (j == 0) && not (c == get_or p j 0))) [
        | inl e ↦
            let shorter : (k : ℕ) → k < limit → Fits p d n k → get_or p k 0 ≡ c → k < j =
              λ k kb kf g.
                let le = most k kb kf g in
                elim (Bool-cases (k == j)) [
                  | inl z ↦
                      let same = ap (λ x. get_or p x 0) (==→eq k j z) in
                      absurd (ground (arith, e, g, same))
                  | inr z ↦ ground (arith, le, z)
                ] in
            let positive : 0 < j = ground (arith, e) in
            let here = h (j - 1) (omega (arith, positive, l)) in
            let at : j - 1 + 1 ≡ j = omega (arith, positive) in
            let less = here.below in
            let (step, le) =
              fall_back_lem fuel pi d n limit c (get_or pi (j - 1) 0) h (omega (arith, less, f))
                (omega (arith, less, b)) (omega (arith, less, l))
                (Fits_through d n j (get_or pi (j - 1) 0) fits
                  (subst (λ x. Fits p p x (get_or pi (j - 1) 0)) at here.fits))
                (λ k kb kf g.
                  let s = shorter k kb kf g in
                  here.most k (omega (arith, at, s)) (
                    subst (λ x. Fits p p x k) (sym at)
                      (Fits_within d n j k fits kf (omega (arith, s))))) in
            rw e (step, omega (arith, le, less, positive))
        | inr e ↦ rw e (
          record {
            fits = fits;
            most = most;
            goes = elim (Bool-cases (j == 0)) [
              | inl z ↦ inl (==→eq j 0 z)
              | inr z ↦ inr (ground (arith, e, z))
            ];
          },
          omega arith,
        )
      ]

  -- One byte more: what fits at its end is what fitted before it and went on.
  pub advance_lem :
      (pi d : List ℕ) (n limit j : ℕ)
      → IsFailure pi
      → j ≤ length pi
      → IsLongest p d n limit j
      → IsLongest p d (n + 1) (limit + 1) (advance p pi (get_or d n 0) j)
  unfolding advance
  advance_lem pi d n limit j h l v =
      let c = get_or d n 0 in
      let (step, le) =
        fall_back_lem j pi d n limit c j h (omega arith) v.below l v.fits
          (λ k kb kf g. v.most k kb kf) in
      let to = fall_back j p pi c j in
      let below = v.below in
      elim (Bool-cases (c == get_or p to 0)) [
        | inl e ↦ rw e (record {
          below = omega (arith, le, below);
          fits = Fits_more p d n to step.fits (==→eq c (get_or p to 0) e);
          most = λ k kb kf. elim (Fits_last p d n k kf) [
            | inl z ↦ omega (arith, z)
            | inr (k', z, shorter, g) ↦
                let r = step.most k' (omega (arith, kb, z)) shorter (sym g) in omega (arith, r, z)
          ];
        })
        | inr e ↦
            let z : to ≡ 0 = elim step.goes [ inl z ↦ z | inr g ↦ absurd (ground (arith, e, g)) ] in
            rw e (record {
              below = omega (arith, z);
              fits = subst (Fits p d (n + 1)) (sym z) (Fits_zero p d (n + 1));
              most = λ k kb kf. elim (Fits_last p d n k kf) [
                | inl y ↦ omega (arith, y)
                | inr (k', y, shorter, g) ↦
                    let r = step.most k' (omega (arith, kb, y)) shorter (sym g) in
                    let same = ap (λ x. get_or p x 0) {x = k'} {y = to} (omega (arith, r, z)) in
                    absurd (ground (arith, e, g, same))
              ];
            })
      ]

  fill_pi_lem :
      (k : ℕ) (pi : List ℕ) (i j : ℕ)
      → IsFailure pi
      → length pi ≡ i
      → IsLongest p p i i j
      → IsFailure (fill_pi k p pi i j) × (length (fill_pi k p pi i j) ≡ i + k)
  unfolding fill_pi
  fill_pi_lem zero pi i j h l v = (h, omega (arith, l))
  fill_pi_lem (suc k) pi i j h l v =
      let below = v.below in
      let j' = advance p pi (get_or p i 0) j in
      let here = advance_lem pi p i i j h (omega (arith, below, l)) v in
      let size = length-append pi (j' ∷ []) in
      let more : IsFailure (pi ++ (j' ∷ [])) = λ x b. elim (Bool-cases (x == i)) [
        | inl z ↦
            subst (λ y. IsLongest p p (y + 1) (y + 1) (get_or (pi ++ (j' ∷ [])) y 0))
              (sym (==→eq x i z))
              (subst (IsLongest p p (i + 1) (i + 1))
                (sym (
                  get_or-append_ge pi (j' ∷ []) i 0 (omega (arith, l))
                  ∙ ap (λ y. get_or (j' ∷ []) y 0) {y = 0} (omega (arith, l))))
                here)
        | inr z ↦
            let less : x < length pi = ground (arith, z, b, size, l) in
            subst (IsLongest p p (x + 1) (x + 1)) (sym (get_or-append_lt pi (j' ∷ []) x 0 less))
              (h x less)
      ] in
      let (all, end) =
        fill_pi_lem k (pi ++ (j' ∷ [])) (i + 1) j' more (omega (arith, size, l)) here in
      (all, omega (arith, end))

  -- `pi` holds, for each start of the pattern, its longest end that is also a shorter start.
  pub failures_lem : 0 < length p → IsFailure (failures p) × (length (failures p) ≡ length p)
  unfolding failures
  failures_lem h =
      let first : IsLongest p p 1 1 0 = record {
        below = omega arith;
        fits = Fits_zero p p 1;
        most = λ k b f. omega (arith, b);
      } in
      let (all, size) =
        fill_pi_lem (length p - 1) (0 ∷ []) 1 0 (λ i b. single i b first) refl first in
      (all, omega (arith, size, h))
    where
      single :
          (i : ℕ)
          → i < 1
          → IsLongest p p 1 1 0
          → IsLongest p p (i + 1) (i + 1) (get_or (0 ∷ []) i 0)
      single zero b f = f
      single (suc i) b f = absurd (omega (arith, b))
