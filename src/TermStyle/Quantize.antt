-- ===== src/TermStyle/Quantize.antt =====
-- `quantize` of src/term_style.c finds the nearest colour that it admits.
use cpymacs.Base.{
  ==→eq, Bool, Bool-cases, and_true, ap, arith, false, inl, inr, ltb, ltb→lt, refl, suc, sym, true,
  zero, ℕ, ◌&&◌, ◌*◌, ◌+◌, ◌-◌, ◌<◌, ◌==◌, ◌^◌, ◌∙◌, ◌≡◌, ◌≤◌, ◌⊎◌,
}
use cpymacs.TermStyle.{
  distance, Floats, channel, square, term_index_rgb, admits, quantize_from, quantize,
}
use native.Mathlib.Nat.{mul-le-mul}

product-le : (d : ℕ) → d ≤ 255 → d * d ≤ 65025
product-le d h = omega (arith, mul-le-mul h h)

square-le : (a b : ℕ) → a < 256 → b < 256 → square a b ≤ 65025
square-le a b h k = elim (Bool-cases (ltb a b)) [
  | inl e ↦ rw e (product-le (b - a) (omega arith))
  | inr e ↦ rw e (product-le (a - b) (omega arith))
]

channel-lt : (rgb shift : ℕ) → channel rgb shift < 256
channel-lt rgb shift = omega arith

pub distance-lt : (a b : ℕ) → distance a b < 2 ^ 32 - 1
unfolding distance
distance-lt a b = omega (
  arith,
  square-le (channel a 0) (channel b 0) (channel-lt a 0) (channel-lt b 0),
  square-le (channel a 8) (channel b 8) (channel-lt a 8) (channel-lt b 8),
  square-le (channel a 16) (channel b 16) (channel-lt a 16) (channel-lt b 16),
)

module _ (F : Floats) (rgb bg : ℕ) (foreground : Bool) where
  abbrev dist : ℕ → ℕ
  dist i = distance rgb (term_index_rgb i)

  abbrev Admitted : ℕ → Type 0
  Admitted i = admits F bg foreground i ≡ true

  -- what a pair of the loop's variables stands for: nothing was found yet, or a colour at a distance
  abbrev Found : ℕ → ℕ → Type 0
  Found best price = Admitted best × (price ≡ dist best)

  -- What the loop over the k colours from i on gives.
  record IsNearest (k i best price q : ℕ) : Type 0 where
    within : (q ≡ best) ⊎ ((i ≤ q) × (q < i + k))
    kept : Found best price → Admitted q × (dist q ≤ price)
    wins : (j : ℕ) → i ≤ j → j < i + k → Admitted j → Admitted q × (dist q ≤ dist j)

  quantize_from-IsNearest :
      (k i best price : ℕ)
      → (price ≡ 2 ^ 32 - 1) ⊎ Found best price
      → IsNearest k i best price (quantize_from F k i rgb bg foreground best price)
  unfolding quantize_from
  quantize_from-IsNearest zero i best price s = record {
    within = inl refl;
    kept = λ f. (f.0, omega (arith, f.1));
    wins = λ j l u a. absurd (omega arith);
  }
  quantize_from-IsNearest (suc k) i best price s =
      elim (Bool-cases (admits F bg foreground i && ltb (dist i) price)) [
        | inl e ↦
            let both = and_true (admits F bg foreground i) (ltb (dist i) price) e in
            rw e (
              taken k i best price both.0 (ltb→lt (dist i) price both.1)
                (quantize_from-IsNearest k (i + 1) i (dist i) (inr (both.0, refl))))
        | inr e ↦ rw e (passed k i best price s e (quantize_from-IsNearest k (i + 1) best price s))
      ]
    where
      out :
          (q i k best now : ℕ)
          → (q ≡ now) ⊎ ((i + 1 ≤ q) × (q < i + 1 + k))
          → (now ≡ i) ⊎ (now ≡ best)
          → (q ≡ best) ⊎ ((i ≤ q) × (q < i + suc k))
      out q i k best now (inl e) (inl z) = inr (omega (arith, e, z))
      out q i k best now (inl e) (inr z) = inl (e ∙ z)
      out q i k best now (inr (l, u)) z = inr (omega (arith, l, u))

      taken :
          {q : ℕ} (k i best price : ℕ)
          → Admitted i
          → dist i < price
          → IsNearest k (i + 1) i (dist i) q
          → IsNearest (suc k) i best price q
      taken {q} k i best price a l n = record {
        within = out q i k best i n.within (inl refl);
        kept = λ f. let w = n.kept (a, refl) in (w.0, omega (arith, l, w.1));
        wins = λ j x y b. elim (Bool-cases (j == i)) [
          | inl e ↦ let w = n.kept (a, refl) in (w.0, omega (arith, w.1, ap dist (==→eq j i e)))
          | inr e ↦ n.wins j (ground arith) (omega (arith, y)) b
        ];
      }

      passed :
          {q : ℕ} (k i best price : ℕ)
          → (price ≡ 2 ^ 32 - 1) ⊎ Found best price
          → (admits F bg foreground i && ltb (dist i) price) ≡ false
          → IsNearest k (i + 1) best price q
          → IsNearest (suc k) i best price q
      passed {q} k i best price s e n = record {
        within = out q i k best best n.within (inr refl);
        kept = n.kept;
        wins = λ j x y b. elim (Bool-cases (j == i)) [
          | inl z ↦
              let a : admits F bg foreground i ≡ true =
                ap (admits F bg foreground) (sym (==→eq j i z)) ∙ b in
              let far : price ≤ dist i = ground arith in nearer s far (ap dist (==→eq j i z))
          | inr z ↦ n.wins j (ground arith) (omega (arith, y)) b
        ];
      }
        where
          nearer :
              {d : ℕ}
              → (price ≡ 2 ^ 32 - 1) ⊎ Found best price
              → price ≤ dist i
              → d ≡ dist i
              → Admitted q × (dist q ≤ d)
          nearer (inl m) far z = absurd (omega (arith, m, far, distance-lt rgb (term_index_rgb i)))
          nearer (inr f) far z = let w = n.kept f in (w.0, omega (arith, w.1, far, z))

module _ (F : Floats) where
  -- `quantize` never gives one of the first 16 colours, which users configure.
  pub quantize_range :
      (rgb bg : ℕ) (foreground : Bool)
      → (16 ≤ quantize F rgb bg foreground) × (quantize F rgb bg foreground ≤ 255)
  unfolding quantize
  quantize_range rgb bg foreground =
      let n = quantize_from-IsNearest F rgb bg foreground 240 16 16 (2 ^ 32 - 1) (inl refl) in
      omega (arith, n.within)

  -- If any colour of 16 to 255 is admitted, `quantize` gives an admitted one, and no admitted one is
  -- nearer.
  pub quantize-nearest :
      (rgb bg : ℕ) (foreground : Bool) (j : ℕ)
      → 16 ≤ j
      → j ≤ 255
      → admits F bg foreground j ≡ true
      → let q = quantize F rgb bg foreground in
        (admits F bg foreground q ≡ true)
        × (distance rgb (term_index_rgb q) ≤ distance rgb (term_index_rgb j))
  unfolding quantize
  quantize-nearest rgb bg foreground j l u a =
      let n = quantize_from-IsNearest F rgb bg foreground 240 16 16 (2 ^ 32 - 1) (inl refl) in
      n.wins j l (omega (arith, u)) a
