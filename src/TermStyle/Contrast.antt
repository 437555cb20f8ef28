-- ===== src/TermStyle/Contrast.antt =====
-- `contrast_text` of src/term_style.c.
use cpymacs.Base.{
  ==→eq, Bool, Bool-cases, arith, false, inl, inr, refl, suc, true, zero, ℕ, ◌+◌, ◌<◌, ◌==◌, ◌≡◌,
  ◌≤◌, ◌⊎◌,
}
use mathlib.Core.Path.{subst}
use cpymacs.TermStyle.{Floats, blend, contrast_text, readable, term_contrast, text_from}

module _ (F : Floats) where
  -- black or white, whichever has more contrast to the background; white where neither has
  abbrev pub IsTarget : ℕ → ℕ → Type 0
  IsTarget bg target =
      let black_wins = F.lt (term_contrast F 0xffffff bg) (term_contrast F 0 bg) in
      ((black_wins ≡ true) × (target ≡ 0)) ⊎ ((black_wins ≡ false) × (target ≡ 0xffffff))

  -- a contrast of 7 or more
  abbrev pub enough : ℕ → ℕ → Bool
  enough a b = F.le (F.decimal 7 0) (term_contrast F a b)

  -- what a search of the blends from `start` on and below `end` gives: the first readable one, or
  -- else the target
  pub data Blended (fg bg target : ℕ) (start end out : ℕ) : Type 0 where
    found :
        (t : ℕ)
        → start ≤ t
        → t < end
        → out ≡ blend fg target t
        → enough out bg ≡ true
        → ((j : ℕ) → start ≤ j → j < t → enough (blend fg target j) bg ≡ false)
        → Blended fg bg target start end out
    missed :
        out ≡ target
        → ((j : ℕ) → start ≤ j → j < end → enough (blend fg target j) bg ≡ false)
        → Blended fg bg target start end out

  -- a search from the blend before, which is not readable
  later :
      {t end fg bg target out : ℕ}
      → enough (blend fg target t) bg ≡ false
      → Blended fg bg target (t + 1) end out
      → Blended fg bg target t end out
  later {t} {end} {fg} {bg} {target} {out} e b = elim b [
    | found k above below q r first ↦ found k (omega (arith, above)) below q r (before k first)
    | missed q none_readable ↦ missed q (before end none_readable)
  ]
    where
      before :
          (k : ℕ)
          → ((j : ℕ) → t + 1 ≤ j → j < k → enough (blend fg target j) bg ≡ false)
          → (j : ℕ) → t ≤ j
          → j < k
          → enough (blend fg target j) bg ≡ false
      before k h j above below = elim (Bool-cases (j == t)) [
        | inl same ↦ rw (==→eq j t same) e
        | inr other ↦ h j (ground (arith, other, above)) below
      ]

  text_from_lem :
      (rounds t fg bg target : ℕ)
      → Blended fg bg target t (t + rounds) (text_from F rounds t fg bg target)
  unfolding text_from readable
  text_from_lem zero t fg bg target =
      missed refl (λ j above below. absurd (omega (arith, above, below)))
  text_from_lem (suc n) t fg bg target = elim (Bool-cases (enough (blend fg target t) bg)) [
    | inl e ↦ rw e (
        found t (omega arith) (omega arith) refl e
          (λ j above below. absurd (omega (arith, above, below))))
    | inr e ↦
        let all = text_from_lem n (t + 1) fg bg target in
        rw e (
          later e (
            subst (λ end. Blended fg bg target (t + 1) end (text_from F n (t + 1) fg bg target))
              (omega arith) all))
  ]

  -- `contrast_text` leaves a colour that has a contrast of 7 or more to the background. Of any other
  -- it gives the first of the blends towards black or white, from 1 to 255 parts of 255, that has
  -- that contrast, and black or white itself where none has; black is taken where its contrast to
  -- the background is above that of white.
  pub contrast_text_lem :
      (fg bg : ℕ)
      → let c = contrast_text F fg bg in
        ((enough fg bg ≡ true) × (c ≡ fg))
        ⊎ ((enough fg bg ≡ false)
            × ((target : ℕ) × IsTarget bg target × Blended fg bg target 1 256 c))
  unfolding contrast_text readable
  contrast_text_lem fg bg = elim (Bool-cases (enough fg bg)) [
    | inl e ↦ inl (e, rw e refl)
    | inr e ↦ inr (
      e,
      elim (Bool-cases (F.lt (term_contrast F 0xffffff bg) (term_contrast F 0 bg))) [
        | inl z ↦ (0, inl (z, refl), rw (e, z) (text_from_lem 255 1 fg bg 0))
        | inr z ↦ (0xffffff, inr (z, refl), rw (e, z) (text_from_lem 255 1 fg bg 0xffffff))
      ],
    )
  ]
