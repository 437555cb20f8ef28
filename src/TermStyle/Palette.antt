-- ===== src/TermStyle/Palette.antt =====
-- `term_palette_update` of src/term_style.c.
use cpymacs.Base.{
  ==→eq, Bool-cases, List, [], and_true, ap, ap₂, eq→==, false, inl, inr, length, refl, suc, sym,
  true, zero, ℕ, ◌&&◌, ◌+◌, ◌==◌, ◌∷◌, ◌≡◌, ◌≤◌, ◌⊎◌,
}
use mathlib.Core.Path.{subst}
use cpymacs.TermStyle.{
  Floats, TermFace, TermPalette, faces_from, make_face, same_colors, term_index_rgb,
  term_palette_update,
}
use cpymacs.TermStyle.Quantize.{quantize_range}

pub same_colors_refl : (xs : List ℕ) → same_colors xs xs ≡ true
unfolding same_colors
same_colors_refl [] = refl
same_colors_refl (x ∷ xs) = rw (eq→== x x refl) (same_colors_refl xs)

pub same_colors-eq : (xs ys : List ℕ) → same_colors xs ys ≡ true → xs ≡ ys
unfolding same_colors
same_colors-eq [] [] h = refl
same_colors-eq [] (y ∷ ys) h = cc
same_colors-eq (x ∷ xs) [] h = cc
same_colors-eq (x ∷ xs) (y ∷ ys) h =
    let (one, more) = and_true (x == y) (same_colors xs ys) h in
    ap₂ ◌∷◌ (==→eq x y one) (same_colors-eq xs ys more)

-- both indexed colours of a face lie behind the first 16
abbrev pub IsIndexed : TermFace → Type 0
IsIndexed f = (16 ≤ f.fg256) × (f.fg256 ≤ 255) × (16 ≤ f.bg256) × (f.bg256 ≤ 255)

abbrev pub AllIndexed : List TermFace → Type 0
AllIndexed [] = Unit
AllIndexed (f ∷ fs) = IsIndexed f × AllIndexed fs

module _ (F : Floats) where
  make_face-IsIndexed : (source : List ℕ) (i : ℕ) → IsIndexed (make_face F source i)
  unfolding make_face
  make_face-IsIndexed source i =
      let b = quantize_range F (make_face F source i).bg 0 false in
      let f =
        quantize_range F (make_face F source i).fg (term_index_rgb (make_face F source i).bg256)
          true in
      (f.0, f.1, b.0, b.1)

  faces_from-AllIndexed :
      (k i : ℕ) (source : List ℕ)
      → AllIndexed (faces_from F k i source) × (length (faces_from F k i source) ≡ k)
  unfolding faces_from
  faces_from-AllIndexed zero i source = (tt, refl)
  faces_from-AllIndexed (suc k) i source =
      let (all, size) = faces_from-AllIndexed k (i + 1) source in
      ((make_face-IsIndexed source i, all), ap suc size)

  abbrev pub fresh_palette : List ℕ → TermPalette
  fresh_palette source = record {
    source = source;
    face = faces_from F 11 0 source;
    initialized = true;
  }

  stays :
      (p : TermPalette) (source : List ℕ)
      → (p.initialized && same_colors p.source source) ≡ true
      → term_palette_update F p source ≡ p
  unfolding term_palette_update
  stays p source e = simp e refl

  renewed :
      (p : TermPalette) (source : List ℕ)
      → (p.initialized && same_colors p.source source) ≡ false
      → term_palette_update F p source ≡ fresh_palette source
  unfolding term_palette_update
  renewed p source e = simp e refl

  -- On a palette that is not initialized, or whose faces are eleven with indexed colours behind the
  -- first 16, an update leaves an initialized palette of eleven such faces.
  pub term_palette_update-AllIndexed :
      (p : TermPalette) (source : List ℕ)
      → (p.initialized ≡ false) ⊎ (AllIndexed p.face × (length p.face ≡ 11))
      → let q = term_palette_update F p source in
        (q.initialized ≡ true) × AllIndexed q.face × (length q.face ≡ 11)
  term_palette_update-AllIndexed p source s =
      elim (Bool-cases (p.initialized && same_colors p.source source)) [
        | inl e ↦ subst Good (sym (stays p source e)) (old s (and_true _ _ e).0)
        | inr e ↦
            let (all, size) = faces_from-AllIndexed 11 0 source in
            subst Good (sym (renewed p source e)) (refl, all, size)
      ]
    where
      Good : TermPalette → Type 0
      Good q = (q.initialized ≡ true) × AllIndexed q.face × (length q.face ≡ 11)

      old :
          (p.initialized ≡ false) ⊎ (AllIndexed p.face × (length p.face ≡ 11))
          → p.initialized ≡ true
          → Good p
      old (inl n) y = cc
      old (inr (all, size)) y = (y, all, size)
