-- ===== src/Tests/Styles.antt =====
-- The default colours, and the theorems about them with a fixed-point arithmetic.
use cpymacs.Base.{
  List, [], arith, false, inl, leb, length, ltb, refl, some, true, ℕ, ◌*◌, ◌+◌, ◌/◌, ◌^◌, ◌∷◌, ◌≡◌,
  ◌≤◌, ◌⊎◌,
}
use cpymacs.TermStyle.Mode.{
  auto, indexed, mono, dumb_name, term_colors_resolve, term_colors_resolve_lem, truecolor_name,
  IsKnown, IsPlain, IsUnknown,
}
use cpymacs.TermStyle.{
  Floats, TermPalette, admits, contrast_text, distance, faint, luminance, quantize, term_contrast,
  term_index_rgb, term_palette_update,
}
use cpymacs.TermStyle.Quantize.{quantize-nearest, quantize_range}
use cpymacs.TermStyle.Palette.{AllIndexed, term_palette_update-AllIndexed}
use cpymacs.TermStyle.Contrast.{Blended, IsTarget, contrast_text_lem, enough}

-- six decimal places; `pow` squares
abbrev fixed_point : Floats
fixed_point = record {
  Double = ℕ;
  decimal = λ n places. n * 10 ^ 6 / 10 ^ places;
  add = λ a b. a + b;
  mul = λ a b. a * b / 10 ^ 6;
  div = λ a b. a * 10 ^ 6 / b;
  pow = λ a b. a * a / 10 ^ 6;
  le = λ a b. leb a b;
  lt = λ a b. ltb a b;
}

-- of `editor_init` in src/buffer.c
abbrev default_colors : List ℕ
default_colors =
    0xd9e1eb ∷ 0x15191f ∷ 0x748292 ∷ 0xffca85 ∷ 0xb6dc86 ∷ 0xe699e6 ∷ 0x86c9ed ∷ 0xe89d8b ∷ 0x365070
    ∷ 0x222a35 ∷ []

abbrev no_palette : TermPalette
no_palette = record { source = []; face = []; initialized = false }

quantize_range_example :
    (16 ≤ quantize fixed_point 0xd9e1eb 0 true) × (quantize fixed_point 0xd9e1eb 0 true ≤ 255)
quantize_range_example = quantize_range fixed_point 0xd9e1eb 0 true

quantize-nearest_example :
    let q = quantize fixed_point 0xd9e1eb 0 true in
    (admits fixed_point 0 true q ≡ true)
    × (distance 0xd9e1eb (term_index_rgb q) ≤ distance 0xd9e1eb (term_index_rgb 231))
unfolding admits faint term_contrast luminance term_index_rgb
quantize-nearest_example =
    quantize-nearest fixed_point 0xd9e1eb 0 true 231 (omega arith) (omega arith) refl

term_palette_update_example :
    let q = term_palette_update fixed_point no_palette default_colors in
    (q.initialized ≡ true) × AllIndexed q.face × (length q.face ≡ 11)
term_palette_update_example =
    term_palette_update-AllIndexed fixed_point no_palette default_colors (inl refl)

contrast_text_lem_example :
    let c = contrast_text fixed_point 0x748292 0x15191f in
    ((enough fixed_point 0x748292 0x15191f ≡ true) × (c ≡ 0x748292))
    ⊎ ((enough fixed_point 0x748292 0x15191f ≡ false)
        × ((target : ℕ) × IsTarget fixed_point 0x15191f target
            × Blended fixed_point 0x748292 0x15191f target 1 256 c))
contrast_text_lem_example = contrast_text_lem fixed_point 0x748292 0x15191f

term_colors_resolve_example :
    let m = term_colors_resolve auto (some dumb_name) (some truecolor_name) in
    ((¬ (auto ≡ auto)) × (m ≡ auto))
    ⊎ ((auto ≡ auto)
        × (((m ≡ indexed) × (¬ IsPlain dumb_name) × IsKnown dumb_name)
            ⊎ ((m ≡ mono) × (IsPlain dumb_name ⊎ IsUnknown dumb_name))))
term_colors_resolve_example = term_colors_resolve_lem auto (some dumb_name) (some truecolor_name)
