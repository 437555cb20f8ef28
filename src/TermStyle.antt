-- ===== src/TermStyle.antt =====
-- Colours of the terminal front end (src/term_style.c, include/term_style.h). A colour 0xRRGGBB is a
-- number.
pub mod Quantize
pub mod Palette
pub mod Contrast
pub mod Mode
use cpymacs.Base.{
  Bool, List, [], false, get_or, if◌then◌else◌, leb, ltb, not, suc, true, zero, ℕ, ◌%◌, ◌&&◌, ◌*◌,
  ◌+◌, ◌-◌, ◌/◌, ◌==◌, ◌^◌, ◌||◌, ◌∷◌,
}
use cpymacs.Buffer.Group.{cost}

-- The `double` arithmetic that contrast is computed in: the constants, as a numerator over a power
-- of ten, `+`, `*`, `/` and `pow`, and the tests `<=` and `<`.
pub record Floats : Type 1 where
  pub Double : Type 0
  pub decimal : ℕ → ℕ → Double
  pub add : Double → Double → Double
  pub mul : Double → Double → Double
  pub div : Double → Double → Double
  pub pow : Double → Double → Double
  pub le : Double → Double → Bool
  pub lt : Double → Double → Bool

-- `(rgb >> shift) & 255`
abbrev pub channel : ℕ → ℕ → ℕ
channel rgb shift = rgb / 2 ^ shift % 2 ^ 8

abbrev pub rgb_of : ℕ → ℕ → ℕ → ℕ
rgb_of r g b = r * 2 ^ 16 + g * 2 ^ 8 + b

abbrev pub levels : List ℕ
levels = 0 ∷ 95 ∷ 135 ∷ 175 ∷ 215 ∷ 255 ∷ []

unfoldable pub term_index_rgb : ℕ → ℕ
term_index_rgb index =
    let c = 8 + 10 * (index - 232) in
    let n = index - 16 in
    if leb 232 index && leb index 255
    then rgb_of c c c
    else if ltb index 16 || ltb 231 index
    then 0
    else rgb_of (get_or levels (n / 36) 0) (get_or levels (n / 6 % 6) 0) (get_or levels (n % 6) 0)

abbrev pub blend_channel : ℕ → ℕ → ℕ → ℕ
blend_channel a b amount = (a * (255 - amount) + b * amount + 127) / 255

unfoldable pub blend : ℕ → ℕ → ℕ → ℕ
blend from to amount =
    rgb_of (blend_channel (channel from 16) (channel to 16) amount)
      (blend_channel (channel from 8) (channel to 8) amount)
      (blend_channel (channel from 0) (channel to 0) amount)

-- `d * d` for the difference of two channels
abbrev pub square : ℕ → ℕ → ℕ
square a b = if ltb a b then (b - a) * (b - a) else (a - b) * (a - b)

unfoldable pub distance : ℕ → ℕ → ℕ
distance a b =
    square (channel a 0) (channel b 0)
    + square (channel a 8) (channel b 8)
    + square (channel a 16) (channel b 16)

-- `TermFace`
pub record TermFace : Type 0 where
  pub fg : ℕ
  pub bg : ℕ
  pub fg256 : ℕ
  pub bg256 : ℕ
  pub reverse : Bool

-- `TermPalette`
pub record TermPalette : Type 0 where
  pub source : List ℕ
  pub face : List TermFace
  pub initialized : Bool

-- `memcmp` of two arrays
unfoldable pub same_colors : List ℕ → List ℕ → Bool
same_colors [] [] = true
same_colors [] (y ∷ ys) = false
same_colors (x ∷ xs) [] = false
same_colors (x ∷ xs) (y ∷ ys) = x == y && same_colors xs ys

module _ (F : Floats) where
  abbrev pub linear : ℕ → F.Double
  linear component =
      let s = F.div (F.decimal component 0) (F.decimal 255 0) in
      if F.le s (F.decimal 4045 5)
      then F.div s (F.decimal 1292 2)
      else F.pow (F.div (F.add s (F.decimal 55 3)) (F.decimal 1055 3)) (F.decimal 24 1)

  unfoldable pub luminance : ℕ → F.Double
  luminance rgb =
      F.add
        (F.add (F.mul (F.decimal 2126 4) (linear (channel rgb 16)))
          (F.mul (F.decimal 7152 4) (linear (channel rgb 8))))
        (F.mul (F.decimal 722 4) (linear (channel rgb 0)))

  unfoldable pub term_contrast : ℕ → ℕ → F.Double
  term_contrast a b =
      let x = F.add (luminance a) (F.decimal 5 2) in
      let y = F.add (luminance b) (F.decimal 5 2) in
      if F.le (luminance b) (luminance a) then F.div x y else F.div y x

  -- contrast of at least 7
  unfoldable pub readable : ℕ → ℕ → Bool
  readable a b = F.le (F.decimal 7 0) (term_contrast a b)

  -- the loop of `contrast_text` from t on, with the rounds that are left
  unfoldable pub text_from : ℕ → ℕ → ℕ → ℕ → ℕ → ℕ
  text_from zero t fg bg target = target
  text_from (suc k) t fg bg target =
      let rest = text_from k (t + 1) fg bg target in
      if readable (blend fg target t) bg then blend fg target t else rest

  unfoldable pub contrast_text : ℕ → ℕ → ℕ
  contrast_text fg bg =
      let target = if F.lt (term_contrast 0xffffff bg) (term_contrast 0 bg) then 0 else 0xffffff in
      if readable fg bg then fg else text_from 255 1 fg bg target

  -- the loop of `contrast_background` from t on
  unfoldable pub background_from : ℕ → ℕ → ℕ → ℕ → ℕ → ℕ
  background_from zero t bg target text = target
  background_from (suc k) t bg target text =
      let rest = background_from k (t + 1) bg target text in
      if F.le (F.decimal 75 1) (term_contrast text (blend bg target t))
      then blend bg target t
      else rest

  unfoldable pub contrast_background : ℕ → ℕ
  contrast_background bg =
      let target = if F.lt (luminance bg) (F.decimal 18 2) then 0 else 0xffffff in
      background_from 256 0 bg target (if target == 0 then 0xffffff else 0)

  -- contrast of less than 7
  unfoldable pub faint : ℕ → ℕ → Bool
  faint a b = F.lt (term_contrast a b) (F.decimal 7 0)

  -- not skipped by the loop of `quantize`
  unfoldable pub admits : ℕ → Bool → ℕ → Bool
  admits bg foreground i =
      let candidate = term_index_rgb i in
      if foreground
      then not (faint candidate bg)
      else not (faint 0 candidate && faint 0xffffff candidate)

  -- The loop of `quantize` from i on, with the rounds that are left.
  unfoldable pub quantize_from : ℕ → ℕ → ℕ → ℕ → Bool → ℕ → ℕ → ℕ
  quantize_from zero i rgb bg foreground best cost = best
  quantize_from (suc k) i rgb bg foreground best cost =
      let d = distance rgb (term_index_rgb i) in
      let better = admits bg foreground i && ltb d cost in
      quantize_from k (i + 1) rgb bg foreground (if better then i else best)
        (if better then d else cost)

  unfoldable pub quantize : ℕ → ℕ → Bool → ℕ
  quantize rgb bg foreground = quantize_from 240 16 rgb bg foreground 16 (2 ^ 32 - 1)

  -- face i of `term_palette_update`
  unfoldable pub make_face : List ℕ → ℕ → TermFace
  make_face source i =
      let special = i == 8 || i == 9 in
      let own = contrast_background (get_or source (if special then i else 1) 0) in
      let cursor = i == 10 in
      let bg = if cursor then 0xfff4b8 else own in
      let fg =
        if cursor
        then 0x101018
        else contrast_text (get_or source (if i == 1 || leb 8 i then 0 else i) 0) own in
      let bg256 = quantize bg 0 false in
      record {
        fg = fg;
        bg = bg;
        fg256 = quantize fg (term_index_rgb bg256) true;
        bg256 = bg256;
        reverse = special || cursor;
      }

  -- the faces from i on
  unfoldable pub faces_from : ℕ → ℕ → List ℕ → List TermFace
  faces_from zero i source = []
  faces_from (suc k) i source = make_face source i ∷ faces_from k (i + 1) source

  unfoldable pub term_palette_update : TermPalette → List ℕ → TermPalette
  term_palette_update p source =
      if p.initialized && same_colors p.source source
      then p
      else record { source = source; face = faces_from 11 0 source; initialized = true }
