-- ===== src/Motion/Chars.antt =====
-- The characters before and after a place in the text of a buffer, for the loops of src/commands.c.
use cpymacs.Base.{arith, length, ltb, true, ℕ, ◌<◌, ◌≡◌}
use cpymacs.Buffer.{Buffer}
use cpymacs.Utf8.Boundary.{boundary, boundary-le}
use cpymacs.Text.Read.{text_next, text_prev}
use cpymacs.Text.Edit.{text_size}
use cpymacs.Text.Edit.Byte.{content, text_size_lem}
use cpymacs.Text.Edit.Insert.{IsText}
use cpymacs.Text.Read.Step.{text_next-IsNext, text_prev-IsPrev, IsNext, IsPrev}

module _ (b : Buffer) (v : IsText b.text) where
  pub size_same : text_size b.text ≡ length (content b.text)
  size_same = text_size_lem b.text v.tree

  pub after :
      (at : ℕ) → ltb at (text_size b.text) ≡ true → IsNext (content b.text) at (text_next b.text at)
  after at h = text_next-IsNext b.text at v (ground (arith, h, size_same))

  pub before :
      (at : ℕ)
      → boundary (content b.text) at ≡ true
      → 0 < at
      → IsPrev (content b.text) at (text_prev b.text at)
  before at k h = text_prev-IsPrev b.text at v h (boundary-le (content b.text) at k)
