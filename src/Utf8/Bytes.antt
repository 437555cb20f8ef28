-- ===== src/Utf8/Bytes.antt =====
-- The test `(b & 0xc0) == 0x80` of src/text.c and src/commands.c on a byte.
use cpymacs.Base.{
  Bool, arith, bit_and, false, if◌then◌else◌, leb, ltb, not, passes, passes_at, refl, true, ℕ, ◌&&◌,
  ◌<◌, ◌==◌, ◌≡◌, ◌≤◌,
}

unfoldable pub is_continuation : ℕ → Bool
is_continuation b = bit_and b 0xc0 == 0x80

in_range : ℕ → Bool
in_range b = let inner = leb 128 b && ltb b 192 in if is_continuation b then inner else not inner

in_range_all : passes in_range 0 256 ≡ true
unfolding passes in_range is_continuation
in_range_all = refl

-- A byte continues a sequence exactly when it is one of 128 to 191.
pub is_continuation_range : (b : ℕ) → b < 256 → is_continuation b ≡ (leb 128 b && ltb b 192)
unfolding in_range
is_continuation_range b h =
    ground (arith, passes_at in_range 0 256 b (omega arith) (omega (arith, h)) in_range_all)

pub is_continuation_ascii : (b : ℕ) → b < 128 → is_continuation b ≡ false
is_continuation_ascii b h = ground (arith, is_continuation_range b)

pub is_continuation_lead : (b : ℕ) → 192 ≤ b → b < 256 → is_continuation b ≡ false
is_continuation_lead b l h = ground (arith, is_continuation_range b)
