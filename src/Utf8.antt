-- ===== src/Utf8.antt =====
-- UTF-8 (src/text.c): `utf8_decode` and `utf8_valid` over lists of bytes. The pair (s, n) of the C
-- code is the list of the n bytes at s.
pub mod Bytes
pub mod Chars
pub mod Valid
pub mod Boundary
pub mod Cancel
use Bytes.{is_continuation}
use cpymacs.Base.{
  ℕ, zero, suc, ◌+◌, ◌-◌, ◌*◌, ◌%◌, ◌^◌, ◌≤◌, bit_and, bit_or, Bool, true, false, ◌&&◌, ◌||◌,
  Option, none, some, List, [], ◌∷◌, ltb, leb, ◌==◌, if◌then◌else◌, length, drop,
}

-- what `utf8_decode` gives for bytes that are no character
abbrev pub replacement : ℕ × ℕ
replacement = (0xfffd, 1)

-- The ladder on the first byte: the length k of the sequence and the bits of c that stay.
unfoldable pub lead : ℕ → Option (ℕ × ℕ)
lead c =
    if leb 0xc2 c && leb c 0xdf
    then some (2, bit_and c 31)
    else if leb 0xe0 c && leb c 0xef
    then some (3, bit_and c 15)
    else if leb 0xf0 c && leb c 0xf4
    then some (4, bit_and c 7)
    else none

-- `for(i=1;i<k;i++)`: the count is of the bytes left, `none` is the return on a byte that is no
-- continuation. Past the end is not reached, since `n<k` is tested before.
unfoldable pub decode_tail : ℕ → ℕ → List ℕ → Option ℕ
decode_tail zero c p = some c
decode_tail (suc k) c [] = none
decode_tail (suc k) c (b ∷ p) =
    let r = decode_tail k (bit_or (c * 2 ^ 6 % 2 ^ 32) (bit_and b 63)) p in
    if is_continuation b then r else none

-- Overlong forms, values past the last code point, surrogates.
unfoldable pub out_of_range : ℕ → ℕ → Bool
out_of_range k c =
    (k == 3 && ltb c 0x800)
    || (k == 4 && ltb c 0x10000)
    || ltb 0x10ffff c
    || (leb 0xd800 c && leb c 0xdfff)

unfoldable pub decode_multi : ℕ → ℕ → List ℕ → ℕ × ℕ
decode_multi k c rest =
    if ltb (suc (length rest)) k then replacement else elim (decode_tail (k - 1) c rest) [
      | none ↦ replacement
      | some d ↦ if out_of_range k d then replacement else (d, k)
    ]

-- The code point and `*used`.
unfoldable pub utf8_decode : List ℕ → ℕ × ℕ
utf8_decode [] = (0, 1)
utf8_decode (c ∷ rest) =
    if ltb c 0x80
    then (c, 1)
    else elim (lead c) [ none ↦ replacement | some (k, d) ↦ decode_multi k d rest ]

-- The loop of `utf8_valid` on the bytes from i on, on fuel. `valid_from_fuel` of Utf8/Valid shows that the
-- number of bytes is enough.
unfoldable pub valid_from : ℕ → List ℕ → Bool
valid_from f [] = true
valid_from zero (c ∷ s) = false
valid_from (suc f) (c ∷ s) =
    let used = (utf8_decode (c ∷ s)).1 in
    let rest = valid_from f (drop used (c ∷ s)) in
    if leb 128 c && used == 1 then false else if (utf8_decode (c ∷ s)).0 == 0 then false else rest

unfoldable pub utf8_valid : List ℕ → Bool
utf8_valid s = valid_from (length s) s
