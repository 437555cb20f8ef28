-- ===== src/Text/Edit.antt =====
-- `text_init`, `text_insert` and `text_delete` of src/text.c. A change of `*t` is the new Text.
pub mod Pieces
pub mod Growth
pub mod Append
pub mod Byte
pub mod Insert
pub mod Refine
pub mod Splice
use cpymacs.Base.{
  Bool, List, Option, [], count_if, false, get_or, if◌then◌else◌, leb, length, ltb, none, not, some,
  suc, true, zero, ℕ, ◌%◌, ◌&&◌, ◌*◌, ◌++◌, ◌+◌, ◌-◌, ◌/◌, ◌==◌, ◌^◌, ◌||◌,
}
use cpymacs.Text.Piece.{
  piece, null, Piece, Stores, is_char, is_newline, merge, nb, nc, nl, pieces, split, store, update,
}
use cpymacs.Utf8.{utf8_valid}
use cpymacs.Utf8.Bytes.{is_continuation}
use cpymacs.Utf8.Chars.{done}

-- `Text`. `original_len` and `added_len` are the lengths of the stores.
pub record Text : Type 0 where
  pub root : Piece
  pub stores : Stores
  pub added_cap : ℕ
  pub random : ℕ

abbrev pub size_max : ℕ
size_max = 2 ^ 64 - 1

-- `size_t` subtraction
abbrev pub sub_size : ℕ → ℕ → ℕ
sub_size a b = (a + 2 ^ 64 - b) % 2 ^ 64

unfoldable pub text_size : Text → ℕ
unfolding nb
text_size t = nb t.root

unfoldable pub text_lines : Text → ℕ
unfolding nl
text_lines t = nl t.root + 1

unfoldable pub text_chars : Text → ℕ
unfolding nc
text_chars t = nc t.root

-- The loop of `text_byte`, which walks down from the root.
unfoldable pub byte_at : Stores → Piece → ℕ → ℕ
unfolding nb store
byte_at m null at = 0
byte_at m (piece l f r) at =
    let low = byte_at m l at in
    let high = byte_at m r (at - (nb l + f.length)) in
    if ltb at (nb l)
    then low
    else if ltb at (nb l + f.length)
    then get_or (store m f.source) (f.offset + (at - nb l)) 0
    else high

unfoldable pub text_byte : Text → ℕ → ℕ
unfolding byte_at
text_byte t at = byte_at t.stores t.root at

unfoldable pub text_boundary : Text → ℕ → Bool
unfolding text_size text_byte is_continuation
text_boundary t at =
    leb at (text_size t) && (at == text_size t || not (is_continuation (text_byte t at)))

-- `none` is the return false, which leaves the tree as it is.
unfoldable pub append_right : Piece → ℕ → List ℕ → Option Piece
unfolding update
append_right null offset s = none
append_right (piece l f (piece rl rf rr)) offset s = elim (append_right (piece rl rf rr) offset s) [
  | none ↦ none
  | some r ↦ some (update l f r)
]
append_right (piece l f null) offset s =
    if f.source == 0 || (not (f.offset + f.length == offset) || ltb 4096 (f.length + length s))
    then none
    else some (
        update l
          (record f {
            length = f.length + length s;
            newlines = f.newlines + count_if is_newline s;
            chars = f.chars + count_if is_char s;
          })
          null)

-- The loop that doubles the capacity. `Growth` shows that 64 rounds are enough.
unfoldable pub grow : ℕ → ℕ → ℕ → ℕ
grow zero cap need = cap
grow (suc fuel) cap need =
    let more = grow fuel (cap * 2) need in
    if ltb cap need then (if ltb (size_max / 2) cap then need else more) else cap

unfoldable pub new_cap : ℕ → ℕ → ℕ
new_cap cap need = if ltb cap need then grow 64 (if cap == 0 then 4096 else cap) need else cap

-- what `text_insert` leaves, from the tree and the random state at its end
abbrev pub inserted : Text → List ℕ → Piece → ℕ → Bool × Text
inserted t s root random = (
  true,
  record {
    root = root;
    stores = record t.stores { added = t.stores.added ++ s };
    added_cap = new_cap t.added_cap (length t.stores.added + length s + 1);
    random = random;
  },
)

-- The part of `text_insert` behind its guards: the bytes are in the store, `a` and `b` are the two
-- halves of the tree. `none` if the loop of `pieces` never ends; `Insert` shows that it ends.
unfoldable pub insert_between : Text → List ℕ → Piece → Piece → ℕ → Option (Bool × Text)
unfolding append_right merge pieces
insert_between t s a b random =
    let offset = length t.stores.added in
    let stores = record t.stores { added = t.stores.added ++ s } in
    elim (append_right a offset s) [
      | some a' ↦ some (inserted t s (merge a' b) random)
      | none ↦ elim (pieces stores random 1 offset (length s)) [
        | none ↦ none
        | some (p, random') ↦ some (inserted t s (merge (merge a p) b) random')
      ]
    ]

-- the first line of `text_insert`
unfoldable pub insert_refuses : Text → ℕ → List ℕ → Bool
insert_refuses t at s =
    not (text_boundary t at)
    || (not (utf8_valid s)
        || ltb (sub_size (sub_size size_max (length t.stores.added)) 1) (length s))

unfoldable pub text_insert : Text → ℕ → List ℕ → Option (Bool × Text)
text_insert t at s =
    let cut = split (record t.stores { added = t.stores.added ++ s }) t.random t.root at in
    let done = insert_between t s cut.0 cut.1 cut.2 in
    if insert_refuses t at s
    then some (false, t)
    else if length s == 0
    then some (true, t)
    else done

-- the first line of `text_delete`
unfoldable pub delete_refuses : Text → ℕ → ℕ → Bool
delete_refuses t at n =
    ltb (text_size t) at
    || (ltb (text_size t - at) n || (not (text_boundary t at) || not (text_boundary t (at + n))))

unfoldable pub text_delete : Text → ℕ → ℕ → Bool × Text
text_delete t at n =
    let cut = split t.stores t.random t.root at in
    let cut' = split t.stores cut.2 cut.1 n in
    if delete_refuses t at n
    then (false, t)
    else (true, record t { root = merge cut.0 cut'.1; random = cut'.2 })

abbrev pub fresh : List ℕ → Piece × ℕ → Text
fresh s (p, random) = record {
  root = p;
  stores = record { original = s; added = [] };
  added_cap = 0;
  random = random;
}

-- `none` if the loop of `pieces` never ends
unfoldable pub text_init : List ℕ → Option Text
unfolding pieces
text_init s = elim (pieces (record { original = s; added = [] }) 0x9e3779b9 0 0 (length s)) [
  | none ↦ none
  | some made ↦ some (fresh s made)
]
