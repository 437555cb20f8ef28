-- ===== src/Text/Piece.antt =====
-- The treap of pieces of src/text.c. A tree is owned by one pointer, so a function that changes
-- nodes in place returns the changed tree. `size_t` sums are not reduced: each counts bytes that
-- lie in memory.
pub mod Bytes
pub mod Merge
pub mod Cut
pub mod Split
use cpymacs.Base.{
  Bool, List, Option, bit_xor, count_if, drop, false, get_or, if◌then◌else◌, ltb, none, not, some,
  suc, take, true, zero, ℕ, ◌%◌, ◌*◌, ◌+◌, ◌-◌, ◌/◌, ◌==◌, ◌^◌,
}
use cpymacs.Utf8.Bytes.{is_continuation}

-- `struct Piece` without its two pointers
pub record Fields : Type 0 where
  pub offset : ℕ
  pub length : ℕ
  pub newlines : ℕ
  pub chars : ℕ
  pub bytes_sum : ℕ
  pub lines_sum : ℕ
  pub chars_sum : ℕ
  pub priority : ℕ
  pub source : ℕ

-- `struct Piece *`: the null pointer, or a node between its children
pub data Piece : Type 0 where
  null : Piece
  piece : Piece → Fields → Piece → Piece

-- The two byte stores of a `Text`; `added` is the part of the array below `added_len`.
pub record Stores : Type 0 where
  pub original : List ℕ
  pub added : List ℕ

-- the sums, 0 at the null pointer
unfoldable pub nb : Piece → ℕ
nb null = 0
nb (piece l f r) = f.bytes_sum

unfoldable pub nl : Piece → ℕ
nl null = 0
nl (piece l f r) = f.lines_sum

unfoldable pub nc : Piece → ℕ
nc null = 0
nc (piece l f r) = f.chars_sum

unfoldable pub store : Stores → ℕ → List ℕ
store m source = if source == 0 then m.original else m.added

-- The n bytes at an offset of a store; `data(t,p)` points at the first of them.
unfoldable pub data_at : Stores → ℕ → ℕ → ℕ → List ℕ
unfolding store
data_at m source offset n = take n (drop offset (store m source))

abbrev pub data_of : Stores → Fields → List ℕ
data_of m f = data_at m f.source f.offset f.length

-- the two tests of the counting loops
abbrev pub is_newline : ℕ → Bool
is_newline c = c == b'\n'

abbrev pub is_char : ℕ → Bool
is_char c = not (is_continuation c)

-- a node with its children and sums set, after `update(p)`
unfoldable pub update : Piece → Fields → Piece → Piece
unfolding nb nl nc
update l f r =
    piece l
      (record f {
        bytes_sum = nb l + f.length + nb r;
        lines_sum = nl l + f.newlines + nl r;
        chars_sum = nc l + f.chars + nc r;
      })
      r

-- xorshift on 32 bits
unfoldable pub random_next : ℕ → ℕ
random_next x =
    let a = bit_xor x (x * 2 ^ 13 % 2 ^ 32) in
    let b = bit_xor a (a / 2 ^ 17) in bit_xor b (b * 2 ^ 5 % 2 ^ 32)

-- the fields of a new leaf before `update`; the random state is the priority that it is given
unfoldable pub leaf : Stores → ℕ → ℕ → ℕ → ℕ → Fields
unfolding data_at
leaf m random source off n =
    let s = data_at m source off n in
    record {
      offset = off;
      length = n;
      newlines = count_if is_newline s;
      chars = count_if is_char s;
      bytes_sum = 0;
      lines_sum = 0;
      chars_sum = 0;
      priority = random;
      source = source;
    }

unfoldable pub node : Stores → ℕ → ℕ → ℕ → ℕ → Piece
unfolding leaf update
node m random source off n = update null (leaf m random source off n) null

-- `p->priority=…` on a node that is a leaf
unfoldable pub set_priority : ℕ → Piece → Piece
set_priority x null = null
set_priority x (piece l f r) = piece l (record f { priority = x }) r

unfoldable pub merge : Piece → Piece → Piece
unfolding update
merge null b = b
merge (piece al af ar) null = piece al af ar
merge (piece al af ar) (piece bl bf br) = elim (ltb bf.priority af.priority) [
  | true ↦ update al af (merge ar (piece bl bf br))
  | false ↦ update (merge (piece al af ar) bl) bf br
]

-- The two trees that `split` stores through `a` and `b`, and the random state behind it.
unfoldable pub split : Stores → ℕ → Piece → ℕ → Piece × Piece × ℕ
unfolding nb update node set_priority merge random_next
split m random null at = (null, null, random)
split m random (piece l f r) at =
    let left = nb l in
    let low = split m random l at in
    let high = split m random r (at - left - f.length) in
    if ltb at left
    then (low.0, update low.1 f r, low.2)
    else if ltb (left + f.length) at
    then (update l f high.0, high.1, high.2)
    else if at == left
    then (l, update null f r, random)
    else if at == left + f.length
    then (update l f null, r, random)
    else let k = at - left in
      let random1 = random_next random in
      let random2 = random_next random1 in
      let x = set_priority f.priority (node m random1 f.source f.offset k) in
      let y = set_priority f.priority (node m random2 f.source (f.offset + k) (f.length - k)) in
      (merge l x, merge y r, random2)

-- `if(m<n) while(m && …) m--`: down to a byte that is no continuation, or to 0
unfoldable pub back_to_char : List ℕ → ℕ → ℕ
back_to_char s zero = 0
back_to_char s (suc k) = if is_continuation (get_or s (suc k) 0) then back_to_char s k else suc k

-- how many of the n bytes at s the next piece takes
unfoldable pub chunk : List ℕ → ℕ → ℕ
chunk s n = let m = if ltb 4096 n then 4096 else n in if ltb m n then back_to_char s m else m

-- The loop of `pieces` on fuel: `none` for a loop that goes on past it (a chunk of no bytes is
-- taken again and again). Edit/Pieces shows that n rounds are enough for valid text.
unfoldable pub pieces_from : ℕ → Stores → ℕ → Piece → ℕ → ℕ → ℕ → Option (Piece × ℕ)
unfolding data_at chunk random_next node merge
pieces_from fuel m random r src off zero = some (r, random)
pieces_from zero m random r src off (suc n) = none
pieces_from (suc fuel) m random r src off (suc n) =
    let c = chunk (data_at m src off (suc n)) (suc n) in
    let random1 = random_next random in
    pieces_from fuel m random1 (merge r (node m random1 src off c)) src (off + c) (suc n - c)

unfoldable pub pieces : Stores → ℕ → ℕ → ℕ → ℕ → Option (Piece × ℕ)
unfolding pieces_from
pieces m random src off n = pieces_from n m random null src off n
