-- ===== src/Text/Piece/Bytes.antt =====
-- What a tree of pieces stands for, and the invariant of its nodes (`check_node` of src/text.c
-- and the bounds of the stores).
use cpymacs.Base.{
  List, [], ap, append-nil, arith, count_if, count_if-append, drop, drop-drop, drop-take, length,
  length-append, length-drop, length-take, refl, sym, take, take-take_le, ℕ, ◌++◌, ◌+◌, ◌-◌, ◌∙◌,
  ◌≡◌, ◌≤◌,
}
use cpymacs.Text.Piece.{
  piece, null, Fields, Piece, Stores, data_at, data_of, is_char, is_newline, nb, nc, nl, node,
  set_priority, store, update, leaf,
}

module _ (m : Stores) where
  -- the bytes of the pieces, in order
  abbrev pub bytes : Piece → List ℕ
  bytes null = []
  bytes (piece l f r) = bytes l ++ (data_of m f ++ bytes r)

  -- a piece lies in its store, and its counts are right
  pub record IsPiece (f : Fields) : Type 0 where
    pub within : f.offset + f.length ≤ length (store m f.source)
    pub newlines : f.newlines ≡ count_if is_newline (data_of m f)
    pub chars : f.chars ≡ count_if is_char (data_of m f)

-- no priority at the root above k
abbrev pub RootLe : ℕ → Piece → Type 0
RootLe k null = Unit
RootLe k (piece l f r) = f.priority ≤ k

pub record IsSummed (l : Piece) (f : Fields) (r : Piece) : Type 0 where
  pub bytes_sum : f.bytes_sum ≡ nb l + f.length + nb r
  pub lines_sum : f.lines_sum ≡ nl l + f.newlines + nl r
  pub chars_sum : f.chars_sum ≡ nc l + f.chars + nc r
  pub left_le : RootLe f.priority l
  pub right_le : RootLe f.priority r

abbrev pub IsValid : Stores → Piece → Type 0
IsValid m null = Unit
IsValid m (piece l f r) = IsPiece m f × IsSummed l f r × IsValid m l × IsValid m r

module _ (m : Stores) where
  -- the two parts of a range of a store
  pub data_at-take :
      (source off n k : ℕ) → k ≤ n → data_at m source off k ≡ take k (data_at m source off n)
  unfolding data_at
  data_at-take source off n k h = sym (take-take_le k n (drop off (store m source)) h)

  pub data_at-drop :
      (source off n k : ℕ) → data_at m source (off + k) (n - k) ≡ drop k (data_at m source off n)
  unfolding data_at
  data_at-drop source off n k =
      ap (take (n - k)) (sym (drop-drop off k (store m source)))
      ∙ sym (drop-take k n (drop off (store m source)))

  pub length-data_at :
      (source off n : ℕ) → off + n ≤ length (store m source) → length (data_at m source off n) ≡ n
  unfolding data_at
  length-data_at source off n h =
      omega (arith, length-take n (drop off (store m source)), length-drop off (store m source))

  pub length-data_of : (f : Fields) → IsPiece m f → length (data_of m f) ≡ f.length
  unfolding data_at
  length-data_of f v = omega (
    arith,
    v.within,
    length-take f.length (drop f.offset (store m f.source)),
    length-drop f.offset (store m f.source),
  )

  pub nb-eq-length : (p : Piece) → IsValid m p → nb p ≡ length (bytes m p)
  unfolding nb
  nb-eq-length null v = refl
  nb-eq-length (piece l f r) (v, s, vl, vr) = omega (
    arith,
    s.bytes_sum,
    nb-eq-length l vl,
    nb-eq-length r vr,
    length-data_of f v,
    length-append (bytes m l) (data_of m f ++ bytes m r),
    length-append (data_of m f) (bytes m r),
  )

  pub nl-eq-count : (p : Piece) → IsValid m p → nl p ≡ count_if is_newline (bytes m p)
  unfolding nl
  nl-eq-count null v = refl
  nl-eq-count (piece l f r) (v, s, vl, vr) = omega (
    arith,
    s.lines_sum,
    nl-eq-count l vl,
    nl-eq-count r vr,
    v.newlines,
    count_if-append is_newline (bytes m l) (data_of m f ++ bytes m r),
    count_if-append is_newline (data_of m f) (bytes m r),
  )

  pub nc-eq-count : (p : Piece) → IsValid m p → nc p ≡ count_if is_char (bytes m p)
  unfolding nc
  nc-eq-count null v = refl
  nc-eq-count (piece l f r) (v, s, vl, vr) = omega (
    arith,
    s.chars_sum,
    nc-eq-count l vl,
    nc-eq-count r vr,
    v.chars,
    count_if-append is_char (bytes m l) (data_of m f ++ bytes m r),
    count_if-append is_char (data_of m f) (bytes m r),
  )

  -- `update` makes a node valid over valid children that its priority admits.
  pub update-IsValid :
      (l : Piece) (f : Fields) (r : Piece)
      → IsPiece m f
      → RootLe f.priority l
      → RootLe f.priority r
      → IsValid m l
      → IsValid m r
      → IsValid m (update l f r)
  unfolding update
  update-IsValid l f r v hl hr vl vr = (
    record { within = v.within; newlines = v.newlines; chars = v.chars },
    record { bytes_sum = refl; lines_sum = refl; chars_sum = refl; left_le = hl; right_le = hr },
    vl,
    vr,
  )

  pub bytes-update :
      (l : Piece) (f : Fields) (r : Piece)
      → bytes m (update l f r) ≡ bytes m l ++ (data_of m f ++ bytes m r)
  unfolding update
  bytes-update l f r = refl

  leaf-IsPiece :
      (random source off n : ℕ)
      → off + n ≤ length (store m source)
      → IsPiece m (leaf m random source off n)
  unfolding leaf
  leaf-IsPiece random source off n h = record { within = h; newlines = refl; chars = refl }

  pub node-IsValid :
      (random source off n : ℕ)
      → off + n ≤ length (store m source)
      → IsValid m (node m random source off n)
  unfolding node
  node-IsValid random source off n h =
      update-IsValid null (leaf m random source off n) null (leaf-IsPiece random source off n h) tt
        tt tt tt

  pub bytes-node :
      (random source off n : ℕ) → bytes m (node m random source off n) ≡ data_at m source off n
  unfolding node
  bytes-node random source off n = append-nil (data_at m source off n)

  -- The two leaves of a cut piece, with the priority that `split` gives them.
  pub set_priority-node :
      (x random source off n : ℕ)
      → off + n ≤ length (store m source)
      → IsValid m (set_priority x (node m random source off n))
        × (bytes m (set_priority x (node m random source off n)) ≡ data_at m source off n)
        × RootLe x (set_priority x (node m random source off n))
  unfolding set_priority node
  set_priority-node x random source off n h = (
    update-IsValid null (record (leaf m random source off n) { priority = x }) null
        (record { within = h; newlines = refl; chars = refl }) tt tt tt tt,
    append-nil (data_at m source off n),
    omega arith,
  )
