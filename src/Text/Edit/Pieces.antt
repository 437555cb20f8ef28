-- ===== src/Text/Edit/Pieces.antt =====
-- `pieces` of src/text.c: valid text is taken into pieces to the end.
use cpymacs.Base.{
  ==→eq, Bool-cases, List, ap, append-nil, append_assoc, ap₂, arith, drop, false, get_or, inl, inr,
  length, ltb, ltb→lt, refl, some, suc, sym, take, take-append-drop, true, zero, ℕ, ◌++◌, ◌+◌, ◌-◌,
  ◌<◌, ◌==◌, ◌∙◌, ◌≡◌, ◌≤◌, ◌⊎◌,
}
use cpymacs.Utf8.Bytes.{is_continuation}
use cpymacs.Text.Piece.{
  back_to_char, Piece, Stores, chunk, data_at, pieces_from, store, merge, node, random_next, null,
  pieces,
}
use cpymacs.Utf8.Boundary.{boundary, first_boundary, Chars-split}
use cpymacs.Utf8.Chars.{Chars}
use cpymacs.Text.Piece.Bytes.{
  IsValid, bytes, length-data_at, bytes-node, data_at-drop, data_at-take, node-IsValid,
}
use cpymacs.Utf8.{utf8_valid}
use cpymacs.Utf8.Valid.{utf8_valid-Chars}
use cpymacs.Text.Piece.Merge.{bytes-merge, merge-IsValid}

-- A way back over continuation bytes stops at the first other byte.
back_to_char_le : (s : List ℕ) (m : ℕ) → back_to_char s m ≤ m
unfolding back_to_char
back_to_char_le s zero = omega arith
back_to_char_le s (suc m) = ground (arith, back_to_char_le s m)

back_to_char_ge :
    (s : List ℕ) (m j : ℕ) → is_continuation (get_or s j 0) ≡ false → j ≤ m → j ≤ back_to_char s m
unfolding back_to_char
back_to_char_ge s zero j h l = l
back_to_char_ge s (suc m) j h l = elim (Bool-cases (j == suc m)) [
  | inl e ↦
      let stop : is_continuation (get_or s (suc m) 0) ≡ false = rw (==→eq j (suc m) e) at h in
      rw stop l
  | inr e ↦ ground (arith, back_to_char_ge s m j h)
]

back_to_char_stop :
    (s : List ℕ) (m : ℕ)
    → 0 < back_to_char s m
    → is_continuation (get_or s (back_to_char s m) 0) ≡ false
unfolding back_to_char
back_to_char_stop s zero h = absurd (omega arith)
back_to_char_stop s (suc m) h = elim (Bool-cases (is_continuation (get_or s (suc m) 0))) [
  | inl e ↦ rw e (back_to_char_stop s m (rw e at h))
  | inr e ↦ rw e e
]

chunk_long : (s : List ℕ) (n : ℕ) → ltb 4096 n ≡ true → chunk s n ≡ back_to_char s 4096
unfolding chunk
chunk_long s n e = ground arith

chunk_short : (s : List ℕ) (n : ℕ) → ltb 4096 n ≡ false → chunk s n ≡ n
unfolding chunk
chunk_short s n e = ground arith

boundary_of :
    (s : List ℕ) (at : ℕ)
    → at ≤ length s
    → (at ≡ length s) ⊎ (is_continuation (get_or s at 0) ≡ false)
    → boundary s at ≡ true
unfolding boundary
boundary_of s at h e = ground arith

-- A chunk of valid text is not empty, and ends at a boundary.
record IsChunk (s : List ℕ) (c : ℕ) : Type 0 where
  some_bytes : 0 < c
  within : c ≤ length s
  at_boundary : boundary s c ≡ true

chunk-IsChunk : (s : List ℕ) → Chars s → 0 < length s → IsChunk s (chunk s (length s))
chunk-IsChunk s h p = elim (Bool-cases (ltb 4096 (length s))) [
  | inl e ↦
      let long = ltb→lt 4096 (length s) e in
      let (j, j1, j4, b) = first_boundary h (omega arith) in
      let pos : 0 < back_to_char s 4096 =
        omega (arith, j1, j4, back_to_char_ge s 4096 j b (omega (arith, j4))) in
      let below : back_to_char s 4096 ≤ length s = omega (arith, back_to_char_le s 4096) in
      rw (chunk_long s (length s) e) (record {
        some_bytes = pos;
        within = below;
        at_boundary = boundary_of s _ below (inr (back_to_char_stop s 4096 pos));
      })
  | inr e ↦ rw (chunk_short s (length s) e) (record {
    some_bytes = p;
    within = omega arith;
    at_boundary = boundary_of s _ (omega arith) (inl refl);
  })
]

-- What the loop returns: the bytes of the start's tree and of the whole range, in valid pieces.
record IsTaken (m : Stores) (r : Piece) (s : List ℕ) (r' : Piece) : Type 0 where
  pub valid : IsValid m r'
  pub joined : bytes m r' ≡ bytes m r ++ s

pieces_from-IsTaken :
    (fuel : ℕ) (m : Stores) (random : ℕ) (r : Piece) (src off n : ℕ)
    → n ≤ fuel
    → off + n ≤ length (store m src)
    → Chars (data_at m src off n)
    → IsValid m r
    → (out : Piece × ℕ) × (pieces_from fuel m random r src off n ≡ some out)
      × IsTaken m r (data_at m src off n) out.0
unfolding pieces_from
pieces_from-IsTaken fuel m random r src off zero f w c v =
    ((r, random), refl, record { valid = v; joined = sym (append-nil (bytes m r)) })
pieces_from-IsTaken zero m random r src off (suc n) f w c v = absurd (omega arith)
pieces_from-IsTaken (suc fuel) m random r src off (suc n) f w c v =
    go (chunk s (suc n)) (rw size at (chunk-IsChunk s c (omega (arith, size))))
      (pieces_from-IsTaken fuel m (random_next random))
  where
    s : List ℕ
    s = data_at m src off (suc n)

    size : length s ≡ suc n
    size = length-data_at m src off (suc n) w

    go :
        (k : ℕ)
        → IsChunk s k
        → ((r : Piece) (src off n : ℕ)
            → n ≤ fuel
            → off + n ≤ length (store m src)
            → Chars (data_at m src off n)
            → IsValid m r
            → (out : Piece × ℕ) × (pieces_from fuel m (random_next random) r src off n ≡ some out)
              × IsTaken m r (data_at m src off n) out.0)
        → (out : Piece × ℕ) × (pieces_from fuel m
              (random_next random)
              (merge r (node m (random_next random) src off k))
              src
              (off + k)
              (suc n - k)
            ≡ some out)
          × IsTaken m r s out.0
    go k t ih =
        let le : k ≤ suc n = omega (arith, t.within, size) in
        let new = node m (random_next random) src off k in
        let fits : off + k ≤ length (store m src) = omega (arith, w, le) in
        let rest = data_at-drop m src off (suc n) k in
        let (out, e, all) =
          ih (merge r new) src (off + k) (suc n - k) (omega (arith, t.some_bytes, f))
            (omega (arith, w, le)) (rw rest (Chars-split k c t.at_boundary).1)
            (merge-IsValid m r new v (node-IsValid m (random_next random) src off k fits)) in
        (
          out,
          e,
          record {
            valid = all.valid;
            joined =
                all.joined
                ∙ ap₂ ◌++◌
                    (bytes-merge m r new
                      ∙ ap (bytes m r ++◌) (
                          bytes-node m (random_next random) src off k
                          ∙ data_at-take m src off (suc n) k le))
                    rest
                ∙ append_assoc (bytes m r) (take k s) (drop k s)
                ∙ ap (bytes m r ++◌) (take-append-drop k s);
          },
        )

-- On a range of valid text in its store `pieces` ends, with a valid tree of the bytes of the range.
pub pieces_lem :
    (m : Stores) (random src off n : ℕ)
    → off + n ≤ length (store m src)
    → utf8_valid (data_at m src off n) ≡ true
    → (out : Piece × ℕ) × (pieces m random src off n ≡ some out)
      × IsValid m out.0
      × (bytes m out.0 ≡ data_at m src off n)
unfolding pieces
pieces_lem m random src off n w h =
    let (out, e, t) =
      pieces_from-IsTaken n m random null src off n (omega arith) w
        (utf8_valid-Chars (data_at m src off n) h) tt in
    (out, e, t.valid, t.joined)
