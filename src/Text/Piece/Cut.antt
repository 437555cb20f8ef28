-- ===== src/Text/Piece/Cut.antt =====
-- What it is to cut a tree of pieces at a byte offset, and the five cases of `split` of src/text.c.
use cpymacs.Base.{
  ap, append-nil, arith, drop, drop-append_ge, drop-append_le, drop_all, length, sym, take,
  take-append_ge, take-append_le, take_all, ℕ, ◌++◌, ◌+◌, ◌-◌, ◌<◌, ◌∙◌, ◌≡◌, ◌≤◌,
}
use cpymacs.Text.Piece.{
  piece, null, Fields, Piece, Stores, merge, nb, node, set_priority, update, data_of,
}
use cpymacs.Text.Piece.Bytes.{
  IsValid, RootLe, bytes, bytes-update, length-data_of, nb-eq-length, update-IsValid,
  set_priority-node, data_at-drop, data_at-take,
}
use cpymacs.Text.Piece.Merge.{RootLe-trans, RootLe-update, RootLe-merge, bytes-merge, merge-IsValid}

-- The two trees of a cut: the bytes before and behind `at`, valid, with roots of the old priority.
pub record IsCut (m : Stores) (p : Piece) (at : ℕ) (a b : Piece) : Type 0 where
  pub before : bytes m a ≡ take at (bytes m p)
  pub behind : bytes m b ≡ drop at (bytes m p)
  pub left_valid : IsValid m a
  pub right_valid : IsValid m b
  pub left_root : (k : ℕ) → RootLe k p → RootLe k a
  pub right_root : (k : ℕ) → RootLe k p → RootLe k b

module _ {m : Stores} {l : Piece} {f : Fields} {r : Piece} (at : ℕ)
    (v : IsValid m (piece l f r)) where
  left_size : nb l ≡ length (bytes m l)
  left_size = nb-eq-length m l v.2

  piece_size : f.length ≡ length (data_of m f)
  piece_size = sym (length-data_of m f v.0)

  pub IsCut-low :
      {a b : Piece} → at < nb l → IsCut m l at a b → IsCut m (piece l f r) at a (update b f r)
  IsCut-low {b = b} h c = record {
    before =
        c.before
        ∙ sym (take-append_le at (bytes m l) (data_of m f ++ bytes m r) (omega (arith, left_size)));
    behind =
        bytes-update m b f r
        ∙ ap (λ t. t ++ (data_of m f ++ bytes m r)) c.behind
        ∙ sym (drop-append_le at (bytes m l) (data_of m f ++ bytes m r) (omega (arith, left_size)));
    left_valid = c.left_valid;
    right_valid =
        update-IsValid m b f r v.0 (c.right_root f.priority v.1.left_le) v.1.right_le c.right_valid
          v.3;
    left_root = λ k h. c.left_root k (RootLe-trans l v.1.left_le h);
    right_root = λ k h. RootLe-update k b f r h;
  }

  pub IsCut-high :
      {a b : Piece}
      → nb l + f.length ≤ at
      → IsCut m r (at - nb l - f.length) a b
      → IsCut m (piece l f r) at (update l f a) b
  IsCut-high {a} h c = record {
    before = bytes-update m l f a ∙ ap (λ t. bytes m l ++ (data_of m f ++ t)) c.before ∙ sym taken;
    behind = c.behind ∙ sym dropped;
    left_valid =
        update-IsValid m l f a v.0 v.1.left_le (c.left_root f.priority v.1.right_le) v.2
          c.left_valid;
    right_valid = c.right_valid;
    left_root = λ k h. RootLe-update k l f a h;
    right_root = λ k h. c.right_root k (RootLe-trans r v.1.right_le h);
  }
    where
      same : at - length (bytes m l) - length (data_of m f) ≡ at - nb l - f.length
      same = omega (arith, left_size, piece_size)

      taken :
          take at (bytes m l ++ (data_of m f ++ bytes m r))
          ≡ bytes m l ++ (data_of m f ++ take (at - nb l - f.length) (bytes m r))
      taken =
          take-append_ge at (bytes m l) (data_of m f ++ bytes m r) (omega (arith, left_size))
          ∙ ap (bytes m l ++◌) (
              take-append_ge (at - length (bytes m l)) (data_of m f) (bytes m r)
                (omega (arith, left_size, piece_size)))
          ∙ ap (λ n. bytes m l ++ (data_of m f ++ take n (bytes m r))) same

      dropped :
          drop at (bytes m l ++ (data_of m f ++ bytes m r))
          ≡ drop (at - nb l - f.length) (bytes m r)
      dropped =
          drop-append_ge at (bytes m l) (data_of m f ++ bytes m r) (omega (arith, left_size))
          ∙ drop-append_ge (at - length (bytes m l)) (data_of m f) (bytes m r)
              (omega (arith, left_size, piece_size))
          ∙ ap (λ n. drop n (bytes m r)) same

  -- The bytes on both sides of a place inside the piece, its ends included.
  taken_inside :
      (k : ℕ)
      → at ≡ nb l + k
      → k ≤ f.length
      → take at (bytes m (piece l f r)) ≡ bytes m l ++ take k (data_of m f)
  taken_inside k e h =
      take-append_ge at (bytes m l) (data_of m f ++ bytes m r) (omega (arith, left_size))
      ∙ ap (bytes m l ++◌) (
          ap (λ n. take n (data_of m f ++ bytes m r)) {y = k} (omega (arith, left_size))
          ∙ take-append_le k (data_of m f) (bytes m r) (omega (arith, piece_size)))

  dropped_inside :
      (k : ℕ)
      → at ≡ nb l + k
      → k ≤ f.length
      → drop at (bytes m (piece l f r)) ≡ drop k (data_of m f) ++ bytes m r
  dropped_inside k e h =
      drop-append_ge at (bytes m l) (data_of m f ++ bytes m r) (omega (arith, left_size))
      ∙ ap (λ n. drop n (data_of m f ++ bytes m r)) {y = k} (omega (arith, left_size))
      ∙ drop-append_le k (data_of m f) (bytes m r) (omega (arith, piece_size))

  pub IsCut-before : at ≡ nb l → IsCut m (piece l f r) at l (update null f r)
  IsCut-before e = record {
    before = sym (taken_inside 0 (omega arith) (omega arith) ∙ append-nil (bytes m l));
    behind = bytes-update m null f r ∙ sym (dropped_inside 0 (omega arith) (omega arith));
    left_valid = v.2;
    right_valid = update-IsValid m null f r v.0 tt v.1.right_le tt v.3;
    left_root = λ k h. RootLe-trans l v.1.left_le h;
    right_root = λ k h. RootLe-update k null f r h;
  }

  pub IsCut-behind : at ≡ nb l + f.length → IsCut m (piece l f r) at (update l f null) r
  IsCut-behind e = record {
    before =
        bytes-update m l f null
        ∙ ap (bytes m l ++◌) (
            append-nil (data_of m f)
            ∙ sym (take_all f.length (data_of m f) (omega (arith, piece_size))))
        ∙ sym (taken_inside f.length e (omega arith));
    behind = sym (
        dropped_inside f.length e (omega arith)
        ∙ ap (λ t. t ++ bytes m r) (drop_all f.length (data_of m f) (omega (arith, piece_size))));
    left_valid = update-IsValid m l f null v.0 v.1.left_le tt v.2 tt;
    right_valid = v.3;
    left_root = λ k h. RootLe-update k l f null h;
    right_root = λ k h. RootLe-trans r v.1.right_le h;
  }

  pub IsCut-inside :
      (r1 r2 k : ℕ)
      → at ≡ nb l + k
      → k ≤ f.length
      → IsCut m
          (piece l f r)
          at
          (merge l (set_priority f.priority (node m r1 f.source f.offset k)))
          (merge (set_priority f.priority (node m r2 f.source (f.offset + k) (f.length - k))) r)
  IsCut-inside r1 r2 k e h =
      let x = set_priority f.priority (node m r1 f.source f.offset k) in
      let y = set_priority f.priority (node m r2 f.source (f.offset + k) (f.length - k)) in
      let left =
        set_priority-node m f.priority r1 f.source f.offset k (omega (arith, v.0.within)) in
      let right =
        set_priority-node m f.priority r2 f.source (f.offset + k) (f.length - k)
          (omega (arith, v.0.within)) in
      record {
        before =
            bytes-merge m l x
            ∙ ap (bytes m l ++◌) (left.1 ∙ data_at-take m f.source f.offset f.length k h)
            ∙ sym (taken_inside k e h);
        behind =
            bytes-merge m y r
            ∙ ap (λ t. t ++ bytes m r) (right.1 ∙ data_at-drop m f.source f.offset f.length k)
            ∙ sym (dropped_inside k e h);
        left_valid = merge-IsValid m l x v.2 left.0;
        right_valid = merge-IsValid m y r right.0 v.3;
        left_root =
            λ j g. RootLe-merge j l x (RootLe-trans l v.1.left_le g) (RootLe-trans x left.2 g);
        right_root =
            λ j g. RootLe-merge j y r (RootLe-trans y right.2 g) (RootLe-trans r v.1.right_le g);
      }
