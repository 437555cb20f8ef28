-- ===== src/Text/Piece/Split.antt =====
-- `split` of src/text.c: it cuts a tree at a byte offset.
use cpymacs.Base.{
  ==→eq, Bool-cases, [], arith, drop_all, false, inl, inr, ltb, ltb→lt, sym, take_all, tests, true,
  ℕ, ◌+◌, ◌-◌, ◌==◌, ◌≡◌,
}
use cpymacs.Text.Piece.{
  piece, null, Fields, Piece, Stores, merge, nb, node, random_next, set_priority, split, update,
}
use cpymacs.Text.Piece.Bytes.{IsValid}
use cpymacs.Text.Piece.Cut.{IsCut, IsCut-before, IsCut-behind, IsCut-high, IsCut-inside, IsCut-low}

module _ (m : Stores) (random : ℕ) (l : Piece) (f : Fields) (r : Piece) (at : ℕ) where
  split_low :
      ltb at (nb l) ≡ true
      → let s = split m random l at in split m random (piece l f r) at ≡ (s.0, update s.1 f r, s.2)
  unfolding split
  split_low e = rw (e, split)

  split_high :
      ltb at (nb l) ≡ false
      → ltb (nb l + f.length) at ≡ true
      → let s = split m random r (at - nb l - f.length) in
        split m random (piece l f r) at ≡ (update l f s.0, s.1, s.2)
  unfolding split
  split_high e h = rw (e, h, split)

  split_before :
      ltb at (nb l) ≡ false
      → ltb (nb l + f.length) at ≡ false
      → (at == nb l) ≡ true
      → split m random (piece l f r) at ≡ (l, update null f r, random)
  unfolding split
  split_before e h i = rw (e, h, i, split)

  split_behind :
      ltb at (nb l) ≡ false
      → ltb (nb l + f.length) at ≡ false
      → (at == nb l) ≡ false
      → (at == nb l + f.length) ≡ true
      → split m random (piece l f r) at ≡ (update l f null, r, random)
  unfolding split
  split_behind e h i j = rw (e, h, i, j, split)

  split_inside :
      ltb at (nb l) ≡ false
      → ltb (nb l + f.length) at ≡ false
      → (at == nb l) ≡ false
      → (at == nb l + f.length) ≡ false
      → let k = at - nb l in
        let random1 = random_next random in
        let random2 = random_next random1 in
        split m random (piece l f r) at ≡ (
          merge l (set_priority f.priority (node m random1 f.source f.offset k)),
          merge (set_priority f.priority (node m random2 f.source (f.offset + k) (f.length - k))) r,
          random2,
        )
  unfolding split
  split_inside e h i j = rw (e, h, i, j, split)

-- one node, from the cuts of its children
split_node-IsCut :
    (m : Stores) (random : ℕ) (l : Piece) (f : Fields) (r : Piece) (at : ℕ)
    → IsValid m (piece l f r)
    → (let s = split m random l at in IsCut m l at s.0 s.1)
    → (let o = at - nb l - f.length in let s = split m random r o in IsCut m r o s.0 s.1)
    → let s = split m random (piece l f r) at in IsCut m (piece l f r) at s.0 s.1
split_node-IsCut m random l f r at v low high = elim (Bool-cases (ltb at (nb l))) [
  | inl e ↦ rw (split_low m random l f r at e) (IsCut-low at v (ltb→lt at (nb l) e) low)
  | inr e ↦ elim (Bool-cases (ltb (nb l + f.length) at)) [
    | inl h ↦
        rw (split_high m random l f r at e h)
          (IsCut-high at v (omega (arith, ltb→lt (nb l + f.length) at h)) high)
    | inr h ↦ elim (Bool-cases (at == nb l)) [
      | inl i ↦ rw (split_before m random l f r at e h i) (IsCut-before at v (==→eq at (nb l) i))
      | inr i ↦ elim (Bool-cases (at == nb l + f.length)) [
        | inl j ↦
            rw (split_behind m random l f r at e h i j)
              (IsCut-behind at v (==→eq at (nb l + f.length) j))
        | inr j ↦ rw (split_inside m random l f r at e h i j) (
            IsCut-inside at v (random_next random) (random_next (random_next random)) (at - nb l)
              (omega tests) (omega tests))
      ]
    ]
  ]
]

-- `split` cuts every valid tree, at every offset, into valid trees of the bytes before and behind.
pub split-IsCut :
    (m : Stores) (random : ℕ) (p : Piece) (at : ℕ)
    → IsValid m p
    → let s = split m random p at in IsCut m p at s.0 s.1
unfolding split
split-IsCut m random null at v = record {
  before = sym (take_all at [] (omega arith));
  behind = sym (drop_all at [] (omega arith));
  left_valid = tt;
  right_valid = tt;
  left_root = λ k h. tt;
  right_root = λ k h. tt;
}
split-IsCut m random (piece l f r) at v =
    split_node-IsCut m random l f r at v (split-IsCut m random l at v.2)
      (split-IsCut m random r (at - nb l - f.length) v.3)
