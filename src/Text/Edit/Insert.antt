-- ===== src/Text/Edit/Insert.antt =====
-- `text_insert` and `text_init` of src/text.c: the invariant, and the text that they leave.
use cpymacs.Base.{
  Bool, List, Option-cases, ap, append_assoc, ap₂, arith, drop, drop-append_ge, inl, inr, leb,
  length, length-append, ltb, none, not, some, take, take_all, true, ℕ, ◌&&◌, ◌++◌, ◌+◌, ◌<◌, ◌∙◌,
  ◌≡◌, ◌≤◌, ◌⊎◌,
}
use cpymacs.Utf8.{utf8_valid}
use cpymacs.Utf8.Boundary.{boundary, utf8_valid-append, utf8_valid-split}
use cpymacs.Text.Edit.{
  Text, append_right, insert_between, inserted, size_max, sub_size, insert_refuses,
}
use cpymacs.Text.Piece.{Piece, Stores, data_at, merge, store, pieces, split}
use cpymacs.Text.Piece.Merge.{bytes-merge, merge-IsValid}
use cpymacs.Text.Piece.Bytes.{IsValid, bytes}
use cpymacs.Text.Edit.Append.{append_right-IsGrown, extended, extended-IsValid}
use cpymacs.Text.Edit.Byte.{content, text_boundary_lem}
use cpymacs.Text.Edit.Pieces.{pieces_lem}
use cpymacs.Text.Piece.Split.{split-IsCut}
use cpymacs.Text.Edit.Growth.{new_cap_bounds}

-- The invariant of a `Text`: a valid tree over stores that hold its bytes, the added bytes and
-- their final NUL within the capacity, and valid UTF-8 for the text as a whole.
pub record IsText (t : Text) : Type 0 where
  pub tree : IsValid t.stores t.root
  pub room : (length t.stores.added ≡ 0) ⊎ (length t.stores.added < t.added_cap)
  pub small : t.added_cap ≤ size_max
  pub utf8 : utf8_valid (content t) ≡ true

-- the guards of `text_insert` in terms of the text, with the size that must not overflow
abbrev pub accepts : Text → ℕ → List ℕ → Bool
accepts t at s =
    boundary (content t) at && (utf8_valid s && leb (length t.stores.added + length s + 1) size_max)

abbrev pub splice : List ℕ → ℕ → ℕ → List ℕ → List ℕ
splice text at count s = take at text ++ (s ++ drop (at + count) text)

-- What `insert_between` returns: the halves' bytes with the new ones between them, in a valid tree.
pub record IsBetween (t : Text) (s : List ℕ) (a b : Piece) (random0 : ℕ) : Type 0 where
  pub root : Piece
  pub random : ℕ
  pub returns : insert_between t s a b random0 ≡ some (inserted t s root random)
  pub valid : IsValid (extended t.stores s) root
  pub joined :
      bytes (extended t.stores s) root
      ≡ bytes (extended t.stores s) a ++ (s ++ bytes (extended t.stores s) b)

-- the new bytes, where they stand in the store
store_added_end :
    (m : Stores) (s : List ℕ)
    → (length m.added + length s ≤ length (store (extended m s) 1))
      × (data_at (extended m s) 1 (length m.added) (length s) ≡ s)
unfolding data_at
store_added_end m s = (
  omega (arith, length-append m.added s),
  ap (take (length s)) (
        drop-append_ge (length m.added) m.added s (omega arith)
        ∙ ap (λ k. drop k s) {y = 0} (omega arith))
      ∙ take_all (length s) s (omega arith),
)

module _ (t : Text) (s : List ℕ) (a b : Piece) (random : ℕ) where
  -- the stores once the new bytes are in
  abbrev stores : Stores
  stores = extended t.stores s

  returns_grown :
      (a' : Piece)
      → append_right a (length t.stores.added) s ≡ some a'
      → insert_between t s a b random ≡ some (inserted t s (merge a' b) random)
  unfolding insert_between
  returns_grown a' e = rw (e, insert_between)

  returns_new :
      (p : Piece) (random' : ℕ)
      → append_right a (length t.stores.added) s ≡ none
      → pieces (extended t.stores s) random 1 (length t.stores.added) (length s) ≡ some (p, random')
      → insert_between t s a b random ≡ some (inserted t s (merge (merge a p) b) random')
  unfolding insert_between
  returns_new p random' e h = rw (e, h, insert_between)

  insert_grown :
      (a' : Piece)
      → append_right a (length t.stores.added) s ≡ some a'
      → IsValid stores a
      → IsValid stores b
      → IsBetween t s a b random
  insert_grown a' e va vb =
      let g = append_right-IsGrown t.stores s a a' va e in
      record {
        root = merge a' b;
        random = random;
        returns = returns_grown a' e;
        valid = merge-IsValid stores a' b g.valid vb;
        joined =
            bytes-merge stores a' b
            ∙ ap (λ x. x ++ bytes stores b) g.joined
            ∙ append_assoc (bytes stores a) s (bytes stores b);
      }

  insert_new :
      utf8_valid s ≡ true
      → append_right a (length t.stores.added) s ≡ none
      → IsValid stores a
      → IsValid stores b
      → IsBetween t s a b random
  insert_new u e va vb =
      let (room, same) = store_added_end t.stores s in
      let ((p, random'), h, vp, bp) =
        pieces_lem stores random 1 (length t.stores.added) (length s) room (rw same u) in
      record {
        root = merge (merge a p) b;
        random = random';
        returns = returns_new p random' e h;
        valid = merge-IsValid stores (merge a p) b (merge-IsValid stores a p va vp) vb;
        joined =
            bytes-merge stores (merge a p) b
            ∙ ap (λ x. x ++ bytes stores b)
                (bytes-merge stores a p ∙ ap (bytes stores a ++◌) (bp ∙ same))
            ∙ append_assoc (bytes stores a) s (bytes stores b);
      }

  pub insert_between_lem :
      utf8_valid s ≡ true → IsValid stores a → IsValid stores b → IsBetween t s a b random
  insert_between_lem u va vb = elim (Option-cases (append_right a (length t.stores.added) s)) [
    | inl e ↦ insert_new u e va vb
    | inr (a', e) ↦ insert_grown a' e va vb
  ]

-- The guards of the code are those of `accepts`.
pub insert_refuses_lem :
    (t : Text) (at : ℕ) (s : List ℕ) → IsText t → insert_refuses t at s ≡ not (accepts t at s)
unfolding insert_refuses
insert_refuses_lem t at s v = rw (text_boundary_lem t at v.tree, room) (ground arith)
  where
    room :
        ltb (sub_size (sub_size size_max (length t.stores.added)) 1) (length s)
        ≡ not (leb (length t.stores.added + length s + 1) size_max)
    room = let l : length t.stores.added < size_max = omega (arith, v.room, v.small) in ground arith

-- the text that a cut and an insertion leave, and that it is valid
pub splice-utf8_valid :
    (text : List ℕ) (at count : ℕ) (s : List ℕ)
    → utf8_valid text ≡ true
    → utf8_valid s ≡ true
    → boundary text at ≡ true
    → boundary text (at + count) ≡ true
    → utf8_valid (splice text at count s) ≡ true
splice-utf8_valid text at count s h u b b' =
    utf8_valid-append (take at text) (s ++ drop (at + count) text) (utf8_valid-split text at h b).0
      (utf8_valid-append s (drop (at + count) text) u (utf8_valid-split text (at + count) h b').1)

module _ (t : Text) (at : ℕ) (s : List ℕ) (v : IsText t) (ok : accepts t at s ≡ true) where
  pub content-inserted :
      (root : Piece) (random : ℕ)
      → (let cut = split (extended t.stores s) t.random t.root at in
          bytes (extended t.stores s) root
          ≡ bytes (extended t.stores s) cut.0 ++ (s ++ bytes (extended t.stores s) cut.1))
      → content (inserted t s root random).1 ≡ splice (content t) at 0 s
  content-inserted root random e =
      let (w, same) = extended-IsValid t.stores s t.root v.tree in
      let cut = split-IsCut (extended t.stores s) t.random t.root at w in
      e
      ∙ ap₂ (λ x y. x ++ (s ++ y)) (cut.before ∙ ap (take at) same)
          (cut.behind ∙ ap (drop at) same ∙ ap (λ k. drop k (content t)) (omega arith))

  pub inserted-IsText :
      (root : Piece) (random : ℕ)
      → IsValid (extended t.stores s) root
      → content (inserted t s root random).1 ≡ splice (content t) at 0 s
      → IsText (inserted t s root random).1
  inserted-IsText root random w e =
      let g : (boundary (content t) at ≡ true)
          × (utf8_valid s ≡ true)
          × (length t.stores.added + length s + 1 ≤ size_max) =
        ground arith in
      let cap = new_cap_bounds t.added_cap (length t.stores.added + length s + 1) v.small g.2 in
      record {
        tree = w;
        room = inr (omega (arith, cap.0, length-append t.stores.added s));
        small = cap.1;
        utf8 = rw e (
            splice-utf8_valid (content t) at 0 s v.utf8 g.1 g.0
              (ap (boundary (content t)) (omega arith) ∙ g.0));
      }
