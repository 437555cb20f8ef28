-- ===== src/Text/Edit/Append.antt =====
-- Bytes appended to the store of added text: the old pieces keep theirs, and `append_right` of
-- src/text.c may let the last one grow over them.
use cpymacs.Base.{
  Bool-cases, List, Option-cases, ap, append-nil, append_assoc, ap₂, arith, count_if,
  count_if-append, drop, drop-append_le, false, inl, inr, length, length-append, length-drop, refl,
  some, sym, take, take-append_le, take_all, true, ℕ, ◌++◌, ◌+◌, ◌==◌, ◌∙◌, ◌≡◌, ◌≤◌,
}
use mathlib.Core.Path.{subst}
use cpymacs.Text.Piece.{
  piece, null, Fields, Piece, Stores, data_at, data_of, is_char, is_newline, store, update,
}
use cpymacs.Text.Piece.Bytes.{IsPiece, IsValid, bytes, RootLe, bytes-update, update-IsValid}
use cpymacs.Text.Edit.{append_right}
use cpymacs.Text.Piece.Merge.{RootLe-update}

abbrev pub extended : Stores → List ℕ → Stores
extended m s = record m { added = m.added ++ s }

module _ (m : Stores) (s : List ℕ) where
  store_original :
      (source : ℕ) → (source == 0) ≡ true → store (extended m s) source ≡ store m source
  unfolding store
  store_original source e = rw e

  store_added :
      (source : ℕ) → (source == 0) ≡ false → store (extended m s) source ≡ store m source ++ s
  unfolding store
  store_added source e = rw e

  -- A place in a store keeps its bytes.
  within_extended :
      (source off : ℕ) → off ≤ length (store m source) → off ≤ length (store (extended m s) source)
  within_extended source off h = elim (Bool-cases (source == 0)) [
    | inl e ↦ rw (store_original source e) h
    | inr e ↦ rw (store_added source e) (omega (arith, length-append (store m source) s))
  ]

  data_at-extended :
      (source off n : ℕ)
      → off + n ≤ length (store m source)
      → data_at (extended m s) source off n ≡ data_at m source off n
  unfolding data_at
  data_at-extended source off n h = elim (Bool-cases (source == 0)) [
    | inl e ↦ rw (store_original source e)
    | inr e ↦
        ap (λ t. take n (drop off t)) (store_added source e)
        ∙ ap (take n) (drop-append_le off (store m source) s (omega arith))
        ∙ take-append_le n (drop off (store m source)) s
            (omega (arith, length-drop off (store m source)))
  ]

  -- The pieces of a valid tree keep their bytes, and the tree stays valid.
  pub extended-IsValid :
      (p : Piece) → IsValid m p → IsValid (extended m s) p × (bytes (extended m s) p ≡ bytes m p)
  extended-IsValid null v = (tt, refl)
  extended-IsValid (piece l f r) (v, b, vl, vr) =
      let (wl, el) = extended-IsValid l vl in
      let (wr, er) = extended-IsValid r vr in
      let same = data_at-extended f.source f.offset f.length v.within in
      (
        (
          record {
            within = within_extended f.source (f.offset + f.length) v.within;
            newlines = v.newlines ∙ ap (count_if is_newline) (sym same);
            chars = v.chars ∙ ap (count_if is_char) (sym same);
          },
          b,
          wl,
          wr,
        ),
        ap₂ ◌++◌ el (ap₂ ◌++◌ same er),
      )

-- A slice that ends where a list ends grows by what is appended to the list.
slice_grows :
    (a s : List ℕ) (off n : ℕ)
    → off + n ≡ length a
    → take (n + length s) (drop off (a ++ s)) ≡ take n (drop off (a ++ s)) ++ s
slice_grows a s off n h =
    let x = drop off a in
    let size : length x ≡ n = omega (arith, length-drop off a) in
    rw (drop-append_le off a s (omega arith)) (
      take_all (n + length s) (x ++ s) (omega (arith, length-append x s))
      ∙ ap (λ t. t ++ s) (sym (take-append_le n x s (omega arith) ∙ take_all n x (omega arith))))

-- The piece that ends where the added text ended takes up the new bytes.
abbrev grown : Fields → List ℕ → Fields
grown f s = record f {
  length = f.length + length s;
  newlines = f.newlines + count_if is_newline s;
  chars = f.chars + count_if is_char s;
}

module _ (m : Stores) (s : List ℕ) where
  data_of-grown :
      (f : Fields)
      → (f.source == 0) ≡ false
      → f.offset + f.length ≡ length m.added
      → data_of (extended m s) (grown f s) ≡ data_of (extended m s) f ++ s
  unfolding data_at store
  data_of-grown f e h = rw e (slice_grows m.added s f.offset f.length h)

  within_grown :
      (f : Fields)
      → (f.source == 0) ≡ false
      → f.offset + f.length ≡ length m.added
      → f.offset + (f.length + length s) ≤ length (store (extended m s) f.source)
  unfolding store
  within_grown f e h = rw e (omega (arith, length-append m.added s))

  grown-IsPiece :
      (f : Fields)
      → (f.source == 0) ≡ false
      → f.offset + f.length ≡ length m.added
      → IsPiece (extended m s) f
      → IsPiece (extended m s) (grown f s)
  grown-IsPiece f e h v =
      let same = data_of-grown f e h in
      record {
        within = within_grown f e h;
        newlines =
            rw same (rw (count_if-append is_newline (data_of (extended m s) f) s, ← v.newlines));
        chars = rw same (rw (count_if-append is_char (data_of (extended m s) f) s, ← v.chars));
      }

  -- What `append_right` returns stands for the old bytes and the new ones, where the tree's last
  -- piece may grow; its root keeps its priority.
  pub record IsGrown (a a' : Piece) : Type 0 where
    pub valid : IsValid (extended m s) a'
    pub joined : bytes (extended m s) a' ≡ bytes (extended m s) a ++ s
    pub root : (k : ℕ) → RootLe k a → RootLe k a'

  grown_last :
      (l : Piece) (f : Fields)
      → (f.source == 0) ≡ false
      → f.offset + f.length ≡ length m.added
      → IsValid (extended m s) (piece l f null)
      → IsGrown (piece l f null) (update l (grown f s) null)
  grown_last l f e h (v, b, vl, vr) = record {
    valid =
        update-IsValid (extended m s) l (grown f s) null (grown-IsPiece f e h v) b.left_le tt vl tt;
    joined =
        bytes-update (extended m s) l (grown f s) null
        ∙ rw (data_of-grown f e h) (simp (append_assoc, append-nil));
    root = λ k g. RootLe-update k l (grown f s) null g;
  }

  IsGrown-right :
      (l : Piece) (f : Fields) (r r' : Piece)
      → IsValid (extended m s) (piece l f r)
      → IsGrown r r'
      → IsGrown (piece l f r) (update l f r')
  IsGrown-right l f r r' (v, b, vl, vr) g = record {
    valid =
        update-IsValid (extended m s) l f r' v b.left_le (g.root f.priority b.right_le) vl g.valid;
    joined = bytes-update (extended m s) l f r' ∙ rw g.joined (simp append_assoc);
    root = λ k h. RootLe-update k l f r' h;
  }

  pub append_right-IsGrown :
      (a a' : Piece)
      → IsValid (extended m s) a
      → append_right a (length m.added) s ≡ some a'
      → IsGrown a a'
  unfolding append_right
  append_right-IsGrown null a' v h = cc
  append_right-IsGrown (piece l f null) a' v h = elim (Bool-cases (f.source == 0)) [
    | inl e ↦ absurd (ground arith)
    | inr e ↦ subst (IsGrown (piece l f null)) (ground arith) (grown_last l f e (ground arith) v)
  ]
  append_right-IsGrown (piece l f (piece rl rf rr)) a' v h =
      elim (Option-cases (append_right (piece rl rf rr) (length m.added) s)) [
        | inl e ↦ absurd (ground arith)
        | inr (x, e) ↦
            subst (IsGrown (piece l f (piece rl rf rr))) (ground arith) (
              IsGrown-right l f (piece rl rf rr) x v
                (append_right-IsGrown (piece rl rf rr) x v.3 e))
      ]
