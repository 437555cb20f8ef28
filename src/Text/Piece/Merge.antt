-- ===== src/Text/Piece/Merge.antt =====
-- `merge` of src/text.c: it joins two trees into one that stands for the bytes of both.
use cpymacs.Base.{
  Bool-cases, ap, append-nil, append_assoc, arith, false, inl, inr, ltb, refl, sym, tests, true, ℕ,
  ◌++◌, ◌∙◌, ◌≡◌, ◌≤◌,
}
use mathlib.Core.Path.{subst}
use cpymacs.Text.Piece.{piece, null, Fields, Piece, Stores, merge, update}
use cpymacs.Text.Piece.Bytes.{IsValid, RootLe, bytes, update-IsValid, bytes-update}

pub RootLe-trans : {j k : ℕ} (p : Piece) → RootLe j p → j ≤ k → RootLe k p
RootLe-trans null h l = tt
RootLe-trans (piece _ f _) h l = omega arith

pub RootLe-update :
    (k : ℕ) (l : Piece) (f : Fields) (r : Piece) → f.priority ≤ k → RootLe k (update l f r)
unfolding update
RootLe-update k l f r h = h

merge_left :
    (al : Piece) (af : Fields) (ar bl : Piece) (bf : Fields) (br : Piece)
    → ltb bf.priority af.priority ≡ true
    → merge (piece al af ar) (piece bl bf br) ≡ update al af (merge ar (piece bl bf br))
unfolding merge
merge_left al af ar bl bf br e = rw (e, merge)

merge_right :
    (al : Piece) (af : Fields) (ar bl : Piece) (bf : Fields) (br : Piece)
    → ltb bf.priority af.priority ≡ false
    → merge (piece al af ar) (piece bl bf br) ≡ update (merge (piece al af ar) bl) bf br
unfolding merge
merge_right al af ar bl bf br e = rw (e, merge)

-- The root of the result is one of the two roots.
pub RootLe-merge : (k : ℕ) (a b : Piece) → RootLe k a → RootLe k b → RootLe k (merge a b)
unfolding merge
RootLe-merge k null b ha hb = hb
RootLe-merge k (piece al af ar) null ha hb = ha
RootLe-merge k (piece al af ar) (piece bl bf br) ha hb =
    elim (Bool-cases (ltb bf.priority af.priority)) [
      | inl e ↦
          subst (RootLe k) (sym (merge_left al af ar bl bf br e))
            (RootLe-update k al af (merge ar (piece bl bf br)) ha)
      | inr e ↦
          subst (RootLe k) (sym (merge_right al af ar bl bf br e))
            (RootLe-update k (merge (piece al af ar) bl) bf br hb)
    ]

module _ (m : Stores) where
  -- `merge` joins the bytes.
  pub bytes-merge : (a b : Piece) → bytes m (merge a b) ≡ bytes m a ++ bytes m b
  unfolding merge
  bytes-merge null b = refl
  bytes-merge (piece al af ar) null = sym (append-nil _)
  bytes-merge (piece al af ar) (piece bl bf br) = elim (Bool-cases (ltb bf.priority af.priority)) [
    | inl e ↦
        ap (bytes m) (merge_left al af ar bl bf br e)
        ∙ bytes-update m al af (merge ar (piece bl bf br))
        ∙ simp (bytes-merge ar (piece bl bf br), append_assoc)
    | inr e ↦
        ap (bytes m) (merge_right al af ar bl bf br e)
        ∙ bytes-update m (merge (piece al af ar) bl) bf br
        ∙ simp (bytes-merge (piece al af ar) bl, append_assoc)
  ]

  -- The merge of two valid trees is valid: ranges, counts, sums and the order of the priorities.
  pub merge-IsValid : (a b : Piece) → IsValid m a → IsValid m b → IsValid m (merge a b)
  unfolding merge
  merge-IsValid null b va vb = vb
  merge-IsValid (piece al af ar) null va vb = va
  merge-IsValid (piece al af ar) (piece bl bf br) (v, s, vl, vr) (w, t, wl, wr) =
      elim (Bool-cases (ltb bf.priority af.priority)) [
        | inl e ↦ subst (IsValid m) (sym (merge_left al af ar bl bf br e)) (
            update-IsValid m al af _ v s.left_le
              (RootLe-merge af.priority ar (piece bl bf br) s.right_le (omega tests)) vl
              (merge-IsValid ar (piece bl bf br) vr (w, t, wl, wr)))
        | inr e ↦ subst (IsValid m) (sym (merge_right al af ar bl bf br e)) (
            update-IsValid m _ bf br w
              (RootLe-merge bf.priority (piece al af ar) bl (omega tests) t.left_le) t.right_le
              (merge-IsValid (piece al af ar) bl (v, s, vl, vr) wl) wr)
      ]
