-- ===== src/Text/Edit/Refine.antt =====
-- `text_init`, `text_insert` and `text_delete` of src/text.c against plain lists of bytes.
use cpymacs.Base.{
  Bool, Bool-cases, List, [], ap, ap₂, arith, drop, drop-drop, false, if◌then◌else◌, inl, inr,
  length, length-append, not, refl, some, suc, sym, take, take-append-drop, take_all, true, ℕ, ◌&&◌,
  ◌++◌, ◌+◌, ◌==◌, ◌∙◌, ◌∷◌, ◌≡◌, ◌≤◌, ◌⊎◌,
}
use cpymacs.Utf8.{utf8_valid}
use cpymacs.Text.Edit.{
  Text, insert_between, insert_refuses, inserted, text_insert, delete_refuses, text_delete,
  text_init, fresh,
}
use cpymacs.Text.Piece.{split, merge, Piece, Stores, data_at, pieces, store}
use cpymacs.Text.Piece.Split.{split-IsCut}
use cpymacs.Text.Edit.Append.{extended, extended-IsValid}
use cpymacs.Text.Edit.Byte.{content, text_boundary_lem, text_size_lem}
use cpymacs.Text.Edit.Insert.{
  IsText, accepts, insert_between_lem, insert_refuses_lem, inserted-IsText, content-inserted,
  splice, splice-utf8_valid,
}
use cpymacs.Utf8.Boundary.{boundary, boundary-le}
use cpymacs.Text.Piece.Merge.{bytes-merge, merge-IsValid}
use cpymacs.Text.Piece.Bytes.{bytes}
use cpymacs.Text.Edit.Pieces.{pieces_lem}
use cpymacs.Utf8.Valid.{utf8_valid-nil}

insert_refused :
    (t : Text) (at : ℕ) (s : List ℕ)
    → insert_refuses t at s ≡ true
    → text_insert t at s ≡ some (false, t)
unfolding text_insert
insert_refused t at s e = rw e

insert_nothing :
    (t : Text) (at : ℕ) → insert_refuses t at [] ≡ false → text_insert t at [] ≡ some (true, t)
unfolding text_insert
insert_nothing t at e = rw e

insert_some :
    (t : Text) (at x : ℕ) (s : List ℕ)
    → insert_refuses t at (x ∷ s) ≡ false
    → let cut = split (extended t.stores (x ∷ s)) t.random t.root at in
      text_insert t at (x ∷ s) ≡ insert_between t (x ∷ s) cut.0 cut.1 cut.2
unfolding text_insert
insert_some t at x s e = let z : (suc (length s) == 0) ≡ false = ground arith in rw (e, z)

-- What `text_insert` leaves: whether it accepts, a text with the bytes in their place, or the text as
-- it was, and a store that grew by no more than the bytes.
pub record Inserts (t : Text) (at : ℕ) (s : List ℕ) (out : Bool × Text) : Type 0 where
  pub answer : out.0 ≡ accepts t at s
  pub valid : IsText out.1
  pub result : content out.1 ≡ (if accepts t at s then splice (content t) at 0 s else content t)
  pub grows : length out.1.stores.added ≤ length t.stores.added + length s

abbrev TextInserted : Text → ℕ → List ℕ → Type 0
TextInserted t at s = (out : Bool × Text) × (text_insert t at s ≡ some out) × Inserts t at s out

inserts_refused :
    (t : Text) (at : ℕ) (s : List ℕ) → IsText t → accepts t at s ≡ false → TextInserted t at s
inserts_refused t at s v e = (
  (false, t),
  insert_refused t at s (insert_refuses_lem t at s v ∙ ap not e),
  record { answer = sym e; valid = v; result = rw e; grows = omega arith },
)

inserts_nothing : (t : Text) (at : ℕ) → IsText t → accepts t at [] ≡ true → TextInserted t at []
inserts_nothing t at v e = (
  (true, t),
  insert_nothing t at (insert_refuses_lem t at [] v ∙ ap not e),
  record {
    answer = sym e;
    valid = v;
    result = rw e (
        sym (
          ap (λ k. take at (content t) ++ drop k (content t)) {y = at} (omega arith)
          ∙ take-append-drop at (content t)));
    grows = omega arith;
  },
)

inserts_some :
    (t : Text) (at x : ℕ) (s : List ℕ)
    → IsText t
    → accepts t at (x ∷ s) ≡ true
    → TextInserted t at (x ∷ s)
inserts_some t at x s v e =
    let m = extended t.stores (x ∷ s) in
    let (w, same) = extended-IsValid t.stores (x ∷ s) t.root v.tree in
    let cut = split-IsCut m t.random t.root at w in
    let parts = split m t.random t.root at in
    let u : utf8_valid (x ∷ s) ≡ true = ground arith in
    let between =
      insert_between_lem t (x ∷ s) parts.0 parts.1 parts.2 u cut.left_valid cut.right_valid in
    let result = content-inserted t at (x ∷ s) v e between.root between.random between.joined in
    (
      inserted t (x ∷ s) between.root between.random,
      insert_some t at x s (insert_refuses_lem t at (x ∷ s) v ∙ ap not e) ∙ between.returns,
      record {
        answer = sym e;
        valid = inserted-IsText t at (x ∷ s) v e between.root between.random between.valid result;
        result = rw e result;
        grows = omega (arith, length-append t.stores.added (x ∷ s));
      },
    )

-- On a valid text `text_insert` always returns (the loop that makes pieces ends). It returns true
-- exactly when the place is a boundary, the bytes are valid UTF-8 and the sizes fit; the text is
-- then the old one with the bytes at their place, and else the old one; the invariant is kept.
pub text_insert_refines :
    (t : Text) (at : ℕ) (s : List ℕ)
    → IsText t
    → (out : Bool × Text) × (text_insert t at s ≡ some out) × Inserts t at s out
text_insert_refines t at s v = go s (Bool-cases (accepts t at s))
  where
    go : (s : List ℕ) → (accepts t at s ≡ true) ⊎ (accepts t at s ≡ false) → TextInserted t at s
    go s (inr e) = inserts_refused t at s v e
    go [] (inl e) = inserts_nothing t at v e
    go (x ∷ s) (inl e) = inserts_some t at x s v e

-- the ranges that can be deleted
abbrev pub removable : Text → ℕ → ℕ → Bool
removable t at n = boundary (content t) at && boundary (content t) (at + n)

delete_refuses_lem :
    (t : Text) (at n : ℕ) → IsText t → delete_refuses t at n ≡ not (removable t at n)
unfolding delete_refuses
delete_refuses_lem t at n v =
    rw (text_size_lem t v.tree, text_boundary_lem t at v.tree, text_boundary_lem t (at + n) v.tree)
      (ground (arith, boundary-le (content t) at, boundary-le (content t) (at + n)))

-- What `text_delete` leaves.
pub record Deletes (t : Text) (at n : ℕ) (out : Bool × Text) : Type 0 where
  pub answer : out.0 ≡ removable t at n
  pub valid : IsText out.1
  pub result : content out.1 ≡ (if removable t at n then splice (content t) at n [] else content t)
  pub stored : out.1.stores ≡ t.stores

Deletes-accepted :
    (t : Text) (at n : ℕ)
    → IsText t
    → removable t at n ≡ true
    → let cut = split t.stores t.random t.root at in
      let cut' = split t.stores cut.2 cut.1 n in
      Deletes t at n (true, record t { root = merge cut.0 cut'.1; random = cut'.2 })
Deletes-accepted t at n v e =
    let m = t.stores in
    let parts = split m t.random t.root at in
    let parts' = split m parts.2 parts.1 n in
    let cut = split-IsCut m t.random t.root at v.tree in
    let cut' = split-IsCut m parts.2 parts.1 n cut.right_valid in
    let g : (boundary (content t) at ≡ true) × (boundary (content t) (at + n) ≡ true) =
      ground arith in
    let result : bytes m (merge parts.0 parts'.1) ≡ splice (content t) at n [] =
      bytes-merge m parts.0 parts'.1
      ∙ ap₂ ◌++◌ cut.before (cut'.behind ∙ ap (drop n) cut.behind ∙ drop-drop at n (content t)) in
    record {
      answer = sym e;
      valid = record {
        tree = merge-IsValid m parts.0 parts'.1 cut.left_valid cut'.right_valid;
        room = v.room;
        small = v.small;
        utf8 = rw result (splice-utf8_valid (content t) at n [] v.utf8 utf8_valid-nil g.0 g.1);
      };
      result = rw e result;
      stored = refl;
    }

-- On a valid text `text_delete` returns true exactly when both ends of the range are boundaries of
-- the text; the text is then the old one without the range, and else the old one; the invariant is
-- kept, and so are the stores.
pub text_delete_refines : (t : Text) (at n : ℕ) → IsText t → Deletes t at n (text_delete t at n)
unfolding text_delete
text_delete_refines t at n v = elim (Bool-cases (removable t at n)) [
  | inl e ↦ rw (delete_refuses_lem t at n v, e) (Deletes-accepted t at n v e)
  | inr e ↦
      rw (delete_refuses_lem t at n v, e)
        (record { answer = sym e; valid = v; result = rw e; stored = refl })
]

-- the original store as one range
data_at-original :
    (s : List ℕ)
    → let m : Stores = record { original = s; added = [] } in
      (length s ≤ length (store m 0)) × (data_at m 0 0 (length s) ≡ s)
unfolding data_at
data_at-original s = (omega arith, take_all (length s) s (omega arith))

init_returns :
    (s : List ℕ) (made : Piece × ℕ)
    → pieces (record { original = s; added = [] }) 0x9e3779b9 0 0 (length s) ≡ some made
    → text_init s ≡ some (fresh s made)
unfolding text_init
init_returns s made e = rw (e, text_init)

-- `text_init` ends on every valid UTF-8 string, with a valid text of its bytes.
pub text_init_refines :
    (s : List ℕ)
    → utf8_valid s ≡ true
    → (t : Text) × (text_init s ≡ some t) × IsText t × (content t ≡ s)
text_init_refines s u =
    let m : Stores = record { original = s; added = [] } in
    let (room, same) = data_at-original s in
    let (made, e, w, joined) =
      pieces_lem m 0x9e3779b9 0 0 (length s) (omega (arith, room)) (rw same u) in
    let all = joined ∙ same in
    (
      fresh s made,
      init_returns s made e,
      record { tree = w; room = inl refl; small = omega arith; utf8 = rw all u },
      all,
    )
