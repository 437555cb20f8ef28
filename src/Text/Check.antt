-- ===== src/Text/Check.antt =====
-- `text_check` of src/text.c, by which the tests look at the tree.
use cpymacs.Base.{
  ==→eq, Bool, Bool-cases, and_true, ap, arith, count_if, eq→==, false, inl, inr, leb, leb-true,
  refl, sym, true, ℕ, ◌&&◌, ◌+◌, ◌==◌, ◌∙◌, ◌≡◌, ◌⊎◌,
}
use cpymacs.Text.Piece.{
  piece, null, Fields, Piece, Stores, data_of, is_char, is_newline, nb, nc, nl,
}
use cpymacs.Text.Edit.{Text}
use cpymacs.Text.Piece.Bytes.{IsValid, RootLe, bytes}
use cpymacs.Text.Edit.Insert.{IsText}

-- `!p || p->priority<=k`
abbrev pub root_le : Piece → ℕ → Bool
root_le null k = true
root_le (piece l f r) k = leb f.priority k

-- a node between its children, without the two recursive calls
unfoldable pub check_own : Stores → Piece → Fields → Piece → Bool
check_own m l f r =
    let lines = count_if is_newline (data_of m f) in
    let own = count_if is_char (data_of m f) in
    root_le l f.priority
    && (root_le r f.priority
        && (lines == f.newlines
            && (own == f.chars
                && (f.bytes_sum == nb l + f.length + nb r
                    && (f.lines_sum == nl l + lines + nl r && f.chars_sum == nc l + own + nc r)))))

unfoldable pub check_node : Stores → Piece → Bool
check_node m null = true
check_node m (piece l f r) = check_own m l f r && (check_node m l && check_node m r)

unfoldable pub text_check : Text → Bool
text_check t = check_node t.stores t.root

-- What a node stands for: no child above it, the counts of its own bytes, and sums that are those of
-- its children with its own.
pub record IsOwn (m : Stores) (l : Piece) (f : Fields) (r : Piece) : Type 0 where
  pub left_le : RootLe f.priority l
  pub right_le : RootLe f.priority r
  pub newlines : f.newlines ≡ count_if is_newline (data_of m f)
  pub chars : f.chars ≡ count_if is_char (data_of m f)
  pub bytes_sum : f.bytes_sum ≡ nb l + f.length + nb r
  pub lines_sum : f.lines_sum ≡ nl l + f.newlines + nl r
  pub chars_sum : f.chars_sum ≡ nc l + f.chars + nc r

-- every node of the tree is such a node
abbrev pub AllOwn : Stores → Piece → Type 0
AllOwn m null = Unit
AllOwn m (piece l f r) = IsOwn m l f r × AllOwn m l × AllOwn m r

root_le_lem : (k : ℕ) (p : Piece) → RootLe k p → root_le p k ≡ true
root_le_lem k null h = refl
root_le_lem k (piece l f r) h = leb-true f.priority k h

root_le-RootLe : (k : ℕ) (p : Piece) → root_le p k ≡ true → RootLe k p
root_le-RootLe k null h = tt
root_le-RootLe k (piece l f r) h = ground (arith, h)

check_own_lem :
    (m : Stores) (l : Piece) (f : Fields) (r : Piece) → IsOwn m l f r → check_own m l f r ≡ true
unfolding check_own
check_own_lem m l f r v =
    rw
      (
        root_le_lem f.priority l v.left_le,
        root_le_lem f.priority r v.right_le,
        eq→== _ _ (sym v.newlines),
        eq→== _ _ (sym v.chars),
        eq→== _ _ v.bytes_sum,
        eq→== _ _ (v.lines_sum ∙ ap (λ n. nl l + n + nl r) v.newlines),
        eq→== _ _ (v.chars_sum ∙ ap (λ n. nc l + n + nc r) v.chars),
      )
      refl

check_own-IsOwn :
    (m : Stores) (l : Piece) (f : Fields) (r : Piece) → check_own m l f r ≡ true → IsOwn m l f r
unfolding check_own
check_own-IsOwn m l f r h =
    let (left, h1) = and_true (root_le l f.priority) _ h in
    let (right, h2) = and_true (root_le r f.priority) _ h1 in
    let (newlines, h3) = and_true (count_if is_newline (data_of m f) == f.newlines) _ h2 in
    let (chars, h4) = and_true (count_if is_char (data_of m f) == f.chars) _ h3 in
    let (bytes, h5) = and_true (f.bytes_sum == nb l + f.length + nb r) _ h4 in
    let (lines, sums) =
      and_true (f.lines_sum == nl l + count_if is_newline (data_of m f) + nl r) _ h5 in
    let lines_eq = ==→eq _ _ newlines in
    let chars_eq = ==→eq _ _ chars in
    record {
      left_le = root_le-RootLe f.priority l left;
      right_le = root_le-RootLe f.priority r right;
      newlines = sym lines_eq;
      chars = sym chars_eq;
      bytes_sum = ==→eq _ _ bytes;
      lines_sum = ==→eq _ _ lines ∙ ap (λ n. nl l + n + nl r) lines_eq;
      chars_sum = ==→eq _ _ sums ∙ ap (λ n. nc l + n + nc r) chars_eq;
    }

check_node_lem : (m : Stores) (p : Piece) → AllOwn m p → check_node m p ≡ true
unfolding check_node
check_node_lem m null v = refl
check_node_lem m (piece l f r) (v, vl, vr) =
    rw (check_own_lem m l f r v, check_node_lem m l vl, check_node_lem m r vr) refl

check_node-AllOwn : (m : Stores) (p : Piece) → check_node m p ≡ true → AllOwn m p
unfolding check_node
check_node-AllOwn m null h = tt
check_node-AllOwn m (piece l f r) h =
    let (own, below) = and_true (check_own m l f r) _ h in
    let (left, right) = and_true (check_node m l) (check_node m r) below in
    (check_own-IsOwn m l f r own, check_node-AllOwn m l left, check_node-AllOwn m r right)

IsValid-AllOwn : (m : Stores) (p : Piece) → IsValid m p → AllOwn m p
IsValid-AllOwn m null v = tt
IsValid-AllOwn m (piece l f r) (v, s, vl, vr) = (
  record {
    left_le = s.left_le;
    right_le = s.right_le;
    newlines = v.newlines;
    chars = v.chars;
    bytes_sum = s.bytes_sum;
    lines_sum = s.lines_sum;
    chars_sum = s.chars_sum;
  },
  IsValid-AllOwn m l vl,
  IsValid-AllOwn m r vr,
)

-- `text_check` returns true on every valid text.
pub text_check-valid : (t : Text) → IsText t → text_check t ≡ true
unfolding text_check
text_check-valid t v = check_node_lem t.stores t.root (IsValid-AllOwn t.stores t.root v.tree)

-- `text_check` decides whether every node has no child of a higher priority, counts the newlines and
-- the characters of its own bytes, and sums these and its length with the sums of its children: it
-- returns true where this holds and false where it does not.
pub text_check_lem :
    (t : Text)
    → ((text_check t ≡ true) × AllOwn t.stores t.root)
      ⊎ ((text_check t ≡ false) × (¬ AllOwn t.stores t.root))
unfolding text_check
text_check_lem t = elim (Bool-cases (check_node t.stores t.root)) [
  | inl h ↦ inl (h, check_node-AllOwn t.stores t.root h)
  | inr h ↦ inr (h, λ v. cc (h, check_node_lem t.stores t.root v))
]
