-- ===== src/Text/Edit/Byte.antt =====
-- `text_byte` and `text_boundary` of src/text.c read the bytes that the tree stands for.
use cpymacs.Base.{
  Bool-cases, List, ap, arith, drop, false, get_or, get_or-append_ge, get_or-append_lt, get_or-drop,
  get_or-take, inl, inr, length, ltb, refl, sym, tests, true, ℕ, ◌++◌, ◌+◌, ◌-◌, ◌<◌, ◌∙◌, ◌≡◌, ◌≤◌,
  ◌⊎◌,
}
use cpymacs.Text.Piece.{piece, null, Fields, Piece, Stores, data_at, data_of, nb, store}
use cpymacs.Text.Edit.{byte_at, Text, text_boundary, text_byte, text_size}
use cpymacs.Text.Piece.Bytes.{IsValid, bytes, nb-eq-length, length-data_of}
use cpymacs.Utf8.Boundary.{boundary}

-- a byte of a piece, read from its store
get_or-data_of :
    (m : Stores) (f : Fields) (i : ℕ)
    → i < f.length
    → get_or (store m f.source) (f.offset + i) 0 ≡ get_or (data_of m f) i 0
unfolding data_at
get_or-data_of m f i h = sym (
    get_or-take f.length i (drop f.offset (store m f.source)) 0 h
    ∙ get_or-drop f.offset i (store m f.source) 0)

-- An index into three lists joined, by the part in which it lies.
get_or_left : (a d r : List ℕ) (i : ℕ) → i < length a → get_or (a ++ (d ++ r)) i 0 ≡ get_or a i 0
get_or_left a d r i h = get_or-append_lt a (d ++ r) i 0 h

get_or_middle :
    (a d r : List ℕ) (i : ℕ)
    → length a ≤ i
    → i < length a + length d
    → get_or (a ++ (d ++ r)) i 0 ≡ get_or d (i - length a) 0
get_or_middle a d r i h k =
    get_or-append_ge a (d ++ r) i 0 h ∙ get_or-append_lt d r (i - length a) 0 (omega arith)

get_or_right :
    (a d r : List ℕ) (i : ℕ)
    → length a + length d ≤ i
    → get_or (a ++ (d ++ r)) i 0 ≡ get_or r (i - (length a + length d)) 0
get_or_right a d r i h =
    get_or-append_ge a (d ++ r) i 0 (omega arith)
    ∙ get_or-append_ge d r (i - length a) 0 (omega arith)
    ∙ ap (λ k. get_or r k 0) (omega arith)

pub byte_at_lem :
    (m : Stores) (p : Piece) (at : ℕ) → IsValid m p → byte_at m p at ≡ get_or (bytes m p) at 0
unfolding byte_at
byte_at_lem m null at v = refl
byte_at_lem m (piece l f r) at (v, b, vl, vr) =
    go (nb-eq-length m l vl) (length-data_of m f v) (Bool-cases (ltb at (nb l)))
      (Bool-cases (ltb at (nb l + f.length))) (byte_at_lem m l at vl)
      (byte_at_lem m r (at - (nb l + f.length)) vr)
  where
    go :
        nb l ≡ length (bytes m l)
        → length (data_of m f) ≡ f.length
        → (ltb at (nb l) ≡ true) ⊎ (ltb at (nb l) ≡ false)
        → (ltb at (nb l + f.length) ≡ true) ⊎ (ltb at (nb l + f.length) ≡ false)
        → byte_at m l at ≡ get_or (bytes m l) at 0
        → byte_at m r (at - (nb l + f.length)) ≡ get_or (bytes m r) (at - (nb l + f.length)) 0
        → byte_at m (piece l f r) at ≡ get_or (bytes m (piece l f r)) at 0
    go sl sd (inl e) _ low _ =
        rw e (low ∙ sym (get_or_left (bytes m l) (data_of m f) (bytes m r) at (omega tests)))
    go sl sd (inr e) (inl h) _ _ =
        rw (e, h)
          (get_or-data_of m f (at - nb l) (omega tests)
            ∙ ap (λ k. get_or (data_of m f) (at - k) 0) sl
            ∙ sym (
                get_or_middle (bytes m l) (data_of m f) (bytes m r) at (omega tests) (omega tests)))
    go sl sd (inr e) (inr h) _ high =
        rw (e, h)
          (high
            ∙ ap (λ k. get_or (bytes m r) (at - k) 0) (omega arith)
            ∙ sym (get_or_right (bytes m l) (data_of m f) (bytes m r) at (omega tests)))

-- the text of the buffer
abbrev pub content : Text → List ℕ
content t = bytes t.stores t.root

pub text_size_lem : (t : Text) → IsValid t.stores t.root → text_size t ≡ length (content t)
unfolding text_size
text_size_lem t v = nb-eq-length t.stores t.root v

-- `text_boundary` is the boundary of the text.
pub text_boundary_lem :
    (t : Text) (at : ℕ) → IsValid t.stores t.root → text_boundary t at ≡ boundary (content t) at
unfolding text_boundary text_byte boundary
text_boundary_lem t at v = rw (text_size_lem t v, byte_at_lem t.stores t.root at v)
