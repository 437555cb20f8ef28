-- ===== src/Utf8/Cancel.antt =====
-- Valid text is cut in one way into characters (`utf8_decode` of src/text.c), so a valid part in front
-- of it leaves a valid rest.
use cpymacs.Base.{
  List, [], ap, append_assoc, arith, drop, drop-append_ge, inl, inr, length, some-injective, subst,
  suc, sym, ℕ, ◌++◌, ◌-◌, ◌<◌, ◌∙◌, ◌∷◌, ◌≡◌, ◌⊎◌,
}
use cpymacs.Utf8.Chars.{done, next, Chars, IsChar, IsLong}
use cpymacs.Utf8.Valid.{utf8_decode_ascii}

-- The first byte tells the length of a character.
IsChar-length : (c : ℕ) (p q : List ℕ) → IsChar c p → IsChar c q → length p ≡ length q
IsChar-length c p q i j = go i.proper j.proper
  where
    go :
        (c < 128) ⊎ IsLong c p (suc (length p))
        → (c < 128) ⊎ IsLong c q (suc (length q))
        → length p ≡ length q
    go (inl a) y =
        let x = ap (λ t. t.1) (utf8_decode_ascii c p a) in
        let z = ap (λ t. t.1) (utf8_decode_ascii c q a) in omega (arith, i.whole, j.whole, x, z)
    go (inr l) (inl a) = absurd (omega (arith, l.high, a))
    go (inr l) (inr m) =
        let same = some-injective _ _ (sym l.announced.1 ∙ m.announced.1) in
        omega (arith, ap (λ t. t.0) same)

-- Lists that agree and start with parts of one length agree behind them.
cons-rest : (p q x y : List ℕ) → p ++ x ≡ q ++ y → length p ≡ length q → x ≡ y
cons-rest p q x y e l =
    let dx = drop-append_ge (length p) p x (omega arith) in
    let dy = drop-append_ge (length p) q y (omega (arith, l)) in
    let zx : drop (length p - length p) x ≡ x = ap (λ k. drop k x) {y = 0} (omega arith) in
    let zy : drop (length p - length q) y ≡ y = ap (λ k. drop k y) {y = 0} (omega (arith, l)) in
    sym (dx ∙ zx) ∙ ap (drop (length p)) e ∙ (dy ∙ zy)

tail_of : List ℕ → List ℕ
tail_of [] = []
tail_of (x ∷ xs) = xs

head_of : List ℕ → ℕ
head_of [] = 0
head_of (x ∷ xs) = x

-- A valid text behind a valid front is a valid text.
pub Chars-cancel : {a : List ℕ} (b : List ℕ) → Chars a → Chars (a ++ b) → Chars b
unfolding tail_of head_of
Chars-cancel b done h = h
Chars-cancel b (next c p rest i r e) h =
    Chars-cancel b r (first h (ap (λ t. t ++ b) e ∙ ap (c ∷◌) (append_assoc p rest b)))
  where
    first : {t : List ℕ} → Chars t → t ≡ c ∷ (p ++ (rest ++ b)) → Chars (rest ++ b)
    first done z = cc
    first (next d q more j s f) z =
        let both : d ∷ (q ++ more) ≡ c ∷ (p ++ (rest ++ b)) = sym f ∙ z in
        let same =
          cons-rest q p more (rest ++ b) (ap tail_of both)
            (IsChar-length c q p (subst (λ x. IsChar x q) (ap head_of both) j) i) in
        subst Chars same s
