-- ===== src/Utf8/Valid.antt =====
-- `utf8_valid` of src/text.c against the sequences of encoded characters.
use cpymacs.Base.{
  Bool-cases, List, [], ap, arith, drop, drop-append_ge, false, if◌then◌else◌, inl, inr, leb,
  leb→lt, length, length-append, length-take, lt→ltb, min, refl, suc, sym, take, take-append-drop,
  true, zero, ℕ, ◌&&◌, ◌++◌, ◌-◌, ◌<◌, ◌==◌, ◌∙◌, ◌∷◌, ◌≡◌, ◌≢◌, ◌≤◌, ◌⊎◌,
}
use cpymacs.Utf8.{utf8_decode, valid_from, utf8_valid}
use cpymacs.Utf8.Bytes.{is_continuation}
use cpymacs.Utf8.Chars.{
  IsLong, continue, utf8_decode_shape, utf8_decode-append, IsChar, next, Chars, done, IsChar-reads,
}

pub utf8_decode_ascii : (c : ℕ) (s : List ℕ) → c < 128 → utf8_decode (c ∷ s) ≡ (c, 1)
unfolding utf8_decode
utf8_decode_ascii c s h = rw (lt→ltb c 128 h)

continue-take : (n : ℕ) (p : List ℕ) → continue n (take n p) ≡ continue n p
unfolding continue
continue-take zero p = refl
continue-take (suc n) [] = refl
continue-take (suc n) (b ∷ p) = ap (is_continuation b &&◌) (continue-take n p)

IsLong-take :
    (c : ℕ) (s : List ℕ) (k : ℕ)
    → IsLong c s k
    → IsLong c (take (k - 1) s) (suc (length (take (k - 1) s)))
IsLong-take c s k l =
    rw (length-take (k - 1) s, same)
      (record {
        many = l.many;
        few = l.few;
        high = l.high;
        byte = l.byte;
        enough = omega (arith, length-take (k - 1) s, l.many, l.enough);
        tail = continue-take (k - 1) s ∙ l.tail;
        announced = l.announced;
      })
  where
    same : suc (min (k - 1) (length s)) ≡ k
    same = omega (arith, l.many, l.enough)

-- The first character of a text that the loop accepts.
IsChar-first :
    (c : ℕ) (s : List ℕ) (v k : ℕ)
    → utf8_decode (c ∷ s) ≡ (v, k)
    → (leb 128 c && k == 1) ≡ false
    → v ≢ 0
    → (k ≡ 1) ⊎ IsLong c s k
    → IsChar c (take (k - 1) s)
IsChar-first c s v k e h z l = elim (Bool-cases (leb 128 c)) [
  | inl a ↦ long l
  | inr a ↦ ascii (leb→lt 128 c a)
]
  where
    ascii : c < 128 → IsChar c (take (k - 1) s)
    ascii a =
        let k1 : k ≡ 1 = ap (λ t. t.1) (sym e ∙ utf8_decode_ascii c s a) in
        let vc : v ≡ c = ap (λ t. t.0) (sym e ∙ utf8_decode_ascii c s a) in
        rw k1 (record {
          whole = ap (λ t. t.1) (utf8_decode_ascii c [] a);
          nonzero = λ n. z (vc ∙ sym (ap (λ t. t.0) (utf8_decode_ascii c [] a)) ∙ n);
          proper = inl a;
        })

    long : (k ≡ 1) ⊎ IsLong c s k → IsChar c (take (k - 1) s)
    long (inl k1) = ascii (ground arith)
    long (inr b) =
        let fits : suc (length (take (k - 1) s)) ≡ k =
          omega (arith, length-take (k - 1) s, b.many, b.enough) in
        let parts =
          utf8_decode-append c (take (k - 1) s) (drop (k - 1) s)
            (inr (k, b.announced.0, b.announced.1, omega arith)) in
        let same : (v, k) ≡ utf8_decode (c ∷ take (k - 1) s) =
          sym e ∙ ap (λ t. utf8_decode (c ∷ t)) (sym (take-append-drop (k - 1) s)) ∙ parts in
        record {
          whole = ap (λ t. t.1) (sym same) ∙ sym fits;
          nonzero = λ n. z (ap (λ t. t.0) same ∙ n);
          proper = inr (IsLong-take c s k b);
        }

-- What the loop accepts is a sequence of characters.
valid_from-Chars : (f : ℕ) (s : List ℕ) → valid_from f s ≡ true → Chars s
unfolding valid_from
valid_from-Chars f [] h = done
valid_from-Chars zero (c ∷ s) h = cc
valid_from-Chars (suc f) (c ∷ s) h =
    go (utf8_decode (c ∷ s)).0 (utf8_decode (c ∷ s)).1 refl (utf8_decode_shape c s)
      (valid_from-Chars f (drop (utf8_decode (c ∷ s)).1 (c ∷ s))) h
  where
    go :
        (v k : ℕ)
        → utf8_decode (c ∷ s) ≡ (v, k)
        → (k ≡ 1) ⊎ IsLong c s k
        → (valid_from f (drop k (c ∷ s)) ≡ true → Chars (drop k (c ∷ s)))
        → (if leb 128 c && k == 1
            then false
            else if v == 0
            then false
            else valid_from f (drop k (c ∷ s)))
          ≡ true
        → Chars (c ∷ s)
    go v zero e (inl k1) ih h = absurd (omega arith)
    go v zero e (inr l) ih h = absurd (omega (arith, l.many))
    go v (suc k) e l ih h =
        next c (take k s) (drop k s)
          (let sub : suc k - 1 ≡ k = omega arith in
            rw sub at (IsChar-first c s v (suc k) e (ground arith) (ground arith) l))
          (ih (ground arith)) (ap (c ∷◌) (sym (take-append-drop k s)))

-- One step of the loop goes over one character.
valid_from-char :
    (f c : ℕ) (p rest : List ℕ)
    → IsChar c p
    → valid_from (suc f) (c ∷ (p ++ rest)) ≡ valid_from f rest
unfolding valid_from
valid_from-char f c p rest i = go (utf8_decode (c ∷ p)).0 (IsChar-reads rest i) i.nonzero i.proper (
    rw i.whole (
      drop-append_ge (suc (length p)) (c ∷ p) rest (omega arith)
      ∙ ap (λ k. drop k rest) {y = 0} (omega arith)))
  where
    go :
        (v : ℕ)
        → utf8_decode (c ∷ (p ++ rest)) ≡ (v, (utf8_decode (c ∷ p)).1)
        → v ≢ 0
        → (c < 128) ⊎ IsLong c p (suc (length p))
        → drop (utf8_decode (c ∷ p)).1 (c ∷ (p ++ rest)) ≡ rest
        → valid_from (suc f) (c ∷ (p ++ rest)) ≡ valid_from f rest
    go v e z (inl a) d = rw (e, d) (ground (arith, i.whole))
    go v e z (inr l) d = rw (e, d) (ground (arith, i.whole, l.many))

-- Every sequence of characters is accepted, with the number of its bytes for fuel, or more.
pub valid_from_fuel : (f : ℕ) {s : List ℕ} → Chars s → length s ≤ f → valid_from f s ≡ true
unfolding valid_from
valid_from_fuel f done h = refl
valid_from_fuel zero (next c p rest i r e) h = absurd (omega (arith, ap length e))
valid_from_fuel (suc f) (next c p rest i r e) h = rw e (
    valid_from-char f c p rest i
    ∙ valid_from_fuel f r (omega (arith, ap length e, length-append p rest)))

pub utf8_valid-Chars : (s : List ℕ) → utf8_valid s ≡ true → Chars s
unfolding utf8_valid
utf8_valid-Chars s h = valid_from-Chars (length s) s h

pub Chars-utf8_valid : {s : List ℕ} → Chars s → utf8_valid s ≡ true
unfolding utf8_valid
Chars-utf8_valid {s} h = valid_from_fuel (length s) h (omega arith)

pub utf8_valid-nil : utf8_valid [] ≡ true
utf8_valid-nil = Chars-utf8_valid done
