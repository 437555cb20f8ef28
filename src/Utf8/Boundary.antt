-- ===== src/Utf8/Boundary.antt =====
-- Cutting and joining valid text: `text_boundary` of src/text.c on a list of bytes.
use cpymacs.Base.{
  Bool, Bool-cases, List, [], and_true, ap, append_assoc, arith, drop, drop-append_ge, false,
  get_or, get_or-append_ge, get_or-append_lt, inl, inr, leb, length, length-append, ltb, ltb→le,
  ltb→lt, not, refl, suc, sym, take, take-append_ge, true, zero, ℕ, ◌&&◌, ◌++◌, ◌-◌, ◌<◌, ◌==◌,
  ◌||◌, ◌∙◌, ◌∷◌, ◌≡◌, ◌≤◌, ◌⊎◌,
}
use cpymacs.Utf8.{utf8_valid}
use cpymacs.Utf8.Chars.{Chars, IsChar, IsLong, continue, done, next}
use cpymacs.Utf8.Valid.{Chars-utf8_valid, utf8_decode_ascii, utf8_valid-Chars}
use cpymacs.Utf8.Bytes.{is_continuation, is_continuation_ascii, is_continuation_lead}

-- `at` lies within the bytes and does not stand before a continuation byte.
unfoldable pub boundary : List ℕ → ℕ → Bool
boundary s at = leb at (length s) && (at == length s || not (is_continuation (get_or s at 0)))

pub Chars-append : {a b : List ℕ} → Chars a → Chars b → Chars (a ++ b)
Chars-append done h = h
Chars-append {b = b} (next c p rest i r e) h =
    next c p (rest ++ b) i (Chars-append r h)
      (ap (λ t. t ++ b) e ∙ ap (c ∷◌) (append_assoc p rest b))

-- Valid texts joined are valid.
pub utf8_valid-append :
    (a b : List ℕ) → utf8_valid a ≡ true → utf8_valid b ≡ true → utf8_valid (a ++ b) ≡ true
utf8_valid-append a b h k =
    Chars-utf8_valid (Chars-append (utf8_valid-Chars a h) (utf8_valid-Chars b k))

get_or-continue :
    (n i : ℕ) (p : List ℕ) → continue n p ≡ true → i < n → is_continuation (get_or p i 0) ≡ true
unfolding continue
get_or-continue zero i p h l = absurd (omega arith)
get_or-continue (suc n) i [] h l = cc
get_or-continue (suc n) zero (b ∷ p) h l = (and_true _ _ h).0
get_or-continue (suc n) (suc i) (b ∷ p) h l = get_or-continue n i p (and_true _ _ h).1 (omega arith)

-- Inside a character there are only continuations.
inside_IsChar :
    {c : ℕ} {p : List ℕ} (i : ℕ) → IsChar c p → i < length p → is_continuation (get_or p i 0) ≡ true
inside_IsChar {c} {p} i h l = go h.proper
  where
    go : (c < 128) ⊎ IsLong c p (suc (length p)) → is_continuation (get_or p i 0) ≡ true
    go (inl a) = absurd (omega (arith, sym h.whole ∙ ap (λ t. t.1) (utf8_decode_ascii c p a)))
    go (inr b) =
        let n : suc (length p) - 1 ≡ length p = omega arith in
        get_or-continue (length p) i p (rw n at b.tail) l

pub boundary-le : (s : List ℕ) (at : ℕ) → boundary s at ≡ true → at ≤ length s
unfolding boundary
boundary-le s at h = ground arith

-- No boundary lies inside a character.
not_boundary_inside :
    {c : ℕ} (p rest : List ℕ) (at : ℕ)
    → IsChar c p
    → at < length p
    → boundary (c ∷ (p ++ rest)) (suc at) ≡ true
    → ⊥
unfolding boundary
not_boundary_inside p rest at i l b =
    ground (arith, length-append p rest, get_or-append_lt p rest at 0 l, inside_IsChar at i l)

-- Behind the first character the boundaries are those of the rest.
boundary_rest :
    (c : ℕ) (p rest : List ℕ) (at : ℕ)
    → length p ≤ at
    → boundary (c ∷ (p ++ rest)) (suc at) ≡ true
    → boundary rest (at - length p) ≡ true
unfolding boundary
boundary_rest c p rest at l b = ground (arith, length-append p rest, get_or-append_ge p rest at 0 l)

-- A boundary cuts a sequence of characters into two.
pub Chars-split :
    (at : ℕ) {s : List ℕ} → Chars s → boundary s at ≡ true → Chars (take at s) × Chars (drop at s)
Chars-split zero h b = (done, h)
Chars-split (suc at) done b = absurd (omega (arith, boundary-le [] (suc at) b))
Chars-split (suc at) (next c p rest i r e) b = elim (Bool-cases (ltb at (length p))) [
  | inl l ↦ absurd (not_boundary_inside p rest at i (ltb→lt at (length p) l) (rw e at b))
  | inr l ↦
      let ge = ltb→le at (length p) l in
      let (x, y) = Chars-split (at - length p) r (boundary_rest c p rest at ge (rw e at b)) in
      rw (e, take-append_ge at p rest ge, drop-append_ge at p rest ge) (next c p _ i x refl, y)
]

-- A boundary cuts a valid text into two valid texts.
pub utf8_valid-split :
    (s : List ℕ) (at : ℕ)
    → utf8_valid s ≡ true
    → boundary s at ≡ true
    → (utf8_valid (take at s) ≡ true) × (utf8_valid (drop at s) ≡ true)
utf8_valid-split s at h b =
    let (x, y) = Chars-split at (utf8_valid-Chars s h) b in (Chars-utf8_valid x, Chars-utf8_valid y)

-- A character has at most four bytes, and its first is no continuation.
length-IsChar : {c : ℕ} {p : List ℕ} → IsChar c p → suc (length p) ≤ 4
length-IsChar {c} {p} h = go h.proper
  where
    go : (c < 128) ⊎ IsLong c p (suc (length p)) → suc (length p) ≤ 4
    go (inl a) = omega (arith, sym h.whole ∙ ap (λ t. t.1) (utf8_decode_ascii c p a))
    go (inr b) = b.few

head_IsChar : {c : ℕ} {p : List ℕ} → IsChar c p → is_continuation c ≡ false
head_IsChar {c} {p} h = go h.proper
  where
    go : (c < 128) ⊎ IsLong c p (suc (length p)) → is_continuation c ≡ false
    go (inl a) = is_continuation_ascii c a
    go (inr b) = is_continuation_lead c b.high b.byte

pub head_Chars : {s : List ℕ} → Chars s → 0 < length s → is_continuation (get_or s 0 0) ≡ false
head_Chars done h = absurd (omega arith)
head_Chars (next c p rest i r e) h = rw e (head_IsChar i)

-- Within the first four bytes of a longer valid text a second character begins.
pub first_boundary :
    {s : List ℕ}
    → Chars s
    → 4 < length s
    → (j : ℕ) × (1 ≤ j) × (j ≤ 4) × (is_continuation (get_or s j 0) ≡ false)
first_boundary done h = absurd (omega arith)
first_boundary (next c p rest i r e) h = (
  suc (length p),
  omega arith,
  length-IsChar i,
  rw (e, get_or-append_ge p rest (length p) 0 (omega arith))
      (let z : length p - length p ≡ 0 = omega arith in
        rw z (head_Chars r (omega (arith, ap length e, length-append p rest, length-IsChar i)))),
)
