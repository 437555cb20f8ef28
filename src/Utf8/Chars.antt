-- ===== src/Utf8/Chars.antt =====
-- Valid text (`utf8_valid` of src/text.c) as a sequence of encoded characters.
use cpymacs.Base.{
  Bool, Bool-cases, List, Option-cases, [], ap, arith, bit_and, bit_or, false, if◌then◌else◌, inl,
  inr, length, length-append, le→ltb, ltb, lt→ltb, none, refl, some, suc, tests, true, zero, ℕ, ◌%◌,
  ◌&&◌, ◌*◌, ◌++◌, ◌-◌, ◌<◌, ◌^◌, ◌∷◌, ◌≡◌, ◌≢◌, ◌≤◌, ◌⊎◌,
}
use cpymacs.Utf8.{lead, decode_tail, out_of_range, decode_multi, utf8_decode}
use cpymacs.Utf8.Bytes.{is_continuation}

-- the first n bytes are there, and are continuations
unfoldable pub continue : ℕ → List ℕ → Bool
continue zero p = true
continue (suc n) [] = false
continue (suc n) (b ∷ p) = is_continuation b && continue n p

decode_tail-continue :
    (k c : ℕ) (p : List ℕ) {d : ℕ} → decode_tail k c p ≡ some d → continue k p ≡ true
unfolding decode_tail continue
decode_tail-continue zero c p h = refl
decode_tail-continue (suc k) c [] h = cc
decode_tail-continue (suc k) c (b ∷ p) {d} h =
    ground (arith, decode_tail-continue k (bit_or (c * 2 ^ 6 % 2 ^ 32) (bit_and b 63)) p {d = d})

decode_tail-append :
    (k c : ℕ) (p r : List ℕ) → k ≤ length p → decode_tail k c (p ++ r) ≡ decode_tail k c p
unfolding decode_tail
decode_tail-append zero c p r h = refl
decode_tail-append (suc k) c [] r h = absurd (omega arith)
decode_tail-append (suc k) c (b ∷ p) r h =
    ap (λ x. if is_continuation b then x else none) (decode_tail-append k _ p r (omega arith))

lead_range : (c k d : ℕ) → lead c ≡ some (k, d) → (2 ≤ k) × (k ≤ 4) × (192 ≤ c) × (c < 256)
unfolding lead
lead_range c k d h = ground arith

-- The number of bytes used is 1, or that of a lead byte with its continuations.
pub record IsLong (c : ℕ) (rest : List ℕ) (k : ℕ) : Type 0 where
  pub many : 2 ≤ k
  pub few : k ≤ 4
  pub high : 192 ≤ c
  pub byte : c < 256
  pub enough : k ≤ suc (length rest)
  pub tail : continue (k - 1) rest ≡ true
  pub announced : (d : ℕ) × (lead c ≡ some (k, d))

decode_multi_shape :
    (c k d : ℕ) (rest : List ℕ)
    → lead c ≡ some (k, d)
    → ((decode_multi k d rest).1 ≡ 1) ⊎ IsLong c rest (decode_multi k d rest).1
unfolding decode_multi
decode_multi_shape c k d rest h = elim (Bool-cases (ltb (suc (length rest)) k)) [
  | inl e ↦ inl (rw e)
  | inr e ↦ elim (Option-cases (decode_tail (k - 1) d rest)) [
    | inl n ↦ inl (rw (e, n))
    | inr (x, s) ↦ elim (Bool-cases (out_of_range k x)) [
      | inl o ↦ inl (rw (e, s, o))
      | inr o ↦ inr (
          rw (e, s, o)
            (record {
              many = (lead_range c k d h).0;
              few = (lead_range c k d h).1;
              high = (lead_range c k d h).2;
              byte = (lead_range c k d h).3;
              enough = omega tests;
              tail = decode_tail-continue (k - 1) d rest s;
              announced = (d, h);
            }))
    ]
  ]
]

pub utf8_decode_shape :
    (c : ℕ) (rest : List ℕ)
    → ((utf8_decode (c ∷ rest)).1 ≡ 1) ⊎ IsLong c rest (utf8_decode (c ∷ rest)).1
unfolding utf8_decode
utf8_decode_shape c rest = elim (Bool-cases (ltb c 0x80)) [
  | inl e ↦ inl (rw e)
  | inr e ↦ elim (Option-cases (lead c)) [
    | inl n ↦ inl (rw (e, n))
    | inr ((k, d), s) ↦ rw (e, s) (decode_multi_shape c k d rest s)
  ]
]

-- Decoding reads no byte past the sequence that the first byte announces.
pub utf8_decode-append :
    (c : ℕ) (p r : List ℕ)
    → (c < 128) ⊎ ((k : ℕ) × (d : ℕ) × (lead c ≡ some (k, d)) × (k ≤ suc (length p)))
    → utf8_decode (c ∷ (p ++ r)) ≡ utf8_decode (c ∷ p)
unfolding utf8_decode decode_multi
utf8_decode-append c p r (inl h) = rw (lt→ltb c 128 h)
utf8_decode-append c p r (inr (k, d, s, h)) = rw s (
    rw (
      decode_tail-append (k - 1) d p r (omega arith),
      le→ltb (suc (length (p ++ r))) k (omega (arith, length-append p r)),
      le→ltb (suc (length p)) k h,
    ))

-- One encoded character: decoding succeeds, uses all of it, and it is not NUL.
pub record IsChar (c : ℕ) (p : List ℕ) : Type 0 where
  pub whole : (utf8_decode (c ∷ p)).1 ≡ suc (length p)
  pub nonzero : (utf8_decode (c ∷ p)).0 ≢ 0
  pub proper : (c < 128) ⊎ IsLong c p (suc (length p))

pub IsChar-reads :
    {c : ℕ} {p : List ℕ} (r : List ℕ)
    → IsChar c p
    → utf8_decode (c ∷ (p ++ r)) ≡ utf8_decode (c ∷ p)
IsChar-reads {c} {p} r h = utf8_decode-append c p r (reads h.proper)
  where
    reads :
        (c < 128) ⊎ IsLong c p (suc (length p))
        → (c < 128) ⊎ ((k : ℕ) × (d : ℕ) × (lead c ≡ some (k, d)) × (k ≤ suc (length p)))
    reads (inl a) = inl a
    reads (inr l) = inr (suc (length p), l.announced.0, l.announced.1, omega arith)

-- A text is a sequence of encoded characters.
pub data Chars : List ℕ → Type 0 where
  done : Chars []
  next :
      (c : ℕ) (p rest : List ℕ) {s : List ℕ}
      → IsChar c p
      → Chars rest
      → s ≡ c ∷ (p ++ rest)
      → Chars s
