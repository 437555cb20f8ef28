-- ===== src/File/LineEnds.antt =====
-- The CRs in front of newlines, as src/buffer.c leaves them out and src/text.c puts them in.
use cpymacs.Base.{
  ==→eq, Bool-cases, List, [], and_true, ap, arith, false, inl, inr, length, refl, subst, suc, sym,
  true, zero, ℕ, ◌&&◌, ◌++◌, ◌-◌, ◌<◌, ◌==◌, ◌∙◌, ◌∷◌, ◌≡◌, ◌⊎◌,
}
use cpymacs.Utf8.Chars.{done, next, Chars, IsLong, continue, IsChar}
use cpymacs.File.{line_ends, without_cr, at_newline}
use cpymacs.Text.Write.{with_cr}
use cpymacs.Utf8.Bytes.{is_continuation}
use cpymacs.Utf8.Valid.{utf8_decode_ascii}

-- Where every newline follows a CR, putting the CRs back undoes leaving them out.
pub with_cr-without_cr : (s : List ℕ) → (line_ends false s).1 ≡ false → with_cr (without_cr s) ≡ s
unfolding line_ends with_cr without_cr
with_cr-without_cr [] h = refl
with_cr-without_cr (c ∷ []) h =
    let n : (c == b'\n') ≡ false = ground arith in
    elim (Bool-cases (c == b'\r')) [ inl e ↦ rw (e, n) refl | inr e ↦ rw (e, n) refl ]
with_cr-without_cr (c ∷ d ∷ s) h = elim (Bool-cases (c == b'\r' && d == b'\n')) [
  | inl e ↦
      let both = and_true (c == b'\r') (d == b'\n') e in
      pair (==→eq c b'\r' both.0) (==→eq d b'\n' both.1) (with_cr-without_cr s)
  | inr e ↦
      let n : (c == b'\n') ≡ false = ground arith in
      let later : (line_ends false (d ∷ s)).1 ≡ false = ground arith in
      rw (e, n) (ap (c ∷◌) (with_cr-without_cr (d ∷ s) later))
]
  where
    pair :
        c ≡ b'\r'
        → d ≡ b'\n'
        → ((line_ends false s).1 ≡ false → with_cr (without_cr s) ≡ s)
        → with_cr (without_cr (c ∷ d ∷ s)) ≡ c ∷ d ∷ s
    pair p q ih = rw (p, q) (ap (λ x. b'\r' ∷ b'\n' ∷ x) (ih (rw (p, q) at h)))

-- No byte of a continuation is a CR or a newline.
continuation_text :
    (b : ℕ) → is_continuation b ≡ true → ((b == b'\r') ≡ false) × ((b == b'\n') ≡ false)
unfolding is_continuation
continuation_text b h = (go b'\r' refl, go b'\n' refl)
  where
    go : (x : ℕ) → is_continuation x ≡ false → (b == x) ≡ false
    go x n = elim (Bool-cases (b == x)) [
      | inl e ↦ let bad = sym h ∙ ap is_continuation (==→eq b x e) ∙ n in cc
      | inr e ↦ e
    ]

without_cr-continue :
    (n : ℕ) (p rest : List ℕ)
    → continue n p ≡ true
    → length p ≡ n
    → without_cr (p ++ rest) ≡ p ++ without_cr rest
unfolding continue without_cr
without_cr-continue n [] rest h l = refl
without_cr-continue zero (b ∷ p) rest h l = absurd (omega (arith, l))
without_cr-continue (suc n) (b ∷ p) rest h l =
    let both = and_true (is_continuation b) (continue n p) h in
    rw (continuation_text b both.0).0
      (ap (b ∷◌) (without_cr-continue n p rest both.1 (omega (arith, l))))

ascii_alone : (c : ℕ) (p : List ℕ) → IsChar c p → c < 128 → p ≡ []
ascii_alone c [] i a = refl
ascii_alone c (b ∷ p) i a =
    let one = ap (λ t. t.1) (utf8_decode_ascii c (b ∷ p) a) in absurd (omega (arith, i.whole, one))

keep_ascii : (c : ℕ) (s : List ℕ) → IsChar c [] → Chars (without_cr s) → Chars (without_cr (c ∷ s))
unfolding without_cr
keep_ascii c s i h = elim (Bool-cases (c == b'\r' && at_newline s)) [
  | inl e ↦ rw e h
  | inr e ↦ rw e (next c [] (without_cr s) i h refl)
]

keep_long :
    (c : ℕ) (p s : List ℕ)
    → IsChar c p
    → IsLong c p (suc (length p))
    → Chars (without_cr s)
    → Chars (without_cr (c ∷ (p ++ s)))
unfolding without_cr
keep_long c p s i l h =
    let n : (c == b'\r') ≡ false = ground (arith, l.high) in
    rw (n, without_cr-continue (suc (length p) - 1) p s l.tail (omega arith))
      (next c p (without_cr s) i h refl)

-- Leaving out CRs keeps text valid.
pub without_cr-Chars : {s : List ℕ} → Chars s → Chars (without_cr s)
without_cr-Chars done = unfold without_cr in done
without_cr-Chars (next c p rest i r e) = rw e (go i.proper (without_cr-Chars r))
  where
    go :
        (c < 128) ⊎ IsLong c p (suc (length p))
        → Chars (without_cr rest)
        → Chars (without_cr (c ∷ (p ++ rest)))
    go (inl a) h =
        let alone = ascii_alone c p i a in rw alone (keep_ascii c rest (subst (IsChar c) alone i) h)
    go (inr l) h = keep_long c p rest i l h
