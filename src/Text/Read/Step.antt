-- ===== src/Text/Read/Step.antt =====
-- `text_next` and `text_prev` of src/text.c go to the nearest boundaries of the text.
use cpymacs.Base.{
  ==→eq, Bool-cases, List, [], arith, false, get_or, inl, inr, leb, length, ltb, refl, suc, tests,
  true, zero, ℕ, ◌+◌, ◌-◌, ◌<◌, ◌==◌, ◌∷◌, ◌≡◌, ◌≤◌, ◌⊎◌,
}
use cpymacs.Utf8.{utf8_valid}
use cpymacs.Utf8.Boundary.{boundary, boundary-le, head_Chars}
use cpymacs.Utf8.Valid.{utf8_valid-Chars}
use cpymacs.Utf8.Bytes.{is_continuation}
use cpymacs.Text.Read.{skip_next, skip_prev, text_next, text_prev}
use cpymacs.Text.Edit.{Text, text_byte, text_size}
use cpymacs.Text.Edit.Byte.{byte_at_lem, content, text_size_lem}
use cpymacs.Text.Edit.Insert.{IsText}

byte_lem : (t : Text) (at : ℕ) → IsText t → text_byte t at ≡ get_or (content t) at 0
unfolding text_byte
byte_lem t at v = byte_at_lem t.stores t.root at v.tree

-- What the loop of `text_next` returns: everything skipped is a continuation, and it stops at the
-- end or at another byte.
record Skipped (t : Text) (at : ℕ) (k : ℕ) (out : ℕ) : Type 0 where
  from_here : at ≤ out
  up_to : out ≤ at + k
  skips : (j : ℕ) → at ≤ j → j < out → is_continuation (text_byte t j) ≡ true
  stops : (out ≡ at + k) ⊎ (is_continuation (text_byte t out) ≡ false)

skip_next_lem : (k : ℕ) (t : Text) (at : ℕ) → Skipped t at k (skip_next k t at)
unfolding skip_next
skip_next_lem zero t at = record {
  from_here = omega arith;
  up_to = omega arith;
  skips = λ j a b. absurd (omega arith);
  stops = inl (omega arith);
}
skip_next_lem (suc k) t at = elim (Bool-cases (is_continuation (text_byte t at))) [
  | inl h ↦ rw h (further (skip_next_lem k t (at + 1)) h)
  | inr h ↦ rw h (record {
    from_here = omega arith;
    up_to = omega arith;
    skips = λ j a b. absurd (omega arith);
    stops = inr h;
  })
]
  where
    further :
        Skipped t (at + 1) k (skip_next k t (at + 1))
        → is_continuation (text_byte t at) ≡ true
        → Skipped t at (suc k) (skip_next k t (at + 1))
    further s h = record {
      from_here = omega (arith, s.from_here);
      up_to = omega (arith, s.up_to);
      skips = λ j a b. elim (Bool-cases (at == j)) [
        | inl e ↦ rw (==→eq at j e) at h
        | inr e ↦ s.skips j (ground arith) b
      ];
      stops = ground (arith, s.stops);
    }

-- the same for the loop of `text_prev`
record SkippedBack (t : Text) (at : ℕ) (out : ℕ) : Type 0 where
  up_to : out ≤ at
  skips : (j : ℕ) → out < j → j ≤ at → is_continuation (text_byte t j) ≡ true
  stops : (out ≡ 0) ⊎ (is_continuation (text_byte t out) ≡ false)

skip_prev_lem : (t : Text) (at : ℕ) → SkippedBack t at (skip_prev t at)
unfolding skip_prev
skip_prev_lem t zero = record {
  up_to = omega arith;
  skips = λ j a b. absurd (omega arith);
  stops = inl refl;
}
skip_prev_lem t (suc k) = elim (Bool-cases (is_continuation (text_byte t (suc k)))) [
  | inl h ↦ rw h (further (skip_prev_lem t k) h)
  | inr h ↦
      rw h (record { up_to = omega arith; skips = λ j a b. absurd (omega arith); stops = inr h })
]
  where
    further :
        SkippedBack t k (skip_prev t k)
        → is_continuation (text_byte t (suc k)) ≡ true
        → SkippedBack t (suc k) (skip_prev t k)
    further s h = record {
      up_to = omega (arith, s.up_to);
      skips = λ j a b. elim (Bool-cases (suc k == j)) [
        | inl e ↦ rw (==→eq (suc k) j e) at h
        | inr e ↦ s.skips j a (ground arith)
      ];
      stops = s.stops;
    }

-- the least boundary above `at`, and the greatest below
pub record IsNext (s : List ℕ) (at out : ℕ) : Type 0 where
  pub above : at < out
  pub here : boundary s out ≡ true
  pub between : (j : ℕ) → at < j → j < out → boundary s j ≡ false

pub record IsPrev (s : List ℕ) (at out : ℕ) : Type 0 where
  pub below : out < at
  pub here : boundary s out ≡ true
  pub between : (j : ℕ) → out < j → j < at → boundary s j ≡ false

boundary_byte :
    (s : List ℕ) (at : ℕ)
    → at ≤ length s
    → (at ≡ length s) ⊎ (is_continuation (get_or s at 0) ≡ false)
    → boundary s at ≡ true
unfolding boundary
boundary_byte s at h e = ground arith

not_boundary_byte :
    (s : List ℕ) (at : ℕ)
    → at < length s
    → is_continuation (get_or s at 0) ≡ true
    → boundary s at ≡ false
unfolding boundary
not_boundary_byte s at h e = ground arith

boundary_start : (s : List ℕ) → utf8_valid s ≡ true → boundary s 0 ≡ true
unfolding boundary
boundary_start [] u = refl
boundary_start (c ∷ s) u = ground (arith, head_Chars (utf8_valid-Chars (c ∷ s) u) (omega arith))

-- Below the end of a valid text `text_next` gives the least boundary above.
pub text_next-IsNext :
    (t : Text) (at : ℕ)
    → IsText t
    → at < length (content t)
    → IsNext (content t) at (text_next t at)
unfolding text_next
text_next-IsNext t at v h =
    let size = text_size_lem t v.tree in
    let inside : leb (text_size t) at ≡ false = ground arith in
    rw inside (go (skip_next_lem (text_size t - (at + 1)) t (at + 1)) size)
  where
    go :
        {out : ℕ}
        → Skipped t (at + 1) (text_size t - (at + 1)) out
        → text_size t ≡ length (content t)
        → IsNext (content t) at out
    go {out} s size = record {
      above = omega (arith, s.from_here);
      here = boundary_byte (content t) out (omega (arith, s.up_to)) (stop s.stops);
      between = λ j a b.
          not_boundary_byte (content t) j (omega (arith, s.up_to))
            (rw (byte_lem t j v) at (s.skips j (omega arith) b));
    }
      where
        stop :
            (out ≡ at + 1 + (text_size t - (at + 1))) ⊎ (is_continuation (text_byte t out) ≡ false)
            → (out ≡ length (content t)) ⊎ (is_continuation (get_or (content t) out 0) ≡ false)
        stop (inl e) = inl (omega arith)
        stop (inr e) = inr (rw (byte_lem t out v) at e)

-- Above the start and up to the end of a valid text `text_prev` gives the greatest boundary below.
pub text_prev-IsPrev :
    (t : Text) (at : ℕ)
    → IsText t
    → 0 < at
    → at ≤ length (content t)
    → IsPrev (content t) at (text_prev t at)
unfolding text_prev
text_prev-IsPrev t at v p h =
    let size = text_size_lem t v.tree in
    let inside : ltb (text_size t) at ≡ false = ground arith in
    let pos : (at == 0) ≡ false = ground arith in
    rw (inside, pos) (go (skip_prev_lem t (at - 1)) size)
  where
    go :
        {out : ℕ}
        → SkippedBack t (at - 1) out
        → text_size t ≡ length (content t)
        → IsPrev (content t) at out
    go {out} s size = record {
      below = omega (arith, s.up_to);
      here = stop s.stops;
      between = λ j a b.
          not_boundary_byte (content t) j (omega arith)
            (rw (byte_lem t j v) at (s.skips j a (omega arith)));
    }
      where
        stop :
            (out ≡ 0) ⊎ (is_continuation (text_byte t out) ≡ false)
            → boundary (content t) out ≡ true
        stop (inl e) = rw e (boundary_start (content t) v.utf8)
        stop (inr e) =
            boundary_byte (content t) out (omega (arith, s.up_to))
              (inr (rw (byte_lem t out v) at e))

-- In a valid text a step forward from a boundary below the end, and then back, returns to it.
pub text_prev-text_next :
    (t : Text) (at : ℕ)
    → IsText t
    → boundary (content t) at ≡ true
    → at < length (content t)
    → text_prev t (text_next t at) ≡ at
text_prev-text_next t at v b h =
    let n = text_next-IsNext t at v h in
    let p =
      text_prev-IsPrev t (text_next t at) v (omega (arith, n.above))
        (boundary-le (content t) (text_next t at) n.here) in
    same n p
  where
    same : {x y : ℕ} → IsNext (content t) at x → IsPrev (content t) x y → y ≡ at
    same {x} {y} n p = elim (Bool-cases (ltb y at)) [
      | inl e ↦ absurd (ground (arith, p.between at (omega tests) n.above))
      | inr e ↦ elim (Bool-cases (ltb at y)) [
        | inl g ↦ absurd (ground (arith, n.between y (omega tests) p.below, p.here))
        | inr g ↦ omega tests
      ]
    ]
