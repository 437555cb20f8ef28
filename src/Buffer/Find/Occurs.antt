-- ===== src/Buffer/Find/Occurs.antt =====
-- What `editor_find` of src/buffer.c finds, said of the text.
use cpymacs.Base.{
  List, Option, [], ap, ap₂, arith, drop, get_or, get_or-drop, get_or-take, length, length-drop,
  length-take, none, refl, some, subst, suc, sym, take, ℕ, ◌+◌, ◌-◌, ◌<◌, ◌∙◌, ◌∷◌, ◌≡◌, ◌≤◌,
}
use cpymacs.Buffer.Find.Failure.{Fits}
use cpymacs.Buffer.Find.Scan.{IsFirst, IsLast}

abbrev pub Occurs : List ℕ → List ℕ → ℕ → Type 0
Occurs c p at = take (length p) (drop at c) ≡ p

-- the first place from `start` on at which p stands in c
unfoldable pub IsFirstFrom : List ℕ → List ℕ → ℕ → Option ℕ → Type 0
IsFirstFrom c p start none = (k : ℕ) → start ≤ k → Occurs c p k → ⊥
IsFirstFrom c p start (some at) =
    (start ≤ at) × Occurs c p at × ((k : ℕ) → start ≤ k → Occurs c p k → at ≤ k)

-- the last place at which p stands in the first `limit` bytes of c
unfoldable pub IsLastTo : List ℕ → List ℕ → ℕ → Option ℕ → Type 0
IsLastTo c p limit none = (k : ℕ) → k + length p ≤ limit → Occurs c p k → ⊥
IsLastTo c p limit (some at) =
    (at + length p ≤ limit)
    × Occurs c p at
    × ((k : ℕ) → k + length p ≤ limit → Occurs c p k → k ≤ at)

same_list :
    (a b : List ℕ)
    → length a ≡ length b
    → ((i : ℕ) → i < length a → get_or a i 0 ≡ get_or b i 0)
    → a ≡ b
same_list [] [] e h = refl
same_list [] (y ∷ b) e h = absurd (omega (arith, e))
same_list (x ∷ a) [] e h = absurd (omega (arith, e))
same_list (x ∷ a) (y ∷ b) e h =
    ap₂ ◌∷◌ (h 0 (omega arith))
      (same_list a b (omega (arith, e)) (λ i l. h (suc i) (omega (arith, l))))

-- in the part of c from `off` to `limit`
module _ (c p : List ℕ) (off limit : ℕ) (b : limit ≤ length c) (o : off ≤ limit) where
  abbrev pub part : List ℕ
  part = take (limit - off) (drop off c)

  in_part : (i : ℕ) → i < limit - off → get_or part i 0 ≡ get_or c (off + i) 0
  in_part i h = get_or-take (limit - off) i (drop off c) 0 h ∙ get_or-drop off i c 0

  at_place :
      (at i : ℕ) → i < length p → get_or (take (length p) (drop at c)) i 0 ≡ get_or c (at + i) 0
  at_place at i h = get_or-take (length p) i (drop at c) 0 h ∙ get_or-drop at i c 0

  pub part_size : length part ≡ limit - off
  part_size = omega (arith, length-take (limit - off) (drop off c), length-drop off c)

  pub Fits-Occurs :
      (k : ℕ) → k ≤ limit - off → Fits p part k (length p) → Occurs c p (off + k - length p)
  Fits-Occurs k h (le, same) =
      let at = off + k - length p in
      let size : length (take (length p) (drop at c)) ≡ length p =
        omega (arith, length-take (length p) (drop at c), length-drop at c, le, h) in
      same_list (take (length p) (drop at c)) p size (λ i l.
        let m : i < length p = omega (arith, size, l) in
        at_place at i m
        ∙ ap (λ x. get_or c x 0) {y = off + (k - length p + i)} (omega (arith, le))
        ∙ sym (in_part (k - length p + i) (omega (arith, m, le, h)))
        ∙ same i m)

  pub Occurs-Fits :
      (at : ℕ)
      → off ≤ at
      → at + length p ≤ limit
      → Occurs c p at
      → Fits p part (at - off + length p) (length p)
  Occurs-Fits at h l e = (
    omega arith,
    λ i m.
        in_part (at - off + length p - length p + i) (omega (arith, h, l, m))
        ∙ ap (λ x. get_or c x 0) {y = at + i} (omega (arith, h))
        ∙ sym (at_place at i m)
        ∙ ap (λ x. get_or x i 0) e,
  )

pub Occurs-within :
    (c p : List ℕ) (at : ℕ) → 0 < length p → Occurs c p at → at + length p ≤ length c
Occurs-within c p at h e =
    let size = ap length e in
    omega (arith, h, length-take (length p) (drop at c), length-drop at c, size)

-- what was found in the part of c from `off` to `limit`
module _ (c p : List ℕ) (off limit : ℕ) (b : limit ≤ length c) (o : off ≤ limit)
    (positive : 0 < length p) where
  pub first_of :
      (result : Option ℕ)
      → limit ≡ length c
      → IsFirst p (part c p off limit b o) off (limit - off) result
      → IsFirstFrom c p off result
  unfolding IsFirst IsFirstFrom
  first_of none e h = λ k l at.
      let inside = Occurs-within c p k positive at in
      h (k - off + length p) (omega (arith, inside, l, e))
        (Occurs-Fits c p off limit b o k l (omega (arith, inside, e)) at)
  first_of (some at) e (k, l, s, f, least) = (
    omega (arith, s, f.0),
    subst (Occurs c p) (sym s) (Fits-Occurs c p off limit b o k l f),
    λ i j g.
        let inside = Occurs-within c p i positive g in
        let r =
          least (i - off + length p)
            (Occurs-Fits c p off limit b o i j (omega (arith, inside, e)) g) in
        omega (arith, r, s, j),
  )

  pub last_of :
      (result : Option ℕ)
      → off ≡ 0
      → IsLast p (part c p off limit b o) off (limit - off) result
      → IsLastTo c p limit result
  unfolding IsLast IsLastTo
  last_of none e h = λ k l at.
      h (k - off + length p) (omega (arith, l, e))
        (Occurs-Fits c p off limit b o k (omega (arith, e)) l at)
  last_of (some at) e (k, l, s, f, most) = (
    omega (arith, s, f.0, l),
    subst (Occurs c p) (sym s) (Fits-Occurs c p off limit b o k l f),
    λ i j g.
        let r =
          most (i - off + length p) (omega (arith, j, e))
            (Occurs-Fits c p off limit b o i (omega (arith, e)) j g) in
        omega (arith, r, s, e),
  )
