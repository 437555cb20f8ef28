-- ===== src/Window/Lookup.antt =====
-- Buffers by their ids, for the buffer list of src/buffer.c.
use cpymacs.Base.{
  ==→eq, Bool-cases, List, [], ap, arith, eq→==, false, get_elem?, inl, inr, none, none≢some, refl,
  some, some-injective, subst, suc, sym, true, zero, ℕ, ◌++◌, ◌<◌, ◌==◌, ◌∙◌, ◌∷◌, ◌≡◌, ◌≤◌,
}
use cpymacs.Buffer.{Buffer}
use cpymacs.Window.{find_id, index_of, without}

-- There is a buffer with this id.
abbrev pub Has : List Buffer → ℕ → Type 0
Has buffers id = (b : Buffer) × (find_id buffers id ≡ some b)

pub find_id_here :
    (c : Buffer) (buffers : List Buffer) (id : ℕ)
    → (c.id == id) ≡ true
    → find_id (c ∷ buffers) id ≡ some c
unfolding find_id
find_id_here c buffers id e = rw e refl

pub find_id_skip :
    (c : Buffer) (buffers : List Buffer) (id : ℕ)
    → (c.id == id) ≡ false
    → find_id (c ∷ buffers) id ≡ find_id buffers id
unfolding find_id
find_id_skip c buffers id e = rw e refl

pub find_id_lem :
    (buffers : List Buffer) (id : ℕ) (b : Buffer) → find_id buffers id ≡ some b → b.id ≡ id
unfolding find_id
find_id_lem [] id b h = absurd (none≢some h)
find_id_lem (c ∷ buffers) id b h = elim (Bool-cases (c.id == id)) [
  | inl e ↦
      let same = some-injective _ _ (sym (find_id_here c buffers id e) ∙ h) in
      ap (λ x. x.id) (sym same) ∙ ==→eq c.id id e
  | inr e ↦ find_id_lem buffers id b (sym (find_id_skip c buffers id e) ∙ h)
]

pub index_of_lem :
    (buffers : List Buffer) (id : ℕ)
    → Has buffers id
    → (i : ℕ) × (index_of buffers id ≡ some i) × (get_elem? buffers i ≡ find_id buffers id)
unfolding find_id index_of
index_of_lem [] id (b, h) = absurd (none≢some h)
index_of_lem (c ∷ buffers) id (b, h) = elim (Bool-cases (c.id == id)) [
  | inl e ↦ rw e (0, refl, refl)
  | inr e ↦
      let (i, at, same) = index_of_lem buffers id (b, sym (find_id_skip c buffers id e) ∙ h) in
      rw (e, at) (suc i, refl, same)
]

pub find_id-append : (a b : List Buffer) (id : ℕ) → Has a id → find_id (a ++ b) id ≡ find_id a id
unfolding find_id
find_id-append [] b id (x, h) = absurd (none≢some h)
find_id-append (c ∷ a) b id (x, h) = elim (Bool-cases (c.id == id)) [
  | inl e ↦ rw e refl
  | inr e ↦ rw e (find_id-append a b id (x, sym (find_id_skip c a id e) ∙ h))
]

-- a buffer that another one is dropped beside
pub find_id-without :
    (buffers : List Buffer) (id other : ℕ)
    → (id == other) ≡ false
    → find_id (without buffers id) other ≡ find_id buffers other
unfolding find_id without
find_id-without [] id other e = refl
find_id-without (c ∷ buffers) id other e = elim (Bool-cases (c.id == id)) [
  | inl z ↦ let y : (c.id == other) ≡ false = ground (arith, z, e) in rw (z, y) refl
  | inr z ↦ elim (Bool-cases (c.id == other)) [
    | inl y ↦ rw (z, y) refl
    | inr y ↦ rw (z, y) (find_id-without buffers id other e)
  ]
]

-- The ids go up, above `low` and not above `high`.
unfoldable pub IsAscending : ℕ → List Buffer → ℕ → Type 0
IsAscending low [] high = low ≤ high
IsAscending low (b ∷ buffers) high = (low < b.id) × IsAscending b.id buffers high

pub IsAscending-le :
    (low high : ℕ) (buffers : List Buffer) → IsAscending low buffers high → low ≤ high
unfolding IsAscending
IsAscending-le low high [] h = h
IsAscending-le low high (b ∷ buffers) (l, h) =
    let r = IsAscending-le b.id high buffers h in omega (arith, r, l)

pub IsAscending-weaken :
    (low low' high : ℕ) (buffers : List Buffer)
    → low' ≤ low
    → IsAscending low buffers high
    → IsAscending low' buffers high
unfolding IsAscending
IsAscending-weaken low low' high [] l h = omega (arith, l, h)
IsAscending-weaken low low' high (b ∷ buffers) l (m, h) = (omega (arith, l, m), h)

pub IsAscending-append :
    (low high : ℕ) (buffers : List Buffer) (b : Buffer)
    → high < b.id
    → IsAscending low buffers high
    → IsAscending low (buffers ++ (b ∷ [])) b.id
unfolding IsAscending
IsAscending-append low high [] b l h = (omega (arith, l, h), omega arith)
IsAscending-append low high (c ∷ buffers) b l (m, h) =
    (m, IsAscending-append c.id high buffers b l h)

pub IsAscending-without :
    (low high id : ℕ) (buffers : List Buffer)
    → IsAscending low buffers high
    → IsAscending low (without buffers id) high
unfolding IsAscending without
IsAscending-without low high id [] h = h
IsAscending-without low high id (c ∷ buffers) (m, h) = elim (Bool-cases (c.id == id)) [
  | inl e ↦ rw e (IsAscending-weaken c.id low high buffers (omega (arith, m)) h)
  | inr e ↦ rw e (m, IsAscending-without c.id high id buffers h)
]

-- An id that is not above the lower bound is no buffer's.
pub find_id_low :
    (low high id : ℕ) (buffers : List Buffer)
    → IsAscending low buffers high
    → id ≤ low
    → find_id buffers id ≡ none
unfolding IsAscending find_id
find_id_low low high id [] h l = refl
find_id_low low high id (c ∷ buffers) (m, h) l =
    let e : (c.id == id) ≡ false = ground (arith, m, l) in
    rw e (find_id_low c.id high id buffers h (omega (arith, m, l)))

-- A dropped buffer is gone.
pub find_id-without_same :
    (low high id : ℕ) (buffers : List Buffer)
    → IsAscending low buffers high
    → find_id (without buffers id) id ≡ none
unfolding IsAscending find_id without
find_id-without_same low high id [] h = refl
find_id-without_same low high id (c ∷ buffers) (m, h) = elim (Bool-cases (c.id == id)) [
  | inl e ↦ rw e (find_id_low c.id high id buffers h (ground (arith, e)))
  | inr e ↦
      rw e (find_id_skip c (without buffers id) id e ∙ find_id-without_same c.id high id buffers h)
]

-- Each buffer of the list is the one with its id.
pub find_id-get_elem? :
    (low high i : ℕ) (buffers : List Buffer) (b : Buffer)
    → IsAscending low buffers high
    → get_elem? buffers i ≡ some b
    → (find_id buffers b.id ≡ some b) × (low < b.id)
unfolding IsAscending find_id
find_id-get_elem? low high i [] b h e = absurd (none≢some e)
find_id-get_elem? low high zero (c ∷ buffers) b (m, h) e =
    let same = some-injective _ _ e in
    subst (λ x. (find_id (c ∷ buffers) x.id ≡ some x) × (low < x.id)) same
      (find_id_here c buffers c.id (ground arith), m)
find_id-get_elem? low high (suc i) (c ∷ buffers) b (m, h) e =
    let (same, l) = find_id-get_elem? c.id high i buffers b h e in
    let other : (c.id == b.id) ≡ false = ground (arith, l) in
    (find_id_skip c buffers b.id other ∙ same, omega (arith, m, l))

pub index_of-get_elem? :
    (low high i : ℕ) (buffers : List Buffer) (b : Buffer)
    → IsAscending low buffers high
    → get_elem? buffers i ≡ some b
    → index_of buffers b.id ≡ some i
unfolding IsAscending index_of
index_of-get_elem? low high i [] b h e = absurd (none≢some e)
index_of-get_elem? low high zero (c ∷ buffers) b (m, h) e =
    let same : (c.id == b.id) ≡ true = eq→== c.id b.id (ap (λ x. x.id) (some-injective _ _ e)) in
    rw same refl
index_of-get_elem? low high (suc i) (c ∷ buffers) b (m, h) e =
    let (same, l) = find_id-get_elem? c.id high i buffers b h e in
    let other : (c.id == b.id) ≡ false = ground (arith, l) in
    rw (other, index_of-get_elem? c.id high i buffers b h e) refl
