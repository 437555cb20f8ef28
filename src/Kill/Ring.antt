-- ===== src/Kill/Ring.antt =====
-- What a kill does to the kill ring of src/commands.c.
use cpymacs.Base.{
  ==→eq, Bool, Bool-cases, List, [], ap, arith, false, inl, inr, length, length-take, refl, sym,
  take, take_all, true, ℕ, ◌-◌, ◌==◌, ◌∷◌, ◌≡◌, ◌≤◌,
}
use cpymacs.Kill.{push_kill, pushed, kill_ring_size}
use cpymacs.Buffer.{Editor}

pushed-take :
    (ring : List (List ℕ)) (s : List ℕ) (backwards : Bool)
    → length ring ≤ kill_ring_size
    → pushed ring s backwards false ≡ take kill_ring_size (s ∷ ring)
unfolding pushed
pushed-take [] s backwards h = refl
pushed-take (x ∷ ring) s backwards h = elim (Bool-cases (length (x ∷ ring) == kill_ring_size)) [
  | inl e ↦
      let size : length (x ∷ ring) ≡ 60 = ==→eq (length (x ∷ ring)) kill_ring_size e in
      let last : length (x ∷ ring) - 1 ≡ 59 = omega (arith, size) in
      rw e (ap (λ k. s ∷ take k (x ∷ ring)) last)
  | inr e ↦
      let size : length (x ∷ ring) ≤ 59 = ground (arith, h) in
      rw e (ap (s ∷◌) (sym (take_all 59 (x ∷ ring) size)))
]

-- A kill that is not appended comes first in a ring within its size of 60, and the ring keeps its
-- newest entries, up to that size.
pub push_kill-take :
    (e : Editor) (s : List ℕ) (backwards : Bool)
    → length e.kill_ring ≤ kill_ring_size
    → (push_kill e s backwards false).kill_ring ≡ take kill_ring_size (s ∷ e.kill_ring)
unfolding push_kill
push_kill-take e s backwards h = pushed-take e.kill_ring s backwards h

joined_bound :
    (ring : List (List ℕ)) (s : List ℕ) (backwards : Bool)
    → length ring ≤ kill_ring_size
    → length (pushed ring s backwards true) ≤ kill_ring_size
unfolding pushed
joined_bound [] s backwards h = omega arith
joined_bound (x ∷ ring) s backwards h = omega (arith, h)

pushed_bound :
    (ring : List (List ℕ)) (s : List ℕ) (backwards append : Bool)
    → length ring ≤ kill_ring_size
    → length (pushed ring s backwards append) ≤ kill_ring_size
pushed_bound ring s backwards false h =
    let size = length-take kill_ring_size (s ∷ ring) in
    let same = ap length (pushed-take ring s backwards h) in omega (arith, same, size)
pushed_bound ring s backwards true h = joined_bound ring s backwards h

-- A kill, appended or not, leaves a ring within its size of 60 within it.
pub push_kill_bound :
    (e : Editor) (s : List ℕ) (backwards append : Bool)
    → length e.kill_ring ≤ kill_ring_size
    → length (push_kill e s backwards append).kill_ring ≤ kill_ring_size
unfolding push_kill
push_kill_bound e s backwards append h = pushed_bound e.kill_ring s backwards append h
