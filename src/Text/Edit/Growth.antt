-- ===== src/Text/Edit/Growth.antt =====
-- The capacity that `text_insert` of src/text.c asks for.
use cpymacs.Base.{
  Bool-cases, arith, if◌then◌else◌, inl, inr, ltb, ltb→lt, suc, tests, zero, ℕ, ◌*◌, ◌<◌, ◌==◌, ◌^◌,
  ◌≡◌, ◌≤◌,
}
use native.Mathlib.Nat.{pow-suc}
use cpymacs.Text.Edit.{grow, new_cap, size_max}

-- what holds of the loop: it stops at a capacity that is enough and no larger than `size_t` holds
grow_lem :
    (fuel cap need : ℕ)
    → need < cap * 2 ^ fuel
    → cap ≤ size_max
    → need ≤ size_max
    → (need ≤ grow fuel cap need) × (grow fuel cap need ≤ size_max)
unfolding grow
grow_lem zero cap need h c n = omega arith
grow_lem (suc fuel) cap need h c n = ground (arith, double, grow_lem fuel (cap * 2) need)
  where
    double : cap * 2 ^ suc fuel ≡ cap * 2 * 2 ^ fuel
    double = rw pow-suc (grind arith)

-- For sizes that a `size_t` holds, the new capacity holds what is needed, is no larger than `size_t` holds, and is never less than
-- the old one.
pub new_cap_bounds :
    (cap need : ℕ)
    → cap ≤ size_max
    → need ≤ size_max
    → (need ≤ new_cap cap need) × (new_cap cap need ≤ size_max) × (cap ≤ new_cap cap need)
unfolding new_cap
new_cap_bounds cap need c n = elim (Bool-cases (ltb cap need)) [
  | inl e ↦
      let least : (if cap == 0 then 4096 else cap) ≤ size_max = ground arith in
      let pos : need < (if cap == 0 then 4096 else cap) * 2 ^ 64 = ground arith in
      let (enough, fits) = grow_lem 64 (if cap == 0 then 4096 else cap) need pos least n in
      rw e (enough, fits, omega (arith, enough, ltb→lt cap need e))
  | inr e ↦ rw e (omega tests)
]
