-- ===== src/Kill.antt =====
-- The kill ring of src/commands.c (`kill_ring`, `yank_index` and `kill_generation` of
-- include/editor.h), the newest entry first. `kill_count` is the length of the list.
pub mod Ring
pub mod Range
pub mod Restore
use cpymacs.Base.{
  Bool, List, [], if◌then◌else◌, length, take, ℕ, ◌%◌, ◌++◌, ◌+◌, ◌-◌, ◌==◌, ◌^◌, ◌∷◌,
}
use cpymacs.Buffer.{Editor}

-- `CP_KILL_RING`
abbrev pub kill_ring_size : ℕ
kill_ring_size = 60

-- The entries after a kill; `append` joins it to the newest one, if there is one.
unfoldable pub pushed : List (List ℕ) → List ℕ → Bool → Bool → List (List ℕ)
pushed [] s backwards append = s ∷ []
pushed (x ∷ ring) s backwards append =
    let all = x ∷ ring in
    if append
    then (if backwards then s ++ x else x ++ s) ∷ ring
    else s ∷ (if length all == kill_ring_size then take (length all - 1) all else all)

unfoldable pub push_kill : Editor → List ℕ → Bool → Bool → Editor
push_kill e s backwards append = record e {
  kill_ring = pushed e.kill_ring s backwards append;
  yank_index = 0;
  kill_generation = (e.kill_generation + 1) % 2 ^ 64;
}
