-- ===== src/Base/Names.antt =====
-- C strings as lists of bytes, without the final NUL: names of commands, keys, modes and buffers.
use Prim.Native.Nat.{ℕ}
use Prim.Native.Char.{code}
use Prim.Native.String.{String}
use mathlib.Core.Path.{◌≡◌, refl, ap₂}
use mathlib.Core.Bool.{Bool, true, false, ◌&&◌, ◌||◌}
use mathlib.Core.List.{List, [], ◌∷◌}
use cpymacs.Base.Tests.{◌==◌, ==→eq, eq→==, and_true}

abbrev pub Name : Type 0
Name = List ℕ

-- the bytes of a literal in ASCII
abbrev pub codes : String → Name
codes String.[] = []
codes (String.◌∷◌ c s) = code c ∷ codes s

-- `!strcmp`
unfoldable pub same_name : Name → Name → Bool
same_name [] [] = true
same_name [] (y ∷ ys) = false
same_name (x ∷ xs) [] = false
same_name (x ∷ xs) (y ∷ ys) = x == y && same_name xs ys

-- `!strncmp` with the length of the first
unfoldable pub starts_with : Name → Name → Bool
starts_with [] text = true
starts_with (x ∷ xs) [] = false
starts_with (x ∷ xs) (y ∷ ys) = x == y && starts_with xs ys

-- `strstr(text, name)` is not null
unfoldable pub contains : Name → Name → Bool
unfolding starts_with
contains name [] = starts_with name []
contains name (y ∷ ys) = starts_with name (y ∷ ys) || contains name ys

pub same_name_refl : (xs : Name) → same_name xs xs ≡ true
unfolding same_name
same_name_refl [] = refl
same_name_refl (x ∷ xs) = rw (eq→== x x refl) (same_name_refl xs)

pub same_name-eq : (xs ys : Name) → same_name xs ys ≡ true → xs ≡ ys
unfolding same_name
same_name-eq [] [] h = refl
same_name-eq [] (y ∷ ys) h = cc
same_name-eq (x ∷ xs) [] h = cc
same_name-eq (x ∷ xs) (y ∷ ys) h =
    let both = and_true (x == y) (same_name xs ys) h in
    ap₂ ◌∷◌ (==→eq x y both.0) (same_name-eq xs ys both.1)
