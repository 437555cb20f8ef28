-- ===== src/Buffer/Find.antt =====
-- `editor_find` of src/buffer.c: the search of Knuth, Morris and Pratt, in chunks of the text.
pub mod Failure
pub mod Scan
pub mod Chunks
pub mod Occurs
pub mod Correct
pub mod Characters
use cpymacs.Base.{
  Bool, List, Option, [], false, get_or, if◌then◌else◌, leb, length, ltb, none, not, some, suc,
  true, zero, ℕ, ◌&&◌, ◌++◌, ◌+◌, ◌-◌, ◌==◌, ◌∷◌,
}
use cpymacs.Buffer.{Buffer}
use cpymacs.Text.Read.{text_copy}
use cpymacs.Text.Edit.{Text, text_size}
use cpymacs.Text.Piece.{chunk}

-- `while(j && c!=needle[j]) j=pi[j-1]`, on fuel: j rounds are enough
unfoldable pub fall_back : ℕ → List ℕ → List ℕ → ℕ → ℕ → ℕ
fall_back zero needle pi c j = j
fall_back (suc fuel) needle pi c j =
    let rest = fall_back fuel needle pi c (get_or pi (j - 1) 0) in
    if not (j == 0) && not (c == get_or needle j 0) then rest else j

-- that loop and the `if` behind it
unfoldable pub advance : List ℕ → List ℕ → ℕ → ℕ → ℕ
advance needle pi c j =
    let k = fall_back j needle pi c j in if c == get_or needle k 0 then k + 1 else k

-- the loop that fills `pi`, from i on
unfoldable pub fill_pi : ℕ → List ℕ → List ℕ → ℕ → ℕ → List ℕ
fill_pi zero needle pi i j = pi
fill_pi (suc k) needle pi i j =
    let j' = advance needle pi (get_or needle i 0) j in
    fill_pi k needle (pi ++ (j' ∷ [])) (i + 1) j'

unfoldable pub failures : List ℕ → List ℕ
failures needle = fill_pi (length needle - 1) needle (0 ∷ []) 1 0

-- What is known after a part of the text: whether the search returns, j, and `result`, which is `none`
-- for SIZE_MAX.
abbrev pub Found : Type 0
Found = Bool × ℕ × Option ℕ

-- the loop over a chunk, whose next byte stands at `at` in the text
unfoldable pub scan_chunk : List ℕ → List ℕ → Bool → List ℕ → ℕ → ℕ → Option ℕ → Found
scan_chunk needle pi backward [] at j result = (false, j, result)
scan_chunk needle pi backward (c ∷ chunk) at j result =
    let j' = advance needle pi c j in
    let found = j' == length needle in
    let result' = if found then some (at + 1 - length needle) else result in
    let rest =
      scan_chunk needle pi backward chunk (at + 1) (if found then get_or pi (j' - 1) 0 else j')
        result' in
    if found && not backward then (true, j', result') else rest

-- `while(off<limit)`, with limit - off rounds at most
unfoldable pub find_chunks : ℕ → List ℕ → List ℕ → Bool → Text → ℕ → ℕ → ℕ → Option ℕ → Option ℕ
find_chunks zero needle pi backward t off limit j result = result
find_chunks (suc k) needle pi backward t off limit j result =
    let n = if ltb (limit - off) 32768 then limit - off else 32768 in
    let out = scan_chunk needle pi backward (text_copy t off n) off j result in
    let rest = find_chunks k needle pi backward t (off + n) limit out.1 out.2 in
    if ltb off limit then (if out.0 then out.2 else rest) else result

unfoldable pub editor_find : Buffer → List ℕ → ℕ → Bool → Option ℕ
editor_find b needle start backward =
    let size = text_size b.text in
    let start' = if ltb size start then size else start in
    let off = if backward then 0 else start' in
    let limit = if backward then start' else size in
    if length needle == 0
    then some (if leb start size then start else size)
    else find_chunks (limit - off) needle (failures needle) backward b.text off limit 0 none
