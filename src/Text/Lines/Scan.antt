-- ===== src/Text/Lines/Scan.antt =====
-- The starts of lines in a list of bytes, and the scan of one piece by `text_line_start` of
-- src/text.c.
use cpymacs.Base.{
  Bool-cases, List, [], ap, arith, count_if, false, if◌then◌else◌, inl, inr, length, refl, some,
  suc, zero, ℕ, ◌++◌, ◌+◌, ◌-◌, ◌<◌, ◌==◌, ◌∙◌, ◌∷◌, ◌≡◌, ◌≤◌,
}
use cpymacs.Text.Piece.{is_newline}
use cpymacs.Text.Edit.{size_max, sub_size}
use cpymacs.Text.Lines.{scan_lines}

-- Where a line of a list of bytes starts: behind that many newlines, or at the end.
abbrev pub start_of_line : ℕ → List ℕ → ℕ
start_of_line zero s = 0
start_of_line (suc k) [] = 0
start_of_line (suc k) (c ∷ s) = suc (start_of_line (if is_newline c then k else suc k) s)

pub start_of_line-append_le :
    (k : ℕ) (a b : List ℕ)
    → k ≤ count_if is_newline a
    → start_of_line k (a ++ b) ≡ start_of_line k a
start_of_line-append_le zero a b h = refl
start_of_line-append_le (suc k) [] b h = absurd (omega arith)
start_of_line-append_le (suc k) (c ∷ a) b h =
    ap suc (start_of_line-append_le (if is_newline c then k else suc k) a b (ground arith))

pub start_of_line-append_gt :
    (k : ℕ) (a b : List ℕ)
    → count_if is_newline a < k
    → start_of_line k (a ++ b) ≡ length a + start_of_line (k - count_if is_newline a) b
start_of_line-append_gt zero a b h = absurd (omega arith)
start_of_line-append_gt (suc k) [] b h =
    ap (λ j. start_of_line j b) {x = suc k} {y = suc k - 0} (omega arith) ∙ omega arith
start_of_line-append_gt (suc k) (c ∷ a) b h =
    let k' = if is_newline c then k else suc k in
    let rest : k' - count_if is_newline a ≡ suc k - count_if is_newline (c ∷ a) = ground arith in
    ap suc (start_of_line-append_gt k' a b (ground arith))
    ∙ omega (arith, ap (λ j. start_of_line j b) rest)

pub start_of_line_past :
    (k : ℕ) (s : List ℕ) → count_if is_newline s < k → start_of_line k s ≡ length s
start_of_line_past zero s h = absurd (omega arith)
start_of_line_past (suc k) [] h = refl
start_of_line_past (suc k) (c ∷ s) h =
    ap suc (start_of_line_past (if is_newline c then k else suc k) s (ground arith))

-- The scan of one piece finds a newline that is there.
pub scan_lines_lem :
    (s : List ℕ) (i line : ℕ)
    → 0 < line
    → line ≤ size_max
    → line ≤ count_if is_newline s
    → (j : ℕ) × ((scan_lines s i line).0 ≡ some j) × (j + 1 ≡ i + start_of_line line s)
unfolding scan_lines
scan_lines_lem [] i line p b h = absurd (omega arith)
scan_lines_lem (c ∷ s) i zero p b h = absurd (omega arith)
scan_lines_lem (c ∷ s) i (suc zero) p b h = elim (Bool-cases (is_newline c)) [
  | inl e ↦ rw e (i, refl, omega arith)
  | inr e ↦
      let (j, found, at) = scan_lines_lem s (i + 1) 1 p b (ground arith) in
      rw e (j, found, omega (arith, at))
]
scan_lines_lem (c ∷ s) i (suc (suc k)) p b h = elim (Bool-cases (is_newline c)) [
  | inl e ↦
      let less : sub_size (suc (suc k)) 1 ≡ suc k = omega arith in
      let more : (suc (suc k) == 1) ≡ false = ground arith in
      let (j, found, at) =
        scan_lines_lem s (i + 1) (suc k) (omega arith) (omega arith) (ground arith) in
      rw (e, more, less) (j, found, omega (arith, at))
  | inr e ↦
      let (j, found, at) = scan_lines_lem s (i + 1) (suc (suc k)) p b (ground arith) in
      rw e (j, found, omega (arith, at))
]
