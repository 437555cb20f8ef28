-- ===== src/Buffer/Find/Chunks.antt =====
-- `editor_find` of src/buffer.c finds the same in chunks as in one piece.
use cpymacs.Base.{
  Bool, Bool-cases, List, Option, [], ap, arith, drop, drop-drop, get_or, if◌then◌else◌, inl, inr,
  length, length-drop, length-take, ltb, not, refl, some, suc, sym, take, take-take-drop, zero, ℕ,
  ◌&&◌, ◌++◌, ◌+◌, ◌-◌, ◌==◌, ◌∙◌, ◌∷◌, ◌≡◌, ◌≤◌,
}
use cpymacs.Text.Edit.{Text}
use cpymacs.Text.Edit.Byte.{content, text_size_lem}
use cpymacs.Text.Edit.Insert.{IsText}
use cpymacs.Buffer.Find.{Found, advance, find_chunks, scan_chunk}
use cpymacs.Text.Read.Slice.{text_copy_lem}

module _ (p pi : List ℕ) (backward : Bool) where
  abbrev scan : List ℕ → ℕ → ℕ → Option ℕ → Found
  scan s at j result = scan_chunk p pi backward s at j result

  scan-append :
      (a b : List ℕ) (at j : ℕ) (result : Option ℕ)
      → (scan (a ++ b) at j result).2 ≡ (
          if (scan a at j result).0
          then (scan a at j result).2
          else (scan b (at + length a) (scan a at j result).1 (scan a at j result).2).2)
  unfolding scan_chunk
  scan-append [] b at j result = ap (λ x. (scan b x j result).2) (omega arith)
  scan-append (c ∷ a) b at j result =
      let j' = advance p pi c j in
      let found = j' == length p in
      let later =
        scan-append a b (at + 1) (if found then get_or pi (j' - 1) 0 else j')
          (if found then some (at + 1 - length p) else result) in
      elim (Bool-cases (found && not backward)) [
        | inl e ↦ rw e refl
        | inr e ↦ rw e (
            later
            ∙ ap
                (λ x.
                  let o =
                    scan a (at + 1) (if found then get_or pi (j' - 1) 0 else j')
                      (if found then some (at + 1 - length p) else result) in
                  if o.0 then o.2 else (scan b x o.1 o.2).2)
                {x = at + 1 + length a} {y = at + suc (length a)} (omega arith))
      ]

  no_more :
      (c : List ℕ) (off limit j : ℕ) (result : Option ℕ)
      → limit ≤ off
      → result ≡ (scan (take (limit - off) (drop off c)) off j result).2
  unfolding scan_chunk
  no_more c off limit j result h =
      ap (λ x. (scan (take x (drop off c)) off j result).2) {x = 0} (omega (arith, h))

  chunks :
      (c : List ℕ) (off limit n : ℕ)
      → off + n ≤ limit
      → limit ≤ length c
      → (take (limit - off) (drop off c)
          ≡ take n (drop off c) ++ take (limit - (off + n)) (drop (off + n) c))
        × (length (take n (drop off c)) ≡ n)
  chunks c off limit n h b = (
    ap (λ x. take x (drop off c)) (omega (arith, h))
        ∙ sym (take-take-drop n (limit - (off + n)) (drop off c))
        ∙ ap (λ x. take n (drop off c) ++ take (limit - (off + n)) x) (drop-drop off n c),
    omega (arith, length-take n (drop off c), length-drop off c, h, b),
  )

  -- With a round for each byte that is left, the chunks are all read.
  pub find_chunks_lem :
      (fuel : ℕ) (t : Text) (off limit j : ℕ) (result : Option ℕ)
      → IsText t
      → limit ≤ length (content t)
      → limit - off ≤ fuel
      → find_chunks fuel p pi backward t off limit j result
        ≡ (scan (take (limit - off) (drop off (content t))) off j result).2
  unfolding find_chunks
  find_chunks_lem zero t off limit j result v b f =
      no_more (content t) off limit j result (omega (arith, f))
  find_chunks_lem (suc fuel) t off limit j result v b f = elim (Bool-cases (ltb off limit)) [
    | inl e ↦
        let n = if ltb (limit - off) 32768 then limit - off else 32768 in
        let less : (off + n ≤ limit) × (limit - (off + n) ≤ fuel) = ground (arith, e, f) in
        let (both, size) = chunks (content t) off limit n less.0 b in
        let a = take n (drop off (content t)) in
        let rest = take (limit - (off + n)) (drop (off + n) (content t)) in
        let o = scan a off j result in
        let here = text_copy_lem t off n v (omega (arith, text_size_lem t v.tree, less.0, b)) in
        let later = find_chunks_lem fuel t (off + n) limit o.1 o.2 v b less.1 in
        let whole =
          ap (λ x. (scan x off j result).2) both
          ∙ scan-append a rest off j result
          ∙ ap (λ x. if o.0 then o.2 else (scan rest (off + x) o.1 o.2).2) size in
        rw (e, here) (ap (λ x. if o.0 then o.2 else x) later ∙ sym whole)
    | inr e ↦ rw e (no_more (content t) off limit j result (ground (arith, e)))
  ]
