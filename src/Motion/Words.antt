-- ===== src/Motion/Words.antt =====
-- Where `move_word` of src/commands.c stops.
use cpymacs.Base.{
  ==→eq, Bool, Bool-cases, and_true, ap, arith, drop, false, if◌then◌else◌, inl, inr, leb, length,
  ltb, not, refl, suc, sym, take, true, zero, ℕ, ◌&&◌, ◌-◌, ◌<◌, ◌==◌, ◌∙◌, ◌≡◌, ◌≤◌, ◌⊎◌,
}
use cpymacs.Motion.{
  move_word, pass_next, pass_prev, word_at, word_back, word_forward, words_back, words_forward,
}
use cpymacs.Buffer.{Buffer}
use cpymacs.Utf8.Boundary.{boundary, boundary-le}
use cpymacs.Text.Read.{text_next, text_prev}
use cpymacs.Text.Edit.{text_size}
use cpymacs.Text.Edit.Byte.{content}
use cpymacs.Text.Edit.Insert.{IsText}
use cpymacs.Buffer.Undo.{negsuc, pos}
use cpymacs.Utf8.{utf8_decode}
use cpymacs.Text.Read.Slice.{text_copy_lem}
use cpymacs.Motion.Chars.{after, before, size_same}

-- n steps of a relation one after the other
abbrev pub Repeated : (ℕ → ℕ → Type 0) → ℕ → ℕ → ℕ → Type 0
Repeated R zero at out = out ≡ at
Repeated R (suc n) at out = (mid : ℕ) × R at mid × Repeated R n mid out

-- a test for being inside, or else outside, that has passed
chosen : (inside here : Bool) → (if inside then here else not here) ≡ true → here ≡ inside
chosen true here h = h
chosen false true h = cc
chosen false false h = refl

module _ (b : Buffer) (v : IsText b.text) where
  module _ (alphanumeric : ℕ → Bool) where
    abbrev test : ℕ → Bool
    test at = word_at alphanumeric b at

    -- The character at a place of the text is a word character; at the end there is none.
    abbrev pub word : ℕ → Bool
    word at =
        if leb (length (content b.text)) at
        then false
        else alphanumeric
            (utf8_decode (take (text_next b.text at - at) (drop at (content b.text)))).0

    test_lem : (at : ℕ) → test at ≡ word at
    unfolding word_at
    test_lem at = elim (Bool-cases (leb (length (content b.text)) at)) [
      | inl h ↦
          let outside : leb (text_size b.text) at ≡ true = rw (size_same b v) h in rw (h, outside)
      | inr h ↦
          let inside : leb (text_size b.text) at ≡ false = rw (size_same b v) h in
          let copied =
            text_copy_lem b.text at (text_next b.text at - at) v (ground (arith, inside)) in
          rw (h, inside) (ap (λ s. alphanumeric (utf8_decode s).0) copied)
    ]

    stops_at :
        {P : Type 0} (at : ℕ) {inside : Bool} → P ⊎ (test at ≡ inside) → P ⊎ (word at ≡ inside)
    stops_at at (inl p) = inl p
    stops_at at (inr h) = inr (sym (test_lem at) ∙ h)

    -- From `at` to `out` all characters are word characters, or all others, and there are no more of
    -- them behind `out`.
    pub record IsPassed (inside : Bool) (at out : ℕ) : Type 0 where
      pub new : boundary (content b.text) out ≡ true
      pub above : at ≤ out
      pub all : (i : ℕ) → at ≤ i → i < out → boundary (content b.text) i ≡ true → word i ≡ inside
      pub stops : (out ≡ length (content b.text)) ⊎ (word out ≡ not inside)

    -- The same back from `at` to `out`.
    pub record IsPassedBack (inside : Bool) (at out : ℕ) : Type 0 where
      pub new : boundary (content b.text) out ≡ true
      pub below : out ≤ at
      pub all : (i : ℕ) → out ≤ i → i < at → boundary (content b.text) i ≡ true → word i ≡ inside
      pub stops : (out ≡ 0) ⊎ (word (text_prev b.text out) ≡ not inside)

    -- the characters up to the next word, and then the word
    abbrev pub IsWord : ℕ → ℕ → Type 0
    IsWord at out = (start : ℕ) × IsPassed false at start × IsPassed true start out

    abbrev pub IsWordBack : ℕ → ℕ → Type 0
    IsWordBack at out = (end : ℕ) × IsPassedBack false at end × IsPassedBack true end out

    pass_next_lem :
        (fuel : ℕ) (inside : Bool) (at : ℕ)
        → boundary (content b.text) at ≡ true
        → length (content b.text) - at ≤ fuel
        → IsPassed inside at (pass_next alphanumeric fuel b inside at)
    unfolding pass_next
    pass_next_lem zero inside at k f =
        let le = boundary-le (content b.text) at k in
        record {
          new = k;
          above = omega arith;
          all = λ i a u k'. absurd (omega (arith, a, u));
          stops = inl (omega (arith, le, f));
        }
    pass_next_lem (suc fuel) inside at k f =
        elim (Bool-cases
          (ltb at (text_size b.text) && (if inside then test at else not (test at)))) [
            | inl h ↦
                let (within, going) = and_true (ltb at (text_size b.text)) _ h in
                let n = after b v at within in
                let s =
                  pass_next_lem fuel inside (text_next b.text at) n.here
                    (omega (arith, f, n.above)) in
                rw h (record {
                  new = s.new;
                  above = omega (arith, s.above, n.above);
                  all = λ i a u k'. elim (Bool-cases (i == at)) [
                    | inl same ↦
                        rw (==→eq i at same) (sym (test_lem at) ∙ chosen inside (test at) going)
                    | inr other ↦ elim (Bool-cases (ltb i (text_next b.text at))) [
                      | inl less ↦
                          cc (k', n.between i (ground (arith, a, other)) (ground (arith, less)))
                      | inr reached ↦ s.all i (ground (arith, reached)) u k'
                    ]
                  ];
                  stops = s.stops;
                })
            | inr h ↦ rw h (record {
              new = k;
              above = omega arith;
              all = λ i a u k'. absurd (omega (arith, a, u));
              stops = stops_at at (stopped inside at k h);
            })
          ]
      where
        stopped :
            (inside : Bool) (at : ℕ)
            → boundary (content b.text) at ≡ true
            → (ltb at (text_size b.text) && (if inside then test at else not (test at))) ≡ false
            → (at ≡ length (content b.text)) ⊎ (test at ≡ not inside)
        stopped true at k h = ground (arith, h, (size_same b v), boundary-le (content b.text) at k)
        stopped false at k h = ground (arith, h, (size_same b v), boundary-le (content b.text) at k)

    pass_prev_lem :
        (fuel : ℕ) (inside : Bool) (at : ℕ)
        → boundary (content b.text) at ≡ true
        → at ≤ fuel
        → IsPassedBack inside at (pass_prev alphanumeric fuel b inside at)
    unfolding pass_prev
    pass_prev_lem zero inside at k f = record {
      new = k;
      below = omega arith;
      all = λ i a u k'. absurd (omega (arith, a, u));
      stops = inl (omega (arith, f));
    }
    pass_prev_lem (suc fuel) inside at k f =
        elim (Bool-cases (
          ltb 0 at
          && (if inside then test (text_prev b.text at) else not (test (text_prev b.text at))))) [
            | inl h ↦
                let (some_left, going) = and_true (ltb 0 at) _ h in
                let p = before b v at k (ground (arith, some_left)) in
                let prev = text_prev b.text at in
                let s = pass_prev_lem fuel inside prev p.here (omega (arith, f, p.below)) in
                rw h (record {
                  new = s.new;
                  below = omega (arith, s.below, p.below);
                  all = λ i a u k'. elim (Bool-cases (i == prev)) [
                    | inl same ↦
                        rw (==→eq i prev same)
                          (sym (test_lem prev) ∙ chosen inside (test prev) going)
                    | inr other ↦ elim (Bool-cases (ltb i prev)) [
                      | inl less ↦ s.all i a (ground (arith, less)) k'
                      | inr reached ↦ cc (k', p.between i (ground (arith, reached, other)) u)
                    ]
                  ];
                  stops = s.stops;
                })
            | inr h ↦ rw h (record {
              new = k;
              below = omega arith;
              all = λ i a u k'. absurd (omega (arith, a, u));
              stops = stops_at (text_prev b.text at) (stopped inside at h);
            })
          ]
      where
        stopped :
            (inside : Bool) (at : ℕ)
            → (ltb 0 at
                && (if inside
                    then test (text_prev b.text at)
                    else not (test (text_prev b.text at))))
              ≡ false
            → (at ≡ 0) ⊎ (test (text_prev b.text at) ≡ not inside)
        stopped true at h = ground (arith, h)
        stopped false at h = ground (arith, h)

    word_forward_lem :
        (at : ℕ) → boundary (content b.text) at ≡ true → IsWord at (word_forward alphanumeric b at)
    unfolding word_forward
    word_forward_lem at k =
        let start = pass_next alphanumeric (text_size b.text - at) b false at in
        let gap =
          pass_next_lem (text_size b.text - at) false at k (omega (arith, (size_same b v))) in
        let run =
          pass_next_lem (text_size b.text - start) true start gap.new
            (omega (arith, (size_same b v))) in
        (start, gap, run)

    word_back_lem :
        (at : ℕ) → boundary (content b.text) at ≡ true → IsWordBack at (word_back alphanumeric b at)
    unfolding word_back
    word_back_lem at k =
        let end = pass_prev alphanumeric at b false at in
        let gap = pass_prev_lem at false at k (omega arith) in
        (end, gap, pass_prev_lem end true end gap.new (omega arith))

    words_forward_lem :
        (n at : ℕ)
        → boundary (content b.text) at ≡ true
        → Repeated IsWord n at (words_forward alphanumeric n b at)
    unfolding words_forward
    words_forward_lem zero at k = refl
    words_forward_lem (suc n) at k =
        let (start, gap, run) = word_forward_lem at k in
        let mid = word_forward alphanumeric b at in
        (mid, (start, gap, run), words_forward_lem n mid run.new)

    words_back_lem :
        (n at : ℕ)
        → boundary (content b.text) at ≡ true
        → Repeated IsWordBack n at (words_back alphanumeric n b at)
    unfolding words_back
    words_back_lem zero at k = refl
    words_back_lem (suc n) at k =
        let (end, gap, run) = word_back_lem at k in
        let mid = word_back alphanumeric b at in
        (mid, (end, gap, run), words_back_lem n mid run.new)

    -- From a boundary of a valid text, `move_word` with a count n from 0 on moves n times over all the
    -- characters that are in no word and then over all those of a word, each time up to the end of the
    -- text at most; with a count of -n - 1 it moves back in the same way n + 1 times, up to the start.
    pub move_word_lem :
        (at n : ℕ)
        → boundary (content b.text) at ≡ true
        → Repeated IsWord n at (move_word alphanumeric b at (pos n))
          × Repeated IsWordBack (suc n) at (move_word alphanumeric b at (negsuc n))
    unfolding move_word
    move_word_lem at n k = (words_forward_lem n at k, words_back_lem (suc n) at k)
