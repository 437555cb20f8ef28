-- ===== src/Minibuffer/Replace.antt =====
-- The replacements of query-replace in src/commands.c come to an end.
use cpymacs.Base.{
  Bool, Name, Option, [], ap, arith, codes, false, inl, inr, length, min, none, refl, some, suc,
  true, zero, ℕ, ◌%◌, ◌*◌, ◌+◌, ◌-◌, ◌<◌, ◌>>=◌, ◌^◌, ◌∙◌, ◌≡◌, ◌≤◌, ◌⊎◌,
}
use cpymacs.Minibuffer.{prompt, prompt_clear}
use cpymacs.Buffer.{
  Buffer, Editor, Minibuffer, Search, editor_buffer, put_buffer, replace_finished, with_message,
  editor_replace,
}
use cpymacs.Window.{active}
use cpymacs.Window.Session.{put_buffer-IsSession}
use cpymacs.Kill.Restore.{IsBuffer-moved, IsEditable, put_buffer-current, edit_again}
use cpymacs.Text.Replace.{added_len}
use cpymacs.Text.Edit.Byte.{content}
use cpymacs.Buffer.History.{View}
use cpymacs.Buffer.Find.{editor_find}
use cpymacs.Buffer.Find.Correct.{editor_find_lem}
use cpymacs.Buffer.Find.Occurs.{IsFirstFrom, Occurs, Occurs-within}
use cpymacs.Minibuffer.Answer.{query_next, query_next_at, replace_on, replace_once, replace_while}
use cpymacs.Utf8.{utf8_valid, valid_from}
use cpymacs.Text.Edit.{size_max}
use cpymacs.Text.Piece.{store}
use cpymacs.Key.Press.{Outcome}
use cpymacs.Text.Edit.Splice.{length-splice}
use cpymacs.Buffer.Replace.{accepted, nothing}
use cpymacs.Buffer.Find.Characters.{Occurs-boundary}
use cpymacs.TermStyle.Contrast.{enough}
use cpymacs.Motion.Chars.{after}

-- fields that the buffers and windows do not depend on
editable_with :
    (first : View) (e : Editor) (b : Buffer) (s : Search) (m : Minibuffer) (g : ℕ)
    → IsEditable first e b
    → IsEditable first (record e { search = s; minibuffer = m; group = g }) b
unfolding editor_buffer
editable_with first e b s m g v = record {
  session = record {
    parts = record {
      ids = v.session.parts.ids;
      few = v.session.parts.few;
      windows = v.session.parts.windows;
    };
    current = v.session.current;
  };
  here = v.here;
  valid = v.valid;
  writable = v.writable;
}

point_moved :
    (first : View) (e : Editor) (b : Buffer) (point mark : ℕ) (has active : Bool)
    → IsEditable first e b
    → IsEditable first
        (put_buffer e
          (record b { point = point; mark = mark; has_mark = has; mark_active = active }))
        (record b { point = point; mark = mark; has_mark = has; mark_active = active })
point_moved first e b point mark has active v =
    let c = record b { point = point; mark = mark; has_mark = has; mark_active = active } in
    record {
      session = put_buffer-IsSession e b c v.here refl v.session;
      here = put_buffer-current e b c v.here;
      valid = IsBuffer-moved first b point mark has active v.valid;
      writable = v.writable;
    }

-- A replacement is asked for at a place where the string stands.
pub record IsPending (first : View) (e : Editor) (b : Buffer) : Type 0 where
  pub editable : IsEditable first e b
  pub found : Occurs (content b.text) e.search.replace_from e.search.replace_at
  pub asked : e.minibuffer.prompt_command ≡ codes "query-step"

-- the bytes from the place on
abbrev pub ahead : Editor → Buffer → ℕ
ahead e b = length (content b.text) - e.search.replace_at

abbrev pub IsClosed : Editor → Type 0
IsClosed e = e.minibuffer.prompt_command ≡ []

-- `query_next` closes the prompt, or asks for a place from the point on.
query_next_lem :
    (first : View) (e : Editor) (b : Buffer)
    → IsEditable first e b
    → b.point ≤ length (content b.text)
    → (out : Editor) × (c : Buffer) × (query_next e ≡ some out)
      × (content c.text ≡ content b.text)
      × (added_len c.text ≡ added_len b.text)
      × (out.search.replace_from ≡ e.search.replace_from)
      × (out.search.replace_to ≡ e.search.replace_to)
      × (IsClosed out ⊎ (IsPending first out c × (b.point ≤ out.search.replace_at)))
unfolding query_next query_next_at prompt prompt_clear IsFirstFrom put_buffer
query_next_lem first e b v inside =
    let from = e.search.replace_from in
    let (forward, back) = editor_find_lem b b.point v.valid.text from in
    go (editor_find b from b.point false) refl forward
  where
    go :
        (o : Option ℕ)
        → editor_find b e.search.replace_from b.point false ≡ o
        → IsFirstFrom
            (content b.text)
            e.search.replace_from
            (min b.point (length (content b.text)))
            o
        → (out : Editor) × (c : Buffer) × (query_next e ≡ some out)
          × (content c.text ≡ content b.text)
          × (added_len c.text ≡ added_len b.text)
          × (out.search.replace_from ≡ e.search.replace_from)
          × (out.search.replace_to ≡ e.search.replace_to)
          × (IsClosed out ⊎ (IsPending first out c × (b.point ≤ out.search.replace_at)))
    go none q f = (
      with_message (prompt_clear e) replace_finished,
      b,
      rw v.here (ap (query_next_at e b) q),
      refl,
      refl,
      refl,
      refl,
      inl refl,
    )
    go (some at) q (after, stands, least) =
        let c = record b {
          point = at + length e.search.replace_from;
          mark = at;
          has_mark = true;
          mark_active = true;
        } in
        let s = record e.search { replace_at = at } in
        let e1 = record e { search = s } in
        let v1 = editable_with first e b s e.minibuffer e.group v in
        let e2 = put_buffer e1 c in
        let v2 = point_moved first e1 b (at + length e.search.replace_from) at true true v1 in
        let out = prompt e2 (codes "Replace? y/n/!/q: ") (codes "query-step") [] in
        (
          out,
          c,
          rw v.here (ap (query_next_at e b) q),
          refl,
          refl,
          refl,
          refl,
          inr (
            record {
              editable = editable_with first e2 c e2.search out.minibuffer e2.group v2;
              found = stands;
              asked = refl;
            },
            omega (arith, after, inside),
          ),
        )

-- After an edit, the point goes behind the new string, and the next place is not before it.
replace_on_lem :
    (first : View) (d : Editor) (b : Buffer)
    → IsEditable first d b
    → d.search.replace_at + length d.search.replace_to ≤ length (content b.text)
    → (out : Editor) × (c : Buffer) × (replace_on (true, d) ≡ some (true, out))
      × (added_len c.text ≡ added_len b.text)
      × (out.search.replace_from ≡ d.search.replace_from)
      × (out.search.replace_to ≡ d.search.replace_to)
      × (IsClosed out
          ⊎ (IsPending first out c
              × (ahead out c + (d.search.replace_at + length d.search.replace_to)
                  ≤ length (content b.text))))
unfolding replace_on put_buffer
replace_on_lem first d b v inside =
    let point = d.search.replace_at + length d.search.replace_to in
    let c = record b { point = point } in
    let moved = point_moved first d b point b.mark b.has_mark b.mark_active v in
    let (out, c', q, text, store, same_from, same_to, next_is) =
      query_next_lem first (put_buffer d c) c moved inside in
    (
      out,
      c',
      rw v.here (ap (λ o. o >>= (λ f. some (true, f))) q),
      store,
      same_from,
      same_to,
      elim next_is [
        | inl z ↦ inl z
        | inr (pending, after) ↦ inr (pending, omega (arith, ap length text, after, inside))
      ],
    )

module _ (text_changed : Editor → Editor) (quiet : (d : Editor) → text_changed d ≡ d)
    (save : Editor → Option Name → Bool → Outcome) (first : View) where
  -- a round, from the editor the edit has given
  once_edited :
      (e : Editor) (b : Buffer) (d : Editor) (b' : Buffer)
      → editor_replace text_changed
          (record e { group = (e.group + 1) % 2 ^ 64 })
          e.search.replace_at
          (length e.search.replace_from)
          e.search.replace_to
        ≡ some (true, d)
      → IsEditable first d b'
      → d.search ≡ e.search
      → length (content b'.text)
        ≡ length (content b.text) - length e.search.replace_from + length e.search.replace_to
      → e.search.replace_at + length e.search.replace_from ≤ length (content b.text)
      → 0 < length e.search.replace_from
      → (out : Editor) × (c : Buffer) × (replace_once text_changed save e ≡ some (true, out))
        × (added_len c.text ≡ added_len b'.text)
        × (out.search.replace_from ≡ e.search.replace_from)
        × (out.search.replace_to ≡ e.search.replace_to)
        × (IsClosed out ⊎ (IsPending first out c × (ahead out c < ahead e b)))
  unfolding replace_once
  once_edited e b d b' q v search size inside some_from =
      let place : d.search.replace_at + length d.search.replace_to
          ≡ e.search.replace_at + length e.search.replace_to =
        ap (λ s. s.replace_at + length s.replace_to) search in
      let (out, c, ran, store, same_from, same_to, next_is) =
        replace_on_lem first d b' v (omega (arith, size, place, inside)) in
      (
        out,
        c,
        ap (λ o. o >>= replace_on) q ∙ ran,
        store,
        same_from ∙ ap (λ s. s.replace_from) search,
        same_to ∙ ap (λ s. s.replace_to) search,
        elim next_is [
          | inl z ↦ inl z
          | inr (pending, less) ↦ inr (pending, omega (arith, less, size, place, inside, some_from))
        ],
      )

  -- One replacement puts the new string in, and the place to replace next is nearer to the end.
  replace_once_lem :
      (e : Editor) (b : Buffer)
      → IsPending first e b
      → utf8_valid e.search.replace_from ≡ true
      → utf8_valid e.search.replace_to ≡ true
      → 0 < length e.search.replace_from
      → added_len b.text + length e.search.replace_to + 1 ≤ size_max
      → (out : Editor) × (c : Buffer) × (replace_once text_changed save e ≡ some (true, out))
        × (added_len c.text ≤ added_len b.text + length e.search.replace_to)
        × (out.search.replace_from ≡ e.search.replace_from)
        × (out.search.replace_to ≡ e.search.replace_to)
        × (IsClosed out ⊎ (IsPending first out c × (ahead out c < ahead e b)))
  replace_once_lem e b p valid_from valid_to some_from room =
      let from = e.search.replace_from in
      let at = e.search.replace_at in
      let e1 = record e { group = (e.group + 1) % 2 ^ 64 } in
      let v1 = editable_with first e b e.search e.minibuffer e1.group p.editable in
      let inside = Occurs-within (content b.text) from at some_from p.found in
      let (start, end) =
        Occurs-boundary (content b.text) from at p.editable.valid.text.utf8 valid_from some_from
          p.found in
      let ok : accepted b at (length from) e.search.replace_to ≡ true =
        rw (start, end, valid_to) refl in
      let more : nothing (length from) e.search.replace_to ≡ false = ground (arith, some_from) in
      let (b', d, q, v', ed, found, ring, search) =
        edit_again text_changed quiet first e1 b at (length from) e.search.replace_to v1 room ok
          more in
      let size =
        ap length ed.result
        ∙ length-splice (content b.text) at (length from) e.search.replace_to inside in
      let (out, c, ran, store, same_from, same_to, next_is) =
        once_edited e b d b' q v' search size inside some_from in
      (out, c, ran, omega (arith, store, ed.grows), same_from, same_to, next_is)

  -- Once a replacement is asked for, the loop that "!" runs ends, with the prompt closed. The fuel is
  -- above the number of bytes from the place to be replaced on, both strings are UTF-8 and the one
  -- that is replaced is not empty, the store has room for a new string in each round, and the hook on
  -- a change leaves the editor as it is.
  pub replace_while_ends :
      (fuel : ℕ) (e : Editor) (b : Buffer)
      → IsPending first e b
      → utf8_valid e.search.replace_from ≡ true
      → utf8_valid e.search.replace_to ≡ true
      → 0 < length e.search.replace_from
      → added_len b.text + fuel * length e.search.replace_to + 1 ≤ size_max
      → ahead e b < fuel
      → (out : Editor) × (replace_while text_changed save fuel true e ≡ some (true, out))
        × IsClosed out
  unfolding replace_while
  replace_while_ends zero e b p from_utf8 to_utf8 some_from room enough =
      absurd (omega (arith, enough))
  replace_while_ends (suc n) e b p from_utf8 to_utf8 some_from room enough =
      let size = length e.search.replace_to in
      let enough_room : added_len b.text + size + 1 ≤ size_max = omega (arith, room) in
      let (out, c, ran, store, same_from, same_to, next_is) =
        replace_once_lem e b p from_utf8 to_utf8 some_from enough_room in
      elim next_is [
        | inl z ↦ (out, rw ran (rw z refl), z)
        | inr (pending, less) ↦
            let (last, ends, closed) =
              replace_while_ends n out c pending (ap utf8_valid same_from ∙ from_utf8)
                (ap utf8_valid same_to ∙ to_utf8) (omega (arith, ap length same_from, some_from))
                (omega (arith, room, store, ap (λ s. n * length s) same_to))
                (omega (arith, less, enough)) in
            (last, rw ran (rw pending.asked (rw ends refl)), closed)
      ]
