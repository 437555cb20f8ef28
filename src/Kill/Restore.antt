-- ===== src/Kill/Restore.antt =====
-- `kill_range` and yank of src/commands.c: what is killed comes back.
use cpymacs.Base.{
  Bool, List, [], ap, ap₂, arith, drop, false, get_elem?, length, length-drop, length-take, ltb,
  none≢some, not, refl, some, sym, take, true, ℕ, ◌%◌, ◌&&◌, ◌+◌, ◌-◌, ◌<◌, ◌==◌, ◌^◌, ◌∙◌, ◌∷◌,
  ◌≡◌, ◌≤◌,
}
use cpymacs.Buffer.{Buffer, Editor, editor_buffer, put_buffer, editor_replace, editor_insert}
use cpymacs.Window.{put_by_id, active, editor_by_id, index_of, find_id}
use cpymacs.Window.Lookup.{IsAscending, index_of-get_elem?, find_id-get_elem?}
use cpymacs.Window.Session.{IsSession, get_elem?-set, put_buffer-IsSession}
use cpymacs.Text.Edit.{size_max}
use cpymacs.Text.Replace.{added_len}
use cpymacs.Buffer.History.{IsBuffer, View}
use cpymacs.Buffer.Replace.{IsEdited, accepted, nothing, editable, editor_replace-edits}
use cpymacs.Kill.{pushed, push_kill}
use cpymacs.Window.Switching.{put_id-index_of}
use cpymacs.Utf8.Boundary.{boundary, boundary-le}
use cpymacs.Utf8.Valid.{utf8_valid-nil}
use cpymacs.Kill.Range.{kill_between, kill_range, yank, yank_entry}
use cpymacs.Text.Read.{text_slice}
use cpymacs.Text.Edit.Byte.{content}
use cpymacs.Text.Edit.Insert.{splice}
use cpymacs.Buffer.Undo.{pos}
use cpymacs.Text.Edit.Splice.{boundary-splice_start, removed-utf8_valid, splice-splice}
use cpymacs.Text.Read.Slice.{text_slice_lem}

-- Changing the current buffer through its pointer.
put_by_id-current :
    (e : Editor) (b c : Buffer)
    → IsAscending 0 e.buffers e.next_id
    → editor_buffer e ≡ some b
    → c.id ≡ b.id
    → put_by_id e c ≡ put_buffer e c
unfolding editor_buffer put_by_id put_buffer
put_by_id-current e b c v here s =
    ap (λ x. record e { buffers = x })
      (put_id-index_of e.buffers c e.current
        (ap (index_of e.buffers) s ∙ index_of-get_elem? 0 e.next_id e.current e.buffers b v here))

pub put_buffer-current :
    (e : Editor) (b c : Buffer) → editor_buffer e ≡ some b → editor_buffer (put_buffer e c) ≡ some c
unfolding editor_buffer put_buffer
put_buffer-current e b c here = get_elem?-set e.buffers e.current b c here

-- The history does not look at the point and the mark.
pub IsBuffer-moved :
    (first : View) (b : Buffer) (point mark : ℕ) (has active : Bool)
    → IsBuffer first b
    → IsBuffer first (record b { point = point; mark = mark; has_mark = has; mark_active = active })
IsBuffer-moved first b point mark has active v = record {
  text = v.text;
  within = v.within;
  past = v.past;
  future = v.future;
}

newest : (ring : List (List ℕ)) (s : List ℕ) → get_elem? (pushed ring s false false) 0 ≡ some s
unfolding pushed
newest [] s = refl
newest (x ∷ ring) s = refl

-- A session whose current buffer can be edited.
pub record IsEditable (first : View) (e : Editor) (b : Buffer) : Type 0 where
  pub session : IsSession e
  pub here : editor_buffer e ≡ some b
  pub valid : IsBuffer first b
  pub writable : b.readonly ≡ false

module _ (text_changed : Editor → Editor) (quiet : (d : Editor) → text_changed d ≡ d) where
  -- an edit that leaves a session whose current buffer can be edited again
  pub edit_again :
      (first : View) (e : Editor) (b : Buffer) (at count : ℕ) (s : List ℕ)
      → IsEditable first e b
      → added_len b.text + length s + 1 ≤ size_max
      → accepted b at count s ≡ true
      → nothing count s ≡ false
      → (b' : Buffer) × (out : Editor) × (editor_replace text_changed e at count s
          ≡ some (true, out))
        × IsEditable first out b'
        × IsEdited first e b at count s b'
        × (editor_by_id out b.id ≡ some b')
        × (out.kill_ring ≡ e.kill_ring)
        × (out.search ≡ e.search)
  unfolding editor_buffer put_buffer editor_by_id
  edit_again first e b at count s v room ok more =
      let can : (editable b at count s && not (nothing count s)) ≡ true =
        rw (v.writable, ok, more) refl in
      let (b', q, ed) =
        editor_replace-edits text_changed first e b at count s v.here v.valid room can in
      let e1 = record e { next_state = (e.next_state + 1) % 2 ^ 64 } in
      let session1 : IsSession e1 = record {
        parts = record {
          ids = v.session.parts.ids;
          few = v.session.parts.few;
          windows = v.session.parts.windows;
        };
        current = v.session.current;
      } in
      let out = put_buffer e1 b' in
      let session = put_buffer-IsSession e1 b b' v.here ed.same.0 session1 in
      let here = put_buffer-current e1 b b' v.here in
      let (found, l) =
        find_id-get_elem? 0 out.next_id out.current out.buffers b' session.parts.ids here in
      (
        b',
        out,
        q ∙ ap (λ d. some (true, d)) (quiet out),
        record {
          session = session;
          here = here;
          valid = ed.valid;
          writable = ed.same.1 ∙ v.writable;
        },
        ed,
        ap (find_id out.buffers) (sym ed.same.0) ∙ found,
        refl,
        refl,
      )

  -- A kill of a range with new text under no append: the editor, and the buffer in it.
  kill_lem :
      (first : View) (e : Editor) (b : Buffer) (low high : ℕ) (s : List ℕ)
      → IsEditable first e b
      → added_len b.text + 1 ≤ size_max
      → boundary (content b.text) low ≡ true
      → boundary (content b.text) high ≡ true
      → low < high
      → text_slice b.text low (high - low) ≡ s
      → (c : Buffer) × (killed : Editor) × (kill_range text_changed e low high false false false
          ≡ some (true, killed))
        × IsEditable first killed c
        × (content c.text ≡ splice (content b.text) low (high - low) [])
        × (c.point ≡ low)
        × (added_len c.text ≤ added_len b.text)
        × (killed.kill_ring ≡ pushed e.kill_ring s false false)
  unfolding kill_range kill_between editor_buffer put_buffer push_kill
  kill_lem first e b low high s v room start end less slice =
      let n = high - low in
      let there : low + n ≡ high = omega (arith, less) in
      let ok : accepted b low n [] ≡ true = rw (there, start, end, utf8_valid-nil) refl in
      let more : nothing n [] ≡ false = ground (arith, less) in
      let (b', out, q, v', ed, found, ring, search) =
        edit_again first e b low n [] v (omega (arith, room)) ok more in
      let c = record b' { mark_active = false; point = low } in
      let pushed_on = push_kill out s false false in
      let session : IsSession pushed_on = record {
        parts = record {
          ids = v'.session.parts.ids;
          few = v'.session.parts.few;
          windows = v'.session.parts.windows;
        };
        current = v'.session.current;
      } in
      let killed = put_buffer pushed_on c in
      let put = put_by_id-current pushed_on b' c v'.session.parts.ids v'.here refl in
      let order : ltb high low ≡ false = ground (arith, less) in
      let apart : (low == high) ≡ false = ground (arith, less) in
      (
        c,
        killed,
        rw (v.here, order, apart, slice, q, found, put) refl,
        record {
          session = put_buffer-IsSession pushed_on b' c v'.here refl session;
          here = put_buffer-current pushed_on b' c v'.here;
          valid = IsBuffer-moved first b' low b'.mark b'.has_mark false v'.valid;
          writable = v'.writable;
        },
        ed.result,
        refl,
        omega (arith, ed.grows),
        ap (λ x. pushed x s false false) ring,
      )

  editor_insert-current :
      (e : Editor) (b : Buffer) (s : List ℕ)
      → editor_buffer e ≡ some b
      → editor_insert text_changed e s ≡ editor_replace text_changed e b.point 0 s
  unfolding editor_insert
  editor_insert-current e b s h = rw (h, editor_insert) refl

  yank_lem :
      (first : View) (e : Editor) (b : Buffer) (s : List ℕ)
      → IsEditable first e b
      → get_elem? e.kill_ring 0 ≡ some s
      → added_len b.text + length s + 1 ≤ size_max
      → accepted b b.point 0 s ≡ true
      → 0 < length s
      → (out : Editor) × (c : Buffer) × (yank text_changed e b (pos 1) false ≡ some (true, out))
        × (editor_buffer out ≡ some c)
        × (content c.text ≡ splice (content b.text) b.point 0 s)
  unfolding yank yank_entry editor_buffer put_buffer
  yank_lem first e b s v newest_is room ok more =
      let e' = record e { yank_index = 0; yank_start = b.point } in
      let marked = record b { mark = b.point; has_mark = true } in
      let session : IsSession e' = record {
        parts = record {
          ids = v.session.parts.ids;
          few = v.session.parts.few;
          windows = v.session.parts.windows;
        };
        current = v.session.current;
      } in
      let put = put_by_id-current e' b marked v.session.parts.ids v.here refl in
      let e4 = put_buffer e' marked in
      let v4 : IsEditable first e4 marked = record {
        session = put_buffer-IsSession e' b marked v.here refl session;
        here = put_buffer-current e' b marked v.here;
        valid = IsBuffer-moved first b b.point b.point true b.mark_active v.valid;
        writable = v.writable;
      } in
      let none_empty : nothing 0 s ≡ false = ground (arith, more) in
      let (c, out, q, v', ed, found, ring, search) =
        edit_again first e4 marked b.point 0 s v4 room ok none_empty in
      let put_in = editor_insert-current e4 marked s v4.here ∙ q in
      let filled : (length e.kill_ring == 0) ≡ false = nonempty e.kill_ring newest_is in
      (
        record out { yank_end = c.point; last_kind = 2 },
        c,
        rw (filled, newest_is, put, put_in, found) refl,
        v'.here,
        ed.result,
      )
    where
      nonempty : (ring : List (List ℕ)) → get_elem? ring 0 ≡ some s → (length ring == 0) ≡ false
      nonempty [] h = absurd (none≢some h)
      nonempty (x ∷ ring) h = ground arith

  -- What is killed on its own comes back: in a session whose current buffer is not read-only, with room
  -- in the store and a hook on changes that leaves the editor as it is, killing the range from one
  -- boundary to a higher one, neither appended to the kill before nor put in front of it, and then
  -- yanking once with no argument leaves the text that there was. The kill returns true with a current
  -- buffer that lacks the range.
  pub kill_range-yank :
      (first : View) (e : Editor) (b : Buffer) (low high : ℕ)
      → IsSession e
      → editor_buffer e ≡ some b
      → IsBuffer first b
      → b.readonly ≡ false
      → added_len b.text + length (content b.text) + 1 ≤ size_max
      → boundary (content b.text) low ≡ true
      → boundary (content b.text) high ≡ true
      → low < high
      → (killed : Editor) × (c : Buffer) × (out : Editor) × (d : Buffer) × (kill_range text_changed
            e low high false false false
          ≡ some (true, killed))
        × (editor_buffer killed ≡ some c)
        × (content c.text ≡ splice (content b.text) low (high - low) [])
        × (yank text_changed killed c (pos 1) false ≡ some (true, out))
        × (editor_buffer out ≡ some d)
        × (content d.text ≡ content b.text)
  kill_range-yank first e b low high session here valid writable room start end less =
      let whole = content b.text in
      let n = high - low in
      let s = take n (drop low whole) in
      let u = valid.text.utf8 in
      let inside = boundary-le whole high end in
      let size : length s ≡ n =
        omega (arith, length-take n (drop low whole), length-drop low whole, inside, less) in
      let end' : boundary whole (low + n) ≡ true =
        ap (boundary whole) (omega (arith, less)) ∙ end in
      let v : IsEditable first e b = record {
        session = session;
        here = here;
        valid = valid;
        writable = writable;
      } in
      let (c, killed, q, v', result, point, grows, ring) =
        kill_lem first e b low high s v (omega (arith, room)) start end less
          (text_slice_lem b.text low n valid.text) in
      let valid_s = removed-utf8_valid whole low n [] u utf8_valid-nil start end' in
      let place : boundary (content c.text) low ≡ true =
        ap (λ x. boundary x low) result
        ∙ boundary-splice_start whole low n [] u utf8_valid-nil start end' in
      let ok : accepted c c.point 0 s ≡ true =
        rw
          (
            point,
            place,
            ap (boundary (content c.text)) {x = low + 0} {y = low} (omega arith) ∙ place,
            valid_s,
          )
          refl in
      let (out, d, q', here', result') =
        yank_lem first killed c s v' (ap (λ x. get_elem? x 0) ring ∙ newest e.kill_ring s)
          (omega (arith, grows, size, room, inside)) ok (omega (arith, size, less)) in
      (
        killed,
        c,
        out,
        d,
        q,
        v'.here,
        result,
        q',
        here',
        result'
            ∙ ap₂ (λ x k. splice x k 0 s) result point
            ∙ splice-splice whole low n [] (omega (arith, inside, less)),
      )
