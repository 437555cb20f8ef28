-- ===== src/Editing.antt =====
-- The commands of `dispatch` in src/commands.c that edit around the point: newlines and indentation,
-- transpose-chars, delete-horizontal-space and the words in upper and lower case.
use cpymacs.Base.{
  Bool, List, Option, [], drop, false, if◌then◌else◌, leb, length, ltb, none, not, some, suc, take,
  true, zero, ℕ, ◌&&◌, ◌*◌, ◌++◌, ◌+◌, ◌-◌, ◌==◌, ◌>>=◌, ◌||◌, ◌∷◌,
}
use cpymacs.Motion.{move_word}
use cpymacs.Buffer.{
  Buffer, Editor, editor_insert, editor_replace, invalid_count, no_transposition, put_buffer,
  with_message,
}
use cpymacs.Window.{editor_by_id, put_by_id}
use cpymacs.Utf8.{utf8_decode}
use cpymacs.Key.Press.{times}
use cpymacs.Text.Read.{text_next, text_prev, text_slice}
use cpymacs.Text.Edit.{text_byte, text_size}
use cpymacs.Text.Lines.{text_line_of, text_line_start}
use cpymacs.Text.Piece.Bytes.{bytes}
use cpymacs.Buffer.Undo.{Long, magnitude, negsuc, pos}

unfoldable pub spaces : ℕ → List ℕ
spaces zero = []
spaces (suc n) = 32 ∷ spaces n

-- spaces from `at` on, at most n
unfoldable pub spaces_at : Buffer → ℕ → ℕ → ℕ
spaces_at b at zero = 0
spaces_at b at (suc n) =
    let rest = spaces_at b (at + 1) n in if text_byte b.text at == 32 then suc rest else 0

abbrev pub is_blank_byte : ℕ → Bool
is_blank_byte c = c == 32 || c == 9

-- `while(p>start && …) p--` over spaces and tabs, with p - start rounds
unfoldable pub before_blanks : Buffer → ℕ → ℕ → ℕ
before_blanks b p zero = p
before_blanks b p (suc n) =
    let rest = before_blanks b (p - 1) n in
    if is_blank_byte (text_byte b.text (p - 1)) then rest else p

-- the same forward
unfoldable pub after_blanks : Buffer → ℕ → ℕ → ℕ
after_blanks b z zero = z
after_blanks b z (suc n) =
    let rest = after_blanks b (z + 1) n in if is_blank_byte (text_byte b.text z) then rest else z

-- the indentation of a new line: that of this one, and one step more behind a colon in Python
unfoldable pub indent_of : Buffer → ℕ
indent_of b =
    let start = text_line_start b.text (text_line_of b.text b.point) in
    let p = before_blanks b b.point (b.point - start) in
    let colon = b.syntax.kind == 1 && (ltb start p && text_byte b.text (p - 1) == 58) in
    spaces_at b start (b.point - start) + (if colon then b.indent_width else 0)

abbrev pub bad_count : Long → Bool
bad_count (pos n) = ltb 100000 n
bad_count (negsuc n) = true

-- the characters of a range in upper or lower case, or with a capital after each other one
pub data Case : Type 0 where
  upcase downcase capitalize : Case

abbrev pub raises : Case → Bool → Bool
raises upcase first = true
raises downcase first = false
raises capitalize first = first

-- The library's functions on wide characters; there is no encoding for (size_t)-1.
pub record Wide : Type 0 where
  pub iswalnum : ℕ → Bool
  pub towupper : ℕ → ℕ
  pub towlower : ℕ → ℕ
  pub wcrtomb : ℕ → Option (List ℕ)

module _ (W : Wide) where
  -- the loop over the word's bytes, on fuel: each character takes one or more
  unfoldable pub change_case : ℕ → Case → Bool → List ℕ → List ℕ
  change_case zero how first s = []
  change_case (suc fuel) how first [] = []
  change_case (suc fuel) how first (x ∷ s) =
      let (c, k) = utf8_decode (x ∷ s) in
      let inside = W.iswalnum c in
      let c' = if inside then (if raises how first then W.towupper c else W.towlower c) else c in
      let rest = change_case fuel how (not inside) (drop k (x ∷ s)) in
      elim (W.wcrtomb c') [ some bytes ↦ bytes ++ rest | none ↦ take k (x ∷ s) ++ rest ]

module _ (text_changed : Editor → Editor) where
  -- `count` newlines, each with its indentation
  unfoldable pub insert_lines : ℕ → ℕ → Editor → Option (Bool × Editor)
  insert_lines zero indent e = some (true, e)
  insert_lines (suc n) indent e = do
    out ← editor_insert text_changed e (10 ∷ [])
    then_indented ←
        (if out.0 && ltb 0 indent
          then editor_insert text_changed out.1 (spaces indent)
          else some out)
    if then_indented.0 then insert_lines n indent then_indented.1 else some then_indented

  -- newline, newline-and-indent for `indents`, open-line for `opens`
  unfoldable pub newline : Editor → Buffer → Bool → Bool → Long → Option (Bool × Editor)
  newline e b indents opens count =
      let indented = indents || (not opens && b.auto_indent) in
      let done_with = insert_lines (times count) (if indented then indent_of b else 0) e >>= (λ out.
        if opens && out.0
        then (editor_by_id out.1 b.id
            >>= (λ c. some (true, put_by_id out.1 (record c { point = b.point }))))
        else some out) in
      if bad_count count then some (false, with_message e invalid_count) else done_with

  unfoldable pub indent_for_tab : Editor → Buffer → Long → Option (Bool × Editor)
  indent_for_tab e b count =
      let put_in = editor_insert text_changed e (spaces (b.indent_width * times count)) in
      if bad_count count then some (false, with_message e invalid_count) else put_in

  -- `for(…;i<labs(count);…)`; the buffer is looked up in each round
  unfoldable pub transpose_times : ℕ → Bool → ℕ → Editor → Option (Bool × Editor)
  transpose_times zero forward id e = some (true, e)
  transpose_times (suc n) forward id e = do
    b ← editor_by_id e id
    let a = text_prev b.text b.point in
        let z = text_next b.text b.point in
        let swapped =
          text_slice b.text b.point (z - b.point) ++ text_slice b.text a (b.point - a) in
        let change = editor_replace text_changed e a (z - a) swapped >>= (λ out.
          if out.0
          then (editor_by_id out.1 id >>= (λ c.
              transpose_times n forward id
                (put_by_id out.1 (record c { point = if forward then z else a }))))
          else some out) in
        if b.point == 0 || leb (text_size b.text) b.point then some (false, e) else change

  unfoldable pub transpose_chars : Editor → Buffer → Long → Option (Bool × Editor)
  transpose_chars e b count =
      let size = text_size b.text in
      let at = if b.point == size && ltb 0 size then text_prev b.text size else b.point in
      let forward : Bool = elim count [ pos n ↦ true | negsuc n ↦ false ] in
      let change =
        transpose_times (magnitude count) forward b.id (put_buffer e (record b { point = at })) in
      if magnitude count == 0 then some (false, with_message e no_transposition) else change

  unfoldable pub delete_horizontal_space : Editor → Buffer → Option (Bool × Editor)
  delete_horizontal_space e b =
      let a = before_blanks b b.point b.point in
      let z = after_blanks b b.point (text_size b.text - b.point) in
      editor_replace text_changed e a (z - a) []

  -- The point moves to the end of the range as it would be, even where the edit is refused.
  unfoldable pub case_word : Wide → Case → Editor → Buffer → Long → Option (Bool × Editor)
  case_word W how e b count =
      let other = move_word W.iswalnum b b.point count in
      let a = if ltb other b.point then other else b.point in
      let z = if ltb other b.point then b.point else other in
      let out = change_case W (z - a) how true (text_slice b.text a (z - a)) in
      let back : Bool = elim count [ pos n ↦ false | negsuc n ↦ true ] in
      editor_replace text_changed e a (z - a) out >>= (λ r. editor_by_id r.1 b.id >>= (λ c.
        some (r.0, put_by_id r.1 (record c { point = if back then b.point else a + length out }))))
