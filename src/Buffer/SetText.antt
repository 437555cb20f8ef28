-- ===== src/Buffer/SetText.antt =====
-- `editor_set_text` of src/buffer.c, which replaces only what differs.
pub mod Whole
pub mod Sets
use cpymacs.Base.{
  Bool, List, Option, [], drop, false, get_or, if◌then◌else◌, length, ltb, min, not, some, suc,
  take, true, zero, ℕ, ◌&&◌, ◌+◌, ◌-◌, ◌==◌, ◌>>=◌, ◌∷◌,
}
use cpymacs.Buffer.{Editor, Buffer, editor_buffer, editor_replace, text_must_be_utf8, with_message}
use cpymacs.Utf8.{utf8_valid}
use cpymacs.Utf8.Bytes.{is_continuation}
use cpymacs.Text.Read.{text_slice}
use cpymacs.Text.Edit.{text_size}

-- `while(head<size && head<n && old[head]==s[head]) head++`
unfoldable pub common_head : List ℕ → List ℕ → ℕ
common_head [] s = 0
common_head (x ∷ old) [] = 0
common_head (x ∷ old) (y ∷ s) = let rest = common_head old s in if x == y then suc rest else 0

-- `while(head && head<n && …) head--`
unfoldable pub head_back : List ℕ → ℕ → ℕ
head_back s zero = 0
head_back s (suc k) =
    let rest = head_back s k in
    if ltb (suc k) (length s) && is_continuation (get_or s (suc k) 0) then rest else suc k

-- `while(tail<size-head && tail<n-head && …) tail++`, with the rounds that are left
unfoldable pub common_tail : ℕ → List ℕ → List ℕ → ℕ → ℕ
common_tail zero old s tail = tail
common_tail (suc k) old s tail =
    let rest = common_tail k old s (tail + 1) in
    if get_or old (length old - tail - 1) 0 == get_or s (length s - tail - 1) 0 then rest else tail

-- `while(tail && …) tail--`
unfoldable pub tail_back : List ℕ → ℕ → ℕ
tail_back s zero = 0
tail_back s (suc k) =
    let rest = tail_back s k in
    if is_continuation (get_or s (length s - suc k) 0) then rest else suc k

unfoldable pub kept_head : List ℕ → List ℕ → ℕ
kept_head old s = head_back s (common_head old s)

unfoldable pub kept_tail : List ℕ → List ℕ → ℕ
kept_tail old s =
    let head = kept_head old s in
    tail_back s (common_tail (min (length old - head) (length s - head)) old s 0)

module _ (text_changed : Editor → Editor) where
  unfoldable pub set_text_in : Editor → Buffer → List ℕ → Option (Bool × Editor)
  set_text_in e b s =
      let size = text_size b.text in
      let old = text_slice b.text 0 size in
      let head = kept_head old s in
      let tail = kept_tail old s in
      let n = length s in
      let change =
        editor_replace text_changed e head (size - head - tail)
          (take (n - head - tail) (drop head s)) in
      if not (utf8_valid s)
      then some (false, with_message e text_must_be_utf8)
      else if head == size && head == n
      then some (true, e)
      else change

  unfoldable pub editor_set_text : Editor → List ℕ → Option (Bool × Editor)
  editor_set_text e s = do b ← editor_buffer e; set_text_in e b s
