-- ===== src/Text/Read.antt =====
-- `text_copy`, `text_slice`, `text_next` and `text_prev` of src/text.c. What is written through
-- `out` is returned as a list.
pub mod Copy
pub mod Slice
pub mod Step
use cpymacs.Base.{List, [], if◌then◌else◌, leb, ltb, not, suc, zero, ℕ, ◌&&◌, ◌++◌, ◌+◌, ◌-◌, ◌==◌}
use cpymacs.Text.Piece.{piece, null, Piece, Stores, data_at, nb}
use cpymacs.Utf8.Bytes.{is_continuation}
use cpymacs.Text.Edit.{Text, text_byte, text_size}

-- How many of the n bytes from `at` on `copy_range` takes from the left child, and of those that
-- are left then from the piece itself.
abbrev pub from_left : ℕ → ℕ → ℕ → ℕ
from_left left at n = if ltb at left then (if ltb (left - at) n then left - at else n) else 0

abbrev pub own_start : ℕ → ℕ → ℕ
own_start left at = if ltb left at then at - left else 0

abbrev pub from_own : ℕ → ℕ → ℕ → ℕ → ℕ
from_own left len at n =
    let k = own_start left at in
    if not (n == 0) && ltb at (left + len) then (if ltb (len - k) n then len - k else n) else 0

-- A call with n = 0 returns at once, so it copies nothing.
unfoldable pub copy_range : Stores → Piece → ℕ → ℕ → List ℕ
copy_range m null at n = []
copy_range m (piece l f r) at n =
    let n1 = n - from_left (nb l) at n in
    let at1 = at + from_left (nb l) at n in
    let own = from_own (nb l) f.length at1 n1 in
    let first = copy_range m l at (from_left (nb l) at n) in
    let second = data_at m f.source (f.offset + own_start (nb l) at1) own in
    let third = copy_range m r (at1 + own - nb l - f.length) (n1 - own) in
    if n == 0
    then []
    else (if ltb at (nb l) then first else [])
      ++ ((if not (n1 == 0) && ltb at1 (nb l + f.length) then second else [])
          ++ (if n1 - own == 0 then [] else third))

unfoldable pub text_copy : Text → ℕ → ℕ → List ℕ
text_copy t at n =
    if leb at (text_size t)
    then copy_range t.stores t.root at (if ltb (text_size t - at) n then text_size t - at else n)
    else []

unfoldable pub text_slice : Text → ℕ → ℕ → List ℕ
text_slice t at n =
    let at' = if ltb (text_size t) at then text_size t else at in
    let n' = if ltb (text_size t - at') n then text_size t - at' else n in text_copy t at' n'

-- `while(at<n && …)` from `at` on, with n - at rounds left
unfoldable pub skip_next : ℕ → Text → ℕ → ℕ
skip_next zero t at = at
skip_next (suc k) t at = if is_continuation (text_byte t at) then skip_next k t (at + 1) else at

unfoldable pub text_next : Text → ℕ → ℕ
text_next t at =
    if leb (text_size t) at then text_size t else skip_next (text_size t - (at + 1)) t (at + 1)

-- `while(at && …)` from `at` down
unfoldable pub skip_prev : Text → ℕ → ℕ
skip_prev t zero = 0
skip_prev t (suc k) = if is_continuation (text_byte t (suc k)) then skip_prev t k else suc k

unfoldable pub text_prev : Text → ℕ → ℕ
text_prev t at =
    let at' = if ltb (text_size t) at then text_size t else at in
    if at' == 0 then 0 else skip_prev t (at' - 1)
