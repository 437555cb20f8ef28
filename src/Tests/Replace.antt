-- ===== src/Tests/Replace.antt =====
-- The theorem on the replacements of query-replace at a concrete buffer.
use cpymacs.Base.{[], arith, codes, refl, some, true, ◌∷◌, ◌≡◌}
use cpymacs.Buffer.{Editor, editor_buffer}
use cpymacs.Buffer.History.{view}
use cpymacs.Minibuffer.Answer.{replace_while}
use cpymacs.Minibuffer.Replace.{IsClosed, IsPending, replace_while_ends}
use cpymacs.Tests.Buffers.{editor, no_hook, opened, opened-IsBuffer}
use cpymacs.Utf8.{utf8_decode, utf8_valid, valid_from}
use cpymacs.Text.Piece.{data_at}
use cpymacs.Tests.Windows.{session}

abbrev asking : Editor
asking = record editor {
  search = record editor.search { replace_from = 97 ∷ []; replace_to = 120 ∷ []; replace_at = 0 };
  minibuffer = record editor.minibuffer { prompt_command = codes "query-step" };
}

asking-IsPending : IsPending (view opened) asking opened
unfolding editor_buffer data_at
asking-IsPending = record {
  editable = record {
    session = record {
      parts = record {
        ids = session.parts.ids;
        few = session.parts.few;
        windows = session.parts.windows;
      };
      current = session.current;
    };
    here = refl;
    valid = opened-IsBuffer;
    writable = refl;
  };
  found = refl;
  asked = refl;
}

replace_while_ends_example :
    (out : Editor) × (replace_while no_hook (λ e p b. some (true, e)) 8 true asking
      ≡ some (true, out))
    × IsClosed out
unfolding utf8_valid valid_from utf8_decode data_at
replace_while_ends_example =
    replace_while_ends no_hook (λ d. refl) (λ e p b. some (true, e)) (view opened) 8 asking opened
      asking-IsPending refl refl (omega arith) (omega arith) (omega arith)
