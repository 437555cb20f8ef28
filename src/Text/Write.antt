-- ===== src/Text/Write.antt =====
-- `text_write` of src/text.c on an output stream of the C library.
use cpymacs.Base.{
  Bool, Bool-cases, List, Option, [], ap, append-nil, append_assoc, false, if◌then◌else◌, inl, inr,
  none, refl, some, subst, sym, true, ℕ, ◌++◌, ◌>>=◌, ◌∙◌, ◌∷◌, ◌≡◌, ◌⊎◌,
}
use cpymacs.Text.Piece.{piece, null, Piece, Stores, data_of, is_newline}
use cpymacs.Text.Edit.{Text}
use cpymacs.Text.Piece.Bytes.{bytes}
use cpymacs.Text.Edit.Byte.{content}

-- A `FILE` and what writes to it; `none` is an error of the stream.
pub record Stream : Type 1 where
  pub File : Type 0
  pub fwrite : File → List ℕ → Option File
  pub fputc : File → ℕ → Option File

-- the bytes written for a text, with a CR in front of every newline if `crlf`
unfoldable pub with_cr : List ℕ → List ℕ
with_cr [] = []
with_cr (c ∷ s) = if is_newline c then b'\r' ∷ c ∷ with_cr s else c ∷ with_cr s

abbrev pub encoded : Bool → List ℕ → List ℕ
encoded crlf s = if crlf then with_cr s else s

module _ (K : Stream) where
  -- the loop over the bytes of a piece
  unfoldable pub put_bytes : List ℕ → K.File → Option K.File
  put_bytes [] f = some f
  put_bytes (c ∷ s) f = do
    g ← (if is_newline c then K.fputc f b'\r' else some f)
    h ← K.fputc g c
    put_bytes s h

  unfoldable pub write_piece : Stores → Bool → Piece → K.File → Option K.File
  write_piece m crlf null f = some f
  write_piece m crlf (piece l d r) f = do
    g ← write_piece m crlf l f
    h ← (if crlf then put_bytes (data_of m d) g else K.fwrite g (data_of m d))
    write_piece m crlf r h

  unfoldable pub text_write : Text → K.File → Bool → Option K.File
  text_write t f crlf = write_piece t.stores crlf t.root f

-- A stream whose calls fail or append.
pub record IsAppending (K : Stream) : Type 0 where
  pub written : K.File → List ℕ
  pub fwrite_lem :
      (f : K.File) (s : List ℕ)
      → (K.fwrite f s ≡ none)
        ⊎ ((g : K.File) × (K.fwrite f s ≡ some g) × (written g ≡ written f ++ s))
  pub fputc_lem :
      (f : K.File) (c : ℕ)
      → (K.fputc f c ≡ none)
        ⊎ ((g : K.File) × (K.fputc f c ≡ some g) × (written g ≡ written f ++ (c ∷ [])))

with_cr-append : (s t : List ℕ) → with_cr (s ++ t) ≡ with_cr s ++ with_cr t
unfolding with_cr
with_cr-append [] t = refl
with_cr-append (c ∷ s) t = elim (Bool-cases (is_newline c)) [
  | inl e ↦ rw e (ap (λ x. b'\r' ∷ c ∷ x) (with_cr-append s t))
  | inr e ↦ rw e (ap (c ∷◌) (with_cr-append s t))
]

pub encoded-append :
    (crlf : Bool) (s t : List ℕ) → encoded crlf (s ++ t) ≡ encoded crlf s ++ encoded crlf t
encoded-append true s t = with_cr-append s t
encoded-append false s t = refl

module _ (K : Stream) (A : IsAppending K) where
  -- An operation fails, or appends these bytes.
  abbrev pub Writes : Option K.File → K.File → List ℕ → Type 0
  Writes o f s = (o ≡ none) ⊎ ((g : K.File) × (o ≡ some g) × (A.written g ≡ A.written f ++ s))

  pub Writes-then :
      (o : Option K.File) (f : K.File) (s t : List ℕ) (k : K.File → Option K.File)
      → Writes o f s
      → ((g : K.File) → Writes (k g) g t)
      → Writes (o >>= k) f (s ++ t)
  Writes-then o f s t k (inl e) h = inl (rw e refl)
  Writes-then o f s t k (inr (g, e, w)) h = elim (h g) [
    | inl n ↦ inl (rw e n)
    | inr (g', e', w') ↦ inr (g', rw e e', w' ∙ ap (λ x. x ++ t) w ∙ append_assoc (A.written f) s t)
  ]

  put_bytes-Writes : (s : List ℕ) (f : K.File) → Writes (put_bytes K s f) f (with_cr s)
  unfolding put_bytes with_cr
  put_bytes-Writes [] f = inr (f, refl, sym (append-nil _))
  put_bytes-Writes (c ∷ s) f = subst (Writes (put_bytes K (c ∷ s) f) f) (front (is_newline c)) (
      Writes-then (if is_newline c then K.fputc f b'\r' else some f) f (cr (is_newline c))
        (c ∷ with_cr s) _ (first (is_newline c))
        λ g.
          Writes-then (K.fputc g c) g (c ∷ []) (with_cr s) (put_bytes K s) (A.fputc_lem g c)
            (put_bytes-Writes s))
    where
      cr : Bool → List ℕ
      cr b = if b then b'\r' ∷ [] else []

      first : (b : Bool) → Writes (if b then K.fputc f b'\r' else some f) f (cr b)
      first true = A.fputc_lem f b'\r'
      first false = inr (f, refl, sym (append-nil _))

      front :
          (b : Bool)
          → cr b ++ (c ∷ with_cr s) ≡ (if b then b'\r' ∷ c ∷ with_cr s else c ∷ with_cr s)
      front true = refl
      front false = refl

  own-Writes :
      (crlf : Bool) (s : List ℕ) (f : K.File)
      → Writes (if crlf then put_bytes K s f else K.fwrite f s) f (encoded crlf s)
  own-Writes true s f = put_bytes-Writes s f
  own-Writes false s f = A.fwrite_lem f s

  write_piece-Writes :
      (m : Stores) (crlf : Bool) (p : Piece) (f : K.File)
      → Writes (write_piece K m crlf p f) f (encoded crlf (bytes m p))
  unfolding write_piece with_cr
  write_piece-Writes m true null f = inr (f, refl, sym (append-nil _))
  write_piece-Writes m false null f = inr (f, refl, sym (append-nil _))
  write_piece-Writes m crlf (piece l d r) f =
      let own = data_of m d in
      subst (Writes (write_piece K m crlf (piece l d r) f) f)
        (sym (
          encoded-append crlf (bytes m l) (own ++ bytes m r)
          ∙ ap (encoded crlf (bytes m l) ++◌) (encoded-append crlf own (bytes m r))))
        (Writes-then (write_piece K m crlf l f) f (encoded crlf (bytes m l))
          (encoded crlf own ++ encoded crlf (bytes m r)) _ (write_piece-Writes m crlf l f)
          λ g.
            Writes-then (if crlf then put_bytes K own g else K.fwrite g own) g (encoded crlf own)
              (encoded crlf (bytes m r)) (write_piece K m crlf r) (own-Writes crlf own g)
              (write_piece-Writes m crlf r))

  -- `text_write` fails with its stream, or appends the text to it.
  pub text_write-Writes :
      (t : Text) (f : K.File) (crlf : Bool)
      → Writes (text_write K t f crlf) f (encoded crlf (content t))
  unfolding text_write
  text_write-Writes t f crlf = write_piece-Writes t.stores crlf t.root f
