-- ===== src/TermStyle/Mode.antt =====
-- The choice of the colour mode (`term_colors_parse` and `term_colors_resolve` of src/term_style.c).
-- A string is the list of its bytes, a null pointer is `none`.
use cpymacs.Base.{
  Bool, Bool-cases, List, Name, Option, [], ap, arith, codes, contains, false, get_or,
  if◌then◌else◌, inl, inr, length, none, refl, same_name, same_name-eq, same_name_refl, some, suc,
  sym, true, zero, ℕ, ◌<◌, ◌||◌, ◌∙◌, ◌∷◌, ◌≡◌, ◌⊎◌,
}

-- `TermColors`
pub data TermColors : Type 0 where
  auto : TermColors
  rgb : TermColors
  indexed : TermColors
  mono : TermColors

abbrev pub auto_name : Name
auto_name = codes "auto"

abbrev pub truecolor_name : Name
truecolor_name = codes "truecolor"

abbrev pub indexed_name : Name
indexed_name = codes "256"

abbrev pub mono_name : Name
mono_name = codes "mono"

abbrev pub dumb_name : Name
dumb_name = codes "dumb"

abbrev pub linux_name : Name
linux_name = codes "linux"

abbrev pub known_names : List Name
known_names =
    codes "xterm"
    ∷ codes "putty"
    ∷ codes "screen"
    ∷ codes "tmux"
    ∷ codes "rxvt"
    ∷ codes "foot"
    ∷ codes "kitty"
    ∷ codes "wezterm"
    ∷ codes "alacritty"
    ∷ codes "st-"
    ∷ codes "konsole"
    ∷ codes "256color"
    ∷ codes "direct"
    ∷ []

unfoldable pub contains_any : List Name → Name → Bool
contains_any [] text = false
contains_any (n ∷ names) text = contains n text || contains_any names text

-- `none` is the return false, which leaves `*mode` as it is.
unfoldable pub term_colors_parse : Option Name → Option TermColors
term_colors_parse none = some auto
term_colors_parse (some name) =
    if same_name name auto_name
    then some auto
    else if same_name name truecolor_name
    then some rgb
    else if same_name name indexed_name
    then some indexed
    else if same_name name mono_name
    then some mono
    else none

-- what `TERM_COLORS_AUTO` is resolved to
unfoldable pub auto_mode : Name → TermColors
auto_mode term =
    if same_name term dumb_name || same_name term linux_name
    then mono
    else if contains_any known_names term
    then indexed
    else mono

unfoldable pub term_colors_resolve : TermColors → Option Name → Option Name → TermColors
term_colors_resolve auto none colorterm = auto_mode []
term_colors_resolve auto (some term) colorterm = auto_mode term
term_colors_resolve rgb term colorterm = rgb
term_colors_resolve indexed term colorterm = indexed
term_colors_resolve mono term colorterm = mono

-- the first of the names that stands in the text
contains_any-finds :
    (names : List Name) (text : Name)
    → contains_any names text ≡ true
    → (i : ℕ) × (i < length names) × (contains (get_or names i []) text ≡ true)
unfolding contains_any
contains_any-finds [] text h = cc
contains_any-finds (n ∷ names) text h = elim (Bool-cases (contains n text)) [
  | inl k ↦ (0, omega arith, k)
  | inr k ↦
      let (i, inside, q) = contains_any-finds names text (sym (rw k refl) ∙ h) in
      (suc i, omega (arith, inside), q)
]

contains_any-misses :
    (names : List Name) (text : Name)
    → contains_any names text ≡ false
    → (i : ℕ) → i < length names
    → contains (get_or names i []) text ≡ false
unfolding contains_any
contains_any-misses [] text h i inside = absurd (omega (arith, inside))
contains_any-misses (n ∷ names) text h zero inside = ground (arith, h)
contains_any-misses (n ∷ names) text h (suc i) inside =
    contains_any-misses names text (ground (arith, h)) i (omega (arith, inside))

-- one of the known names stands in the name of the terminal
abbrev pub IsKnown : Name → Type 0
IsKnown term = (i : ℕ) × (i < length known_names) × (contains (get_or known_names i []) term ≡ true)

-- none does
abbrev pub IsUnknown : Name → Type 0
IsUnknown term = (i : ℕ) → i < length known_names → contains (get_or known_names i []) term ≡ false

-- the two terminals without colour
abbrev pub IsPlain : Name → Type 0
IsPlain term = (term ≡ dumb_name) ⊎ (term ≡ linux_name)

auto_mode_lem :
    (term : Name)
    → ((auto_mode term ≡ indexed) × (¬ IsPlain term) × IsKnown term)
      ⊎ ((auto_mode term ≡ mono) × (IsPlain term ⊎ IsUnknown term))
unfolding auto_mode
auto_mode_lem term = elim (Bool-cases (same_name term dumb_name)) [
  | inl e ↦ inr (rw e refl, inl (inl (same_name-eq term dumb_name e)))
  | inr e ↦ elim (Bool-cases (same_name term linux_name)) [
    | inl k ↦ inr (rw (e, k) refl, inl (inr (same_name-eq term linux_name k)))
    | inr k ↦ elim (Bool-cases (contains_any known_names term)) [
      | inl c ↦ inl (rw (e, k, c) refl, plain e k, contains_any-finds known_names term c)
      | inr c ↦ inr (rw (e, k, c) refl, inr (contains_any-misses known_names term c))
    ]
  ]
]
  where
    apart : (name : Name) → same_name term name ≡ false → ¬ (term ≡ name)
    apart name e q = cc (e, ap (same_name term) (sym q) ∙ same_name_refl term)

    plain : same_name term dumb_name ≡ false → same_name term linux_name ≡ false → ¬ IsPlain term
    plain e k (inl q) = apart dumb_name e q
    plain e k (inr q) = apart linux_name k q

-- the name of the terminal, of which none is the empty one
abbrev pub given_name : Option Name → Name
given_name none = []
given_name (some term) = term

-- A mode other than `auto` is the one used. `auto` becomes indexed colour where the terminal is not
-- "dumb" nor "linux" and one of the known names stands in its name, and no colour where it is one of
-- the two or none of the names does; what COLORTERM says plays no part.
pub term_colors_resolve_lem :
    (requested : TermColors) (term colorterm : Option Name)
    → let m = term_colors_resolve requested term colorterm in
      let name = given_name term in
      ((¬ (requested ≡ auto)) × (m ≡ requested))
      ⊎ ((requested ≡ auto)
          × (((m ≡ indexed) × (¬ IsPlain name) × IsKnown name)
              ⊎ ((m ≡ mono) × (IsPlain name ⊎ IsUnknown name))))
unfolding term_colors_resolve
term_colors_resolve_lem auto none colorterm = inr (refl, auto_mode_lem [])
term_colors_resolve_lem auto (some term) colorterm = inr (refl, auto_mode_lem term)
term_colors_resolve_lem rgb term colorterm = inl ((λ q. cc), refl)
term_colors_resolve_lem indexed term colorterm = inl ((λ q. cc), refl)
term_colors_resolve_lem mono term colorterm = inl ((λ q. cc), refl)
