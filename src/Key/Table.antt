-- ===== src/Key/Table.antt =====
-- The bindings of src/commands.c as a table: what `editor_bind` puts in is what `editor_key` finds.
use cpymacs.Base.{
  Bool-cases, List, Name, Option, [], and_true, ap, ap₂, arith, codes, false, if◌then◌else◌, inl,
  inr, leb, length, none, refl, same_name, same_name-eq, same_name_refl, some, starts_with, sym,
  true, ◌&&◌, ◌++◌, ◌<◌, ◌||◌, ◌∙◌, ◌∷◌, ◌≡◌,
}
use cpymacs.Key.{Hit, bind_in, scan_bindings, editor_bind, find_binding}
use cpymacs.Buffer.{Binding, Editor}

-- the command of the first binding with this mode and key
unfoldable pub command_at : List Binding → Name → Name → Option Name
command_at [] mode key = none
command_at (k ∷ bindings) mode key =
    let rest = command_at bindings mode key in
    if same_name k.mode mode && same_name k.key key then some k.command else rest

-- No two bindings have the same mode and key.
unfoldable pub IsTable : List Binding → Type 0
IsTable [] = Unit
IsTable (k ∷ bindings) = (command_at bindings k.mode k.key ≡ none) × IsTable bindings

-- the command of the buffer's mode, or else the one for all
abbrev pub command_for : List Binding → Name → Name → Option Name
command_for bindings mode key = elim (command_at bindings mode key) [
  | none ↦ command_at bindings [] key
  | some c ↦ some c
]

-- Bindings are compared with names that are the same.
alike : (a b c d : Name) → (same_name a b && same_name c d) ≡ true → (a ≡ b) × (c ≡ d)
alike a b c d h =
    let both = and_true (same_name a b) (same_name c d) h in
    (same_name-eq a b both.0, same_name-eq c d both.1)

alike_true : (a b c d : Name) → a ≡ b → c ≡ d → (same_name a b && same_name c d) ≡ true
alike_true a b c d h g = rw (h, g, same_name_refl b, same_name_refl d) refl

true≢false : true ≡ false → ⊥
true≢false h = cc

elsewhere :
    (k : Binding) (bindings : List Binding) (key command mode : Name)
    → command_at bindings k.mode k.key ≡ none
    → (same_name k.key key && same_name k.mode mode) ≡ false
    → (if same_name mode k.mode && same_name key k.key
        then some command
        else command_at bindings k.mode k.key)
      ≡ none
elsewhere k bindings key command mode h e =
    elim (Bool-cases (same_name mode k.mode && same_name key k.key)) [
      | inl y ↦
          let (m, n) = alike mode k.mode key k.key y in
          absurd (true≢false (sym (alike_true k.key key k.mode mode (sym n) (sym m)) ∙ e))
      | inr y ↦ rw y h
    ]

command_at-bind_in :
    (bindings : List Binding) (key command mode mode' key' : Name)
    → command_at (bind_in bindings key command mode) mode' key' ≡ (
        if same_name mode mode' && same_name key key'
        then some command
        else command_at bindings mode' key')
unfolding bind_in command_at
command_at-bind_in [] key command mode mode' key' = refl
command_at-bind_in (k ∷ bindings) key command mode mode' key' =
    elim (Bool-cases (same_name k.key key && same_name k.mode mode)) [
      | inl e ↦
          let both = and_true (same_name k.key key) (same_name k.mode mode) e in
          let mode_same = same_name-eq k.mode mode both.1 in
          let key_same = same_name-eq k.key key both.0 in
          rw (e, sym mode_same, sym key_same)
            (elim (Bool-cases (same_name k.mode mode' && same_name k.key key')) [
              | inl z ↦ rw z refl
              | inr z ↦ rw z refl
            ])
      | inr e ↦
          let later = command_at-bind_in bindings key command mode mode' key' in
          elim (Bool-cases (same_name k.mode mode' && same_name k.key key')) [
            | inl z ↦ elim (Bool-cases (same_name mode mode' && same_name key key')) [
              | inl y ↦
                  let (m, n) = alike k.mode mode' k.key key' z in
                  let (m', n') = alike mode mode' key key' y in
                  let clash = alike_true k.key key k.mode mode (n ∙ sym n') (m ∙ sym m') in
                  absurd (true≢false (sym clash ∙ e))
              | inr y ↦ rw (e, z, y) refl
            ]
            | inr z ↦ rw (e, z) later
          ]
    ]

bind_in-IsTable :
    (bindings : List Binding) (key command mode : Name)
    → IsTable bindings
    → IsTable (bind_in bindings key command mode)
unfolding bind_in IsTable
bind_in-IsTable [] key command mode v = (unfold command_at in refl, v)
bind_in-IsTable (k ∷ bindings) key command mode (h, v) =
    elim (Bool-cases (same_name k.key key && same_name k.mode mode)) [
      | inl e ↦ rw e (h, v)
      | inr e ↦ rw e (
        command_at-bind_in bindings key command mode k.mode k.key
            ∙ elsewhere k bindings key command mode h e,
        bind_in-IsTable bindings key command mode v,
      )
    ]

scan_bindings_lem :
    (bindings : List Binding) (mode key : Name) (hit : Hit)
    → IsTable bindings
    → (scan_bindings bindings mode key hit).0
      ≡ elim (command_at bindings mode key) [ none ↦ hit.0 | some c ↦ some c ]
unfolding scan_bindings command_at IsTable
scan_bindings_lem [] mode key hit v = refl
scan_bindings_lem (k ∷ bindings) mode key hit (h, v) = elim (Bool-cases (same_name k.mode mode)) [
  | inr m ↦
      let on : scan_bindings (k ∷ bindings) mode key hit ≡ scan_bindings bindings mode key hit =
        rw (m, scan_bindings) refl in
      ap (λ t. t.0) on ∙ (scan_bindings_lem bindings mode key hit v ∙ rw m refl)
  | inl m ↦
      let longer = hit.1 || starts_with (key ++ codes " ") k.key in
      elim (Bool-cases (same_name k.key key)) [
        | inr n ↦
            let on : scan_bindings (k ∷ bindings) mode key hit
                ≡ scan_bindings bindings mode key (hit.0, longer) =
              rw (m, n, scan_bindings) refl in
            ap (λ t. t.0) on
            ∙ (scan_bindings_lem bindings mode key (hit.0, longer) v ∙ rw (m, n) refl)
        | inl n ↦
            let none_later : command_at bindings mode key ≡ none =
              ap₂ (command_at bindings) (sym (same_name-eq k.mode mode m))
                (sym (same_name-eq k.key key n))
              ∙ h in
            let on : scan_bindings (k ∷ bindings) mode key hit
                ≡ scan_bindings bindings mode key (some k.command, longer) =
              rw (m, n, scan_bindings) refl in
            let later : (scan_bindings bindings mode key (some k.command, longer)).0
                ≡ some k.command =
              scan_bindings_lem bindings mode key (some k.command, longer) v ∙ rw none_later refl in
            ap (λ t. t.0) on ∙ (later ∙ rw (m, n) refl)
      ]
]

find_binding_lem :
    (bindings : List Binding) (mode key : Name)
    → IsTable bindings
    → (find_binding bindings mode key).0 ≡ command_for bindings mode key
unfolding find_binding
find_binding_lem bindings mode key v =
    let first = scan_bindings_lem bindings [] key (none, false) v in
    scan_bindings_lem bindings mode key (scan_bindings bindings [] key (none, false)) v
    ∙ ap (λ x. elim (command_at bindings mode key) [ none ↦ x | some c ↦ some c ])
        (first ∙ same_option (command_at bindings [] key))
  where
    same_option : (o : Option Name) → elim o [ none ↦ none | some c ↦ some c ] ≡ o
    same_option none = refl
    same_option (some c) = refl

-- A binding whose names fit is entered, and nothing else changes: it is found under its mode and key,
-- every other mode and key have the command that they had, and no mode and key get two bindings. What
-- `editor_key` finds for a mode and a key is then the command of that mode, or else the one for all.
pub editor_bind_lem :
    (e : Editor) (key command mode : Name)
    → IsTable e.bindings
    → length key < 100
    → length command < 100
    → length mode < 80
    → IsTable (editor_bind e key command mode).bindings
      × ((mode' key' : Name)
          → command_at (editor_bind e key command mode).bindings mode' key' ≡ (
              if same_name mode mode' && same_name key key'
              then some command
              else command_at e.bindings mode' key'))
      × ((mode' key' : Name)
          → (find_binding (editor_bind e key command mode).bindings mode' key').0
            ≡ command_for (editor_bind e key command mode).bindings mode' key')
unfolding editor_bind
editor_bind_lem e key command mode v a b c =
    let ok : (leb 100 (length key) || (leb 100 (length command) || leb 80 (length mode))) ≡ false =
      ground arith in
    let next_table = bind_in-IsTable e.bindings key command mode v in
    rw ok (
      next_table,
      command_at-bind_in e.bindings key command mode,
      λ mode' key'. find_binding_lem (bind_in e.bindings key command mode) mode' key' next_table,
    )
