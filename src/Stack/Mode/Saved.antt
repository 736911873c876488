-- ===== src/Stack/Mode/Saved.antt =====
-- service/mode-config.go: the modes as they are saved and loaded, and those that are configured.
use gdev.Base.{
  String, ◌≡◌, refl, sym, ap, ◌∙◌, false, Option, none, some, [], ◌∷◌, map, if◌then◌else◌, arith,
  ◌⊎◌, inl, inr, ◌↔◌, Option-cases, Sum-cases,
}
use gdev.Base.Dict.{Dict, lookup}
use gdev.Stack.Mode.{Mode, Config, is_default, parse_mode, mode_string, parse-mode_string}

-- What a loaded file may hold under a name.
pub data Value : Type 0 where
  text : String → Value
  other : Value

pub data LoadError : Type 0 where
  no_map : LoadError
  no_string : String → LoadError
  invalid_mode : String → String → LoadError

-- The loop of `serviceModesKey.NewFrom`.
unfoldable pub read_modes : Dict Value → LoadError ⊎ Dict Mode
unfolding parse_mode
read_modes [] = inr []
read_modes ((name, other) ∷ values) = inl (no_string name)
read_modes ((name, text v) ∷ values) =
    let rest = read_modes values in
    elim (parse_mode v) [
      | none ↦ inl (invalid_mode v name)
      | some m ↦ elim rest [ inl e ↦ inl e | inr modes ↦ inr ((name, m) ∷ modes) ]
    ]

-- `none` is what is not a map of strings.
unfoldable pub new_from : Option (Dict Value) → LoadError ⊎ Dict Mode
unfolding read_modes
new_from none = inl no_map
new_from (some values) = read_modes values

-- `ConfiguredModes`.
unfoldable pub not_default : Dict Mode → Dict Mode
not_default [] = []
not_default ((name, m) ∷ modes) =
    let rest = not_default modes in if is_default m then rest else (name, m) ∷ rest

unfoldable pub configured_modes : Config → Dict Mode
unfolding not_default
configured_modes c = not_default c.modes

-- How the modes are written: `MarshalText`.
abbrev pub written : Dict Mode → Dict Value
written = map (λ (t : String × Mode). (t.0, text (mode_string t.1)))

written-read : (modes : Dict Mode) → read_modes (written modes) ≡ inr modes
unfolding read_modes
written-read [] = refl
written-read ((name, m) ∷ modes) =
    let parsed = (parse-mode_string m (mode_string m)).1 refl in
    rw (read_modes, parsed, written-read modes) refl

read-written :
    (values : Dict Value) (modes : Dict Mode)
    → read_modes values ≡ inr modes
    → values ≡ written modes
unfolding read_modes
read-written [] modes e = let none_there : [] ≡ modes = ground arith in rw (sym none_there) refl
read-written ((name, other) ∷ values) modes e = ground arith
read-written ((name, text v) ∷ values) modes e = elim (Option-cases (parse_mode v)) [
  | inl x ↦ absurd (ground arith)
  | inr (m, x) ↦ elim (Sum-cases (read_modes values)) [
    | inl (err, y) ↦ absurd (ground arith)
    | inr (rest, y) ↦
        let split : (name, m) ∷ rest ≡ modes = ground arith in
        let named = (parse-mode_string m v).0 x in
        rw (sym split, named, read-written values rest y) refl
  ]
]

-- A file's value for the key loads as a map of modes exactly if it is how that map is written: anything else
-- is refused.
pub new_from-written :
    (values : Dict Value) (modes : Dict Mode)
    → (new_from (some values) ≡ inr modes) ↔ (values ≡ written modes)
unfolding new_from
new_from-written values modes =
    (read-written values modes, λ e. ap (λ v. read_modes v) e ∙ written-read modes)

-- A configured mode is not the default.
lookup-not_default :
    (name : String) (modes : Dict Mode) (m : Mode)
    → lookup name (not_default modes) ≡ some m
    → is_default m ≡ false
unfolding not_default lookup
lookup-not_default name [] m e = cc
lookup-not_default name ((k, v) ∷ modes) m e = ground (arith, lookup-not_default name modes m)
