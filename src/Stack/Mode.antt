-- ===== src/Stack/Mode.antt =====
-- service/mode.go and mode-config.go: the modes of services and their configuration.
pub mod Saved
use gdev.Base.{
  String, ◌≡◌, refl, Bool, true, false, Option, none, some, if◌then◌else◌, arith, ◌==◌, eq_iff, ◌↔◌,
  subst,
}
use gdev.Base.Dict.{Dict, lookup, insert, remove, lookup-insert, lookup-remove}

pub data Mode : Type 0 where
  default local debug disabled : Mode

-- `Mode.String`.
unfoldable pub mode_string : Mode → String
mode_string default = "default"
mode_string local = "local"
mode_string debug = "debug"
mode_string disabled = "disabled"

unfoldable pub parse_mode : String → Option Mode
parse_mode value =
    if value == "default"
    then some default
    else if value == "local"
    then some local
    else if value == "debug"
    then some debug
    else if value == "disabled"
    then some disabled
    else none

-- A text parses as a mode just if it is what the mode is printed as.
pub parse-mode_string :
    (m : Mode) (value : String) → (parse_mode value ≡ some m) ↔ (mode_string m ≡ value)
unfolding parse_mode mode_string
parse-mode_string default value = (
  λ e. ground (arith, eq_iff value "default"),
  λ e. subst (λ v. parse_mode v ≡ some default) e refl,
)
parse-mode_string local value =
    (λ e. ground (arith, eq_iff value "local"), λ e. subst (λ v. parse_mode v ≡ some local) e refl)
parse-mode_string debug value =
    (λ e. ground (arith, eq_iff value "debug"), λ e. subst (λ v. parse_mode v ≡ some debug) e refl)
parse-mode_string disabled value = (
  λ e. ground (arith, eq_iff value "disabled"),
  λ e. subst (λ v. parse_mode v ≡ some disabled) e refl,
)

abbrev pub is_default : Mode → Bool
is_default default = true
is_default _ = false

abbrev pub same_mode : Mode → Mode → Bool
same_mode default default = true
same_mode local local = true
same_mode debug debug = true
same_mode disabled disabled = true
same_mode _ _ = false

-- The configuration, and whether it is to be saved.
pub record Config : Type 0 where
  pub modes : Dict Mode
  pub dirty : Bool

abbrev mode_or_default : Option Mode → Mode
mode_or_default none = default
mode_or_default (some m) = m

-- `none` is a panic.
unfoldable pub configured_mode : String → Config → Option Mode
configured_mode name c = if name == "" then none else some (mode_or_default (lookup name c.modes))

unfoldable pub set_mode : String → Mode → Config → Option Config
set_mode name m c =
    if name == ""
    then none
    else if same_mode (mode_or_default (lookup name c.modes)) m
    then some c
    else if is_default m
    then some (record { modes = remove name c.modes; dirty = true })
    else some (record { modes = insert name m c.modes; dirty = true })

same_mode-eq : (a b : Mode) → same_mode a b ≡ true → a ≡ b
same_mode-eq default default h = refl
same_mode-eq local local h = refl
same_mode-eq debug debug h = refl
same_mode-eq disabled disabled h = refl
same_mode-eq _ _ h = cc

is_default-eq : (m : Mode) → is_default m ≡ true → m ≡ default
is_default-eq default h = refl
is_default-eq _ h = cc

-- After a mode is set it is the configured one, and the modes of other services are as before.
pub configured-set_mode :
    (name other : String) (m : Mode) (c c' : Config)
    → set_mode name m c ≡ some c'
    → configured_mode other c' ≡ (if name == other then some m else configured_mode other c)
unfolding set_mode configured_mode
configured-set_mode name other m c c' e = ground (
  arith,
  eq_iff name other,
  lookup-insert name other m c.modes,
  lookup-remove name other c.modes,
  same_mode-eq (mode_or_default (lookup name c.modes)) m,
  is_default-eq m,
)
