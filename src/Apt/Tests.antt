-- ===== src/Apt/Tests.antt =====
-- addons/bootstrap/apt: a small stanza, source, installation and package.
mod Reports
use gdev.Base.{ℕ, ◌≡◌, refl, Bool, true, false, none, some, List, [], ◌∷◌, eqb, ◌||◌, inl, inr, ◌⊎◌}
use gdev.Apt.Text.{Text, same_text, has_space, has_char, trim_right, Spaces}
use gdev.Apt.Stanza.{Content, field, has, format_stanza, parse_stanza, filled}
use gdev.Apt.Stanza.Parse.{IsKey, IsValue}
use gdev.Apt.Stanza.RoundTrip.{Sorts, IsStanza, parse-format_stanza}
use gdev.Apt.Stanza.Split.{IsSplit, split_stanza, split_stanza-IsSplit}
use gdev.Apt.Source.{
  Source, defaults, entries, to_deb822, enabled_key, first_keys, from_deb822, is_valid,
}
use gdev.Apt.Source.Laws.{IsSource, from_deb822-entries, from_deb822-to_deb822}
use gdev.Apt.Installer.{
  Installer, Prepared, Host, validate, prepare, holds_source, install_prepared, install, no_update,
}
use gdev.Apt.Installer.Again.{install-again}
use gdev.Apt.Packages.{State, Apt, add_names, do_install}
use gdev.Apt.Packages.Laws.{Installed, do_install-Installed}

abbrev space : ℕ → Bool
space c = eqb c 32 || eqb c 10

space-Spaces : Spaces space
space-Spaces = record { blank = refl; newline = refl }

abbrev unsorted : List Text → List Text
unsorted ks = ks

unsorted-Sorts : Sorts unsorted
unsorted-Sorts = record { differ = λ ks d. d; same = λ k ks. refl }

-- `A: x y` and `B: z`.
abbrev a_key : Text
a_key = 65 ∷ []

abbrev b_key : Text
b_key = 66 ∷ []

abbrev stanza : Content
stanza = (b_key, 122 ∷ []) ∷ (a_key, 120 ∷ 32 ∷ 121 ∷ []) ∷ []

a_key-IsKey : IsKey space a_key
unfolding has_space has_char
a_key-IsKey = record {
  first = 65;
  tail = [];
  eq = refl;
  no_comment = refl;
  ascii = refl;
  no_space = refl;
  no_colon = refl;
  no_newline = refl;
}

b_key-IsKey : IsKey space b_key
unfolding has_space has_char
b_key-IsKey = record {
  first = 66;
  tail = [];
  eq = refl;
  no_comment = refl;
  ascii = refl;
  no_space = refl;
  no_colon = refl;
  no_newline = refl;
}

x_y-IsValue : IsValue space (120 ∷ 32 ∷ 121 ∷ [])
unfolding has_char trim_right
x_y-IsValue = record {
  first = 120;
  tail = 32 ∷ 121 ∷ [];
  eq = refl;
  no_space = refl;
  no_space_after = refl;
  no_newline = refl;
}

z-IsValue : IsValue space (122 ∷ [])
unfolding has_char trim_right
z-IsValue = record {
  first = 122;
  tail = [];
  eq = refl;
  no_space = refl;
  no_space_after = refl;
  no_newline = refl;
}

stanza-IsStanza : IsStanza space stanza
unfolding has same_text
stanza-IsStanza = record {
  differ = (refl, (refl, tt));
  lines = ((b_key-IsKey, inr z-IsValue), ((a_key-IsKey, inr x_y-IsValue), tt));
}

parse-format_stanza_example :
    (parsed : Content) × ((parse_stanza space (format_stanza unsorted stanza (a_key ∷ []))
        ≡ inr parsed)
      × ((k : Text) → field k parsed ≡ filled (field k stanza)))
unfolding has
parse-format_stanza_example =
    parse-format_stanza space unsorted space-Spaces unsorted-Sorts stanza (a_key ∷ [])
      stanza-IsStanza (refl, tt)

split_stanza-IsSplit_example :
    IsSplit (65 ∷ 10 ∷ 10 ∷ 66 ∷ []) (split_stanza (65 ∷ 10 ∷ 10 ∷ 66 ∷ []) false)
split_stanza-IsSplit_example = split_stanza-IsSplit (65 ∷ 10 ∷ 10 ∷ 66 ∷ []) false

-- The URI `u v` are two words.
abbrev source : Source
source = record {
  types = [];
  uris = (117 ∷ []) ∷ (118 ∷ []) ∷ [];
  suites = (115 ∷ []) ∷ [];
  components = (99 ∷ []) ∷ [];
  architectures = (97 ∷ []) ∷ (98 ∷ []) ∷ [];
  signed_by = 107 ∷ [];
}

source-IsSource : IsSource space source
unfolding has_space has_char
source-IsSource = record {
  types = tt;
  uris = ((refl, refl), ((refl, refl), tt));
  suites = ((refl, refl), tt);
  components = ((refl, refl), tt);
  architectures = (refl, (refl, tt));
}

from_deb822-to_deb822_example : from_deb822 space (to_deb822 source).0 ≡ inl enabled_key
unfolding has_space
from_deb822-to_deb822_example = from_deb822-to_deb822 space refl source (refl, refl) source-IsSource

abbrev host : Host
host = record {
  space = space;
  sort = unsorted;
  source_file = λ name stanza. 47 ∷ name;
  read_fails = λ name. false;
  write_fails = λ name. false;
}

abbrev installer : Installer
installer = record {
  source_name = 110 ∷ [];
  source = some source;
  signing_key = 1 ∷ [];
  deb822 = true;
}

abbrev prepared : Prepared
prepared = record {
  filename = 47 ∷ 110 ∷ [];
  content = format_stanza unsorted (to_deb822 source).0 first_keys;
  source = defaults source;
  signing_key = 1 ∷ [];
}

abbrev apt : Apt
apt = record {
  fails = λ ran. none;
  installed = λ ran. inr [];
  available = λ ran. inr [];
  sort = λ names. names;
}

abbrev pending_vim : State
pending_vim = record { sources_dirty = none; pending = "vim" ∷ []; needs_reboot = false; ran = [] }
