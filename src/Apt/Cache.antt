-- ===== src/Apt/Cache.antt =====
-- addons/bootstrap/apt/state.go: what dpkg and apt report, kept in the bootstrap context.
--
-- The key of a map is a value that may be there or not, as in addons/bootstrap/internal/context.go.
-- `mtime` is the time of the file that changes with the report, `none` if it cannot be told; `query` is the
-- output of the command or its error; `scan` is a `bufio.Scanner` with the split of Stanza/Split.
pub mod Rows
use gdev.Base.{
  ℕ, ◌≡◌, refl, Bool, true, false, not, ◌&&◌, Option, none, some, List, [], ◌∷◌, ◌++◌,
  if◌then◌else◌, eqb, ltb, ◌⊎◌, inl, inr, String,
}
use gdev.Apt.Text.{Text, same_text, lines_of, split}
use gdev.Apt.Stanza.{Content, field, ParseError, parse_stanza}

-- `timestampedMap`.
pub record Report : Type 0 where
  pub timestamp : ℕ
  pub versions : Content

pub data Error : Type 0 where
  command_failed : String → Error
  invalid_line : Text → Error
  bad_stanza : ParseError → Error
  no_package no_version : Error

pub data Result (A : Type 0) : Type 0 where
  ok : A → Result A
  fails : Error → Result A
  panics : Result A

-- `Save` and `Clear`, which panic if the key is there, or not there.
unfoldable pub save : {A : Type 0} → A → Option A → Option (Option A)
save v (some old) = none
save v none = some (some v)

unfoldable pub clear : {A : Type 0} → Option A → Option (Option A)
clear none = none
clear (some old) = some none

-- `m[k] = v`.
unfoldable pub put_version : Text → Text → Content → Content
put_version name v [] = (name, v) ∷ []
put_version name v ((k, old) ∷ rest) =
    let later = put_version name v rest in
    if same_text k name then (name, v) ∷ rest else (k, old) ∷ later

abbrev pub word_install : Text
word_install = 105 ∷ 110 ∷ 115 ∷ 116 ∷ 97 ∷ 108 ∷ 108 ∷ []

abbrev pub word_installed : Text
word_installed = 105 ∷ 110 ∷ 115 ∷ 116 ∷ 97 ∷ 108 ∷ 108 ∷ 101 ∷ 100 ∷ []

abbrev pub word_ok : Text
word_ok = 111 ∷ 107 ∷ []

-- A line without its end; `none` if it has none, when the file ended.
unfoldable pub trim_newline : Text → Option Text
trim_newline [] = none
trim_newline (c ∷ []) = if eqb c 10 then some [] else none
trim_newline (c ∷ d ∷ t) = elim (trim_newline (d ∷ t)) [ none ↦ none | some l ↦ some (c ∷ l) ]

-- A line of `dpkg-query`; a package that is not installed, or in a bad state, is passed over.
unfoldable pub read_fields : Text → List Text → Content → Error ⊎ Content
read_fields line (name ∷ version ∷ want ∷ status ∷ eflag ∷ []) m =
    if same_text want word_install && (same_text status word_installed && same_text eflag word_ok)
    then inr (put_version name version m)
    else inr m
read_fields line _ m = inl (invalid_line line)

unfoldable pub read_rows : List Text → Content → Error ⊎ Content
unfolding read_fields put_version trim_newline
read_rows [] m = inr m
read_rows (l ∷ ls) m = elim (trim_newline l) [
  | none ↦ inr m
  | some line ↦ elim (read_fields line (split 9 line) m) [
    | inl e ↦ inl e
    | inr m' ↦ read_rows ls m'
  ]
]

module _ (space : ℕ → Bool) where
  -- The loop of `AptAvailable` over the stanzas.
  unfoldable pub read_stanzas : List Text → Content → Error ⊎ Content
  unfolding put_version
  read_stanzas [] m = inr m
  read_stanzas (t ∷ ts) m = elim (parse_stanza space t) [
    | inl e ↦ inl (bad_stanza e)
    | inr parsed ↦ elim (field (80 ∷ 97 ∷ 99 ∷ 107 ∷ 97 ∷ 103 ∷ 101 ∷ []) parsed) [
      | none ↦ inl no_package
      | some pkg ↦ elim (field (86 ∷ 101 ∷ 114 ∷ 115 ∷ 105 ∷ 111 ∷ 110 ∷ []) parsed) [
        | none ↦ inl no_version
        | some ver ↦ read_stanzas ts (put_version pkg ver m)
      ]
    ]
  ]

-- The file is not newer than the report.
abbrev pub is_fresh : Option ℕ → Report → Bool
is_fresh none r = false
is_fresh (some m) r = not (ltb r.timestamp m)

abbrev saved : Report → Option Report → Result Content × Option Report
saved r info = elim (save r info) [ none ↦ (panics, info) | some info' ↦ (ok r.versions, info') ]

-- A report that is made anew.
abbrev pub renew : ℕ → Error ⊎ Content → Option Report → Result Content × Option Report
renew now (inl e) info = (fails e, info)
renew now (inr m) info = saved (record { timestamp = now; versions = m }) info

abbrev pub or_renew :
    Option ℕ → ℕ → Error ⊎ Content → Option Report → Result Content × Option Report
or_renew mtime now answer none = renew now answer none
or_renew mtime now answer (some r) =
    if is_fresh mtime r
    then (ok r.versions, some r)
    else elim (clear (some r)) [ none ↦ (panics, some r) | some info ↦ renew now answer info ]

abbrev pub rows_of : Error ⊎ Text → Error ⊎ Content
rows_of (inl e) = inl e
rows_of (inr text) = read_rows (lines_of text) []

unfoldable pub dpkg_installed :
    Option ℕ → ℕ → Error ⊎ Text → Option Report → Result Content × Option Report
unfolding save clear
dpkg_installed mtime now query info = or_renew mtime now (rows_of query) info

abbrev pub stanzas_of :
    (ℕ → Bool) → (Text → List Text × Option Error) → Error ⊎ Text → Error ⊎ Content
stanzas_of space scan (inl e) = inl e
stanzas_of space scan (inr text) = elim (read_stanzas space (scan text).0 []) [
  | inl e ↦ inl e
  | inr m ↦ elim (scan text).1 [ some e ↦ inl e | none ↦ inr m ]
]

unfoldable pub apt_available :
    (ℕ → Bool)
    → (Text → List Text × Option Error)
    → Option ℕ
    → ℕ
    → Error ⊎ Text
    → Option Report
    → Result Content × Option Report
unfolding save clear
apt_available space scan mtime now query info =
    or_renew mtime now (stanzas_of space scan query) info
