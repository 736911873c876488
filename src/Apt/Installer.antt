-- ===== src/Apt/Installer.antt =====
-- addons/bootstrap/apt/source-installer.go: the installation of a source and its key.
--
-- The files are a list of names and contents, the last written first. `read_fails` and `write_fails`
-- tell which files cannot be read or written for another reason than that they are not there.
pub mod Again
use gdev.Base.{
  ℕ, String, ◌≡◌, Bool, true, false, not, ◌&&◌, ◌||◌, Option, none, some, List, [], ◌∷◌, ◌++◌,
  if◌then◌else◌, ◌⊎◌, inl, inr,
}
use gdev.Apt.Text.{Text, same_text, is_empty}
use gdev.Apt.Stanza.{Content, field, format_stanza, parse_stanza}
use gdev.Apt.Source.{Source, first_keys, to_deb822, to_list, from_deb822, is_valid, equal}

pub data InstallError : Type 0 where
  runtime_update : String → InstallError
  no_name no_source invalid_source no_key : InstallError
  read_failed write_failed : Text → InstallError

pub record Installer : Type 0 where
  pub source_name : Text
  pub source : Option Source
  pub signing_key : Text
  pub deb822 : Bool

unfoldable pub as_deb822 : Installer → Installer
as_deb822 i = record i { deb822 = true }

unfoldable pub as_list : Installer → Installer
as_list i = record i { deb822 = false }

-- `validate`: the source, or what is wrong.
unfoldable pub validate : Installer → InstallError ⊎ Source
validate i = if is_empty i.source_name then inl no_name else elim i.source [
  | none ↦ inl no_source
  | some s ↦
      if not (is_valid s)
      then inl invalid_source
      else if not (is_empty s.signed_by) && is_empty i.signing_key
      then inl no_key
      else inr s
]

-- A source that is ready to be installed, with its file.
pub record Prepared : Type 0 where
  pub filename : Text
  pub content : Text
  pub source : Source
  pub signing_key : Text

pub record Answer : Type 0 where
  pub changed : Bool
  pub err : Option InstallError
  pub files : Content

-- The host: `space` and `sort` are as for stanzas, `source_file` is the path of a source's file with
-- its name and whether it is a stanza.
pub record Host : Type 0 where
  pub space : ℕ → Bool
  pub sort : List Text → List Text
  pub source_file : Text → Bool → Text
  pub read_fails : Text → Bool
  pub write_fails : Text → Bool

abbrev pub no_update : Installer → String ⊎ Installer
no_update i = inr i

module _ (host : Host) where
  abbrev printed : Bool → Source → Text × Source
  printed true s =
      let (content, s') = to_deb822 s in (format_stanza host.sort content first_keys, s')
  printed false s = to_list s

  unfoldable pub prepare : (Installer → String ⊎ Installer) → Installer → InstallError ⊎ Prepared
  unfolding validate
  prepare update i = elim (update i) [
    | inl e ↦ inl (runtime_update e)
    | inr i' ↦ elim (validate i') [
      | inl e ↦ inl e
      | inr s ↦
          let (content, s') = printed i'.deb822 s in
          inr (record {
            filename = host.source_file i'.source_name i'.deb822;
            content = content;
            source = s';
            signing_key = i'.signing_key;
          })
    ]
  ]

  abbrev pub read_file : Text → Content → InstallError ⊎ Option Text
  read_file name files =
      if host.read_fails name then inl (read_failed name) else inr (field name files)

  -- Whether a file holds the source: the same bytes, or a stanza of an equal source.
  unfoldable pub holds_source : Prepared → Text → Bool
  holds_source p existing =
      same_text existing p.content || elim (parse_stanza host.space existing) [
        | inl e ↦ false
        | inr stanza ↦ elim (from_deb822 host.space stanza) [
          | inl e ↦ false
          | inr s ↦ equal p.source s
        ]
      ]

  abbrev pub list_eq : Prepared → Option Text → Bool
  list_eq p none = false
  list_eq p (some existing) = holds_source p existing

  abbrev pub key_eq : Prepared → Option Text → Bool
  key_eq p none = false
  key_eq p (some existing) = same_text existing p.signing_key

  abbrev pub read_key : Prepared → Content → InstallError ⊎ Bool
  read_key p files =
      if is_empty p.source.signed_by
      then inr true
      else elim (read_file p.source.signed_by files) [ inl e ↦ inl e | inr o ↦ inr (key_eq p o) ]

  abbrev write_key : Prepared → Content → Answer
  write_key p files =
      if host.write_fails p.source.signed_by
      then record { changed = true; err = some (write_failed p.source.signed_by); files = files }
      else record {
        changed = true;
        err = none;
        files = (p.source.signed_by, p.signing_key) ∷ files;
      }

  abbrev write_needed : Prepared → Bool → Content → Answer
  write_needed p has_key files =
      if has_key || is_empty p.source.signed_by
      then record { changed = true; err = none; files = files }
      else write_key p files

  abbrev write_all : Prepared → Bool → Bool → Content → Answer
  write_all p has_list has_key files =
      if has_list
      then write_needed p has_key files
      else if host.write_fails p.filename
      then record { changed = true; err = some (write_failed p.filename); files = files }
      else write_needed p has_key ((p.filename, p.content) ∷ files)

  unfoldable pub install_prepared : Prepared → Bool → Content → Answer
  unfolding holds_source
  install_prepared p sim files = elim (read_file p.filename files) [
    | inl e ↦ record { changed = false; err = some e; files = files }
    | inr o ↦ elim (read_key p files) [
      | inl e ↦ record { changed = false; err = some e; files = files }
      | inr has_key ↦
          if list_eq p o && has_key
          then record { changed = false; err = none; files = files }
          else if sim
          then record { changed = true; err = none; files = files }
          else write_all p (list_eq p o) has_key files
    ]
  ]

  abbrev run_install : Bool → (Installer → String ⊎ Installer) → Installer → Content → Answer
  run_install sim update i files = elim (prepare update i) [
    | inl e ↦ record { changed = false; err = some e; files = files }
    | inr p ↦ install_prepared p sim files
  ]

  unfoldable pub install : (Installer → String ⊎ Installer) → Installer → Content → Answer
  unfolding prepare install_prepared
  install = run_install false

  unfoldable pub sim : (Installer → String ⊎ Installer) → Installer → Content → Answer
  unfolding prepare install_prepared
  sim = run_install true
