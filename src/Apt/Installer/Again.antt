-- ===== src/Apt/Installer/Again.antt =====
-- addons/bootstrap/apt/source-installer.go: what an installation and its simulation do.
use gdev.Base.{String, ◌≡◌, Bool, true, false, none, ◌⊎◌, inl, inr, arith}
use gdev.Apt.Text.{same_text, same_text_refl, same_text-sym}
use gdev.Apt.Stanza.{Content, field}
use gdev.Apt.Installer.{
  Host, Installer, Prepared, prepare, read_file, list_eq, read_key, holds_source, install_prepared,
  install, sim,
}

module _ (host : Host) (update : Installer → String ⊎ Installer) (i : Installer)
    (files : Content) where
  -- A simulation writes nothing, and an installation without an error changes something just if the
  -- simulation says so.
  pub sim-install :
      ((sim host update i files).files ≡ files)
      × ((install host update i files).err ≡ none
          → ((sim host update i files).err ≡ none)
            × ((sim host update i files).changed ≡ (install host update i files).changed))
  unfolding sim install install_prepared
  sim-install = (ground arith, λ e. (ground arith, ground arith))

holds_source-content : (host : Host) (p : Prepared) → holds_source host p p.content ≡ true
unfolding holds_source
holds_source-content host p = ground (arith, same_text_refl p.content)

module _ (host : Host) (p : Prepared) where
  abbrev list_held : Content → Bool
  list_held files = elim (read_file host p.filename files) [
    | inl e ↦ false
    | inr o ↦ list_eq host p o
  ]

  abbrev key_held : Content → Bool
  key_held files = elim (read_key host p files) [ inl e ↦ false | inr b ↦ b ]

  install-held :
      (files : Content)
      → list_held files ≡ true
      → key_held files ≡ true
      → install_prepared host p false files ≡ record { changed = false; err = none; files = files }
  unfolding install_prepared
  install-held files a b = ground arith

  module _ (files : Content) (n : same_text p.source.signed_by p.filename ≡ false)
      (e : (install_prepared host p false files).err ≡ none) where
    list-install : list_held (install_prepared host p false files).files ≡ true
    unfolding install_prepared field
    list-install = ground (arith, holds_source-content host p, same_text_refl p.filename)

    key-install : key_held (install_prepared host p false files).files ≡ true
    unfolding install_prepared field
    key-install = ground (
      arith,
      same_text_refl p.source.signed_by,
      same_text-sym p.source.signed_by p.filename,
      same_text_refl p.signing_key,
    )

-- If an installation returns no error, a second one finds the source and the key installed: it changes
-- nothing, provided that the key has another file than the source.
pub install-again :
    (host : Host) (update : Installer → String ⊎ Installer) (i : Installer) (p : Prepared)
    (files : Content)
    → prepare host update i ≡ inr p
    → same_text p.source.signed_by p.filename ≡ false
    → (install host update i files).err ≡ none
    → install host update i (install host update i files).files
      ≡ record { changed = false; err = none; files = (install host update i files).files }
unfolding install
install-again host update i p files x n e =
    let q : install host update i files ≡ install_prepared host p false files = ground (arith, x) in
    let ok : (install_prepared host p false files).err ≡ none = ground (arith, q, e) in
    rw q (
      ground (
        arith,
        x,
        install-held host p (install_prepared host p false files).files
            (list-install host p files n ok) (key-install host p files n ok),
      ))
