-- ===== src/Apt/Download.antt =====
-- addons/bootstrap/apt: install-deb.go and steps-sources.go, steps that download a package or install a
-- source.
--
-- `Package` has what the package source, dpkg and the options answer, and the errors of the download.
-- `newer` is a comparison of versions without an error that finds the first one greater. Progress is left
-- out. `install` is `DoInstall` of the file that was downloaded.
use Prim.Native.String.{◌++◌ as ◌<>◌}
use gdev.Base.{
  String, ◌≡◌, ◌↔◌, refl, Bool, true, false, not, ◌||◌, Option, none, some, List, [], ◌∷◌,
  if◌then◌else◌, ◌⊎◌, inl, inr, ◌==◌, arith,
}
use gdev.Base.Dict.{Dict, lookup}
use gdev.Bootstrap.Step.{Action, Step, StepOpt, new_step, sim_func, before_steps, apply_opts}

pub record Options : Type 0 where
  pub always_install : Bool
  -- What `ForceInstall` answers, if it is set.
  pub force_install : Option (String ⊎ Bool)
  pub sudo_prompt : String

abbrev pub no_options : Options
no_options = record { always_install = false; force_install = none; sudo_prompt = "" }

-- The options of a call; with a nil pointer they are empty.
abbrev pub given : Option Options → Options
given none = no_options
given (some o) = o

pub record Package : Type 0 where
  pub release : String ⊎ String
  pub installed : String ⊎ Dict String
  pub newer : String → String → Bool
  pub acquire_failed : Option String
  pub create_failed : Option String
  pub stream_failed : Option String
  pub close_failed : Option String

-- The version that is to be had, and whether to skip it.
abbrev pub Prepared : Type 0
Prepared = String ⊎ (String × Bool)

module _ (p : Package) where
  -- A version that is there is skipped unless the one to be had is newer.
  abbrev pub unless_newer : String → String → Bool
  unless_newer version old =
      if version == "" then true else if version == old then true else not (p.newer version old)

  abbrev forced : String → String → Option (String ⊎ Bool) → Prepared
  forced version old none = inr (version, unless_newer version old)
  forced version old (some (inl e)) = inl e
  forced version old (some (inr true)) = inr (version, false)
  forced version old (some (inr false)) = inr (version, unless_newer version old)

  unfoldable pub prep_installed : Options → String → Option String → Prepared
  prep_installed o version none = inr (version, false)
  prep_installed o version (some old) =
      if o.always_install then inr (version, false) else forced version old o.force_install

  unfoldable pub prep_downloaded_package : String → Option Options → Prepared
  unfolding prep_installed
  prep_downloaded_package name opts = elim p.release [
    | inl e ↦ inl e
    | inr version ↦ elim p.installed [
      | inl e ↦ inl e
      | inr versions ↦ prep_installed (given opts) version (lookup name versions)
    ]
  ]

  module _ {S : Type 0} (install : String → Action S) where
    abbrev prompt_of : String → Option Options → String
    prompt_of name none = "install " <> name
    prompt_of name (some o) = if o.sudo_prompt == "" then "install " <> name else o.sudo_prompt

    -- `InstallDownloadedPackage` after the preparation; the temporary file is removed in every case.
    abbrev download : String → Option Options → Action S
    download name opts s = elim p.acquire_failed [
      | some e ↦ (some e, s)
      | none ↦ elim p.create_failed [
        | some e ↦ (some e, s)
        | none ↦ elim p.stream_failed [
          | some e ↦ (some e, s)
          | none ↦ elim p.close_failed [
            | some e ↦ (some e, s)
            | none ↦ install (prompt_of name opts) s
          ]
        ]
      ]
    ]

    unfoldable pub install_downloaded_package : String → Option Options → Action S
    install_downloaded_package name opts s = elim (prep_downloaded_package name opts) [
      | inl e ↦ (some e, s)
      | inr (version, skip) ↦ if skip then (none, s) else download name opts s
    ]

    -- Only a message is printed.
    unfoldable pub sim_downloaded_package : String → Option Options → Action S
    sim_downloaded_package name opts s = elim (prep_downloaded_package name opts) [
      | inl e ↦ (some e, s)
      | inr (version, skip) ↦ (none, s)
    ]

    unfoldable pub install_downloaded_package_step : String → Option Options → Step S
    unfolding install_downloaded_package sim_downloaded_package
    install_downloaded_package_step name opts =
        new_step ("Install " <> name) (install_downloaded_package name opts)
          (sim_func (sim_downloaded_package name opts) ∷ [])

  -- Installed, not forced, and not older than what is to be had.
  abbrev Skipped : Options → String → Option String → Type 0
  Skipped o version found =
      (old : String) × (found ≡ some old)
      × (o.always_install ≡ false)
      × ((o.force_install ≡ none) ⊎ (o.force_install ≡ some (inr false)))
      × ((version == "" || (version == old || not (p.newer version old))) ≡ true)

  skips :
      (o : Options) (version : String) (found : Option String) (force : Option (String ⊎ Bool))
      → o.force_install ≡ force
      → prep_installed o version found ≡ inr (version, true)
      → Skipped o version found
  unfolding prep_installed
  skips o version none force f e = absurd (ground (arith, e))
  skips o version (some old) none f e = (old, refl, ground (arith, e), inl f, ground (arith, e, f))
  skips o version (some old) (some (inl x)) f e = absurd (ground (arith, e, f))
  skips o version (some old) (some (inr true)) f e = absurd (ground (arith, e, f))
  skips o version (some old) (some (inr false)) f e =
      (old, refl, ground (arith, e), inr f, ground (arith, e, f))

  skipped :
      (o : Options) (version : String) (found : Option String)
      → Skipped o version found
      → prep_installed o version found ≡ inr (version, true)
  unfolding prep_installed
  skipped o version found (old, e, a, inl f, n) = ground (arith, e, a, f, n)
  skipped o version found (old, e, a, inr f, n) = ground (arith, e, a, f, n)

  -- If the release and the versions are known, a package is skipped exactly if it is installed, nothing
  -- forces it, and the version that is to be had is empty, the same, or not found to be newer.
  pub prep_downloaded_package-skips :
      (name version : String) (versions : Dict String) (opts : Option Options)
      → p.release ≡ inr version
      → p.installed ≡ inr versions
      → (prep_downloaded_package name opts ≡ inr (version, true)) ↔ (
          (old : String) × (lookup name versions ≡ some old)
          × ((given opts).always_install ≡ false)
          × (((given opts).force_install ≡ none) ⊎ ((given opts).force_install ≡ some (inr false)))
          × ((version == "" || (version == old || not (p.newer version old))) ≡ true))
  unfolding prep_downloaded_package
  prep_downloaded_package-skips name version versions opts r i =
      let o = given opts in
      let prepared : prep_downloaded_package name opts
          ≡ prep_installed o version (lookup name versions) =
        rw (r, i, prep_downloaded_package) refl in
      rw prepared (
        skips o version (lookup name versions) o.force_install refl,
        skipped o version (lookup name versions),
      )

module _ {S : Type 0} (mark : S → S) where
  -- An action, and the mark that the sources have changed if it has no error.
  abbrev marking : Action S → Action S
  marking act s = let (e, s') = act s in elim e [ some x ↦ (some x, s') | none ↦ (none, mark s') ]

  unfoldable pub source_install_step : String → Action S → Action S → List (StepOpt S) → Step S
  source_install_step name install sim opts = apply_opts opts (
      apply_opts (sim_func (marking sim) ∷ [])
        (new_step ("Install APT source " <> name) (marking install) []))

  unfoldable pub public_source_install_steps : List (String × (Action S × Action S)) → List (Step S)
  unfolding source_install_step
  public_source_install_steps [] = []
  public_source_install_steps ((name, (install, sim)) ∷ rest) =
      source_install_step name install sim (before_steps ("apt update" ∷ []) ∷ [])
      ∷ public_source_install_steps rest
