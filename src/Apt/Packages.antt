-- ===== src/Apt/Packages.antt =====
-- addons/bootstrap/apt: steps-packages.go and conditional.go.
--
-- The bootstrap context is its values for these steps, and the commands that were run. What apt and
-- dpkg answer depends on the commands before. `sort` stands for `slices.Sort`.
pub mod Laws
use gdev.Base.{
  String, ◌≡◌, Bool, true, false, not, ◌&&◌, ◌||◌, Option, none, some, List, [], ◌∷◌, ◌++◌,
  if◌then◌else◌, ◌⊎◌, inl, inr, ◌==◌, is_some,
}
use gdev.Base.Dict.{Dict, lookup}
use gdev.Base.Names.{contains}
use gdev.Bootstrap.Step.{
  Action, Step, StepOpt, new_step, sim_func, before_steps, after_steps, apply_opts,
}

pub data Command : Type 0 where
  apt_update : Command
  apt_install : List String → Command

pub record State : Type 0 where
  pub sources_dirty : Option Bool
  -- The set under `pendingPackages`; a missing one is empty.
  pub pending : List String
  pub needs_reboot : Bool
  pub ran : List Command

pub record Apt : Type 0 where
  pub fails : List Command → Option String
  pub installed : List Command → String ⊎ Dict String
  pub available : List Command → String ⊎ Dict String
  pub sort : List String → List String

unfoldable pub changed_sources : State → State
changed_sources s = record s { sources_dirty = some true }

-- The names are added to the set, each once.
unfoldable pub add_names : List String → List String → List String
add_names [] set = set
add_names (n ∷ ns) set = let more = add_names ns set in if contains more n then more else n ∷ more

unfoldable pub add_packages : List String → State → State
unfolding add_names
add_packages names s = record s { pending = add_names names s.pending }

abbrev is_clean : Option Bool → Bool
is_clean none = false
is_clean (some dirty) = not dirty

abbrev pub no_names : List String → Bool
no_names [] = true
no_names (n ∷ ns) = false

abbrev any_missing : Dict String → List String → Bool
any_missing installed [] = false
any_missing installed (n ∷ ns) = not (is_some (lookup n installed)) || any_missing installed ns

module _ (apt : Apt) (same_versions : Dict String → Dict String → Bool) where
  unfoldable pub do_update : Action State
  do_update s =
      if is_clean s.sources_dirty
      then (none, s)
      else let ran = s.ran ++ apt_update ∷ [] in
        elim (apt.fails ran) [
          | some e ↦ (some e, record s { ran = ran })
          | none ↦ (none, record s { ran = ran; sources_dirty = some false })
        ]

  -- The end of `DoInstall`: the versions are compared with those before.
  abbrev after_install : Dict String → State → Option String × State
  after_install before s = elim (apt.installed s.ran) [
    | inl e ↦ (some e, s)
    | inr after ↦ (none, if same_versions before after then s else record s { needs_reboot = true })
  ]

  unfoldable pub do_install : List String → List String → Action State
  unfolding add_names
  do_install options extra s =
      let packages = add_names extra s.pending in
      let ran = s.ran ++ apt_install (apt.sort (options ++ packages)) ∷ [] in
      if no_names packages then (none, s) else elim (apt.installed s.ran) [
        | inl e ↦ (some e, s)
        | inr before ↦ elim (apt.fails ran) [
          | some e ↦ (some e, record s { ran = ran })
          | none ↦ after_install before (record s { ran = ran; pending = [] })
        ]
      ]

  unfoldable pub install_pending : Action State
  unfolding do_install
  install_pending = do_install ("--no-install-recommends" ∷ []) []

  -- `simInstall` clears the set without a command.
  unfoldable pub sim_install : Action State
  sim_install s = (none, record s { pending = [] })

  unfoldable pub install_needed : List String → State → String ⊎ Bool
  unfolding add_names
  install_needed extra s = elim (apt.installed s.ran) [
    | inl e ↦ inl e
    | inr installed ↦ inr (any_missing installed (add_names extra s.pending))
  ]

  abbrev first_available : Dict String → List String → Option String
  first_available available [] = none
  first_available available (c ∷ cs) =
      let rest = first_available available cs in
      if is_some (lookup c available) then some c else rest

  unfoldable pub mark_if_available : String → Action State
  unfolding add_packages
  mark_if_available name s = elim (apt.available s.ran) [
    | inl e ↦ (some e, s)
    | inr available ↦
        (none, if is_some (lookup name available) then add_packages (name ∷ []) s else s)
  ]

  unfoldable pub mark_first_available : List String → Action State
  unfolding add_packages
  mark_first_available candidates s = elim (apt.available s.ran) [
    | inl e ↦ (some e, s)
    | inr available ↦ elim (first_available available candidates) [
      | none ↦ (some "no packages available from candidates", s)
      | some name ↦ (none, add_packages (name ∷ []) s)
    ]
  ]

  -- The steps.
  unfoldable pub update_step : Step State
  unfolding do_update
  update_step = new_step "apt update" do_update []

  unfoldable pub extra_update_step : String → List (StepOpt State) → Step State
  unfolding do_update
  extra_update_step name opts = new_step name do_update (after_steps ("apt update" ∷ []) ∷ opts)

  unfoldable pub install_step : Step State
  unfolding install_pending sim_install
  install_step =
      new_step "apt install" install_pending
        (after_steps ("apt update" ∷ []) ∷ sim_func sim_install ∷ [])

  unfoldable pub extra_install_step : String → List (StepOpt State) → Step State
  unfolding install_pending sim_install
  extra_install_step name opts =
      new_step name install_pending (after_steps ("apt install" ∷ []) ∷ sim_func sim_install ∷ opts)

  abbrev marking_step : String → Action State → Step State
  marking_step name mark =
      new_step name mark
        (sim_func mark ∷ before_steps ("apt install" ∷ []) ∷ after_steps ("apt update" ∷ []) ∷ [])

  unfoldable pub add_package_if_available : String → String → Step State
  unfolding mark_if_available
  add_package_if_available name pkg = marking_step name (mark_if_available pkg)

  unfoldable pub add_first_available : String → List String → Step State
  unfolding mark_first_available
  add_first_available name candidates = marking_step name (mark_first_available candidates)

abbrev mark_packages : List String → Action State
mark_packages names s = (none, add_packages names s)

unfoldable pub add_packages_step : String → List String → Step State
unfolding add_packages
add_packages_step name packages =
    new_step name (mark_packages packages)
      (before_steps ("apt install" ∷ []) ∷ sim_func (mark_packages packages) ∷ [])

unfoldable pub add_extra_packages_step : String → List String → Step State
unfolding add_packages
add_extra_packages_step name packages =
    new_step name (mark_packages packages) (sim_func (mark_packages packages) ∷ [])
