-- ===== src/Build/BeforeStart.antt =====
-- addons/build/before-start.go: the build of what the services need, before the stack is started.
--
-- `as_source` is the type assertion to a service with source, `stat`, `abs`, `clean` and `join` are
-- those of os and path/filepath, `detect` is `DetectStrategy`, and `runs` is what a call of a builder
-- returns.
pub mod Dirs
pub mod Calls
use gdev.Base.{
  String, Bool, true, false, not, ◌||◌, Option, none, some, List, [], ◌∷◌, ◌++◌, if◌then◌else◌, ◌⊎◌,
  inl, inr, ◌≢◌,
}
use gdev.Base.Dict.{Dict, lookup, insert}
use gdev.Base.Names.{contains}
use gdev.Build.Strategy.{Detected, failed, nothing, builder}
use gdev.Build.Services.{Call, build_all, build_dirs}
use gdev.Stack.Mode.{Mode}
use gdev.Stack.Resources.{Context, service_mode}

pub data Stat : Type 0 where
  exists missing : Stat
  broken : String → Stat

pub record SourceService : Type 0 where
  pub uses_source : Mode → Bool
  pub local_source : String ⊎ (String × String)

pub record Tools (B : Type 0) : Type 0 where
  pub as_source : String → Option SourceService
  pub stat : String → String → Stat
  pub abs : String → String ⊎ String
  pub clean : String → String
  pub detect : String → Detected (String × B)
  pub runs : Call B → Option String

-- `repoDirs`, and the calls of builders.
pub record BuildHook (B : Type 0) : Type 0 where
  pub repo_dirs : Dict (List String)
  pub calls : List (Call B)

abbrev pub or_empty : Option (List String) → List String
or_empty none = []
or_empty (some dirs) = dirs

module _ {B : Type 0} (tools : Tools B) where
  -- `BeforeServices`.
  unfoldable pub before_services : BuildHook B → Option String × BuildHook B
  before_services h = (none, record h { repo_dirs = [] })

  -- What a service has the hook do: nothing, an error, or the root and the directory to build.
  abbrev checked_dir : String × String → (String ⊎ Option (String × String))
  checked_dir (root, sub) = elim (tools.stat root sub) [
    | missing ↦ inr none
    | broken e ↦ inl e
    | exists ↦ elim (tools.abs root) [ inl e ↦ inl e | inr r ↦ inr (some (r, tools.clean sub)) ]
  ]

  abbrev source_dir : SourceService → (String ⊎ Option (String × String))
  source_dir src = elim src.local_source [ inl e ↦ inl e | inr dirs ↦ checked_dir dirs ]

  unfoldable pub needed_dir : Context → String → String ⊎ Option (String × String)
  unfolding service_mode
  needed_dir c name = elim (tools.as_source name) [
    | none ↦ inr none
    | some src ↦
        let (m, given) = service_mode c name in
        if not given then inr none else if not (src.uses_source m) then inr none else source_dir src
  ]

  abbrev pub add_dir : Option (String × String) → BuildHook B → BuildHook B
  add_dir none h = h
  add_dir (some (root, dir)) h = record h {
    repo_dirs = insert root (or_empty (lookup root h.repo_dirs) ++ dir ∷ []) h.repo_dirs;
  }

  -- `Service`.
  unfoldable pub hook_service : Context → String → BuildHook B → Option String × BuildHook B
  unfolding needed_dir
  hook_service c name h = elim (needed_dir c name) [
    | inl e ↦ (some e, h)
    | inr o ↦ (none, add_dir o h)
  ]

  unfoldable pub hook_services : Context → List String → BuildHook B → Option String × BuildHook B
  unfolding hook_service
  hook_services c [] h = (none, h)
  hook_services c (name ∷ names) h =
      let (err, h') = hook_service c name h in
      elim err [ some e ↦ (some e, h') | none ↦ hook_services c names h' ]

  -- The call for one repo.
  unfoldable pub build_call : B → List String → Call B
  build_call b dirs = if contains dirs "" then build_all b else build_dirs b dirs

  abbrev run_call : Call B → BuildHook B → Option String × BuildHook B
  run_call call h = (tools.runs call, record h { calls = h.calls ++ call ∷ [] })

  unfoldable pub build_repo : String → List String → BuildHook B → Option String × BuildHook B
  unfolding build_call
  build_repo root dirs h = elim (tools.detect root) [
    | failed e ↦ (some "can't detect build strategy", h)
    | nothing ↦ (some "no build strategy", h)
    | builder (n, b) ↦ run_call (build_call b dirs) h
  ]

  -- `AfterServices`, with the repos in the order in which the loop meets them.
  unfoldable pub build_repos : Dict (List String) → BuildHook B → Option String × BuildHook B
  unfolding build_repo
  build_repos [] h = (none, h)
  build_repos ((root, dirs) ∷ repos) h =
      let (err, h') = build_repo root dirs h in
      elim err [ some e ↦ (some e, h') | none ↦ build_repos repos h' ]

  unfoldable pub after_services : BuildHook B → Option String × BuildHook B
  unfolding build_repos
  after_services h = build_repos h.repo_dirs h
