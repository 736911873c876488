-- ===== src/Build/Tests/Starting.antt =====
-- addons/build/before-start.go: a service at the root of its repo.
use gdev.Base.{
  String, ◌≡◌, ◌≢◌, refl, true, false, none, some, [], ◌∷◌, All, if◌then◌else◌, ◌==◌, eq_iff,
  Bool-cases, subst, inl, inr, arith,
}
use gdev.Build.Strategy.{builder}
use gdev.Stack.Mode.{local}
use gdev.Stack.Resources.{Context}
use gdev.Build.BeforeStart.{
  exists, Tools, BuildHook, before_services, hook_services, after_services,
}
use gdev.Build.BeforeStart.Calls.{OfDirs, after_services-OfDirs}

abbrev tools : Tools String
tools = record {
  as_source = λ name. some (record { uses_source = λ m. true; local_source = inr ("/repo", "") });
  stat = λ root sub. exists;
  abs = inr;
  clean = λ dir. if dir == "" then "." else dir;
  detect = λ root. builder ("go", "go");
  runs = λ call. none;
}

dot-nonempty : ◌≢◌ {A = String} "." ""
dot-nonempty e = cc

clean-nonempty : (dir : String) → tools.clean dir ≢ ""
clean-nonempty dir e = elim (Bool-cases (dir == "")) [
  | inl x ↦ absurd (dot-nonempty (subst (λ b. ◌≡◌ {A = String} (if b then "." else dir) "") x e))
  | inr x ↦
      let q : dir ≡ "" = subst (λ b. ◌≡◌ {A = String} (if b then "." else dir) "") x e in
      ground (arith, x, q, eq_iff dir "")
]

abbrev context : Context
context = record { service_modes = ("web", local) ∷ []; no_service_wait = false }

abbrev fresh : BuildHook String
fresh = record { repo_dirs = []; calls = [] }

after_services-OfDirs_example :
    All
      (OfDirs tools clean-nonempty)
      (after_services tools
        (hook_services tools context ("web" ∷ []) (before_services tools fresh).1).1).1.calls
after_services-OfDirs_example =
    after_services-OfDirs tools clean-nonempty context ("web" ∷ []) fresh refl
