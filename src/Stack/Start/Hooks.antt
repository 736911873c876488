-- ===== src/Stack/Start/Hooks.antt =====
-- addons/stack/hooks.go: the hooks that run before a start.
--
-- A hook's functions answer with an error or nil; one that is nil is not called. `S` is what the
-- functions read and change, the registry of services among it.
use gdev.Base.{String, Bool, Option, none, some, List, [], ◌∷◌, ◌++◌, if◌then◌else◌, ◌==◌}
use gdev.Stack.Start.{Service}

abbrev pub HookFunc : Type 0 → Type 0
HookFunc S = S → Option String × S

pub record Hook (S : Type 0) : Type 0 where
  pub name : String
  pub load_services : Option (HookFunc S)
  pub before_services : Option (List Service → List Service → HookFunc S)
  pub service : Option (Service → HookFunc S)
  pub after_services : Option (List Service → List Service → HookFunc S)

module _ {S : Type 0} where
  -- `PreStartHookFuncs`. `none` is a panic.
  unfoldable pub pre_start_hook_funcs :
      String
      → Option (HookFunc S)
      → Option (List Service → List Service → HookFunc S)
      → Option (Service → HookFunc S)
      → Option (List Service → List Service → HookFunc S)
      → Option (Hook S)
  pre_start_hook_funcs name load before each after =
      if name == ""
      then none
      else some (record {
        name = name;
        load_services = load;
        before_services = before;
        service = each;
        after_services = after;
      })

  -- `AddPreStartHook`, which panics once the services are locked.
  unfoldable pub add_pre_start_hook : Bool → Hook S → List (Hook S) → Option (List (Hook S))
  add_pre_start_hook locked h hooks = if locked then none else some (hooks ++ h ∷ [])

  abbrev no_hook : HookFunc S
  no_hook s = (none, s)

  unfoldable pub hook_load_services : Hook S → HookFunc S
  hook_load_services h = elim h.load_services [ none ↦ no_hook | some f ↦ f ]

  unfoldable pub hook_before_services : List Service → List Service → Hook S → HookFunc S
  hook_before_services infra svcs h = elim h.before_services [
    | none ↦ no_hook
    | some f ↦ f infra svcs
  ]

  unfoldable pub hook_service : Service → Hook S → HookFunc S
  hook_service svc h = elim h.service [ none ↦ no_hook | some f ↦ f svc ]

  unfoldable pub hook_after_services : List Service → List Service → Hook S → HookFunc S
  hook_after_services infra svcs h = elim h.after_services [
    | none ↦ no_hook
    | some f ↦ f infra svcs
  ]

  -- The loops: the first error ends them.
  unfoldable pub run_each : {A : Type 0} → (A → HookFunc S) → List A → HookFunc S
  run_each f [] s = (none, s)
  run_each f (a ∷ rest) s =
      let (err, s') = f a s in elim err [ none ↦ run_each f rest s' | some e ↦ (some e, s') ]

  -- `infra_of` and `services_of` stand for the registry that is read after the services are loaded.
  module _ (infra_of services_of : S → List Service) where
    unfoldable pub pre_start :
        List (Hook S) → S → (Option String × (List Service × List Service)) × S
    unfolding run_each hook_load_services hook_before_services hook_service hook_after_services
    pre_start hooks s =
        let (e1, s1) = run_each hook_load_services hooks s in
        let infra = infra_of s1 in
        let svcs = services_of s1 in
        let (e2, s2) = run_each (hook_before_services infra svcs) hooks s1 in
        let (e3, s3) = run_each (λ svc. run_each (hook_service svc) hooks) svcs s2 in
        let (e4, s4) = run_each (hook_after_services infra svcs) hooks s3 in
        elim e1 [
          | some e ↦ ((some e, ([], [])), s1)
          | none ↦ elim e2 [
            | some e ↦ ((some e, ([], [])), s2)
            | none ↦ elim e3 [
              | some e ↦ ((some e, ([], [])), s3)
              | none ↦ elim e4 [
                | some e ↦ ((some e, ([], [])), s4)
                | none ↦ ((none, (infra, svcs)), s4)
              ]
            ]
          ]
        ]
