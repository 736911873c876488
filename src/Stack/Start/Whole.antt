-- ===== src/Stack/Start/Whole.antt =====
-- addons/stack/start.go and hooks.go: the start of the whole stack.
use gdev.Base.{ℕ, String, true, false, Option, none, some, List, [], ◌∷◌, ◌⊎◌, inl, inr}
use gdev.Stack.Resources.{Context, ContextOption, new_context}
use gdev.Stack.Context.{ResourceOption, Initializer, new_resource_context}
use gdev.Base.Dict.{Dict}
use gdev.Stack.Start.{Call, Env, Service, Outcome, start_services}
use gdev.Stack.Start.Hooks.{Hook, pre_start}

-- An option of `Start`: one of either kind of context, or of another type.
pub data StartOption (V : Type 0) : Type 0 where
  service_option : ContextOption → StartOption V
  resource_option : ResourceOption V → StartOption V
  other : String → StartOption V

-- What the start knows: the types with an initializer, the hooks, the registry that they load, and
-- what the resources do.
pub record Setup (V S : Type 0) : Type 0 where
  pub registered : Dict (Initializer V)
  pub hooks : List (Hook S)
  pub infra_of : S → List Service
  pub services_of : S → List Service
  pub env : S → Env

module _ {V : Type 0} where
  abbrev pub sort_options :
      List (StartOption V) → String ⊎ (List ContextOption × List (ResourceOption V))
  sort_options [] = inr ([], [])
  sort_options (o ∷ os) = elim (sort_options os) [
    | inl t ↦ elim o [ other u ↦ inl u | service_option x ↦ inl t | resource_option x ↦ inl t ]
    | inr (svc, rc) ↦ elim o [
      | other u ↦ inl u
      | service_option x ↦ inr (x ∷ svc, rc)
      | resource_option x ↦ inr (svc, x ∷ rc)
    ]
  ]

-- The two stages: infrastructure, then the stack. `none`: a wait has not ended.
unfoldable pub start_both :
    ℕ → Env → Context → List Service → List Service → List Call → Option Outcome
unfolding start_services
start_both fuel env c infra svcs log = elim (start_services env fuel c true infra log) [
  | none ↦ none
  | some o ↦ elim o.0 [
    | [] ↦ start_services env fuel c false svcs o.1
    | e ∷ es ↦ some (e ∷ es, o.1)
  ]
]

-- What `Start` ends with: a panic, or errors and the calls that were made.
pub data Started : Type 0 where
  panicked : Started
  returned : List String → List Call → Started
  waiting : Started

abbrev pub started : Option Outcome → Started
started none = waiting
started (some o) = returned o.0 o.1

module _ {V S : Type 0} where
  unfoldable pub start : ℕ → Setup V S → List (StartOption V) → S → Started
  unfolding pre_start new_resource_context start_both
  start fuel w opts s = elim (sort_options opts) [
    | inl t ↦ returned (t ∷ []) []
    | inr (svc, rc) ↦ elim (new_resource_context w.registered rc) [
      | none ↦ panicked
      | some (inl e) ↦ returned (e ∷ []) []
      | some (inr c) ↦
          let (r, s') = pre_start w.infra_of w.services_of w.hooks s in
          elim r.0 [
            | some e ↦ returned (e ∷ []) []
            | none ↦ started (start_both fuel (w.env s') (new_context svc) r.1.0 r.1.1 [])
          ]
    ]
  ]
