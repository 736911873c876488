-- ===== src/Stack/Tests/Starting.antt =====
-- addons/stack/start.go, service and resource: the start of a stack with one service and its
-- infrastructure, which is ready at the second question.
use gdev.Base.{
  ℕ, ◌≡◌, ◌≢◌, refl, false, none, some, List, [], ◌∷◌, length, ltb, leb, if◌then◌else◌, arith,
}
use gdev.Base.Dict.{lookup, insert}
use gdev.Stack.Mode.{debug, disabled, same_mode}
use gdev.Stack.Resources.{
  plain, Context, with_service_modes, new_context, apply_option, service_mode, BasicService,
  with_modal_resource_funcs, modal_resources, new_service, with_modal_resources,
}
use gdev.Stack.Start.{Call, starting, checking, Env, Service, gather}
use gdev.Stack.Start.Whole.{Setup, start, waiting}
use gdev.Stack.Start.Wait.{IsDue}
use gdev.Stack.Start.Success.{start-ends}
use gdev.Stack.Start.Anti.{StartsNothing, gather-StartsNothing}

abbrev env : Env
env = record {
  fails = λ log. none;
  answers = λ log. (ltb 3 (length log), none);
  done = λ log. if leb 9 (length log) then some "deadline" else none;
}

abbrev web : Service
web = record { name = "web"; resources = λ c. (plain "w" ∷ [], []) }

abbrev db : Service
db = record { name = "db"; resources = λ c. (plain "d" ∷ [], []) }

abbrev setup : Setup ℕ ℕ
setup = record {
  registered = [];
  hooks = [];
  infra_of = λ s. db ∷ [];
  services_of = λ s. web ∷ [];
  env = λ s. env;
}

abbrev calls : List Call
calls = starting "d" ∷ starting "w" ∷ checking "w" ∷ checking "w" ∷ []

env-IsDue : IsDue env 9
env-IsDue log h = ground arith

start-ends_example : start 10 setup [] 0 ≢ waiting
start-ends_example = start-ends 10 setup 9 [] 0 refl (λ s. env-IsDue)

abbrev without_web : Context
without_web = record { service_modes = ("web", disabled) ∷ []; no_service_wait = false }

without_web-new : new_context (with_service_modes (("web", disabled) ∷ []) ∷ []) ≡ without_web
unfolding new_context apply_option insert
without_web-new = refl

gather-StartsNothing_example : StartsNothing (gather without_web (web ∷ [])).0
unfolding service_mode lookup
gather-StartsNothing_example = gather-StartsNothing without_web (web ∷ []) (refl, tt)

abbrev debug_service : BasicService
debug_service = record {
  name = "web";
  resources =
      (λ c.
        modal_resources (same_mode (service_mode c "web").0 debug)
          ((λ k. (plain "dbg" ∷ [], [])) ∷ []) c)
      ∷ [];
  modal = debug ∷ [];
}

debug_service-new :
    new_service (λ s. false) "web" (with_modal_resources debug (plain "dbg" ∷ []) ∷ [])
    ≡ some debug_service
unfolding new_service with_modal_resources with_modal_resource_funcs
debug_service-new = refl
