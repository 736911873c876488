-- ===== src/Stack/Tests.antt =====
-- addons/stack and service: a small registry, configuration and stop.
mod Starting
use gdev.Base.{String, ◌≡◌, refl, true, false, Option, none, some, List, [], ◌∷◌, ◌++◌}
use gdev.Base.Dict.{lookup, insert}
use gdev.Base.Names.{contains}
use gdev.Stack.Registry.{Registry, new_registry, add_service, Holds, add_service-Holds}
use gdev.Stack.Mode.{debug, Config, configured_mode, set_mode, configured-set_mode}
use gdev.Stack.Stop.{
  Service, Options, reversed, collect, collect_errs, included, stop_each, stop_services, stack_stop,
  stack_stop-all,
}

abbrev one_service : Registry String
one_service = record {
  locked = false;
  services = ("web", "w") ∷ [];
  infra_order = [];
  service_order = "web" ∷ [];
}

one_service-eq : add_service "web" "w" new_registry ≡ some one_service
unfolding add_service lookup insert
one_service-eq = refl

abbrev web : Service
web = record { name = "web"; resources = "a" ∷ "b" ∷ []; err = none }

abbrev db : Service
db = record { name = "db"; resources = "c" ∷ []; err = none }

abbrev everything : Options
everything = record { include_infrastructure = true; exclude = []; parallel = false }

abbrev always_stops : String → Option String
always_stops r = none

abbrev as_sent : List String → List String
as_sent es = es

stopped-order :
    (stack_stop always_stops as_sent everything (web ∷ []) (db ∷ [])).stopped ≡ "b" ∷ "a" ∷ "c" ∷ []
unfolding stack_stop stop_services stop_each collect included contains collect_errs
stopped-order = refl
