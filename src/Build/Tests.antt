-- ===== src/Build/Tests.antt =====
-- addons/build: two strategies, one of which supersedes the other, and two services.
mod Starting
use gdev.Base.{String, ◌≡◌, ◌≢◌, refl, some, List, [], ◌∷◌, All, In, length}
use gdev.Base.Dict.{Dict, lookup}
use gdev.Base.Names.{contains}
use gdev.Build.Strategy.{
  Detected, builder, Strategy, State, cycle, no_fuel, visit_list, visit, superseded_by,
  resolve_strategy_order,
}
use gdev.Build.Order.{IsOrder, resolve_strategy_order-IsSorted}
use gdev.Build.Order.Fuel.{resolve_strategy_order-ends}
use gdev.Build.Services.{Service, Group, group_service, group_services, services-not_grouped}

abbrev same : List String → List String
same xs = xs

abbrev tool : List String → Strategy String
tool names = record { detector = λ root. builder root; supersedes = names }

abbrev tools : Dict (Strategy String)
tools = ("go", tool []) ∷ ("mage", tool ("go" ∷ [])) ∷ []

abbrev resolved : State
resolved = record { seen = "mage" ∷ "go" ∷ []; order = "mage" ∷ "go" ∷ [] }

resolve_strategy_order-IsSorted_example :
    IsOrder tools ("mage" ∷ "go" ∷ [])
    × ((n : String) (s : Strategy String) → In (n, s) tools → In n ("mage" ∷ "go" ∷ []))
unfolding resolve_strategy_order visit_list visit superseded_by contains
resolve_strategy_order-IsSorted_example =
    resolve_strategy_order-IsSorted same tools resolved (λ xs n m. m) refl

keeps_members : (xs : List String) (n : String) → In n (same xs) → In n xs
keeps_members xs n m = m

resolve_strategy_order-ends_example : resolve_strategy_order same tools ≢ no_fuel
resolve_strategy_order-ends_example = resolve_strategy_order-ends same tools keeps_members

-- Strategies that supersede each other are a cycle.
resolve-cycle :
    resolve_strategy_order same (("go", tool ("mage" ∷ [])) ∷ ("mage", tool ("go" ∷ [])) ∷ [])
    ≡ cycle ("go" ∷ "mage" ∷ "go" ∷ [])
unfolding resolve_strategy_order visit_list visit superseded_by contains
resolve-cycle = refl

abbrev in_repo : String → Service
in_repo dir = record { name = dir; source = some ("/repo", dir) }

abbrev always_go : String → Detected (String × String)
always_go root = builder ("go", root)

abbrev repo_groups : List (Group String)
repo_groups =
    record { tool = "/repo"; dirs = "api" ∷ [] } ∷ record { tool = "/repo"; dirs = "web" ∷ [] } ∷ []
