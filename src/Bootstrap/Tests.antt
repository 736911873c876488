-- ===== src/Bootstrap/Tests.antt =====
-- addons/bootstrap: a plan of two steps.
use gdev.Base.{
  ℕ, String, ◌≡◌, refl, true, Option, none, some, List, [], ◌∷◌, ◌++◌, inl, inr, ◌==◌,
  if◌then◌else◌, arith,
}
use gdev.Base.Dict.{Dict, lookup, insert}
use gdev.Base.Names.{contains, without}
use gdev.Bootstrap.Step.{Step}
use gdev.Bootstrap.Plan.{
  Plan, new_plan, add_step, blocked_by, can_place, pick, resolve, try_resolve_all, ready, prepare,
  run_steps, run, sim, sim_steps,
}
use gdev.Bootstrap.Plan.Acyclic.{IsRanked, ready_of_IsRanked}
use gdev.Bootstrap.Plan.Build.{Op, add, build}
use gdev.Bootstrap.Plan.Execute.{Executed, run-Executed}

-- The state is the list of the steps that ran.
abbrev log_step : String → List String → Option String × List String
log_step name st = (none, st ++ name ∷ [])

abbrev update : Step (List String)
update = record { name = "update"; run = log_step "update"; sim = none; after = []; before = [] }

abbrev install : Step (List String)
install = record {
  name = "install";
  run = log_step "install";
  sim = none;
  after = "update" ∷ [];
  before = [];
}

abbrev calls : List (Op (List String))
calls = add install ∷ add update ∷ []

abbrev or_empty : Option (Plan (List String)) → Plan (List String)
or_empty none = new_plan
or_empty (some p) = p

abbrev two_steps : Plan (List String)
two_steps = record {
  by_name = ("install", install) ∷ ("update", update) ∷ [];
  ordered = [];
  pending = install ∷ update ∷ [];
}

-- The step that was added last runs first.
run-two_steps : (run two_steps []).1 ≡ "update" ∷ "install" ∷ []
unfolding build add_step prepare ready try_resolve_all resolve pick can_place blocked_by without
    contains lookup insert run run_steps sim sim_steps
run-two_steps = refl

abbrev rank_of : String → ℕ
rank_of name = if name == "install" then 2 else 1

install-IsRanked : IsRanked rank_of ("install" ∷ "update" ∷ []) install
install-IsRanked = record { after = ((inr (inl refl), ground arith), tt); before = tt }

update-IsRanked : IsRanked rank_of ("install" ∷ "update" ∷ []) update
update-IsRanked = record { after = tt; before = tt }

ready_of_IsRanked_example : ((ready two_steps).0 ≡ true) × ((ready two_steps).1.pending ≡ [])
ready_of_IsRanked_example =
    ready_of_IsRanked rank_of two_steps (install-IsRanked, (update-IsRanked, tt))

run-Executed_example : Executed (install ∷ update ∷ []) [] (run two_steps [])
unfolding build add_step prepare ready try_resolve_all resolve pick can_place blocked_by without
    contains lookup insert run run_steps sim sim_steps
run-Executed_example = run-Executed calls two_steps [] refl refl

abbrev untouched : List String
untouched = "x" ∷ []

abbrev no_steps : Plan (List String)
no_steps = new_plan

abbrev one_step : Plan (List String)
one_step = record { by_name = ("install", install) ∷ []; ordered = []; pending = install ∷ [] }

abbrev default_update : Dict (Step (List String))
default_update = ("update", update) ∷ []
