-- ===== src/Bootstrap/Plan.antt =====
-- addons/bootstrap/plan.go: the plan of steps, its ordering and its execution.
--
-- `none` is a Go panic. The sets `before` and `after` and the map `byName` are lists: the code ranges
-- over them only to collect, and to fill in defaults, where the order of a map is not fixed.
pub mod Order
pub mod Ready
pub mod Acyclic
pub mod Build
pub mod Execute
pub mod Defaults
use gdev.Base.{
  ℕ, zero, suc, String, Bool, true, false, not, ◌&&◌, ◌||◌, Option, none, some, List, [], ◌∷◌, ◌++◌,
  map, is_some, if◌then◌else◌, length,
}
use gdev.Base.Dict.{Dict, lookup, insert}
use gdev.Base.Names.{contains, without}
use gdev.Bootstrap.Step.{Step, Action}

pub record Plan (S : Type 0) : Type 0 where
  pub by_name : Dict (Step S)
  pub ordered : List (Step S)
  pub pending : List (Step S)

-- `unresolved` names the steps that block the plan.
pub data PlanError : Type 0 where
  unresolved : List String → PlanError
  no_actions : PlanError
  step_failed : String → PlanError

abbrev pub failure : Option String → Option PlanError
failure none = none
failure (some e) = some (step_failed e)

abbrev pub is_nil {ℓ} : {A : Type ℓ} → List A → Bool
is_nil [] = true
is_nil (x ∷ xs) = false

module _ {S : Type 0} where
  abbrev pub new_plan : Plan S
  new_plan = record { by_name = []; ordered = []; pending = [] }

  abbrev pub names : List (Step S) → List String
  names = map (λ s. s.name)

  -- `AddSteps`, for one step and for several.
  unfoldable pub add_step : Step S → Plan S → Option (Plan S)
  add_step s p =
      if is_some (lookup s.name p.by_name) || (not (is_nil s.before) && not (is_nil p.ordered))
      then none
      else some (record p { by_name = insert s.name s p.by_name; pending = p.pending ++ s ∷ [] })

  unfoldable pub add_steps : List (Step S) → Plan S → Option (Plan S)
  unfolding add_step
  add_steps [] p = some p
  add_steps (s ∷ ss) p = elim (add_step s p) [ none ↦ none | some p' ↦ add_steps ss p' ]

  -- Some step of the list wants to run before the step `n`.
  unfoldable pub blocked_by : List (Step S) → String → Bool
  blocked_by [] n = false
  blocked_by (s ∷ ss) n = contains s.before n || blocked_by ss n

  -- The test of `resolveOne`.
  unfoldable pub can_place : List (Step S) → List (Step S) → Step S → Bool
  unfolding blocked_by
  can_place ordered pending s =
      is_nil (without s.after (names ordered)) && not (blocked_by pending s.name)

  -- The scan of `tryResolveAll`: the first step that can be placed, and the others.
  abbrev pub pick_step :
      Step S
      → List (Step S)
      → Bool
      → Option (Step S × List (Step S))
      → Option (Step S × List (Step S))
  pick_step s ss true later = some (s, ss)
  pick_step s ss false none = none
  pick_step s ss false (some (t, rest)) = some (t, s ∷ rest)

  unfoldable pub pick :
      List (Step S) → List (Step S) → List (Step S) → Option (Step S × List (Step S))
  unfolding can_place
  pick ordered pending [] = none
  pick ordered pending (s ∷ ss) =
      pick_step s ss (can_place ordered pending s) (pick ordered pending ss)

  -- `tryResolveAll`, with fuel: each round but the last takes one step out of `pending`.
  unfoldable pub resolve : ℕ → List (Step S) → List (Step S) → List (Step S) × List (Step S)
  unfolding pick
  resolve zero ordered pending = (ordered, pending)
  resolve (suc fuel) ordered pending = elim (pick ordered pending pending) [
    | none ↦ (ordered, pending)
    | some (s, rest) ↦ resolve fuel (ordered ++ s ∷ []) rest
  ]

  unfoldable pub try_resolve_all : Plan S → Plan S
  unfolding resolve
  try_resolve_all p =
      let (o, q) = resolve (length p.pending) p.ordered p.pending in
      record p { ordered = o; pending = q }

  -- `Ready`.
  unfoldable pub ready : Plan S → Bool × Plan S
  unfolding try_resolve_all
  ready p = let p' = try_resolve_all p in (is_nil p'.pending, p')

  -- `prepare`: the steps to execute, or why there are none.
  unfoldable pub prepare : Plan S → Option PlanError × Plan S
  unfolding ready
  prepare p =
      let (ok, p') = ready p in
      if not ok
      then (some (unresolved (names p'.pending)), p')
      else if is_nil p'.ordered
      then (some no_actions, p')
      else (none, p')

  -- The loops of `Run` and `Sim` over the ordered steps.
  unfoldable pub run_steps : List (Step S) → S → Option String × S
  run_steps [] st = (none, st)
  run_steps (s ∷ ss) st =
      let (r, st') = s.run st in elim r [ some e ↦ (some e, st') | none ↦ run_steps ss st' ]

  unfoldable pub sim_steps : List (Step S) → S → Option String × S
  sim_steps [] st = (none, st)
  sim_steps (s ∷ ss) st = elim s.sim [
    | none ↦ sim_steps ss st
    | some f ↦ let (r, st') = f st in elim r [ some e ↦ (some e, st') | none ↦ sim_steps ss st' ]
  ]

  -- `Run` and `Sim`.
  abbrev execute :
      (List (Step S) → S → Option String × S) → Plan S → S → Option PlanError × S × Plan S
  execute steps p st =
      let (r, p') = prepare p in
      elim r [
        | some e ↦ (some e, st, p')
        | none ↦ let (x, st') = steps p'.ordered st in (failure x, st', p')
      ]

  unfoldable pub run : Plan S → S → Option PlanError × S × Plan S
  unfolding prepare run_steps
  run p st = execute run_steps p st

  unfoldable pub sim : Plan S → S → Option PlanError × S × Plan S
  unfolding prepare sim_steps
  sim p st = execute sim_steps p st
