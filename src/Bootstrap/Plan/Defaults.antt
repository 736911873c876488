-- ===== src/Bootstrap/Plan/Defaults.antt =====
-- addons/bootstrap/plan.go: the default steps that the steps of a plan refer to.
--
-- `factories` is `defaultStepFactories`: the step that each name's function makes.
use gdev.Base.{
  ℕ, zero, suc, String, ◌≡◌, Bool, true, false, Option, none, some, List, [], ◌∷◌, ◌++◌, is_some,
  if◌then◌else◌, All, ◌⊎◌,
}
use gdev.Base.Dict.{Dict, lookup, insert}
use gdev.Bootstrap.Step.{Step}
use gdev.Bootstrap.Plan.{Plan, add_step}

pub data Filled (S : Type 0) : Type 0 where
  filled : Plan S → Filled S
  panicked : Filled S
  no_fuel : Filled S

-- `WithDefaultStepFactory`, before the addon is initialized.
unfoldable pub with_default_step_factory :
    {S : Type 0} → String → Step S → Dict (Step S) → Option (Dict (Step S))
with_default_step_factory name s factories =
    if is_some (lookup name factories) then none else some (insert name s factories)

module _ {S : Type 0} (factories : Dict (Step S)) where
  abbrev pub changed : Option (Bool × Plan S) → Option (Bool × Plan S)
  changed none = none
  changed (some (b, p)) = some (true, p)

  -- `fill`, on the names of several steps one after the other; `none` is a panic.
  unfoldable pub fill : List String → Plan S → Option (Bool × Plan S)
  fill [] p = some (false, p)
  fill (n ∷ ns) p = if is_some (lookup n p.by_name) then fill ns p else elim (lookup n factories) [
    | none ↦ fill ns p
    | some s ↦ elim (add_step s p) [ none ↦ none | some p' ↦ changed (fill ns p') ]
  ]

  abbrev befores : List (Step S) → List String
  befores [] = []
  befores (s ∷ ss) = s.before ++ befores ss

  abbrev both_names : List (Step S) → List String
  both_names [] = []
  both_names (s ∷ ss) = s.before ++ (s.after ++ both_names ss)

  -- The names that one turn of the loop looks at.
  abbrev pub wanted : Plan S → List String
  wanted p = befores p.ordered ++ both_names p.pending

  -- `AddDefaultSteps`.
  unfoldable pub add_default_steps : ℕ → Plan S → Filled S
  unfolding fill
  add_default_steps zero p = no_fuel
  add_default_steps (suc fuel) p = elim (fill (wanted p) p) [
    | none ↦ panicked
    | some (again, p') ↦ let rest = add_default_steps fuel p' in if again then rest else filled p'
  ]

  -- A name that is that of a step of the plan, or of none that could be added.
  abbrev pub IsKnown : Plan S → String → Type 0
  IsKnown p n = (is_some (lookup n p.by_name) ≡ true) ⊎ (lookup n factories ≡ none)

  -- How many defaults are not in the plan.
  abbrev absent : Dict (Step S) → Plan S → ℕ
  absent [] p = 0
  absent ((k, s) ∷ fs) p =
      let rest = absent fs p in if is_some (lookup k p.by_name) then rest else suc rest

  -- What the constraints of the steps refer to: both kinds of those that are not ordered yet, and the
  -- later steps of those that are.
  pub record IsClosed (p : Plan S) : Type 0 where
    pub ordered_before : All (λ (s : Step S). All (IsKnown p) s.before) p.ordered
    pub pending_before : All (λ (s : Step S). All (IsKnown p) s.before) p.pending
    pub pending_after : All (λ (s : Step S). All (IsKnown p) s.after) p.pending
