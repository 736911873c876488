-- ===== src/Bootstrap/Step.antt =====
-- addons/bootstrap/step.go: a step of the plan and the options that build it.
use gdev.Base.{String, Bool, true, false, Option, none, some, List, [], ◌∷◌, ◌++◌}

-- A step function changes the bootstrap context and may fail.
abbrev pub Action : Type 0 → Type 0
Action S = S → Option String × S

pub record Step (S : Type 0) : Type 0 where
  pub name : String
  pub run : Action S
  pub sim : Option (Action S)
  pub after : List String
  pub before : List String

abbrev pub StepOpt : Type 0 → Type 0
StepOpt S = Step S → Step S

module _ {S : Type 0} where
  unfoldable pub apply_opts : List (StepOpt S) → Step S → Step S
  apply_opts [] s = s
  apply_opts (o ∷ os) s = apply_opts os (o s)

  unfoldable pub new_step : String → Action S → List (StepOpt S) → Step S
  unfolding apply_opts
  new_step name run opts =
      apply_opts opts (record { name = name; run = run; sim = none; after = []; before = [] })

  unfoldable pub sim_func : Action S → StepOpt S
  sim_func f s = record s { sim = some f }

  unfoldable pub before_steps : List String → StepOpt S
  before_steps names s = record s { before = s.before ++ names }

  unfoldable pub after_steps : List String → StepOpt S
  after_steps names s = record s { after = s.after ++ names }

  -- The skip test runs first: its error or a skip ends the action.
  abbrev pub skipping : (S → (Option String × Bool) × S) → Action S → Action S
  skipping f orig s =
      let (r, s') = f s in
      elim r.0 [
        | some err ↦ (some err, s')
        | none ↦ elim r.1 [ true ↦ (none, s') | false ↦ orig s' ]
      ]

  abbrev pub no_action : Action S
  no_action s = (none, s)

  unfoldable pub skip_func : (S → (Option String × Bool) × S) → StepOpt S
  skip_func f s = record s {
    run = skipping f s.run;
    sim = some (skipping f (elim s.sim [ none ↦ no_action | some g ↦ g ]));
  }
