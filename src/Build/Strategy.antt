-- ===== src/Build/Strategy.antt =====
-- addons/build/addon.go and strategy.go: the order of the strategies, and the detection of one.
--
-- `sort` is `slices.Sort`. A detector is a parameter of its strategy: an error, no builder, or a
-- builder of type `B`.
use gdev.Base.{
  ℕ, zero, suc, String, Option, none, some, List, [], ◌∷◌, ◌++◌, map, if◌then◌else◌, length,
}
use gdev.Base.Dict.{Dict, lookup}
use gdev.Base.Names.{contains}

pub data Detected (B : Type 0) : Type 0 where
  failed : String → Detected B
  nothing : Detected B
  builder : B → Detected B

pub record Strategy (B : Type 0) : Type 0 where
  pub detector : String → Detected B
  pub supersedes : List String

-- How a visit ends: with the names seen and the order so far, at a cycle, or without fuel.
pub record State : Type 0 where
  pub seen : List String
  pub order : List String

pub data Visit : Type 0 where
  ok : State → Visit
  cycle : List String → Visit
  no_fuel : Visit

-- Goes on unless a visit has failed.
abbrev pub after_visit : (State → Visit) → Visit → Visit
after_visit next (ok st) = next st
after_visit next (cycle p) = cycle p
after_visit next no_fuel = no_fuel

-- The loop over the names that supersede one.
unfoldable pub visit_list :
    (String → List String → State → Visit) → List String → List String → State → Visit
visit_list visit [] path st = ok st
visit_list visit (n ∷ ns) path st = after_visit (visit_list visit ns path) (visit n path st)

-- Appends a name when its visit ends.
abbrev pub placed : String → Visit → Visit
placed name (ok st) = ok (record st { order = st.order ++ name ∷ [] })
placed name (cycle p) = cycle p
placed name no_fuel = no_fuel

-- `visit`. The fuel bounds the length of the path.
unfoldable pub visit : (String → List String) → ℕ → String → List String → State → Visit
unfolding visit_list
visit sup zero name path st = no_fuel
visit sup (suc fuel) name path st =
    let rest =
      visit_list (visit sup fuel) (sup name) (path ++ name ∷ [])
        (record st { seen = name ∷ st.seen }) in
    if contains path name
    then cycle (path ++ name ∷ [])
    else if contains st.seen name
    then ok st
    else placed name rest

module _ {B : Type 0} where
  -- The names of the strategies that supersede `name`.
  unfoldable pub superseded_by : Dict (Strategy B) → String → List String
  superseded_by [] name = []
  superseded_by ((n, s) ∷ ss) name =
      let rest = superseded_by ss name in if contains s.supersedes name then n ∷ rest else rest

  -- `resolveStrategyOrder`. A path has each strategy once, so the fuel is enough.
  unfoldable pub resolve_strategy_order : (List String → List String) → Dict (Strategy B) → Visit
  unfolding visit superseded_by
  resolve_strategy_order sort ss =
      visit_list (visit (λ n. sort (superseded_by ss n)) (suc (length ss)))
        (sort (map (λ s. s.0) ss)) [] (record { seen = []; order = [] })

  -- `DetectStrategy`: a detector of a missing strategy would be a panic, the outer `none`.
  unfoldable pub detect_strategy :
      List String → Dict (Strategy B) → String → Option (Detected (String × B))
  detect_strategy [] ss root = some nothing
  detect_strategy (n ∷ ns) ss root =
      let rest = detect_strategy ns ss root in
      elim (lookup n ss) [
        | none ↦ none
        | some s ↦ elim (s.detector root) [
          | failed e ↦ some (failed e)
          | builder b ↦ some (builder (n, b))
          | nothing ↦ rest
        ]
      ]

  -- `TryStrategy`.
  unfoldable pub try_strategy : String → Dict (Strategy B) → String → Detected B
  try_strategy root ss name = elim (lookup name ss) [
    | none ↦ failed "unknown strategy"
    | some s ↦ s.detector root
  ]
