-- ===== src/Build/Services.antt =====
-- addons/build/services.go: the builds of services.
--
-- Parameters: `clean` is `filepath.Clean`, `detect` is `DetectStrategy`, and `runs` is what a call
-- of a builder returns.
use gdev.Base.{
  ℕ, suc, ◌+◌, length-append, String, ◌≡◌, Bool, true, false, ◌||◌, Option, none, some, List, [],
  ◌∷◌, ◌++◌, length, if◌then◌else◌, arith, get_elem?, set, inl, inr, Option-cases,
}
use gdev.Base.Dict.{Dict, lookup}
use gdev.Base.Names.{contains}
use gdev.Build.Strategy.{Detected, failed, nothing, builder}

-- A service with its `LocalSource`: the root and the directory in it, or an error.
pub record Service : Type 0 where
  pub name : String
  pub source : Option (String × String)

-- A call of a builder.
pub data Call (B : Type 0) : Type 0 where
  build_all : B → Call B
  build_dirs : B → List String → Call B

-- `builders` and `subdirs`, which go together.
pub record Group (B : Type 0) : Type 0 where
  pub tool : B
  pub dirs : List String

module _ {B : Type 0} (clean : String → String) (detect : String → Detected (String × B)) where
  abbrev pub add_dir : String → Option (Group B) → List (Group B) → ℕ → List (Group B)
  add_dir dir none gs i = gs
  add_dir dir (some g) gs i = set gs i (record g { dirs = g.dirs ++ dir ∷ [] })

  -- What becomes of the groups for one service, where `root2idx` is the index of the roots; `none` is
  -- an error.
  unfoldable pub group_service : Dict ℕ → Service → List (Group B) → Option (List (Group B))
  group_service root2idx svc gs = elim svc.source [
    | none ↦ none
    | some (root, dir) ↦ elim (lookup (clean root) root2idx) [
      | some i ↦ some (add_dir (clean dir) (get_elem? gs i) gs i)
      | none ↦ elim (detect (clean root)) [
        | failed e ↦ none
        | nothing ↦ none
        | builder (n, b) ↦ some (gs ++ record { tool = b; dirs = clean dir ∷ [] } ∷ [])
      ]
    ]
  ]

  -- The loop over the services. No statement of it writes to `root2idx`.
  unfoldable pub group_services : Dict ℕ → List Service → List (Group B) → Option (List (Group B))
  unfolding group_service
  group_services root2idx [] gs = some gs
  group_services root2idx (svc ∷ svcs) gs = elim (group_service root2idx svc gs) [
    | none ↦ none
    | some gs' ↦ group_services root2idx svcs gs'
  ]

  abbrev pub is_nil : List String → Bool
  is_nil [] = true
  is_nil (x ∷ xs) = false

  abbrev pub call_of : Group B → Call B
  call_of g =
      if is_nil g.dirs || contains g.dirs "." then build_all g.tool else build_dirs g.tool g.dirs

  module _ (runs : Call B → Option String) where
    -- The loop over the builders: the calls made, and the first error.
    unfoldable pub run_builders : List (Group B) → List (Call B) × Option String
    run_builders [] = ([], none)
    run_builders (g ∷ gs) =
        let rest = run_builders gs in
        elim (runs (call_of g)) [
          | some e ↦ (call_of g ∷ [], some e)
          | none ↦ (call_of g ∷ rest.0, rest.1)
        ]

    -- `Services`.
    unfoldable pub services : List Service → Option (List (Call B) × Option String)
    unfolding group_services run_builders
    services svcs = elim (group_services [] svcs []) [
      | none ↦ none
      | some gs ↦ some (run_builders gs)
    ]

  group_service-length :
      (svc : Service) (gs gs' : List (Group B))
      → group_service [] svc gs ≡ some gs'
      → length gs' ≡ suc (length gs)
  unfolding group_service lookup
  group_service-length svc gs gs' e = grind (arith, length-append)

  group_services-length :
      (svcs : List Service) (gs gs' : List (Group B))
      → group_services [] svcs gs ≡ some gs'
      → length gs' ≡ length svcs + length gs
  unfolding group_services
  group_services-length [] gs gs' e = ground arith
  group_services-length (svc ∷ svcs) gs gs' e = elim (Option-cases (group_service [] svc gs)) [
    | inl x ↦ absurd (cc (rw (x, group_services) at e))
    | inr (mid, x) ↦ omega (
      arith,
      group_service-length svc gs mid x,
      group_services-length svcs mid gs' (rw (x, group_services) at e),
    )
  ]

  -- `Services` makes as many groups as there are services: however many of them share a root, none
  -- is put together with another.
  pub services-not_grouped :
      (svcs : List Service) (gs : List (Group B))
      → group_services [] svcs [] ≡ some gs
      → length gs ≡ length svcs
  services-not_grouped svcs gs e = omega (arith, group_services-length svcs [] gs e)
