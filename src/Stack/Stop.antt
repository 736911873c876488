-- ===== src/Stack/Stop.antt =====
-- addons/stack/stop.go: the stop of services.
--
-- `stops` is what `Stop` of a resource returns. The errors of a parallel stop arrive in an order that
-- is not fixed: `arrival` rearranges them.
use gdev.Base.{
  String, ◌≡◌, refl, ap, Bool, true, false, not, ◌&&◌, Option, none, some, List, [], ◌∷◌, ◌++◌,
  if◌then◌else◌, arith,
}
use gdev.Base.Names.{contains}

-- A service with its `Resources`, which may come with an error.
pub record Service : Type 0 where
  pub name : String
  pub resources : List String
  pub err : Option String

pub record Options : Type 0 where
  pub include_infrastructure : Bool
  pub exclude : List String
  pub parallel : Bool

-- The resources that were stopped, in the order of the calls, and the errors.
pub record Outcome : Type 0 where
  pub stopped : List String
  pub errs : List String

abbrev pub reversed : List String → List String → List String
reversed [] acc = acc
reversed (x ∷ xs) acc = reversed xs (x ∷ acc)

abbrev pub err_list : Option String → List String
err_list none = []
err_list (some e) = e ∷ []

unfoldable pub collect : List Service → List String
collect [] = []
collect (s ∷ ss) = s.resources ++ collect ss

unfoldable pub collect_errs : List Service → List String
collect_errs [] = []
collect_errs (s ∷ ss) = err_list s.err ++ collect_errs ss

-- `slices.DeleteFunc` on the excluded services.
unfoldable pub included : List String → List Service → List Service
included exclude [] = []
included exclude (s ∷ ss) =
    let rest = included exclude ss in if contains exclude s.name then rest else s ∷ rest

module _ (stops : String → Option String) (arrival : List String → List String) where
  unfoldable pub stop_each : List String → Outcome
  stop_each [] = record { stopped = []; errs = [] }
  stop_each (r ∷ rs) =
      let rest = stop_each rs in
      record { stopped = r ∷ rest.stopped; errs = err_list (stops r) ++ rest.errs }

  -- `StopServices`.
  unfoldable pub stop_services : Bool → List Service → Outcome
  unfolding stop_each collect collect_errs
  stop_services parallel svcs =
      let o = stop_each (reversed (collect svcs) []) in
      record {
        stopped = o.stopped;
        errs = collect_errs svcs ++ (if parallel then arrival o.errs else o.errs);
      }

  abbrev is_nil : List String → Bool
  is_nil [] = true
  is_nil (x ∷ xs) = false

  -- `StackStop`: infrastructure last, and only if the services stopped without an error.
  unfoldable pub stack_stop : Options → List Service → List Service → Outcome
  unfolding stop_services included
  stack_stop opts svcs infra =
      let o = stop_services opts.parallel (included opts.exclude svcs) in
      if not (is_nil o.errs && opts.include_infrastructure)
      then o
      else let i = stop_services opts.parallel (included opts.exclude infra) in
        record { stopped = o.stopped ++ i.stopped; errs = i.errs }

  stop_each-stopped : (rs : List String) → (stop_each rs).stopped ≡ rs
  unfolding stop_each
  stop_each-stopped [] = refl
  stop_each-stopped (r ∷ rs) = ap (λ l. r ∷ l) (stop_each-stopped rs)

  -- A failure never keeps the others from being stopped: `StopServices` stops each resource of each
  -- service once, in the reverse of their order.
  pub stop_services-all :
      (parallel : Bool) (svcs : List Service)
      → (stop_services parallel svcs).stopped ≡ reversed (collect svcs) []
  unfolding stop_services
  stop_services-all parallel svcs = stop_each-stopped (reversed (collect svcs) [])

  -- `StackStop` without an error has stopped the included services, each resource once in the reverse
  -- of their order, and then, if it is asked to, the included infrastructure in the same way.
  pub stack_stop-all :
      (opts : Options) (svcs infra : List Service)
      → (stack_stop opts svcs infra).errs ≡ []
      → (stack_stop opts svcs infra).stopped ≡ (
          if opts.include_infrastructure
          then reversed (collect (included opts.exclude svcs)) []
            ++ reversed (collect (included opts.exclude infra)) []
          else reversed (collect (included opts.exclude svcs)) [])
  unfolding stop_services stack_stop
  stack_stop-all opts svcs infra e = ground (
    arith,
    stop_each-stopped (reversed (collect (included opts.exclude svcs)) []),
    stop_each-stopped (reversed (collect (included opts.exclude infra)) []),
  )
