-- ===== src/Stack/Start/Order.antt =====
-- addons/stack/start.go: what a start has done when it returns.
use mathlib.Core.List.{append-nil}
use gdev.Base.{
  ℕ, suc, ◌≡◌, refl, sym, ap, ◌∙◌, Bool, true, false, some, List, [], ◌∷◌, ◌++◌, map, if◌then◌else◌,
  arith, inl, inr, All, is_some, Option-cases, not, ◌&&◌, subst,
}
use gdev.Stack.Resources.{Resource, plain, anti, Context}
use gdev.Stack.Start.{
  Call, starting, stopping, Env, Service, stop_call, start_call, gather, start_resources,
  wait_resources, start_services,
}
use gdev.Stack.Start.Whole.{start_both}
use gdev.Stack.Start.Calls.{start_resources-Follows}
use gdev.Stack.Start.Wait.{
  Extends, base_of, WasReady, IsDue, wait_resources-ends, wait_resources-ready,
}

-- What it is to start a resource: an anti resource stops the one that it stands for.
abbrev pub begin_of : Resource → Call
begin_of (plain id) = starting id
begin_of (anti r) = stopping (base_of r)

stop_call-stops : (r : Resource) → stop_call r ≡ stopping (base_of r)
unfolding stop_call
stop_call-stops (plain id) = refl
stop_call-stops (anti r) = stop_call-stops r

start_calls-begin : (rs : List Resource) → map start_call rs ≡ map begin_of rs
unfolding start_call
start_calls-begin [] = refl
start_calls-begin (plain id ∷ rs) = ap (λ l. starting id ∷ l) (start_calls-begin rs)
start_calls-begin (anti r ∷ rs) =
    ap (λ k. k ∷ map start_call rs) (stop_call-stops r)
    ∙ ap (λ l. stopping (base_of r) ∷ l) (start_calls-begin rs)

module _ (fuel : ℕ) (env : Env) (c : Context) where
  -- A stage that ended without an error has started its resources, and waited for them if it should.
  record Stage (wait : Bool) (svcs : List Service) (log log' : List Call) : Type 0 where
    gathered : (gather c svcs).1 ≡ []
    mid : List Call
    all_started : start_resources env (gather c svcs).0 log ≡ ([], mid)
    waited :
        if wait then wait_resources env fuel (gather c svcs).0 mid ≡ some ([], log') else log' ≡ mid

  start_services-Stage :
      (infra : Bool) (svcs : List Service) (log log' : List Call)
      → start_services env fuel c infra svcs log ≡ some ([], log')
      → Stage (not infra && not c.no_service_wait) svcs log log'
  unfolding start_services
  start_services-Stage infra svcs log log' e = record {
    gathered = ground arith;
    mid = (start_resources env (gather c svcs).0 log).1;
    all_started = ground arith;
    waited = ground arith;
  }

  -- The starts of the resources of the services.
  abbrev starts : List Service → List Call
  starts svcs = map begin_of (gather c svcs).0

  Stage-starts :
      (wait : Bool) (svcs : List Service) (log log' : List Call)
      → (s : Stage wait svcs log log') → s.mid ≡ log ++ starts svcs
  Stage-starts wait svcs log log' s =
      let h = start_resources-Follows env (gather c svcs).0 log in
      sym (ap (λ o. o.1) s.all_started)
      ∙ (h.all (ap (λ o. o.0) s.all_started)
          ∙ ap (λ l. log ++ l) (start_calls-begin (gather c svcs).0))

  Stage-Extends :
      (wait : Bool) (svcs : List Service) (log log' : List Call)
      → Stage wait svcs log log'
      → Extends (log ++ starts svcs) log'
  Stage-Extends true svcs log log' s =
      rw (← Stage-starts true svcs log log' s)
        (wait_resources-ready env fuel (gather c svcs).0 s.mid log' s.waited).0
  Stage-Extends false svcs log log' s =
      rw (← Stage-starts false svcs log log' s) ([], s.waited ∙ sym (append-nil s.mid))

  Stage-quiet :
      (svcs : List Service) (log log' : List Call)
      → Stage false svcs log log'
      → log' ≡ log ++ starts svcs
  Stage-quiet svcs log log' s = s.waited ∙ Stage-starts false svcs log log' s

  Stage-ready :
      (svcs : List Service) (log log' : List Call)
      → Stage true svcs log log'
      → All (WasReady env log') (gather c svcs).0
  Stage-ready svcs log log' s =
      (wait_resources-ready env fuel (gather c svcs).0 s.mid log' s.waited).1

  -- What the two stages have done when they return no error.
  pub record IsComplete (infra svcs : List Service) (log : List Call) : Type 0 where
    -- Every service gave its resources without an error.
    pub infra_gathered : (gather c infra).1 ≡ []
    pub gathered : (gather c svcs).1 ≡ []
    -- All infrastructure was started before the first service, each resource once and in order, and
    -- before the wait.
    pub in_order : Extends (starts infra ++ starts svcs) log
    -- Each resource of the services was found ready, if the start waits for that.
    pub ready : c.no_service_wait ≡ false → All (WasReady env log) (gather c svcs).0
    pub unchecked : c.no_service_wait ≡ true → log ≡ starts infra ++ starts svcs

  both-stages :
      (infra svcs : List Service) (log : List Call)
      → start_both fuel env c infra svcs [] ≡ some ([], log)
      → (mid : List Call) × ((start_services env fuel c true infra [] ≡ some ([], mid))
          × (start_services env fuel c false svcs mid ≡ some ([], log)))
  unfolding start_both
  both-stages infra svcs log e = elim (Option-cases (start_services env fuel c true infra [])) [
    | inl x ↦ absurd (ground (arith, x))
    | inr (([], mid), x) ↦ (mid, (x, ground (arith, x)))
    | inr ((q ∷ qs, mid), x) ↦ absurd (ground (arith, x))
  ]

  pub start_both-IsComplete :
      (infra svcs : List Service) (log : List Call)
      → start_both fuel env c infra svcs [] ≡ some ([], log)
      → IsComplete infra svcs log
  start_both-IsComplete infra svcs log e =
      let (mid, (x, y)) = both-stages infra svcs log e in
      let a = start_services-Stage true infra [] mid x in
      let b = start_services-Stage false svcs mid log y in
      let m : mid ≡ starts infra = Stage-quiet infra [] mid a in
      record {
        infra_gathered = a.gathered;
        gathered = b.gathered;
        in_order = subst (λ k. Extends (k ++ starts svcs) log) m (Stage-Extends _ svcs mid log b);
        ready = λ w. Stage-ready svcs mid log (subst (λ q. Stage (not q) svcs mid log) w b);
        unchecked = λ w.
            subst (λ k. log ≡ k ++ starts svcs) m
              (Stage-quiet svcs mid log (subst (λ q. Stage (not q) svcs mid log) w b));
      }

module _ (n : ℕ) (env : Env) (c : Context) (due : IsDue env n) where
  start_services-ends :
      (infra : Bool) (svcs : List Service) (log : List Call)
      → is_some (start_services env (suc n) c infra svcs log) ≡ true
  unfolding start_services
  start_services-ends infra svcs log = ground (
    arith,
    wait_resources-ends env n (gather c svcs).0 (start_resources env (gather c svcs).0 log).1 due,
  )

  pub start_both-ends :
      (infra svcs : List Service) (log : List Call)
      → is_some (start_both (suc n) env c infra svcs log) ≡ true
  unfolding start_both
  start_both-ends infra svcs log =
      elim (Option-cases (start_services env (suc n) c true infra log)) [
        | inl x ↦ absurd (ground (arith, x, start_services-ends true infra log))
        | inr (o, x) ↦ ground (arith, x, start_services-ends false svcs o.1)
      ]
