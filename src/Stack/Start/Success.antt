-- ===== src/Stack/Start/Success.antt =====
-- addons/stack/start.go: the start with its options, contexts and hooks, and that it returns.
use gdev.Base.{
  ℕ, suc, ◌≡◌, ap, ◌∷◌, sym, ◌∙◌, true, Option, none, some, List, [], arith, ◌⊎◌, inl, inr, is_some,
  Option-cases, ◌≢◌, Sum-cases,
}
use gdev.Stack.Resources.{Context, ContextOption, new_context}
use gdev.Stack.Start.{Call, Service, Outcome}
use gdev.Stack.Start.Whole.{
  start_both, Setup, start, StartOption, service_option, resource_option, other, returned, waiting,
  Started, sort_options, started,
}
use gdev.Stack.Start.Hooks.{pre_start}
use gdev.Stack.Context.{ResourceOption, new_resource_context}
use gdev.Stack.Start.Ran.{HooksRan}
use gdev.Stack.Start.Wait.{IsDue}
use gdev.Stack.Start.Order.{IsComplete, start_both-ends}

not-waiting : (o : Option Outcome) → is_some o ≡ true → started o ≢ waiting
not-waiting none h e = cc
not-waiting (some o) h e = absurd (ground arith)

module _ {V : Type 0} where
  -- The options of the services among those of a start.
  abbrev pub service_options : List (StartOption V) → List ContextOption
  service_options [] = []
  service_options (service_option x ∷ os) = x ∷ service_options os
  service_options (resource_option x ∷ os) = service_options os
  service_options (other t ∷ os) = service_options os

  sort_options-services :
      (opts : List (StartOption V)) (svc : List ContextOption) (rc : List (ResourceOption V))
      → sort_options opts ≡ inr (svc, rc)
      → svc ≡ service_options opts
  sort_options-services [] svc rc e = ground (arith, e)
  sort_options-services (service_option o ∷ os) svc rc e = elim (Sum-cases (sort_options os)) [
    | inl (t, x) ↦ absurd (ground (arith, x, e))
    | inr ((svc', rc'), x) ↦ ground (arith, x, e, sort_options-services os svc' rc' x)
  ]
  sort_options-services (resource_option o ∷ os) svc rc e = elim (Sum-cases (sort_options os)) [
    | inl (t, x) ↦ absurd (ground (arith, x, e))
    | inr ((svc', rc'), x) ↦ ground (arith, x, e, sort_options-services os svc' rc' x)
  ]
  sort_options-services (other t ∷ os) svc rc e = elim (Sum-cases (sort_options os)) [
    | inl (u, x) ↦ absurd (ground (arith, x, e))
    | inr (both, x) ↦ absurd (ground (arith, x, e))
  ]

module _ {V S : Type 0} (fuel : ℕ) (w : Setup V S) where
  -- What a start without an error has done: the hooks have run first, and the services are seen with the
  -- options of the start.
  pub record Succeeded (opts : List (StartOption V)) (s : S) (log : List Call) : Type 0 where
    pub state : S
    pub infra : List Service
    pub svcs : List Service
    pub prepared : HooksRan w.infra_of w.services_of w.hooks s infra svcs state
    pub complete : IsComplete fuel (w.env state) (new_context (service_options opts)) infra svcs log

  -- The stages are reached, or the start ends before them without a wait.
  abbrev Reached : List (StartOption V) → S → Started → Type 0
  Reached opts s o =
      (context : Context) × (context ≡ new_context (service_options opts))
      × ((state : S) × ((infra : List Service) × ((svcs : List Service) × ((pre_start w.infra_of
                    w.services_of w.hooks s
                  ≡ ((none, (infra, svcs)), state))
                × (o ≡ started (start_both fuel (w.env state) context infra svcs []))))))

  abbrev EndsEarly : Started → Type 0
  EndsEarly o = (o ≢ waiting) × ((log : List Call) → o ≢ returned [] log)

  start-cases :
      (opts : List (StartOption V)) (s : S)
      → EndsEarly (start fuel w opts s) ⊎ Reached opts s (start fuel w opts s)
  unfolding start
  start-cases opts s = elim (Sum-cases (sort_options opts)) [
    | inl (t, x) ↦ inl (λ e. ground (arith, x), λ log e. ground (arith, x))
    | inr ((svc, rc), x) ↦ elim (Option-cases (new_resource_context w.registered rc)) [
      | inl y ↦ inl (λ e. ground (arith, x, y), λ log e. ground (arith, x, y))
      | inr (inl t, y) ↦ inl (λ e. ground (arith, x, y), λ log e. ground (arith, x, y))
      | inr (inr c, y) ↦ elim (Option-cases (pre_start w.infra_of w.services_of w.hooks s).0.0) [
        | inl z ↦
            let o = pre_start w.infra_of w.services_of w.hooks s in
            inr (
              new_context svc,
              ap new_context (sort_options-services opts svc rc x),
              (o.1, (o.0.1.0, (o.0.1.1, (ground (arith, z), ground (arith, x, y, z))))),
            )
        | inr (t, z) ↦ inl (λ e. ground (arith, x, y, z), λ log e. ground (arith, x, y, z))
      ]
    ]
  ]

  -- With a limit on the calls after which the context is done, Start returns or panics: no wait goes on.
  pub start-ends :
      (n : ℕ) (opts : List (StartOption V)) (s : S)
      → fuel ≡ suc n
      → ((s' : S) → IsDue (w.env s') n)
      → start fuel w opts s ≢ waiting
  unfolding start
  start-ends n opts s f due e = elim (start-cases opts s) [
    | inl h ↦ h.0 e
    | inr (c, _, (st, (infra, (svcs, (p, o))))) ↦
        let q : is_some (start_both fuel (w.env st) c infra svcs []) ≡ true =
          rw f (start_both-ends n (w.env st) c (due st) infra svcs []) in
        not-waiting _ q (sym o ∙ e)
  ]
