-- ===== src/Bootstrap/Plan/Build.antt =====
-- addons/bootstrap/plan.go: plans that are built by `AddSteps` and `Ready`.
use mathlib.Core.List.{Perm, append-nil, append_assoc}
use mathlib.Core.List.Perm
use mathlib.Core.Option.{some-injective}
use gdev.Base.{
  ◌≡◌, sym, true, false, ◌||◌, Option, none, some, List, [], ◌∷◌, ◌++◌, arith, All, All-append,
  All-In, In, inl, inr, Option-cases, Bool-cases, subst, is_some,
}
use gdev.Base.Dict.{lookup, insert}
use gdev.Bootstrap.Step.{Step}
use gdev.Bootstrap.Plan.{Plan, new_plan, names, add_step, ready, is_nil}
use gdev.Bootstrap.Plan.Order.{IsOrdered, BeforeAll, is_nil-eq}
use gdev.Bootstrap.Plan.Ready.{ready-IsOrdered}

pub data Op (S : Type 0) : Type 0 where
  add : Step S → Op S
  order : Op S

module _ {S : Type 0} where
  abbrev pub apply_op : Op S → Plan S → Option (Plan S)
  apply_op (add s) p = add_step s p
  apply_op order p = some (ready p).1

  -- A sequence of calls; `none` if one of them panics.
  unfoldable pub build : List (Op S) → Plan S → Option (Plan S)
  build [] p = some p
  build (o ∷ os) p = elim (apply_op o p) [ none ↦ none | some p' ↦ build os p' ]

  BeforeAll-new :
      (s : Step S) (o : List (Step S))
      → (is_nil s.before || is_nil o) ≡ true
      → BeforeAll (names o) s
  BeforeAll-new s o h = elim (Bool-cases (is_nil s.before)) [
    | inl x ↦ subst (All (λ n. ¬ In n (names o))) (sym (is_nil-eq s.before x)) tt
    | inr x ↦
        let e : o ≡ [] = is_nil-eq o (ground arith) in
        rw e (All-In (λ n. ¬ In n []) s.before (λ n m k. k))
  ]

  -- The steps that the calls add, in their order.
  abbrev pub added : List (Op S) → List (Step S)
  added [] = []
  added (add s ∷ os) = s ∷ added os
  added (order ∷ os) = added os

  -- The constraints hold so far, and the plan has exactly the steps that were added.
  pub record IsBuilt (p : Plan S) (steps : List (Step S)) : Type 0 where
    pub ordered : IsOrdered p.ordered p.pending
    pub same : Perm (p.ordered ++ p.pending) steps

  -- What `add_step` checks and does when it does not panic.
  record Added (s : Step S) (p p' : Plan S) : Type 0 where
    fresh : is_some (lookup s.name p.by_name) ≡ false
    allowed : (is_nil s.before || is_nil p.ordered) ≡ true
    result : p' ≡ record p { by_name = insert s.name s p.by_name; pending = p.pending ++ s ∷ [] }

  add_step-Added : (s : Step S) (p p' : Plan S) → add_step s p ≡ some p' → Added s p p'
  unfolding add_step
  add_step-Added s p p' e = record {
    fresh = ground arith;
    allowed = ground arith;
    result = ground arith;
  }

  add-IsBuilt :
      (s : Step S) (p p' : Plan S) (steps : List (Step S))
      → IsBuilt p steps
      → add_step s p ≡ some p'
      → IsBuilt p' (steps ++ s ∷ [])
  add-IsBuilt s p p' steps h e =
      let a = add_step-Added s p p' e in
      rw a.result (record {
        ordered = record {
          after = h.ordered.after;
          before = h.ordered.before;
          free =
              All-append _ p.pending (s ∷ []) h.ordered.free
                (BeforeAll-new s p.ordered a.allowed, tt);
        };
        same = rw (← append_assoc p.ordered p.pending (s ∷ [])) (Perm.append_right _ h.same);
      })

  pub ready-IsBuilt :
      (p : Plan S) (steps : List (Step S)) → IsBuilt p steps → IsBuilt (ready p).1 steps
  ready-IsBuilt p steps h =
      let r = ready-IsOrdered p h.ordered in record { ordered = r.0; same = Perm.trans r.1 h.same }

  build-IsBuilt_from :
      (os : List (Op S)) (p p' : Plan S) (steps : List (Step S))
      → IsBuilt p steps
      → build os p ≡ some p'
      → IsBuilt p' (steps ++ added os)
  unfolding build
  build-IsBuilt_from [] p p' steps h e =
      subst (λ q. IsBuilt q (steps ++ [])) (some-injective _ _ e)
        (subst (IsBuilt p) (sym (append-nil steps)) h)
  build-IsBuilt_from (add s ∷ os) p p' steps h e = elim (Option-cases (add_step s p)) [
    | inl x ↦ absurd (cc (rw (x, build) at e))
    | inr (q, x) ↦ rw (← append_assoc steps (s ∷ []) (added os)) (
        build-IsBuilt_from os q p' (steps ++ s ∷ []) (add-IsBuilt s p q steps h x)
          (rw (x, build) at e))
  ]
  build-IsBuilt_from (order ∷ os) p p' steps h e =
      build-IsBuilt_from os (ready p).1 p' steps (ready-IsBuilt p steps h) e

  -- A plan that calls of `AddSteps` and `Ready` build from the empty plan without a panic satisfies
  -- the ordering constraints, and has exactly the added steps.
  pub build-IsBuilt :
      (os : List (Op S)) (p : Plan S) → build os new_plan ≡ some p → IsBuilt p (added os)
  build-IsBuilt os p e =
      build-IsBuilt_from os new_plan p []
        (record { ordered = record { after = tt; before = tt; free = tt }; same = Perm.rfl }) e
