-- ===== src/Bootstrap/Plan/Execute.antt =====
-- addons/bootstrap/plan.go: what `Run` executes.
use mathlib.Core.List.{Perm, append-nil}
use mathlib.Core.List.Perm
use gdev.Base.{
  String, ◌≡◌, refl, ap, sym, true, Option, none, some, List, [], ◌∷◌, ◌++◌, arith, inl, inr,
  Option-cases, subst,
}
use gdev.Bootstrap.Step.{Step}
use gdev.Bootstrap.Plan.{Plan, PlanError, failure, new_plan, ready, prepare, run_steps, run, sim}
use gdev.Bootstrap.Plan.Order.{AfterAll, BeforeAll, Chain, is_nil-eq}
use gdev.Bootstrap.Plan.Build.{Op, build, added, IsBuilt, build-IsBuilt, ready-IsBuilt}
use gdev.Bootstrap.Plan.Ready.{ready-IsOrdered}

-- The steps run one after the other, each without an error.
pub data Ran {S : Type 0} : List (Step S) → S → S → Type 0 where
  done : {st : S} → Ran [] st st
  next :
      {s : Step S} {ss : List (Step S)} {st mid end_ : S}
      → s.run st ≡ (none, mid)
      → Ran ss mid end_
      → Ran (s ∷ ss) st end_

failure-none : (e : Option String) → failure e ≡ none → e ≡ none
failure-none none h = refl
failure-none (some e) h = cc

module _ {S : Type 0} where
  run_steps-next :
      (s : Step S) (ss : List (Step S)) (st : S)
      → (s.run st).0 ≡ none
      → run_steps (s ∷ ss) st ≡ run_steps ss (s.run st).1
  unfolding run_steps
  run_steps-next s ss st e = ground arith

  run_steps-stop :
      (s : Step S) (ss : List (Step S)) (st : S) (err : String)
      → (s.run st).0 ≡ some err
      → run_steps (s ∷ ss) st ≡ (some err, (s.run st).1)
  unfolding run_steps
  run_steps-stop s ss st err e = ground arith

  run_steps-Ran :
      (ss : List (Step S)) (st : S) → (run_steps ss st).0 ≡ none → Ran ss st (run_steps ss st).1
  unfolding run_steps
  run_steps-Ran [] st e = done
  run_steps-Ran (s ∷ ss) st e = elim (Option-cases (s.run st).0) [
    | inl x ↦
        let k = run_steps-next s ss st x in
        subst (λ (r : Option String × S). Ran (s ∷ ss) st r.1) (sym k)
          (next (ap (λ r. (r, (s.run st).1)) x) (run_steps-Ran ss (s.run st).1 (cc (e, k))))
    | inr (err, x) ↦ absurd (cc (e, run_steps-stop s ss st err x))
  ]

  -- What an execution without an error has done, in the resulting plan and state.
  pub record Executed (steps : List (Step S)) (st : S) (r : Option PlanError × S × Plan S)
      : Type 0 where
    pub after : Chain AfterAll [] r.2.ordered
    pub before : Chain BeforeAll [] r.2.ordered
    pub same : Perm r.2.ordered steps
    pub ran : Ran r.2.ordered st r.1

  prepare-ready :
      (p : Plan S) → (prepare p).0 ≡ none → ((ready p).0 ≡ true) × ((prepare p).1 ≡ (ready p).1)
  unfolding prepare
  prepare-ready p e = ground arith

  ready-none_left :
      (p : Plan S) (steps : List (Step S))
      → IsBuilt p steps
      → (ready p).0 ≡ true
      → Perm (ready p).1.ordered steps
  ready-none_left p steps h e =
      let r = ready-IsOrdered p h.ordered in
      let q = is_nil-eq (ready p).1.pending (cc (e, r.3)) in
      Perm.trans
        (subst (λ l. Perm (ready p).1.ordered ((ready p).1.ordered ++ l)) (sym q)
          (rw append-nil Perm.rfl))
        (ready-IsBuilt p steps h).same

  run-prepared :
      (p : Plan S) (st : S)
      → (prepare p).0 ≡ none
      → run p st ≡ (
        failure (run_steps (ready p).1.ordered st).0,
        (run_steps (ready p).1.ordered st).1,
        (ready p).1,
      )
  unfolding run prepare
  run-prepared p st x = ground arith

  run-stops :
      (p : Plan S) (st : S) (e : PlanError)
      → (prepare p).0 ≡ some e
      → run p st ≡ (some e, st, (ready p).1)
  unfolding run prepare
  run-stops p st e h = ground arith

  run_IsBuilt-Executed :
      (p : Plan S) (st : S) (steps : List (Step S))
      → IsBuilt p steps
      → (run p st).0 ≡ none
      → Executed steps st (run p st)
  run_IsBuilt-Executed p st steps h e = elim (Option-cases (prepare p).0) [
    | inr (err, x) ↦ absurd (cc (e, run-stops p st err x))
    | inl x ↦
        let k = ready-IsBuilt p steps h in
        let (r, q) = prepare-ready p x in
        let same = run-prepared p st x in
        subst (Executed steps st) (sym same) (record {
          after = k.ordered.after;
          before = k.ordered.before;
          same = ready-none_left p steps h r;
          ran = run_steps-Ran _ st (failure-none _ (cc (e, same)));
        })
  ]

  -- If a plan was built by calls of `AddSteps` and `Ready`, and `Run` returns no error, then `Run` ordered
  -- exactly the added steps so that each comes after the steps it names as `after`, and before those
  -- it names as `before`, and it ran each of them in that order without an error.
  pub run-Executed :
      (os : List (Op S)) (p : Plan S) (st : S)
      → build os new_plan ≡ some p
      → (run p st).0 ≡ none
      → Executed (added os) st (run p st)
  run-Executed os p st b e = run_IsBuilt-Executed p st (added os) (build-IsBuilt os p b) e

  -- If `prepare` refuses, then `Run` and `Sim` return its error and execute nothing.
  pub run-refused :
      (p : Plan S) (st : S) (e : PlanError)
      → (prepare p).0 ≡ some e
      → (run p st ≡ (some e, st, (ready p).1)) × (sim p st ≡ (some e, st, (ready p).1))
  unfolding run sim prepare
  run-refused p st e h = (ground arith, ground arith)
