-- ===== src/Stack/Start.antt =====
-- addons/stack/start.go: the start of services, and the wait until they are ready.
--
-- What is done is a log of calls. What each call does is the environment's: it may depend on all the
-- calls before it, and on how often it was made. An empty list of errors is nil.
pub mod Calls
pub mod Wait
pub mod Hooks
pub mod Whole
pub mod Order
pub mod Ran
pub mod Success
pub mod Anti
use gdev.Base.{
  ℕ, zero, suc, String, Bool, true, false, not, ◌&&◌, Option, none, some, List, [], ◌∷◌, ◌++◌,
  if◌then◌else◌,
}
use gdev.Stack.Mode.{same_mode, disabled}
use gdev.Stack.Resources.{Resource, plain, anti, Context, service_mode, ResourceFunc, all_anti}

pub data Call : Type 0 where
  starting : String → Call
  stopping : String → Call
  checking : String → Call

-- What the resources answer after the calls of the log, and whether the context is done then.
pub record Env : Type 0 where
  pub fails : List Call → Option String
  pub answers : List Call → Bool × Option String
  pub done : List Call → Option String

-- A service as `StartServices` sees it.
pub record Service : Type 0 where
  pub name : String
  pub resources : ResourceFunc

-- What a function answers, and the log after it.
abbrev pub Outcome : Type 0
Outcome = List String × List Call

-- The call that the start of a resource makes.
unfoldable pub stop_call : Resource → Call
stop_call (plain id) = stopping id
stop_call (anti r) = stop_call r

unfoldable pub start_call : Resource → Call
unfolding stop_call
start_call (plain id) = starting id
start_call (anti r) = stop_call r

unfoldable pub ready_call : Resource → Call
ready_call (plain id) = checking id
ready_call (anti r) = ready_call r

-- What `Ready` makes of the answer to its call: that of an anti resource has no error.
unfoldable pub read_answer : Resource → Bool × Option String → Bool × Option String
read_answer (plain id) a = a
read_answer (anti r) a = (not (read_answer r a).0, none)

-- The resources of the services, those of a disabled one only to be stopped, and the errors.
unfoldable pub gather : Context → List Service → List Resource × List String
unfolding service_mode
gather c [] = ([], [])
gather c (s ∷ ss) =
    let (rs, errs) = gather c ss in
    let (r, e) = s.resources c in
    ((if same_mode (service_mode c s.name).0 disabled then all_anti r else r) ++ rs, e ++ errs)

module _ (env : Env) where
  unfoldable pub start_resources : List Resource → List Call → Outcome
  start_resources [] log = ([], log)
  start_resources (r ∷ rs) log =
      let log' = log ++ start_call r ∷ [] in
      let rest = start_resources rs log' in
      elim (env.fails log') [ none ↦ rest | some e ↦ (e ∷ [], log') ]

  -- The loop that waits for one resource. `none`: it has not ended yet.
  unfoldable pub poll : ℕ → Resource → List Call → Option Outcome
  poll zero r log = none
  poll (suc fuel) r log =
      let log' = log ++ ready_call r ∷ [] in
      let (ready, err) = read_answer r (env.answers log') in
      let again = poll fuel r log' in
      elim err [
        | some e ↦ some (e ∷ [], log')
        | none ↦
            if ready
            then some ([], log')
            else elim (env.done log') [ some cause ↦ some (cause ∷ [], log') | none ↦ again ]
      ]

  unfoldable pub wait_resources : ℕ → List Resource → List Call → Option Outcome
  wait_resources fuel [] log = some ([], log)
  wait_resources fuel (r ∷ rs) log = elim (poll fuel r log) [
    | none ↦ none
    | some o ↦ elim o.0 [ [] ↦ wait_resources fuel rs o.1 | e ∷ es ↦ some (e ∷ es, o.1) ]
  ]

  -- `StartServices`, on a kind that is infrastructure or not.
  unfoldable pub start_services : ℕ → Context → Bool → List Service → List Call → Option Outcome
  unfolding gather start_resources wait_resources
  start_services fuel c infrastructure svcs log =
      let (rs, errs) = gather c svcs in
      let o = start_resources rs log in
      elim errs [
        | e ∷ es ↦ some (e ∷ es, log)
        | [] ↦ elim o.0 [
          | e ∷ es ↦ some (e ∷ es, o.1)
          | [] ↦
              if not infrastructure && not c.no_service_wait
              then wait_resources fuel rs o.1
              else some o
        ]
      ]
