-- ===== src/Pm/Resource/Lifecycle.antt =====
-- addons/pm/resource/resource-pm.go: `Start` and `Stop` of a child as a resource, over the daemon.
--
-- Each turn of a loop has its own `World` and, for a stop request, its own rounds; `tick` is what
-- happens to the children before a status is read again. An end is missing while a loop goes on or a
-- request has no reply.
use gdev.Base.{String, Bool, ◌&&◌, Option, none, some, List, [], ◌∷◌, if◌then◌else◌}
use gdev.Pm.Api.{Child, ChildState, ChildStatus, ChildWithStatus, stopped, stopping, done}
use gdev.Pm.Child.{World, Event}
use gdev.Pm.Daemon.{
  Daemon, Reply, replied, refused, hangs, crashed, Refusal, not_found, get_child, put_child,
  start_child, stop_child, delete_child, is_stopped,
}
use gdev.Pm.Run.{is_running}
use gdev.Pm.Resource.{Readiness, ready, failed, is_ready}

pub record Turn : Type 0 where
  pub world : World
  pub rounds : List (List (World × Event))
  pub tick : Daemon → Daemon
  -- Whether the resource's context is done.
  pub cancelled : Bool

-- How a call ends: without an error, or with the refusal of a request, a failed child or the context.
pub data End : Type 0 where
  succeeded : End
  refused_by : Refusal → End
  child_failed : ChildState → End
  interrupted : End

abbrev pub status_only : Reply ChildWithStatus → Reply ChildStatus
status_only (replied c) = replied c.status
status_only (refused r) = refused r
status_only hangs = hangs
status_only crashed = crashed

abbrev pub stop_refused : Refusal → End
stop_refused not_found = succeeded
stop_refused r = refused_by r

-- The request that follows a status in the loop of `Stop`.
abbrev pub next_status : Turn → String → ChildState → Daemon → Option (Reply ChildStatus × Daemon)
next_status t name stopped d = let (r, d') = delete_child t.world name d in some (status_only r, d')
next_status t name done d = let (r, d') = delete_child t.world name d in some (status_only r, d')
next_status t name stopping d =
    let (r, d') = get_child name (t.tick d) in
    if t.cancelled then none else some (status_only r, d')
next_status t name _ d = some (stop_child t.world name t.rounds d)

-- The loop of `Stop`: one turn for each status.
unfoldable pub stop_loop : String → List Turn → Reply ChildStatus → Daemon → Option End × Daemon
stop_loop name turns hangs d = (none, d)
stop_loop name turns crashed d = (none, d)
stop_loop name turns (refused r) d = (some (stop_refused r), d)
stop_loop name [] (replied s) d = (none, d)
stop_loop name (t ∷ turns) (replied s) d = elim (next_status t name s.state d) [
  | none ↦ (some interrupted, d)
  | some q ↦ stop_loop name turns q.0 q.1
]

-- `PM.Stop`.
unfoldable pub stop_resource : String → List Turn → Daemon → Option End × Daemon
unfolding stop_loop
stop_resource name turns d =
    let (r, d') = get_child name d in stop_loop name turns (status_only r) d'

-- A request of `Start` whose reply is needed to go on.
abbrev pub and_then :
    {A : Type 0} → Reply A × Daemon → (A → Daemon → Option End × Daemon) → Option End × Daemon
and_then (replied a, d) f = f a d
and_then (refused r, d) f = (some (refused_by r), d)
and_then (hangs, d) f = (none, d)
and_then (crashed, d) f = (none, d)

-- The loop of `Start` with `WaitOnStart`.
unfoldable pub wait_ready : String → List Turn → ChildWithStatus → Daemon → Option End × Daemon
wait_ready name [] cur d = elim (is_ready cur) [
  | failed s ↦ (some (child_failed s), d)
  | ready b ↦ if b then (some succeeded, d) else (none, d)
]
wait_ready name (t ∷ turns) cur d =
    let again = and_then (get_child name (t.tick d)) (wait_ready name turns) in
    elim (is_ready cur) [
      | failed s ↦ (some (child_failed s), d)
      | ready b ↦
          if b then (some succeeded, d) else if t.cancelled then (some interrupted, d) else again
    ]

-- `PM.Ready`.
unfoldable pub ready_resource : String → Daemon → Reply Readiness
ready_resource name d = elim (get_child name d).0 [
  | replied cur ↦ replied (is_ready cur)
  | refused r ↦ refused r
  | hangs ↦ hangs
  | crashed ↦ crashed
]

pub record Pm : Type 0 where
  pub limit_restarts : Bool
  pub wait_on_start : Bool
  -- What `Config` answers with; its error, which ends each call at once, is left out.
  pub child : Child

module _ (same_child : Child → Child → Bool) (p : Pm) (t : Turn) (turns : List Turn) where
  -- The start of the child, and the wait.
  unfoldable pub start_fresh : Daemon → Option End × Daemon
  unfolding wait_ready
  start_fresh d = and_then (put_child t.world p.child d) (λ added d1.
      and_then (start_child t.world p.child.name d1) (λ cur d2.
        if p.wait_on_start then wait_ready p.child.name turns cur d2 else (some succeeded, d2)))

  -- `DeleteChild` of an existing child, and then a fresh start.
  abbrev pub replace_stopped : Daemon → Option End × Daemon
  replace_stopped d = and_then (delete_child t.world p.child.name d) (λ gone d1. start_fresh d1)

  abbrev pub replace_child : ChildWithStatus → Daemon → Option End × Daemon
  replace_child cur d =
      if is_stopped cur.status.state
      then replace_stopped d
      else and_then (stop_child t.world p.child.name t.rounds d) (λ halted d1. replace_stopped d1)

  abbrev pub keeps : ChildWithStatus → Bool
  keeps cur = p.limit_restarts && is_running cur.status.state && same_child p.child cur.child

  abbrev pub start_over : ChildWithStatus → Daemon → Option End × Daemon
  start_over cur d =
      if keeps cur
      then (if p.wait_on_start then wait_ready p.child.name turns cur d else (some succeeded, d))
      else replace_child cur d

  -- The child's name is not known, or the query failed.
  abbrev pub start_refused : Refusal → Daemon → Option End × Daemon
  start_refused not_found d = start_fresh d
  start_refused r d = (some (refused_by r), d)

  -- `PM.Start`.
  unfoldable pub start_resource : Daemon → Option End × Daemon
  unfolding start_fresh
  start_resource d = elim (get_child p.child.name d).0 [
    | replied cur ↦ start_over cur d
    | refused r ↦ start_refused r d
    | hangs ↦ (none, d)
    | crashed ↦ (none, d)
  ]
