-- ===== src/Pm/Resource.antt =====
-- addons/pm/resource/resource-pm.go: the readiness of a child.
pub mod Lifecycle
pub mod Ends
pub mod Starts
pub mod Installs
use gdev.Base.{◌≡◌, refl, Bool, true, false, none, some, if◌then◌else◌, arith, length, All}
use gdev.Pm.Api.{
  Child, ChildState, ChildWithStatus, stopped, init_error, running, done, error, ended,
}
use gdev.Pm.Child.{Manager}
use gdev.Pm.Run.{is_success, is_running}
use gdev.Pm.Run.Reach.{Reach, Reach-one_process, Reach-inits_done, Reach-ticking}
use gdev.Pm.Run.Policy.{Reach-done}

-- An answer, or the error of a child that will not become ready.
pub data Readiness : Type 0 where
  ready : Bool → Readiness
  failed : ChildState → Readiness

abbrev one_shot_ready : ChildState → Readiness
one_shot_ready error = failed error
one_shot_ready init_error = failed init_error
one_shot_ready done = ready true
one_shot_ready _ = ready false

abbrev no_restart_ready : ChildState → Readiness
no_restart_ready error = failed error
no_restart_ready init_error = failed init_error
no_restart_ready done = failed done
no_restart_ready stopped = failed stopped
no_restart_ready running = ready true
no_restart_ready _ = ready false

-- `isReady`.
unfoldable pub is_ready : ChildWithStatus → Readiness
is_ready cur =
    if cur.child.one_shot
    then one_shot_ready cur.status.state
    else if cur.child.no_restart
    then no_restart_ready cur.status.state
    else if is_running cur.status.state
    then (elim cur.child.health_check [
      | none ↦ ready true
      | some h ↦ ready cur.status.health.healthy
    ])
    else ready false

-- What a ready child has done, by whether it is a one-shot child.
abbrev pub IsUp : Bool → Manager → Type 0
IsUp true m = (m.status.main.state ≡ ended) × (is_success m.status.main.exit_code ≡ true)
IsUp false m =
    (length m.live ≡ 1)
    × All (λ s. (s.state ≡ ended) × (is_success s.exit_code ≡ true)) m.status.init

ready-IsUp :
    (c : Child) (m : Manager) (b : Bool)
    → Reach c m
    → c.one_shot ≡ b
    → is_ready (record { child = c; status = m.published }) ≡ ready true
    → IsUp b m
unfolding is_ready
ready-IsUp c m true r o e =
    let d = Reach-done c m r (ground (arith, (Reach-ticking c m r).1)) in (d.1, d.2)
ready-IsUp c m false r o e =
    let up : m.status.state ≡ running = ground (arith, (Reach-ticking c m r).1) in
    (ground (arith, Reach-one_process c m r), Reach-inits_done c m r up)

-- When the published status of a reached manager is ready, then a one-shot child has completed: its
-- main process ended with exit code 0. Any other child is running: it has one live process, and all
-- its init processes have ended with exit code 0.
pub Reach-is_ready :
    (c : Child) (m : Manager)
    → Reach c m
    → is_ready (record { child = c; status = m.published }) ≡ ready true
    → IsUp c.one_shot m
Reach-is_ready c m r e = ready-IsUp c m c.one_shot r refl e
