-- ===== src/Pm/Run.antt =====
-- addons/pm/server/child.go: the manager loop `child.run`, one handler for each case of its `select`.
--
-- `none` is a Go panic: a nil dereference of `curStatus()`, or the source's own `panic`.
pub mod Consistent
mod Preserve
pub mod Turn
pub mod Total
pub mod Reach
pub mod Policy
pub mod Stop
pub mod Ends
use gdev.Base.{
  ℕ, suc, ◌+◌, ◌*◌, Bool, true, false, ◌&&◌, Option, none, some, List, [], ◌∷◌, ◌++◌, ltb, eqb,
  is_some, if◌then◌else◌, ◌==◌,
}
use gdev.Pm.Api.{
  Child, HealthCheck, exec_stopping, ended, ExitCode, code, signalled, ExecStatus, ChildState,
  stopped, init_running, init_error, running, stopping, done, error, ChildStatus,
}
use gdev.Pm.Child.{
  ping, start, stop, delete, World, Effect, sigterm, sigkill, cleaned, http_check, off,
  initial_interval, regular_interval, Manager, Event, command, kill_timer, exited, restart_timer,
  health_tick, health_result, exec_at, exec_write, start_at,
}

-- `child.cleanup`: the slot afterwards, and the groups that the isolator was asked to clean up.
unfoldable pub cleanup : World → ExecStatus → ExecStatus × List Effect
cleanup w s =
    if s.group == ""
    then (s, [])
    else (if w.cleanup_fails s.group then s else record s { group = "" }, cleaned s.group ∷ [])

unfoldable pub cleanup_execs : World → List ExecStatus → List ExecStatus × List Effect
unfolding cleanup
cleanup_execs w [] = ([], [])
cleanup_execs w (s ∷ ss) =
    let (s', es) = cleanup w s in let (ss', rest) = cleanup_execs w ss in (s' ∷ ss', es ++ rest)

unfoldable pub cleanup_all : World → ChildStatus → ChildStatus × List Effect
unfolding cleanup_execs
cleanup_all w s =
    let (init', es) = cleanup_execs w s.init in
    let (main', rest) = cleanup w s.main in (record s { init = init'; main = main' }, es ++ rest)

abbrev set_state : ChildState → Manager → Manager
set_state s m = record m { status = record m.status { state = s } }

-- `curStatus()`, with its index.
abbrev pub cur_slot : Manager → Option (ℕ × ExecStatus)
cur_slot m = elim m.cur_exec [
  | none ↦ none
  | some i ↦ elim (exec_at m.status i) [ none ↦ none | some s ↦ some (i, s) ]
]

-- An update of `*curStatus()`.
abbrev on_slot : Manager → (ExecStatus → ExecStatus) → Option Manager
on_slot m f = elim m.cur_exec [
  | none ↦ none
  | some i ↦ elim (exec_at m.status i) [
    | none ↦ none
    | some s ↦ some (record m { status = exec_write m.status i (f s) })
  ]
]

abbrev mark_stopping : ExecStatus → ExecStatus
mark_stopping s = record s { state = exec_stopping }

abbrev can_start : ChildState → Bool
can_start stopped = true
can_start error = true
can_start init_error = true
can_start done = true
can_start _ = false

unfoldable pub handle_start : Child → World → Manager → Option Manager
unfolding start_at
handle_start c w m = some (if can_start m.status.state then start_at c w 0 m else m)

-- `childStop` while no process runs.
abbrev stop_idle : ChildState → Manager → Manager
stop_idle error m = set_state stopped (record m { cur_exec = some 0 })
stop_idle init_error m = set_state stopped (record m { cur_exec = some 0 })
stop_idle _ m = m

-- `childStop` while the process `pid` runs: `terminate`, and the kill timer.
abbrev stop_busy : ℕ → Manager → Option Manager
stop_busy pid m = elim (on_slot m mark_stopping) [
  | none ↦ none
  | some m' ↦
      some
        (set_state stopping (record m' { kill = true; effects = m'.effects ++ sigterm pid ∷ [] }))
]

unfoldable pub handle_stop : Manager → Option Manager
handle_stop m = elim m.cur_proc [
  | none ↦ some (stop_idle m.status.state m)
  | some p ↦ stop_busy p m
]

-- Deletion ends the loop, and skips what follows the `select`.
abbrev pub can_delete : ChildState → Bool
can_delete stopped = true
can_delete done = true
can_delete _ = false

unfoldable pub handle_delete : Manager → Option Manager
handle_delete m = some (if can_delete m.status.state then record m { finished = true } else m)

-- `child.kill`: SIGKILL, and the isolation group is cleaned up but not forgotten.
abbrev kill_effects : ℕ → ExecStatus → List Effect
kill_effects pid s = sigkill pid ∷ (if s.group == "" then [] else cleaned s.group ∷ [])

abbrev kill_busy : ℕ → Manager → Option Manager
kill_busy pid m = elim m.cur_exec [
  | none ↦ none
  | some i ↦ elim (exec_at m.status i) [
    | none ↦ none
    | some s ↦ some (
        set_state stopping (record m {
          status = exec_write m.status i (mark_stopping s);
          effects = m.effects ++ kill_effects pid s;
        }))
  ]
]

unfoldable pub handle_kill : Manager → Option Manager
handle_kill m =
    let m' = record m { kill = false } in
    elim m.cur_proc [ none ↦ some m' | some p ↦ kill_busy p m' ]

abbrev pub exit_code_of : Option ExitCode → ExitCode
exit_code_of none = code 0
exit_code_of (some c) = c

abbrev pub is_success : ExitCode → Bool
is_success (code n) = eqb n 0
is_success signalled = false

abbrev arm_restart : Child → Manager → Manager
arm_restart c m = if c.no_restart then m else record m { restart = true }

-- What an exit with code `e` of the process of slot `i` does in each state.
abbrev pub after_exit : Child → World → ℕ → ExitCode → ChildState → Manager → Manager
after_exit c w i e stopping m =
    let (s, es) = cleanup_all w m.status in
    record m { status = record s { state = stopped }; cur_exec = some 0; effects = m.effects ++ es }
after_exit c w i e init_running m =
    if is_success e then start_at c w (suc i) m else arm_restart c (set_state init_error m)
after_exit c w i e running m =
    if c.one_shot
    then set_state (if is_success e then done else error) m
    else arm_restart c (set_state (if is_success e && c.no_restart then stopped else error) m)
after_exit c w i e _ m = m

abbrev pub remove_live : ℕ → List ℕ → List ℕ
remove_live p [] = []
remove_live p (q ∷ qs) = if eqb q p then qs else q ∷ remove_live p qs

-- The slot of an exited process: cleaned up, ended, with its code and no pid.
abbrev pub exit_slot : World → ExitCode → ExecStatus → ExecStatus
exit_slot w e s = record ((cleanup w s).0) { state = ended; exit_code = e; pid = 0 }

-- The manager once the exit of slot `i` (which was `s`) is recorded, before its state changes.
abbrev pub ended_manager : World → ℕ → ℕ → ExitCode → ExecStatus → Manager → Manager
ended_manager w pid i e s m = record m {
  cur_proc = none;
  live = remove_live pid m.live;
  status = exec_write m.status i (exit_slot w e s);
  effects = m.effects ++ (cleanup w s).1;
}

abbrev pub exit_with :
    Child → World → ℕ → ExitCode → Manager → Option ℕ → Option (ℕ × ExecStatus) → Option Manager
exit_with c w pid e m none slot = none
exit_with c w pid e m (some _) none = none
exit_with c w pid e m (some _) (some (i, s)) =
    some (after_exit c w i e m.status.state (ended_manager w pid i e s m))

unfoldable pub handle_exit : Child → World → ℕ → Option ExitCode → Manager → Option Manager
unfolding start_at cleanup cleanup_all
handle_exit c w pid result m = exit_with c w pid (exit_code_of result) m m.cur_proc (cur_slot m)

unfoldable pub handle_restart : Child → World → Manager → Option Manager
unfolding start_at
handle_restart c w m = elim m.cur_exec [
  | none ↦ none
  | some i ↦ some (start_at c w i (record m { restart = false }))
]

-- The check runs in a goroutine of its own and answers by `health_result`. Timeouts in milliseconds.
abbrev launch_check : HealthCheck → List Effect
launch_check hc = elim hc.http [
  | none ↦ []
  | some h ↦
      http_check h (if ltb 0 hc.timeout_seconds then hc.timeout_seconds * 1000 else 1000) ∷ []
]

abbrev next_count : Option ℕ → ℕ
next_count none = 0
next_count (some n) = n + 1

unfoldable pub handle_health_tick : Child → Manager → Option Manager
handle_health_tick c m = elim c.health_check [
  | none ↦ none
  | some hc ↦
      let n = next_count m.health_checks in
      some (record m {
        effects = m.effects ++ launch_check hc;
        health_checks = some n;
        ticker = if eqb n 5 then regular_interval else m.ticker;
      })
]

unfoldable pub handle_health_result : World → Bool → Manager → Option Manager
handle_health_result w healthy m =
    let h = m.status.health in
    some (record m {
      status = record m.status {
        health = record h {
          healthy = healthy;
          last_healthy = if healthy then some w.now else h.last_healthy;
          last_unhealthy = if healthy then h.last_unhealthy else some w.now;
        };
      };
    })

-- The `select` statement.
unfoldable pub select_case : Child → World → Event → Manager → Option Manager
unfolding handle_start handle_stop handle_delete handle_kill handle_exit handle_restart
    handle_health_tick handle_health_result
select_case c w (command ping) m = some m
select_case c w (command start) m = handle_start c w m
select_case c w (command stop) m = handle_stop m
select_case c w (command delete) m = handle_delete m
select_case c w kill_timer m = handle_kill m
select_case c w (exited pid result) m = handle_exit c w pid result m
select_case c w restart_timer m = handle_restart c w m
select_case c w health_tick m = handle_health_tick c m
select_case c w (health_result healthy) m = handle_health_result w healthy m

abbrev pub is_running : ChildState → Bool
is_running running = true
is_running _ = false

-- What follows the `select`: the health-check ticker, and the publication of the status.
unfoldable pub adjust_ticker : Child → Manager → Manager
adjust_ticker c m =
    if is_running m.status.state && is_some c.health_check
    then elim m.health_checks [
      | some _ ↦ m
      | none ↦ record m { ticker = initial_interval; health_checks = some 0 }
    ]
    else record m { ticker = off; health_checks = none }

unfoldable pub publish : Manager → Manager
publish m = record m { published = m.status }

-- One turn of the loop.
unfoldable pub handle : Child → World → Event → Manager → Option Manager
unfolding select_case adjust_ticker publish
handle c w e m = elim (select_case c w e m) [
  | none ↦ none
  | some m' ↦ some (if m'.finished then m' else publish (adjust_ticker c m'))
]
