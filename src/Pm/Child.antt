-- ===== src/Pm/Child.antt =====
-- addons/pm/server/child.go: what the manager goroutine of a child keeps, what can wake it, and how
-- it starts a process (`newChild`, `initialStatus`, `start`).
--
-- What the operating system answers during one event is a `World`. A timer channel is armed or not;
-- nothing but its own firing disarms it, as in the source. `live` holds the processes whose
-- `cmd.Wait` goroutine has not delivered yet, and `effects` what was asked of the system, oldest
-- first.
use gdev.Base.{
  ℕ, String, Bool, false, Option, none, some, List, [], ◌∷◌, ◌++◌, map, ltb, if◌then◌else◌, length,
  get_elem?, set, ◌==◌,
}
use gdev.Pm.Api.{
  Exec, HttpHealthCheck, Child, not_started, exec_running, ExitCode, code, ExecStatus, ChildState,
  stopped, init_running, init_error, running, error, ChildStatus,
}

pub data Cmd : Type 0 where
  ping start stop delete : Cmd

-- The answers of `os.OpenFile` (its error), `cmd.Start` (an error or a pid) and the isolator.
pub data Spawn : Type 0 where
  failed : String → Spawn
  spawned : ℕ → Spawn

pub record World : Type 0 where
  pub open_log : Option String
  pub spawn : Spawn
  pub isolate : Option String
  pub cleanup_fails : String → Bool
  pub now : ℕ

pub data ProcName : Type 0 where
  main_name : String → ProcName
  init_name : String → ℕ → ProcName

pub data Effect : Type 0 where
  launched : ProcName → Exec → ℕ → Effect
  sigterm sigkill : ℕ → Effect
  cleaned : String → Effect
  http_check : HttpHealthCheck → ℕ → Effect

pub data Ticker : Type 0 where
  off initial_interval regular_interval : Ticker

pub record Manager : Type 0 where
  pub status : ChildStatus
  pub published : ChildStatus
  pub cur_exec : Option ℕ
  pub cur_proc : Option ℕ
  pub kill : Bool
  pub restart : Bool
  pub ticker : Ticker
  pub health_checks : Option ℕ
  pub live : List ℕ
  pub finished : Bool
  pub effects : List Effect

pub data Event : Type 0 where
  command : Cmd → Event
  kill_timer : Event
  exited : ℕ → Option ExitCode → Event
  restart_timer : Event
  health_tick : Event
  health_result : Bool → Event

abbrev pub fresh_exec : ExecStatus
fresh_exec = record { state = not_started; start_err = ""; pid = 0; group = ""; exit_code = code 0 }

unfoldable pub initial_status : Child → ChildStatus
initial_status c = record {
  state = stopped;
  init = map (λ _. fresh_exec) c.init;
  main = fresh_exec;
  health = record { healthy = false; last_healthy = none; last_unhealthy = none };
}

unfoldable pub new_manager : Child → Manager
unfolding initial_status
new_manager c = record {
  status = initial_status c;
  published = initial_status c;
  cur_exec = none;
  cur_proc = none;
  kill = false;
  restart = false;
  ticker = off;
  health_checks = none;
  live = [];
  finished = false;
  effects = [];
}

-- The slot of `status` that `curStatus` points at, read and written.
unfoldable pub exec_at : ChildStatus → ℕ → Option ExecStatus
exec_at s i = if ltb i (length s.init) then get_elem? s.init i else some s.main

unfoldable pub exec_write : ChildStatus → ℕ → ExecStatus → ChildStatus
exec_write s i e =
    if ltb i (length s.init) then record s { init = set s.init i e } else record s { main = e }

-- `child.start`: the process if it runs, the new slot, the new state, and what was launched.
pub record Started : Type 0 where
  pub proc : Option ℕ
  pub slot : ExecStatus
  pub state : ChildState
  pub launches : List Effect

abbrev pub not_launched : String → ChildState → Started
not_launched msg s = record {
  proc = none;
  slot = record fresh_exec { start_err = msg };
  state = s;
  launches = [];
}

abbrev pub spawn_exec : World → ProcName → Exec → ChildState → ChildState → Started
spawn_exec w name e running_state error_state = elim w.spawn [
  | failed msg ↦ not_launched msg error_state
  | spawned pid ↦ record {
    proc = some pid;
    slot = record fresh_exec {
      state = exec_running;
      pid = pid;
      group = elim w.isolate [ none ↦ "" | some g ↦ g ];
    };
    state = running_state;
    launches = launched name e pid ∷ [];
  }
]

abbrev pub open_and_spawn : World → ProcName → Exec → ChildState → ChildState → Started
open_and_spawn w name e running_state error_state =
    if e.logfile == "" then spawn_exec w name e running_state error_state else elim w.open_log [
      | some msg ↦ not_launched msg error_state
      | none ↦ spawn_exec w name e running_state error_state
    ]

unfoldable pub start_exec : Child → World → ℕ → Started
start_exec c w idx = elim (get_elem? c.init idx) [
  | some e ↦ open_and_spawn w (init_name c.name idx) e init_running init_error
  | none ↦ open_and_spawn w (main_name c.name) c.main running error
]

-- `curProc, *s, status.State = c.start(curExec, procExited)` at `curExec = i`.
unfoldable pub start_at : Child → World → ℕ → Manager → Manager
start_at c w i m =
    let r = start_exec c w i in
    record m {
      cur_exec = some i;
      cur_proc = r.proc;
      status = record (exec_write m.status i r.slot) { state = r.state };
      live = elim r.proc [ none ↦ m.live | some p ↦ p ∷ m.live ];
      effects = m.effects ++ r.launches;
    }
