-- ===== src/Pm/Tests.antt =====
-- addons/pm/server: runs of a small child on concrete events.
mod Requests
mod Resources
mod Termination
mod Urls
use gdev.Base.{
  inl, ℕ, String, ◌≡◌, ◌≢◌, refl, true, false, Bool, Option, none, some, List, [], ◌∷◌, ◌++◌,
  length, is_some, ◌&&◌, if◌then◌else◌, All, In,
}
use gdev.Base.Dict.{Dict, lookup, insert, remove}
use gdev.Pm.Api.{
  Exec, Child, ExecStatus, ChildState, stopped, running, stopping, done, error, ended, code,
  ChildStatus, ChildWithStatus,
}
use gdev.Pm.Child.{
  World, spawned, failed, Manager, Event, command, start, stop, delete, ping, exited, restart_timer,
  kill_timer, new_manager, initial_status, start_at, start_exec, exec_at, exec_write, sigterm,
  sigkill, Effect,
}
use gdev.Pm.Run.{
  handle, select_case, handle_start, handle_stop, handle_delete, handle_kill, handle_exit,
  handle_restart, adjust_ticker, publish, cleanup, cleanup_all, cleanup_execs, is_success,
  is_running, can_delete,
}
use gdev.Pm.Run.Consistent.{is_busy}
use gdev.Pm.Run.Turn.{Enabled, IsConsistent, is_on, handle-IsConsistent}
use gdev.Pm.Run.Reach.{
  Reach, begin, turn, handle-no_panic, Reach-one_process, Reach-inits_done, Reach-ticking,
  new_manager-IsConsistent, Reach-unfinished,
}
use gdev.Pm.Run.Policy.{Reach-no_restart, Reach-done}
use gdev.Pm.Run.Stop.{stop-keeps_restart, start-keeps_kill, start-keeps_restart_panics}
use gdev.Pm.Resource.{is_ready, IsUp, Reach-is_ready}
use gdev.Pm.Run.Ends.{stop-exit}

abbrev sleep : Exec
sleep = record { cmd = "sleep"; args = "1" ∷ []; cwd = "/"; env = []; logfile = "" }

abbrev web : Child
web = record {
  name = "web";
  annotations = [];
  init = [];
  main = sleep;
  health_check = none;
  one_shot = false;
  no_restart = false;
}

abbrev job : Child
job = record web { name = "job"; init = sleep ∷ []; one_shot = true; no_restart = true }

-- A system that starts process `pid`.
abbrev calm : ℕ → World
calm pid = record {
  open_log = none;
  spawn = spawned pid;
  isolate = none;
  cleanup_fails = λ _. false;
  now = 0;
}

abbrev or_new : Child → Option Manager → Manager
or_new c none = new_manager c
or_new c (some m) = m

abbrev web_started : Manager
web_started = or_new web (handle web (calm 7) (command start) (new_manager web))

web_started-eq : handle web (calm 7) (command start) (new_manager web) ≡ some web_started
unfolding handle select_case handle_start handle_stop handle_delete handle_kill handle_exit
    handle_restart adjust_ticker publish new_manager initial_status start_at start_exec exec_write
    exec_at cleanup cleanup_all cleanup_execs
web_started-eq = refl

abbrev web_stopping : Manager
web_stopping = or_new web (handle web (calm 7) (command stop) web_started)

web_stopping-eq : handle web (calm 7) (command stop) web_started ≡ some web_stopping
unfolding handle select_case handle_start handle_stop handle_delete handle_kill handle_exit
    handle_restart adjust_ticker publish new_manager initial_status start_at start_exec exec_write
    exec_at cleanup cleanup_all cleanup_execs
web_stopping-eq = refl

abbrev web_stopped : Manager
web_stopped = or_new web (handle web (calm 7) (exited 7 none) web_stopping)

web_stopped-eq : handle web (calm 7) (exited 7 none) web_stopping ≡ some web_stopped
unfolding handle select_case handle_start handle_stop handle_delete handle_kill handle_exit
    handle_restart adjust_ticker publish new_manager initial_status start_at start_exec exec_write
    exec_at cleanup cleanup_all cleanup_execs
web_stopped-eq = refl

abbrev web_failed : Manager
web_failed = or_new web (handle web (calm 7) (exited 7 (some (code 1))) web_started)

web_failed-eq : handle web (calm 7) (exited 7 (some (code 1))) web_started ≡ some web_failed
unfolding handle select_case handle_start handle_stop handle_delete handle_kill handle_exit
    handle_restart adjust_ticker publish new_manager initial_status start_at start_exec exec_write
    exec_at cleanup cleanup_all cleanup_execs
web_failed-eq = refl

abbrev web_stopped_early : Manager
web_stopped_early = or_new web (handle web (calm 7) (command stop) web_failed)

web_stopped_early-eq : handle web (calm 7) (command stop) web_failed ≡ some web_stopped_early
unfolding handle select_case handle_start handle_stop handle_delete handle_kill handle_exit
    handle_restart adjust_ticker publish new_manager initial_status start_at start_exec exec_write
    exec_at cleanup cleanup_all cleanup_execs
web_stopped_early-eq = refl

abbrev web_revived : Manager
web_revived = or_new web (handle web (calm 8) restart_timer web_stopped_early)

web_revived-eq : handle web (calm 8) restart_timer web_stopped_early ≡ some web_revived
unfolding handle select_case handle_start handle_stop handle_delete handle_kill handle_exit
    handle_restart adjust_ticker publish new_manager initial_status start_at start_exec exec_write
    exec_at cleanup cleanup_all cleanup_execs
web_revived-eq = refl

abbrev web_started_again : Manager
web_started_again = or_new web (handle web (calm 9) (command start) web_stopped)

web_started_again-eq : handle web (calm 9) (command start) web_stopped ≡ some web_started_again
unfolding handle select_case handle_start handle_stop handle_delete handle_kill handle_exit
    handle_restart adjust_ticker publish new_manager initial_status start_at start_exec exec_write
    exec_at cleanup cleanup_all cleanup_execs
web_started_again-eq = refl

abbrev web_killed : Manager
web_killed = or_new web (handle web (calm 9) kill_timer web_started_again)

web_killed-eq : handle web (calm 9) kill_timer web_started_again ≡ some web_killed
unfolding handle select_case handle_start handle_stop handle_delete handle_kill handle_exit
    handle_restart adjust_ticker publish new_manager initial_status start_at start_exec exec_write
    exec_at cleanup cleanup_all cleanup_execs
web_killed-eq = refl

abbrev web_restarted : Manager
web_restarted = or_new web (handle web (calm 8) (command start) web_failed)

web_restarted-eq : handle web (calm 8) (command start) web_failed ≡ some web_restarted
unfolding handle select_case handle_start handle_stop handle_delete handle_kill handle_exit
    handle_restart adjust_ticker publish new_manager initial_status start_at start_exec exec_write
    exec_at cleanup cleanup_all cleanup_execs
web_restarted-eq = refl

abbrev web_twice : Manager
web_twice = or_new web (handle web (calm 9) restart_timer web_restarted)

web_twice-eq : handle web (calm 9) restart_timer web_restarted ≡ some web_twice
unfolding handle select_case handle_start handle_stop handle_delete handle_kill handle_exit
    handle_restart adjust_ticker publish new_manager initial_status start_at start_exec exec_write
    exec_at cleanup cleanup_all cleanup_execs
web_twice-eq = refl

abbrev web_once : Manager
web_once = or_new web (handle web (calm 9) (exited 8 none) web_twice)

web_once-eq : handle web (calm 9) (exited 8 none) web_twice ≡ some web_once
unfolding handle select_case handle_start handle_stop handle_delete handle_kill handle_exit
    handle_restart adjust_ticker publish new_manager initial_status start_at start_exec exec_write
    exec_at cleanup cleanup_all cleanup_execs
web_once-eq = refl

abbrev job_started : Manager
job_started = or_new job (handle job (calm 3) (command start) (new_manager job))

job_started-eq : handle job (calm 3) (command start) (new_manager job) ≡ some job_started
unfolding handle select_case handle_start handle_stop handle_delete handle_kill handle_exit
    handle_restart adjust_ticker publish new_manager initial_status start_at start_exec exec_write
    exec_at cleanup cleanup_all cleanup_execs
job_started-eq = refl

abbrev job_main : Manager
job_main = or_new job (handle job (calm 4) (exited 3 none) job_started)

job_main-eq : handle job (calm 4) (exited 3 none) job_started ≡ some job_main
unfolding handle select_case handle_start handle_stop handle_delete handle_kill handle_exit
    handle_restart adjust_ticker publish new_manager initial_status start_at start_exec exec_write
    exec_at cleanup cleanup_all cleanup_execs
job_main-eq = refl

abbrev job_done : Manager
job_done = or_new job (handle job (calm 4) (exited 4 none) job_main)

job_done-eq : handle job (calm 4) (exited 4 none) job_main ≡ some job_done
unfolding handle select_case handle_start handle_stop handle_delete handle_kill handle_exit
    handle_restart adjust_ticker publish new_manager initial_status start_at start_exec exec_write
    exec_at cleanup cleanup_all cleanup_execs
job_done-eq = refl

web_started-Reach : Reach web web_started
unfolding handle select_case handle_start handle_stop handle_delete handle_kill handle_exit
    handle_restart adjust_ticker publish new_manager initial_status start_at start_exec exec_write
    exec_at cleanup cleanup_all cleanup_execs
web_started-Reach = turn begin (calm 7) (command start) tt tt web_started-eq refl

job_started-Reach : Reach job job_started
unfolding handle select_case handle_start handle_stop handle_delete handle_kill handle_exit
    handle_restart adjust_ticker publish new_manager initial_status start_at start_exec exec_write
    exec_at cleanup cleanup_all cleanup_execs
job_started-Reach = turn begin (calm 3) (command start) tt tt job_started-eq refl

job_main-Reach : Reach job job_main
unfolding handle select_case handle_start handle_stop handle_delete handle_kill handle_exit
    handle_restart adjust_ticker publish new_manager initial_status start_at start_exec exec_write
    exec_at cleanup cleanup_all cleanup_execs
job_main-Reach = turn job_started-Reach (calm 4) (exited 3 none) (inl refl) tt job_main-eq refl

job_done-Reach : Reach job job_done
unfolding handle select_case handle_start handle_stop handle_delete handle_kill handle_exit
    handle_restart adjust_ticker publish new_manager initial_status start_at start_exec exec_write
    exec_at cleanup cleanup_all cleanup_execs
job_done-Reach = turn job_main-Reach (calm 4) (exited 4 none) (inl refl) tt job_done-eq refl

handle-no_panic_example : handle web (calm 7) (exited 7 none) web_started ≢ none
unfolding handle select_case handle_start handle_stop handle_delete handle_kill handle_exit
    handle_restart adjust_ticker publish new_manager initial_status start_at start_exec exec_write
    exec_at cleanup cleanup_all cleanup_execs
handle-no_panic_example =
    handle-no_panic web web_started (calm 7) (exited 7 none) web_started-Reach (inl refl)

Reach-one_process_example :
    length web_started.live ≡ (if is_busy web_started.status.state then 1 else 0)
Reach-one_process_example = Reach-one_process web web_started web_started-Reach

Reach-inits_done_example :
    All (λ s. (s.state ≡ ended) × (is_success s.exit_code ≡ true)) job_main.status.init
unfolding handle select_case handle_start handle_stop handle_delete handle_kill handle_exit
    handle_restart adjust_ticker publish new_manager initial_status start_at start_exec exec_write
    exec_at cleanup cleanup_all cleanup_execs
Reach-inits_done_example = Reach-inits_done job job_main job_main-Reach refl

start-keeps_restart_panics_example :
    Enabled web_restarted restart_timer
    × In 8 web_twice.live
    × In 9 web_once.live
    × (handle web (calm 9) (exited 9 none) web_once ≡ none)
unfolding handle select_case handle_start handle_stop handle_delete handle_kill handle_exit
    handle_restart adjust_ticker publish new_manager initial_status start_at start_exec exec_write
    exec_at cleanup cleanup_all cleanup_execs
start-keeps_restart_panics_example =
    start-keeps_restart_panics web web_failed refl (calm 8) (calm 9) (calm 9) (calm 9) web_restarted
      web_twice web_once 8 9 none none refl refl refl web_restarted-eq refl web_twice-eq refl
      web_once-eq
