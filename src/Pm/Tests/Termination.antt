-- ===== src/Pm/Tests/Termination.antt =====
-- addons/pm/server/daemon.go: `Terminate` of a daemon with two small children.
use gdev.Base.{String, ◌≡◌, refl, true, none, List, [], ◌∷◌, All, length, if◌then◌else◌, ◌==◌}
use gdev.Pm.Child.{
  World, failed, Event, exited, restart_timer, exec_at, exec_write, start_at, start_exec,
  initial_status, new_manager,
}
use gdev.Pm.Run.{
  handle, select_case, handle_start, handle_stop, handle_delete, handle_kill, handle_exit,
  handle_restart, adjust_ticker, publish, cleanup, cleanup_all, cleanup_execs,
}
use gdev.Pm.Run.Reach.{begin}
use gdev.Pm.Daemon.{Daemon, replied, hangs, feed}
use gdev.Pm.Daemon.Terminate.{
  terminate, terminate_all, terminate_child, await_rest, delete_and_wait, IsOver, terminate-ends,
}
use gdev.Pm.Tests.{web, job, calm, web_started, web_started-Reach, web_failed}

abbrev two_children : Daemon
two_children = record {
  children =
      ("web", record { def = web; manager = web_started })
      ∷ ("job", record { def = job; manager = new_manager job })
      ∷ [];
}

abbrev web_exits : String → List (List (World × Event))
web_exits name = if name == "web" then ((calm 7, exited 7 none) ∷ []) ∷ [] else [] ∷ []

terminate-ends_example :
    ((terminate (calm 7) true web_exits two_children).reply ≡ replied tt)
    × All IsOver (terminate (calm 7) true web_exits two_children).managers
    × (length (terminate (calm 7) true web_exits two_children).managers ≡ 2)
    × ((terminate (calm 7) true web_exits two_children).daemon.children ≡ [])
unfolding handle select_case handle_start adjust_ticker publish new_manager initial_status start_at
    start_exec exec_write exec_at
terminate-ends_example =
    terminate-ends (calm 7) true web_exits two_children
      ((web_started-Reach, (calm 7, none, [], refl)), ((begin, ([], refl)), tt))

-- A failed child whose restart timer fires during the wait, and fails again: the wait ends at the failed
-- state, the deletion is refused, and the loop of the manager never ends.
terminate_restart :
    (terminate
      (calm 7)
      true
      (λ name. ((record (calm 8) { spawn = failed "x" }, restart_timer) ∷ []) ∷ [])
      (record { children = ("web", record { def = web; manager = web_failed }) ∷ [] })).reply
    ≡ hangs
unfolding terminate terminate_all terminate_child await_rest delete_and_wait feed handle select_case
    handle_start handle_stop handle_delete handle_kill handle_exit handle_restart adjust_ticker
    publish new_manager initial_status start_at start_exec exec_write exec_at cleanup cleanup_all
    cleanup_execs
terminate_restart = refl
