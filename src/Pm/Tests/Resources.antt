-- ===== src/Pm/Tests/Resources.antt =====
-- addons/pm/resource/resource-pm.go, and the API over HTTP.
use gdev.Base.{ℕ, ◌≡◌, refl, Bool, true, false, none, some, List, [], ◌∷◌, ◌⊎◌, inl, inr}
use gdev.Base.Dict.{lookup, insert, remove}
use gdev.Pm.Api.{Child, ChildWithStatus, ChildSummary}
use gdev.Pm.Child.{
  Manager, exited, new_manager, initial_status, start_at, start_exec, exec_at, exec_write,
}
use gdev.Pm.Run.{
  handle, select_case, handle_start, handle_stop, handle_delete, handle_kill, handle_exit,
  handle_restart, adjust_ticker, publish, cleanup, cleanup_all, cleanup_execs,
}
use gdev.Pm.Daemon.{
  Daemon, Entry, get_child, put_child, start_child, delete_child, stop_child, await_stopped, feed,
  precondition_failed,
}
use gdev.Pm.Resource.Lifecycle.{Turn, refused_by, stop_loop, stop_resource, Pm, start_resource}
use gdev.Pm.Resource.Ends.{stop_resource-gone}
use gdev.Pm.Resource.Starts.{start_resource-done}
use gdev.Pm.Http.{bad_request, ErrorCode, answered, fails, ChildApi, Codec}
use gdev.Pm.Tests.{web, calm, web_started, web_stopped, job, job_done}

abbrev with_web : Manager → Daemon
with_web m = record { children = ("web", record { def = web; manager = m }) ∷ [] }

-- The child's process exits before the second poll of a stop.
abbrev turn : Turn
turn = record {
  world = calm 9;
  rounds = ((calm 1, exited 7 none) ∷ []) ∷ [] ∷ [];
  tick = λ d. d;
  cancelled = false;
}

abbrev turns : List Turn
turns = turn ∷ turn ∷ turn ∷ []

stop_resource-gone_example :
    lookup "web" (stop_resource "web" turns (with_web web_started)).1.children ≡ none
unfolding handle select_case handle_start handle_stop handle_delete handle_kill handle_exit
    handle_restart adjust_ticker publish new_manager initial_status start_at start_exec exec_write
    exec_at cleanup cleanup_all cleanup_execs get_child put_child start_child delete_child
    stop_child await_stopped feed lookup insert remove stop_resource stop_loop
stop_resource-gone_example = stop_resource-gone "web" turns (with_web web_started) refl

abbrev at_rest : Entry
at_rest = record { def = web; manager = web_stopped }

abbrev quick : Child → Pm
quick c = record { limit_restarts = false; wait_on_start = false; child = c }

abbrev same_child : Child → Child → Bool
same_child a b = false

abbrev job_at_end : Daemon
job_at_end = record { children = ("job", record { def = job; manager = job_done }) ∷ [] }

start_resource-done_example :
    start_resource same_child (quick job) turn [] job_at_end
    ≡ (some (refused_by precondition_failed), job_at_end)
unfolding handle select_case handle_start handle_stop handle_delete handle_kill handle_exit
    handle_restart adjust_ticker publish new_manager initial_status start_at start_exec exec_write
    exec_at cleanup cleanup_all cleanup_execs lookup
start_resource-done_example =
    start_resource-done "job" job_at_end (record { def = job; manager = job_done }) refl refl refl
      same_child (quick job) turn [] refl refl

-- A text of JSON is what it encodes; no child is invalid.
abbrev Json : Type 0
Json = (Child ⊎ ChildWithStatus) ⊎ List ChildSummary

abbrev codec : Codec Json
codec = record {
  valid = λ c. true;
  child_json = λ c. inl (inl c);
  read_child = λ j. elim j [
    | inl k ↦ elim k [ inl c ↦ answered c | inr s ↦ fails (some bad_request) ]
    | inr l ↦ fails (some bad_request)
  ];
  status_json = λ s. inl (inr s);
  read_status = λ j. elim j [ inl k ↦ elim k [ inl c ↦ none | inr s ↦ some s ] | inr l ↦ none ];
  summary_json = inr;
  read_summary = λ j. elim j [ inl k ↦ none | inr l ↦ some l ];
}

abbrev at_stopped : ChildWithStatus
at_stopped = record { child = web; status = initial_status web }

abbrev fixed_api : ChildApi ErrorCode ℕ
fixed_api = record {
  ping = λ s. (answered tt, s);
  summary = λ s. (answered [], s);
  child = λ name s. (answered at_stopped, s);
  put_child = λ c s. (fails none, s);
  start_child = λ name s. (answered at_stopped, s);
  stop_child = λ name s. (answered at_stopped, s);
  delete_child = λ name s. (answered at_stopped, s);
  terminate = λ s. (answered tt, s);
}
