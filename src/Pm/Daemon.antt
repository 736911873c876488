-- ===== src/Pm/Daemon.antt =====
-- addons/pm/server/daemon.go: the requests of `api.API`, over the managers of the children.
--
-- A request is handled with no event of the child between the check of its status and the commands
-- that it sends. `World` is what the system answers to those commands. A reply may be missing:
-- `hangs` is a wait that nothing ends, `crashed` a panic of a manager goroutine.
pub mod Requests
pub mod Safety
pub mod Terminate
use gdev.Base.{
  ℕ, String, Bool, true, false, ◌||◌, Option, none, some, List, [], ◌∷◌, map, is_some,
  if◌then◌else◌,
}
use gdev.Base.Dict.{Dict, lookup, insert, remove}
use gdev.Pm.Api.{
  Child, exec_running, ExecStatus, ChildState, stopped, init_running, init_error, running, stopping,
  done, error, ChildStatus, ChildWithStatus, ChildSummary,
}
use gdev.Pm.Child.{Cmd, ping, start, stop, delete, World, Manager, Event, command, new_manager}
use gdev.Pm.Run.{handle}

pub record Entry : Type 0 where
  pub def : Child
  pub manager : Manager

pub record Daemon : Type 0 where
  pub children : Dict Entry

pub data Refusal : Type 0 where
  not_found conflict precondition_failed cancelled : Refusal

pub data Reply {ℓ} (A : Type ℓ) : Type ℓ where
  replied : A → Reply A
  refused : Refusal → Reply A
  hangs : Reply A
  crashed : Reply A

-- What `Status` reads: the published status.
abbrev pub with_status : Entry → ChildWithStatus
with_status e = record { child = e.def; status = e.manager.published }

abbrev pub put_manager : String → Entry → Manager → Daemon → Daemon
put_manager name e m d = record { children = insert name (record e { manager = m }) d.children }

-- `Child`.
unfoldable pub get_child : String → Daemon → Reply ChildWithStatus × Daemon
get_child name d = elim (lookup name d.children) [
  | none ↦ (refused not_found, d)
  | some e ↦ (replied (with_status e), d)
]

-- `PutChild`: the manager goroutine is started, and a ping is sent to it.
unfoldable pub put_child : World → Child → Daemon → Reply ChildWithStatus × Daemon
put_child w child d = elim (lookup child.name d.children) [
  | some _ ↦ (refused conflict, d)
  | none ↦
      let e : Entry = record { def = child; manager = new_manager child } in
      elim (handle child w (command ping) (new_manager child)) [
        | none ↦ (crashed, d)
        | some m ↦
            (replied (record { child = child; status = m.published }), put_manager child.name e m d)
      ]
]

-- Commands sent one after the other to the manager of `e`.
abbrev pub send : World → Entry → List Cmd → Option Manager
send w e [] = some e.manager
send w e (cmd ∷ cmds) = elim (handle e.def w (command cmd) e.manager) [
  | none ↦ none
  | some m ↦ send w (record e { manager = m }) cmds
]

abbrev pub may_start : ChildState → Bool
may_start error = true
may_start init_error = true
may_start stopped = true
may_start _ = false

-- `StartChild`.
abbrev pub start_entry : World → String → Entry → Daemon → Reply ChildWithStatus × Daemon
start_entry w name e d =
    if may_start e.manager.published.state
    then elim (send w e (start ∷ ping ∷ [])) [
      | none ↦ (crashed, d)
      | some m ↦ (replied (with_status (record e { manager = m })), put_manager name e m d)
    ]
    else (refused precondition_failed, d)

unfoldable pub start_child : World → String → Daemon → Reply ChildWithStatus × Daemon
start_child w name d = elim (lookup name d.children) [
  | none ↦ (refused not_found, d)
  | some e ↦ start_entry w name e d
]

abbrev pub may_delete : ChildState → Bool
may_delete error = true
may_delete init_error = true
may_delete stopped = true
may_delete done = true
may_delete _ = false

-- `DeleteChild`: `Wait` returns once the manager loop has ended, and then the entry is removed.
abbrev pub delete_entry : World → String → Entry → Daemon → Reply ChildWithStatus × Daemon
delete_entry w name e d =
    if may_delete e.manager.published.state
    then elim (send w e (delete ∷ [])) [
      | none ↦ (crashed, d)
      | some m ↦
          if m.finished
          then (
            replied (with_status (record e { manager = m })),
            record { children = remove name d.children },
          )
          else (hangs, put_manager name e m d)
    ]
    else (refused precondition_failed, d)

unfoldable pub delete_child : World → String → Daemon → Reply ChildWithStatus × Daemon
delete_child w name d = elim (lookup name d.children) [
  | none ↦ (refused not_found, d)
  | some e ↦ delete_entry w name e d
]

-- The requests that are answered at once.
pub data Request : Type 0 where
  get_request : String → Request
  put_request : Child → Request
  start_request : String → Request
  delete_request : String → Request

unfoldable pub serve : World → Request → Daemon → Reply ChildWithStatus × Daemon
unfolding get_child put_child start_child delete_child
serve w (get_request name) d = get_child name d
serve w (put_request child) d = put_child w child d
serve w (start_request name) d = start_child w name d
serve w (delete_request name) d = delete_child w name d

-- Whether `StopChild` sends a stop, only waits, or refuses.
abbrev pub stop_plan : ChildState → Option Bool
stop_plan init_running = some true
stop_plan running = some true
stop_plan error = some true
stop_plan init_error = some true
stop_plan stopping = some false
stop_plan stopped = some false
stop_plan done = none

-- The events of a child that are handled between two polls of its status.
unfoldable pub feed : Child → List (World × Event) → Manager → Option Manager
feed c [] m = some m
feed c ((w, e) ∷ es) m = elim (handle c w e m) [ none ↦ none | some m' ↦ feed c es m' ]

abbrev pub is_stopped : ChildState → Bool
is_stopped stopped = true
is_stopped _ = false

-- The polling loop of `StopChild`: `rounds` are the events before each tick; after the last of them
-- the request's context is done.
unfoldable pub await_stopped :
    World → Child → List (List (World × Event)) → Manager → Reply ChildStatus × Manager
unfolding feed
await_stopped w c [] m = (refused cancelled, m)
await_stopped w c (es ∷ rounds) m = elim (handle c w (command ping) m) [
  | none ↦ (crashed, m)
  | some m' ↦ elim (is_stopped m'.published.state) [
    | true ↦ (replied m'.published, m')
    | false ↦ elim (feed c es m') [ none ↦ (crashed, m') | some n ↦ await_stopped w c rounds n ]
  ]
]

abbrev stop_await :
    World
    → String
    → List (List (World × Event))
    → Entry
    → Daemon
    → Option Manager
    → Reply ChildStatus × Daemon
stop_await w name rounds e d none = (crashed, d)
stop_await w name rounds e d (some m) =
    let (r, m') = await_stopped w e.def rounds m in (r, put_manager name e m' d)

abbrev stop_entry :
    World → String → List (List (World × Event)) → Entry → Daemon → Reply ChildStatus × Daemon
stop_entry w name rounds e d = elim (stop_plan e.manager.published.state) [
  | none ↦ (refused precondition_failed, d)
  | some true ↦ stop_await w name rounds e d (send w e (stop ∷ []))
  | some false ↦ stop_await w name rounds e d (some e.manager)
]

-- `StopChild`.
unfoldable pub stop_child :
    World → String → List (List (World × Event)) → Daemon → Reply ChildStatus × Daemon
unfolding await_stopped
stop_child w name rounds d = elim (lookup name d.children) [
  | none ↦ (refused not_found, d)
  | some e ↦ stop_entry w name rounds e d
]

-- `Summary`: the process reported is the running init process while the child is initialising.
unfoldable pub running_init : List ExecStatus → Option ℕ
running_init [] = none
running_init (s ∷ ss) = elim s.state [ exec_running ↦ some s.pid | _ ↦ running_init ss ]

abbrev in_init : ChildState → Bool
in_init init_running = true
in_init init_error = true
in_init _ = false

unfoldable pub summarise : Entry → ChildSummary
unfolding running_init
summarise e =
    let status = e.manager.published in
    record {
      name = e.def.name;
      annotations = e.def.annotations;
      state = status.state;
      pid =
          if in_init status.state
          then elim (running_init status.init) [ none ↦ status.main.pid | some p ↦ p ]
          else status.main.pid;
      healthy =
          if is_some status.health.last_healthy || is_some status.health.last_unhealthy
          then some status.health.healthy
          else none;
    }

unfoldable pub summary : Daemon → List ChildSummary
unfolding summarise
summary d = map (λ (t : String × Entry). summarise t.1) d.children
