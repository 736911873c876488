-- ===== src/Pm/Daemon/Terminate.antt =====
-- addons/pm/server/daemon.go: `Terminate`, which stops and deletes all children.
--
-- Each goroutine of `Terminate` uses its own child only, so that their order does not matter. `rounds`
-- are the events of a child before each tick of its wait, which has no end of its own.
use gdev.Base.{
  ℕ, String, ◌≡◌, refl, sym, Bool, true, false, Option, none, some, List, [], ◌∷◌, arith, All,
  if◌then◌else◌, ap, ◌∙◌, inl, is_some, length, suc,
}
use gdev.Pm.Api.{Child, ExitCode, ChildState, stopped, done, error}
use gdev.Pm.Child.{stop, delete, World, Manager, Event, command, exited}
use gdev.Pm.Run.{
  can_delete, handle, select_case, handle_stop, handle_delete, handle_exit, adjust_ticker, publish,
  cleanup_all,
}
use gdev.Pm.Run.Consistent.{is_busy, live_of}
use gdev.Pm.Run.Reach.{Reach, turn, Reach-IsConsistent, Reach-unfinished}
use gdev.Pm.Run.Total.{handle-total}
use gdev.Pm.Run.Ends.{stop_busy_lem}
use gdev.Pm.Daemon.{Entry, Daemon, Reply, replied, hangs, crashed, feed}

abbrev pub is_at_rest : ChildState → Bool
is_at_rest error = true
is_at_rest stopped = true
is_at_rest done = true
is_at_rest _ = false

-- `childDelete`, and the wait for the end of the loop.
unfoldable pub delete_and_wait : World → Child → Manager → Reply {0} Unit × Manager
delete_and_wait w c m = elim (handle c w (command delete) m) [
  | none ↦ (crashed, m)
  | some m' ↦ (if m'.finished then replied tt else hangs, m')
]

-- The ticks.
unfoldable pub await_rest :
    World → Child → List (List (World × Event)) → Manager → Reply {0} Unit × Manager
unfolding feed delete_and_wait
await_rest w c [] m = (hangs, m)
await_rest w c (es ∷ rounds) m = elim (feed c es m) [
  | none ↦ (crashed, m)
  | some m' ↦
      let rest = await_rest w c rounds m' in
      if is_at_rest m'.published.state then delete_and_wait w c m' else rest
]

-- The goroutine of a child.
unfoldable pub terminate_child :
    World → List (List (World × Event)) → Entry → Reply {0} Unit × Manager
unfolding await_rest
terminate_child w rounds e = elim (handle e.def w (command stop) e.manager) [
  | none ↦ (crashed, e.manager)
  | some m ↦ await_rest w e.def rounds m
]

-- A panic of a goroutine ends the process; without one all are waited for.
abbrev pub join : Reply {0} Unit → Reply {0} Unit → Reply {0} Unit
join crashed r = crashed
join (replied u) r = r
join s crashed = crashed
join s r = s

unfoldable pub terminate_all :
    World
    → (String → List (List (World × Event)))
    → List (String × Entry)
    → Reply {0} Unit × List Manager
unfolding terminate_child
terminate_all w rounds [] = (replied tt, [])
terminate_all w rounds ((name, e) ∷ es) =
    let (r, m) = terminate_child w (rounds name) e in
    let (s, ms) = terminate_all w rounds es in (join r s, m ∷ ms)

pub record Terminated : Type 0 where
  pub reply : Reply {0} Unit
  pub daemon : Daemon
  -- Whether `onTerminate` was called.
  pub called : Bool
  pub managers : List Manager

-- `Terminate`: the map is cleared before the children end.
unfoldable pub terminate :
    World → Bool → (String → List (List (World × Event))) → Daemon → Terminated
unfolding terminate_all
terminate w on_terminate rounds d =
    let (r, ms) = terminate_all w rounds d.children in
    record { reply = r; daemon = record { children = [] }; called = on_terminate; managers = ms }

-- The process of the child, if it has one, exits before the first tick, and nothing else happens to the
-- child before it.
abbrev pub Exits : Option ℕ → List (List (World × Event)) → Type 0
Exits none rounds = (more : List (List (World × Event))) × (rounds ≡ [] ∷ more)
Exits (some p) rounds =
    (w : World) × (r : Option ExitCode) × (more : List (List (World × Event))) × (rounds
      ≡ ((w, exited p r) ∷ []) ∷ more)

-- The loop of the manager is over, and no process of the child is left.
abbrev pub IsOver : Manager → Type 0
IsOver m = (m.finished ≡ true) × (m.live ≡ [])

delete_and_wait-IsOver :
    (w : World) (c : Child) (m : Manager)
    → can_delete m.status.state ≡ true
    → m.live ≡ []
    → ((delete_and_wait w c m).0 ≡ replied tt) × IsOver (delete_and_wait w c m).1
unfolding delete_and_wait handle select_case handle_delete
delete_and_wait-IsOver w c m ok live = ground arith

-- The wait of `Terminate` ends here, and the deletion is let through.
abbrev IsIdle : Manager → Type 0
IsIdle m =
    (is_at_rest m.published.state ≡ true) × (can_delete m.status.state ≡ true) × (m.live ≡ [])

stop-IsIdle :
    (c : Child) (w : World) (m m' : Manager)
    → m.finished ≡ false
    → m.cur_proc ≡ none
    → is_busy m.status.state ≡ false
    → m.live ≡ []
    → handle c w (command stop) m ≡ some m'
    → IsIdle m'
unfolding handle select_case handle_stop adjust_ticker publish
stop-IsIdle c w m m' live idle free none_live e = ground arith

stop_exit-IsIdle :
    (c : Child) (w w' : World) (m m' m'' : Manager) (p : ℕ) (r : Option ExitCode)
    → Reach c m
    → m.cur_proc ≡ some p
    → handle c w (command stop) m ≡ some m'
    → handle c w' (exited p r) m' ≡ some m''
    → IsIdle m''
unfolding handle select_case handle_exit adjust_ticker publish cleanup_all
stop_exit-IsIdle c w w' m m' m'' p r reached proc e e' =
    let s = stop_busy_lem c w w' m m' m'' p r reached proc e in
    ground (arith, s, Reach-unfinished reached)

-- A child is over once the events before the first tick leave it idle.
await_rest-IsOver :
    (w : World) (c : Child) (es : List (World × Event)) (more : List (List (World × Event)))
    (m m' : Manager)
    → feed c es m ≡ some m'
    → IsIdle m'
    → ((await_rest w c (es ∷ more) m).0 ≡ replied tt) × IsOver (await_rest w c (es ∷ more) m).1
unfolding await_rest
await_rest-IsOver w c es more m m' fed (rests, ok, live) =
    rw (fed, rests, await_rest) (delete_and_wait-IsOver w c m' ok live)

abbrev Ends : World → List (List (World × Event)) → Entry → Type 0
Ends w rounds e =
    ((terminate_child w rounds e).0 ≡ replied tt) × IsOver (terminate_child w rounds e).1

feed-one :
    (c : Child) (w : World) (ev : Event) (m m' : Manager)
    → handle c w ev m ≡ some m'
    → feed c ((w, ev) ∷ []) m ≡ some m'
unfolding feed
feed-one c w ev m m' e = rw (e, feed) refl

stop-first :
    (w : World) (rounds : List (List (World × Event))) (e : Entry) (m : Manager)
    → handle e.def w (command stop) e.manager ≡ some m
    → terminate_child w rounds e ≡ await_rest w e.def rounds m
unfolding terminate_child
stop-first w rounds e m sent = rw (sent, terminate_child) refl

terminate_child-Ends :
    (w : World) (rounds : List (List (World × Event))) (e : Entry) (m : Manager) (proc : Option ℕ)
    → Reach e.def e.manager
    → e.manager.cur_proc ≡ proc
    → Exits proc rounds
    → handle e.def w (command stop) e.manager ≡ some m
    → Ends w rounds e
unfolding feed
terminate_child-Ends w rounds e m none reached idle (more, split) stopped_ =
    let h = (Reach-IsConsistent reached).core in
    let free : is_busy e.manager.status.state ≡ false = sym h.busy ∙ ap is_some idle in
    let quiet =
      stop-IsIdle e.def w e.manager m (Reach-unfinished reached) idle free
        (h.live_one ∙ ap live_of idle) stopped_ in
    rw (stop-first w rounds e m stopped_, split) (await_rest-IsOver w e.def [] more m m refl quiet)
terminate_child-Ends w rounds e m (some p) reached proc (w', r, more, split) stopped_ =
    let s = stop_busy_lem e.def w w' e.manager m m p r reached proc stopped_ in
    let on = turn reached w (command stop) tt tt stopped_ (s.5 ∙ Reach-unfinished reached) in
    let (m'', ended) =
      handle-total e.def w' m (exited p r) (Reach-IsConsistent on) (rw s.4 (inl refl)) in
    let quiet = stop_exit-IsIdle e.def w w' e.manager m m'' p r reached proc stopped_ ended in
    rw (stop-first w rounds e m stopped_, split)
      (await_rest-IsOver w e.def ((w', exited p r) ∷ []) more m m''
        (feed-one e.def w' (exited p r) m m'' ended) quiet)

-- A child that the daemon may hold, whose process exits.
abbrev pub CanEnd : (String → List (List (World × Event))) → String × Entry → Type 0
CanEnd rounds t = Reach t.1.def t.1.manager × Exits t.1.manager.cur_proc (rounds t.0)

terminate_all-IsOver :
    (w : World) (rounds : String → List (List (World × Event))) (es : List (String × Entry))
    → All (CanEnd rounds) es
    → ((terminate_all w rounds es).0 ≡ replied tt) × All IsOver (terminate_all w rounds es).1
unfolding terminate_all
terminate_all-IsOver w rounds [] h = (refl, tt)
terminate_all-IsOver w rounds ((name, e) ∷ es) ((reached, exits), h) =
    let (m, sent) = handle-total e.def w e.manager (command stop) (Reach-IsConsistent reached) tt in
    let (r, over) =
      terminate_child-Ends w (rounds name) e m e.manager.cur_proc reached refl exits sent in
    let (rest, overs) = terminate_all-IsOver w rounds es h in (rw (r, rest) refl, (over, overs))

terminate_all-length :
    (w : World) (rounds : String → List (List (World × Event))) (es : List (String × Entry))
    → length (terminate_all w rounds es).1 ≡ length es
unfolding terminate_all
terminate_all-length w rounds [] = refl
terminate_all-length w rounds ((name, e) ∷ es) = ap suc (terminate_all-length w rounds es)

-- If every child is in a reached state, and after the stop the exit of its process, if it has one, and
-- nothing else happens to it before the first tick of the wait (no restart timer fires, no health check answers), then
-- Terminate returns: the loop of every child's manager is over, no process is
-- left, and the daemon has no children.
pub terminate-ends :
    (w : World) (on_terminate : Bool) (rounds : String → List (List (World × Event))) (d : Daemon)
    → All (CanEnd rounds) d.children
    → ((terminate w on_terminate rounds d).reply ≡ replied tt)
      × All IsOver (terminate w on_terminate rounds d).managers
      × (length (terminate w on_terminate rounds d).managers ≡ length d.children)
      × ((terminate w on_terminate rounds d).daemon.children ≡ [])
unfolding terminate
terminate-ends w on_terminate rounds d h =
    let (r, over) = terminate_all-IsOver w rounds d.children h in
    (r, over, terminate_all-length w rounds d.children, refl)
