-- ===== src/Pm/Run/Turn.antt =====
-- addons/pm/server/child.go, `child.run`: the turns that the environment can cause, and that each
-- of them keeps the manager consistent.
use gdev.Base.{◌≡◌, Bool, true, false, ◌&&◌, none, some, arith, is_some, In, Option-cases, inl, inr}
use gdev.Pm.Api.{Child}
use gdev.Pm.Child.{
  World, Ticker, off, Manager, Event, command, kill_timer, exited, restart_timer, health_tick,
  health_result, start_at, ping, start, stop, delete,
}
use gdev.Pm.Run.{
  is_running, select_case, handle, adjust_ticker, publish, handle_start, handle_stop, handle_delete,
  handle_kill, handle_exit, handle_restart, handle_health_tick, handle_health_result,
}
use gdev.Pm.Run.Consistent.{Core}
use gdev.Pm.Run.Preserve.{
  handle_start-Core, handle_stop-Core, handle_delete-Core, handle_kill-Core, handle_exit-Core,
  handle_restart-Core, handle_health_tick-Core, handle_health_result-Core,
}

abbrev pub is_on : Ticker → Bool
is_on off = false
is_on _ = true

-- Which channel of the `select` can be ready: commands come at any time, a timer only while it is
-- armed, an exit only of a process that was started and not yet reported.
abbrev pub Enabled : Manager → Event → Type 0
Enabled m (command _) = Unit
Enabled m kill_timer = m.kill ≡ true
Enabled m (exited pid _) = In pid m.live
Enabled m restart_timer = m.restart ≡ true
Enabled m health_tick = is_on m.ticker ≡ true
Enabled m (health_result _) = Unit

-- The restart timer does not fire while a process runs.
abbrev pub Timely : Manager → Event → Type 0
Timely m restart_timer = m.cur_proc ≡ none
Timely m _ = Unit

pub record IsConsistent (c : Child) (m : Manager) : Type 0 where
  pub core : Core c m
  pub ticking : is_on m.ticker ≡ (is_running m.status.state && is_some c.health_check)
  pub counting : is_some m.health_checks ≡ is_on m.ticker
  pub reported : m.published ≡ m.status

module _ (c : Child) (w : World) where
  select_case-Core :
      (e : Event) (m m' : Manager)
      → Core c m
      → Enabled m e
      → Timely m e
      → select_case c w e m ≡ some m'
      → Core c m'
  unfolding select_case
  select_case-Core (command ping) m m' h en ti eq = ground arith
  select_case-Core (command start) m m' h en ti eq = handle_start-Core c w m m' h eq
  select_case-Core (command stop) m m' h en ti eq = handle_stop-Core c m m' h eq
  select_case-Core (command delete) m m' h en ti eq = handle_delete-Core c m m' h eq
  select_case-Core kill_timer m m' h en ti eq = handle_kill-Core c m m' h eq
  select_case-Core (exited pid r) m m' h en ti eq = handle_exit-Core c w pid r m m' h en eq
  select_case-Core restart_timer m m' h en ti eq = handle_restart-Core c w m m' h ti eq
  select_case-Core health_tick m m' h en ti eq = handle_health_tick-Core c m m' h eq
  select_case-Core (health_result b) m m' h en ti eq = handle_health_result-Core c w b m m' h eq

  select_case-counting :
      (e : Event) (m m' : Manager)
      → is_some m.health_checks ≡ is_on m.ticker
      → Enabled m e
      → select_case c w e m ≡ some m'
      → is_some m'.health_checks ≡ is_on m'.ticker
  unfolding select_case handle_start handle_stop handle_delete handle_kill handle_exit
      handle_restart handle_health_tick handle_health_result start_at
  select_case-counting (command ping) m m' h en eq = ground arith
  select_case-counting (command start) m m' h en eq = ground arith
  select_case-counting (command stop) m m' h en eq = ground arith
  select_case-counting (command delete) m m' h en eq = ground arith
  select_case-counting kill_timer m m' h en eq = ground arith
  select_case-counting (exited pid r) m m' h en eq = ground arith
  select_case-counting restart_timer m m' h en eq = ground arith
  select_case-counting health_tick m m' h en eq = ground arith
  select_case-counting (health_result b) m m' h en eq = ground arith

  adjust-IsConsistent :
      (m : Manager)
      → Core c m
      → is_some m.health_checks ≡ is_on m.ticker
      → IsConsistent c (publish (adjust_ticker c m))
  unfolding adjust_ticker publish
  adjust-IsConsistent m h k = record {
    core = ground arith;
    ticking = ground arith;
    counting = ground arith;
    reported = ground arith;
  }

  -- A turn of the loop that does not end it, on an event that can happen, keeps the manager consistent,
  -- if a restart comes only when no process runs.
  pub handle-IsConsistent :
      (e : Event) (m m' : Manager)
      → IsConsistent c m
      → Enabled m e
      → Timely m e
      → handle c w e m ≡ some m'
      → m'.finished ≡ false
      → IsConsistent c m'
  unfolding handle
  handle-IsConsistent e m m' h en ti eq go_on = elim (Option-cases (select_case c w e m)) [
    | inl x ↦ ground arith
    | inr (n, x) ↦ ground (
      arith,
      adjust-IsConsistent n (select_case-Core e m n h.core en ti x)
          (select_case-counting e m n h.counting en x),
    )
  ]
