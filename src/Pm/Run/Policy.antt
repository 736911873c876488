-- ===== src/Pm/Run/Policy.antt =====
-- addons/pm/server/child.go, `child.run`: stopping, restarting and completing.
use mathlib.Core.Option.{some-injective}
use gdev.Base.{
  ℕ, suc, ◌≡◌, refl, true, false, Option, none, some, arith, length, Option-cases, inl, inr, ◌≤◌,
  subst,
}
use gdev.Pm.Api.{
  Child, ChildStatus, ExecStatus, ExitCode, ended, ChildState, stopped, init_running, running,
  stopping, done,
}
use gdev.Pm.Child.{
  World, Manager, Event, command, kill_timer, exited, restart_timer, health_tick, health_result,
  ping, start, stop, delete, exec_write, start_at, new_manager,
}
use gdev.Pm.Run.{
  is_success, select_case, handle, handle_start, handle_stop, handle_delete, handle_kill,
  handle_exit, handle_restart, handle_health_tick, handle_health_result, adjust_ticker, publish,
  after_exit, ended_manager, exit_slot, exit_with, cur_slot, exit_code_of,
}
use gdev.Pm.Run.Consistent.{Core, start_exec-Outcome, write-state, cur_slot-exec}
use gdev.Pm.Run.Reach.{Reach, begin, turn, Reach-IsConsistent}

select_case-no_restart :
    (c : Child) (w : World) (e : Event) (m m' : Manager)
    → c.no_restart ≡ true
    → m.restart ≡ false
    → select_case c w e m ≡ some m'
    → m'.restart ≡ false
unfolding select_case handle_start handle_stop handle_delete handle_kill handle_exit handle_restart
    handle_health_tick handle_health_result start_at
select_case-no_restart c w (command ping) m m' n h eq = ground arith
select_case-no_restart c w (command start) m m' n h eq = ground arith
select_case-no_restart c w (command stop) m m' n h eq = ground arith
select_case-no_restart c w (command delete) m m' n h eq = ground arith
select_case-no_restart c w kill_timer m m' n h eq = ground arith
select_case-no_restart c w (exited pid r) m m' n h eq = ground arith
select_case-no_restart c w restart_timer m m' n h eq = ground arith
select_case-no_restart c w health_tick m m' n h eq = ground arith
select_case-no_restart c w (health_result b) m m' n h eq = ground arith

handle-no_restart :
    (c : Child) (w : World) (e : Event) (m m' : Manager)
    → c.no_restart ≡ true
    → m.restart ≡ false
    → handle c w e m ≡ some m'
    → m'.restart ≡ false
unfolding handle adjust_ticker publish
handle-no_restart c w e m m' n h eq = elim (Option-cases (select_case c w e m)) [
  | inl x ↦ ground arith
  | inr (k, x) ↦ ground (arith, select_case-no_restart c w e m k n h x)
]

-- In a state that the loop reaches while restarts come only when no process runs, a child that is
-- marked as not to be restarted has no restart pending.
pub Reach-no_restart :
    (c : Child) (m : Manager) → c.no_restart ≡ true → Reach c m → m.restart ≡ false
unfolding new_manager
Reach-no_restart c m n begin = refl
Reach-no_restart c m n (turn {m = k} r w e en ti eq go_on) =
    handle-no_restart c w e k m n (Reach-no_restart c k n r) eq

-- The main slot of a child that is done: a one-shot child, ended with exit code 0.
abbrev IsDone : Child → ChildStatus → Type 0
IsDone c st = (c.one_shot ≡ true) × (st.main.state ≡ ended) × (is_success st.main.exit_code ≡ true)

write-main :
    (st : ChildStatus) (i : ℕ) (e : ExecStatus) → length st.init ≤ i → (exec_write st i e).main ≡ e
unfolding exec_write
write-main st i e h = ground arith

module _ (c : Child) (w : World) (pid i p : ℕ) (e : ExitCode) (s : ExecStatus) (m : Manager)
    (h : Core c m) (proc : m.cur_proc ≡ some p) (exec : m.cur_exec ≡ some i) where
  after_exit-IsDone :
      (st : ChildState)
      → m.status.state ≡ st
      → (after_exit c w i e st (ended_manager w pid i e s m)).status.state ≡ done
      → IsDone c (after_exit c w i e st (ended_manager w pid i e s m)).status
  unfolding start_at
  after_exit-IsDone init_running q d =
      ground (arith, start_exec-Outcome c w (suc i), write-state m.status i (exit_slot w e s))
  after_exit-IsDone running q d = ground (
    arith,
    h.slots,
    write-main m.status i (exit_slot w e s),
    write-state m.status i (exit_slot w e s),
  )
  after_exit-IsDone stopping q d = ground arith
  after_exit-IsDone stopped q d = absurd (ground (arith, h.busy))
  after_exit-IsDone _ q d = absurd (ground (arith, h.busy))

exit_with-IsDone :
    (c : Child) (w : World) (pid : ℕ) (e : ExitCode) (m m' : Manager)
    → Core c m
    → (proc : Option ℕ) (slot : Option (ℕ × ExecStatus)) → m.cur_proc ≡ proc
    → cur_slot m ≡ slot
    → exit_with c w pid e m proc slot ≡ some m'
    → m'.status.state ≡ done
    → IsDone c m'.status
exit_with-IsDone c w pid e m m' h none slot p q eq d = cc
exit_with-IsDone c w pid e m m' h (some x) none p q eq d = cc
exit_with-IsDone c w pid e m m' h (some x) (some (i, s)) p q eq d =
    subst (λ (n : Manager). n.status.state ≡ done → IsDone c n.status) (some-injective _ _ eq)
      (after_exit-IsDone c w pid i x e s m h p (cur_slot-exec m i s q) m.status.state refl) d

select_case-IsDone :
    (c : Child) (w : World) (e : Event) (m m' : Manager)
    → Core c m
    → (m.status.state ≡ done → IsDone c m.status)
    → select_case c w e m ≡ some m'
    → m'.status.state ≡ done
    → IsDone c m'.status
unfolding select_case handle_start handle_stop handle_delete handle_kill handle_restart
    handle_health_tick handle_health_result start_at
select_case-IsDone c w (command ping) m m' n h eq d = ground arith
select_case-IsDone c w (command start) m m' n h eq d = ground (arith, start_exec-Outcome c w 0)
select_case-IsDone c w (command stop) m m' n h eq d = ground arith
select_case-IsDone c w (command delete) m m' n h eq d = ground arith
select_case-IsDone c w kill_timer m m' n h eq d = ground arith
select_case-IsDone c w (exited pid r) m m' n h eq d =
    exit_with-IsDone c w pid (exit_code_of r) m m' n m.cur_proc (cur_slot m) refl refl eq d
select_case-IsDone c w restart_timer m m' n h eq d = elim (Option-cases m.cur_exec) [
  | inl x ↦ ground arith
  | inr (i, x) ↦ ground (arith, start_exec-Outcome c w i)
]
select_case-IsDone c w health_tick m m' n h eq d = ground arith
select_case-IsDone c w (health_result b) m m' n h eq d = ground arith

handle-IsDone :
    (c : Child) (w : World) (e : Event) (m m' : Manager)
    → Core c m
    → (m.status.state ≡ done → IsDone c m.status)
    → handle c w e m ≡ some m'
    → m'.status.state ≡ done
    → IsDone c m'.status
unfolding handle adjust_ticker publish
handle-IsDone c w e m m' n h eq d = elim (Option-cases (select_case c w e m)) [
  | inl x ↦ ground arith
  | inr (k, x) ↦ ground (arith, select_case-IsDone c w e m k n h x)
]

-- In a state that the loop reaches while restarts come only when no process runs, a child is done
-- only if it is a one-shot child whose main process ended with exit code 0.
pub Reach-done :
    (c : Child) (m : Manager)
    → Reach c m
    → m.status.state ≡ done
    → (c.one_shot ≡ true)
      × (m.status.main.state ≡ ended)
      × (is_success m.status.main.exit_code ≡ true)
unfolding new_manager
Reach-done c m begin d = cc
Reach-done c m (turn {m = k} r w e en ti eq go_on) d =
    handle-IsDone c w e k m (Reach-IsConsistent r).core (Reach-done c k r) eq d
