-- ===== src/Pm/Run/Preserve.antt =====
-- addons/pm/server/child.go, `child.run`: each case of the `select` keeps the manager consistent, and
-- none of them panics, as long as the restart timer fires only while no process runs.
use mathlib.Core.Option.{some-injective}
use gdev.Base.{
  ℕ, suc, ◌≤◌, ◌<◌, ◌≡◌, refl, ◌∙◌, Bool, true, false, Option, none, some, List, [], ◌∷◌, arith,
  length, In, Bool-cases, Option-cases, inl, inr, subst,
}
use gdev.Pm.Api.{
  Child, ExecStatus, ChildState, stopped, init_running, ExitCode, running, stopping, ExitCode,
}
use gdev.Pm.Child.{World, Manager}
use gdev.Pm.Run.{
  exit_with, cur_slot, ended_manager, after_exit, exit_code_of, remove_live, cleanup_all,
  is_success, handle_start, handle_stop, handle_delete, handle_kill, handle_exit, handle_restart,
  handle_health_tick, handle_health_result,
}
use gdev.Pm.Run.Consistent.{
  cur_slot-exec, Core, PrefixDone, start_at-Core, write-slots, write-PrefixDone, write-state,
  write-PrefixDone-suc, cleanup_execs-slots,
}

pub handle_start-Core :
    (c : Child) (w : World) (m m' : Manager) → Core c m → handle_start c w m ≡ some m' → Core c m'
unfolding handle_start
handle_start-Core c w m m' h e = ground (arith, start_at-Core c w 0 m)

pub handle_stop-Core : (c : Child) (m m' : Manager) → Core c m → handle_stop m ≡ some m' → Core c m'
unfolding handle_stop
handle_stop-Core c m m' h e = grind (arith, write-slots, write-PrefixDone, write-state)

pub handle_delete-Core :
    (c : Child) (m m' : Manager) → Core c m → handle_delete m ≡ some m' → Core c m'
unfolding handle_delete
handle_delete-Core c m m' h e = ground arith

pub handle_kill-Core : (c : Child) (m m' : Manager) → Core c m → handle_kill m ≡ some m' → Core c m'
unfolding handle_kill
handle_kill-Core c m m' h e = grind (arith, write-slots, write-PrefixDone, write-state)

pub handle_restart-Core :
    (c : Child) (w : World) (m m' : Manager)
    → Core c m
    → m.cur_proc ≡ none
    → handle_restart c w m ≡ some m'
    → Core c m'
unfolding handle_restart
handle_restart-Core c w m m' h idle e = elim (Option-cases m.cur_exec) [
  | inl x ↦ ground arith
  | inr (i, x) ↦ ground (arith, start_at-Core c w i (record m { restart = false }))
]

pub handle_health_tick-Core :
    (c : Child) (m m' : Manager) → Core c m → handle_health_tick c m ≡ some m' → Core c m'
unfolding handle_health_tick
handle_health_tick-Core c m m' h e = ground arith

pub handle_health_result-Core :
    (c : Child) (w : World) (b : Bool) (m m' : Manager)
    → Core c m
    → handle_health_result w b m ≡ some m'
    → Core c m'
unfolding handle_health_result
handle_health_result-Core c w b m m' h e = ground arith

-- The manager just after the process of slot `i` has ended with code `e`, in state `st`.
record Ended (c : Child) (i : ℕ) (e : ExitCode) (st : ChildState) (m : Manager) : Type 0 where
  slots : length m.status.init ≡ length c.init
  no_proc : m.cur_proc ≡ none
  no_live : m.live ≡ []
  exec : m.cur_exec ≡ some i
  state : m.status.state ≡ st
  within : i ≤ length c.init
  before : PrefixDone m.status.init i
  and_this : i < length c.init → is_success e ≡ true → PrefixDone m.status.init (suc i)

module _ (c : Child) (w : World) (i : ℕ) (e : ExitCode) (m : Manager) where
  after_exit-Core_stopping : Ended c i e stopping m → Core c (after_exit c w i e stopping m)
  unfolding cleanup_all
  after_exit-Core_stopping h = ground (arith, cleanup_execs-slots w m.status.init)

  after_exit-Core_init :
      i < length c.init → Ended c i e init_running m → Core c (after_exit c w i e init_running m)
  after_exit-Core_init lt h = elim (Bool-cases (is_success e)) [
    | inl good ↦ rw good (start_at-Core c w (suc i) m h.slots lt h.no_live (h.and_this lt good))
    | inr bad ↦ rw bad (ground arith)
  ]

  after_exit-Core_running :
      i ≡ length c.init → Ended c i e running m → Core c (after_exit c w i e running m)
  after_exit-Core_running at_main h = ground arith

only_live : (pid p : ℕ) (l : List ℕ) → l ≡ p ∷ [] → In pid l → remove_live pid l ≡ []
only_live pid p l e m = ground (arith, subst (In pid) e m)

module _ (c : Child) (w : World) (pid i : ℕ) (result : Option ExitCode) (s : ExecStatus)
    (m : Manager) (h : Core c m) (p : ℕ) (proc : m.cur_proc ≡ some p) (exec : m.cur_exec ≡ some i)
    (mine : In pid m.live) where
  ended_manager-Ended :
      (st : ChildState)
      → m.status.state ≡ st
      → Ended c i (exit_code_of result) st (ended_manager w pid i (exit_code_of result) s m)
  ended_manager-Ended st e = record {
    slots = write-slots m.status i _ ∙ h.slots;
    no_proc = refl;
    no_live = only_live pid p m.live (ground arith) mine;
    exec = exec;
    state = write-state m.status i _ ∙ e;
    within = ground arith;
    before = write-PrefixDone m.status i _ (ground arith);
    and_this = λ lt good.
        write-PrefixDone-suc m.status i _ (omega (arith, h.slots)) (ground arith) refl good;
  }

  -- The exit of the one live process.
  exit_some-Core : Core c (
      after_exit c w i
        (exit_code_of result)
        m.status.state
        (ended_manager w pid i (exit_code_of result) s m))
  exit_some-Core = by_state m.status.state refl
    where
      by_state :
          (st : ChildState)
          → m.status.state ≡ st
          → Core c (
              after_exit c w i
                (exit_code_of result)
                st
                (ended_manager w pid i (exit_code_of result) s m))
      by_state stopping e = after_exit-Core_stopping c w i _ _ (ended_manager-Ended _ e)
      by_state init_running e =
          after_exit-Core_init c w i _ _ (ground arith) (ended_manager-Ended _ e)
      by_state running e =
          after_exit-Core_running c w i _ _ (ground arith) (ended_manager-Ended _ e)
      by_state stopped e = absurd (ground arith)
      by_state _ e = absurd (ground arith)

exit_with-Core :
    (c : Child) (w : World) (pid : ℕ) (result : Option ExitCode) (m m' : Manager)
    → Core c m
    → In pid m.live
    → (proc : Option ℕ) (slot : Option (ℕ × ExecStatus)) → m.cur_proc ≡ proc
    → cur_slot m ≡ slot
    → exit_with c w pid (exit_code_of result) m proc slot ≡ some m'
    → Core c m'
exit_with-Core c w pid result m m' h mine none slot p q e = cc
exit_with-Core c w pid result m m' h mine (some x) none p q e = cc
exit_with-Core c w pid result m m' h mine (some x) (some (i, s)) p q e =
    subst (Core c) (some-injective _ _ e)
      (exit_some-Core c w pid i result s m h x p (cur_slot-exec m i s q) mine)

pub handle_exit-Core :
    (c : Child) (w : World) (pid : ℕ) (result : Option ExitCode) (m m' : Manager)
    → Core c m
    → In pid m.live
    → handle_exit c w pid result m ≡ some m'
    → Core c m'
unfolding handle_exit
handle_exit-Core c w pid result m m' h mine =
    exit_with-Core c w pid result m m' h mine m.cur_proc (cur_slot m) refl refl
