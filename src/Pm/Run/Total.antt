-- ===== src/Pm/Run/Total.antt =====
-- addons/pm/server/child.go, `child.run`: no turn of a consistent manager panics.
use gdev.Base.{
  if◌then◌else◌, ℕ, ◌≡◌, ◌≢◌, refl, Option, none, some, List, [], length, arith, get_elem?, In,
  Bool-cases, Option-cases, inl, inr, subst, ltb, zero, suc, ◌∷◌, ◌<◌,
}
use gdev.Pm.Api.{Child, ChildStatus, ExecStatus, ExitCode}
use gdev.Pm.Child.{
  World, Manager, Event, command, kill_timer, exited, restart_timer, health_tick, health_result,
  exec_at, ping, start, stop, delete,
}
use gdev.Pm.Run.{
  handle, publish, adjust_ticker, select_case, handle_start, handle_stop, handle_delete,
  handle_kill, handle_exit, handle_restart, handle_health_tick, handle_health_result,
}
use gdev.Pm.Run.Turn.{Enabled, IsConsistent}

get_elem?-total {ℓ} :
    {A : Type ℓ} (xs : List A) (i : ℕ) → i < length xs → (a : A) × (get_elem? xs i ≡ some a)
get_elem?-total [] i h = elim h [ ]
get_elem?-total (x ∷ xs) zero h = (x, refl)
get_elem?-total (x ∷ xs) (suc i) h = get_elem?-total xs i (omega arith)

exec_at-total : (st : ChildStatus) (i : ℕ) → (s : ExecStatus) × (exec_at st i ≡ some s)
unfolding exec_at
exec_at-total st i = elim (Bool-cases (ltb i (length st.init))) [
  | inl lt ↦ rw lt (get_elem?-total st.init i (ground arith))
  | inr ge ↦ rw ge (st.main, refl)
]

module _ (c : Child) (w : World) (m : Manager) (h : IsConsistent c m) where
  cur_slot-total :
      (p : ℕ)
      → m.cur_proc ≡ some p
      → (i : ℕ) × (s : ExecStatus) × (m.cur_exec ≡ some i) × (exec_at m.status i ≡ some s)
  cur_slot-total p e = elim (Option-cases m.cur_exec) [
    | inl x ↦ absurd (ground (arith, h.core.proc_exec))
    | inr (i, x) ↦ let (s, y) = exec_at-total m.status i in (i, s, x, y)
  ]

  handle_stop-total : handle_stop m ≢ none
  unfolding handle_stop
  handle_stop-total e = elim (Option-cases m.cur_proc) [
    | inl x ↦ ground arith
    | inr (p, x) ↦ let (i, s, y, z) = cur_slot-total p x in ground arith
  ]

  handle_kill-total : handle_kill m ≢ none
  unfolding handle_kill
  handle_kill-total e = elim (Option-cases m.cur_proc) [
    | inl x ↦ ground arith
    | inr (p, x) ↦ let (i, s, y, z) = cur_slot-total p x in ground arith
  ]

  handle_exit-total :
      (pid : ℕ) (r : Option ExitCode) → In pid m.live → handle_exit c w pid r m ≢ none
  unfolding handle_exit
  handle_exit-total pid r mine e = elim (Option-cases m.cur_proc) [
    | inl x ↦ (let q : m.live ≡ [] = ground (arith, h.core.live_one) in subst (In pid) q mine)
    | inr (p, x) ↦ let (i, s, y, z) = cur_slot-total p x in ground arith
  ]

  pub select_case-total : (e : Event) → Enabled m e → select_case c w e m ≢ none
  unfolding select_case handle_start handle_delete handle_restart handle_health_tick
      handle_health_result
  select_case-total (command ping) en eq = cc
  select_case-total (command start) en eq = cc
  select_case-total (command stop) en eq = handle_stop-total eq
  select_case-total (command delete) en eq = cc
  select_case-total kill_timer en eq = handle_kill-total eq
  select_case-total (exited pid r) en eq = handle_exit-total pid r en eq
  select_case-total restart_timer en eq = ground (arith, h.core.restart_exec)
  select_case-total health_tick en eq = ground (arith, h.ticking)
  select_case-total (health_result b) en eq = cc

pub handle-total :
    (c : Child) (w : World) (m : Manager) (e : Event)
    → IsConsistent c m
    → Enabled m e
    → (m' : Manager) × (handle c w e m ≡ some m')
unfolding handle
handle-total c w m e h en = elim (Option-cases (select_case c w e m)) [
  | inl x ↦ absurd (select_case-total c w m h e en x)
  | inr (n, x) ↦ (if n.finished then n else publish (adjust_ticker c n), rw (x, handle))
]
