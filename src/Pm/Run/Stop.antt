-- ===== src/Pm/Run/Stop.antt =====
-- addons/pm/server/child.go, `child.run`: what a stop command does, and the timers that it and a start
-- leave armed.
use gdev.Base.{
  ℕ, ◌≡◌, refl, Bool, true, false, Option, none, some, List, [], ◌∷◌, ◌++◌, arith, ◌==◌,
  if◌then◌else◌, length, In, Option-cases, inl, inr, ap, ◌∙◌,
}
use gdev.Pm.Api.{Child, ExitCode, ChildState, stopped, init_error, running, stopping, error}
use gdev.Pm.Child.{
  World, Effect, sigkill, cleaned, Manager, command, kill_timer, exited, restart_timer, start, stop,
  exec_at, start_at, start_exec,
}
use gdev.Pm.Run.{
  select_case, handle, handle_start, handle_stop, handle_kill, handle_exit, handle_restart,
  adjust_ticker, publish, remove_live,
}
use gdev.Pm.Run.Consistent.{is_busy, start_exec-Outcome}
use gdev.Pm.Run.Turn.{Enabled}

abbrev is_failed : ChildState → Bool
is_failed error = true
is_failed init_error = true
is_failed _ = false

handle_kill_effect :
    (m m' : Manager) (p : ℕ)
    → m.cur_proc ≡ some p
    → handle_kill m ≡ some m'
    → (m'.status.state ≡ stopping)
      × ((rest : List Effect) × (m'.effects ≡ m.effects ++ sigkill p ∷ rest))
unfolding handle_kill
handle_kill_effect m m' p proc e = elim (Option-cases m.cur_exec) [
  | inl x ↦ absurd (ground arith)
  | inr (i, x) ↦ elim (Option-cases (exec_at m.status i)) [
    | inl y ↦ absurd (ground arith)
    | inr (s, y) ↦
        (ground arith, (if s.group == "" then [] else cleaned s.group ∷ [], ground arith))
  ]
]

-- A main process that has just been launched for a child with no init processes.
record Launched (m m' : Manager) (p : ℕ) : Type 0 where
  exec : m'.cur_exec ≡ some 0
  proc : m'.cur_proc ≡ some p
  state : m'.status.state ≡ running
  unfinished : m'.finished ≡ false
  live : m'.live ≡ p ∷ m.live

module _ (c : Child) (w : World) (m m' : Manager) (p : ℕ) (no_init : c.init ≡ [])
    (launch : (start_exec c w 0).proc ≡ some p) (unfinished : m.finished ≡ false) where
  no_init_length : length c.init ≡ 0
  no_init_length = ap length no_init

  start-Launched :
      m.status.state ≡ error
      → handle c w (command start) m ≡ some m'
      → Launched m m' p × (m'.restart ≡ m.restart)
  unfolding handle select_case handle_start start_at adjust_ticker publish
  start-Launched st e = ground (arith, start_exec-Outcome c w 0, no_init_length)

  restart-Launched : m.cur_exec ≡ some 0 → handle c w restart_timer m ≡ some m' → Launched m m' p
  unfolding handle select_case handle_restart start_at adjust_ticker publish
  restart-Launched x e = ground (arith, start_exec-Outcome c w 0, no_init_length)

module _ (c : Child) (w : World) (m m' : Manager) (p : ℕ) (r : Option ExitCode)
    (unfinished : m.finished ≡ false) where
  exit_running-none :
      m.status.state ≡ running
      → handle c w (exited p r) m ≡ some m'
      → (m'.cur_proc ≡ none) × (m'.live ≡ remove_live p m.live)
  unfolding handle select_case handle_exit adjust_ticker publish
  exit_running-none st e = ground arith

exit-panics :
    (c : Child) (w : World) (m : Manager) (p : ℕ) (r : Option ExitCode)
    → m.cur_proc ≡ none
    → handle c w (exited p r) m ≡ none
unfolding handle select_case handle_exit
exit-panics c w m p r x = ground arith

In-remove_live : (p q : ℕ) (l : List ℕ) → In q (remove_live p (q ∷ p ∷ l))
In-remove_live p q l = ground arith

module _ (c : Child) (m : Manager) (unfinished : m.finished ≡ false) where
  -- Stop of a failed child with a restart pending: the child is reported stopped, the restart timer
  -- stays armed, and when it fires with a launch that succeeds a process runs again.
  pub stop-keeps_restart :
      (w w' : World) (m' m'' : Manager) (p : ℕ)
      → m.cur_proc ≡ none
      → is_failed m.status.state ≡ true
      → m.restart ≡ true
      → handle c w (command stop) m ≡ some m'
      → handle c w' restart_timer m' ≡ some m''
      → (start_exec c w' 0).proc ≡ some p
      → (m'.status.state ≡ stopped) × Enabled m' restart_timer × (is_busy m''.status.state ≡ true)
  unfolding handle select_case handle_stop handle_restart start_at adjust_ticker publish
  stop-keeps_restart w w' m' m'' p proc fail armed e e' sp =
      ground (arith, start_exec-Outcome c w' 0)

  -- Start of a stopped child whose last stop armed the kill timer: when that timer fires, the new
  -- process is sent SIGKILL and the child is stopping.
  pub start-keeps_kill :
      (w w' : World) (m' m'' : Manager) (p : ℕ)
      → m.status.state ≡ stopped
      → m.kill ≡ true
      → handle c w (command start) m ≡ some m'
      → (start_exec c w 0).proc ≡ some p
      → handle c w' kill_timer m' ≡ some m''
      → Enabled m' kill_timer
        × (m''.status.state ≡ stopping)
        × ((rest : List Effect) × (m''.effects ≡ m'.effects ++ sigkill p ∷ rest))
  unfolding handle select_case handle_start start_at adjust_ticker publish
  start-keeps_kill w w' m' m'' p st armed e sp e' = elim (Option-cases (handle_kill m')) [
    | inl x ↦ absurd (ground arith)
    | inr (n, x) ↦
        let (q, (rest, y)) = handle_kill_effect m' n p (ground arith) x in
        (ground arith, ground arith, (rest, ground arith))
  ]

  -- Start of a failed child with a restart pending, where the child has no init processes: when the
  -- restart timer fires too, two processes run, and after the exit of the first the exit of the
  -- second panics.
  pub start-keeps_restart_panics :
      (w₁ w₂ w₃ w₄ : World) (m₁ m₂ m₃ : Manager) (p q : ℕ) (r r' : Option ExitCode)
      → c.init ≡ []
      → m.status.state ≡ error
      → m.restart ≡ true
      → handle c w₁ (command start) m ≡ some m₁
      → (start_exec c w₁ 0).proc ≡ some p
      → handle c w₂ restart_timer m₁ ≡ some m₂
      → (start_exec c w₂ 0).proc ≡ some q
      → handle c w₃ (exited p r) m₂ ≡ some m₃
      → Enabled m₁ restart_timer
        × In p m₂.live
        × In q m₃.live
        × (handle c w₄ (exited q r') m₃ ≡ none)
  start-keeps_restart_panics w₁ w₂ w₃ w₄ m₁ m₂ m₃ p q r r' no_init st armed e₁ s₁ e₂ s₂ e₃ =
      let (a, b) = start-Launched c w₁ m m₁ p no_init s₁ unfinished st e₁ in
      let l = restart-Launched c w₂ m₁ m₂ q no_init s₂ a.unfinished a.exec e₂ in
      let (x, y) = exit_running-none c w₃ m₂ m₃ p r l.unfinished l.state e₃ in
      let z : m₂.live ≡ q ∷ p ∷ m.live = l.live ∙ ap (λ t. q ∷ t) a.live in
      (
        b ∙ armed,
        rw z (inr (inl refl)),
        rw (y, z) (In-remove_live p q m.live),
        exit-panics c w₄ m₃ q r' x,
      )
