-- ===== src/Pm/Run/Ends.antt =====
-- addons/pm/server/child.go, `child.run`: a stop command ends the process of a child.
use gdev.Base.{ℕ, ◌≡◌, Option, some, [], ◌∷◌, ◌++◌, true, arith, Option-cases, inl, inr}
use gdev.Pm.Api.{Child, ExitCode, stopped, stopping}
use gdev.Pm.Child.{World, sigterm, Manager, command, exited, stop, exec_at}
use gdev.Pm.Run.{handle, select_case, handle_stop, handle_exit, cleanup_all, adjust_ticker, publish}
use gdev.Pm.Run.Reach.{Reach, Reach-IsConsistent, Reach-unfinished}

module _ (c : Child) (w w' : World) (m m' m'' : Manager) (p : ℕ) (r : Option ExitCode)
    (reached : Reach c m) (proc : m.cur_proc ≡ some p) where
  pub stop_busy_lem :
      handle c w (command stop) m ≡ some m'
      → (m'.status.state ≡ stopping)
        × (m'.kill ≡ true)
        × (m'.effects ≡ m.effects ++ sigterm p ∷ [])
        × (m'.cur_proc ≡ some p)
        × (m'.live ≡ p ∷ [])
        × (m'.finished ≡ m.finished)
  unfolding handle select_case handle_stop adjust_ticker publish
  stop_busy_lem e = elim (Option-cases m.cur_exec) [
    | inl x ↦ absurd (ground arith)
    | inr (i, x) ↦ elim (Option-cases (exec_at m.status i)) [
      | inl y ↦ absurd (ground arith)
      | inr (s, y) ↦
          ground (arith, (Reach-IsConsistent reached).core.live_one, Reach-unfinished reached)
    ]
  ]

  -- From a reached state with a process `p`, a stop command sends it SIGTERM, arms the kill timer and
  -- reports the child stopping; when the process then exits, with whatever result, the child is
  -- stopped and no process is live.
  pub stop-exit :
      handle c w (command stop) m ≡ some m'
      → handle c w' (exited p r) m' ≡ some m''
      → (m'.status.state ≡ stopping)
        × (m'.kill ≡ true)
        × (m'.effects ≡ m.effects ++ sigterm p ∷ [])
        × (m''.status.state ≡ stopped)
        × (m''.live ≡ [])
  unfolding handle select_case handle_exit adjust_ticker publish cleanup_all
  stop-exit e e' =
      let (a, b, d, f, g, k) = stop_busy_lem e in ground (arith, Reach-unfinished reached)
