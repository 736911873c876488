-- ===== src/Pm/Run/Reach.antt =====
-- addons/pm/server/child.go, `child.run`: what holds in every state that the loop reaches.
use gdev.Base.{
  ℕ, ◌≡◌, ◌≢◌, refl, true, false, ◌&&◌, none, some, List, [], length, arith, is_some, All, map, ap,
  if◌then◌else◌, zero, suc, ◌∷◌,
}
use gdev.Pm.Api.{Child, running, ended, ExecStatus}
use gdev.Pm.Child.{World, Manager, Event, new_manager}
use gdev.Pm.Run.{is_running, is_success, handle}
use gdev.Pm.Run.Consistent.{PrefixDone, is_busy}
use gdev.Pm.Run.Turn.{Enabled, Timely, IsConsistent, is_on, handle-IsConsistent}
use gdev.Pm.Run.Total.{select_case-total}

-- The states that the loop passes through, from the one that `newChild` sets up.
pub data Reach (c : Child) : Manager → Type 0 where
  begin : Reach c (new_manager c)
  turn :
      {m m' : Manager}
      → Reach c m
      → (w : World) (e : Event) → Enabled m e
      → Timely m e
      → handle c w e m ≡ some m'
      → m'.finished ≡ false
      → Reach c m'

length-map {ℓ κ} :
    {A : Type ℓ} {B : Type κ} (f : A → B) (xs : List A) → length (map f xs) ≡ length xs
length-map f [] = refl
length-map f (x ∷ xs) = ap suc (length-map f xs)

pub new_manager-IsConsistent : (c : Child) → IsConsistent c (new_manager c)
unfolding new_manager
new_manager-IsConsistent c = record {
  core = record {
    slots = length-map _ c.init;
    busy = refl;
    proc_exec = λ e. cc;
    restart_exec = λ e. cc;
    bound = tt;
    placed = tt;
    live_one = refl;
    inits_done = tt;
  };
  ticking = refl;
  counting = refl;
  reported = refl;
}

pub Reach-IsConsistent : {c : Child} {m : Manager} → Reach c m → IsConsistent c m
Reach-IsConsistent {c} begin = new_manager-IsConsistent c
Reach-IsConsistent {c} (turn {m} {m'} r w e en ti eq go_on) =
    handle-IsConsistent c w e m m' (Reach-IsConsistent r) en ti eq go_on

-- In a state that the loop reaches while restarts come only when no process runs, no event that the
-- environment can cause panics: `handle` returns a next state.
pub handle-no_panic :
    (c : Child) (m : Manager) (w : World) (e : Event)
    → Reach c m
    → Enabled m e
    → handle c w e m ≢ none
unfolding handle
handle-no_panic c m w e r en eq = select_case-total c w m (Reach-IsConsistent r) e en (ground arith)

-- In a state that the loop reaches while restarts come only when no process runs,
-- one process is live if the child is init-running, running or stopping, and none otherwise.
pub Reach-one_process :
    (c : Child) (m : Manager)
    → Reach c m
    → length m.live ≡ (if is_busy m.status.state then 1 else 0)
Reach-one_process c m r =
    ground (arith, (Reach-IsConsistent r).core.live_one, (Reach-IsConsistent r).core.busy)

PrefixDone-All :
    (xs : List ExecStatus) (n : ℕ)
    → length xs ≡ n
    → PrefixDone xs n
    → All (λ s. (s.state ≡ ended) × (is_success s.exit_code ≡ true)) xs
PrefixDone-All [] n e h = tt
PrefixDone-All (x ∷ xs) zero e h = absurd (omega arith)
PrefixDone-All (x ∷ xs) (suc n) e h = ((h.0, h.1), PrefixDone-All xs n (omega arith) h.2)

-- In a state that the loop reaches while restarts come only when no process runs, if the
-- child is running then every init process has ended with exit code 0.
pub Reach-inits_done :
    (c : Child) (m : Manager)
    → Reach c m
    → m.status.state ≡ running
    → All (λ s. (s.state ≡ ended) × (is_success s.exit_code ≡ true)) m.status.init
Reach-inits_done c m r e =
    let h = (Reach-IsConsistent r).core in
    PrefixDone-All m.status.init (length c.init) h.slots (ground arith)

-- In a state that the loop reaches while restarts come only when no process runs,
-- the health-check ticker runs exactly while the child is running and has a health
-- check, and what `Status` reports is the manager's own status.
pub Reach-ticking :
    (c : Child) (m : Manager)
    → Reach c m
    → (is_on m.ticker ≡ (is_running m.status.state && is_some c.health_check))
      × (m.published ≡ m.status)
Reach-ticking c m r = ((Reach-IsConsistent r).ticking, (Reach-IsConsistent r).reported)

pub Reach-unfinished : {c : Child} {m : Manager} → Reach c m → m.finished ≡ false
unfolding new_manager
Reach-unfinished begin = refl
Reach-unfinished (turn r w e en ti eq go_on) = go_on
