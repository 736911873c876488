-- ===== src/Pm/Run/Consistent.antt =====
-- addons/pm/server/child.go, `child.run`: what holds of the manager between two turns of its loop.
use gdev.Base.{
  ℕ, zero, suc, ◌≤◌, ◌<◌, ◌≡◌, refl, ◌∙◌, ◌⊎◌, ltb, Bool, true, false, Option, none, some, List, [],
  ◌∷◌, ap, arith, is_some, length, get_elem?, set, length-set, Bool-cases, Option-cases, inl, inr,
}
use gdev.Pm.Api.{
  Exec, Child, ended, ExecStatus, ChildStatus, ChildState, init_running, init_error, running,
  stopping, error,
}
use gdev.Pm.Child.{
  World, ProcName, Started, open_and_spawn, Manager, exec_write, start_at, start_exec,
}
use gdev.Pm.Run.{cur_slot, is_success, cleanup_execs}

-- A process of the child runs in exactly these states.
abbrev pub is_busy : ChildState → Bool
is_busy init_running = true
is_busy running = true
is_busy stopping = true
is_busy _ = false

-- The slots before `i` are of processes that ended with code 0.
abbrev pub PrefixDone : List ExecStatus → ℕ → Type 0
PrefixDone xs zero = Unit
PrefixDone [] (suc i) = Unit
PrefixDone (x ∷ xs) (suc i) = (x.state ≡ ended) × (is_success x.exit_code ≡ true) × PrefixDone xs i

abbrev pub ExecDone : List ExecStatus → Option ℕ → Type 0
ExecDone xs none = Unit
ExecDone xs (some i) = PrefixDone xs i

abbrev pub ExecBound : ℕ → Option ℕ → Type 0
ExecBound n none = Unit
ExecBound n (some i) = i ≤ n

abbrev pub live_of : Option ℕ → List ℕ
live_of none = []
live_of (some p) = p ∷ []

abbrev pub Placed : ℕ → ChildState → Option ℕ → Type 0
Placed n init_running (some i) = i < n
Placed n init_running none = ⊥
Placed n running e = e ≡ some n
Placed n _ e = Unit

pub record Core (c : Child) (m : Manager) : Type 0 where
  pub slots : length m.status.init ≡ length c.init
  pub busy : is_some m.cur_proc ≡ is_busy m.status.state
  pub proc_exec : is_some m.cur_proc ≡ true → is_some m.cur_exec ≡ true
  pub restart_exec : m.restart ≡ true → is_some m.cur_exec ≡ true
  pub bound : ExecBound (length c.init) m.cur_exec
  pub placed : Placed (length c.init) m.status.state m.cur_exec
  pub live_one : m.live ≡ live_of m.cur_proc
  pub inits_done : ExecDone m.status.init m.cur_exec

PrefixDone-set :
    (xs : List ExecStatus) (i : ℕ) (s : ExecStatus) → PrefixDone xs i → PrefixDone (set xs i s) i
PrefixDone-set [] zero s h = tt
PrefixDone-set [] (suc i) s h = tt
PrefixDone-set (x ∷ xs) zero s h = tt
PrefixDone-set (x ∷ xs) (suc i) s h = (h.0, h.1, PrefixDone-set xs i s h.2)

PrefixDone-set-suc :
    (xs : List ExecStatus) (i : ℕ) (s : ExecStatus)
    → PrefixDone xs i
    → s.state ≡ ended
    → is_success s.exit_code ≡ true
    → PrefixDone (set xs i s) (suc i)
PrefixDone-set-suc [] zero s h p q = tt
PrefixDone-set-suc [] (suc i) s h p q = tt
PrefixDone-set-suc (x ∷ xs) zero s h p q = (p, q, tt)
PrefixDone-set-suc (x ∷ xs) (suc i) s h p q = (h.0, h.1, PrefixDone-set-suc xs i s h.2 p q)

pub write-slots :
    (st : ChildStatus) (i : ℕ) (e : ExecStatus) → length (exec_write st i e).init ≡ length st.init
unfolding exec_write
write-slots st i e = ground (arith, length-set st.init i e)

pub write-PrefixDone :
    (st : ChildStatus) (i : ℕ) (e : ExecStatus)
    → PrefixDone st.init i
    → PrefixDone (exec_write st i e).init i
unfolding exec_write
write-PrefixDone st i e h = elim (Bool-cases (ltb i (length st.init))) [
  | inl p ↦ rw (p, exec_write) (PrefixDone-set st.init i e h)
  | inr p ↦ rw (p, exec_write) h
]

pub write-state : (st : ChildStatus) (i : ℕ) (e : ExecStatus) → (exec_write st i e).state ≡ st.state
unfolding exec_write
write-state st i e = ground arith

pub cleanup_execs-slots :
    (w : World) (xs : List ExecStatus) → length (cleanup_execs w xs).0 ≡ length xs
unfolding cleanup_execs
cleanup_execs-slots w [] = refl
cleanup_execs-slots w (x ∷ xs) = ap suc (cleanup_execs-slots w xs)

pub cleanup_execs-PrefixDone :
    (w : World) (xs : List ExecStatus) (i : ℕ)
    → PrefixDone xs i
    → PrefixDone (cleanup_execs w xs).0 i
unfolding cleanup_execs
cleanup_execs-PrefixDone w [] zero h = tt
cleanup_execs-PrefixDone w [] (suc i) h = tt
cleanup_execs-PrefixDone w (x ∷ xs) zero h = tt
cleanup_execs-PrefixDone w (x ∷ xs) (suc i) h =
    (ground arith, ground arith, cleanup_execs-PrefixDone w xs i h.2)

pub write-PrefixDone-suc :
    (st : ChildStatus) (i : ℕ) (e : ExecStatus)
    → i < length st.init
    → PrefixDone st.init i
    → e.state ≡ ended
    → is_success e.exit_code ≡ true
    → PrefixDone (exec_write st i e).init (suc i)
unfolding exec_write
write-PrefixDone-suc st i e lt h p q = ground (arith, PrefixDone-set-suc st.init i e)

pub cur_slot-exec :
    (m : Manager) (i : ℕ) (s : ExecStatus) → cur_slot m ≡ some (i, s) → m.cur_exec ≡ some i
cur_slot-exec m i s e = ground arith

-- A start either fails, with the error state, or runs one process, with the running state.
abbrev Outcome : ChildState → ChildState → Started → Type 0
Outcome run_state err_state r =
    (r.proc ≡ none) × (r.state ≡ err_state) ⊎ ((p : ℕ) × (r.proc ≡ some p) × (r.state ≡ run_state))

open_and_spawn-Outcome :
    (w : World) (name : ProcName) (e : Exec) (run_state err_state : ChildState)
    → Outcome run_state err_state (open_and_spawn w name e run_state err_state)
open_and_spawn-Outcome w name e run_state err_state = ground arith

get_elem?-lt {ℓ} :
    {A : Type ℓ} (xs : List A) (i : ℕ) {a : A} → get_elem? xs i ≡ some a → i < length xs
get_elem?-lt [] i h = cc
get_elem?-lt (x ∷ xs) zero h = omega arith
get_elem?-lt (x ∷ xs) (suc i) h = omega (arith, get_elem?-lt xs i h)

get_elem?-ge {ℓ} : {A : Type ℓ} (xs : List A) (i : ℕ) → get_elem? xs i ≡ none → length xs ≤ i
get_elem?-ge [] i h = omega arith
get_elem?-ge (x ∷ xs) zero h = cc
get_elem?-ge (x ∷ xs) (suc i) h = omega (arith, get_elem?-ge xs i h)

pub start_exec-Outcome :
    (c : Child) (w : World) (i : ℕ)
    → (i < length c.init) × Outcome init_running init_error (start_exec c w i)
      ⊎ (length c.init ≤ i) × Outcome running error (start_exec c w i)
unfolding start_exec
start_exec-Outcome c w i = elim (Option-cases (get_elem? c.init i)) [
  | inl h ↦ rw (h, start_exec) (inr (get_elem?-ge c.init i h, open_and_spawn-Outcome w _ _ _ _))
  | inr (e, h) ↦
      rw (h, start_exec) (inl (get_elem?-lt c.init i h, open_and_spawn-Outcome w _ _ _ _))
]

module _ (c : Child) (w : World) (i : ℕ) (m : Manager) where
  pub start_at-Core :
      length m.status.init ≡ length c.init
      → i ≤ length c.init
      → m.live ≡ []
      → PrefixDone m.status.init i
      → Core c (start_at c w i m)
  unfolding start_at
  start_at-Core sl le lv done_before = record {
    slots = write-slots m.status i (start_exec c w i).slot ∙ sl;
    busy = ground (arith, start_exec-Outcome c w i);
    proc_exec = ground arith;
    restart_exec = ground arith;
    bound = le;
    placed = ground (arith, start_exec-Outcome c w i);
    live_one = ground (arith, start_exec-Outcome c w i);
    inits_done = write-PrefixDone m.status i (start_exec c w i).slot done_before;
  }
