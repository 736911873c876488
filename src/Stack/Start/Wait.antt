-- ===== src/Stack/Start/Wait.antt =====
-- addons/stack/start.go: the wait until the resources are ready.
use mathlib.Core.List.{append-nil, append_assoc}
use gdev.Base.{
  ℕ, zero, suc, ◌+◌, ◌≡◌, refl, sym, ap, ◌∙◌, true, none, some, List, [], ◌∷◌, ◌++◌, arith, length,
  ◌≤◌, Option-cases, inl, inr, All, is_some, length-append, ◌⊎◌, String, Bool, Option, not, subst,
}
use gdev.Stack.Resources.{Resource, plain, anti}
use gdev.Stack.Start.{Call, checking, Env, ready_call, read_answer, poll, wait_resources}

-- The context is done once so many calls were made, as that of a start with a time limit.
abbrev pub IsDue : Env → ℕ → Type 0
IsDue env n = (log : List Call) → n ≤ length log → is_some (env.done log) ≡ true

-- The second log goes on from the first.
abbrev pub Extends : List Call → List Call → Type 0
Extends log log' = (rest : List Call) × (log' ≡ log ++ rest)

-- The resource under the anti resources around it.
abbrev pub base_of : Resource → String
base_of (plain id) = id
base_of (anti r) = base_of r

-- An answer that counts as ready: of a plain resource, that it is, without an error; of an anti resource, that
-- the one under it does not count as ready.
abbrev pub counts : Resource → Bool × Option String → Bool
counts (plain id) (ready, err) = ready
counts (anti r) answer = not (counts r answer)

abbrev pub HasNoError : Resource → Option String → Type 0
HasNoError (plain id) err = err ≡ none
HasNoError (anti r) err = Unit

-- At some moment up to the log the resource was checked, and answered to that check that it is ready.
abbrev pub WasReady : Env → List Call → Resource → Type 0
WasReady env log r =
    (before : List Call) × (Extends (before ++ checking (base_of r) ∷ []) log
      × ((counts r (env.answers (before ++ checking (base_of r) ∷ [])) ≡ true)
          × HasNoError r (env.answers (before ++ checking (base_of r) ∷ [])).1))

ready_call-checks : (r : Resource) → ready_call r ≡ checking (base_of r)
unfolding ready_call
ready_call-checks (plain id) = refl
ready_call-checks (anti r) = ready_call-checks r

read_answer-counts : (r : Resource) (a : Bool × Option String) → (read_answer r a).0 ≡ counts r a
unfolding read_answer
read_answer-counts (plain id) a = refl
read_answer-counts (anti r) a = ap not (read_answer-counts r a)

read_answer-error :
    (r : Resource) (a : Bool × Option String) → read_answer r a ≡ (true, none) → HasNoError r a.1
unfolding read_answer
read_answer-error (plain id) a e = ap (λ (p : Bool × Option String). p.1) e
read_answer-error (anti r) a e = tt

-- What the wait sees of a resource that is ready.
ready-WasReady :
    (env : Env) (before log : List Call) (r : Resource)
    → Extends (before ++ ready_call r ∷ []) log
    → read_answer r (env.answers (before ++ ready_call r ∷ [])) ≡ (true, none)
    → WasReady env log r
ready-WasReady env before log r x h =
    let same = ap (λ c. before ++ c ∷ []) (ready_call-checks r) in
    let read = subst (λ l. read_answer r (env.answers l) ≡ (true, none)) same h in
    (
      before,
      (
        subst (λ l. Extends l log) same x,
        (
          sym (read_answer-counts r _) ∙ ap (λ (p : Bool × Option String). p.0) read,
          read_answer-error r _ read,
        ),
      ),
    )

pub Extends-trans : (a b c : List Call) → Extends a b → Extends b c → Extends a c
Extends-trans a b c (x, e) (y, f) = (x ++ y, f ∙ (ap (λ l. l ++ y) e ∙ append_assoc a x y))

module _ (env : Env) where
  poll-ends :
      (n fuel : ℕ) (r : Resource) (log : List Call)
      → IsDue env n
      → n ≤ length log + suc fuel
      → is_some (poll env (suc fuel) r log) ≡ true
  unfolding poll
  poll-ends n zero r log due h =
      ground (arith, due (log ++ ready_call r ∷ []), length-append log (ready_call r ∷ []))
  poll-ends n (suc fuel) r log due h = ground (
    arith,
    poll-ends n fuel r (log ++ ready_call r ∷ []) due,
    length-append log (ready_call r ∷ []),
  )

  pub wait_resources-ends :
      (n : ℕ) (rs : List Resource) (log : List Call)
      → IsDue env n
      → is_some (wait_resources env (suc n) rs log) ≡ true
  unfolding wait_resources
  wait_resources-ends n [] log due = refl
  wait_resources-ends n (r ∷ rs) log due = elim (Option-cases (poll env (suc n) r log)) [
    | inl x ↦ absurd (ground (arith, poll-ends n n r log due))
    | inr (o, x) ↦ ground (arith, x, wait_resources-ends n rs o.1 due)
  ]

  poll-last :
      (fuel : ℕ) (r : Resource) (log log' : List Call)
      → poll env (suc fuel) r log ≡ some ([], log')
      → ((log' ≡ log ++ ready_call r ∷ [])
          × (read_answer r (env.answers (log ++ ready_call r ∷ [])) ≡ (true, none)))
        ⊎ (poll env fuel r (log ++ ready_call r ∷ []) ≡ some ([], log'))
  unfolding poll
  poll-last fuel r log log' e = ground arith

  poll-ready :
      (fuel : ℕ) (r : Resource) (log log' : List Call)
      → poll env fuel r log ≡ some ([], log')
      → Extends log log' × WasReady env log' r
  unfolding poll
  poll-ready zero r log log' e = absurd (ground arith)
  poll-ready (suc fuel) r log log' e = elim (poll-last fuel r log log' e) [
    | inl h ↦ (
      (ready_call r ∷ [], h.0),
      ready-WasReady env log log' r ([], h.0 ∙ sym (append-nil (log ++ ready_call r ∷ []))) h.1,
    )
    | inr h ↦
        let (x, a) = poll-ready fuel r (log ++ ready_call r ∷ []) log' h in
        (Extends-trans log (log ++ ready_call r ∷ []) log' (ready_call r ∷ [], refl) x, a)
  ]

  WasReady-extends :
      (a b : List Call) (r : Resource) → Extends a b → WasReady env a r → WasReady env b r
  WasReady-extends a b r x (u, (e, h)) =
      (u, (Extends-trans (u ++ checking (base_of r) ∷ []) a b e x, h))

  wait-first :
      (fuel : ℕ) (r : Resource) (rs : List Resource) (log log' : List Call)
      → wait_resources env fuel (r ∷ rs) log ≡ some ([], log')
      → (mid : List Call) × ((poll env fuel r log ≡ some ([], mid))
          × (wait_resources env fuel rs mid ≡ some ([], log')))
  unfolding wait_resources
  wait-first fuel r rs log log' e = elim (Option-cases (poll env fuel r log)) [
    | inl x ↦ absurd (ground (arith, x))
    | inr (([], mid), x) ↦ (mid, (x, ground (arith, x)))
    | inr ((q ∷ qs, mid), x) ↦ absurd (ground (arith, x))
  ]

  pub wait_resources-ready :
      (fuel : ℕ) (rs : List Resource) (log log' : List Call)
      → wait_resources env fuel rs log ≡ some ([], log')
      → Extends log log' × All (WasReady env log') rs
  unfolding wait_resources
  wait_resources-ready fuel [] log log' e = (([], ground (arith, append-nil log)), tt)
  wait_resources-ready fuel (r ∷ rs) log log' e =
      let (mid, (p, w)) = wait-first fuel r rs log log' e in
      let (x, a) = poll-ready fuel r log mid p in
      let (y, all) = wait_resources-ready fuel rs mid log' w in
      (Extends-trans log mid log' x y, (WasReady-extends mid log' r y a, all))
