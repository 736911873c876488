-- ===== src/Stack/Start/Calls.antt =====
-- addons/stack/start.go: the calls that the start of services makes.
use mathlib.Core.List.{append-nil, append_assoc}
use gdev.Base.{
  ℕ, suc, ◌≡◌, refl, sym, ◌∙◌, none, some, List, [], ◌∷◌, ◌++◌, map, arith, take, Option-cases, inl,
  inr,
}
use gdev.Stack.Resources.{Resource}
use gdev.Stack.Start.{Call, Env, Outcome, start_call, start_resources}

-- The log goes on with the first of the calls; with all of them if there is no error.
pub record Follows (calls log : List Call) (o : Outcome) : Type 0 where
  pub count : ℕ
  pub made : o.1 ≡ log ++ take count calls
  pub all : o.0 ≡ [] → o.1 ≡ log ++ calls

start_resources-fails :
    (env : Env) (r : Resource) (rs : List Resource) (log : List Call) (e : _)
    → env.fails (log ++ start_call r ∷ []) ≡ some e
    → start_resources env (r ∷ rs) log ≡ (e ∷ [], log ++ start_call r ∷ [])
unfolding start_resources
start_resources-fails env r rs log e x = ground (arith, x)

start_resources-next :
    (env : Env) (r : Resource) (rs : List Resource) (log : List Call)
    → env.fails (log ++ start_call r ∷ []) ≡ none
    → start_resources env (r ∷ rs) log ≡ start_resources env rs (log ++ start_call r ∷ [])
unfolding start_resources
start_resources-next env r rs log x = ground (arith, x)

pub start_resources-Follows :
    (env : Env) (rs : List Resource) (log : List Call)
    → Follows (map start_call rs) log (start_resources env rs log)
unfolding start_resources
start_resources-Follows env [] log = record {
  count = 0;
  made = sym (append-nil log);
  all = λ e. sym (append-nil log);
}
start_resources-Follows env (r ∷ rs) log =
    elim (Option-cases (env.fails (log ++ start_call r ∷ []))) [
      | inl x ↦
          let h = start_resources-Follows env rs (log ++ start_call r ∷ []) in
          rw (start_resources-next env r rs log x) (record {
            count = suc h.count;
            made = h.made ∙ append_assoc log (start_call r ∷ []) _;
            all = λ e. h.all e ∙ append_assoc log (start_call r ∷ []) _;
          })
      | inr (e, x) ↦
          rw (start_resources-fails env r rs log e x)
            (record { count = 1; made = refl; all = λ q. cc })
    ]
