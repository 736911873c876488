-- ===== src/Shx/Command/Sudo.antt =====
-- lib/shx/options.go: what `WithSudo` does to the environment and to the arguments.
use gdev.Base.{
  ◌≡◌, refl, String, Bool, true, false, ◌||◌, Option, none, some, List, [], ◌∷◌, All, All-append,
  arith, ap, ◌∙◌, sym, subst, Bool-cases, ◌⊎◌, inl, inr,
}
use gdev.Base.Dict.{Dict}
use gdev.Shx.Capture.{Faults}
use gdev.Shx.Command.{
  Sys, Opt, with_sudo_user, with_env, Cmd, Exec, Outcome, new_cmd, apply, apply_all, with,
  apply_exec, apply_execs, apply_env, prepare, no_input, discarded, env_or_empty,
}

abbrev pub is_sudo : Opt → Bool
is_sudo (with_sudo_user user purpose) = true
is_sudo _ = false

abbrev pub is_env : Opt → Bool
is_env (with_env k v) = true
is_env _ = false

abbrev pub any : (Opt → Bool) → List Opt → Bool
any test [] = false
any test (o ∷ opts) = test o || any test opts

-- The variables that `WithSudo` sets.
abbrev pub IsForSudo : String × String → Type 0
IsForSudo (name, value) = (name ≡ "SUDO_ASKPASS") ⊎ (name ≡ "SUDO_PROMPT")

-- An environment of these variables alone.
abbrev pub OnlySudo : Option (Dict String) → Type 0
OnlySudo none = ⊥
OnlySudo (some env) = All IsForSudo env

abbrev NoneOrSudo : Option (Dict String) → Type 0
NoneOrSudo none = Unit
NoneOrSudo (some env) = All IsForSudo env

All-env : (o : Option (Dict String)) → NoneOrSudo o → All IsForSudo (env_or_empty o)
All-env none h = tt
All-env (some env) h = h

weaker : (o : Option (Dict String)) → OnlySudo o → NoneOrSudo o
weaker none h = elim h [ ]
weaker (some env) h = h

module _ (sys : Sys) (f : Faults) where
  apply_exec-sudo :
      (o : Opt) (x : Exec) (r : Outcome)
      → is_sudo o ≡ true
      → NoneOrSudo x.env
      → OnlySudo (apply_exec sys f [] o x r).0.env
  unfolding apply_exec
  apply_exec-sudo (with_sudo_user user purpose) x r s h =
      All-append IsForSudo (env_or_empty x.env) _ (All-env x.env h) (inl refl, (inr refl, tt))
  apply_exec-sudo _ x r s h = cc

  apply_exec-env :
      (o : Opt) (x : Exec) (r : Outcome)
      → is_sudo o ≡ false
      → (apply_exec sys f [] o x r).0.env ≡ x.env
  unfolding apply_exec
  apply_exec-env (with_sudo_user user purpose) x r s = cc
  apply_exec-env _ x r s = refl

  apply_execs-OnlySudo :
      (opts : List Opt) (x : Exec) (r : Outcome)
      → OnlySudo x.env
      → OnlySudo (apply_execs sys f [] opts x r).0.env
  unfolding apply_execs
  apply_execs-OnlySudo [] x r h = h
  apply_execs-OnlySudo (o ∷ opts) x r h =
      let next = apply_exec sys f [] o x r in
      apply_execs-OnlySudo opts next.0 next.1 (elim (Bool-cases (is_sudo o)) [
        | inl s ↦ apply_exec-sudo o x r s (weaker x.env h)
        | inr s ↦ subst OnlySudo (sym (apply_exec-env o x r s)) h
      ])

  apply_execs-sudo :
      (opts : List Opt) (x : Exec) (r : Outcome)
      → any is_sudo opts ≡ true
      → NoneOrSudo x.env
      → OnlySudo (apply_execs sys f [] opts x r).0.env
  unfolding apply_execs
  apply_execs-sudo [] x r s h = cc
  apply_execs-sudo (o ∷ opts) x r s h =
      let next = apply_exec sys f [] o x r in
      elim (Bool-cases (is_sudo o)) [
        | inl q ↦ apply_execs-OnlySudo opts next.0 next.1 (apply_exec-sudo o x r q h)
        | inr q ↦
            apply_execs-sudo opts next.0 next.1 (ground (arith, q, s))
              (subst NoneOrSudo (sym (apply_exec-env o x r q)) h)
      ]

  apply-env :
      (o : Opt) (c : Cmd)
      → is_env o ≡ false
      → ((apply sys o c).env ≡ c.env) × ((apply sys o c).opts ≡ c.opts)
  unfolding apply
  apply-env (with_env k v) c s = cc
  apply-env _ c s = (refl, refl)

  apply_all-env :
      (opts : List Opt) (c : Cmd)
      → any is_env opts ≡ false
      → ((apply_all sys opts c).env ≡ c.env) × ((apply_all sys opts c).opts ≡ c.opts)
  unfolding apply_all
  apply_all-env [] c s = (refl, refl)
  apply_all-env (o ∷ opts) c s =
      let (e, n) = apply_all-env opts (apply sys o c) (ground (arith, s)) in
      let (e', n') = apply-env o c (ground (arith, s)) in (e ∙ e', n ∙ n')

  prepared : (c : Cmd) → c.env ≡ [] → any is_sudo c.opts ≡ true → OnlySudo (prepare sys f c).0.env
  unfolding prepare apply_env
  prepared c e s =
      let start = λ (env : Dict String).
        let x : Exec = record {
          args = c.cmd_and_args;
          env = apply_env sys env;
          dir = "";
          stdin = no_input;
          stdout = discarded;
          stderr = discarded;
        } in
        x in
      let nothing : Outcome = record { stdout_capture = none; stderr_capture = none; store = [] } in
      subst (λ env. OnlySudo (apply_execs sys f env c.opts (start env) nothing).0.env) (sym e)
        (apply_execs-sudo c.opts (start []) nothing s tt)

  -- A command with `WithSudo` and no `WithEnv` runs without the environment of this process: the variables
  -- that it gets are the two that `WithSudo` sets.
  pub prepare-sudo :
      (opts : List Opt) (name : String) (args : List String)
      → any is_sudo opts ≡ true
      → any is_env opts ≡ false
      → OnlySudo (prepare sys f (with sys opts (new_cmd name args))).0.env
  unfolding with
  prepare-sudo opts name args s n =
      let c : Cmd = record (new_cmd name args) { opts = opts } in
      let (e, o) = apply_all-env opts c n in
      prepared (apply_all sys opts c) e (ap (any is_sudo) o ∙ s)
