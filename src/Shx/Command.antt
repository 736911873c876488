-- ===== src/Shx/Command.antt =====
-- lib/shx/cmd.go, options.go and result.go: a command is built by options, and run.
--
-- `Sys` has what the model does not compute: the environment, what `sudo --version` tells, the name of the
-- app, and a file mode in octal. Captures are pointers: a command holds indices into a store, since the
-- captures of its two outputs may be one. The environment is a list of names and values.
pub mod Sudo
use Prim.Native.String.{◌++◌ as ◌<>◌}
use gdev.Base.{
  ℕ, String, Bool, true, false, not, Option, none, some, List, [], ◌∷◌, ◌++◌, map, if◌then◌else◌,
  ◌==◌, eqb, length, get_elem?, set,
}
use gdev.Base.Dict.{Dict, insert}
use gdev.Shx.Capture.{Error, Faults, Capture, empty_capture, init, close, join_all}

pub record Sys : Type 0 where
  pub environ : Dict String
  pub using_sudo_rs : Bool
  pub app_name : String
  pub octal : ℕ → String

pub data Sink : Type 0 where
  discarded os_stdout os_stderr : Sink
  captured : ℕ → Sink

pub data Source : Type 0 where
  no_input os_stdin : Source
  fed : String → Source

pub data Opt : Type 0 where
  with_combined_error capture_output capture_error capture_combined : Opt
  pass_stdout pass_stderr pass_stdin pass_output pass_stdio : Opt
  with_cwd feed_stdin : String → Opt
  with_sudo_user : String → String → Opt
  with_umask : ℕ → Opt
  with_env : String → String → Opt

abbrev pub with_sudo : String → Opt
with_sudo purpose = with_sudo_user "" purpose

pub record Cmd : Type 0 where
  pub cmd_and_args : List String
  pub combine_exec_errors : Bool
  pub env : Dict String
  pub opts : List Opt

-- `exec.Cmd`: `none` is the environment of this process.
pub record Exec : Type 0 where
  pub args : List String
  pub env : Option (Dict String)
  pub dir : String
  pub stdin : Source
  pub stdout : Sink
  pub stderr : Sink

pub record Outcome : Type 0 where
  pub stdout_capture : Option ℕ
  pub stderr_capture : Option ℕ
  pub store : List Capture

abbrev pub new_cmd : String → List String → Cmd
new_cmd name args = record {
  cmd_and_args = name ∷ args;
  combine_exec_errors = false;
  env = [];
  opts = [];
}

-- `f.Close()` of what was captured before, whose error is dropped.
unfoldable pub close_at : Faults → Option ℕ → List Capture → List Capture
close_at f none store = store
close_at f (some h) store = elim (get_elem? store h) [
  | none ↦ store
  | some c ↦ set store h (close f c).1
]

abbrev pub push : List Capture → List Capture
push store = store ++ init empty_capture ∷ []

abbrev joined : List String → String
joined [] = ""
joined (x ∷ []) = x
joined (x ∷ y ∷ xs) = x <> "," <> joined (y ∷ xs)

abbrev preserved : List String → List String
preserved [] = []
preserved (x ∷ xs) = ("--preserve-env=" <> joined (x ∷ xs)) ∷ []

-- The list is never empty: `New` puts a name first.
abbrev pub after_first : List String → List String → List String
after_first added [] = []
after_first added (x ∷ xs) = x ∷ (added ++ xs)

abbrev pub env_or_empty : Option (Dict String) → Dict String
env_or_empty none = []
env_or_empty (some env) = env

module _ (sys : Sys) where
  unfoldable pub apply : Opt → Cmd → Cmd
  apply with_combined_error c = record c { combine_exec_errors = true }
  apply (with_sudo_user user purpose) c = record c { cmd_and_args = "sudo" ∷ c.cmd_and_args }
  apply (with_umask mask) c = record c {
    cmd_and_args =
        "/bin/sh"
        ∷ "-c"
        ∷ ("umask 0" <> sys.octal mask <> " && exec \"$@\"")
        ∷ "--"
        ∷ c.cmd_and_args;
  }
  apply (with_env key value) c = record c { env = insert key value c.env }
  apply _ c = c

  unfoldable pub apply_all : List Opt → Cmd → Cmd
  unfolding apply
  apply_all [] c = c
  apply_all (o ∷ opts) c = apply_all opts (apply o c)

  -- `With`.
  unfoldable pub with : List Opt → Cmd → Cmd
  unfolding apply_all
  with opts c = apply_all opts (record c { opts = c.opts ++ opts })

  abbrev pub sudo_env_opts : Dict String → List String
  sudo_env_opts env =
      if sys.using_sudo_rs
      then map (λ (kv : String × String). kv.0 <> "=" <> kv.1) env
      else preserved (map (λ (kv : String × String). kv.0) env)

  abbrev pub sudo_opts : String → Dict String → List String
  sudo_opts user env = (if user == "" then [] else "-u" ∷ user ∷ []) ++ sudo_env_opts env

  abbrev pub sudo_prompt : String → String
  sudo_prompt purpose =
      sys.app_name
      <> " needs the password for %p to "
      <> purpose
      <> (if sys.using_sudo_rs then "" else ": ")

  module _ (f : Faults) (env : Dict String) where
    -- The part of an option at the run; `env` is that of the command.
    unfoldable pub apply_exec : Opt → Exec → Outcome → Exec × Outcome
    unfolding close_at
    apply_exec (with_cwd path) x r = (record x { dir = path }, r)
    apply_exec capture_output x r = (
      record x { stdout = captured (length (close_at f r.stdout_capture r.store)) },
      record r {
        stdout_capture = some (length (close_at f r.stdout_capture r.store));
        store = push (close_at f r.stdout_capture r.store);
      },
    )
    apply_exec capture_error x r = (
      record x { stderr = captured (length (close_at f r.stderr_capture r.store)) },
      record r {
        stderr_capture = some (length (close_at f r.stderr_capture r.store));
        store = push (close_at f r.stderr_capture r.store);
      },
    )
    apply_exec capture_combined x r =
        let store = close_at f r.stderr_capture (close_at f r.stdout_capture r.store) in
        (
          record x { stdout = captured (length store); stderr = captured (length store) },
          record {
            stdout_capture = some (length store);
            stderr_capture = some (length store);
            store = push store;
          },
        )
    apply_exec pass_stdout x r = (
      record x { stdout = os_stdout },
      record r { stdout_capture = none; store = close_at f r.stdout_capture r.store },
    )
    apply_exec pass_stderr x r = (
      record x { stderr = os_stderr },
      record r { stderr_capture = none; store = close_at f r.stderr_capture r.store },
    )
    apply_exec pass_stdin x r = (record x { stdin = os_stdin }, r)
    apply_exec pass_output x r = (
      record x { stdout = os_stdout; stderr = os_stderr },
      record {
        stdout_capture = none;
        stderr_capture = none;
        store = close_at f r.stderr_capture (close_at f r.stdout_capture r.store);
      },
    )
    apply_exec pass_stdio x r = (
      record x { stdout = os_stdout; stderr = os_stderr; stdin = os_stdin },
      record {
        stdout_capture = none;
        stderr_capture = none;
        store = close_at f r.stderr_capture (close_at f r.stdout_capture r.store);
      },
    )
    apply_exec (feed_stdin input) x r = (record x { stdin = fed input }, r)
    apply_exec (with_sudo_user user purpose) x r = (
      record x {
        args = after_first (sudo_opts user env) x.args;
        env = some (
            env_or_empty x.env
            ++ ("SUDO_ASKPASS", "1") ∷ ("SUDO_PROMPT", sudo_prompt purpose) ∷ []);
      },
      r,
    )
    apply_exec with_combined_error x r = (x, r)
    apply_exec (with_umask mask) x r = (x, r)
    apply_exec (with_env key value) x r = (x, r)

    unfoldable pub apply_execs : List Opt → Exec → Outcome → Exec × Outcome
    unfolding apply_exec
    apply_execs [] x r = (x, r)
    apply_execs (o ∷ opts) x r = let (x', r') = apply_exec o x r in apply_execs opts x' r'

  -- `maps.Copy`.
  unfoldable pub copy_env : Dict String → Dict String → Dict String
  copy_env [] base = base
  copy_env ((k, v) ∷ env) base = copy_env env (insert k v base)

  unfoldable pub apply_env : Dict String → Option (Dict String)
  unfolding copy_env
  apply_env [] = none
  apply_env (kv ∷ env) = some (copy_env (kv ∷ env) (copy_env sys.environ []))

  -- `Run` up to `cmd.Start()` of the process.
  unfoldable pub prepare : Faults → Cmd → Exec × Outcome
  unfolding apply_env apply_execs
  prepare f c =
      apply_execs f c.env c.opts
        (record {
          args = c.cmd_and_args;
          env = apply_env c.env;
          dir = "";
          stdin = no_input;
          stdout = discarded;
          stderr = discarded;
        })
        (record { stdout_capture = none; stderr_capture = none; store = [] })
