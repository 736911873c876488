-- ===== src/Shx/Tests.antt =====
-- lib/shx: output that is captured, and a command with sudo.
use gdev.Base.{ℕ, ◌≡◌, refl, false, none, some, List, [], ◌∷◌}
use gdev.Shx.Capture.{
  Faults, empty_capture, init, write_local, write_out, done_writing, reader, copy,
}
use gdev.Shx.Capture.Whole.{concat, reader-copy}
use gdev.Shx.Command.{
  Sys, Opt, with_sudo, with_sudo_user, with_umask, capture_output, pass_stderr, new_cmd, with,
  prepare,
}
use gdev.Shx.Command.Sudo.{OnlySudo, prepare-sudo}

abbrev works : Faults
works = record { create = none; remove = none; write = none; close = none; seek = none }

abbrev chunks : List (List ℕ × Faults)
chunks = (1 ∷ 2 ∷ [], works) ∷ (3 ∷ [], works) ∷ []

copied : (copy chunks (init empty_capture)).0 ≡ none
unfolding copy init write_local write_out
copied = refl

reader-copy_example :
    reader (done_writing works (copy chunks (init empty_capture)).1).1 ≡ some (concat chunks)
reader-copy_example = reader-copy chunks works copied refl

abbrev sys : Sys
sys = record {
  environ = ("HOME", "/root") ∷ ("PATH", "/bin") ∷ [];
  using_sudo_rs = false;
  app_name = "gdev";
  octal = λ n. "022";
}

abbrev opts : List Opt
opts = with_sudo "install" ∷ capture_output ∷ pass_stderr ∷ []

prepare-sudo_example :
    OnlySudo (prepare sys works (with sys opts (new_cmd "apt" ("update" ∷ [])))).0.env
prepare-sudo_example = prepare-sudo sys works opts "apt" ("update" ∷ []) refl refl

-- The options of sudo are put after the shell's name when a umask is set after them.
umask_after_sudo :
    (prepare sys works
      (with sys (with_sudo_user "bob" "x" ∷ with_umask 18 ∷ []) (new_cmd "id" []))).0.args
    ≡ "/bin/sh" ∷ "-u" ∷ "bob" ∷ "-c" ∷ "umask 0022 && exec \"$@\"" ∷ "--" ∷ "sudo" ∷ "id" ∷ []
unfolding prepare with
umask_after_sudo = refl
