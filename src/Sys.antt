-- ===== src/Sys.antt =====
-- lib/sys/sudo-io.go: files that are read and written as root.
--
-- The commands are those of `Shx`; here they are what `mkdir`, `tee` and `chmod` do to one file. A mode is
-- nine bits. `asked` is the mode with which `tee` creates a file, before the umask, and `sudo_umask` is the umask of
-- sudo's policy, which sudo adds to that of the shell that calls it. A `tee` that fails
-- leaves the file as it was: what it wrote before is not modelled.

mod Tests
use gdev.Base.{
  ℕ, ◌≡◌, refl, String, Bool, true, false, not, ◌&&◌, ◌||◌, Option, none, some, List, [], ◌∷◌,
  if◌then◌else◌, arith, ◌⊎◌, inl, inr,
}

pub record Bits : Type 0 where
  pub r : Bool
  pub w : Bool
  pub x : Bool

pub record Mode : Type 0 where
  pub user : Bits
  pub group : Bits
  pub others : Bits

pub record RootFile : Type 0 where
  pub mode : Mode
  pub content : List ℕ

pub data Error : Type 0 where
  not_exist : Error
  other : String → Error
  join : Error → Error → Error

-- `failed` is the error of a command, `none` if it succeeds.
pub record Commands : Type 0 where
  pub asked : Mode
  pub sudo_umask : Mode
  pub dir_there : Bool
  pub mkdir_failed : Option Error
  pub tee_failed : Option Error
  pub chmod_failed : Option Error

abbrev pub without_bits : Bits → Bits → Bits
without_bits a b = record { r = a.r && not b.r; w = a.w && not b.w; x = a.x && not b.x }

-- A mode less a umask.
abbrev pub masked : Mode → Mode → Mode
masked m u = record {
  user = without_bits m.user u.user;
  group = without_bits m.group u.group;
  others = without_bits m.others u.others;
}

-- `0o600|mode`.
abbrev pub write_umask : Mode → Mode
write_umask m = record m { user = record { r = true; w = true; x = m.user.x } }

-- `(mode & 0o775) | 0o700`.
abbrev pub dir_mode : Mode → Mode
dir_mode m = record {
  user = record { r = true; w = true; x = true };
  group = m.group;
  others = record m.others { w = false };
}

abbrev pub both_bits : Bits → Bits → Bits
both_bits a b = record { r = a.r || b.r; w = a.w || b.w; x = a.x || b.x }

abbrev pub umask_union : Mode → Mode → Mode
umask_union m u = record {
  user = both_bits m.user u.user;
  group = both_bits m.group u.group;
  others = both_bits m.others u.others;
}

-- The file after `tee` under a umask: a new one gets what the umask leaves.
abbrev pub teed : Commands → Mode → List ℕ → Option RootFile → RootFile
teed c umask content none = record {
  mode = masked c.asked (umask_union umask c.sudo_umask);
  content = content;
}
teed c umask content (some f) = record { mode = f.mode; content = content }

-- What `WriteFileAsRoot` returns, the file after it, and the file while it is written but has no mode yet.
pub record Outcome : Type 0 where
  pub err : Option Error
  pub file : Option RootFile
  pub during : Option RootFile

abbrev pub chmodded : Commands → Mode → RootFile → Outcome
chmodded c mode f = elim c.chmod_failed [
  | some e ↦ record { err = some e; file = some f; during = some f }
  | none ↦ record { err = none; file = some (record f { mode = mode }); during = some f }
]

abbrev tee_and_chmod : Commands → List ℕ → Mode → Option RootFile → Outcome
tee_and_chmod c content mode f = elim c.tee_failed [
  | some e ↦ record { err = some e; file = f; during = f }
  | none ↦ chmodded c mode (teed c (write_umask mode) content f)
]

unfoldable pub write_file_as_root : Commands → List ℕ → Mode → Option RootFile → Outcome
write_file_as_root c content mode f =
    if c.dir_there then tee_and_chmod c content mode f else elim c.mkdir_failed [
      | some e ↦ record { err = some e; file = f; during = f }
      | none ↦ tee_and_chmod c content mode f
    ]

-- `SudoReaderIfNecessary` and `ReadFileAsRoot`: the file is opened, or read by `sudo cat`.
unfoldable pub read_file_as_root : Error ⊎ List ℕ → Error ⊎ List ℕ → Error ⊎ List ℕ
read_file_as_root (inr content) by_sudo = inr content
read_file_as_root (inl not_exist) by_sudo = inl not_exist
read_file_as_root (inl e) (inr content) = inr content
read_file_as_root (inl e) (inl x) = inl (join e x)

-- A write without an error leaves the content, with the mode that was asked for; one with an error says so
-- whichever command failed, and a file that was there keeps its mode.
pub write_file_as_root-done :
    (c : Commands) (content : List ℕ) (mode : Mode) (f : Option RootFile)
    → (write_file_as_root c content mode f).err ≡ none
    → (write_file_as_root c content mode f).file ≡ some (record { mode = mode; content = content })
unfolding write_file_as_root
write_file_as_root-done c content mode none e = ground arith
write_file_as_root-done c content mode (some f) e = ground arith

-- The umask of a write is the mode itself. If `tee` asks for reading and writing for all, and sudo adds a
-- umask that takes writing from the group and from others, its default, then a new file that is being written
-- can be read by the group, and by others, exactly if its mode is to forbid it, and written by neither.
pub write_file_as_root-exposes :
    (c : Commands) (content : List ℕ) (mode : Mode)
    → c.asked ≡ record {
      user = record { r = true; w = true; x = false };
      group = record { r = true; w = true; x = false };
      others = record { r = true; w = true; x = false };
    }
    → c.sudo_umask ≡ record {
      user = record { r = false; w = false; x = false };
      group = record { r = false; w = true; x = false };
      others = record { r = false; w = true; x = false };
    }
    → c.tee_failed ≡ none
    → c.dir_there ≡ true
    → (write_file_as_root c content mode none).during
      ≡ some (record {
        mode = record {
          user = record { r = false; w = false; x = false };
          group = record { r = not mode.group.r; w = false; x = false };
          others = record { r = not mode.others.r; w = false; x = false };
        };
        content = content;
      })
unfolding write_file_as_root
write_file_as_root-exposes c content mode a u t d = ground arith
