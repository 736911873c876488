-- ===== src/Sys/Tests.antt =====
-- lib/sys/sudo-io.go: a private file is written.
use gdev.Base.{ℕ, ◌≡◌, refl, true, false, Option, none, some, List, [], ◌∷◌}
use gdev.Sys.{Bits, Mode, RootFile, Commands, write_file_as_root, write_file_as_root-exposes}

abbrev rw_bits : Bits
rw_bits = record { r = true; w = true; x = false }

abbrev no_bits : Bits
no_bits = record { r = false; w = false; x = false }

abbrev write_bit : Bits
write_bit = record { r = false; w = true; x = false }

abbrev read_bit : Bits
read_bit = record { r = true; w = false; x = false }

abbrev works : Commands
works = record {
  asked = record { user = rw_bits; group = rw_bits; others = rw_bits };
  sudo_umask = record { user = no_bits; group = write_bit; others = write_bit };
  dir_there = true;
  mkdir_failed = none;
  tee_failed = none;
  chmod_failed = none;
}

abbrev private : Mode
private = record { user = rw_bits; group = no_bits; others = no_bits }

abbrev key : List ℕ
key = 7 ∷ 7 ∷ []

abbrev written : Option RootFile
written = none

writes : (write_file_as_root works key private written).err ≡ none
unfolding write_file_as_root
writes = refl

-- A file for its owner alone can be read by all while it is written.
write_file_as_root-exposes_example :
    (write_file_as_root works key private none).during
    ≡ some (record {
      mode = record { user = no_bits; group = read_bit; others = read_bit };
      content = key;
    })
write_file_as_root-exposes_example =
    write_file_as_root-exposes works key private refl refl refl refl
