-- ===== src/Gocache/Tests/OnDisk.antt =====
-- addons/gocache/disk-storage-backend.go: a file system on which only the removal of a file fails, and
-- where one entry can be printed.
use gdev.Base.{
  String, ◌≡◌, refl, Bool, true, ◌&&◌, some, none, inl, inr, if◌then◌else◌, ◌==◌, eqb, eq_iff,
  arith, ap, ◌⊎◌, Bool-cases,
}
use gdev.Gocache.Backend.{Error, other, ActionEntry, IsStore, IsFaithful}
use gdev.Gocache.Disk.{Fs, remove, disk_backend}
use gdev.Gocache.Disk.Store.{Reads, Fits, disk_backend-IsStore}

abbrev entry : ActionEntry
entry = record { id = "a"; output_id = "o"; size = 1; time = 5 }

abbrev is_entry : ActionEntry → Bool
is_entry a = a.id == "a" && a.output_id == "o" && eqb a.size 1 && eqb a.time 5

abbrev print_one : ActionEntry → Error ⊎ String
print_one a = if is_entry a then inr "v1" else inl (other "long")

abbrev fs : Fs
fs = record {
  fault = λ step name. elim step [ remove ↦ some (other "busy") | _ ↦ none ];
  size_of = λ text. 1;
  full_name = λ name. "/cache";
  now = 4;
  print_entry = print_one;
  parse_entry = λ text. inr entry;
}

is_entry-eq : (a : ActionEntry) → is_entry a ≡ true → entry ≡ a
is_entry-eq a h = ground (arith, eq_iff a.id "a", eq_iff a.output_id "o")

print_one-entry : (a : ActionEntry) (t : String) → print_one a ≡ inr t → entry ≡ a
print_one-entry a t e = elim (Bool-cases (is_entry a)) [
  | inl x ↦ is_entry-eq a x
  | inr x ↦ absurd (ground (arith, x))
]

fs-Reads : Reads fs
fs-Reads = record { reads = λ name. refl; parses = λ a t e. ap inr (print_one-entry a t e) }

disk_backend-IsStore_example :
    IsStore (disk_backend fs) (λ d. d.root ≡ true) × IsFaithful (disk_backend fs) (Fits fs)
disk_backend-IsStore_example = disk_backend-IsStore fs fs-Reads
