-- ===== src/Gocache/Tests.antt =====
-- addons/gocache: a backend with one slot, alone, under the front end and in two layers.
mod Serving
mod Remote
mod OnDisk
use gdev.Base.{String, ◌≡◌, refl, ap, ◌↔◌, true, false, Option, none, some, subst}
use gdev.Gocache.Backend.{
  not_exist, closed, ActionEntry, Result, ok, fails, Backend, IsStore, IsFaithful,
}
use gdev.Gocache.Layered.{
  Layered, new_readonly_storage_backend, new_write_through_storage_backend, write_output,
  write_action_entry, close, is_ok, layered_backend,
}
use gdev.Gocache.Layered.Laws.{IsOpen, FitsLocal, layered-IsStore, write-both, close-twice}
use gdev.Gocache.Frontend.{
  Request, Response, blank, new_frontend, get, put, put_entry, use_, done, begin_close, end_close,
}
use gdev.Gocache.Frontend.Serve.{get-put}
use gdev.Gocache.Frontend.Closing.{Shared, Reach, start, step, closing, shutting, Reach-drained}

abbrev read_slot : Option ActionEntry → Result ActionEntry × Option ActionEntry
read_slot none = (fails not_exist, none)
read_slot (some a) = (ok a, some a)

-- It keeps the last entry, and has one output at one path.
abbrev one_slot : Backend (Option ActionEntry)
one_slot = record {
  read_action_entry = λ id s. read_slot s;
  check_output_file = λ a s. (ok "/cache/out", s);
  open_output_file = λ a s. (ok "abc", s);
  write_action_entry = λ a s. (ok tt, some a);
  write_output = λ a body s. (ok "/cache/out", s);
  close = λ s. (ok tt, s);
}

abbrev Always : Option ActionEntry → Type 0
Always s = Unit

one_slot-IsStore : IsStore one_slot Always
one_slot-IsStore = record {
  found = λ a body path s s1 s2 o w e.
      subst (λ (t : Option ActionEntry). (read_slot t).0 ≡ ok a)
        (ap (λ (r : Result Unit × Option ActionEntry). r.1) e) refl;
  placed = λ a body path s s1 s2 o w e. ap (λ (r : Result String × Option ActionEntry). r.0) w;
}

abbrev IsAbc : ActionEntry → String → Option ActionEntry → Type 0
IsAbc a body s = "abc" ≡ body

one_slot-IsFaithful : IsFaithful one_slot IsAbc
one_slot-IsFaithful = record { opened = λ a body path s s1 s2 fits w e. ap ok fits }

layered-IsStore_example :
    IsStore (layered_backend one_slot one_slot) (IsOpen one_slot one_slot Always)
    × IsFaithful (layered_backend one_slot one_slot) (FitsLocal one_slot one_slot IsAbc)
layered-IsStore_example =
    layered-IsStore one_slot one_slot Always IsAbc one_slot-IsStore one_slot-IsFaithful

abbrev request : Request
request = record { id = 5; action_id = "a"; output_id = "o"; body_size = 3; body = some "abc" }

abbrev entry : ActionEntry
entry = record { id = "a"; output_id = "o"; size = 3; time = 9 }

abbrev stored : Response
stored = record (blank 5) { output_id = "o"; size = 3; time = some 9; disk_path = "/cache/out" }

get-put_example :
    (get one_slot request (record { in_use = 0; closing = false; dd = some entry })).0 ≡ ok stored
unfolding put put_entry use_ done
get-put_example =
    get-put one_slot Always 9 request "abc" (new_frontend one_slot none)
      (record { in_use = 0; closing = false; dd = some entry }) stored one_slot-IsStore tt refl refl
      refl (λ e. cc)

abbrev closed_down : Shared one_slot
closed_down = record {
  front = record { in_use = 0; closing = true; dd = none };
  running = 0;
  shut = true;
}

closed_down-Reach : Reach one_slot none closed_down
unfolding begin_close end_close
closed_down-Reach = step (step start closing) (shutting refl refl)

Reach-drained_example :
    (closed_down.running ≡ 0) × ((use_ one_slot closed_down.front).0 ≡ fails closed)
Reach-drained_example = Reach-drained one_slot none closed_down closed_down-Reach refl
