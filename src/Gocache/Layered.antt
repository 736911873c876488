-- ===== src/Gocache/Layered.antt =====
-- addons/gocache/layered-backend.go: a local backend before a remote one.
--
-- The two backends are parameters. `local` and `remote` become nil when they are closed; a nil
-- `localW` or `remoteW` forbids writing.
pub mod Laws
use gdev.Base.{String, Bool, true, false, not, ◌&&◌, Option, none, some, if◌then◌else◌}
use gdev.Gocache.Backend.{
  Error, not_exist, closed, other, wrap, join, ActionEntry, Result, ok, fails, panics, Backend,
}

pub record Layered (L R : Type 0) : Type 0 where
  pub local : L
  pub remote : R
  pub local_set : Bool
  pub remote_set : Bool
  pub local_w : Bool
  pub remote_w : Bool

abbrev pub map_err : (Error → Error) → Result Unit → Result Unit
map_err f (ok u) = ok tt
map_err f (fails e) = fails (f e)
map_err f panics = panics

-- `errors.Join` of two results, the value being that of the first.
abbrev pub join_results : {A B : Type 0} → Result A → Result B → Result A
join_results (ok a) (ok b) = ok a
join_results (ok a) (fails e) = fails e
join_results (fails e) (ok b) = fails e
join_results (fails e) (fails d) = fails (join e d)
join_results panics r = panics
join_results (ok a) panics = panics
join_results (fails e) panics = panics

abbrev pub wrap_path : String → Result String → Result String
wrap_path m (ok path) = ok path
wrap_path m (fails e) = fails (wrap m e)
wrap_path m panics = panics

abbrev pub is_ok : {A : Type 0} → Result A → Bool
is_ok (ok a) = true
is_ok (fails e) = false
is_ok panics = false

module _ {L R : Type 0} where
  unfoldable pub new_readonly_storage_backend : L → R → Layered L R
  new_readonly_storage_backend local remote = record {
    local = local;
    remote = remote;
    local_set = true;
    remote_set = true;
    local_w = false;
    remote_w = false;
  }

  unfoldable pub new_read_through_storage_backend : L → R → Layered L R
  unfolding new_readonly_storage_backend
  new_read_through_storage_backend local remote =
      record (new_readonly_storage_backend local remote) { local_w = true }

  unfoldable pub new_write_through_storage_backend : L → R → Layered L R
  unfolding new_readonly_storage_backend
  new_write_through_storage_backend local remote =
      record (new_readonly_storage_backend local remote) { local_w = true; remote_w = true }

module _ {L R : Type 0} (lb : Backend L) (rb : Backend R) where
  -- Copies an output of the remote backend to the local one; `err` is the error if that fails.
  abbrev fetch : Error → ActionEntry → Layered L R → Result String × Layered L R
  fetch err a l =
      let (r, remote) = rb.open_output_file a l.remote in
      elim r [
        | panics ↦ (panics, record l { remote = remote })
        | fails e ↦ (fails err, record l { remote = remote })
        | ok body ↦
            let (w, local) = lb.write_output a body l.local in
            elim w [
              | panics ↦ (panics, record l { remote = remote; local = local })
              | fails e ↦ (fails err, record l { remote = remote; local = local })
              | ok path ↦ (ok path, record l { remote = remote; local = local })
            ]
      ]

  unfoldable pub check_output_file : ActionEntry → Layered L R → Result String × Layered L R
  check_output_file a l =
      if not l.local_set
      then (panics, l)
      else let (r, local) = lb.check_output_file a l.local in
        let l1 = record l { local = local } in
        elim r [
          | panics ↦ (panics, l1)
          | ok path ↦ (ok path, l1)
          | fails err ↦
              if not l.remote_set
              then (panics, l1)
              else let (q, remote) = rb.check_output_file a l.remote in
                let l2 = record l1 { remote = remote } in
                elim q [
                  | panics ↦ (panics, l2)
                  | fails e ↦ (fails err, l2)
                  | ok path ↦ if not l.local_w then (ok "", l2) else fetch err a l2
                ]
        ]

  unfoldable pub read_action_entry : String → Layered L R → Result ActionEntry × Layered L R
  read_action_entry id l =
      if not l.local_set
      then (panics, l)
      else let (r, local) = lb.read_action_entry id l.local in
        let l1 = record l { local = local } in
        elim r [
          | panics ↦ (panics, l1)
          | ok a ↦ (ok a, l1)
          | fails err ↦
              if not l.remote_set
              then (panics, l1)
              else let (q, remote) = rb.read_action_entry id l.remote in
                let l2 = record l1 { remote = remote } in
                elim q [
                  | panics ↦ (panics, l2)
                  | fails e ↦ (fails err, l2)
                  | ok a ↦
                      if not l.local_w
                      then (ok a, l2)
                      else let (w, local') = lb.write_action_entry a local in
                        let l3 = record l2 { local = local' } in
                        elim w [
                          | panics ↦ (panics, l3)
                          | ok u ↦ (ok a, l3)
                          | fails e ↦
                              (fails (wrap "failed to write action entry to local storage" e), l3)
                        ]
                ]
        ]

  unfoldable pub write_action_entry : ActionEntry → Layered L R → Result Unit × Layered L R
  write_action_entry a l =
      if not l.local_w
      then (panics, l)
      else let (w, local) = lb.write_action_entry a l.local in
        let r = map_err (wrap "failed to write action entry to local storage") w in
        let l1 = record l { local = local } in
        if not l.remote_w
        then (r, l1)
        else let (v, remote) = rb.write_action_entry a l.remote in
          (
            join_results r (map_err (wrap "failed to write action entry to remote storage") v),
            record l1 { remote = remote },
          )

  -- The two concurrent writes both read the whole body, and share no state.
  unfoldable pub write_output : ActionEntry → String → Layered L R → Result String × Layered L R
  write_output a body l =
      if not l.local_w
      then (panics, l)
      else let (w, local) = lb.write_output a body l.local in
        let l1 = record l { local = local } in
        if not l.remote_w
        then (w, l1)
        else let (v, remote) = rb.write_output a body l.remote in
          (
            join_results (wrap_path "failed to write output to local storage" w)
                (wrap_path "failed to write output to remote storage" v),
            record l1 { remote = remote },
          )

  unfoldable pub open_output_file : ActionEntry → Layered L R → Result String × Layered L R
  open_output_file a l =
      if not l.local_set
      then (panics, l)
      else let (r, local) = lb.open_output_file a l.local in
        let l1 = record l { local = local } in
        elim r [
          | panics ↦ (panics, l1)
          | ok body ↦ (ok body, l1)
          | fails err ↦
              if not l.remote_set
              then (panics, l1)
              else let (q, remote) = rb.open_output_file a l.remote in
                let l2 = record l1 { remote = remote } in
                elim q [
                  | panics ↦ (panics, l2)
                  | ok body ↦ (ok body, l2)
                  | fails e ↦ (fails err, l2)
                ]
        ]

  abbrev close_local : Layered L R → Result Unit × Layered L R
  close_local l =
      if not l.local_set
      then (ok tt, l)
      else let (r, local) = lb.close l.local in
        (r, record l { local = local; local_set = not (is_ok r) })

  abbrev close_remote : Layered L R → Result Unit × Layered L R
  close_remote l =
      if not l.remote_set
      then (ok tt, l)
      else let (r, remote) = rb.close l.remote in
        (r, record l { remote = remote; remote_set = not (is_ok r) })

  -- Closes what is not closed yet; a backend that fails to close stays.
  unfoldable pub close : Layered L R → Result Unit × Layered L R
  close l = let (r, l1) = close_local l in let (q, l2) = close_remote l1 in (join_results r q, l2)

  abbrev pub layered_backend : Backend (Layered L R)
  layered_backend = record {
    read_action_entry = read_action_entry;
    check_output_file = check_output_file;
    open_output_file = open_output_file;
    write_action_entry = write_action_entry;
    write_output = write_output;
    close = close;
  }
