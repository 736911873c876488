-- ===== src/Gocache/Backend.antt =====
-- addons/gocache/storage-api.go and action-entry.go: what a storage backend offers. Backends are
-- parameters of the layered backend and of the front end, as records of operations on a state.
use gdev.Base.{ℕ, String, Bool, true, false, ◌||◌, ◌≡◌}

-- Errors, with `fmt.Errorf("…%w")` and `errors.Join`.
pub data Error : Type 0 where
  not_exist : Error
  closed : Error
  other : String → Error
  wrap : String → Error → Error
  join : Error → Error → Error

-- `errors.Is(err, os.ErrNotExist)`.
abbrev pub is_not_exist : Error → Bool
is_not_exist not_exist = true
is_not_exist closed = false
is_not_exist (other m) = false
is_not_exist (wrap m e) = is_not_exist e
is_not_exist (join a b) = is_not_exist a || is_not_exist b

pub record ActionEntry : Type 0 where
  pub id : String
  pub output_id : String
  pub size : ℕ
  pub time : ℕ

pub data Result (A : Type 0) : Type 0 where
  ok : A → Result A
  fails : Error → Result A
  panics : Result A

pub record Backend (S : Type 0) : Type 0 where
  pub read_action_entry : String → S → Result ActionEntry × S
  pub check_output_file : ActionEntry → S → Result String × S
  pub open_output_file : ActionEntry → S → Result String × S
  pub write_action_entry : ActionEntry → S → Result Unit × S
  pub write_output : ActionEntry → String → S → Result String × S
  pub close : S → Result Unit × S

-- A backend gives back the entry and the place of what was put: after an output and then its entry are
-- written, the entry is read, and the output is found where it was written.
pub record IsStore {S : Type 0} (b : Backend S) (IsOpen : S → Type 0) : Type 0 where
  pub found :
      (a : ActionEntry) (body path : String) (s s1 s2 : S)
      → IsOpen s
      → b.write_output a body s ≡ (ok path, s1)
      → b.write_action_entry a s1 ≡ (ok tt, s2)
      → (b.read_action_entry a.id s2).0 ≡ ok a
  pub placed :
      (a : ActionEntry) (body path : String) (s s1 s2 : S)
      → IsOpen s
      → b.write_output a body s ≡ (ok path, s1)
      → b.write_action_entry a s1 ≡ (ok tt, s2)
      → (b.check_output_file a (b.read_action_entry a.id s2).1).0 ≡ ok path

-- A backend gives back the bytes of what was put, when they fit what it holds: after an output and then its
-- entry are written, the output that is opened has the bytes that were written.
pub record IsFaithful {S : Type 0} (b : Backend S) (Fits : ActionEntry → String → S → Type 0)
    : Type 0 where
  pub opened :
      (a : ActionEntry) (body path : String) (s s1 s2 : S)
      → Fits a body s
      → b.write_output a body s ≡ (ok path, s1)
      → b.write_action_entry a s1 ≡ (ok tt, s2)
      → (b.open_output_file a s2).0 ≡ ok body
