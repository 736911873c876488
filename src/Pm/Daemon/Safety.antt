-- ===== src/Pm/Daemon/Safety.antt =====
-- addons/pm/server/daemon.go: the requests keep every child's manager consistent, and crash none.
use gdev.Base.{String, ◌≡◌, ◌≢◌, false, some}
use gdev.Base.Dict.{lookup}
use gdev.Pm.Api.{Child, ChildWithStatus}
use gdev.Pm.Run.Turn.{IsConsistent}
use gdev.Pm.Daemon.{Entry, Daemon, Reply, crashed}

pub record IsSound (e : Entry) : Type 0 where
  pub consistent : IsConsistent e.def e.manager
  pub unfinished : e.manager.finished ≡ false

-- Every child has a manager whose loop runs and is consistent.
pub record IsSafe (d : Daemon) : Type 0 where
  pub at : (name : String) (e : Entry) → lookup name d.children ≡ some e → IsSound e

-- An answer that is no crash, with a safe daemon.
abbrev Fine : Reply ChildWithStatus × Daemon → Type 0
Fine t = (t.0 ≢ crashed) × IsSafe t.1
