-- ===== src/Pm/Resource/Starts.antt =====
-- addons/pm/resource/resource-pm.go: a child that is at rest, and what `Start` leaves behind.
use gdev.Base.{
  String, ◌≡◌, Bool, true, false, none, some, List, ◌∷◌, if◌then◌else◌, arith, eq_refl, ◌==◌,
}
use gdev.Base.Dict.{lookup}
use gdev.Pm.Api.{Child, done}
use gdev.Pm.Run.{can_delete}
use gdev.Pm.Child.{World}
use gdev.Pm.Daemon.{
  Daemon, Entry, refused, not_found, precondition_failed, get_child, stop_child, delete_child,
}
use gdev.Pm.Daemon.Requests.{delete-removes}
use gdev.Pm.Resource.Lifecycle.{
  Turn, succeeded, refused_by, stop_loop, stop_resource, Pm, start_resource,
}

module _ (name : String) (d : Daemon) (e : Entry) (known : lookup name d.children ≡ some e)
    (live : e.manager.finished ≡ false) (reported : e.manager.published ≡ e.manager.status) where
  -- The daemon after the delete, and what it answers to another.
  delete_child-again :
      (w w' : World)
      → can_delete e.manager.status.state ≡ true
      → delete_child w' name (delete_child w name d).1
        ≡ (refused not_found, (delete_child w name d).1)
  unfolding delete_child
  delete_child-again w w' h =
      let gone : lookup name (delete_child w name d).1.children ≡ none =
        ground (arith, (delete-removes w name d e known live reported name h).1, eq_refl name) in
      ground (arith, gone)

  -- Stop of a resource whose child is stopped or done deletes it, after two turns at most, and leaves
  -- the other children.
  pub stop_resource-rested :
      (t t' : Turn) (turns : List Turn) (other : String)
      → can_delete e.manager.status.state ≡ true
      → ((stop_resource name (t ∷ t' ∷ turns) d).0 ≡ some succeeded)
        × (lookup other (stop_resource name (t ∷ t' ∷ turns) d).1.children
            ≡ (if name == other then none else lookup other d.children))
  unfolding stop_resource stop_loop get_child
  stop_resource-rested t t' turns other h =
      let (answer, left) = delete-removes t.world name d e known live reported other h in
      let again = delete_child-again t.world t'.world h in
      (ground (arith, answer, again), ground (arith, answer, left, again))

  -- Start of a resource whose child is done, a one-shot child that has completed, does not start it
  -- again: the daemon refuses to stop the child, which Start asks for first.
  pub start_resource-done :
      (same_child : Child → Child → Bool) (p : Pm) (t : Turn) (turns : List Turn)
      → p.child.name ≡ name
      → e.manager.status.state ≡ done
      → start_resource same_child p t turns d ≡ (some (refused_by precondition_failed), d)
  unfolding start_resource get_child stop_child
  start_resource-done same_child p t turns n s = ground arith
