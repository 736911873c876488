-- ===== src/Pm/Daemon/Requests.antt =====
-- addons/pm/server/daemon.go: what each request does to the children, and what it answers.
use gdev.Base.{
  String, ◌≡◌, refl, true, false, none, some, List, [], ◌∷◌, arith, ◌==◌, eq_iff, if◌then◌else◌,
  Option-cases, inl, inr,
}
use gdev.Base.Dict.{lookup, lookup-insert, lookup-remove}
use gdev.Pm.Api.{Child, stopped, ChildStatus}
use gdev.Pm.Child.{ping, World, Manager, Event, command, new_manager, initial_status}
use gdev.Pm.Run.{can_delete, handle, select_case, handle_delete, adjust_ticker, publish}
use gdev.Pm.Daemon.{
  put_manager, Entry, Daemon, Refusal, conflict, replied, refused, hangs, with_status, get_child,
  put_child, delete_child, may_delete, Request, get_request, put_request, start_request,
  delete_request, serve, stop_child, await_stopped, feed,
}

-- A refused request changes nothing.
pub serve-refused :
    (w : World) (q : Request) (d : Daemon) (r : Refusal)
    → (serve w q d).0 ≡ refused r
    → (serve w q d).1 ≡ d
unfolding serve
serve-refused w (get_request name) d r h = ground arith
serve-refused w (put_request child) d r h = ground arith
serve-refused w (start_request name) d r h = ground arith
serve-refused w (delete_request name) d r h = ground arith

abbrev new_entry : Child → Entry
new_entry child = record { def = child; manager = new_manager child }

put_child_new :
    (w : World) (child : Child) (d : Daemon)
    → lookup child.name d.children ≡ none
    → put_child w child d ≡ (
      replied (record { child = child; status = initial_status child }),
      put_manager child.name (new_entry child) (new_manager child) d,
    )
unfolding put_child handle select_case adjust_ticker publish new_manager
put_child_new w child d h = rw (h, put_child)

get_child-put :
    (name other : String) (e : Entry) (m : Manager) (d : Daemon)
    → (get_child other (put_manager name e m d)).0 ≡ (
        if name == other
        then replied (with_status (record e { manager = m }))
        else (get_child other d).0)
unfolding get_child
get_child-put name other e m d =
    ground (arith, lookup-insert name other (record e { manager = m }) d.children)

put_child-put :
    (w : World) (child : Child) (name : String) (e : Entry) (m : Manager) (d : Daemon)
    → child.name ≡ name
    → (put_child w child (put_manager name e m d)).0 ≡ refused conflict
unfolding put_child
put_child-put w child name e m d same = ground (
  arith,
  eq_iff name child.name,
  lookup-insert name child.name (record e { manager = m }) d.children,
)

-- A child that is put under a new name is reported stopped with nothing started, by the reply and
-- by a later query; queries for other children answer as before; putting the name again is refused.
pub put-get :
    (w w' : World) (child child' : Child) (name : String) (d : Daemon)
    → lookup child.name d.children ≡ none
    → child'.name ≡ child.name
    → ((put_child w child d).0 ≡ replied (record { child = child; status = initial_status child }))
      × ((get_child name (put_child w child d).1).0 ≡ (
          if child.name == name
          then replied (record { child = child; status = initial_status child })
          else (get_child name d).0))
      × ((put_child w' child' (put_child w child d).1).0 ≡ refused conflict)
unfolding new_manager
put-get w w' child child' name d h same = rw (put_child_new w child d h) (
  refl,
  get_child-put child.name name (new_entry child) (new_manager child) d,
  put_child-put w' child' child.name (new_entry child) (new_manager child) d same,
)

module _ (w : World) (name : String) (d : Daemon) (e : Entry)
    (known : lookup name d.children ≡ some e) (live : e.manager.finished ≡ false)
    (reported : e.manager.published ≡ e.manager.status) where
  -- Deleting a stopped or completed child answers with its status and removes it, and no other.
  pub delete-removes :
      (other : String)
      → can_delete e.manager.status.state ≡ true
      → ((delete_child w name d).0 ≡ replied (with_status e))
        × (lookup other (delete_child w name d).1.children
            ≡ (if name == other then none else lookup other d.children))
  unfolding delete_child handle select_case handle_delete
  delete-removes other ok = (ground arith, ground (arith, lookup-remove name other d.children))

  -- Deleting a failed child is let through by the daemon and ignored by the manager, so that the
  -- request waits for a loop that does not end.
  pub delete-failed_hangs :
      may_delete e.manager.status.state ≡ true
      → can_delete e.manager.status.state ≡ false
      → (delete_child w name d).0 ≡ hangs
  unfolding delete_child handle select_case handle_delete
  delete-failed_hangs may cannot = ground arith

-- The wait of a stop request answers only with a stopped child.
await_stopped-stopped :
    (w : World) (c : Child) (rounds : List (List (World × Event))) (m : Manager) (s : ChildStatus)
    → (await_stopped w c rounds m).0 ≡ replied s
    → s.state ≡ stopped
unfolding await_stopped
await_stopped-stopped w c [] m s h = cc
await_stopped-stopped w c (es ∷ rounds) m s h = elim (Option-cases (handle c w (command ping) m)) [
  | inl x ↦ ground arith
  | inr (m', x) ↦ elim (Option-cases (feed c es m')) [
    | inl y ↦ ground arith
    | inr (n, y) ↦ ground (arith, await_stopped-stopped w c rounds n s)
  ]
]

-- A stop request that is answered reports a stopped child, whatever happens to it meanwhile.
pub stop_child-stopped :
    (w : World) (name : String) (rounds : List (List (World × Event))) (d : Daemon)
    (s : ChildStatus)
    → (stop_child w name rounds d).0 ≡ replied s
    → s.state ≡ stopped
unfolding stop_child
stop_child-stopped w name rounds d s h = grind (arith, await_stopped-stopped)
