-- ===== src/Pm/Resource/Ends.antt =====
-- addons/pm/resource/resource-pm.go: how `Stop` and `Start` of a resource end.
use mathlib.Core.Option.{some-injective}
use gdev.Base.{
  String, ◌≡◌, ◌≢◌, refl, none, some, List, [], ◌∷◌, arith, Option-cases, inl, inr, subst,
}
use gdev.Base.Dict.{lookup}
use gdev.Pm.Api.{
  Child, ChildState, ChildStatus, stopped, init_running, init_error, running, stopping, done, error,
}
use gdev.Pm.Run.{handle}
use gdev.Pm.Child.{World, Event, Manager, command, ping}
use gdev.Pm.Daemon.{
  Daemon, Reply, replied, refused, hangs, crashed, await_stopped, feed, not_found, await_stopped,
  feed, get_child, stop_child, delete_child,
}
use gdev.Pm.Resource.Lifecycle.{Turn, succeeded, status_only, next_status, stop_loop, stop_resource}

-- A reply that the child is not there comes from a daemon without it.
abbrev IsTold : String → Reply ChildStatus → Daemon → Type 0
IsTold name r d = r ≡ refused not_found → lookup name d.children ≡ none

get-IsTold :
    (name : String) (d : Daemon)
    → IsTold name (status_only (get_child name d).0) (get_child name d).1
unfolding get_child
get-IsTold name d e = ground arith

delete-IsTold :
    (w : World) (name : String) (d : Daemon)
    → IsTold name (status_only (delete_child w name d).0) (delete_child w name d).1
unfolding delete_child
delete-IsTold w name d e = ground arith

await_stopped-told :
    (w : World) (c : Child) (rounds : List (List (World × Event))) (m : Manager)
    → (await_stopped w c rounds m).0 ≢ refused not_found
unfolding await_stopped
await_stopped-told w c [] m h = cc
await_stopped-told w c (es ∷ rounds) m h = elim (Option-cases (handle c w (command ping) m)) [
  | inl x ↦ absurd (ground (arith, x))
  | inr (m', x) ↦ elim (Option-cases (feed c es m')) [
    | inl y ↦ absurd (ground (arith, x, y))
    | inr (n, y) ↦ absurd (ground (arith, x, y, await_stopped-told w c rounds n))
  ]
]

stop-IsTold :
    (w : World) (name : String) (rounds : List (List (World × Event))) (d : Daemon)
    → IsTold name (stop_child w name rounds d).0 (stop_child w name rounds d).1
unfolding stop_child
stop-IsTold w name rounds d e = grind (arith, await_stopped-told)

next-IsTold :
    (t : Turn) (name : String) (s : ChildState) (d : Daemon) (q : Reply ChildStatus × Daemon)
    → next_status t name s d ≡ some q
    → IsTold name q.0 q.1
next-IsTold t name stopped d q e =
    subst (λ k. IsTold name k.0 k.1) (some-injective _ _ e) (delete-IsTold t.world name d)
next-IsTold t name done d q e =
    subst (λ k. IsTold name k.0 k.1) (some-injective _ _ e) (delete-IsTold t.world name d)
next-IsTold t name stopping d q e = ground (arith, get-IsTold name (t.tick d))
next-IsTold t name init_running d q e =
    subst (λ k. IsTold name k.0 k.1) (some-injective _ _ e) (stop-IsTold t.world name t.rounds d)
next-IsTold t name init_error d q e =
    subst (λ k. IsTold name k.0 k.1) (some-injective _ _ e) (stop-IsTold t.world name t.rounds d)
next-IsTold t name running d q e =
    subst (λ k. IsTold name k.0 k.1) (some-injective _ _ e) (stop-IsTold t.world name t.rounds d)
next-IsTold t name error d q e =
    subst (λ k. IsTold name k.0 k.1) (some-injective _ _ e) (stop-IsTold t.world name t.rounds d)

stop_loop-gone :
    (name : String) (turns : List Turn) (r : Reply ChildStatus) (d : Daemon)
    → (stop_loop name turns r d).0 ≡ some succeeded
    → IsTold name r d
    → lookup name (stop_loop name turns r d).1.children ≡ none
unfolding stop_loop
stop_loop-gone name turns hangs d e h = cc
stop_loop-gone name turns crashed d e h = cc
stop_loop-gone name [] (refused not_found) d e h = h refl
stop_loop-gone name (t ∷ turns) (refused not_found) d e h = h refl
stop_loop-gone name [] (refused r) d e h = ground arith
stop_loop-gone name (t ∷ turns) (refused r) d e h = ground arith
stop_loop-gone name [] (replied s) d e h = cc
stop_loop-gone name (t ∷ turns) (replied s) d e h =
    elim (Option-cases (next_status t name s.state d)) [
      | inl x ↦ absurd (ground (arith, x))
      | inr (q, x) ↦
          let k =
            stop_loop-gone name turns q.0 q.1 (ground (arith, x))
              (next-IsTold t name s.state d q x) in
          ground (arith, x, k)
    ]

-- Stop of a resource returns without an error only when the daemon has no child of its name any more,
-- whatever happens to the children meanwhile.
pub stop_resource-gone :
    (name : String) (turns : List Turn) (d : Daemon)
    → (stop_resource name turns d).0 ≡ some succeeded
    → lookup name (stop_resource name turns d).1.children ≡ none
unfolding stop_resource
stop_resource-gone name turns d e =
    stop_loop-gone name turns (status_only (get_child name d).0) (get_child name d).1 e
      (get-IsTold name d)
