-- ===== src/Pm/Resource/Installs.antt =====
-- addons/pm/resource/resource-pm.go: the child that `Start` leaves in the daemon.
use gdev.Base.{
  ◌≡◌, refl, sym, ◌∙◌, ap, Bool, false, Option, some, List, [], ◌∷◌, arith, Option-cases,
  Bool-cases, inl, inr, eq_refl, subst,
}
use gdev.Base.Dict.{lookup, lookup-insert}
use gdev.Pm.Api.{Child, ChildWithStatus}
use gdev.Pm.Run.{handle}
use gdev.Pm.Child.{World, command, start, ping, new_manager}
use gdev.Pm.Daemon.{
  Daemon, Entry, Reply, replied, refused, hangs, crashed, Refusal, not_found, get_child, put_child,
  start_child, stop_child, delete_child, send, is_stopped,
}
use gdev.Pm.Resource.Lifecycle.{
  Turn, End, succeeded, Pm, start_resource, start_fresh, and_then, replace_stopped, replace_child,
  start_refused,
}

and_then-cases :
    {A : Type 0} (q : Reply A × Daemon) (f : A → Daemon → Option End × Daemon)
    → (and_then q f).0 ≡ some succeeded
    → (a : A) × ((q.0 ≡ replied a) × (and_then q f ≡ f a q.1))
and_then-cases (replied a, d) f e = (a, (refl, refl))
and_then-cases (refused r, d) f e = absurd (ground arith)
and_then-cases (hangs, d) f e = absurd (ground arith)
and_then-cases (crashed, d) f e = absurd (ground arith)

-- The daemon has a child with this definition under its name.
abbrev pub Holds : Child → Daemon → Type 0
Holds c d = (e : Entry) × ((lookup c.name d.children ≡ some e) × (e.def ≡ c))

put_child-Holds :
    (w : World) (c : Child) (d : Daemon) (a : ChildWithStatus)
    → (put_child w c d).0 ≡ replied a
    → Holds c (put_child w c d).1
unfolding put_child
put_child-Holds w c d a x = elim (Option-cases (lookup c.name d.children)) [
  | inr (e, y) ↦ absurd (ground (arith, y))
  | inl y ↦ elim (Option-cases (handle c w (command ping) (new_manager c))) [
    | inl z ↦ absurd (ground (arith, y, z))
    | inr (m, z) ↦
        let e : Entry = record { def = c; manager = m } in
        (e, (ground (arith, y, z, lookup-insert c.name c.name e d.children, eq_refl c.name), refl))
  ]
]

start_child-Holds :
    (w : World) (c : Child) (d : Daemon) (a : ChildWithStatus)
    → (start_child w c.name d).0 ≡ replied a
    → Holds c d
    → Holds c (start_child w c.name d).1
unfolding start_child
start_child-Holds w c d a x (e, (k, q)) = elim (Option-cases (send w e (start ∷ ping ∷ []))) [
  | inl z ↦ absurd (ground (arith, k, z))
  | inr (m, z) ↦
      let e' : Entry = record e { manager = m } in
      (e', (ground (arith, k, z, lookup-insert c.name c.name e' d.children, eq_refl c.name), q))
]

module _ (same_child : Child → Child → Bool) (p : Pm) (t : Turn) (turns : List Turn)
    (quick : p.wait_on_start ≡ false) where
  -- If this is how Start ends without an error, then the daemon has the child.
  abbrev Installs : Option End × Daemon → Type 0
  Installs q = q.0 ≡ some succeeded → Holds p.child q.1

  and_then-Installs :
      {A : Type 0} (q : Reply A × Daemon) (f : A → Daemon → Option End × Daemon)
      → ((a : A) → q.0 ≡ replied a → Installs (f a q.1))
      → Installs (and_then q f)
  and_then-Installs q f h x =
      let (a, (r, s)) = and_then-cases q f x in
      subst (λ o. Holds p.child o.1) (sym s) (h a r (sym (ap (λ o. o.0) s) ∙ x))

  start_fresh-Installs : (d : Daemon) → Installs (start_fresh same_child p t turns d)
  unfolding start_fresh
  start_fresh-Installs d = and_then-Installs (put_child t.world p.child d) _ (λ a put.
      and_then-Installs (start_child t.world p.child.name (put_child t.world p.child d).1) _
        (λ b begun x. rw quick (
          start_child-Holds t.world p.child (put_child t.world p.child d).1 b begun
            (put_child-Holds t.world p.child d a put))))

  replace_stopped-Installs : (d : Daemon) → Installs (replace_stopped same_child p t turns d)
  replace_stopped-Installs d =
      and_then-Installs (delete_child t.world p.child.name d) _
        (λ a gone. start_fresh-Installs (delete_child t.world p.child.name d).1)

  replace_child-Installs :
      (cur : ChildWithStatus) (d : Daemon) → Installs (replace_child same_child p t turns cur d)
  replace_child-Installs cur d = elim (Bool-cases (is_stopped cur.status.state)) [
    | inl y ↦ rw y (replace_stopped-Installs d)
    | inr y ↦ rw y (
        and_then-Installs (stop_child t.world p.child.name t.rounds d) _
          (λ a halted. replace_stopped-Installs (stop_child t.world p.child.name t.rounds d).1))
  ]

  start_refused-Installs :
      (r : Refusal) (d : Daemon) → Installs (start_refused same_child p t turns r d)
  start_refused-Installs not_found d = start_fresh-Installs d
  start_refused-Installs r d = λ x. absurd (ground arith)

  -- If Start of a resource that neither limits restarts nor waits returns without an error, the daemon
  -- has a child with the definition that the resource configures, whatever it had before.
  pub start_resource-Holds :
      (d : Daemon)
      → p.limit_restarts ≡ false
      → (start_resource same_child p t turns d).0 ≡ some succeeded
      → Holds p.child (start_resource same_child p t turns d).1
  unfolding start_resource
  start_resource-Holds d free = go (get_child p.child.name d).0 refl
    where
      go :
          (r : Reply ChildWithStatus)
          → (get_child p.child.name d).0 ≡ r
          → Installs (start_resource same_child p t turns d)
      go (replied cur) e =
          subst Installs (sym (ground (arith, e, free))) (replace_child-Installs cur d)
      go (refused r) e = subst Installs (sym (ground (arith, e))) (start_refused-Installs r d)
      go hangs e = λ x. absurd (ground (arith, e))
      go crashed e = λ x. absurd (ground (arith, e))
