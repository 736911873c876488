-- ===== src/Gocache/Layered/Laws.antt =====
-- addons/gocache/layered-backend.go: the layers behave as one backend.
use gdev.Base.{String, ◌≡◌, ap, sym, ◌∙◌, true, false, arith, subst, ◌↔◌}
use gdev.Gocache.Backend.{ActionEntry, Result, ok, Backend, IsStore, IsFaithful}
use gdev.Gocache.Layered.{
  Layered, check_output_file, open_output_file, read_action_entry, write_action_entry, write_output,
  close, layered_backend, is_ok,
}

pair_eq : {A B : Type 0} (p : A × B) (a : A) (b : B) → p.0 ≡ a → p.1 ≡ b → p ≡ (a, b)
pair_eq p a b h k = ap (λ x. (x, p.1)) h ∙ ap (λ y. (a, y)) k

module _ {L R : Type 0} (lb : Backend L) (rb : Backend R) where
  -- The local layer is open and can be written.
  abbrev pub IsOpen : (L → Type 0) → Layered L R → Type 0
  IsOpen P l = P l.local × (l.local_set ≡ true) × (l.local_w ≡ true)

  -- A write that succeeds through the layers succeeds on the local one.
  write_output-local :
      (a : ActionEntry) (body path : String) (l l1 : Layered L R)
      → write_output lb rb a body l ≡ (ok path, l1)
      → (lb.write_output a body l.local ≡ (ok path, l1.local))
        × (l1.local_set ≡ l.local_set)
        × (l1.local_w ≡ l.local_w)
  unfolding write_output
  write_output-local a body path l l1 e =
      (pair_eq _ _ _ (ground arith) (ground arith), ground arith, ground arith)

  write_action_entry-local :
      (a : ActionEntry) (l l1 : Layered L R)
      → write_action_entry lb rb a l ≡ (ok tt, l1)
      → (lb.write_action_entry a l.local ≡ (ok tt, l1.local)) × (l1.local_set ≡ l.local_set)
  unfolding write_action_entry
  write_action_entry-local a l l1 e = (pair_eq _ _ _ (ground arith) (ground arith), ground arith)

  read_action_entry-local :
      (id : String) (a : ActionEntry) (l : Layered L R)
      → l.local_set ≡ true
      → (lb.read_action_entry id l.local).0 ≡ ok a
      → read_action_entry lb rb id l
        ≡ (ok a, record l { local = (lb.read_action_entry id l.local).1 })
  unfolding read_action_entry
  read_action_entry-local id a l h e = ground arith

  check_output_file-local :
      (a : ActionEntry) (path : String) (l : Layered L R)
      → l.local_set ≡ true
      → (lb.check_output_file a l.local).0 ≡ ok path
      → (check_output_file lb rb a l).0 ≡ ok path
  unfolding check_output_file
  check_output_file-local a path l h e = ground arith

  open_output_file-local :
      (a : ActionEntry) (body : String) (l : Layered L R)
      → l.local_set ≡ true
      → (lb.open_output_file a l.local).0 ≡ ok body
      → (open_output_file lb rb a l).0 ≡ ok body
  unfolding open_output_file
  open_output_file-local a body l h e = ground arith

  -- The same, and what is written fits what the local layer holds.
  abbrev pub FitsLocal :
      (ActionEntry → String → L → Type 0) → ActionEntry → String → Layered L R → Type 0
  FitsLocal F a body l = F a body l.local × (l.local_set ≡ true)

  layered-IsFaithful :
      (F : ActionEntry → String → L → Type 0)
      → IsFaithful lb F
      → IsFaithful (layered_backend lb rb) (FitsLocal F)
  layered-IsFaithful F h = record {
    opened = λ a body path l l1 l2 fits w e.
        let (wl, k, _) = write_output-local a body path l l1 w in
        let (el, k') = write_action_entry-local a l1 l2 e in
        open_output_file-local a body l2 (k' ∙ (k ∙ fits.1))
          (h.opened a body path l.local l1.local l2.local fits.0 wl el);
  }

  layered-store : (P : L → Type 0) → IsStore lb P → IsStore (layered_backend lb rb) (IsOpen P)
  layered-store P h = record {
    found = λ a body path l l1 l2 o w e.
        let (wl, k, _) = write_output-local a body path l l1 w in
        let (el, k') = write_action_entry-local a l1 l2 e in
        ap (λ r. r.0)
          (read_action_entry-local a.id a l2 (k' ∙ (k ∙ o.1))
            (h.found a body path l.local l1.local l2.local o.0 wl el));
    placed = λ a body path l l1 l2 o w e.
        let (wl, k, _) = write_output-local a body path l l1 w in
        let (el, k') = write_action_entry-local a l1 l2 e in
        let set = k' ∙ (k ∙ o.1) in
        let r =
          read_action_entry-local a.id a l2 set
            (h.found a body path l.local l1.local l2.local o.0 wl el) in
        subst
          (λ (q : Result ActionEntry × Layered L R). (check_output_file lb rb a q.1).0 ≡ ok path)
          (sym r)
          (check_output_file-local a path
            (record l2 { local = (lb.read_action_entry a.id l2.local).1 }) set
            (h.placed a body path l.local l1.local l2.local o.0 wl el));
  }

  -- Over a local backend that gives back the entry and the place of what was put, the layers do so too;
  -- and over one that gives back the bytes of what fits it, they give back these bytes.
  pub layered-IsStore :
      (P : L → Type 0) (F : ActionEntry → String → L → Type 0)
      → IsStore lb P
      → IsFaithful lb F
      → IsStore (layered_backend lb rb) (IsOpen P)
        × IsFaithful (layered_backend lb rb) (FitsLocal F)
  layered-IsStore P F h k = (layered-store P h, layered-IsFaithful F k)

  -- After a close without an error both layers are nil, and a second close does nothing and succeeds.
  pub close-twice :
      (l : Layered L R)
      → (close lb rb l).0 ≡ ok tt
      → ((close lb rb l).1.local_set ≡ false)
        × ((close lb rb l).1.remote_set ≡ false)
        × (close lb rb (close lb rb l).1 ≡ (ok tt, (close lb rb l).1))
  unfolding close
  close-twice l e = (ground arith, ground arith, ground arith)

  -- A write of an output through both layers succeeds just if both writes do, and returns the local
  -- path; and a write of an entry likewise.
  pub write-both :
      (a : ActionEntry) (body path : String) (l : Layered L R)
      → l.local_w ≡ true
      → l.remote_w ≡ true
      → (((write_output lb rb a body l).0 ≡ ok path) ↔ (
          ((lb.write_output a body l.local).0 ≡ ok path)
          × (is_ok (rb.write_output a body l.remote).0 ≡ true)))
        × (((write_action_entry lb rb a l).0 ≡ ok tt) ↔ (
            (is_ok (lb.write_action_entry a l.local).0 ≡ true)
            × (is_ok (rb.write_action_entry a l.remote).0 ≡ true)))
  unfolding write_output write_action_entry
  write-both a body path l h k = (
    (λ e. (ground arith, ground arith), λ e. ground arith),
    (λ e. (ground arith, ground arith), λ e. ground arith),
  )
