-- ===== src/Gocache/Disk/Store.antt =====
-- addons/gocache/disk-storage-backend.go: the directory gives back what was put.
use gdev.Base.{
  String, ◌≡◌, ◌≤◌, refl, ap, true, false, Option, none, some, ◌==◌, eqb, ◌⊎◌, inl, inr, arith,
  eq_refl, Sum-cases,
}
use gdev.Gocache.Backend.{ActionEntry, ok, IsStore, IsFaithful}
use gdev.Gocache.Disk.{
  FileName, action_file, output_file, temp_file, same_name, File, Disk, Fs, read_body, put_file,
  remove_file, store_output, write_output, write_action_entry, read_action_entry, check_output_file,
  open_output_file, disk_backend, stat_output, is_stored,
}

-- The files can be read, and an entry that is printed is parsed as it was.
pub record Reads (fs : Fs) : Type 0 where
  pub reads : (name : FileName) → fs.fault read_body name ≡ none
  pub parses : (a : ActionEntry) (t : String) → fs.print_entry a ≡ inr t → fs.parse_entry t ≡ inr a

module _ (fs : Fs) where
  abbrev written : FileName → String → Disk → Disk
  written name content d =
      put_file name (record { content = content; mtime = fs.now })
        (remove_file (temp_file name)
          (put_file (temp_file name) (record { content = content; mtime = fs.now }) d))

  store_output-stored :
      (a : ActionEntry) (body path : String) (d d' : Disk)
      → store_output fs a body d ≡ (ok path, d')
      → (path ≡ fs.full_name (output_file a.output_id))
        × ((eqb (fs.size_of body) a.size ≡ true) × (d' ≡ written (output_file a.output_id) body d))
  unfolding store_output
  store_output-stored a body path d d' e = (ground arith, (ground arith, ground arith))

  write_output-cases :
      (a : ActionEntry) (body path : String) (d d' : Disk)
      → write_output fs a body d ≡ (ok path, d')
      → (d.root ≡ true)
        × (((a.output_id == "") ≡ false)
            × (((d' ≡ d)
                  × ((path ≡ fs.full_name (output_file a.output_id))
                      × (is_stored fs a (d.files (output_file a.output_id)) ≡ true)))
                ⊎ (store_output fs a body d ≡ (ok path, d'))))
  unfolding write_output
  write_output-cases a body path d d' e = (ground arith, (ground arith, ground arith))

  stat_output-stored :
      (a : ActionEntry) (o : Option File)
      → is_stored fs a o ≡ true
      → stat_output fs a o ≡ ok (fs.full_name (output_file a.output_id))
  stat_output-stored a none h = absurd (ground arith)
  stat_output-stored a (some f) h = ground arith

  -- A successful write of an output leaves a file of its size under its name.
  write_output-stored :
      (a : ActionEntry) (body path : String) (d d' : Disk)
      → write_output fs a body d ≡ (ok path, d')
      → (stat_output fs a (d'.files (output_file a.output_id)) ≡ ok path)
        × ((d'.root ≡ true) × ((a.output_id == "") ≡ false))
  unfolding same_name
  write_output-stored a body path d d' e =
      let (root, (n, h)) = write_output-cases a body path d d' e in
      elim h [
        | inl (q, (p, s)) ↦
            rw (q, p) (stat_output-stored a (d.files (output_file a.output_id)) s, (root, n))
        | inr s ↦
            let (p, (z, q)) = store_output-stored a body path d d' s in
            rw (q, p) (ground (arith, z, eq_refl a.output_id), (root, n))
      ]

  -- A successful write of an entry leaves its text under its name, and the outputs as they were.
  write_action_entry-stored :
      (a : ActionEntry) (d d' : Disk)
      → write_action_entry fs a d ≡ (ok tt, d')
      → (t : String) × ((fs.print_entry a ≡ inr t)
          × ((d' ≡ written (action_file a.id) t d) × ((d.root ≡ true) × ((a.id == "") ≡ false))))
  unfolding write_action_entry
  write_action_entry-stored a d d' e = elim (Sum-cases (fs.print_entry a)) [
    | inl (x, p) ↦ absurd (ground (arith, p))
    | inr (t, p) ↦ (t, (p, (ground (arith, p), (ground (arith, p), ground (arith, p)))))
  ]

  read-written :
      (a : ActionEntry) (t : String) (d : Disk)
      → Reads fs
      → fs.print_entry a ≡ inr t
      → d.root ≡ true
      → (a.id == "") ≡ false
      → read_action_entry fs a.id (written (action_file a.id) t d)
        ≡ (ok a, written (action_file a.id) t d)
  unfolding read_action_entry same_name
  read-written a t d r p root n =
      ground (arith, r.reads (action_file a.id), r.parses a t p, root, n, eq_refl a.id)

  check-written :
      (a : ActionEntry) (t path : String) (d : Disk)
      → stat_output fs a (d.files (output_file a.output_id)) ≡ ok path
      → d.root ≡ true
      → (a.output_id == "") ≡ false
      → (check_output_file fs a (written (action_file a.id) t d)).0 ≡ ok path
  unfolding check_output_file same_name
  check-written a t path d s root n = ground (arith, s, root, n)

  -- An output's ID is a hash of its bytes: a file of its name and size that is not newer than the entry has
  -- these bytes. A newer file may be anything.
  abbrev pub Fits : ActionEntry → String → Disk → Type 0
  Fits a body d =
      (f : File)
      → d.files (output_file a.output_id) ≡ some f
      → fs.size_of f.content ≡ a.size
      → f.mtime ≤ a.time
      → f.content ≡ body

  -- A file has the bytes of an output.
  abbrev HasBytes : String → Option File → Type 0
  HasBytes body none = ⊥
  HasBytes body (some f) = f.content ≡ body

  stored-HasBytes :
      (a : ActionEntry) (body : String) (d : Disk) (o : Option File)
      → Fits a body d
      → d.files (output_file a.output_id) ≡ o
      → is_stored fs a o ≡ true
      → HasBytes body o
  stored-HasBytes a body d none fits e h = absurd (ground arith)
  stored-HasBytes a body d (some f) fits e h = fits f e (ground arith) (ground arith)

  write_output-HasBytes :
      (a : ActionEntry) (body path : String) (d d' : Disk)
      → Fits a body d
      → write_output fs a body d ≡ (ok path, d')
      → HasBytes body (d'.files (output_file a.output_id))
  unfolding same_name
  write_output-HasBytes a body path d d' fits e =
      let (root, (n, h)) = write_output-cases a body path d d' e in
      elim h [
        | inl (q, (p, s)) ↦
            rw q (stored-HasBytes a body d (d.files (output_file a.output_id)) fits refl s)
        | inr s ↦
            let (p, (z, q)) = store_output-stored a body path d d' s in
            rw q (rw (eq_refl a.output_id) refl)
      ]

  open-written :
      (a : ActionEntry) (t body : String) (d : Disk) (o : Option File)
      → Reads fs
      → d.files (output_file a.output_id) ≡ o
      → HasBytes body o
      → d.root ≡ true
      → (a.output_id == "") ≡ false
      → (open_output_file fs a (written (action_file a.id) t d)).0 ≡ ok body
  unfolding open_output_file same_name
  open-written a t body d none r e h root n = elim h [ ]
  open-written a t body d (some f) r e h root n =
      ground (arith, e, h, root, n, r.reads (output_file a.output_id))

  disk_backend-IsFaithful : Reads fs → IsFaithful (disk_backend fs) Fits
  unfolding disk_backend
  disk_backend-IsFaithful r = record {
    opened = λ a body path d d1 d2 fits w e.
        let (t, (p, (q, (root1, n)))) = write_action_entry-stored a d1 d2 e in
        let (s, (_, m)) = write_output-stored a body path d d1 w in
        rw q (
          open-written a t body d1 _ r refl (write_output-HasBytes a body path d d1 fits w) root1
            m);
  }

  disk_backend-store : Reads fs → IsStore (disk_backend fs) (λ d. d.root ≡ true)
  unfolding disk_backend
  disk_backend-store r = record {
    found = λ a body path d d1 d2 root w e.
        let (t, (p, (q, (root1, n)))) = write_action_entry-stored a d1 d2 e in
        rw q (ap (λ o. o.0) (read-written a t d1 r p root1 n));
    placed = λ a body path d d1 d2 root w e.
        let (t, (p, (q, (root1, n)))) = write_action_entry-stored a d1 d2 e in
        let (s, (_, m)) = write_output-stored a body path d d1 w in
        rw (q, read-written a t d1 r p root1 n) (check-written a t path d1 s root1 m);
  }

  -- Over a file system whose files can be read, and if every entry that can be printed is parsed as it was, the disk
  -- backend gives back the entry and the place of what was put, whatever other steps fail. It gives back the
  -- bytes too, if a file that is there under the output's name with its size, and not newer than the entry,
  -- has them.
  pub disk_backend-IsStore :
      Reads fs → IsStore (disk_backend fs) (λ d. d.root ≡ true) × IsFaithful (disk_backend fs) Fits
  disk_backend-IsStore r = (disk_backend-store r, disk_backend-IsFaithful r)
