-- ===== src/Shx/Capture/Whole.antt =====
-- lib/shx/capture.go: what is captured is what was written, in memory or in the file.
use gdev.Base.{
  ℕ, ◌+◌, ◌≤◌, ◌≡◌, refl, subst, ◌⊎◌, none, some, List, [], ◌∷◌, ◌++◌, ltb, length, take, arith,
  Option-cases, Bool-cases, inl, inr, length-append, take_all,
}
use gdev.Base.Bytes.{drop_long}
use gdev.Shx.Capture.{
  Error, Faults, Capture, Written, out_cap_max_buffer, empty_capture, init, overwritten, join_close,
  switch_to_tmp, write_out, write_switched, write_local, write, done_writing, reader, copy,
}
use mathlib.Core.List.{append-nil, append_assoc}

abbrev pub in_memory : List ℕ → Capture
in_memory bytes = record { writer = none; buffer = some bytes; tmp_file = none }

abbrev pub in_file : List ℕ → Capture
in_file bytes = record {
  writer = none;
  buffer = none;
  tmp_file = some (record { bytes = bytes; pos = length bytes });
}

-- All that was written is in memory, and not more than the limit, or all is in the file.
abbrev pub Holds : Capture → List ℕ → Type 0
Holds c bytes = ((c ≡ in_memory bytes) × (length bytes ≤ out_cap_max_buffer)) ⊎ (c ≡ in_file bytes)

overwritten-end :
    (bytes p : List ℕ)
    → overwritten (record { bytes = bytes; pos = length bytes }) p
      ≡ record { bytes = bytes ++ p; pos = length (bytes ++ p) }
overwritten-end bytes p =
    rw
      (
        take_all bytes,
        drop_long (length bytes + length p) bytes (omega arith),
        append-nil p,
        length-append bytes p,
      )
      refl

module _ (f : Faults) (p : List ℕ) where
  abbrev After : List ℕ → Written × Capture → Type 0
  After bytes (w, c) = Holds c (bytes ++ take w.count p) × (w.err ≡ none → take w.count p ≡ p)

  -- A write that failed before its first byte.
  nothing-After :
      (bytes : List ℕ) (x : Error)
      → length bytes ≤ out_cap_max_buffer
      → After bytes (record { count = 0; err = some x }, in_memory bytes)
  nothing-After bytes x h = rw (append-nil bytes) (inl (refl, h), λ n. cc)

  write_out-After :
      (bytes : List ℕ)
      → After bytes
          (write_out f p (some (record { bytes = bytes; pos = length bytes })) (in_file bytes))
  unfolding write_out
  write_out-After bytes = elim (Option-cases f.write) [
    | inl e ↦ rw (e, write_out, take_all p, overwritten-end bytes p) (inr refl, λ n. refl)
    | inr ((n, x), e) ↦ rw (e, write_out, overwritten-end bytes (take n p)) (inr refl, λ h. cc)
  ]

  -- The output moves to the file, or stays in memory.
  switch-cases :
      (bytes : List ℕ)
      → (switch_to_tmp f bytes (in_memory bytes) ≡ (none, in_file bytes))
        ⊎ ((x : Error) × (switch_to_tmp f bytes (in_memory bytes) ≡ (some x, in_memory bytes)))
  unfolding switch_to_tmp
  switch-cases bytes = elim (Option-cases f.create) [
    | inr (x, e) ↦ inr (x, rw (e, switch_to_tmp) refl)
    | inl e ↦ elim (Option-cases f.remove) [
      | inr (x, e1) ↦ inr (join_close x f.close, rw (e, e1, switch_to_tmp) refl)
      | inl e1 ↦ elim (Option-cases f.write) [
        | inr ((n, x), e2) ↦ inr (join_close x f.close, rw (e, e1, e2, switch_to_tmp) refl)
        | inl e2 ↦ inl (rw (e, e1, e2, switch_to_tmp) refl)
      ]
    ]
  ]

  memory-After :
      (bytes : List ℕ)
      → length bytes ≤ out_cap_max_buffer
      → After bytes (write_local f p (some bytes) (in_memory bytes))
  unfolding write_local write_switched
  memory-After bytes h = elim (Bool-cases (ltb out_cap_max_buffer (length bytes + length p))) [
    | inr small ↦
        rw (small, write_local)
          (unfold write_out in
            rw (take_all p) (inl (refl, ground (arith, length-append bytes p)), λ n. refl))
    | inl large ↦ elim (switch-cases bytes) [
      | inl e ↦ rw (large, e, write_local) (write_out-After bytes)
      | inr (x, e) ↦ rw (large, e, write_local) (nothing-After bytes x h)
    ]
  ]

  write-After : (bytes : List ℕ) (c : Capture) → Holds c bytes → After bytes (write f p c)
  unfolding write write_local
  write-After bytes c (inr e) = rw e (write_out-After bytes)
  write-After bytes c (inl (e, h)) = rw e (memory-After bytes h)

-- All bytes of a list of writes.
abbrev pub concat : List (List ℕ × Faults) → List ℕ
concat [] = []
concat ((p, f) ∷ chunks) = p ++ concat chunks

copy-Holds :
    (chunks : List (List ℕ × Faults)) (bytes : List ℕ) (c : Capture)
    → Holds c bytes
    → (copy chunks c).0 ≡ none
    → Holds (copy chunks c).1 (bytes ++ concat chunks)
unfolding copy
copy-Holds [] bytes c h e = rw (append-nil bytes) h
copy-Holds ((p, f) ∷ chunks) bytes c h e =
    let (held, all) = write-After f p bytes c h in
    elim (Option-cases (write f p c).0.err) [
      | inr (x, q) ↦ absurd (ground (arith, q))
      | inl q ↦
          let now : Holds (write f p c).1 (bytes ++ p) =
            subst (λ l. Holds (write f p c).1 (bytes ++ l)) (all q) held in
          let e' : (copy chunks (write f p c).1).0 ≡ none = ground (arith, q, e) in
          rw (q, copy, ← append_assoc bytes p (concat chunks))
            (copy-Holds chunks (bytes ++ p) (write f p c).1 now e')
    ]

read_back :
    (f : Faults) (bytes : List ℕ) (c : Capture)
    → f.seek ≡ none
    → Holds c bytes
    → reader (done_writing f c).1 ≡ some bytes
unfolding reader done_writing
read_back f bytes c s (inl (q, h)) = rw q refl
read_back f bytes c s (inr q) = rw q (ground (arith, s))

-- Output that is captured from its start without an error of a write or of the rewind is read back whole,
-- however long it is and however it is cut into writes.
pub reader-copy :
    (chunks : List (List ℕ × Faults)) (f : Faults)
    → (copy chunks (init empty_capture)).0 ≡ none
    → f.seek ≡ none
    → reader (done_writing f (copy chunks (init empty_capture)).1).1 ≡ some (concat chunks)
unfolding init
reader-copy chunks f e s =
    read_back f (concat chunks) _ s
      (copy-Holds chunks [] (init empty_capture) (inl (refl, omega arith)) e)
