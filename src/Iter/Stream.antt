-- ===== src/Iter/Stream.antt =====
-- internal/iter.go: a reader as the stream of bytes that its iterator holds.
use gdev.Base.{
  ℕ, ◌+◌, ◌-◌, ◌≡◌, refl, sym, ap, ◌∙◌, true, false, Option, none, some, List, [], ◌∷◌, ◌++◌,
  if◌then◌else◌, leb, length, take, arith, length-append, Bool-cases, inl, inr,
}
use gdev.Base.Bytes.{
  drop, take-append_le, drop-append_le, take-append_ge, drop-append_ge, take_long, drop_long,
  take-add,
}
use gdev.Iter.{Reader, Answer, ReadError, eof, Chunk, read_loop, read}
use mathlib.Core.List.{append-nil, append_assoc}

-- What an iterator yields up to its first error, and how it ends.
abbrev pub content : List Chunk → List ℕ
content [] = []
content ((chunk, some e) ∷ rest) = chunk
content ((chunk, none) ∷ rest) = chunk ++ content rest

abbrev pub ending : List Chunk → ReadError
ending [] = eof
ending ((chunk, some e) ∷ rest) = e
ending ((chunk, none) ∷ rest) = ending rest

abbrev pub after_buf : Option ReadError → List ℕ → List Chunk → List ℕ
after_buf (some e) buf src = buf
after_buf none buf src = buf ++ content src

abbrev pub end_of : Option ReadError → List Chunk → ReadError
end_of (some e) src = e
end_of none src = ending src

-- The bytes that are still to come from an open reader, and the error after them.
abbrev pub Pends : Reader → List ℕ → ReadError → Type 0
Pends r bytes e =
    (src : List Chunk) × (r.next ≡ some src)
    × (after_buf r.err r.buf src ≡ bytes)
    × (end_of r.err src ≡ e)

-- A read of `size` bytes cuts them off the stream, and fails just if the stream has fewer.
pub record Cuts (size : ℕ) (out bytes : List ℕ) (e : ReadError) (a : Answer) (r : Reader)
    : Type 0 where
  pub got : a.bytes ≡ out ++ take size bytes
  pub error : a.failed ≡ (if leb size (length bytes) then none else some e)
  pub left : Pends r (drop size bytes) e

-- The buffer is enough.
full_Cuts :
    (src : List Chunk) (buf : List ℕ) (err : Option ReadError) (out : List ℕ) (rem : ℕ)
    → leb rem (length buf) ≡ true
    → Cuts rem out
        (after_buf err buf src)
        (end_of err src)
        (record { bytes = out ++ take rem buf; failed = none })
        (record { next = some src; buf = drop rem buf; err = err })
full_Cuts src buf (some e) out rem h = record {
  got = refl;
  error = rw h;
  left = (src, refl, refl, refl);
}
full_Cuts src buf none out rem h = record {
  got = ap (λ l. out ++ l) (sym (take-append_le rem buf (content src) (ground arith)));
  error = ground (arith, length-append buf (content src));
  left = (src, refl, sym (drop-append_le rem buf (content src) (ground arith)), refl);
}

-- Less is left than was asked for, and `e` is next.
short_Cuts :
    (src : List Chunk) (buf : List ℕ) (e : ReadError) (out : List ℕ) (rem : ℕ)
    → leb rem (length buf) ≡ false
    → Cuts rem out buf e
        (record { bytes = out ++ buf; failed = some e })
        (record { next = some src; buf = []; err = some e })
short_Cuts src buf e out rem h = record {
  got = ap (λ l. out ++ l) (sym (take_long rem buf (ground arith)));
  error = rw h;
  left = (src, refl, sym (drop_long rem buf (ground arith)), refl);
}

-- The next chunk goes on where the buffer ended.
next_Cuts :
    (buf bytes out : List ℕ) (e : ReadError) (rem : ℕ) (a : Answer) (r : Reader)
    → leb rem (length buf) ≡ false
    → Cuts (rem - length buf) (out ++ buf) bytes e a r
    → Cuts rem out (buf ++ bytes) e a r
next_Cuts buf bytes out e rem a r h c = record {
  got =
      c.got
      ∙ append_assoc out buf (take (rem - length buf) bytes)
      ∙ ap (λ l. out ++ l) (sym (take-append_ge rem buf bytes (ground arith)));
  error = ground (arith, c.error, length-append buf bytes);
  left = rw (drop-append_ge rem buf bytes (ground arith)) c.left;
}

read_loop-Cuts :
    (src : List Chunk) (buf : List ℕ) (err : Option ReadError) (out : List ℕ) (rem : ℕ)
    → let (a, r) = read_loop src buf err out rem in
      Cuts rem out (after_buf err buf src) (end_of err src) a r
unfolding read_loop
read_loop-Cuts [] buf (some e) out rem = elim (Bool-cases (leb rem (length buf))) [
  | inl h ↦ rw h (full_Cuts [] buf (some e) out rem h)
  | inr h ↦ rw h (short_Cuts [] buf e out rem h)
]
read_loop-Cuts [] buf none out rem = elim (Bool-cases (leb rem (length buf))) [
  | inl h ↦ rw h (full_Cuts [] buf none out rem h)
  | inr h ↦ rw (h, append-nil buf) (short_Cuts [] buf eof out rem h)
]
read_loop-Cuts ((chunk, failed) ∷ rest) buf (some e) out rem =
    elim (Bool-cases (leb rem (length buf))) [
      | inl h ↦ rw h (full_Cuts ((chunk, failed) ∷ rest) buf (some e) out rem h)
      | inr h ↦ rw h (short_Cuts ((chunk, failed) ∷ rest) buf e out rem h)
    ]
read_loop-Cuts ((chunk, some x) ∷ rest) buf none out rem =
    elim (Bool-cases (leb rem (length buf))) [
      | inl h ↦ rw h (full_Cuts ((chunk, some x) ∷ rest) buf none out rem h)
      | inr h ↦ rw h (
          next_Cuts buf chunk out x rem _ _ h
            (read_loop-Cuts rest chunk (some x) (out ++ buf) (rem - length buf)))
    ]
read_loop-Cuts ((chunk, none) ∷ rest) buf none out rem = elim (Bool-cases (leb rem (length buf))) [
  | inl h ↦ rw h (full_Cuts ((chunk, none) ∷ rest) buf none out rem h)
  | inr h ↦ rw h (
      next_Cuts buf (chunk ++ content rest) out (ending rest) rem _ _ h
        (read_loop-Cuts rest chunk none (out ++ buf) (rem - length buf)))
]

-- A read of a reader that holds a stream gives the next bytes of the stream, as many as it asked for if
-- there are so many and no error, or else all that are left and the error that ends the stream; the
-- reader holds the rest of the stream.
pub read-Cuts :
    (r : Reader) (bytes : List ℕ) (e : ReadError) (size : ℕ)
    → Pends r bytes e
    → Cuts size [] bytes e (read size r).0 (read size r).1
unfolding read
read-Cuts r bytes e size (src, is_open, bytes_eq, end_eq) =
    rw (is_open, ← bytes_eq, ← end_eq) (read_loop-Cuts src r.buf r.err [] size)

-- Reads of any sizes, one after the other: the bytes that they give together.
unfoldable pub read_all : List ℕ → Reader → List ℕ × Reader
unfolding read
read_all [] r = ([], r)
read_all (size ∷ sizes) r =
    let (a, r1) = read size r in let (more, r2) = read_all sizes r1 in (a.bytes ++ more, r2)

abbrev pub sum : List ℕ → ℕ
sum [] = 0
sum (size ∷ sizes) = size + sum sizes

-- However the reads of a stream are sized, their bytes put together are the first bytes of the stream.
pub read_all-take :
    (sizes : List ℕ) (r : Reader) (bytes : List ℕ) (e : ReadError)
    → Pends r bytes e
    → (read_all sizes r).0 ≡ take (sum sizes) bytes
unfolding read_all
read_all-take [] r bytes e h = refl
read_all-take (size ∷ sizes) r bytes e h =
    let c = read-Cuts r bytes e size h in
    let again = read_all-take sizes (read size r).1 (drop size bytes) e c.left in
    rw (c.got, again) (take-add size (sum sizes) bytes)
