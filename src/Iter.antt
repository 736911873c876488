-- ===== src/Iter.antt =====
-- internal/iter.go: `pullReader`, an io.Reader over an iterator of chunks.
--
-- The iterator is the list of what it yields, each a chunk of bytes and perhaps an error. `none` is a
-- reader whose iterator was dropped by `Close`.
pub mod Stream
mod Tests
use gdev.Base.{
  ℕ, ◌-◌, ◌≡◌, String, Bool, true, false, Option, none, some, List, [], ◌∷◌, ◌++◌, if◌then◌else◌,
  leb, length, take,
}
use gdev.Base.Bytes.{drop}

pub data ReadError : Type 0 where
  eof closed_pipe : ReadError
  other : String → ReadError

abbrev pub Chunk : Type 0
Chunk = List ℕ × Option ReadError

pub record Reader : Type 0 where
  pub next : Option (List Chunk)
  pub buf : List ℕ
  pub err : Option ReadError

-- The bytes that a call copied, and its error.
pub record Answer : Type 0 where
  pub bytes : List ℕ
  pub failed : Option ReadError

unfoldable pub seq_reader : List Chunk → Reader
seq_reader src = record { next = some src; buf = []; err = none }

-- The loop with `rem` bytes to go, after `out`. A buffer that is enough ends it; else all of it is
-- copied, and the next turn returns the stored error or pulls the next chunk.
unfoldable pub read_loop : List Chunk → List ℕ → Option ReadError → List ℕ → ℕ → Answer × Reader
read_loop [] buf err out rem =
    if leb rem (length buf)
    then (
      record { bytes = out ++ take rem buf; failed = none },
      record { next = some []; buf = drop rem buf; err = err },
    )
    else elim err [
      | some e ↦ (
        record { bytes = out ++ buf; failed = some e },
        record { next = some []; buf = []; err = some e },
      )
      | none ↦ (
        record { bytes = out ++ buf; failed = some eof },
        record { next = some []; buf = []; err = some eof },
      )
    ]
read_loop ((chunk, failed) ∷ rest) buf err out rem =
    if leb rem (length buf)
    then (
      record { bytes = out ++ take rem buf; failed = none },
      record { next = some ((chunk, failed) ∷ rest); buf = drop rem buf; err = err },
    )
    else elim err [
      | some e ↦ (
        record { bytes = out ++ buf; failed = some e },
        record { next = some ((chunk, failed) ∷ rest); buf = []; err = some e },
      )
      | none ↦ read_loop rest chunk failed (out ++ buf) (rem - length buf)
    ]

unfoldable pub read : ℕ → Reader → Answer × Reader
unfolding read_loop
read size r = elim r.next [
  | none ↦ (record { bytes = []; failed = some closed_pipe }, r)
  | some src ↦ read_loop src r.buf r.err [] size
]

unfoldable pub close : Reader → Reader
close r = record { next = none; buf = []; err = none }

-- `SeqContains`, with the test for equality.
unfoldable pub seq_contains {ℓ} : {A : Type ℓ} → (A → A → Bool) → List A → A → Bool
seq_contains eq [] v = false
seq_contains eq (item ∷ src) v =
    let rest = seq_contains eq src v in if eq item v then true else rest
