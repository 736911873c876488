-- ===== src/Shx/Capture.antt =====
-- lib/shx/capture.go: `outCapture`, which keeps output in memory up to a limit, and then in a file.
--
-- `Faults` has what the operating system answers to the calls of one operation. A write that fails has
-- written some of the bytes first.
pub mod Whole
use gdev.Base.{
  ℕ, ◌+◌, ◌*◌, String, Bool, true, false, Option, none, some, List, [], ◌∷◌, ◌++◌, if◌then◌else◌,
  ltb, length, take, is_some,
}
use gdev.Base.Bytes.{drop}

pub data Error : Type 0 where
  other : String → Error
  join : Error → Error → Error

pub record Faults : Type 0 where
  pub create : Option Error
  pub remove : Option Error
  pub write : Option (ℕ × Error)
  pub close : Option Error
  pub seek : Option Error

-- A file, and where the next read or write is.
pub record TempFile : Type 0 where
  pub bytes : List ℕ
  pub pos : ℕ

-- `writer` has what was written to the custom writer, if there is one.
pub record Capture : Type 0 where
  pub writer : Option (List ℕ)
  pub buffer : Option (List ℕ)
  pub tmp_file : Option TempFile

-- The bytes that a write counts, and its error.
pub record Written : Type 0 where
  pub count : ℕ
  pub err : Option Error

abbrev pub out_cap_max_buffer : ℕ
out_cap_max_buffer = 1024 * 1024

abbrev pub empty_capture : Capture
empty_capture = record { writer = none; buffer = none; tmp_file = none }

unfoldable pub init : Capture → Capture
init c =
    if is_some c.writer
    then c
    else if is_some c.tmp_file
    then c
    else if is_some c.buffer
    then c
    else record c { buffer = some [] }

-- `errors.Join` of an error and that of a close.
abbrev pub join_close : Error → Option Error → Error
join_close e none = e
join_close e (some x) = join e x

abbrev pub join_all : Option Error → Option Error → Option Error
join_all none b = b
join_all (some e) b = some (join_close e b)

-- The bytes of a file after a write at its position.
abbrev pub overwritten : TempFile → List ℕ → TempFile
overwritten t p = record {
  bytes = take t.pos t.bytes ++ (p ++ drop (t.pos + length p) t.bytes);
  pos = t.pos + length p;
}

module _ (f : Faults) where
  unfoldable pub close : Capture → Option Error × Capture
  close c = (
    join_all (if is_some c.writer then f.close else none)
        (if is_some c.tmp_file then f.close else none),
    empty_capture,
  )

  unfoldable pub switch_to_tmp : List ℕ → Capture → Option Error × Capture
  switch_to_tmp buffered c = elim f.create [
    | some e ↦ (some e, record c { tmp_file = none })
    | none ↦ elim f.remove [
      | some e ↦ (some (join_close e f.close), record c { tmp_file = none })
      | none ↦ elim f.write [
        | some (n, e) ↦ (some (join_close e f.close), record c { tmp_file = none })
        | none ↦ (
          none,
          record c {
            buffer = none;
            tmp_file = some (record { bytes = buffered; pos = length buffered });
          },
        )
      ]
    ]
  ]

  -- The end of `Write`: to the file if there is one, or else to memory.
  unfoldable pub write_out : List ℕ → Option TempFile → Capture → Written × Capture
  write_out p (some t) c = elim f.write [
    | none ↦
        (record { count = length p; err = none }, record c { tmp_file = some (overwritten t p) })
    | some (n, e) ↦ (
      record { count = n; err = some e },
      record c { tmp_file = some (overwritten t (take n p)) },
    )
  ]
  write_out p none c = elim c.buffer [
    | none ↦ (record { count = length p; err = none }, record c { buffer = some p })
    | some b ↦ (record { count = length p; err = none }, record c { buffer = some (b ++ p) })
  ]

  -- A write to the file that was just switched to.
  unfoldable pub write_switched : List ℕ → Option Error × Capture → Written × Capture
  write_switched p (some x, c) = (record { count = 0; err = some x }, c)
  write_switched p (none, c) = write_out p c.tmp_file c

  unfoldable pub write_local : List ℕ → Option (List ℕ) → Capture → Written × Capture
  write_local p none c = write_out p c.tmp_file c
  write_local p (some b) c =
      if ltb out_cap_max_buffer (length b + length p)
      then write_switched p (switch_to_tmp b c)
      else write_out p c.tmp_file c

  unfoldable pub write : List ℕ → Capture → Written × Capture
  unfolding write_local
  write p c = elim c.writer [
    | none ↦ write_local p c.buffer c
    | some w ↦ elim f.write [
      | none ↦ (record { count = length p; err = none }, record c { writer = some (w ++ p) })
      | some (n, e) ↦
          (record { count = n; err = some e }, record c { writer = some (w ++ take n p) })
    ]
  ]

  abbrev rewind : Capture → Option Error × Capture
  rewind c = elim c.tmp_file [
    | none ↦ (none, c)
    | some t ↦ elim f.seek [
      | some e ↦ (some e, c)
      | none ↦ (none, record c { tmp_file = some (record t { pos = 0 }) })
    ]
  ]

  unfoldable pub done_writing : Capture → Option Error × Capture
  done_writing c = elim c.writer [
    | none ↦ rewind c
    | some w ↦ elim f.close [ some e ↦ (some e, c) | none ↦ rewind (record c { writer = none }) ]
  ]

-- What the reader of the output gives; `none` is a nil reader.
unfoldable pub reader : Capture → Option (List ℕ)
reader c = elim c.writer [
  | some w ↦ none
  | none ↦ elim c.tmp_file [ some t ↦ some (drop t.pos t.bytes) | none ↦ c.buffer ]
]

-- The chunks that a process writes, with the faults of each write; the copy stops at the first error.
unfoldable pub copy : List (List ℕ × Faults) → Capture → Option Error × Capture
unfolding write
copy [] c = (none, c)
copy ((p, f) ∷ chunks) c =
    let (w, c') = write f p c in
    let rest = copy chunks c' in elim w.err [ some e ↦ (some e, c') | none ↦ rest ]
