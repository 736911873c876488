-- ===== src/Diags/Contents.antt =====
-- addons/diags/file-collector.go: the contents of an entry, and the header that is prepared for them.
--
-- `fault` says which call of the operating system, or of a writer, fails. Modes, owners and times of a
-- header are left out.
use gdev.Base.{
  ℕ, String, Bool, Option, none, some, List, ◌≡◌, refl, ◌⊎◌, inl, inr, if◌then◌else◌, length,
}
use gdev.Base.Bytes.{drop}

pub data Error : Type 0 where
  already_begun not_begun cancelled no_size : Error
  other : String → Error
  wrap : String → Error → Error
  -- The error of a write that has written so many bytes.
  after_bytes : ℕ → Error → Error

abbrev pub bytes_before : Error → ℕ
bytes_before (after_bytes n e) = n
bytes_before _ = 0

-- The calls that may fail.
pub data Call : Type 0 where
  stat seek_current seek_end seek_back create_temp remove_temp copy_temp seek_temp stat_temp
        marshal :
      Call
  write_header write_body : String → Call
  close_tar close_out sync close_dest remove_dest : Call

-- What a reader offers besides `Read`: `Stat`, `Seek`, `Len`, or nothing.
pub data Kind : Type 0 where
  file seeker buffer stream : Kind

-- A reader over `bytes` that has read `pos` of them. `stat_size` is the size that `Stat` tells.
pub record Contents : Type 0 where
  pub kind : Kind
  pub bytes : List ℕ
  pub pos : ℕ
  pub stat_size : ℕ

abbrev pub rest_of : Contents → List ℕ
rest_of c = drop c.pos c.bytes

-- `io.Copy` reads all that is left.
abbrev pub drained : Contents → Contents
drained c = record c { pos = length c.bytes }

pub record Header : Type 0 where
  pub name : String
  pub size : ℕ

pub data Result (A : Type 0) : Type 0 where
  ok : A → Result A
  fails : Error → Result A
  panics : Result A

pub Result-cases :
    {A : Type 0} (r : Result A)
    → ((a : A) × (r ≡ ok a)) ⊎ ((e : Error) × (r ≡ fails e)) ⊎ (r ≡ panics)
Result-cases (ok a) = inl (a, refl)
Result-cases (fails e) = inr (inl (e, refl))
Result-cases panics = inr (inr refl)

module _ (fault : Call → Option Error) where
  -- The size of the contents, `none` if it cannot be told.
  unfoldable pub fill_tar_header : Contents → Result (Option ℕ)
  fill_tar_header c = elim c.kind [
    | file ↦ elim (fault stat) [
      | some e ↦ fails (wrap "error getting file info" e)
      | none ↦ ok (some c.stat_size)
    ]
    | seeker ↦ elim (fault seek_current) [
      | some e ↦ fails (wrap "error seeking to get size" e)
      | none ↦ elim (fault seek_end) [
        | some e ↦ fails (wrap "error seeking to end" e)
        | none ↦ elim (fault seek_back) [
          | some e ↦ fails (wrap "error seeking back to original position" e)
          | none ↦ ok (some (length c.bytes))
        ]
      ]
    ]
    | buffer ↦ ok (some (length (rest_of c)))
    | stream ↦ ok none
  ]

  -- Contents of no known size are copied to a temporary file, and its size is taken.
  unfoldable pub temp_header : String → Contents → Result Header × Contents
  temp_header name c = elim (fault create_temp) [
    | some e ↦ (fails (wrap "error creating temp file for contents" e), c)
    | none ↦ elim (fault remove_temp) [
      | some e ↦ (fails (wrap "error removing temp file" e), c)
      | none ↦ elim (fault copy_temp) [
        | some e ↦ (fails no_size, drained c)
        | none ↦ elim (fault seek_temp) [
          | some e ↦ (fails (wrap "error seeking to start of temp file" e), drained c)
          | none ↦ elim (fault stat_temp) [
            | some e ↦ (fails (wrap "error filling tar header" e), drained c)
            | none ↦ (ok (record { name = name; size = length (rest_of c) }), drained c)
          ]
        ]
      ]
    ]
  ]

  unfoldable pub prepare_header : Bool → String → Contents → Result Header × Contents
  unfolding fill_tar_header temp_header
  prepare_header is_done name c =
      if is_done then (fails cancelled, c) else elim (fill_tar_header c) [
        | panics ↦ (panics, c)
        | fails e ↦ (fails e, c)
        | ok (some size) ↦ (ok (record { name = name; size = size }), c)
        | ok none ↦ temp_header name c
      ]
