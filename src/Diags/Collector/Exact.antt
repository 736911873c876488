-- ===== src/Diags/Collector/Exact.antt =====
-- addons/diags/file-collector.go: the size in an entry's header, and the bytes that follow it.
use gdev.Base.{
  ◌≡◌, refl, Bool, String, Option, none, [], ◌∷◌, ◌++◌, length, All, All-append, arith, inl, inr,
  take, Option-cases,
}
use gdev.Base.Bytes.{drop_long}
use gdev.Diags.Contents.{
  Error, Call, write_body, file, seeker, buffer, stream, Kind, Contents, bytes_before, rest_of,
  drained, Header, ok, fill_tar_header, temp_header, prepare_header, Result-cases,
}
use gdev.Diags.Collector.{Entry, Collector, write_locked, collect}

-- The body is as long as the header says, unless its write failed.
abbrev pub IsExact : (Call → Option Error) → Entry → Type 0
IsExact fault e = fault (write_body e.header.name) ≡ none → e.header.size ≡ length e.body

-- Contents whose size can be told: they are read from the start, and `Stat` tells the truth; a buffer
-- may be read from anywhere.
abbrev pub IsSizedAs : Kind → Contents → Type 0
IsSizedAs file c = (c.stat_size ≡ length c.bytes) × (c.pos ≡ 0)
IsSizedAs seeker c = c.pos ≡ 0
IsSizedAs buffer c = Unit
IsSizedAs stream c = ⊥

abbrev pub IsSized : Contents → Type 0
IsSized c = IsSizedAs c.kind c

module _ (fault : Call → Option Error) where
  prepare_header-size :
      (is_done : Bool) (name : String) (kind : Kind) (c : Contents) (h : Header) (c' : Contents)
      → c.kind ≡ kind
      → IsSizedAs kind c
      → prepare_header fault is_done name c ≡ (ok h, c')
      → (h.size ≡ length (rest_of c')) × (h.name ≡ name)
  unfolding prepare_header fill_tar_header
  prepare_header-size is_done name file c h c' k s e = ground arith
  prepare_header-size is_done name seeker c h c' k s e = ground arith
  prepare_header-size is_done name buffer c h c' k s e = ground arith
  prepare_header-size is_done name stream c h c' k s e = elim s [ ]

  prepare_header-stream :
      (is_done : Bool) (name : String) (c : Contents) (h : Header) (c' : Contents)
      → c.kind ≡ stream
      → prepare_header fault is_done name c ≡ (ok h, c')
      → (h ≡ record { name = name; size = length (rest_of c) }) × (c' ≡ drained c)
  unfolding prepare_header fill_tar_header temp_header
  prepare_header-stream is_done name c h c' k e = ground arith

  write_locked-Exact :
      (is_done : Bool) (h : Header) (contents : Contents) (c : Collector)
      → h.size ≡ length (rest_of contents)
      → All (IsExact fault) c.entries
      → All (IsExact fault) (write_locked fault is_done h contents c).1.entries
  unfolding write_locked
  write_locked-Exact is_done h contents c s all = elim (Option-cases (fault (write_body h.name))) [
    | inl fine ↦ ground (
      arith,
      fine,
      All-append (IsExact fault) c.entries (record { header = h; body = rest_of contents } ∷ []) all
          ((λ f. s), tt),
    )
    | inr (e, failed) ↦ ground (
      arith,
      failed,
      All-append (IsExact fault) c.entries
          (record { header = h; body = take (bytes_before e) (rest_of contents) } ∷ []) all
          ((λ f. absurd (ground (arith, failed, f))), tt),
    )
  ]

  -- Contents whose size can be told are written with that size.
  pub collect-Exact :
      (early late : Bool) (name : String) (contents : Contents) (c : Collector)
      → IsSized contents
      → All (IsExact fault) c.entries
      → All (IsExact fault) (collect fault early late name contents c).1.entries
  unfolding collect
  collect-Exact early late name contents c s all =
      let p = prepare_header fault early name contents in
      elim (Result-cases p.0) [
        | inl (h, e) ↦
            let (sized, named) =
              prepare_header-size early name contents.kind contents h p.1 refl s
                (ground (arith, e)) in
            rw (e, collect) (write_locked-Exact late h p.1 c sized all)
        | inr (inl (x, e)) ↦ rw (e, collect) all
        | inr (inr e) ↦ rw (e, collect) all
      ]

  -- An entry from a stream has the size of the stream in its header, and no bytes: making the header has
  -- read the stream to its end.
  pub collect-stream :
      (early late : Bool) (name : String) (contents : Contents) (c : Collector)
      → contents.kind ≡ stream
      → (collect fault early late name contents c).0 ≡ ok tt
      → (collect fault early late name contents c).1.entries
        ≡ c.entries
          ++ record { header = record { name = name; size = length (rest_of contents) }; body = [] }
            ∷ []
  unfolding collect prepare_header write_locked fill_tar_header temp_header
  collect-stream early late name contents c k e =
      ground (arith, drop_long (length contents.bytes) contents.bytes (omega arith))
