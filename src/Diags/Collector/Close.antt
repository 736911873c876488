-- ===== src/Diags/Collector/Close.antt =====
-- addons/diags/file-collector.go: what the methods of a collector that has begun leave alone, and what
-- `Finalize` closes.
use gdev.Base.{
  ℕ, ◌≡◌, ◌≢◌, refl, Bool, true, false, String, Option, none, some, List, [], ◌∷◌, ◌++◌, arith, inl,
  inr, if◌then◌else◌, is_some, Option-cases,
}
use gdev.Base.Dict.{Dict}
use gdev.Diags.Contents.{
  Error, Call, close_tar, close_out, sync, close_dest, marshal, wrap, seeker, Contents, Header,
  Result, ok, fails, panics, prepare_header, fill_tar_header, temp_header, Result-cases,
}
use gdev.Diags.Collector.{
  Collector, Opened, begin, add_error, write_locked, collect, collect_errors, annotate, errs_of,
  finalize,
}

-- The calls that close a destination: the archive, the writer over the destination if it is another
-- object, and the destination, which is flushed first if it can be.
abbrev pub chain : Bool → Bool → List Call
chain wrapped syncs =
    close_tar
    ∷ ((if wrapped then close_out ∷ [] else [])
        ++ (if syncs then sync ∷ [] else [])
        ++ close_dest ∷ [])

-- The errors of calls, in their order.
abbrev pub failures : (Call → Option Error) → List Call → List Error
failures fault [] = []
failures fault (call ∷ calls) =
    (elim (fault call) [ none ↦ [] | some e ↦ e ∷ [] ]) ++ failures fault calls

errs_of-failures :
    (fault : Call → Option Error) (calls : List Call) → errs_of fault calls ≡ failures fault calls
errs_of-failures fault [] = refl
errs_of-failures fault (call ∷ calls) = ground (arith, errs_of-failures fault calls)

-- The collector has begun, and has closed nothing.
pub record IsBegun (name : String) (wrapped syncs : Bool) (c : Collector) : Type 0 where
  pub dest : c.dest ≡ some name
  pub out : c.out ≡ some wrapped
  pub flushes : c.syncs ≡ syncs
  pub tar : c.tar ≡ true
  pub notes : is_some c.errors ≡ true
  pub log : c.log ≡ []

module _ (name : String) (wrapped syncs : Bool) (c : Collector) where
  pub begin-IsBegun :
      (o : Opened)
      → o.dest ≡ some name
      → o.out ≡ some wrapped
      → o.syncs ≡ syncs
      → o.err ≡ none
      → c.dest ≡ none
      → c.log ≡ []
      → ((begin o c).0 ≡ ok tt) × IsBegun name wrapped syncs (begin o c).1
  unfolding begin
  begin-IsBegun o d w s e fresh quiet = ground arith

  pub add_error-IsBegun :
      (item : String) (e : Error)
      → IsBegun name wrapped syncs c
      → ((add_error item e c).0 ≡ ok tt) × IsBegun name wrapped syncs (add_error item e c).1
  unfolding add_error
  add_error-IsBegun item e b = ground arith

  module _ (fault : Call → Option Error) where
    write_locked-IsBegun :
        (is_done : Bool) (h : Header) (contents : Contents)
        → IsBegun name wrapped syncs c
        → ((write_locked fault is_done h contents c).0 ≢ panics)
          × IsBegun name wrapped syncs (write_locked fault is_done h contents c).1
    unfolding write_locked
    write_locked-IsBegun is_done h contents b = ground arith

    prepare_header-returns :
        (is_done : Bool) (item : String) (contents : Contents)
        → (prepare_header fault is_done item contents).0 ≢ panics
    unfolding prepare_header fill_tar_header temp_header
    prepare_header-returns is_done item contents = ground arith

    pub collect-IsBegun :
        (early late : Bool) (item : String) (contents : Contents)
        → IsBegun name wrapped syncs c
        → ((collect fault early late item contents c).0 ≢ panics)
          × IsBegun name wrapped syncs (collect fault early late item contents c).1
    unfolding collect
    collect-IsBegun early late item contents b =
        let p = prepare_header fault early item contents in
        elim (Result-cases p.0) [
          | inl (h, e) ↦ rw (e, collect) (write_locked-IsBegun late h p.1 b)
          | inr (inl (x, e)) ↦ rw (e, collect) (λ n. cc, b)
          | inr (inr e) ↦ absurd (prepare_header-returns early item contents e)
        ]

abbrev pub error_of : {A : Type 0} → Result A → List Error
error_of (ok a) = []
error_of (fails e) = e ∷ []
error_of panics = []

module _ (fault : Call → Option Error) (to_json : Dict Error → List ℕ) (is_done : Bool) where
  -- The entry of the noted errors, with a line end after the JSON.
  abbrev pub notes_file : Dict Error → Contents
  notes_file errs = record {
    kind = seeker;
    bytes = to_json errs ++ 10 ∷ [];
    pos = 0;
    stat_size = 0;
  }

  -- The error of that entry: of its JSON, or of its collection.
  abbrev pub entry_errors : Dict Error → Collector → List Error
  entry_errors errs c = elim (fault marshal) [
    | some x ↦ wrap "error marshalling errors" x ∷ []
    | none ↦ error_of (collect fault is_done is_done "errors.json" (notes_file errs) c).0
  ]

  -- There is such an entry if an error was noted and the archive can still be written.
  abbrev pub noted_errors : Option (Dict Error) → Collector → List Error
  noted_errors none c = []
  noted_errors (some []) c = []
  noted_errors (some (first ∷ more)) c = if c.tw_fatal then [] else entry_errors (first ∷ more) c

  abbrev pub notes_errors : Collector → List Error
  notes_errors c = noted_errors c.errors c

  -- What both give back: these errors, and a collector that has closed nothing.
  abbrev Notes : String → Bool → Bool → List Error → Result (List Error) × Collector → Type 0
  Notes name wrapped syncs notes (r, c) = (r ≡ ok notes) × IsBegun name wrapped syncs c

  collect_errors-Notes :
      (name : String) (wrapped syncs : Bool) (errs : Dict Error) (c : Collector)
      → IsBegun name wrapped syncs c
      → Notes name wrapped syncs (entry_errors errs c) (collect_errors fault to_json is_done errs c)
  unfolding collect_errors
  collect_errors-Notes name wrapped syncs errs c b =
      let text = to_json errs ++ 10 ∷ [] in
      let contents : Contents = record { kind = seeker; bytes = text; pos = 0; stat_size = 0 } in
      let (returns, kept) =
        collect-IsBegun name wrapped syncs c fault is_done is_done "errors.json" contents b in
      elim (Option-cases (fault marshal)) [
        | inr (x, e) ↦ rw (e, collect_errors, entry_errors) (refl, b)
        | inl e ↦
            rw (e, collect_errors, entry_errors)
              (elim (Result-cases (collect fault is_done is_done "errors.json" contents c).0) [
                | inl (u, q) ↦ rw q (refl, kept)
                | inr (inl (x, q)) ↦ rw q (refl, kept)
                | inr (inr q) ↦ absurd (returns q)
              ])
      ]

  annotate-some :
      (item : String) (x : Error) (errs : Dict Error) (c : Collector)
      → c.errors ≡ some ((item, x) ∷ errs)
      → annotate fault to_json is_done c ≡ (
          if c.tw_fatal
          then (ok [], c)
          else collect_errors fault to_json is_done ((item, x) ∷ errs) c)
  unfolding annotate
  annotate-some item x errs c e = ground (arith, e)

  annotate-Notes :
      (name : String) (wrapped syncs : Bool) (errs : Option (Dict Error)) (c : Collector)
      → c.errors ≡ errs
      → IsBegun name wrapped syncs c
      → Notes name wrapped syncs (noted_errors errs c) (annotate fault to_json is_done c)
  unfolding annotate
  annotate-Notes name wrapped syncs none c e b = rw (e, annotate) (refl, b)
  annotate-Notes name wrapped syncs (some []) c e b = rw (e, annotate) (refl, b)
  annotate-Notes name wrapped syncs (some ((item, x) ∷ errs)) c e b =
      rw (annotate-some item x errs c e) (chosen c.tw_fatal)
    where
      chosen :
          (fatal : Bool)
          → Notes name wrapped syncs (if fatal then [] else entry_errors ((item, x) ∷ errs) c) (
              if fatal
              then (ok [], c)
              else collect_errors fault to_json is_done ((item, x) ∷ errs) c)
      chosen true = (refl, b)
      chosen false = collect_errors-Notes name wrapped syncs ((item, x) ∷ errs) c b

  -- Finalize of a collector that has begun closes the chain, whatever fails on the way, and returns each
  -- error of it after those of the entry with the notes.
  pub finalize-Closes :
      (name : String) (wrapped syncs : Bool) (c : Collector)
      → IsBegun name wrapped syncs c
      → ((finalize fault to_json is_done c).0
          ≡ ok (notes_errors c ++ failures fault (chain wrapped syncs)))
        × ((finalize fault to_json is_done c).1.log ≡ chain wrapped syncs)
  unfolding finalize
  finalize-Closes name wrapped syncs c b =
      let (e, kept) = annotate-Notes name wrapped syncs c.errors c refl b in
      (ground (arith, errs_of-failures fault (chain wrapped syncs)), ground arith)
