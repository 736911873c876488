-- ===== src/Diags/Collector.antt =====
-- addons/diags/file-collector.go: `TarFileCollector`.
--
-- The destination and the writer over it are what the opener returned. `tar` is whether the tar writer
-- is there, `entries` is what was written to it, and `log` has the calls that close or remove something.
-- When the write of a body fails, its header and what was written of it stay in the archive. The lock makes each method one step.
pub mod Exact
pub mod Close
use gdev.Base.{
  ℕ, String, Bool, true, false, not, ◌||◌, Option, none, some, List, [], ◌∷◌, ◌++◌, if◌then◌else◌,
  is_none, is_some, take,
}
use gdev.Base.Dict.{Dict, insert}
use gdev.Diags.Contents.{
  Error, already_begun, not_begun, cancelled, wrap, bytes_before, Call, marshal, write_header,
  write_body, close_tar, close_out, sync, close_dest, remove_dest, seeker, Contents, rest_of,
  drained, Header, Result, ok, fails, panics, prepare_header,
}

-- What the opener returns: the destination's name, the writer over it (is it another object than the
-- destination?), whether the destination has `Sync`, and an error.
pub record Opened : Type 0 where
  pub dest : Option String
  pub out : Option Bool
  pub syncs : Bool
  pub err : Option Error

pub record Entry : Type 0 where
  pub header : Header
  pub body : List ℕ

pub record Collector : Type 0 where
  pub dest : Option String
  pub out : Option Bool
  pub syncs : Bool
  pub tar : Bool
  pub tw_fatal : Bool
  pub errors : Option (Dict Error)
  pub entries : List Entry
  pub log : List Call

unfoldable pub new_collector : Collector
new_collector = record {
  dest = none;
  out = none;
  syncs = false;
  tar = false;
  tw_fatal = false;
  errors = none;
  entries = [];
  log = [];
}

abbrev pub is_other : Option Bool → Bool
is_other none = false
is_other (some b) = b

-- What is closed and removed after the opener failed.
abbrev pub undo : Opened → List Call
undo o =
    (if is_other o.out then close_out ∷ [] else [])
    ++ (if is_some o.dest then close_dest ∷ remove_dest ∷ [] else [])

unfoldable pub begin : Opened → Collector → Result Unit × Collector
begin o c =
    if is_some c.dest
    then (fails already_begun, c)
    else let opened = record c { dest = o.dest; out = o.out; syncs = o.syncs } in
      elim o.err [
        | some e ↦ (fails e, record opened { log = c.log ++ undo o })
        | none ↦ (ok tt, record opened { tar = true; errors = some [] })
      ]

unfoldable pub destination : Collector → String
destination c = elim c.dest [ none ↦ "(not started)" | some name ↦ name ]

unfoldable pub add_error : String → Error → Collector → Result Unit × Collector
add_error item e c = elim c.errors [
  | none ↦ (fails not_begun, c)
  | some errs ↦ (ok tt, record c { errors = some (insert item e errs) })
]

module _ (fault : Call → Option Error) where
  unfoldable pub write_locked : Bool → Header → Contents → Collector → Result Unit × Collector
  write_locked is_done h contents c =
      if is_none c.dest || is_none c.out
      then (fails not_begun, c)
      else if is_done
      then (fails cancelled, c)
      else if not c.tar
      then (panics, c)
      else elim (fault (write_header h.name)) [
        | some e ↦ (fails (wrap "error writing tar header" e), record c { tw_fatal = true })
        | none ↦ elim (fault (write_body h.name)) [
          | some e ↦ (
            fails (wrap "error writing contents" e),
            record c {
              tw_fatal = true;
              entries =
                  c.entries
                  ++ record { header = h; body = take (bytes_before e) (rest_of contents) } ∷ [];
            },
          )
          | none ↦ (
            ok tt,
            record c { entries = c.entries ++ record { header = h; body = rest_of contents } ∷ [] },
          )
        ]
      ]

  -- `Collect`, and `collectLocked`: the context may be done when the header is prepared, or later.
  unfoldable pub collect : Bool → Bool → String → Contents → Collector → Result Unit × Collector
  unfolding write_locked
  collect done_early done_late name contents c =
      let (r, contents') = prepare_header fault done_early name contents in
      elim r [
        | panics ↦ (panics, c)
        | fails e ↦ (fails e, c)
        | ok h ↦ write_locked done_late h contents' c
      ]

  -- The error of a call in the chain of `Finalize`, if there is one.
  abbrev pub errs_of : List Call → List Error
  errs_of [] = []
  errs_of (call ∷ calls) = elim (fault call) [ none ↦ errs_of calls | some e ↦ e ∷ errs_of calls ]

  -- The entry with the errors that sources noted.
  unfoldable pub collect_errors :
      (Dict Error → List ℕ) → Bool → Dict Error → Collector → Result (List Error) × Collector
  collect_errors to_json is_done errs c = elim (fault marshal) [
    | some x ↦ (ok (wrap "error marshalling errors" x ∷ []), c)
    | none ↦
        let text = to_json errs ++ 10 ∷ [] in
        let (r, c') =
          collect is_done is_done "errors.json"
            (record { kind = seeker; bytes = text; pos = 0; stat_size = 0 }) c in
        elim r [ ok u ↦ (ok [], c') | fails x ↦ (ok (x ∷ []), c') | panics ↦ (panics, c') ]
  ]

  unfoldable pub annotate :
      (Dict Error → List ℕ) → Bool → Collector → Result (List Error) × Collector
  annotate to_json is_done c = elim c.errors [
    | none ↦ (ok [], c)
    | some [] ↦ (ok [], c)
    | some ((item, e) ∷ errs) ↦
        if c.tw_fatal then (ok [], c) else collect_errors to_json is_done ((item, e) ∷ errs) c
  ]

  -- What `Finalize` closes, in order.
  abbrev pub closing : Collector → List Call
  closing c =
      close_tar
      ∷ ((if is_other c.out then close_out ∷ [] else [])
          ++ (if c.syncs then sync ∷ [] else [])
          ++ close_dest ∷ [])

  -- The errors of a `Finalize`; it returns none, the one, or all joined.
  unfoldable pub finalize :
      (Dict Error → List ℕ) → Bool → Collector → Result (List Error) × Collector
  unfolding annotate
  finalize to_json is_done c =
      let (r, c') = annotate to_json is_done c in
      elim r [
        | fails e ↦ (fails e, c')
        | panics ↦ (panics, c')
        | ok errs ↦
            if not c'.tar || is_none c'.dest
            then (panics, c')
            else (ok (errs ++ errs_of (closing c')), record c' { log = c'.log ++ closing c' })
      ]
