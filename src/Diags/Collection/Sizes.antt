-- ===== src/Diags/Collection/Sizes.antt =====
-- addons/diags: the entries of an archive that a whole run has written.
use gdev.Base.{
  ℕ, ◌≡◌, refl, String, Bool, true, false, Option, none, some, List, [], ◌∷◌, ◌++◌, All, inl, inr,
  Option-cases, if◌then◌else◌, arith,
}
use gdev.Base.Dict.{Dict}
use gdev.Diags.Contents.{Error, Call, Contents, seeker, marshal, ok, Result-cases}
use gdev.Diags.Collector.{
  Collector, Opened, new_collector, begin, add_error, collect, collect_errors, annotate, finalize,
}
use gdev.Diags.Collector.Exact.{IsExact, IsSized, collect-Exact}
use gdev.Diags.Collection.{SourceCall, collects, adds, source_call, source_calls, run}

-- The sources send only contents whose size can be told.
abbrev pub IsSizedCall : SourceCall → Type 0
IsSizedCall (collects early late name contents) = IsSized contents
IsSizedCall (adds item e) = Unit

abbrev AllExact : (Call → Option Error) → {A : Type 0} → A × Collector → Type 0
AllExact fault (r, c) = All (IsExact fault) c.entries

begin-Exact :
    (fault : Call → Option Error) (o : Opened) (c : Collector)
    → All (IsExact fault) c.entries
    → AllExact fault (begin o c)
unfolding begin
begin-Exact fault o c all = ground arith

add_error-Exact :
    (fault : Call → Option Error) (item : String) (e : Error) (c : Collector)
    → All (IsExact fault) c.entries
    → AllExact fault (add_error item e c)
unfolding add_error
add_error-Exact fault item e c all = ground arith

module _ (fault : Call → Option Error) (to_json : Dict Error → List ℕ) where
  source_calls-Exact :
      (calls : List SourceCall) (c : Collector)
      → All IsSizedCall calls
      → All (IsExact fault) c.entries
      → AllExact fault (source_calls fault to_json calls c)
  unfolding source_calls source_call
  source_calls-Exact [] c sized all = all
  source_calls-Exact (collects early late name contents ∷ calls) c (s, sized) all =
      let kept = collect-Exact fault early late name contents c s all in
      let again =
        source_calls-Exact calls (collect fault early late name contents c).1 sized kept in
      elim (Result-cases (collect fault early late name contents c).0) [
        | inl (u, e) ↦ rw (e, source_calls) again
        | inr (inl (x, e)) ↦ rw (e, source_calls) again
        | inr (inr e) ↦ rw (e, source_calls) kept
      ]
  source_calls-Exact (adds item x ∷ calls) c (s, sized) all =
      let kept = add_error-Exact fault item x c all in
      let again = source_calls-Exact calls (add_error item x c).1 sized kept in
      elim (Result-cases (add_error item x c).0) [
        | inl (u, e) ↦ rw (e, source_calls) again
        | inr (inl (y, e)) ↦ rw (e, source_calls) again
        | inr (inr e) ↦ rw (e, source_calls) kept
      ]

  collect_errors-Exact :
      (is_done : Bool) (errs : Dict Error) (c : Collector)
      → All (IsExact fault) c.entries
      → AllExact fault (collect_errors fault to_json is_done errs c)
  unfolding collect_errors
  collect_errors-Exact is_done errs c all =
      let contents : Contents = record {
        kind = seeker;
        bytes = to_json errs ++ 10 ∷ [];
        pos = 0;
        stat_size = 0;
      } in
      let kept = collect-Exact fault is_done is_done "errors.json" contents c refl all in
      elim (Option-cases (fault marshal)) [
        | inr (x, e) ↦ rw (e, collect_errors) all
        | inl e ↦
            rw (e, collect_errors)
              (elim (Result-cases (collect fault is_done is_done "errors.json" contents c).0) [
                | inl (u, q) ↦ rw q kept
                | inr (inl (y, q)) ↦ rw q kept
                | inr (inr q) ↦ rw q kept
              ])
      ]

  annotate-Exact :
      (is_done : Bool) (errs : Option (Dict Error)) (c : Collector)
      → c.errors ≡ errs
      → All (IsExact fault) c.entries
      → AllExact fault (annotate fault to_json is_done c)
  unfolding annotate
  annotate-Exact is_done none c e all = rw (e, annotate) all
  annotate-Exact is_done (some []) c e all = rw (e, annotate) all
  annotate-Exact is_done (some ((item, x) ∷ errs)) c e all = rw (e, annotate) (chosen c.tw_fatal)
    where
      chosen :
          (fatal : Bool)
          → AllExact fault (
              if fatal
              then (ok [], c)
              else collect_errors fault to_json is_done ((item, x) ∷ errs) c)
      chosen true = all
      chosen false = collect_errors-Exact is_done ((item, x) ∷ errs) c all

  finalize-Exact :
      (is_done : Bool) (c : Collector)
      → All (IsExact fault) c.entries
      → AllExact fault (finalize fault to_json is_done c)
  unfolding finalize
  finalize-Exact is_done c all =
      let kept = annotate-Exact is_done c.errors c refl all in ground arith

  -- If the sources send only buffers, and files and seekers that are read from their start and whose size
  -- is as they tell, then every entry of the archive has as many bytes as its header says, unless the write
  -- of its body failed, whatever else fails.
  pub run-Exact :
      (o : Opened) (calls : List SourceCall) (err : Option Error) (is_done : Bool)
      → All IsSizedCall calls
      → All (IsExact fault) (run fault to_json o calls err is_done).1.entries
  unfolding run new_collector
  run-Exact o calls err is_done sized =
      let c = (begin o new_collector).1 in
      let began = begin-Exact fault o new_collector tt in
      let called = source_calls-Exact calls c sized began in
      let done = finalize-Exact is_done (source_calls fault to_json calls c).1 called in
      ground arith
