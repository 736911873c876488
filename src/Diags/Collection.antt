-- ===== src/Diags/Collection.antt =====
-- addons/diags/collection.go: a collector is begun, the sources use it, and it is finalized.
--
-- The sources run at the same time, and each method of the collector holds its lock: what they do is a
-- list of calls in any order. `err` is the first error that a source returned.
pub mod Sizes
use gdev.Base.{
  ℕ, ◌≡◌, ◌≢◌, refl, String, Bool, true, false, Option, none, some, List, [], ◌∷◌, ◌++◌, arith, All,
  inl, inr, ap,
}
use gdev.Base.Dict.{Dict}
use gdev.Diags.Contents.{Error, wrap, Call, Contents, Result, ok, fails, panics, Result-cases}
use gdev.Diags.Collector.{
  Opened, Collector, Entry, new_collector, begin, add_error, collect, errs_of, finalize,
}
use gdev.Diags.Collector.Exact.{IsExact, IsSized, collect-Exact}
use gdev.Diags.Collector.Close.{
  chain, failures, notes_errors, IsBegun, begin-IsBegun, add_error-IsBegun, collect-IsBegun,
  finalize-Closes,
}

-- A call that a source makes: `Collect`, with whether the context is done as it starts and later, or
-- `AddError`.
pub data SourceCall : Type 0 where
  collects : Bool → Bool → String → Contents → SourceCall
  adds : String → Error → SourceCall

abbrev pub listed : Option Error → List Error
listed none = []
listed (some e) = e ∷ []

module _ (fault : Call → Option Error) (to_json : Dict Error → List ℕ) where
  unfoldable pub source_call : SourceCall → Collector → Result Unit × Collector
  source_call (collects early late name contents) c = collect fault early late name contents c
  source_call (adds item e) c = add_error item e c

  -- A source goes on after an error of the collector or not; only a panic ends the run.
  unfoldable pub source_calls : List SourceCall → Collector → Result Unit × Collector
  unfolding source_call
  source_calls [] c = (ok tt, c)
  source_calls (call ∷ calls) c =
      let (r, c') = source_call call c in
      let rest = source_calls calls c' in
      elim r [ panics ↦ (panics, c') | ok u ↦ rest | fails e ↦ rest ]

  -- `Collection.Run`: the errors that it joins.
  unfoldable pub run :
      Opened → List SourceCall → Option Error → Bool → Result (List Error) × Collector
  unfolding begin source_calls finalize
  run o calls err is_done =
      let (r, c) = begin o new_collector in
      elim r [
        | panics ↦ (panics, c)
        | fails e ↦ (ok (wrap "error beginning collector" e ∷ []), c)
        | ok u ↦
            let (s, c') = source_calls calls c in
            elim s [
              | panics ↦ (panics, c')
              | fails e ↦ (fails e, c')
              | ok v ↦
                  let (f, c'') = finalize fault to_json is_done c' in
                  elim f [
                    | panics ↦ (panics, c'')
                    | fails e ↦ (fails e, c'')
                    | ok errs ↦ (ok (listed err ++ errs), c'')
                  ]
            ]
      ]

  source_call-IsBegun :
      (call : SourceCall) (name : String) (wrapped syncs : Bool) (c : Collector)
      → IsBegun name wrapped syncs c
      → ((source_call call c).0 ≢ panics) × IsBegun name wrapped syncs (source_call call c).1
  unfolding source_call
  source_call-IsBegun (collects early late item contents) name wrapped syncs c b =
      collect-IsBegun name wrapped syncs c fault early late item contents b
  source_call-IsBegun (adds item e) name wrapped syncs c b =
      let (done, kept) = add_error-IsBegun name wrapped syncs c item e b in (λ p. cc, kept)

  source_calls-IsBegun :
      (calls : List SourceCall) (name : String) (wrapped syncs : Bool) (c : Collector)
      → IsBegun name wrapped syncs c
      → ((source_calls calls c).0 ≡ ok tt) × IsBegun name wrapped syncs (source_calls calls c).1
  unfolding source_calls
  source_calls-IsBegun [] name wrapped syncs c b = (refl, b)
  source_calls-IsBegun (call ∷ calls) name wrapped syncs c b =
      let (returns, kept) = source_call-IsBegun call name wrapped syncs c b in
      let again = source_calls-IsBegun calls name wrapped syncs (source_call call c).1 kept in
      elim (Result-cases (source_call call c).0) [
        | inl (u, e) ↦ rw (e, source_calls) again
        | inr (inl (x, e)) ↦ rw (e, source_calls) again
        | inr (inr e) ↦ absurd (returns e)
      ]

  -- If the opener returns a destination and a writer over it, then whatever the sources do, and whatever
  -- fails, Run ends: it closes the archive, the writer if it is another object, and the destination, each
  -- once and in this order. It returns the error of the sources, the error of the entry with the noted
  -- errors (of making its JSON or of collecting it; there is one only if an error was noted and no write to the archive
  -- has failed), and every error of a closing call.
  pub run-Closes :
      (o : Opened) (calls : List SourceCall) (err : Option Error) (is_done : Bool) (name : String)
      (wrapped syncs : Bool)
      → o ≡ record { dest = some name; out = some wrapped; syncs = syncs; err = none }
      → ((run o calls err is_done).0
          ≡ ok (
              listed err
              ++ (notes_errors fault to_json is_done
                    (source_calls calls (begin o new_collector).1).1
                  ++ failures fault (chain wrapped syncs))))
        × ((run o calls err is_done).1.log ≡ chain wrapped syncs)
  unfolding run new_collector
  run-Closes o calls err is_done name wrapped syncs e =
      let (began, b) =
        begin-IsBegun name wrapped syncs new_collector o (ap (λ r. r.dest) e) (ap (λ r. r.out) e)
          (ap (λ r. r.syncs) e) (ap (λ r. r.err) e) refl refl in
      let (called, b') =
        source_calls-IsBegun calls name wrapped syncs (begin o new_collector).1 b in
      let (errs, log) =
        finalize-Closes fault to_json is_done name wrapped syncs
          (source_calls calls (begin o new_collector).1).1 b' in
      (rw (began, called, errs, run) refl, rw (began, called, errs, run) log)
