-- ===== src/Diags/Tests.antt =====
-- addons/diags: a run with two contents and a noted error, and an entry from a stream.
use gdev.Base.{ℕ, ◌≡◌, refl, true, false, Option, none, some, List, [], ◌∷◌, ◌++◌, All}
use gdev.Base.Dict.{Dict}
use gdev.Diags.Contents.{
  Error, other, Call, sync, file, seeker, stream, Contents, ok, prepare_header, fill_tar_header,
  temp_header,
}
use gdev.Diags.Collector.{
  Opened, Collector, new_collector, begin, destination, write_locked, collect,
}
use gdev.Diags.Collector.Exact.{IsExact, collect-stream}
use gdev.Diags.Collector.Close.{chain, failures, notes_errors}
use gdev.Diags.Collection.{SourceCall, collects, adds, run, source_calls, run-Closes}
use gdev.Diags.Collection.Sizes.{run-Exact}

-- Only the flush of the destination fails.
abbrev fault : Call → Option Error
fault sync = some (other "full")
fault _ = none

abbrev to_json : Dict Error → List ℕ
to_json errs = 123 ∷ 125 ∷ []

abbrev opened : Opened
opened = record { dest = some "/tmp/x.tgz"; out = some true; syncs = true; err = none }

abbrev app_info : Contents
app_info = record { kind = seeker; bytes = 1 ∷ 2 ∷ 3 ∷ []; pos = 0; stat_size = 0 }

abbrev log_file : Contents
log_file = record { kind = file; bytes = 7 ∷ []; pos = 0; stat_size = 1 }

abbrev piped : Contents
piped = record { kind = stream; bytes = 5 ∷ 6 ∷ []; pos = 0; stat_size = 0 }

abbrev calls : List SourceCall
calls =
    collects false false "app" app_info
    ∷ adds "dmesg" (other "denied")
    ∷ collects false false "log" log_file
    ∷ []

run-Closes_example :
    ((run fault to_json opened calls (some (other "source")) false).0
      ≡ ok (
          other "source"
          ∷ (notes_errors fault to_json false
                (source_calls fault to_json calls (begin opened new_collector).1).1
              ++ failures fault (chain true true))))
    × ((run fault to_json opened calls (some (other "source")) false).1.log ≡ chain true true)
run-Closes_example =
    run-Closes fault to_json opened calls (some (other "source")) false "/tmp/x.tgz" true true refl

run-Exact_example : All (IsExact fault) (run fault to_json opened calls none false).1.entries
run-Exact_example = run-Exact fault to_json opened calls none false (refl, (tt, ((refl, refl), tt)))

abbrev begun : Collector
unfolding begin new_collector
begun = (begin opened new_collector).1

begun_at : destination begun ≡ "/tmp/x.tgz"
unfolding destination begin new_collector
begun_at = refl

piped_done : (collect fault false false "pipe" piped begun).0 ≡ ok tt
unfolding collect write_locked prepare_header fill_tar_header temp_header begin new_collector
piped_done = refl

collect-stream_example :
    (collect fault false false "pipe" piped begun).1.entries
    ≡ begun.entries ++ record { header = record { name = "pipe"; size = 2 }; body = [] } ∷ []
collect-stream_example = collect-stream fault false false "pipe" piped begun refl piped_done
