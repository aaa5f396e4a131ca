-- ===== src/Tests/Services.antt =====
-- The theorems on the cluster and the exports at concrete inputs.
use fusillade.Prelude.{
  flatten, ℕ, ◌≡◌, ◌↔◌, refl, Bool, true, List, [], ◌∷◌, ◌++◌, map, Option, none, some, Text, codes,
  arith, ltb, lookup, insert, trim, text_key, All, ok,
}
use fusillade.Tests.{float, histogram_lib, get, metrics, fresh, report}
use fusillade.Stats.Types.{Metric}
use fusillade.Stats.Add.{add_all}
use fusillade.Cluster.{
  Cluster, WorkerInfo, waiting, registered, Event, connected, message, closed, register, heartbeat,
  run, step, check_auth, report_metrics,
}
use fusillade.Cluster.Auth.{check_auth-ok_iff}
use fusillade.Cluster.Metrics.{Fits, sent, bare_requests, report_metrics-sent}
use fusillade.Cluster.Registry.Live.{
  IsRight, AreFresh, worker_at, empty, run-IsRight, reconnect-unlisted,
}
use fusillade.Csv.{csv_escape, parse_csv_line, rows, generate_csv}
use fusillade.Csv.Line.{join, parse_csv_line-join}
use fusillade.Csv.Rows.{fields, show_ℕ-IsPlain}
use fusillade.Csv.Report.{report_fields, rows-fields}
use fusillade.Csv.Shared as Shared
use fusillade.Csv.Files.{HasNoBreak}
use fusillade.Csv.Shared.{parse_file, lines_from, SharedCsv, CsvError}
use fusillade.Statsd.{build_metrics, export, with_prefix}
use fusillade.Statsd.Packets.{IsLine, IsBounded, lines_of, export_loop-sent}
use fusillade.Statsd.Lines.{literal, show_ℕ-OneLine}
use fusillade.Statsd.Delivery.{build_metrics-lines, export-delivers}

check_auth-ok_iff_example :
    (check_auth none (some (codes "Bearer s3cret")) ≡ ok tt)
    × ((check_auth (some (codes "s3cret")) (some (codes "Bearer s3cret")) ≡ ok tt)
        ↔ (some (codes "Bearer s3cret") ≡ some (codes "Bearer " ++ codes "s3cret")))
check_auth-ok_iff_example =
    check_auth-ok_iff (codes "s3cret") (some (codes "Bearer s3cret")) (ground arith)

abbrev events : List (ℕ × Event ℕ)
events =
    (0, connected 100)
    ∷ (0, message (register (codes "a") (codes "10.0.0.1") 4))
    ∷ (0, message (heartbeat (codes "a")))
    ∷ (0, closed)
    ∷ []

empty-IsRight : IsRight (empty {S = ℕ})
unfolding lookup
empty-IsRight = record {
  listed = λ n w e. ground (arith, e);
  served = λ id w e. absurd (ground (arith, e));
  distinct = λ n m v w e. absurd (ground (arith, e));
}

events-AreFresh : AreFresh events empty
unfolding lookup step insert
events-AreFresh = (refl, (λ m w e. ground (arith, e), (tt, (tt, tt))))

run-IsRight_example : IsRight (run events empty)
run-IsRight_example = run-IsRight events empty events-AreFresh empty-IsRight

abbrev place : WorkerInfo ℕ
place = record { id = codes "a"; address = codes "10.0.0.1"; available_cpus = 4; sender = 100 }

abbrev cluster : Cluster ℕ
cluster = record {
  tasks = (0, registered place) ∷ (1, waiting 99) ∷ [];
  workers = (codes "a", place) ∷ [];
}

reconnect-unlisted_example :
    let d =
      run ((1, message (register (codes "a") (codes "10.0.0.2") 8)) ∷ (0, closed) ∷ []) cluster in
    (worker_at d 1
      ≡ some
          (record { id = codes "a"; address = codes "10.0.0.2"; available_cpus = 8; sender = 99 }))
    × (lookup (codes "a") d.workers ≡ none)
unfolding lookup
reconnect-unlisted_example =
    reconnect-unlisted cluster 0 1 place 99 (codes "10.0.0.2") 8 (λ e. cc e) refl refl

abbrev batches : List (List (Metric ℕ))
batches = metrics ∷ (get ∷ []) ∷ []

fits : All (All Fits) batches
fits = ground arith

report_metrics-sent_example :
    report_metrics float histogram_lib none none (map sent batches) fresh
    ≡ (add_all float histogram_lib (flatten (map bare_requests batches)) fresh, ok tt)
unfolding check_auth
report_metrics-sent_example =
    report_metrics-sent float histogram_lib none none batches fresh refl fits

parse_csv_line-join_example :
    parse_csv_line (join (map csv_escape (codes "a,b" ∷ codes "say \"hi\"" ∷ [])))
    ≡ map trim (codes "a,b" ∷ codes "say \"hi\"" ∷ [])
parse_csv_line-join_example = parse_csv_line-join (codes "a,b") (codes "say \"hi\"" ∷ [])

rows-fields_example :
    (map parse_csv_line (rows float report) ≡ map fields (report_fields float report))
    × (All HasNoBreak (rows float report)
        → parse_file (lines_from [] (generate_csv float report))
          ≡ ok (record {
            headers = codes "metric_name" ∷ codes "metric_type" ∷ codes "value" ∷ [];
            rows = map fields (report_fields float report);
          }))
rows-fields_example = rows-fields float (λ n. show_ℕ-IsPlain) show_ℕ-IsPlain report

abbrev read : Text → Option Text
read path = some (codes "user,password\nann,x\n")

abbrev gone : Text → Option Text
gone path = none

abbrev users : SharedCsv
users = record {
  headers = codes "user" ∷ codes "password" ∷ [];
  rows = (codes "ann" ∷ codes "x" ∷ []) ∷ [];
}

-- the files of other workers in between
abbrev loads : List ((Text → Option Text) × Text)
loads = (read, codes "items.csv") ∷ (gone, codes "users.csv") ∷ []

abbrev letter : ℕ → Bool
letter c = ltb 64 c

build_metrics-lines_example : All IsLine (build_metrics float letter (codes "fusillade") report)
build_metrics-lines_example =
    build_metrics-lines float letter (codes "fusillade") refl (literal (codes "fusillade") refl)
      (λ n. show_ℕ-OneLine) show_ℕ-OneLine report

export-delivers_example :
    (lines_of
        (export float letter
          (λ p. true)
          (with_prefix (codes "localhost") (codes "fusillade"))
          report).0
      ≡ build_metrics float letter (codes "fusillade") report)
    × All IsBounded
        (export float letter
          (λ p. true)
          (with_prefix (codes "localhost") (codes "fusillade"))
          report).0
unfolding export with_prefix
export-delivers_example =
    export-delivers float letter (codes "fusillade") refl (literal (codes "fusillade") refl)
      (λ n. show_ℕ-OneLine) show_ℕ-OneLine (λ p. true) (codes "localhost") report
      (export_loop-sent (λ p. true) (λ p. refl) []
        (build_metrics float letter (codes "fusillade") report))
