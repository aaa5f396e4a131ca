-- ===== src/Tests/Metrics.antt =====
-- The theorems on the way of the metrics at concrete inputs.
use fusillade.Prelude.{ℕ, ◌≡◌, true, false, List, [], ◌∷◌, ◌++◌, map, some, arith, flatten}
use fusillade.Tests.{float, histogram_lib, get, failed, fresh}
use fusillade.Stats.Add.{add_all}
use fusillade.Stats.Sharded.{merge}
use fusillade.Stats.Sharded.Refines.{Agrees}
use fusillade.Pipeline.{Pipeline, Receipt, start, consumer_of, receive_all}
use fusillade.Pipeline.Shards.{receive_all-Agrees}
use fusillade.Pipeline.Posts.{first_share, receive_all-posted}

abbrev receipts : List (Receipt ℕ)
receipts =
    record { agg_id = 1; due = false; metric = get }
    ∷ record { agg_id = 0; due = true; metric = failed }
    ∷ record { agg_id = 0; due = false; metric = get }
    ∷ []

receive_all-Agrees_example :
    (p : Pipeline float histogram_lib) × (receive_all float histogram_lib true 2 receipts
        (start float histogram_lib 16)
      ≡ some p)
    × Agrees
        (merge float histogram_lib p.shards)
        (add_all float histogram_lib (map (λ r. r.metric) receipts) fresh)
receive_all-Agrees_example = receive_all-Agrees float histogram_lib true 2 16 receipts (omega arith)

abbrev run :
    (p : Pipeline float histogram_lib) × (receive_all float histogram_lib true 2 receipts
        (start float histogram_lib 16)
      ≡ some p)
    × Agrees
        (merge float histogram_lib p.shards)
        (add_all float histogram_lib (map (λ r. r.metric) receipts) fresh)
run = receive_all-Agrees float histogram_lib true 2 16 receipts (omega arith)

receive_all-posted_example :
    flatten ((run.0).posted) ++ (consumer_of float histogram_lib 0 (run.0).consumers).batch
    ≡ first_share receipts
receive_all-posted_example = receive_all-posted float histogram_lib 2 16 receipts run.0 run.1
