-- ===== src/Stats/Add/Consistent.antt =====
-- What holds of a `StatsAggregator` after any metrics.
use fusillade.Prelude.{
  ℕ, ◌≤◌, ◌≡◌, refl, not, ◌&&◌, List, [], ◌∷◌, ◌++◌, Option, none, some, Text, arith, if◌then◌else◌,
  length, add_u64, length-append, length-drop, if-both,
}
use fusillade.Float.{Float}
use fusillade.Stats.Add.{
  add, add_all, add_request, add_http, add_failure, add_endpoint, push_log, is_iteration,
  is_iteration_total, Agg,
}
use fusillade.Stats.Types.{
  Tags, RequestTimings, Metric, request, log, HistogramLib, StatsAggregator, new_aggregator,
}

-- The minimum is there once the maximum is positive, and is no greater.
abbrev pub Extremes : Option ℕ → ℕ → Type 0
Extremes none hi = hi ≡ 0
Extremes (some lo) hi = lo ≤ hi

pub record IsConsistent {F H : Type 0} (a : StatsAggregator F H) : Type 0 where
  -- each request either reused a connection or opened one
  pub pool_accounts : add_u64 a.pool_hits a.pool_misses ≡ a.total_requests
  pub extremes : Extremes a.min_duration a.max_duration
  pub longest_counted : a.max_duration ≤ a.total_duration
  pub logs_bounded : length a.logs ≤ 100

push_log_bound : (m : Text) (logs : List Text) → length logs ≤ 100 → length (push_log m logs) ≤ 100
unfolding push_log
push_log_bound m logs h =
    ground (arith, length-append logs (m ∷ []), length-drop 1 (logs ++ (m ∷ [])))

module _ (fl : Float) (hl : HistogramLib) where
  add_http-IsConsistent :
      (t : RequestTimings) (status : ℕ) (error : Option Text) (a : Agg fl hl)
      → IsConsistent a
      → IsConsistent (add_http fl hl t status error a)
  unfolding add_http
  add_http-IsConsistent t status error a h = record {
    pool_accounts = ground arith;
    extremes = ground arith;
    longest_counted = ground arith;
    logs_bounded = h.logs_bounded;
  }

  add_failure-IsConsistent :
      (error : Option Text) (a : Agg fl hl)
      → IsConsistent a
      → IsConsistent (add_failure fl hl error a)
  unfolding add_failure
  add_failure-IsConsistent none a h = h
  add_failure-IsConsistent (some e) a h = record {
    pool_accounts = h.pool_accounts;
    extremes = h.extremes;
    longest_counted = h.longest_counted;
    logs_bounded = h.logs_bounded;
  }

  add_endpoint-IsConsistent :
      (name : Text) (t : RequestTimings) (error : Option Text) (tags : Tags) (a : Agg fl hl)
      → IsConsistent a
      → IsConsistent (add_endpoint fl hl name t error tags a)
  unfolding add_endpoint
  add_endpoint-IsConsistent name t error tags a h =
      if-both IsConsistent a.no_endpoint_tracking a _ h (record {
        pool_accounts = h.pool_accounts;
        extremes = h.extremes;
        longest_counted = h.longest_counted;
        logs_bounded = h.logs_bounded;
      })

  pub add-IsConsistent :
      (m : Metric fl.F) (a : Agg fl hl) → IsConsistent a → IsConsistent (add fl hl m a)
  unfolding add add_request
  add-IsConsistent (request name t status error tags) a h =
      let a1 : Agg fl hl = if is_iteration name then a else add_http fl hl t status error a in
      let h1 : IsConsistent a1 =
        if-both IsConsistent (is_iteration name) a _ h (add_http-IsConsistent t status error a h) in
      add_endpoint-IsConsistent name t error tags _ (
        if-both IsConsistent (is_iteration name && not (is_iteration_total name)) _ a1
          (add_failure-IsConsistent error a1 h1) h1)
  add-IsConsistent (log message) a h = record {
    pool_accounts = h.pool_accounts;
    extremes = h.extremes;
    longest_counted = h.longest_counted;
    logs_bounded = push_log_bound message a.logs h.logs_bounded;
  }
  add-IsConsistent _ a h = record {
    pool_accounts = h.pool_accounts;
    extremes = h.extremes;
    longest_counted = h.longest_counted;
    logs_bounded = h.logs_bounded;
  }

  add_all-IsConsistent :
      (ms : List (Metric fl.F)) (a : Agg fl hl) → IsConsistent a → IsConsistent (add_all fl hl ms a)
  unfolding add_all
  add_all-IsConsistent [] a h = h
  add_all-IsConsistent (m ∷ ms) a h =
      add_all-IsConsistent ms (add fl hl m a) (add-IsConsistent m a h)

  -- After any metrics: hits and misses of the pool make up the requests, the minimum is at most the
  -- maximum and the maximum at most the total duration, and at most a hundred logs are kept.
  pub add_all-new-IsConsistent :
      (ms : List (Metric fl.F)) → IsConsistent (add_all fl hl ms (new_aggregator fl.F hl))
  add_all-new-IsConsistent ms = add_all-IsConsistent ms _ (record {
    pool_accounts = refl;
    extremes = refl;
    longest_counted = omega arith;
    logs_bounded = omega arith;
  })
