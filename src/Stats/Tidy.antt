-- ===== src/Stats/Tidy.antt =====
-- The maps of counts in a `StatsAggregator` hold each key once, and values below 2^64.
use fusillade.Prelude.{
  ℕ, ◌≡◌, refl, Bool, true, false, Option, none, some, Text, arith, nat_key, text_key, add_u64,
  u64_mod, ◌<◌, IsCounts, update-IsCounts, if◌then◌else◌, if-both, not, ◌&&◌,
}
use fusillade.Float.{Float}
use fusillade.Stats.Add.{
  add, add_request, add_http, add_failure, add_endpoint, count, observe, is_iteration,
  is_iteration_total, Agg,
}
use fusillade.Stats.Sharded.{add_pair}
use fusillade.Stats.Types.{
  Tags, RequestTimings, Metric, request, check, log, histogram, rate, counter, gauge, HistogramLib,
  StatsAggregator, new_aggregator,
}

-- The counters are values of their type.
abbrev pub InRange : {F H : Type 0} → StatsAggregator F H → Type 0
InRange a =
    (a.total_requests < u64_mod)
    × (a.total_data_sent < u64_mod)
    × (a.total_data_received < u64_mod)
    × (a.failed_iterations < u64_mod)
    × (a.pool_hits < u64_mod)
    × (a.pool_misses < u64_mod)

pub record IsTidy {F H : Type 0} (a : StatsAggregator F H) : Type 0 where
  pub status_codes : IsCounts nat_key add_u64 0 a.status_codes
  pub errors : IsCounts text_key add_u64 0 a.errors
  pub checks : IsCounts text_key add_pair (0, 0) a.checks
  pub rates : IsCounts text_key add_pair (0, 0) a.rates
  pub words : InRange a

count_normal : (n : ℕ) → add_u64 0 (count n) ≡ count n
count_normal n = omega arith

observe_normal :
    (success : Bool) (p : ℕ × ℕ)
    → add_pair (0, 0) p ≡ p
    → add_pair (0, 0) (observe success p) ≡ observe success p
observe_normal true p h = λ i. (count_normal p.0 i, count_normal p.1 i)
observe_normal false p h = λ i. (count_normal p.0 i, (h i).1)

module _ (fl : Float) (hl : HistogramLib) where
  pub new-IsTidy : IsTidy (new_aggregator fl.F hl)
  new-IsTidy = record {
    status_codes = tt;
    errors = tt;
    checks = tt;
    rates = tt;
    words = omega arith;
  }

  add_http_words :
      (t : RequestTimings) (a : Agg fl hl)
      → InRange a
      → (count a.total_requests < u64_mod)
        × (add_u64 a.total_data_sent t.request_size < u64_mod)
        × (add_u64 a.total_data_received t.response_size < u64_mod)
        × (a.failed_iterations < u64_mod)
        × ((if t.pool_reused then count a.pool_hits else a.pool_hits) < u64_mod)
        × ((if t.pool_reused then a.pool_misses else count a.pool_misses) < u64_mod)
  add_http_words t a w = ground arith

  add_http-IsTidy :
      (t : RequestTimings) (status : ℕ) (error : Option Text) (a : Agg fl hl)
      → IsTidy a
      → IsTidy (add_http fl hl t status error a)
  unfolding add_http
  add_http-IsTidy t status none a h = record {
    status_codes =
        update-IsCounts nat_key add_u64 0 status count a.status_codes refl (λ n _. count_normal n)
          h.status_codes;
    errors = h.errors;
    checks = h.checks;
    rates = h.rates;
    words = add_http_words t a h.words;
  }
  add_http-IsTidy t status (some e) a h = record {
    status_codes =
        update-IsCounts nat_key add_u64 0 status count a.status_codes refl (λ n _. count_normal n)
          h.status_codes;
    errors =
        update-IsCounts text_key add_u64 0 e count a.errors refl (λ n _. count_normal n) h.errors;
    checks = h.checks;
    rates = h.rates;
    words = add_http_words t a h.words;
  }

  add_failure-IsTidy :
      (error : Option Text) (a : Agg fl hl) → IsTidy a → IsTidy (add_failure fl hl error a)
  unfolding add_failure
  add_failure-IsTidy none a h = h
  add_failure-IsTidy (some e) a h = record {
    status_codes = h.status_codes;
    errors =
        update-IsCounts text_key add_u64 0 e count a.errors refl (λ n _. count_normal n) h.errors;
    checks = h.checks;
    rates = h.rates;
    words = omega arith;
  }

  add_endpoint-IsTidy :
      (name : Text) (t : RequestTimings) (error : Option Text) (tags : Tags) (a : Agg fl hl)
      → IsTidy a
      → IsTidy (add_endpoint fl hl name t error tags a)
  unfolding add_endpoint
  add_endpoint-IsTidy name t error tags a h = if-both IsTidy a.no_endpoint_tracking a _ h (record {
    status_codes = h.status_codes;
    errors = h.errors;
    checks = h.checks;
    rates = h.rates;
    words = h.words;
  })

  add_request-IsTidy :
      (name : Text) (t : RequestTimings) (status : ℕ) (error : Option Text) (tags : Tags)
      (a : Agg fl hl)
      → IsTidy a
      → IsTidy (add_request fl hl name t status error tags a)
  unfolding add_request
  add_request-IsTidy name t status error tags a h =
      let a1 : Agg fl hl = if is_iteration name then a else add_http fl hl t status error a in
      let h1 : IsTidy a1 =
        if-both IsTidy (is_iteration name) a _ h (add_http-IsTidy t status error a h) in
      add_endpoint-IsTidy name t error tags _ (
        if-both IsTidy (is_iteration name && not (is_iteration_total name)) _ a1
          (add_failure-IsTidy error a1 h1) h1)

  pub add-IsTidy : (m : Metric fl.F) (a : Agg fl hl) → IsTidy a → IsTidy (add fl hl m a)
  unfolding add
  add-IsTidy (request name t status error tags) a h =
      add_request-IsTidy name t status error tags a h
  add-IsTidy (check name success message) a h = record {
    status_codes = h.status_codes;
    errors = h.errors;
    checks =
        update-IsCounts text_key add_pair (0, 0) name (observe success) a.checks refl
          (observe_normal success) h.checks;
    rates = h.rates;
    words = h.words;
  }
  add-IsTidy (rate name success tags) a h = record {
    status_codes = h.status_codes;
    errors = h.errors;
    checks = h.checks;
    rates =
        update-IsCounts text_key add_pair (0, 0) name (observe success) a.rates refl
          (observe_normal success) h.rates;
    words = h.words;
  }
  add-IsTidy (log message) a h = record {
    status_codes = h.status_codes;
    errors = h.errors;
    checks = h.checks;
    rates = h.rates;
    words = h.words;
  }
  add-IsTidy (histogram name value tags) a h = record {
    status_codes = h.status_codes;
    errors = h.errors;
    checks = h.checks;
    rates = h.rates;
    words = h.words;
  }
  add-IsTidy (counter name value tags) a h = record {
    status_codes = h.status_codes;
    errors = h.errors;
    checks = h.checks;
    rates = h.rates;
    words = h.words;
  }
  add-IsTidy (gauge name value tags) a h = record {
    status_codes = h.status_codes;
    errors = h.errors;
    checks = h.checks;
    rates = h.rates;
    words = h.words;
  }
