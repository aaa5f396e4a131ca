-- ===== src/Stats/Add.antt =====
-- `StatsAggregator::add` of src/stats/mod.rs.
pub mod Consistent
pub mod Checks
pub mod Names
use fusillade.Prelude.{
  ℕ, ◌+◌, ◌%◌, max, Bool, true, false, not, ◌&&◌, ◌||◌, List, [], ◌∷◌, ◌++◌, Option, none, some,
  Text, codes, text_eq, ends_with, ltb, if◌then◌else◌, length, drop, update, insert, nat_key,
  text_key, add_u64, u64_mod,
}
use fusillade.Float.{Float, as_micros}
use fusillade.Stats.Types.{
  Tags, RequestTimings, Metric, request, check, log, histogram, rate, counter, gauge, HistogramLib,
  RequestStats, StatsAggregator, new_stats,
}

unfoldable pub is_iteration_total : Text → Bool
is_iteration_total name =
    text_eq name (codes "iteration_total") || ends_with name (codes "::iteration_total")

unfoldable pub is_iteration : Text → Bool
is_iteration name =
    text_eq name (codes "iteration")
    || ends_with name (codes "::iteration")
    || is_iteration_total name

-- `if x.is_none_or(|min| d < min) { x = Some(d) }`
abbrev pub lower : Option ℕ → ℕ → Option ℕ
lower none d = some d
lower (some m) d = if ltb d m then some d else some m

-- `if d > x { x = d }`
abbrev pub raise : ℕ → ℕ → ℕ
raise x d = if ltb x d then d else x

abbrev pub count : ℕ → ℕ
count n = add_u64 n 1

-- The micros that go into a histogram of latencies.
abbrev pub micros : ℕ → ℕ
micros d = max (as_micros d % u64_mod) 1

-- `String::cmp`, which compares bytes: on UTF-8 the order of the code points.
unfoldable pub text_lt : Text → Text → Bool
text_lt _ [] = false
text_lt [] (y ∷ ys) = true
text_lt (x ∷ xs) (y ∷ ys) = if ltb x y then true else if ltb y x then false else text_lt xs ys

-- `sort_by_key(|a| a.0)`: a stable sort.
unfoldable pub insert_tag : Text × Text → Tags → Tags
insert_tag t [] = t ∷ []
insert_tag t (u ∷ us) = if text_lt u.0 t.0 then u ∷ insert_tag t us else t ∷ u ∷ us

unfoldable pub sort_tags : Tags → Tags
sort_tags [] = []
sort_tags (t ∷ ts) = insert_tag t (sort_tags ts)

unfoldable pub join_tags : Bool → Tags → Text
join_tags first [] = []
join_tags first ((k, v) ∷ ts) =
    (if first then [] else b',' ∷ []) ++ (k ++ (b':' ∷ (v ++ join_tags false ts)))

-- The name of the endpoint: `name{k1:v1,k2:v2}` with the tags sorted by key.
unfoldable pub full_name : Text → Tags → Text
unfolding join_tags sort_tags
full_name name [] = name
full_name name (t ∷ ts) = name ++ (b'{' ∷ (join_tags true (sort_tags (t ∷ ts)) ++ (b'}' ∷ [])))

abbrev pub count_error : Option Text → List (Text × ℕ) → List (Text × ℕ)
count_error none errors = errors
count_error (some e) errors = update e 0 count errors

-- The total and the successes, of a check or of a rate.
abbrev pub observe : Bool → ℕ × ℕ → ℕ × ℕ
observe success (total, passes) = (count total, if success then count passes else passes)

abbrev pub is_some : Option Text → Bool
is_some none = false
is_some (some e) = true

-- `push_back`, then `pop_front` if there are more than a hundred.
unfoldable pub push_log : Text → List Text → List Text
push_log message logs =
    let logs' = logs ++ (message ∷ []) in if ltb 100 (length logs') then drop 1 logs' else logs'

module _ (fl : Float) (hl : HistogramLib) where
  abbrev pub Agg : Type 0
  Agg = StatsAggregator fl.F hl.H

  -- the block under `if !is_iteration`
  unfoldable pub add_http : RequestTimings → ℕ → Option Text → Agg → Agg
  add_http t status error a = record a {
    total_requests = count a.total_requests;
    total_duration = a.total_duration + t.duration;
    min_duration = lower a.min_duration t.duration;
    max_duration = raise a.max_duration t.duration;
    latencies = hl.record_value (micros t.duration) a.latencies;
    status_codes = update status 0 count a.status_codes;
    errors = count_error error a.errors;
    total_data_sent = add_u64 a.total_data_sent t.request_size;
    total_data_received = add_u64 a.total_data_received t.response_size;
    pool_hits = if t.pool_reused then count a.pool_hits else a.pool_hits;
    pool_misses = if t.pool_reused then a.pool_misses else count a.pool_misses;
  }

  -- the block under `if is_iteration && !is_iteration_total`
  unfoldable pub add_failure : Option Text → Agg → Agg
  add_failure none a = a
  add_failure (some e) a = record a {
    errors = update e 0 count a.errors;
    failed_iterations = count a.failed_iterations;
  }

  unfoldable pub add_timings : RequestTimings → Option Text → RequestStats hl.H → RequestStats hl.H
  add_timings t error s = record s {
    total_requests = count s.total_requests;
    total_duration = s.total_duration + t.duration;
    min_duration = lower s.min_duration t.duration;
    max_duration = raise s.max_duration t.duration;
    latencies = hl.record_value (micros t.duration) s.latencies;
    error_count = if is_some error then count s.error_count else s.error_count;
    total_blocked = s.total_blocked + t.blocked;
    total_connecting = s.total_connecting + t.connecting;
    total_tls_handshaking = s.total_tls_handshaking + t.tls_handshaking;
    total_sending = s.total_sending + t.sending;
    total_waiting = s.total_waiting + t.waiting;
    total_receiving = s.total_receiving + t.receiving;
    total_response_size = add_u64 s.total_response_size t.response_size;
    total_request_size = add_u64 s.total_request_size t.request_size;
  }

  -- the block under `if !self.no_endpoint_tracking`
  unfoldable pub add_endpoint : Text → RequestTimings → Option Text → Tags → Agg → Agg
  unfolding add_timings
  add_endpoint name t error tags a = if a.no_endpoint_tracking then a else record a {
    requests = update (full_name name tags) (new_stats hl) (add_timings t error) a.requests;
  }

  unfoldable pub add_request : Text → RequestTimings → ℕ → Option Text → Tags → Agg → Agg
  unfolding add_http add_failure add_endpoint
  add_request name t status error tags a =
      let a1 = if is_iteration name then a else add_http t status error a in
      let a2 =
        if is_iteration name && not (is_iteration_total name) then add_failure error a1 else a1 in
      add_endpoint name t error tags a2

  unfoldable pub add : Metric fl.F → Agg → Agg
  unfolding add_request
  add (request name t status error tags) a = add_request name t status error tags a
  add (check name success message) a = record a {
    checks = update name (0, 0) (observe success) a.checks;
  }
  add (log message) a = record a { logs = push_log message a.logs }
  add (histogram name value tags) a = record a {
    histograms =
        update name hl.new (hl.record_value (fl.to_nat (fl.mul value (fl.of_nat 1000))))
          a.histograms;
    histogram_sums = update name (fl.of_nat 0) (λ s. fl.add s value) a.histogram_sums;
  }
  add (counter name value tags) a = record a {
    counters = update name (fl.of_nat 0) (λ c. fl.add c value) a.counters;
  }
  add (gauge name value tags) a = record a { gauges = insert name value a.gauges }
  add (rate name success tags) a = record a { rates = update name (0, 0) (observe success) a.rates }

  -- Metrics added one after the other.
  unfoldable pub add_all : List (Metric fl.F) → Agg → Agg
  add_all [] a = a
  add_all (m ∷ ms) a = add_all ms (add m a)
