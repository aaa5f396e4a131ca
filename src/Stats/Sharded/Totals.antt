-- ===== src/Stats/Sharded/Totals.antt =====
-- The counters, durations and extremes of a run as a view.
use fusillade.Prelude.{
  ℕ, ◌+◌, ◌≡◌, refl, ◌∙◌, not, ◌&&◌, List, Option, none, some, Text, arith, if◌then◌else◌, add_u64,
  map,
}
use native.Mathlib.Nat.{add_comm, add_assoc}
use fusillade.Float.{Float}
use fusillade.Stats.Add.{
  add, add_all, add_request, add_http, add_failure, add_endpoint, is_iteration, is_iteration_total,
  is_some, raise, Agg,
}
use fusillade.Stats.Sharded.Views.{View, view-merge-add_run}
use fusillade.Stats.Sharded.{Sharded, new, add_run, merge, merge_shard, merge_min}
use fusillade.Stats.Tidy.{IsTidy}
use fusillade.Stats.Types.{
  Tags, RequestTimings, Metric, request, check, HistogramLib, StatsAggregator, new_aggregator,
}

pub record Totals : Type 0 where
  pub total_requests : ℕ
  pub total_duration : ℕ
  pub min_duration : Option ℕ
  pub max_duration : ℕ
  pub total_data_sent : ℕ
  pub total_data_received : ℕ
  pub pool_hits : ℕ
  pub pool_misses : ℕ
  pub failed_iterations : ℕ

abbrev pub totals : {F H : Type 0} → StatsAggregator F H → Totals
totals a = record {
  total_requests = a.total_requests;
  total_duration = a.total_duration;
  min_duration = a.min_duration;
  max_duration = a.max_duration;
  total_data_sent = a.total_data_sent;
  total_data_received = a.total_data_received;
  pool_hits = a.pool_hits;
  pool_misses = a.pool_misses;
  failed_iterations = a.failed_iterations;
}

abbrev zero_totals : Totals
zero_totals = record {
  total_requests = 0;
  total_duration = 0;
  min_duration = none;
  max_duration = 0;
  total_data_sent = 0;
  total_data_received = 0;
  pool_hits = 0;
  pool_misses = 0;
  failed_iterations = 0;
}

abbrev plus_totals : Totals → Totals → Totals
plus_totals x y = record {
  total_requests = add_u64 x.total_requests y.total_requests;
  total_duration = x.total_duration + y.total_duration;
  min_duration = merge_min x.min_duration y.min_duration;
  max_duration = raise x.max_duration y.max_duration;
  total_data_sent = add_u64 x.total_data_sent y.total_data_sent;
  total_data_received = add_u64 x.total_data_received y.total_data_received;
  pool_hits = add_u64 x.pool_hits y.pool_hits;
  pool_misses = add_u64 x.pool_misses y.pool_misses;
  failed_iterations = add_u64 x.failed_iterations y.failed_iterations;
}

pub add_u64_assoc : (x y z : ℕ) → add_u64 (add_u64 x y) z ≡ add_u64 x (add_u64 y z)
add_u64_assoc x y z = omega arith

pub add_u64_comm : (x y : ℕ) → add_u64 x y ≡ add_u64 y x
add_u64_comm x y = omega arith

merge_min_assoc : (x y z : Option ℕ) → merge_min (merge_min x y) z ≡ merge_min x (merge_min y z)
merge_min_assoc none none none = refl
merge_min_assoc x y z = ground arith

merge_min_comm : (x y : Option ℕ) → merge_min x y ≡ merge_min y x
merge_min_comm none none = refl
merge_min_comm x y = ground arith

raise_assoc : (x y z : ℕ) → raise (raise x y) z ≡ raise x (raise y z)
raise_assoc x y z = ground arith

raise_comm : (x y : ℕ) → raise x y ≡ raise y x
raise_comm x y = ground arith

plus_totals_assoc :
    (x y z : Totals) → plus_totals (plus_totals x y) z ≡ plus_totals x (plus_totals y z)
plus_totals_assoc x y z = λ i. record {
  total_requests = add_u64_assoc x.total_requests y.total_requests z.total_requests i;
  total_duration = add_assoc x.total_duration y.total_duration z.total_duration i;
  min_duration = merge_min_assoc x.min_duration y.min_duration z.min_duration i;
  max_duration = raise_assoc x.max_duration y.max_duration z.max_duration i;
  total_data_sent = add_u64_assoc x.total_data_sent y.total_data_sent z.total_data_sent i;
  total_data_received =
      add_u64_assoc x.total_data_received y.total_data_received z.total_data_received i;
  pool_hits = add_u64_assoc x.pool_hits y.pool_hits z.pool_hits i;
  pool_misses = add_u64_assoc x.pool_misses y.pool_misses z.pool_misses i;
  failed_iterations = add_u64_assoc x.failed_iterations y.failed_iterations z.failed_iterations i;
}

plus_totals_comm : (x y : Totals) → plus_totals x y ≡ plus_totals y x
plus_totals_comm x y = λ i. record {
  total_requests = add_u64_comm x.total_requests y.total_requests i;
  total_duration = add_comm x.total_duration y.total_duration i;
  min_duration = merge_min_comm x.min_duration y.min_duration i;
  max_duration = raise_comm x.max_duration y.max_duration i;
  total_data_sent = add_u64_comm x.total_data_sent y.total_data_sent i;
  total_data_received = add_u64_comm x.total_data_received y.total_data_received i;
  pool_hits = add_u64_comm x.pool_hits y.pool_hits i;
  pool_misses = add_u64_comm x.pool_misses y.pool_misses i;
  failed_iterations = add_u64_comm x.failed_iterations y.failed_iterations i;
}

-- What a metric contributes.
abbrev http_totals : RequestTimings → Totals
http_totals t = record {
  total_requests = 1;
  total_duration = t.duration;
  min_duration = some t.duration;
  max_duration = t.duration;
  total_data_sent = t.request_size;
  total_data_received = t.response_size;
  pool_hits = if t.pool_reused then 1 else 0;
  pool_misses = if t.pool_reused then 0 else 1;
  failed_iterations = 0;
}

abbrev failure_totals : Option Text → Totals
failure_totals error = record zero_totals { failed_iterations = if is_some error then 1 else 0 }

totals_of : {F : Type 0} → Metric F → Totals
totals_of (request name t status error tags) =
    if is_iteration name
    then if is_iteration_total name then zero_totals else failure_totals error
    else http_totals t
totals_of _ = zero_totals

module _ (fl : Float) (hl : HistogramLib) where
  totals-add_endpoint :
      (name : Text) (t : RequestTimings) (error : Option Text) (tags : Tags) (a : Agg fl hl)
      → totals (add_endpoint fl hl name t error tags a) ≡ totals a
  unfolding add_endpoint
  totals-add_endpoint name t error tags a = ground arith

  totals_zero : (a : Agg fl hl) → IsTidy a → totals a ≡ plus_totals (totals a) zero_totals
  totals_zero a h = ground arith

  totals-add_http :
      (t : RequestTimings) (status : ℕ) (error : Option Text) (a : Agg fl hl)
      → IsTidy a
      → totals (add_http fl hl t status error a) ≡ plus_totals (totals a) (http_totals t)
  unfolding add_http
  totals-add_http t status error a h = ground arith

  totals-add_failure :
      (error : Option Text) (a : Agg fl hl)
      → IsTidy a
      → totals (add_failure fl hl error a) ≡ plus_totals (totals a) (failure_totals error)
  unfolding add_failure
  totals-add_failure none a h = totals_zero a h
  totals-add_failure (some e) a h = ground arith

  totals-add_request :
      (name : Text) (t : RequestTimings) (status : ℕ) (error : Option Text) (tags : Tags)
      (a : Agg fl hl)
      → IsTidy a
      → totals (add_request fl hl name t status error tags a)
        ≡ plus_totals (totals a) (totals_of {F = fl.F} (request name t status error tags))
  unfolding add_request totals_of
  totals-add_request name t status error tags a h =
      let a1 : Agg fl hl = if is_iteration name then a else add_http fl hl t status error a in
      totals-add_endpoint name t error tags (
        if is_iteration name && not (is_iteration_total name)
        then add_failure fl hl error a1
        else a1)
      ∙ ground
          (arith, totals-add_http t status error a h, totals-add_failure error a h, totals_zero a h)

  totals-add :
      (m : Metric fl.F) (a : Agg fl hl)
      → IsTidy a
      → totals (add fl hl m a) ≡ plus_totals (totals a) (totals_of m)
  unfolding add totals_of
  totals-add (request name t status error tags) a h =
      totals-add_request name t status error tags a h
  totals-add (check _ _ _) a h = totals_zero a h
  totals-add _ a h = totals_zero a h

  totals_view : View fl hl
  unfolding merge_shard totals_of
  totals_view = record {
    M = Totals;
    plus = plus_totals;
    unit = zero_totals;
    view = totals;
    delta = totals_of;
    assoc = plus_totals_assoc;
    comm = plus_totals_comm;
    idem = refl;
    view_new = refl;
    view_add = totals-add;
    view_merge = λ m s h. refl;
    view_logs = λ a logs. refl;
  }

  -- The counters, the durations and the extremes of the merged shards are those of one aggregator.
  pub totals-merge :
      (n : ℕ) (ms : List (ℕ × Metric fl.F)) {s : Sharded fl hl}
      → add_run fl hl ms (new fl hl n) ≡ some s
      → totals (merge fl hl s) ≡ totals (add_all fl hl (map (λ p. p.1) ms) (new_aggregator fl.F hl))
  unfolding totals_view
  totals-merge n ms e = view-merge-add_run fl hl totals_view n ms e
