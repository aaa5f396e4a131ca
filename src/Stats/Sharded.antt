-- ===== src/Stats/Sharded.antt =====
-- `ShardedAggregator` of src/stats/mod.rs. The lock of a shard makes each `add` one step, so a run
-- is the sequence of the additions. `none` stands for a panic.
pub mod Sums
pub mod Views
pub mod Totals
pub mod Steps
pub mod Counts
pub mod Refines
use fusillade.Prelude.{
  ℕ, zero, suc, ◌+◌, ◌-◌, ◌%◌, Bool, true, false, List, [], ◌∷◌, ◌++◌, Option, none, some, Text,
  ltb, ◌==◌, if◌then◌else◌, length, drop, get_elem?, update, insert, nat_key, text_key, Key,
  add_u64,
}
use fusillade.Float.{Float}
use fusillade.Stats.Add.{add, raise, Agg}
use fusillade.Stats.Types.{
  Metric, HistogramLib, RequestStats, StatsAggregator, new_stats, new_aggregator,
}

pub record ShardedAggregator (F H : Type 0) : Type 0 where
  pub shards : List (StatsAggregator F H)
  pub num_shards : ℕ

-- `<` of `Option`: `None` is the least.
abbrev pub option_lt : Option ℕ → Option ℕ → Bool
option_lt _ none = false
option_lt none (some b) = true
option_lt (some a) (some b) = ltb a b

-- The minimum of a run: `if let Some(m) = shard { if merged.is_none() || Some(m) < merged {…} }`.
abbrev pub merge_min : Option ℕ → Option ℕ → Option ℕ
merge_min merged none = merged
merge_min none (some m) = some m
merge_min (some n) (some m) = if ltb m n then some m else some n

-- The minimum of an endpoint: `if merged.is_none() || stats < merged { merged = stats }`.
abbrev pub merge_stats_min : Option ℕ → Option ℕ → Option ℕ
merge_stats_min none stats = stats
merge_stats_min (some n) stats = if option_lt stats (some n) then stats else some n

-- `for (k, w) in shard { let v = merged.entry(k).or_insert(d); v = f(v, w) }`
unfoldable pub merge_map :
    {K V : Type 0} ⦃k : Key K⦄ → (V → V → V) → V → List (K × V) → List (K × V) → List (K × V)
merge_map f d [] m = m
merge_map f d ((j, w) ∷ s) m = merge_map f d s (update j d (λ v. f v w) m)

-- `for (k, w) in shard { merged.insert(k, w) }`
unfoldable pub insert_all : {V : Type 0} → List (Text × V) → List (Text × V) → List (Text × V)
insert_all [] m = m
insert_all ((j, w) ∷ s) m = insert_all s (insert j w m)

abbrev pub add_pair : ℕ × ℕ → ℕ × ℕ → ℕ × ℕ
add_pair (a, b) (c, d) = (add_u64 a c, add_u64 b d)

-- `while merged.logs.len() > 100 { pop_front }`, with one round for each log at most.
unfoldable pub trim_rounds : ℕ → List Text → List Text
trim_rounds zero logs = logs
trim_rounds (suc n) logs =
    let rest = trim_rounds n (drop 1 logs) in if ltb 100 (length logs) then rest else logs

unfoldable pub trim_logs : List Text → List Text
unfolding trim_rounds
trim_logs logs = trim_rounds (length logs) logs

-- `self.shards[i] = f(self.shards[i])`
unfoldable pub modify {ℓ} : {A : Type ℓ} → (A → A) → ℕ → List A → Option (List A)
modify f i [] = none
modify f zero (x ∷ xs) = some (f x ∷ xs)
modify f (suc i) (x ∷ xs) = elim (modify f i xs) [ none ↦ none | some ys ↦ some (x ∷ ys) ]

unfoldable pub copies {ℓ} : {A : Type ℓ} → ℕ → A → List A
copies zero a = []
copies (suc n) a = a ∷ copies n a

module _ (fl : Float) (hl : HistogramLib) where
  abbrev pub Sharded : Type 0
  Sharded = ShardedAggregator fl.F hl.H

  unfoldable pub new : ℕ → Sharded
  new n = record { shards = copies n (new_aggregator fl.F hl); num_shards = n }

  unfoldable pub new_no_endpoint_tracking : ℕ → Sharded
  new_no_endpoint_tracking n = record {
    shards = copies n (record (new_aggregator fl.F hl) { no_endpoint_tracking = true });
    num_shards = n;
  }

  -- `worker_id % 0` panics, and so does an index out of range.
  unfoldable pub add_to_shard : ℕ → Metric fl.F → Sharded → Option Sharded
  add_to_shard worker_id m s =
      if s.num_shards == 0
      then none
      else elim (modify (add fl hl m) (worker_id % s.num_shards) s.shards) [
        | none ↦ none
        | some shards' ↦ some (record s { shards = shards' })
      ]

  unfoldable pub merge_stats : RequestStats hl.H → RequestStats hl.H → RequestStats hl.H
  merge_stats m s = record {
    total_requests = add_u64 m.total_requests s.total_requests;
    total_duration = m.total_duration + s.total_duration;
    min_duration = merge_stats_min m.min_duration s.min_duration;
    max_duration = raise m.max_duration s.max_duration;
    latencies = hl.merge m.latencies s.latencies;
    error_count = add_u64 m.error_count s.error_count;
    total_blocked = m.total_blocked + s.total_blocked;
    total_connecting = m.total_connecting + s.total_connecting;
    total_tls_handshaking = m.total_tls_handshaking + s.total_tls_handshaking;
    total_sending = m.total_sending + s.total_sending;
    total_waiting = m.total_waiting + s.total_waiting;
    total_receiving = m.total_receiving + s.total_receiving;
    total_response_size = add_u64 m.total_response_size s.total_response_size;
    total_request_size = add_u64 m.total_request_size s.total_request_size;
  }

  -- the body of the loop of `merge`
  unfoldable pub merge_shard : Agg fl hl → Agg fl hl → Agg fl hl
  merge_shard m s = record m {
    total_requests = add_u64 m.total_requests s.total_requests;
    total_duration = m.total_duration + s.total_duration;
    total_data_sent = add_u64 m.total_data_sent s.total_data_sent;
    total_data_received = add_u64 m.total_data_received s.total_data_received;
    failed_iterations = add_u64 m.failed_iterations s.failed_iterations;
    min_duration = merge_min m.min_duration s.min_duration;
    max_duration = raise m.max_duration s.max_duration;
    status_codes = merge_map add_u64 0 s.status_codes m.status_codes;
    errors = merge_map add_u64 0 s.errors m.errors;
    checks = merge_map add_pair (0, 0) s.checks m.checks;
    latencies = hl.merge m.latencies s.latencies;
    requests = merge_map merge_stats (new_stats hl) s.requests m.requests;
    histograms = merge_map hl.merge hl.new s.histograms m.histograms;
    histogram_sums = merge_map fl.add (fl.of_nat 0) s.histogram_sums m.histogram_sums;
    rates = merge_map add_pair (0, 0) s.rates m.rates;
    counters = merge_map fl.add (fl.of_nat 0) s.counters m.counters;
    gauges = insert_all s.gauges m.gauges;
    pool_hits = add_u64 m.pool_hits s.pool_hits;
    pool_misses = add_u64 m.pool_misses s.pool_misses;
    logs = m.logs ++ s.logs;
  }

  unfoldable pub merge_from : Agg fl hl → List (Agg fl hl) → Agg fl hl
  merge_from m [] = m
  merge_from m (s ∷ ss) = merge_from (merge_shard m s) ss

  unfoldable pub merge : Sharded → Agg fl hl
  unfolding merge_from
  merge s =
      let merged = merge_from (new_aggregator fl.F hl) s.shards in
      record merged { logs = trim_logs merged.logs }

  -- A run: each metric with the worker that it is added for.
  unfoldable pub add_run : List (ℕ × Metric fl.F) → Sharded → Option Sharded
  add_run [] s = some s
  add_run ((w, m) ∷ ms) s = elim (add_to_shard w m s) [ none ↦ none | some s' ↦ add_run ms s' ]
