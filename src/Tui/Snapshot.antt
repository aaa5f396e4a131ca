-- ===== src/Tui/Snapshot.antt =====
-- What the dashboard of src/tui/mod.rs shows: `App::refresh_snapshot`, of the merged shards.
pub mod Rows
use fusillade.Prelude.{
  ℕ, Bool, true, false, not, ◌||◌, List, [], ◌∷◌, Option, some, Text, codes, leb, ltb,
  if◌then◌else◌, text_eq, add_u64,
}
use fusillade.Float.{Float, as_secs_f64}
use fusillade.Stats.Types.{HistogramLib}
use fusillade.Stats.Report.{RequestReport, ReportStats, to_report}
use fusillade.Stats.Sharded.{Sharded, merge}

pub record EndpointRow (F : Type 0) : Type 0 where
  pub name : Text
  pub reqs : ℕ
  pub avg_ms : F
  pub p95_ms : F
  pub errors : ℕ

pub record TuiSnapshot (F : Type 0) : Type 0 where
  pub total_requests : ℕ
  pub rps : F
  pub error_count : ℕ
  pub error_pct : F
  pub avg_ms : F
  pub min_ms : F
  pub max_ms : F
  pub p50_ms : F
  pub p90_ms : F
  pub p95_ms : F
  pub p99_ms : F
  pub data_sent_bytes : ℕ
  pub data_recv_bytes : ℕ
  pub status_codes : List (ℕ × ℕ)
  pub endpoints : List (EndpointRow F)

-- A stable sort: `before x y` says that x may stand before y.
unfoldable pub insert_by : {A : Type 0} → (A → A → Bool) → A → List A → List A
insert_by before x [] = x ∷ []
insert_by before x (y ∷ ys) =
    let rest = insert_by before x ys in if before x y then x ∷ y ∷ ys else y ∷ rest

unfoldable pub sort_by : {A : Type 0} → (A → A → Bool) → List A → List A
unfolding insert_by
sort_by before [] = []
sort_by before (x ∷ xs) = insert_by before x (sort_by before xs)

-- `sort_by_key(|(code, _)| *code)`
abbrev pub code_before : ℕ × ℕ → ℕ × ℕ → Bool
code_before a b = leb a.0 b.0

-- `sort_by_key(|b| Reverse(b.reqs))`
abbrev pub row_before : {F : Type 0} → EndpointRow F → EndpointRow F → Bool
row_before a b = leb b.reqs a.reqs

abbrev pub is_hidden : Text → Bool
is_hidden name = text_eq name (codes "iteration") || text_eq name (codes "iteration_total")

abbrev pub row_of : {F : Type 0} → Text → RequestReport F → EndpointRow F
row_of name r = record {
  name = name;
  reqs = r.total_requests;
  avg_ms = r.avg_latency_ms;
  p95_ms = r.p95_latency_ms;
  errors = r.error_count;
}

unfoldable pub rows_of : {F : Type 0} → List (Text × RequestReport F) → List (EndpointRow F)
rows_of [] = []
rows_of ((name, r) ∷ m) =
    let rest = rows_of m in if is_hidden name then rest else row_of name r ∷ rest

-- `errors.values().sum()`
unfoldable pub error_total : List (Text × ℕ) → ℕ
error_total [] = 0
error_total ((e, n) ∷ m) = add_u64 n (error_total m)

module _ (fl : Float) where
  open fl use {F, of_nat, mul, div, lt}

  -- `max(0.001)`
  abbrev at_least_a_milli : F → F
  at_least_a_milli x = let milli = div (of_nat 1) (of_nat 1000) in if lt x milli then milli else x

  unfoldable pub snapshot_of : ℕ → ReportStats F → TuiSnapshot F
  unfolding sort_by rows_of error_total
  snapshot_of elapsed report =
      let error_count = error_total report.errors in
      record {
        total_requests = report.total_requests;
        rps = div (of_nat report.total_requests) (at_least_a_milli (as_secs_f64 fl elapsed));
        error_count = error_count;
        error_pct =
            if ltb 0 report.total_requests
            then mul (div (of_nat error_count) (of_nat report.total_requests)) (of_nat 100)
            else of_nat 0;
        avg_ms = report.avg_latency_ms;
        min_ms = of_nat report.min_latency_ms;
        max_ms = of_nat report.max_latency_ms;
        p50_ms = report.p50_latency_ms;
        p90_ms = report.p90_latency_ms;
        p95_ms = report.p95_latency_ms;
        p99_ms = report.p99_latency_ms;
        data_sent_bytes = report.total_data_sent;
        data_recv_bytes = report.total_data_received;
        status_codes = sort_by code_before report.status_codes;
        endpoints = sort_by row_before (rows_of report.grouped_requests);
      }

  -- `elapsed` is the time since the start.
  unfoldable pub refresh_snapshot : (hl : HistogramLib) → ℕ → Sharded fl hl → TuiSnapshot F
  unfolding snapshot_of to_report merge
  refresh_snapshot hl elapsed aggregator =
      snapshot_of elapsed (to_report fl hl (merge fl hl aggregator))
