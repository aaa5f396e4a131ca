-- ===== src/Memory.antt =====
-- src/engine/memory.rs: the estimates of the memory that workers need, and the monitor. What the
-- system says of its memory is an argument.
pub mod Estimate
pub mod Monitor
use fusillade.Prelude.{
  ℕ, ◌+◌, ◌-◌, ◌*◌, ◌/◌, ◌%◌, Bool, true, false, not, ◌&&◌, List, [], ◌∷◌, Text, codes, ◌++◌, leb,
  ◌==◌, if◌then◌else◌, u64_mod, show_ℕ,
}
use fusillade.Float.{Float}

abbrev pub per_worker_bytes : ℕ
per_worker_bytes = 12 * 1024

abbrev pub base_overhead_bytes : ℕ
base_overhead_bytes = 30 * 1024 * 1024

pub record MemoryInfo : Type 0 where
  pub available_bytes : ℕ
  pub total_bytes : ℕ
  pub current_rss : ℕ

pub record PreflightResult : Type 0 where
  pub safe : Bool
  pub estimated_max : ℕ
  pub requested : ℕ
  pub available_bytes : ℕ
  pub estimated_needed : ℕ

unfoldable pub estimate_max_workers : ℕ → ℕ
estimate_max_workers available =
    if leb available base_overhead_bytes
    then 0
    else (available - base_overhead_bytes) / per_worker_bytes

-- The sum and the product wrap in a release build.
unfoldable pub estimate_memory_for_workers : ℕ → ℕ
estimate_memory_for_workers workers =
    (base_overhead_bytes + workers * per_worker_bytes % u64_mod) % u64_mod

-- `info` is what `MemoryInfo::current()` returns.
unfoldable pub preflight_check : MemoryInfo → ℕ → PreflightResult
unfolding estimate_max_workers estimate_memory_for_workers
preflight_check info requested_workers =
    let estimated_max = estimate_max_workers info.available_bytes in
    let estimated_needed = estimate_memory_for_workers requested_workers in
    record {
      safe = leb requested_workers estimated_max;
      estimated_max = estimated_max;
      requested = requested_workers;
      available_bytes = info.available_bytes;
      estimated_needed = estimated_needed;
    }

-- The calls of `on_warning` and `on_critical`.
pub data Callback : Type 0 where
  on_warning : MemoryInfo → Callback
  on_critical : MemoryInfo → Callback

module _ (fl : Float) where
  open fl use {F, of_nat, div, le, lt, fixed}

  unfoldable pub usage_percent : MemoryInfo → F
  usage_percent info =
      if info.total_bytes == 0
      then of_nat 0
      else div (of_nat (info.total_bytes - info.available_bytes)) (of_nat info.total_bytes)

  unfoldable pub format_bytes : ℕ → Text
  format_bytes bytes =
      if leb (1024 * 1024 * 1024) bytes
      then fixed 1 (div (of_nat bytes) (of_nat (1024 * 1024 * 1024))) ++ codes " GB"
      else if leb (1024 * 1024) bytes
      then fixed 1 (div (of_nat bytes) (of_nat (1024 * 1024))) ++ codes " MB"
      else if leb 1024 bytes
      then fixed 1 (div (of_nat bytes) (of_nat 1024)) ++ codes " KB"
      else show_ℕ bytes ++ codes " B"

  -- The quotients are the doubles nearest to 0.85 and 0.95, as the literals are.
  abbrev pub warn_threshold_percent : F
  warn_threshold_percent = div (of_nat 85) (of_nat 100)

  abbrev pub critical_threshold_percent : F
  critical_threshold_percent = div (of_nat 95) (of_nat 100)

  -- One round of the loop of the monitor, behind the sleep: the flag `warned` and the calls.
  unfoldable pub round : Bool → MemoryInfo → Bool × List Callback
  round warned info =
      let usage = usage_percent info in
      if le critical_threshold_percent usage
      then (warned, on_critical info ∷ [])
      else if le warn_threshold_percent usage && not warned
      then (true, on_warning info ∷ [])
      else if lt usage warn_threshold_percent
      then (false, [])
      else (warned, [])

  -- The rounds until the monitor is stopped.
  unfoldable pub monitor : Bool → List MemoryInfo → List Callback
  unfolding round
  monitor warned [] = []
  monitor warned (info ∷ infos) =
      let (warned', calls) = round warned info in calls ++ monitor warned' infos
