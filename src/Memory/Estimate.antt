-- ===== src/Memory/Estimate.antt =====
-- What the preflight check says, against the memory that it says is needed.
use fusillade.Prelude.{ℕ, ◌+◌, ◌*◌, ◌≤◌, ◌<◌, ◌≡◌, ◌↔◌, true, arith, u64_mod}
use fusillade.Memory.{
  MemoryInfo, preflight_check, estimate_max_workers, estimate_memory_for_workers,
  base_overhead_bytes, per_worker_bytes,
}

-- For at least one worker, and a number of bytes that a `u64` holds, the check is passed exactly
-- when the memory that is estimated for the workers is available.
preflight_check-safe_iff :
    (info : MemoryInfo) (workers : ℕ)
    → 0 < workers
    → base_overhead_bytes + workers * per_worker_bytes < u64_mod
    → ((preflight_check info workers).safe ≡ true)
      ↔ ((preflight_check info workers).estimated_needed ≤ info.available_bytes)
unfolding preflight_check estimate_max_workers estimate_memory_for_workers
preflight_check-safe_iff info workers h k = ground arith
