-- ===== src/Engine/Ramping.antt =====
-- The ramping-workers executor of a scenario in src/engine/mod.rs, which starts and halts workers by the
-- scenario's schedule, once in a second. A time is in nanoseconds.
pub mod Follows
use fusillade.Prelude.{
  ℕ, ◌+◌, ◌-◌, Bool, true, false, List, [], ◌∷◌, ◌++◌, Text, codes, ltb, if◌then◌else◌, length,
}
use fusillade.Float.{Float}
use fusillade.Stats.Types.{Metric, gauge}
use fusillade.Schedule.{Schedule, calculate_target}
use fusillade.Engine.{Pool, spawn_workers, halt_to, halt_all}

-- One round as it meets it: the time, whether the test was stopped, and the time once more.
pub record Round : Type 0 where
  pub elapsed : ℕ
  pub stopped : Bool
  pub scale_elapsed : ℕ

-- Missing workers are started, or excess ones popped and halted.
unfoldable pub adjust : ℕ → Pool → Pool
unfolding spawn_workers halt_to
adjust target p =
    if ltb (length p.active) target
    then spawn_workers (target - length p.active) p
    else if ltb target (length p.active)
    then halt_to target p
    else p

abbrev pub vus : (fl : Float) → Text → ℕ → Metric fl.F
vus fl scenario workers = gauge (scenario ++ codes "::vus") (fl.of_nat workers) []

module _ (fl : Float) (scenario : Text) (schedule : Schedule) (duration : ℕ) where
  -- The rounds that there is time for; the workers then, and what was sent.
  unfoldable pub ramp_loop : List Round → Pool → Pool × List (Metric fl.F)
  unfolding adjust calculate_target
  ramp_loop [] p = (p, [])
  ramp_loop (r ∷ rs) p =
      let adjusted = adjust (calculate_target fl schedule r.scale_elapsed) p in
      let (last, sent) = ramp_loop rs adjusted in
      if ltb r.elapsed duration
      then if r.stopped then (p, []) else (last, vus fl scenario (length adjusted.active) ∷ sent)
      else (p, [])

  -- The loop, and the flags cleared behind it.
  unfoldable pub run_ramping : List Round → Pool × List (Metric fl.F)
  unfolding ramp_loop halt_all
  run_ramping rs =
      let (p, sent) = ramp_loop rs (record { active = []; halted = []; next_worker_id = 1 }) in
      (halt_all p, sent)
