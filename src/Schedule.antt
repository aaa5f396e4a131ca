-- ===== src/Schedule.antt =====
-- `calculate_target` and `calculate_rate` of src/engine/mod.rs: the number of workers, and the rate,
-- that a schedule asks for after a time. A stage is its duration in nanoseconds and its target.
pub mod Stages
use fusillade.Prelude.{ℕ, ◌+◌, Bool, List, [], ◌∷◌, ltb, if◌then◌else◌}
use fusillade.Float.{Float, as_secs_f64}

abbrev pub Schedule : Type 0
Schedule = List (ℕ × ℕ)

module _ (fl : Float) where
  open fl use {of_nat, add, sub, mul, div, to_nat}

  -- between the targets of two stages, on the way from `start` to `start + duration`
  unfoldable pub interpolate : ℕ → ℕ → ℕ → ℕ → ℕ → ℕ
  interpolate prev target start duration elapsed =
      let progress =
        div (sub (as_secs_f64 fl elapsed) (as_secs_f64 fl start)) (as_secs_f64 fl duration) in
      let diff = sub (of_nat target) (of_nat prev) in to_nat (add (of_nat prev) (mul diff progress))

  -- The loop, with the end of the last stage and its target.
  unfoldable pub target_from : ℕ → ℕ → Schedule → ℕ → ℕ
  unfolding interpolate
  target_from active_time prev [] elapsed = 0
  target_from active_time prev ((duration, target) ∷ stages) elapsed =
      let rest = target_from (active_time + duration) target stages elapsed in
      if ltb elapsed (active_time + duration)
      then interpolate prev target active_time duration elapsed
      else rest

  unfoldable pub calculate_target : Schedule → ℕ → ℕ
  unfolding target_from
  calculate_target schedule elapsed = target_from 0 0 schedule elapsed

  unfoldable pub rate_from : ℕ → ℕ → Schedule → ℕ → ℕ
  unfolding interpolate
  rate_from active_time prev [] elapsed = prev
  rate_from active_time prev ((duration, rate) ∷ stages) elapsed =
      let rest = rate_from (active_time + duration) rate stages elapsed in
      if ltb elapsed (active_time + duration)
      then interpolate prev rate active_time duration elapsed
      else rest

  unfoldable pub calculate_rate : Schedule → ℕ → ℕ
  unfolding rate_from
  calculate_rate schedule elapsed = rate_from 0 0 schedule elapsed
