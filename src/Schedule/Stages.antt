-- ===== src/Schedule/Stages.antt =====
-- Which stage of a schedule a time falls in.
use fusillade.Prelude.{ℕ, ◌+◌, ◌≤◌, ◌<◌, ◌≡◌, refl, [], ◌∷◌, ◌++◌, arith}
use fusillade.Float.{Float}
use fusillade.Schedule.{
  Schedule, interpolate, calculate_target, target_from, calculate_rate, rate_from,
}

-- How long the stages take, and the target that the last one ends with.
abbrev pub total : Schedule → ℕ
total [] = 0
total ((d, t) ∷ stages) = d + total stages

abbrev pub final : ℕ → Schedule → ℕ
final prev [] = prev
final prev ((d, t) ∷ stages) = final t stages

module _ (fl : Float) where
  during :
      (start prev : ℕ) (before after : Schedule) (duration target elapsed : ℕ)
      → start + total before ≤ elapsed
      → elapsed < start + total before + duration
      → (target_from fl start prev (before ++ ((duration, target) ∷ after)) elapsed
          ≡ interpolate fl (final prev before) target (start + total before) duration elapsed)
        × (rate_from fl start prev (before ++ ((duration, target) ∷ after)) elapsed
            ≡ interpolate fl (final prev before) target (start + total before) duration elapsed)
  unfolding target_from rate_from
  during start prev [] after duration target elapsed h k = ground arith
  during start prev ((d, t) ∷ before) after duration target elapsed h k =
      ground (
        arith,
        during (start + d) t before after duration target elapsed (omega arith) (omega arith),
      )

  over :
      (start prev : ℕ) (schedule : Schedule) (elapsed : ℕ)
      → start + total schedule ≤ elapsed
      → (target_from fl start prev schedule elapsed ≡ 0)
        × (rate_from fl start prev schedule elapsed ≡ final prev schedule)
  unfolding target_from rate_from
  over start prev [] elapsed h = (refl, refl)
  over start prev ((d, t) ∷ stages) elapsed h =
      ground (arith, over (start + d) t stages elapsed (omega arith))

  -- In the time of a stage, both functions go in a line from the target of the stage before, or 0 for
  -- the first, to that of the stage.
  calculate-during :
      (before after : Schedule) (duration target elapsed : ℕ)
      → total before ≤ elapsed
      → elapsed < total before + duration
      → (calculate_target fl (before ++ ((duration, target) ∷ after)) elapsed
          ≡ interpolate fl (final 0 before) target (total before) duration elapsed)
        × (calculate_rate fl (before ++ ((duration, target) ∷ after)) elapsed
            ≡ interpolate fl (final 0 before) target (total before) duration elapsed)
  unfolding calculate_target calculate_rate
  calculate-during before after duration target elapsed h k =
      ground (arith, during 0 0 before after duration target elapsed (omega arith) (omega arith))

  -- Once all stages are over no worker is asked for, and the rate stays that of the last stage.
  calculate-over :
      (schedule : Schedule) (elapsed : ℕ)
      → total schedule ≤ elapsed
      → (calculate_target fl schedule elapsed ≡ 0)
        × (calculate_rate fl schedule elapsed ≡ final 0 schedule)
  unfolding calculate_target calculate_rate
  calculate-over schedule elapsed h = over 0 0 schedule elapsed (omega arith)
