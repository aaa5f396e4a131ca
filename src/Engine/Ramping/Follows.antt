-- ===== src/Engine/Ramping/Follows.antt =====
-- The workers of the ramping-workers executor of src/engine/mod.rs follow the schedule.
use fusillade.Prelude.{
  ℕ, ◌-◌, ◌&&◌, List, [], ◌∷◌, map, Text, leb, ltb, if◌then◌else◌, length, ◌≡◌, refl, ◌∙◌, arith,
  if-both,
}
use fusillade.Float.{Float}
use fusillade.Stats.Types.{Metric}
use fusillade.Schedule.{Schedule, calculate_target}
use fusillade.Engine.{Pool, halt_to, halt_all}
use fusillade.Engine.Workers.{
  count, count-append, IsRight, spawn-IsRight, spawn-length, halt_above-count, halt_above-length,
}
use fusillade.Engine.Ramping.{Round, adjust, vus, ramp_loop, run_ramping}

-- The rounds up to the first that the duration or a stop ends.
abbrev pub rounds_run : ℕ → List Round → List Round
rounds_run duration [] = []
rounds_run duration (r ∷ rs) =
    let rest = rounds_run duration rs in
    if ltb r.elapsed duration then if r.stopped then [] else r ∷ rest else []

adjust-IsRight : (target : ℕ) (p : Pool) → IsRight p → IsRight (adjust target p)
unfolding adjust halt_to
adjust-IsRight target p h =
    if-both IsRight (ltb (length p.active) target) _ _
      (spawn-IsRight (target - length p.active) p h)
      (if-both IsRight (ltb target (length p.active)) _ _
        (h.0, λ q. halt_above-count q target p.active p.halted ∙ h.1 q) h)

adjust-length : (target : ℕ) (p : Pool) → length (adjust target p).active ≡ target
unfolding adjust halt_to
adjust-length target p =
    ground
      (arith, spawn-length (target - length p.active) p, halt_above-length target p.active p.halted)

module _ (fl : Float) (scenario : Text) (schedule : Schedule) (duration : ℕ) where
  ramp_loop-IsRight :
      (rs : List Round) (p : Pool)
      → IsRight p
      → IsRight (ramp_loop fl scenario schedule duration rs p).0
  unfolding ramp_loop
  ramp_loop-IsRight [] p h = h
  ramp_loop-IsRight (r ∷ rs) p h =
      let P = λ (x : Pool × List (Metric fl.F)). IsRight x.0 in
      let target = calculate_target fl schedule r.scale_elapsed in
      let later = ramp_loop-IsRight rs (adjust target p) (adjust-IsRight target p h) in
      if-both P (ltb r.elapsed duration) _ _ (if-both P r.stopped _ _ h later) h

  ramp_loop-sent :
      (rs : List Round) (p : Pool)
      → (ramp_loop fl scenario schedule duration rs p).1
        ≡ map
            (λ r. vus fl scenario (calculate_target fl schedule r.scale_elapsed))
            (rounds_run duration rs)
  unfolding ramp_loop
  ramp_loop-sent [] p = refl
  ramp_loop-sent (r ∷ rs) p =
      let target = calculate_target fl schedule r.scale_elapsed in
      ground (arith, adjust-length target p, ramp_loop-sent rs (adjust target p))

  -- Whatever the times of the rounds, each round up to the end of the duration or a stop leaves as many
  -- workers as the schedule says and reports this number; afterwards no worker is active, and each number
  -- that was given to a worker has been halted exactly once.
  pub run_ramping-follows :
      (rs : List Round) (q : ℕ)
      → let (p, sent) = run_ramping fl scenario schedule duration rs in
        (sent
          ≡ map
              (λ r. vus fl scenario (calculate_target fl schedule r.scale_elapsed))
              (rounds_run duration rs))
        × (p.active ≡ [])
        × (count q p.halted ≡ (if leb 1 q && ltb q p.next_worker_id then 1 else 0))
  unfolding run_ramping halt_all
  run_ramping-follows rs q =
      let fresh : Pool = record { active = []; halted = []; next_worker_id = 1 } in
      let right = ramp_loop-IsRight rs fresh (omega arith, λ q. ground arith) in
      let p = (ramp_loop fl scenario schedule duration rs fresh).0 in
      (ramp_loop-sent rs fresh, refl, count-append q p.active p.halted ∙ right.1 q)
