-- ===== src/Tests/Runs.antt =====
-- The theorems on the loop of a test and on the executors at concrete inputs.
use fusillade.Prelude.{
  Text, codes, ℕ, ◌+◌, ◌*◌, true, false, not, ◌&&◌, ◌||◌, All, ◌≡◌, ◌≤◌, refl, List, [], ◌∷◌,
  Option, none, some, arith, ltb, leb, length, map, lookup, text_key, if◌then◌else◌, inl, inr,
}
use fusillade.Tests.{float, histogram_lib, fresh}
use fusillade.Scripts.{
  Call, check_call, rate_add, assertion, unreadable, truthy, string, boolean, run_calls,
}
use fusillade.Scripts.Tallies.{checked, rated, run_calls-tallies}
use fusillade.Engine.Ramping.{Round, vus, run_ramping}
use fusillade.Engine.Ramping.Follows.{rounds_run, run_ramping-follows}
use fusillade.Stats.Types.{new_aggregator}
use fusillade.Stats.Add.Checks.{tally}
use fusillade.Stats.Add.{add_all}
use fusillade.Engine.Iterations.{Turn, worker_loop}
use fusillade.Engine.Iterations.Failures.{failures, within, until_halted, worker_loop-failures}
use fusillade.Control.{ControlCommand, Control, ramp, new}
use fusillade.Schedule.{Schedule, calculate_target}
use fusillade.Memory.{warn_threshold_percent}
use fusillade.Engine.{Engine, Tick, scale, main_loop, run_test}
use fusillade.Engine.Workers.{count, run_test-halted, scale-length, workers_after}
use fusillade.Engine.Ends.{main_loop-ends}
use fusillade.Engine.Shared as Shared
use fusillade.Engine.Shared.Bounds.{steps-run}
use fusillade.Engine.Arrival.{
  Event, dispatch, take, complete, close, steps, idle, IsBalanced, IsBelow, steps-IsBalanced,
}

abbrev control : Control
control = record { state = new 2; dynamic_target = none }

-- two workers for ten seconds
abbrev schedule : Schedule
schedule = (0, 2) ∷ (10_000_000_000, 2) ∷ []

abbrev tick : ℕ → List (ℕ × ControlCommand) → Tick ℕ
tick seconds commands = record {
  elapsed = seconds * 1_000_000_000;
  now = seconds * 1000;
  commands = commands;
  scale_elapsed = seconds * 1_000_000_000;
  scale_now = seconds * 1000;
  usage = 0;
  warning = false;
  critical = false;
}

abbrev ticks : List (Tick ℕ)
ticks = tick 0 [] ∷ tick 3 ((3000, ramp 5) ∷ []) ∷ tick 6 ((6000, ramp 1) ∷ []) ∷ tick 10 [] ∷ []

run_test-halted_example :
    let e = run_test float schedule 10_000_000_000 ticks control in
    (e.pool.active ≡ [])
    × (count 4 e.pool.halted ≡ (if leb 1 4 && ltb 4 e.pool.next_worker_id then 1 else 0))
run_test-halted_example = run_test-halted float schedule 10_000_000_000 ticks control 4

abbrev engine : Engine
engine = record {
  pool = record { active = 2 ∷ 1 ∷ []; halted = []; next_worker_id = 3 };
  control = record control { dynamic_target = some 1 };
  memory_throttle = true;
  memory_critical = true;
}

scale-length_example :
    let short = ltb 2 1 && true && not (float.lt 0 (warn_threshold_percent float)) in
    (short ≡ true → scale float 1 0 engine ≡ engine)
    × (short ≡ false → length (scale float 1 0 engine).pool.active ≡ workers_after (some 1) 7 2)
scale-length_example = scale-length float 7 0 engine

main_loop-ends_example :
    (main_loop float schedule 10_000_000_000 ticks (record engine { control = control })).1 ≡ true
unfolding new
main_loop-ends_example =
    main_loop-ends float schedule 10_000_000_000 ticks (record engine { control = control })
      (record { running = refl; total = refl; started = refl })
      (tt, ((refl, tt), ((refl, tt), (tt, tt)))) (inr (inr (inr (inl (omega arith)))))

-- two workers share three iterations
abbrev turns_taken : List Shared.Event
turns_taken =
    Shared.look 1
    ∷ Shared.look 2
    ∷ Shared.finish 1
    ∷ Shared.look 1
    ∷ Shared.finish 2
    ∷ Shared.watch false
    ∷ Shared.look 2
    ∷ Shared.finish 1
    ∷ Shared.look 1
    ∷ []

steps-run_example :
    let s = Shared.steps 2 turns_taken (Shared.start (1 ∷ 2 ∷ [])) in
    (s.run ≤ 2 + 2)
    × (All Shared.IsCalm turns_taken → s.waiting ≡ [] → s.calling ≡ [] → 2 ≤ s.run)
    × (s.cleared || s.stopped ≡ true
        → (Shared.steps 2 turns_taken s).run ≤ s.run + length s.calling)
steps-run_example = steps-run 2 (1 ∷ 2 ∷ []) turns_taken turns_taken (omega arith) (omega arith)

abbrev arrivals : List Event
arrivals = dispatch ∷ dispatch ∷ take ∷ dispatch ∷ dispatch ∷ complete ∷ close ∷ []

steps-IsBalanced_example :
    IsBalanced 1 (steps 1 (some 4) arrivals idle)
    × IsBelow (some 4) (steps 1 (some 4) arrivals idle)
steps-IsBalanced_example = steps-IsBalanced 1 (some 4) arrivals

abbrev turn : Option Text → Turn
turn error = record { halted = false; elapsed = 9; slept = 4; error = error; tags = [] }

abbrev turns : List Turn
turns = turn none ∷ turn (some (codes "boom")) ∷ turn (some (codes "boom")) ∷ []

worker_loop-failures_example :
    let b =
      add_all float histogram_lib (worker_loop (some (codes "login")) (some 2) turns 0) fresh in
    (b.failed_iterations
      ≡ fresh.failed_iterations + failures (within (some 2) (until_halted turns)))
    × (b.total_requests ≡ fresh.total_requests)
worker_loop-failures_example =
    worker_loop-failures float histogram_lib (some (codes "login")) (some 2) turns fresh
      (omega arith)

-- two calls of `check`, the first cut short, and a rate
abbrev calls : List (Call ℕ)
calls =
    check_call (
      assertion (codes "ok") truthy
      ∷ assertion (codes "ok") (string (some (codes "no")))
      ∷ unreadable
      ∷ assertion (codes "ok") truthy
      ∷ [])
    ∷ rate_add (codes "ok") true none
    ∷ check_call (assertion (codes "ok") (boolean true) ∷ [])
    ∷ []

run_calls-tallies_example :
    let a = add_all float histogram_lib (run_calls calls) (new_aggregator ℕ histogram_lib) in
    (lookup (codes "ok") a.checks
      ≡ tally (checked (codes "ok") calls).0 (checked (codes "ok") calls).1)
    × (lookup (codes "ok") a.rates
        ≡ tally (rated (codes "ok") calls).0 (rated (codes "ok") calls).1)
unfolding run_calls
run_calls-tallies_example = run_calls-tallies float histogram_lib (codes "ok") calls (omega arith)

abbrev rounds : List Round
rounds =
    record { elapsed = 0; stopped = false; scale_elapsed = 0 }
    ∷ record { elapsed = 2_000_000_000; stopped = false; scale_elapsed = 2_000_000_000 }
    ∷ record { elapsed = 11_000_000_000; stopped = false; scale_elapsed = 11_000_000_000 }
    ∷ []

run_ramping-follows_example :
    let (p, sent) = run_ramping float (codes "peak") schedule 10_000_000_000 rounds in
    (sent
      ≡ map
          (λ r. vus float (codes "peak") (calculate_target float schedule r.scale_elapsed))
          (rounds_run 10_000_000_000 rounds))
    × (p.active ≡ [])
    × (count 1 p.halted ≡ (if leb 1 1 && ltb 1 p.next_worker_id then 1 else 0))
run_ramping-follows_example =
    run_ramping-follows float (codes "peak") schedule 10_000_000_000 rounds 1
