-- ===== src/Engine/Shared/Bounds.antt =====
-- How many iterations the shared-iterations executor of src/engine/mod.rs runs.
use fusillade.Prelude.{
  ℕ, ◌+◌, ◌≤◌, ◌<◌, true, false, ◌||◌, List, [], ◌∷◌, length, u64_mod, All, ◌≡◌, refl, ap, arith,
}
use fusillade.Engine.Shared.{
  Iterations, Event, look, finish, stop, watch, is_in, without, start_iteration, end_iteration,
  step, steps, start, IsCalm,
}

without-length : (w : ℕ) (xs : List ℕ) → is_in w xs ≡ true → length (without w xs) + 1 ≡ length xs
unfolding without is_in
without-length w [] h = cc
without-length w (x ∷ xs) h = ground (arith, without-length w xs)

-- Once the pool is used up each call that ends is a worker's last.
record IsCounted (total workers : ℕ) (s : Iterations) : Type 0 where
  run : s.run ≡ s.counter
  before : length s.waiting + length s.calling ≤ workers
  after : total ≤ s.counter → s.counter + (length s.waiting + length s.calling) ≤ total + workers
  least : s.counter ≤ total + workers

step-IsCounted :
    (total workers : ℕ) (e : Event) (s : Iterations)
    → total + workers < u64_mod
    → IsCounted total workers s
    → IsCounted total workers (step total e s)
unfolding step start_iteration end_iteration
step-IsCounted total workers (look w) s small c = ground (arith, without-length w s.waiting)
step-IsCounted total workers (finish w) s small c = ground (arith, without-length w s.calling)
step-IsCounted total workers stop s small c = ground arith
step-IsCounted total workers (watch over) s small c = ground arith

steps-IsCounted :
    (total workers : ℕ) (es : List Event) (s : Iterations)
    → total + workers < u64_mod
    → IsCounted total workers s
    → IsCounted total workers (steps total es s)
unfolding steps
steps-IsCounted total workers [] s small c = c
steps-IsCounted total workers (e ∷ es) s small c =
    steps-IsCounted total workers es (step total e s) small
      (step-IsCounted total workers e s small c)

-- As long as the pool is not used up, no worker has left.
record IsBusy (total workers : ℕ) (s : Iterations) : Type 0 where
  flags : s.counter < total → s.cleared || s.stopped ≡ false
  all : s.counter < total → length s.waiting + length s.calling ≡ workers

step-IsBusy :
    (total workers : ℕ) (e : Event) (s : Iterations)
    → s.counter + 1 < u64_mod
    → IsCalm e
    → IsBusy total workers s
    → IsBusy total workers (step total e s)
unfolding step start_iteration end_iteration
step-IsBusy total workers (look w) s small calm b = record {
  flags = λ h. ground (arith, b.flags, h);
  all = λ h. ground (arith, b.flags, b.all, h, without-length w s.waiting);
}
step-IsBusy total workers (finish w) s small calm b = record {
  flags = λ h. ground (arith, b.flags, h);
  all = λ h. ground (arith, b.flags, b.all, h, without-length w s.calling);
}
step-IsBusy total workers stop s small calm b = elim calm [ ]
step-IsBusy total workers (watch true) s small calm b = elim calm [ ]
step-IsBusy total workers (watch false) s small calm b = record {
  flags = λ h. ground (arith, b.flags, h);
  all = b.all;
}

steps-IsBusy :
    (total workers : ℕ) (es : List Event) (s : Iterations)
    → total + workers + 1 < u64_mod
    → All IsCalm es
    → IsCounted total workers s
    → IsBusy total workers s
    → IsBusy total workers (steps total es s)
unfolding steps
steps-IsBusy total workers [] s small calm c b = b
steps-IsBusy total workers (e ∷ es) s small calm c b =
    steps-IsBusy total workers es (step total e s) small calm.1
      (step-IsCounted total workers e s (omega (arith, small)) c)
      (step-IsBusy total workers e s (omega (arith, small, c.least)) calm.0 b)

step-halted :
    (total : ℕ) (e : Event) (s : Iterations)
    → s.cleared || s.stopped ≡ true
    → ((step total e s).cleared || (step total e s).stopped ≡ true)
      × ((step total e s).run + length (step total e s).calling ≤ s.run + length s.calling)
unfolding step start_iteration end_iteration
step-halted total (look w) s h = ground (arith, h)
step-halted total (finish w) s h = ground (arith, h, without-length w s.calling)
step-halted total stop s h = ground (arith, h)
step-halted total (watch over) s h = ground (arith, h)

steps-halted :
    (total : ℕ) (es : List Event) (s : Iterations)
    → s.cleared || s.stopped ≡ true
    → (steps total es s).run + length (steps total es s).calling ≤ s.run + length s.calling
unfolding steps
steps-halted total [] s h = omega arith
steps-halted total (e ∷ es) s h =
    let (still, less) = step-halted total e s h in
    omega (arith, less, steps-halted total es (step total e s) still)

-- However the workers take turns, they run at most one iteration each beyond the number that they share.
-- If neither a stop nor the end of the time ends the scenario, they have run that number when all have left.
-- Once the flags are cleared or the test is stopped, only the calls that are under way are still run.
pub steps-run :
    (total : ℕ) (workers : List ℕ) (es fs : List Event)
    → total + length workers + 1 < u64_mod
    → 0 < length workers
    → let s = steps total es (start workers) in
      (s.run ≤ total + length workers)
      × (All IsCalm es → s.waiting ≡ [] → s.calling ≡ [] → total ≤ s.run)
      × (s.cleared || s.stopped ≡ true → (steps total fs s).run ≤ s.run + length s.calling)
steps-run total workers es fs small some_worker =
    let c0 : IsCounted total (length workers) (start workers) = record {
      run = refl;
      before = omega arith;
      after = λ h. omega arith;
      least = omega arith;
    } in
    let b0 : IsBusy total (length workers) (start workers) = record {
      flags = λ h. refl;
      all = λ h. omega arith;
    } in
    let s = steps total es (start workers) in
    let c = steps-IsCounted total (length workers) es (start workers) (omega (arith, small)) c0 in
    (
      omega (arith, c.run, c.least),
      λ calm none_waits none_calls.
          let b = steps-IsBusy total (length workers) es (start workers) small calm c0 b0 in
          ground (arith, c.run, b.all, ap length none_waits, ap length none_calls, some_worker),
      λ h. omega (arith, steps-halted total fs s h),
    )
