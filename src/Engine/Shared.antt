-- ===== src/Engine/Shared.antt =====
-- The executor shared-iterations of src/engine/mod.rs: the workers of a scenario, which run iterations
-- until the counter that they share says that the pool is used up, their flags are cleared, or the test is
-- stopped.
pub mod Bounds
use fusillade.Prelude.{
  ℕ, ◌+◌, ◌≤◌, ◌<◌, Bool, true, false, ◌||◌, List, [], ◌∷◌, leb, ◌==◌, if◌then◌else◌, length,
  add_u64, u64_mod, All, ◌≡◌, refl, ap, arith, not, ◌&&◌,
}

-- The workers that are at the head of their loop, and those that are in a call of the script; whether the
-- flags `running` have been cleared and the test is stopped; the shared counter, and the calls that ended.
pub record Iterations : Type 0 where
  pub waiting : List ℕ
  pub calling : List ℕ
  pub cleared : Bool
  pub stopped : Bool
  pub counter : ℕ
  pub run : ℕ

-- A worker reads the flags at the head of its loop, or ends its call; the test is stopped; the thread of the
-- scenario looks, and whether the scenario's time is over by then.
pub data Event : Type 0 where
  look : ℕ → Event
  finish : ℕ → Event
  stop : Event
  watch : Bool → Event

unfoldable pub is_in : ℕ → List ℕ → Bool
is_in w [] = false
is_in w (x ∷ xs) = x == w || is_in w xs

unfoldable pub without : ℕ → List ℕ → List ℕ
without w [] = []
without w (x ∷ xs) = if x == w then xs else x ∷ without w xs

-- The head of the loop: the worker leaves, or calls the script.
unfoldable pub start_iteration : ℕ → Iterations → Iterations
unfolding is_in without
start_iteration w s =
    if is_in w s.waiting
    then record s {
      waiting = without w s.waiting;
      calling = if s.cleared || s.stopped then s.calling else w ∷ s.calling;
    }
    else s

-- A worker's call has ended: it claims an iteration from the counter, and leaves if there was none.
unfoldable pub end_iteration : ℕ → ℕ → Iterations → Iterations
unfolding is_in without
end_iteration total w s =
    if is_in w s.calling
    then record s {
      waiting = if leb total s.counter then s.waiting else w ∷ s.waiting;
      calling = without w s.calling;
      counter = add_u64 s.counter 1;
      run = s.run + 1;
    }
    else s

-- The flags are cleared when the time is over, the test is stopped, or the counter says that the pool is
-- used up.
unfoldable pub step : ℕ → Event → Iterations → Iterations
unfolding start_iteration end_iteration
step total (look w) s = start_iteration w s
step total (finish w) s = end_iteration total w s
step total stop s = record s { stopped = true }
step total (watch over) s = record s {
  cleared = s.cleared || (over || (s.stopped || leb total s.counter));
}

-- The events in their order.
unfoldable pub steps : ℕ → List Event → Iterations → Iterations
unfolding step
steps total [] s = s
steps total (e ∷ es) s = steps total es (step total e s)

abbrev pub start : List ℕ → Iterations
start workers = record {
  waiting = workers;
  calling = [];
  cleared = false;
  stopped = false;
  counter = 0;
  run = 0;
}

-- Not a stop, and not the end of the time: nothing but the counter ends the scenario.
abbrev pub IsCalm : Event → Type 0
IsCalm stop = ⊥
IsCalm (watch true) = ⊥
IsCalm _ = Unit
