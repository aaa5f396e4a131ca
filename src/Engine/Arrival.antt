-- ===== src/Engine/Arrival.antt =====
-- The arrival-rate executors of src/engine/mod.rs: a dispatcher offers iterations to a bounded channel at
-- the rate asked for, and workers take them out. What the clock decides is the order of the events.
use fusillade.Prelude.{
  ℕ, ◌+◌, ◌-◌, ◌*◌, ◌≤◌, ◌<◌, Bool, true, false, not, List, [], ◌∷◌, ◌++◌, Option, none, some, ltb,
  leb, if◌then◌else◌, length, length-append, max, ◌≡◌, refl, arith, if-both, if-cases,
}

pub record Arrival : Type 0 where
  pub queue : List ℕ
  pub dispatching : Bool
  pub iteration_counter : ℕ
  pub iterations_started : ℕ
  pub dropped_iterations : ℕ
  -- the numbers that workers took, and how many of these iterations are still under way
  pub taken : List ℕ
  pub under_way : ℕ
  pub iterations_completed : ℕ

-- A round of the dispatcher; a worker takes a number, or completes its iteration; the time is up or the
-- test is stopped.
pub data Event : Type 0 where
  dispatch take complete close : Event

abbrev pub idle : Arrival
idle = record {
  queue = [];
  dispatching = true;
  iteration_counter = 0;
  iterations_started = 0;
  dropped_iterations = 0;
  taken = [];
  under_way = 0;
  iterations_completed = 0;
}

-- `try_send`: into the channel where there is room, else the iteration is dropped.
unfoldable pub offer : ℕ → Arrival → Arrival
offer capacity s =
    if ltb (length s.queue) capacity
    then record s {
      queue = s.queue ++ (s.iteration_counter ∷ []);
      iterations_started = s.iterations_started + 1;
    }
    else record s { dropped_iterations = s.dropped_iterations + 1 }

-- the limit of iterations, which ends the dispatcher
unfoldable pub count_offer : Option ℕ → Arrival → Arrival
count_offer max_iterations s =
    let n = s.iteration_counter + 1 in
    record s {
      iteration_counter = n;
      dispatching = elim max_iterations [ none ↦ true | some limit ↦ not (leb limit n) ];
    }

-- `iter_rx.recv_timeout(…)`
unfoldable pub receive_from : List ℕ → Arrival → Arrival
receive_from [] s = s
receive_from (n ∷ queue) s = record s {
  queue = queue;
  taken = s.taken ++ (n ∷ []);
  under_way = s.under_way + 1;
}

unfoldable pub step : ℕ → Option ℕ → Event → Arrival → Arrival
unfolding offer count_offer receive_from
step workers max_iterations dispatch s =
    if s.dispatching then count_offer max_iterations (offer (workers * 2) s) else s
step workers max_iterations take s = receive_from s.queue s
step workers max_iterations complete s =
    if ltb 0 s.under_way
    then record s { under_way = s.under_way - 1; iterations_completed = s.iterations_completed + 1 }
    else s
step workers max_iterations close s = record s { dispatching = false }

unfoldable pub steps : ℕ → Option ℕ → List Event → Arrival → Arrival
unfolding step
steps workers max_iterations [] s = s
steps workers max_iterations (e ∷ es) s =
    steps workers max_iterations es (step workers max_iterations e s)

-- What the counters say of one another, and of the channel.
pub record IsBalanced (workers : ℕ) (s : Arrival) : Type 0 where
  pub offered : s.iterations_started + s.dropped_iterations ≡ s.iteration_counter
  pub started : s.iterations_started ≡ length s.taken + length s.queue
  pub bounded : length s.queue ≤ workers * 2
  pub completed : s.iterations_completed + s.under_way ≡ length s.taken

receive_from-IsBalanced :
    (workers : ℕ) (queue : List ℕ) (s : Arrival)
    → s.queue ≡ queue
    → IsBalanced workers s
    → IsBalanced workers (receive_from queue s)
unfolding receive_from
receive_from-IsBalanced workers [] s e b = b
receive_from-IsBalanced workers (n ∷ queue) s e b = ground (arith, length-append s.taken (n ∷ []))

step-IsBalanced :
    (workers : ℕ) (max_iterations : Option ℕ) (e : Event) (s : Arrival)
    → IsBalanced workers s
    → IsBalanced workers (step workers max_iterations e s)
unfolding step offer count_offer
step-IsBalanced workers max_iterations dispatch s b =
    ground (arith, length-append s.queue (s.iteration_counter ∷ []))
step-IsBalanced workers max_iterations take s b = receive_from-IsBalanced workers s.queue s refl b
step-IsBalanced workers max_iterations complete s b = ground arith
step-IsBalanced workers max_iterations close s b = ground arith

-- Under a limit the dispatcher goes on only below it.
abbrev pub IsBelow : Option ℕ → Arrival → Type 0
IsBelow none s = Unit {0}
IsBelow (some limit) s =
    (s.iteration_counter ≤ max 1 limit) × (s.dispatching ≡ true → s.iteration_counter < max 1 limit)

receive_from-IsBelow :
    (limit : ℕ) (queue : List ℕ) (s : Arrival)
    → IsBelow (some limit) s
    → IsBelow (some limit) (receive_from queue s)
unfolding receive_from
receive_from-IsBelow limit [] s b = b
receive_from-IsBelow limit (n ∷ queue) s b = b

step-IsBelow :
    (workers : ℕ) (max_iterations : Option ℕ) (e : Event) (s : Arrival)
    → IsBelow max_iterations s
    → IsBelow max_iterations (step workers max_iterations e s)
unfolding step offer count_offer receive_from
step-IsBelow workers none e s b = tt
step-IsBelow workers (some limit) dispatch s b =
    if-cases (IsBelow (some limit)) s.dispatching (count_offer (some limit) (offer (workers * 2) s))
      s (λ on. let l = b.1 on in (ground (arith, l), λ h. ground (arith, l, h))) (λ off. b)
step-IsBelow workers (some limit) take s b = receive_from-IsBelow limit s.queue s b
step-IsBelow workers (some limit) complete s b =
    if-both (IsBelow (some limit)) (ltb 0 s.under_way)
      (record s { under_way = s.under_way - 1; iterations_completed = s.iterations_completed + 1 })
      s b b
step-IsBelow workers (some limit) close s b = (b.0, λ h. cc)

steps_lem :
    (workers : ℕ) (max_iterations : Option ℕ) (es : List Event) (s : Arrival)
    → IsBalanced workers s
    → IsBelow max_iterations s
    → IsBalanced workers (steps workers max_iterations es s)
      × IsBelow max_iterations (steps workers max_iterations es s)
unfolding steps
steps_lem workers max_iterations [] s b c = (b, c)
steps_lem workers max_iterations (e ∷ es) s b c =
    steps_lem workers max_iterations es (step workers max_iterations e s)
      (step-IsBalanced workers max_iterations e s b) (step-IsBelow workers max_iterations e s c)

idle-IsBelow : (max_iterations : Option ℕ) → IsBelow max_iterations idle
idle-IsBelow none = tt
idle-IsBelow (some limit) = (omega arith, λ h. omega arith)

-- Whatever the order of events: each iteration that the dispatcher counted was started or dropped; the
-- started ones were taken or wait in the channel, which holds two for each worker at most; of the taken
-- ones the completed are those that are not under way. Under a limit the dispatcher counts no more than
-- it, or one if it is 0, and goes on only below that.
pub steps-IsBalanced :
    (workers : ℕ) (max_iterations : Option ℕ) (es : List Event)
    → let s = steps workers max_iterations es idle in
      IsBalanced workers s × IsBelow max_iterations s
steps-IsBalanced workers max_iterations es =
    steps_lem workers max_iterations es idle (omega arith) (idle-IsBelow max_iterations)
