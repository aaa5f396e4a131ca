-- ===== src/Engine/Iterations.antt =====
-- The loop of one worker in src/engine/mod.rs, which calls the script's function again and again, without
-- scenarios and in a scenario of constant or per-worker iterations. How a call went is what a turn says.
pub mod Failures
pub mod Counted
use fusillade.Prelude.{
  ℕ, ◌+◌, ◌-◌, Bool, false, List, [], ◌∷◌, ◌++◌, Option, none, some, Text, codes, leb,
  if◌then◌else◌,
}
use fusillade.Stats.Types.{Metric, Tags, RequestTimings, request}
use fusillade.Http.Follow.{no_timings}

-- One round: whether the worker is told to leave its loop before it, how long the call took and how much
-- of that it slept, its exception, and the tags of the control state.
pub record Turn : Type 0 where
  pub halted : Bool
  pub elapsed : ℕ
  pub slept : ℕ
  pub error : Option Text
  pub tags : Tags

-- in a scenario behind its name
unfoldable pub in_scenario : Option Text → Text → Text
in_scenario none name = name
in_scenario (some scenario) name = scenario ++ (codes "::" ++ name)

-- the timings of a call that lasted so long
abbrev pub lasting : ℕ → RequestTimings
lasting duration = record no_timings { duration = duration }

abbrev pub status_of : Option Text → ℕ
status_of none = 200
status_of (some _) = 0

-- The time without sleep, and the whole time.
unfoldable pub iteration_metrics : {F : Type 0} → Option Text → Turn → List (Metric F)
unfolding in_scenario
iteration_metrics scenario t =
    request (in_scenario scenario (codes "iteration")) (lasting (t.elapsed - t.slept))
      (status_of t.error) t.error t.tags
    ∷ request (in_scenario scenario (codes "iteration_total")) (lasting t.elapsed)
        (status_of t.error) t.error t.tags
    ∷ []

-- `iteration_count >= max_iter`
unfoldable pub is_limit : Option ℕ → ℕ → Bool
is_limit none n = false
is_limit (some limit) n = leb limit n

-- The metrics that the worker sends, from its n-th iteration on.
unfoldable pub worker_loop : {F : Type 0} → Option Text → Option ℕ → List Turn → ℕ → List (Metric F)
unfolding iteration_metrics is_limit
worker_loop scenario max_iterations [] n = []
worker_loop scenario max_iterations (t ∷ ts) n =
    let rest = worker_loop scenario max_iterations ts (n + 1) in
    if t.halted
    then []
    else iteration_metrics scenario t ++ (if is_limit max_iterations (n + 1) then [] else rest)
