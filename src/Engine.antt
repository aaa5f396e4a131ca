-- ===== src/Engine.antt =====
-- The control loop of a test without scenarios in src/engine/mod.rs: it reads commands, and starts and
-- halts workers. A time is in nanoseconds, the one of the control state in milliseconds. A worker is its
-- number; it is halted once its flag `running` is false. Metrics that are posted are left out.
pub mod Workers
pub mod Ends
pub mod Shared
pub mod Arrival
pub mod Iterations
pub mod Ramping
use fusillade.Prelude.{
  ℕ, zero, suc, ◌+◌, ◌-◌, ◌*◌, Bool, true, false, not, ◌&&◌, ◌||◌, List, [], ◌∷◌, ◌++◌, Option,
  none, some, ltb, leb, if◌then◌else◌, length,
}
use fusillade.Float.{Float}
use fusillade.Control.{
  ControlCommand, ControlState, Control, total_paused, do_stop, handle_all, target_workers_of,
}
use fusillade.Schedule.{Schedule, calculate_target}
use fusillade.Memory.{warn_threshold_percent}

-- The workers with a handle, the newest first, and those that were halted.
pub record Pool : Type 0 where
  pub active : List ℕ
  pub halted : List ℕ
  pub next_worker_id : ℕ

-- `for _ in 0..n`
unfoldable pub spawn_workers : ℕ → Pool → Pool
spawn_workers zero p = p
spawn_workers (suc n) p =
    spawn_workers n
      (record p { active = p.next_worker_id ∷ p.active; next_worker_id = p.next_worker_id + 1 })

-- `while target < active.len()`: the newest is taken off, and its flag cleared.
unfoldable pub halt_above : ℕ → List ℕ → List ℕ → List ℕ × List ℕ
halt_above target [] halted = ([], halted)
halt_above target (w ∷ ws) halted =
    let rest = halt_above target ws (w ∷ halted) in
    if ltb target (length (w ∷ ws)) then rest else (w ∷ ws, halted)

unfoldable pub halt_to : ℕ → Pool → Pool
unfolding halt_above
halt_to target p =
    let (active, halted) = halt_above target p.active p.halted in
    record p { active = active; halted = halted }

-- All flags are cleared at the end.
unfoldable pub halt_all : Pool → Pool
halt_all p = record p { active = []; halted = p.active ++ p.halted }

-- The state of the loop; the flags are those of the memory monitor.
pub record Engine : Type 0 where
  pub pool : Pool
  pub control : Control
  pub memory_throttle : Bool
  pub memory_critical : Bool

-- One round of the loop, as it meets it: the time, which is read twice, the commands that wait, the
-- share of the memory in use, and whether the monitor has set a flag.
pub record Tick (F : Type 0) : Type 0 where
  pub elapsed : ℕ
  pub now : ℕ
  pub commands : List (ℕ × ControlCommand)
  pub scale_elapsed : ℕ
  pub scale_now : ℕ
  pub usage : F
  pub warning : Bool
  pub critical : Bool

-- `start_time.elapsed().saturating_sub(control_state.total_paused())`
unfoldable pub running_time : ℕ → ℕ → ControlState → ℕ
unfolding total_paused
running_time elapsed now s = elapsed - total_paused now s * 1_000_000

-- Only a ramp command lets workers go.
unfoldable pub scale_down : Engine → Engine
unfolding halt_to
scale_down e = elim e.control.dynamic_target [
  | none ↦ e
  | some target ↦ record e { pool = halt_to target e.pool }
]

unfoldable pub spawn_to : ℕ → Engine → Engine
unfolding spawn_workers
spawn_to target e = record e { pool = spawn_workers (target - length e.pool.active) e.pool }

module _ (fl : Float) where
  open fl use {F, lt}

  -- Where memory is short no worker is started, and the round is over.
  unfoldable pub scale : ℕ → F → Engine → Engine
  unfolding scale_down spawn_to
  scale target usage e =
      if ltb (length e.pool.active) target
      then if e.memory_throttle
        then if lt usage (warn_threshold_percent fl)
          then scale_down
              (spawn_to target (record e { memory_throttle = false; memory_critical = false }))
          else e
        else scale_down (spawn_to target e)
      else scale_down e

  unfoldable pub scale_at : Schedule → Tick F → Engine → Engine
  unfolding scale running_time calculate_target
  scale_at schedule t e =
      let scheduled =
        calculate_target fl schedule (running_time t.scale_elapsed t.scale_now e.control.state) in
      scale (target_workers_of scheduled e.control) t.usage e

  -- what the monitor has set since the last round
  abbrev pub monitored : Tick F → Engine → Engine
  monitored t e = record e {
    memory_throttle = e.memory_throttle || t.warning;
    memory_critical = e.memory_critical || t.critical;
  }

  -- `'main_loop`, over the rounds that there is time for; whether it was left. The time of the test is up,
  -- or it was stopped, or a command stops it.
  unfoldable pub main_loop : Schedule → ℕ → List (Tick F) → Engine → Engine × Bool
  unfolding scale_at running_time handle_all
  main_loop schedule duration [] e = (e, false)
  main_loop schedule duration (t ∷ ts) e =
      let e' = monitored t e in
      let (control, unread) = handle_all false t.commands e'.control in
      let handled = record e' { control = control } in
      let rest = main_loop schedule duration ts (scale_at schedule t handled) in
      if leb duration (running_time t.elapsed t.now e.control.state) && not e.control.state.stopped
      then (e', true)
      else if e.control.state.stopped
      then (e', true)
      else if control.state.stopped
      then (handled, true)
      else rest

  -- The loop, and what follows: the state is stopped, and so is every worker.
  unfoldable pub run_test : Schedule → ℕ → List (Tick F) → Control → Engine
  unfolding main_loop halt_all
  run_test schedule duration ts control =
      let (e, left) = main_loop schedule duration ts (record {
        pool = record { active = []; halted = []; next_worker_id = 1 };
        control = control;
        memory_throttle = false;
        memory_critical = false;
      }) in
      record e {
        pool = halt_all e.pool;
        control = record e.control { state = do_stop e.control.state };
      }
