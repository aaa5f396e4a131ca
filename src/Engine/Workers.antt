-- ===== src/Engine/Workers.antt =====
-- The number of workers after a round of the loop of src/engine/mod.rs, and what becomes of each worker.
use fusillade.Prelude.{
  ℕ, zero, suc, ◌+◌, ◌-◌, ◌≤◌, max, Bool, true, false, not, ◌&&◌, List, [], ◌∷◌, ◌++◌, Option, none,
  some, ltb, leb, ◌==◌, if◌then◌else◌, length, ◌≡◌, refl, ap, ◌∙◌, arith, Option-cases, inl, inr,
  if-both,
}
use fusillade.Float.{Float}
use fusillade.Control.{Control, handle_all, target_workers_of}
use fusillade.Schedule.{Schedule}
use fusillade.Memory.{warn_threshold_percent}
use fusillade.Engine.{
  Pool, spawn_workers, halt_above, halt_to, halt_all, Engine, Tick, scale_down, spawn_to, scale,
  scale_at, main_loop, run_test, monitored,
}

abbrev pub count : ℕ → List ℕ → ℕ
count q [] = 0
count q (x ∷ xs) = (if x == q then 1 else 0) + count q xs

pub count-append : (q : ℕ) (xs ys : List ℕ) → count q (xs ++ ys) ≡ count q xs + count q ys
count-append q [] ys = omega arith
count-append q (x ∷ xs) ys = omega (arith, count-append q xs ys)

-- Every number that was given belongs to one worker, active or halted.
abbrev pub IsRight : Pool → Type 0
IsRight p =
    (1 ≤ p.next_worker_id)
    × ((q : ℕ)
        → count q p.active + count q p.halted
          ≡ (if leb 1 q && ltb q p.next_worker_id then 1 else 0))

pub spawn-IsRight : (n : ℕ) (p : Pool) → IsRight p → IsRight (spawn_workers n p)
unfolding spawn_workers
spawn-IsRight zero p h = h
spawn-IsRight (suc n) p h = spawn-IsRight n _ (omega (arith, h.0), λ q. ground (arith, h.1 q, h.0))

pub halt_above-count :
    (q target : ℕ) (active halted : List ℕ)
    → count q (halt_above target active halted).0 + count q (halt_above target active halted).1
      ≡ count q active + count q halted
unfolding halt_above
halt_above-count q target [] halted = refl
halt_above-count q target (w ∷ ws) halted =
    ground (arith, halt_above-count q target ws (w ∷ halted))

pub halt_above-length :
    (target : ℕ) (active halted : List ℕ)
    → length (halt_above target active halted).0
      ≡ (if ltb target (length active) then target else length active)
unfolding halt_above
halt_above-length target [] halted = ground arith
halt_above-length target (w ∷ ws) halted = ground (arith, halt_above-length target ws (w ∷ halted))

pub spawn-length : (n : ℕ) (p : Pool) → length (spawn_workers n p).active ≡ n + length p.active
unfolding spawn_workers
spawn-length zero p = omega arith
spawn-length (suc n) p = omega (
  arith,
  spawn-length n
      (record p { active = p.next_worker_id ∷ p.active; next_worker_id = p.next_worker_id + 1 }),
)

scale_down-IsRight : (e : Engine) → IsRight e.pool → IsRight (scale_down e).pool
unfolding scale_down halt_to
scale_down-IsRight e h = elim (Option-cases e.control.dynamic_target) [
  | inl calm ↦ rw (calm, scale_down) h
  | inr (n, ramped) ↦
      rw (ramped, scale_down) (h.0, λ q. halt_above-count q n e.pool.active e.pool.halted ∙ h.1 q)
]

scale-IsRight :
    (fl : Float) (target : ℕ) (usage : fl.F) (e : Engine)
    → IsRight e.pool
    → IsRight (scale fl target usage e).pool
unfolding scale spawn_to
scale-IsRight fl target usage e h =
    let more = spawn-IsRight (target - length e.pool.active) e.pool h in
    if-both (λ (x : Engine). IsRight x.pool) (ltb (length e.pool.active) target) _ _
      (if-both (λ (x : Engine). IsRight x.pool) e.memory_throttle _ _
        (if-both (λ (x : Engine). IsRight x.pool) (fl.lt usage (warn_threshold_percent fl)) _ _
          (scale_down-IsRight _ more) h)
        (scale_down-IsRight _ more))
      (scale_down-IsRight e h)

main_loop-IsRight :
    (fl : Float) (schedule : Schedule) (duration : ℕ) (ts : List (Tick fl.F)) (e : Engine)
    → IsRight e.pool
    → IsRight (main_loop fl schedule duration ts e).0.pool
unfolding main_loop scale_at
main_loop-IsRight fl schedule duration [] e h = h
main_loop-IsRight fl schedule duration (t ∷ ts) e h =
    let P = λ (x : Engine × Bool). IsRight x.0.pool in
    let e' = monitored fl t e in
    let c = (handle_all false t.commands e'.control).0 in
    let handled = record e' { control = c } in
    let later =
      main_loop-IsRight fl schedule duration ts (scale_at fl schedule t handled)
        (scale-IsRight fl _ t.usage handled h) in
    let rest = main_loop fl schedule duration ts (scale_at fl schedule t handled) in
    let on = if-both P c.state.stopped (handled, true) rest h later in
    let going = if c.state.stopped then (handled, true) else rest in
    if-both P _ (e', true) (if e.control.state.stopped then (e', true) else going) h
      (if-both P e.control.state.stopped (e', true) going h on)

-- However a test goes, when it is over no worker is active, and each of the numbers from 1 on that were
-- given to a worker has been halted, exactly once.
pub run_test-halted :
    (fl : Float) (schedule : Schedule) (duration : ℕ) (ts : List (Tick fl.F)) (control : Control)
    (q : ℕ)
    → let e = run_test fl schedule duration ts control in
      (e.pool.active ≡ [])
      × (count q e.pool.halted ≡ (if leb 1 q && ltb q e.pool.next_worker_id then 1 else 0))
unfolding run_test halt_all
run_test-halted fl schedule duration ts control q =
    let e : Engine = record {
      pool = record { active = []; halted = []; next_worker_id = 1 };
      control = control;
      memory_throttle = false;
      memory_critical = false;
    } in
    let right = main_loop-IsRight fl schedule duration ts e (omega arith, λ q. ground arith) in
    let p = (main_loop fl schedule duration ts e).0.pool in
    (refl, count-append q p.active p.halted ∙ right.1 q)

abbrev down_length : Option ℕ → ℕ → ℕ
down_length none now = now
down_length (some target) now = if ltb target now then target else now

scale_down-length :
    (e : Engine)
    → length (scale_down e).pool.active
      ≡ down_length e.control.dynamic_target (length e.pool.active)
unfolding scale_down halt_to
scale_down-length e = elim (Option-cases e.control.dynamic_target) [
  | inl calm ↦ rw (calm, scale_down) refl
  | inr (n, ramped) ↦ rw (ramped, scale_down) (halt_above-length n e.pool.active e.pool.halted)
]

spawn_to-length :
    (n : ℕ) (e : Engine)
    → length (scale_down (spawn_to n e)).pool.active
      ≡ down_length e.control.dynamic_target (n - length e.pool.active + length e.pool.active)
unfolding spawn_to
spawn_to-length n e =
    scale_down-length (spawn_to n e)
    ∙ ap (down_length e.control.dynamic_target) (spawn-length (n - length e.pool.active) e.pool)

-- The number of workers that a round aims at: the schedule's, but no fewer than there are, or the one
-- that was asked for.
abbrev pub workers_after : Option ℕ → ℕ → ℕ → ℕ
workers_after none scheduled now = max scheduled now
workers_after (some target) scheduled now = target

-- A round leaves the number of workers that it aims at, but where workers are missing, the monitor has
-- warned and memory is still short: then it changes nothing.
pub scale-length :
    (fl : Float) (scheduled : ℕ) (usage : fl.F) (e : Engine)
    → let now = length e.pool.active in
      let target = target_workers_of scheduled e.control in
      let short =
        ltb now target && e.memory_throttle && not (fl.lt usage (warn_threshold_percent fl)) in
      (short ≡ true → scale fl target usage e ≡ e)
      × (short ≡ false
          → length (scale fl target usage e).pool.active
            ≡ workers_after e.control.dynamic_target scheduled now)
unfolding scale
scale-length fl scheduled usage e =
    let target = target_workers_of scheduled e.control in
    let bare = record e { memory_throttle = false; memory_critical = false } in
    (
      λ short. ground arith,
      λ short.
          ground
            (arith, scale_down-length e, spawn_to-length target e, spawn_to-length target bare),
    )
