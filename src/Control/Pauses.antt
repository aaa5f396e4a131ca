-- ===== src/Control/Pauses.antt =====
-- The time that the pauses take.
use fusillade.Prelude.{ℕ, ◌+◌, ◌-◌, ◌≤◌, ◌<◌, ◌≡◌, refl, false, List, [], ◌∷◌, arith, u64_mod}
use native.Mathlib.Nat.{add_assoc}
use fusillade.Control.{ControlState, new, do_pause, do_resume, total_paused}

-- A pause that is asked for and the resume that ends it, each with its time.
pub record Pause : Type 0 where
  pub from : ℕ
  pub to : ℕ

unfoldable pub run : List Pause → ControlState → ControlState
run [] s = s
run (p ∷ ps) s = run ps (do_resume p.to (do_pause p.from s))

-- The pauses come one after the other, the first not before `t`, the last ended by `end`.
abbrev pub InOrder : ℕ → List Pause → ℕ → Type 0
InOrder t [] end = t ≤ end
InOrder t (p ∷ ps) end = (t ≤ p.from) × (p.from ≤ p.to) × InOrder p.to ps end

abbrev pub paused_time : List Pause → ℕ
paused_time [] = 0
paused_time (p ∷ ps) = (p.to - p.from) + paused_time ps

paused_time-le : (t : ℕ) (ps : List Pause) (end : ℕ) → InOrder t ps end → paused_time ps + t ≤ end
paused_time-le t [] end h = omega arith
paused_time-le t (p ∷ ps) end h = omega (arith, paused_time-le p.to ps end h.2)

-- Before the pauses: not paused, with `n` milliseconds of earlier pauses.
pub record IsRunning (n : ℕ) (s : ControlState) : Type 0 where
  pub running : s.paused ≡ false
  pub no_start : s.pause_started_ms ≡ 0
  pub total : s.total_paused_ms ≡ n

new-IsRunning : (workers : ℕ) → IsRunning 0 (new workers)
unfolding new
new-IsRunning workers = record { running = refl; no_start = refl; total = refl }

cycle-IsRunning :
    (p : Pause) (n : ℕ) (s : ControlState)
    → 0 < p.from
    → p.from ≤ p.to
    → n + (p.to - p.from) < u64_mod
    → IsRunning n s
    → IsRunning (n + (p.to - p.from)) (do_resume p.to (do_pause p.from s))
unfolding do_pause do_resume
cycle-IsRunning p n s h o b r = ground arith

run-IsRunning :
    (ps : List Pause) (t n end : ℕ) (s : ControlState)
    → InOrder t ps end
    → 0 < t
    → n + paused_time ps < u64_mod
    → IsRunning n s
    → IsRunning (n + paused_time ps) (run ps s)
unfolding run
run-IsRunning [] t n end s o h b r = record {
  running = r.running;
  no_start = r.no_start;
  total = omega (arith, r.total);
}
run-IsRunning (p ∷ ps) t n end s o h b r = rw (← add_assoc n (p.to - p.from) (paused_time ps)) (
    run-IsRunning ps p.to (n + (p.to - p.from)) end _ o.2 (omega arith) (omega arith)
      (cycle-IsRunning p n s (omega arith) o.1 (omega arith) r))

-- After pauses in order, the first not in the very first millisecond, the total is the sum of their
-- lengths, whenever it is asked for within the range of a `u64`; and during one more pause the time
-- since it began comes on top.
pub total_paused_exact :
    (workers : ℕ) (ps : List Pause) (end from now : ℕ)
    → InOrder 1 ps end
    → end ≤ from
    → from ≤ now
    → now < u64_mod
    → (total_paused now (run ps (new workers)) ≡ paused_time ps)
      × (total_paused now (do_pause from (run ps (new workers))) ≡ paused_time ps + (now - from))
unfolding total_paused do_pause
total_paused_exact workers ps end from now o e f b =
    let le = paused_time-le 1 ps end o in
    let r : IsRunning (0 + paused_time ps) (run ps (new workers)) =
      run-IsRunning ps 1 0 end (new workers) o (omega arith) (omega arith)
        (new-IsRunning workers) in
    (ground (arith, r.running, r.total, r.no_start), ground (arith, r.running, r.total, r.no_start))

-- With the total within its range, a second `pause` before the `resume` starts the pause anew: the
-- total is less than after one `pause` by the time between the two.
pause_twice :
    (first second end : ℕ) (s : ControlState)
    → 0 < first
    → first < second
    → second ≤ end
    → s.total_paused_ms + (end - first) < u64_mod
    → total_paused end (do_resume end (do_pause second (do_pause first s))) + (second - first)
      ≡ total_paused end (do_resume end (do_pause first s))
unfolding total_paused do_pause do_resume
pause_twice first second end s h o e b = ground arith
