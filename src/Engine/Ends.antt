-- ===== src/Engine/Ends.antt =====
-- The end of the control loop of src/engine/mod.rs.
use fusillade.Prelude.{
  ℕ, ◌≤◌, Bool, true, false, not, ◌&&◌, List, [], ◌∷◌, leb, if◌then◌else◌, ◌≡◌, refl, arith, ◌⊎◌,
  inl, inr, All, if-both,
}
use fusillade.Float.{Float}
use fusillade.Control.{
  ControlCommand, ramp, pause, ControlState, Control, handle, handle_all, total_paused, do_resume,
  do_stop, add_tag, set_target_workers, is_stop,
}
use fusillade.Schedule.{Schedule}
use fusillade.Engine.{
  Engine, Tick, running_time, scale_at, scale, scale_down, spawn_to, main_loop, monitored,
}

-- The run was never paused.
pub record IsUnpaused (s : ControlState) : Type 0 where
  pub running : s.paused ≡ false
  pub total : s.total_paused_ms ≡ 0
  pub started : s.pause_started_ms ≡ 0

abbrev pub is_pause : ControlCommand → Bool
is_pause pause = true
is_pause _ = false

-- In some round the test has lasted so long.
abbrev pub IsLate : {F : Type 0} → ℕ → List (Tick F) → Type 0
IsLate duration [] = ⊥
IsLate duration (t ∷ ts) = (duration ≤ t.elapsed) ⊎ IsLate duration ts

handle-IsUnpaused :
    (now : ℕ) (cmd : ControlCommand) (c : Control)
    → is_pause cmd ≡ false
    → IsUnpaused c.state
    → IsUnpaused (handle false now cmd c).state
unfolding handle do_resume do_stop add_tag set_target_workers
handle-IsUnpaused now pause c e u = cc
handle-IsUnpaused now (ramp n) c e u = ground arith
handle-IsUnpaused now _ c e u = ground arith

handle_all-IsUnpaused :
    (cmds : List (ℕ × ControlCommand)) (c : Control)
    → All (λ x. is_pause x.1 ≡ false) cmds
    → IsUnpaused c.state
    → IsUnpaused (handle_all false cmds c).0.state
unfolding handle_all
handle_all-IsUnpaused [] c a u = u
handle_all-IsUnpaused ((now, cmd) ∷ cmds) c a u =
    let u' = handle-IsUnpaused now cmd c a.0 u in
    if-both (λ (x : Control × List (ℕ × ControlCommand)). IsUnpaused x.0.state) (is_stop cmd)
      (handle false now cmd c, cmds) (handle_all false cmds (handle false now cmd c)) u'
      (handle_all-IsUnpaused cmds (handle false now cmd c) a.1 u')

scale-control :
    (fl : Float) (target : ℕ) (usage : fl.F) (e : Engine)
    → (scale fl target usage e).control ≡ e.control
unfolding scale spawn_to scale_down
scale-control fl target usage e = ground arith

running_time-unpaused :
    (elapsed now : ℕ) (s : ControlState) → IsUnpaused s → running_time elapsed now s ≡ elapsed
unfolding running_time total_paused
running_time-unpaused elapsed now s u = ground arith

at_end :
    (stopped : Bool) (x y : Engine × Bool)
    → x.1 ≡ true
    → (if true && not stopped then x else if stopped then x else y).1 ≡ true
at_end true x y h = h
at_end false x y h = h

le→leb : (a b : ℕ) → a ≤ b → leb a b ≡ true
le→leb a b h = ground arith

-- Without a pause the control loop is left: at the latest in the first round in which the test has lasted
-- its whole duration, whatever other commands come and however many workers there are.
pub main_loop-ends :
    (fl : Float) (schedule : Schedule) (duration : ℕ) (ts : List (Tick fl.F)) (e : Engine)
    → IsUnpaused e.control.state
    → All (λ t. All (λ x. is_pause x.1 ≡ false) t.commands) ts
    → IsLate duration ts
    → (main_loop fl schedule duration ts e).1 ≡ true
unfolding main_loop scale_at
main_loop-ends fl schedule duration [] e u a late = absurd late
main_loop-ends fl schedule duration (t ∷ ts) e u a (inl late) =
    rw (running_time-unpaused t.elapsed t.now e.control.state u, le→leb _ _ late)
      (at_end e.control.state.stopped _ _ refl)
main_loop-ends fl schedule duration (t ∷ ts) e u a (inr late) =
    let P = λ (x : Engine × Bool). x.1 ≡ true in
    let e' = monitored fl t e in
    let c = (handle_all false t.commands e'.control).0 in
    let handled = record e' { control = c } in
    let next = scale_at fl schedule t handled in
    let rest = main_loop fl schedule duration ts next in
    let u' : IsUnpaused next.control.state =
      rw (scale-control fl _ t.usage handled) (handle_all-IsUnpaused t.commands e'.control a.0 u) in
    let later = main_loop-ends fl schedule duration ts next u' a.1 late in
    let going = if c.state.stopped then (handled, true) else rest in
    if-both P _ (e', true) (if e.control.state.stopped then (e', true) else going) refl
      (if-both P e.control.state.stopped (e', true) going refl
        (if-both P c.state.stopped (handled, true) rest refl later))
