-- ===== src/Control.antt =====
-- src/engine/control.rs: the state that the controller and the workers share, and the commands. The
-- time is an argument: `now` is the number of milliseconds since the state was made. The atomics are
-- written by the control loop alone, so a method is one step. Below: the handling of the commands in
-- the control loop of src/engine/mod.rs.
pub mod Pauses
pub mod Commands
use fusillade.Prelude.{
  ℕ, ◌+◌, ◌-◌, Bool, true, false, ◌&&◌, ◌||◌, List, [], ◌∷◌, Option, none, some, Text, codes,
  text_eq, trim, split_whitespace, split_once, to_lowercase, parse_u64, bind, ltb, ◌==◌,
  if◌then◌else◌, insert, text_key, add_u64, get_or,
}

pub data ControlCommand : Type 0 where
  ramp : ℕ → ControlCommand
  pause : ControlCommand
  resume : ControlCommand
  tag : Text → Text → ControlCommand
  status : ControlCommand
  stop : ControlCommand

pub record ControlState : Type 0 where
  pub paused : Bool
  pub target_workers : ℕ
  pub tags : List (Text × Text)
  pub stopped : Bool
  pub total_paused_ms : ℕ
  pub pause_started_ms : ℕ

unfoldable pub new : ℕ → ControlState
new initial_workers = record {
  paused = false;
  target_workers = initial_workers;
  tags = [];
  stopped = false;
  total_paused_ms = 0;
  pause_started_ms = 0;
}

unfoldable pub do_pause : ℕ → ControlState → ControlState
do_pause now s = record s { pause_started_ms = now; paused = true }

unfoldable pub do_resume : ℕ → ControlState → ControlState
do_resume now s =
    let started = s.pause_started_ms in
    let s' = record s { paused = false; pause_started_ms = 0 } in
    if ltb 0 started
    then record s' { total_paused_ms = add_u64 s.total_paused_ms (now - started) }
    else s'

-- in milliseconds
unfoldable pub total_paused : ℕ → ControlState → ℕ
total_paused now s =
    if s.paused && ltb 0 s.pause_started_ms
    then add_u64 s.total_paused_ms (now - s.pause_started_ms)
    else s.total_paused_ms

unfoldable pub set_target_workers : ℕ → ControlState → ControlState
set_target_workers n s = record s { target_workers = n }

unfoldable pub add_tag : Text → Text → ControlState → ControlState
add_tag k v s = record s { tags = insert k v s.tags }

unfoldable pub do_stop : ControlState → ControlState
do_stop s = record s { stopped = true }

-- The `match` on the first word, in lower case; `rest` are the other words.
unfoldable pub parse_word : Text → List Text → Option ControlCommand
parse_word word rest =
    if text_eq word (codes "ramp") || text_eq word (codes "scale")
    then elim rest [ [] ↦ none | n ∷ _ ↦ bind (parse_u64 n) (λ k. some (ramp k)) ]
    else if text_eq word (codes "pause")
    then some pause
    else if text_eq word (codes "resume") || text_eq word (codes "unpause")
    then some resume
    else if text_eq word (codes "tag")
    then elim rest [ [] ↦ none | kv ∷ _ ↦ bind (split_once b'=' kv) (λ p. some (tag p.0 p.1)) ]
    else if text_eq word (codes "status") || text_eq word (codes "stats")
    then some status
    else if text_eq word (codes "stop")
        || text_eq word (codes "quit")
        || text_eq word (codes "exit")
    then some stop
    else none

unfoldable pub parse_words : List Text → Option ControlCommand
unfolding parse_word
parse_words [] = none
parse_words (word ∷ rest) = parse_word (to_lowercase word) rest

unfoldable pub parse_control_command : Text → Option ControlCommand
unfolding parse_words trim split_whitespace
parse_control_command input = parse_words (split_whitespace (trim input))

-- What the control loop of the engine keeps besides: the number of workers that was asked for.
pub record Control : Type 0 where
  pub state : ControlState
  pub dynamic_target : Option ℕ

abbrev on_state : (ControlState → ControlState) → Control → Control
on_state f c = record c { state = f c.state }

-- One command of the control loop; what is printed is left out.
unfoldable pub handle : Bool → ℕ → ControlCommand → Control → Control
unfolding set_target_workers do_pause do_resume add_tag do_stop
handle multi_scenario now (ramp n) c =
    if n == 0
    then record c { dynamic_target = none }
    else if multi_scenario
    then c
    else record c { state = set_target_workers n c.state; dynamic_target = some n }
handle multi_scenario now pause c = on_state (do_pause now) c
handle multi_scenario now resume c = on_state (do_resume now) c
handle multi_scenario now (tag k v) c = on_state (add_tag k v) c
handle multi_scenario now status c = c
handle multi_scenario now stop c = on_state do_stop c

abbrev pub is_stop : ControlCommand → Bool
is_stop stop = true
is_stop _ = false

-- `while let Ok(cmd) = rx.try_recv()` over the commands that wait, each with the time at which it is
-- read: `stop` leaves the loop, and the rest unread.
unfoldable pub handle_all :
    Bool → List (ℕ × ControlCommand) → Control → Control × List (ℕ × ControlCommand)
unfolding handle
handle_all multi_scenario [] c = (c, [])
handle_all multi_scenario ((now, cmd) ∷ cmds) c =
    let c' = handle multi_scenario now cmd c in
    let rest = handle_all multi_scenario cmds c' in if is_stop cmd then (c', cmds) else rest

-- `dynamic_target_legacy.unwrap_or(scheduled_target)`
abbrev pub target_workers_of : ℕ → Control → ℕ
target_workers_of scheduled c = get_or c.dynamic_target scheduled
