-- ===== src/Tui.antt =====
-- src/tui/mod.rs: the keys of the dashboard. `sent` are the commands that went to the control loop, in
-- order; the snapshot that is drawn and the aggregator stand beside this state.
pub mod Typing
pub mod Snapshot
use fusillade.Prelude.{
  ℕ, ◌+◌, ◌-◌, Bool, true, false, ◌&&◌, ◌||◌, List, [], ◌∷◌, ◌++◌, Option, none, some, Text, ◌==◌,
  if◌then◌else◌, parse_u64, split_once, is_digit, add_u64, max,
}
use fusillade.Control.{ControlCommand, ramp, pause, resume, tag, stop, ControlState}

pub data InputMode : Type 0 where
  normal : InputMode
  ramp_input : Text → InputMode
  tag_input : Text → InputMode

pub data KeyCode : Type 0 where
  char : ℕ → KeyCode
  enter : KeyCode
  esc : KeyCode
  backspace : KeyCode
  up : KeyCode
  down : KeyCode
  other : KeyCode

pub record KeyEvent : Type 0 where
  pub code : KeyCode
  pub control : Bool

pub record App : Type 0 where
  pub control_state : ControlState
  pub sent : List ControlCommand
  pub input_mode : InputMode
  pub endpoint_scroll : ℕ

unfoldable pub new : ControlState → App
new control_state = record {
  control_state = control_state;
  sent = [];
  input_mode = normal;
  endpoint_scroll = 0;
}

abbrev pub send : ControlCommand → App → App
send c app = record app { sent = app.sent ++ (c ∷ []) }

-- `String::pop`
unfoldable pub pop : Text → Text
pop [] = []
pop (c ∷ []) = []
pop (c ∷ d ∷ cs) = c ∷ pop (d ∷ cs)

-- A character in the normal mode: whether the dashboard is left, and the state.
unfoldable pub normal_char : ℕ → Bool → App → Bool × App
normal_char c control app =
    if c == b'q'
    then (true, send stop app)
    else if c == b'c' && control
    then (true, send stop app)
    else if c == b'p'
    then (false, if app.control_state.paused then send resume app else send pause app)
    else if c == b's'
    then (false, send stop app)
    else if c == b'+' || c == b'='
    then (false, send (ramp (add_u64 app.control_state.target_workers 10)) app)
    else if c == b'-'
    then (false, send (ramp (max (app.control_state.target_workers - 10) 1)) app)
    else if c == b'r'
    then (false, record app { input_mode = ramp_input [] })
    else if c == b'a'
    then (false, send (ramp 0) app)
    else if c == b't'
    then (false, record app { input_mode = tag_input [] })
    else (false, app)

unfoldable pub handle_normal_key : KeyEvent → App → Bool × App
unfolding normal_char
handle_normal_key key app = elim key.code [
  | char c ↦ normal_char c key.control app
  | esc ↦ (true, send stop app)
  | up ↦ (false, record app { endpoint_scroll = app.endpoint_scroll - 1 })
  | down ↦ (false, record app { endpoint_scroll = add_u64 app.endpoint_scroll 1 })
  | _ ↦ (false, app)
]

-- the command of a number or a tag that was typed, if it reads as one
abbrev send_ramp : Option ℕ → App → App
send_ramp none app = app
send_ramp (some n) app = send (ramp n) app

abbrev send_tag : Option (Text × Text) → App → App
send_tag none app = app
send_tag (some (k, v)) app = send (tag k v) app

unfoldable pub handle_ramp_key : Text → KeyEvent → App → Bool × App
unfolding pop
handle_ramp_key s key app = elim key.code [
  | esc ↦ (false, record app { input_mode = normal })
  | enter ↦ (false, record (send_ramp (parse_u64 s) app) { input_mode = normal })
  | char c ↦
      (false, if is_digit c then record app { input_mode = ramp_input (s ++ (c ∷ [])) } else app)
  | backspace ↦ (false, record app { input_mode = ramp_input (pop s) })
  | _ ↦ (false, app)
]

unfoldable pub handle_tag_key : Text → KeyEvent → App → Bool × App
unfolding pop split_once
handle_tag_key s key app = elim key.code [
  | esc ↦ (false, record app { input_mode = normal })
  | enter ↦ (false, record (send_tag (split_once b'=' s) app) { input_mode = normal })
  | char c ↦ (false, record app { input_mode = tag_input (s ++ (c ∷ [])) })
  | backspace ↦ (false, record app { input_mode = tag_input (pop s) })
  | _ ↦ (false, app)
]

unfoldable pub in_mode : InputMode → KeyEvent → App → Bool × App
unfolding handle_normal_key handle_ramp_key handle_tag_key
in_mode normal key app = handle_normal_key key app
in_mode (ramp_input s) key app = handle_ramp_key s key app
in_mode (tag_input s) key app = handle_tag_key s key app

unfoldable pub handle_key : KeyEvent → App → Bool × App
unfolding in_mode
handle_key key app = in_mode app.input_mode key app

-- Keys one after the other, up to one that leaves the dashboard.
unfoldable pub handle_keys : List KeyEvent → App → Bool × App
unfolding handle_key
handle_keys [] app = (false, app)
handle_keys (k ∷ ks) app =
    let (quit, app') = handle_key k app in
    let rest = handle_keys ks app' in if quit then (true, app') else rest
