-- ===== src/Ws.antt =====
-- src/bridge/ws.rs: the WebSocket of a script, which may reconnect. Sockets are those of the crate
-- tungstenite. What the clock says of a call's length when the n-th metric is sent is `clock n`. What the next attempts to connect give is a list, of which each attempt takes the first.
pub mod Reconnect
use fusillade.Prelude.{
  ℕ, zero, suc, ◌+◌, ◌*◌, ◌^◌, ◌%◌, Bool, true, false, ◌&&◌, not, List, [], ◌∷◌, ◌++◌, Option, none,
  some, Text, codes, show_ℕ, if◌then◌else◌, Result, ok, err, u64_mod, length,
}
use fusillade.Stats.Types.{Metric}
use fusillade.Sse.{make_metric}

pub data Message : Type 0 where
  text : Text → Message
  binary : Text → Message
  close_frame : Message
  other : Message

pub record Sockets : Type 1 where
  pub S : Type 0
  pub send : Message → S → S × Result Unit Text
  pub read : S → S × Result Message Text
  -- `base64`: the bytes of a text, or the error
  pub decode : Text → Result Text Text
  pub encode : Text → Text

-- What a script is given by `recv`: a text, an object of type "binary", null or undefined.
pub data Value : Type 0 where
  string : Text → Value
  binary_object : Text → Value
  null : Value
  undefined : Value

-- in milliseconds; `pow` and the product wrap in a release build
unfoldable pub backoff_delay : ℕ → ℕ
backoff_delay attempt = 100 * (2 ^ attempt % u64_mod) % u64_mod

module _ (F : Type 0) (lib : Sockets) where
  open lib use {S}

  -- the socket, the options of the connection, what attempts to connect will give, and what has been done:
  -- metrics that were sent, and the delays that were waited
  pub record WebSocket : Type 0 where
    pub inner : Option S
    pub reconnect : Bool
    pub max_retries : ℕ
    pub outcomes : List (Result S Text)
    pub metrics : List (Metric F)
    pub slept : List ℕ

abbrev retry_error : ℕ → ℕ → Text → Text
retry_error attempt max_retries e =
    codes "WebSocket reconnect attempt "
    ++ (show_ℕ (attempt + 1) ++ (b'/' ∷ (show_ℕ max_retries ++ (codes " failed: " ++ e))))

abbrev is_gone : {A : Type 0} → Option A → Bool
is_gone none = true
is_gone (some _) = false

abbrev value_of : Sockets → Message → Value
value_of lib (text s) = string s
value_of lib (binary b) = binary_object (lib.encode b)
value_of lib close_frame = null
value_of lib other = undefined

abbrev is_close : Message → Bool
is_close close_frame = true
is_close _ = false

module _ {F : Type 0} {lib : Sockets} (clock : ℕ → ℕ) where
  open lib use {S, send, read, decode, encode}

  abbrev pub record_metric : Text → Option Text → WebSocket F lib → WebSocket F lib
  record_metric name error w = record w {
    metrics = w.metrics ++ (make_metric name error (clock (length w.metrics)) ∷ []);
  }

  abbrev pub wait_for : ℕ → WebSocket F lib → WebSocket F lib
  wait_for attempt w = record w { slept = w.slept ++ (backoff_delay attempt ∷ []) }

  -- `for attempt in 0..max_retries`, with the attempts that are left; an attempt with no outcome does not
  -- come back.
  unfoldable pub attempts : List (Result S Text) → ℕ → ℕ → WebSocket F lib → WebSocket F lib × Bool
  attempts outcomes zero attempt w = (record w { outcomes = outcomes }, false)
  attempts [] (suc left) attempt w = (record (wait_for attempt w) { outcomes = [] }, false)
  attempts (ok socket ∷ outcomes) (suc left) attempt w =
      let w' = record_metric (codes "ws::reconnect") none (wait_for attempt w) in
      (record w' { inner = some socket; outcomes = outcomes }, true)
  attempts (err e ∷ outcomes) (suc left) attempt w = attempts outcomes left (attempt + 1) (
      record_metric (codes "ws::reconnect") (some (retry_error attempt w.max_retries e))
        (wait_for attempt w))

  unfoldable pub attempt_reconnect : WebSocket F lib → WebSocket F lib × Bool
  unfolding attempts
  attempt_reconnect w = attempts w.outcomes w.max_retries 0 w

  -- the part of `send` and `recv` before the socket is used: whether to go on
  unfoldable pub ensure_connected : WebSocket F lib → WebSocket F lib × Bool
  unfolding attempt_reconnect
  ensure_connected w = if is_gone w.inner && w.reconnect then attempt_reconnect w else (w, true)

  abbrev sent : Text → Text → WebSocket F lib → S × Result Unit Text → WebSocket F lib × Bool
  sent name label w (s, ok _) = (record_metric name none (record w { inner = some s }), true)
  sent name label w (s, err e) =
      (record_metric name (some (label ++ e)) (record w { inner = some s }), false)

  unfoldable pub send_on :
      Text → Text → Message → Option S → WebSocket F lib → WebSocket F lib × Bool
  send_on name label m none w =
      (record_metric name (some (codes "WebSocket not connected")) w, false)
  send_on name label m (some s) w = sent name label w (send m s)

  abbrev send_connected : Text → WebSocket F lib × Bool → WebSocket F lib × Bool
  send_connected msg (w, false) = (
    record_metric (codes "ws::send") (some (codes "WebSocket not connected, reconnect failed")) w,
    false,
  )
  send_connected msg (w, true) =
      send_on (codes "ws::send") (codes "WS Send Error: ") (text msg) w.inner w

  -- `send`; the second part is whether it returned without an exception.
  unfoldable pub send_text : Text → WebSocket F lib → WebSocket F lib × Bool
  unfolding ensure_connected send_on
  send_text msg w = send_connected msg (ensure_connected w)

  abbrev send_decoded : Result Text Text → WebSocket F lib → WebSocket F lib × Bool
  send_decoded (err e) w =
      (record_metric (codes "ws::sendBinary") (some (codes "Base64 decode error: " ++ e)) w, false)
  send_decoded (ok bytes) w =
      send_on (codes "ws::sendBinary") (codes "WS SendBinary Error: ") (binary bytes) w.inner w

  unfoldable pub send_binary : Text → WebSocket F lib → WebSocket F lib × Bool
  unfolding send_on
  send_binary content w = send_decoded (decode content) w

  -- Only a frame that closes takes the socket away; an error leaves it.
  unfoldable pub read_result :
      WebSocket F lib → S × Result Message Text → WebSocket F lib × Option Value
  read_result w (s, ok m) = (
    record_metric (codes "ws::recv") none
        (record w { inner = if is_close m then none else some s }),
    some (value_of lib m),
  )
  read_result w (s, err e) = (
    record_metric (codes "ws::recv") (some (codes "WS Recv Error: " ++ e))
        (record w { inner = some s }),
    none,
  )

  unfoldable pub read_on : Option S → WebSocket F lib → WebSocket F lib × Option Value
  unfolding read_result
  read_on none w = (w, some null)
  read_on (some s) w = read_result w (read s)

  abbrev recv_connected : WebSocket F lib × Bool → WebSocket F lib × Option Value
  recv_connected (w, false) = (
    record_metric (codes "ws::recv") (some (codes "WebSocket not connected, reconnect failed")) w,
    some null,
  )
  recv_connected (w, true) = read_on w.inner w

  -- `recv`: the value, or none for an exception.
  unfoldable pub recv : WebSocket F lib → WebSocket F lib × Option Value
  unfolding ensure_connected read_on
  recv w = recv_connected (ensure_connected w)

  unfoldable pub close : WebSocket F lib → WebSocket F lib
  close w = record w { inner = none }
