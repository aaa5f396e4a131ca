-- ===== src/Sse.antt =====
-- src/bridge/sse.rs: the reader of server-sent events, and the client of a script. A stream is what its
-- calls of `read_line` return: lines with their ends, nothing at the end of the stream, or an error.
pub mod Events
pub mod Client
use fusillade.Prelude.{
  ℕ, Bool, true, false, ◌||◌, List, [], ◌∷◌, ◌++◌, Option, none, some, Text, codes, starts_with,
  strip_prefix, trim, trim_newlines, join, if◌then◌else◌, get_or, Result, ok, err, ◌==◌,
}
use fusillade.Stats.Types.{Metric, RequestTimings, request}
use fusillade.Http.Follow.{no_timings}

-- `ErrorKind`, and what the error is printed as.
pub data IoError : Type 0 where
  would_block timed_out interrupted : Text → IoError
  other : Text → IoError

abbrev pub is_transient : IoError → Bool
is_transient (other m) = false
is_transient _ = true

abbrev pub message_of : IoError → Text
message_of (would_block m) = m
message_of (timed_out m) = m
message_of (interrupted m) = m
message_of (other m) = m

abbrev pub Stream : Type 0
Stream = List (Result Text IoError)

pub record SseEvent : Type 0 where
  pub event : Option Text
  -- `data` of the code
  pub content : Text
  pub id : Option Text

-- The variables of the loop.
pub record Partial : Type 0 where
  pub event_type : Option Text
  pub data_lines : List Text
  pub id : Option Text
  pub has_content : Bool

abbrev pub nothing : Partial
nothing = record { event_type = none; data_lines = []; id = none; has_content = false }

unfoldable pub finish : Partial → Option SseEvent
finish p =
    if p.has_content
    then some (record { event = p.event_type; content = join (codes "\n") p.data_lines; id = p.id })
    else none

-- A line that is neither empty nor a comment.
unfoldable pub take_line : Text → Partial → Partial
take_line line p =
    let p' = record p { has_content = true } in
    elim (strip_prefix (codes "event:") line) [
      | some value ↦ record p' { event_type = some (trim value) }
      | none ↦ elim (strip_prefix (codes "data:") line) [
        | some value ↦ record p' { data_lines = p.data_lines ++ (trim value ∷ []) }
        | none ↦ elim (strip_prefix (codes "id:") line) [
          | some value ↦ record p' { id = some (trim value) }
          | none ↦ p'
        ]
      ]
    ]

-- what a line does to the event, if it does not end it
unfoldable pub add_line : Text → Partial → Partial
unfolding take_line
add_line line p = if starts_with line (codes ":") then p else take_line line p

-- A line without its end; an empty one ends the event, if there is one.
unfoldable pub on_line :
    Text
    → Stream
    → Partial
    → (Partial → Result (Option SseEvent) IoError × Stream)
    → Result (Option SseEvent) IoError × Stream
unfolding finish add_line
on_line [] rest p next = if p.has_content then (ok (finish p), rest) else next p
on_line (c ∷ cs) rest p next = next (add_line (c ∷ cs) p)

-- `read_sse_event`: the event, none at the end of the stream, or the error; and the rest of the stream.
unfoldable pub read_from : Stream → Partial → Result (Option SseEvent) IoError × Stream
unfolding on_line
read_from [] p = (ok (finish p), [])
read_from (err e ∷ rest) p = (err e, rest)
read_from (ok [] ∷ rest) p = (ok (finish p), rest)
read_from (ok (c ∷ cs) ∷ rest) p = on_line (trim_newlines (c ∷ cs)) rest p (read_from rest)

unfoldable pub read_sse_event : Stream → Result (Option SseEvent) IoError × Stream
unfolding read_from
read_sse_event s = read_from s nothing

-- `JsSseClient`; `inner` is gone once the stream has ended or failed.
pub record SseStream : Type 0 where
  pub reader : Stream
  pub last_event_id : Option Text

-- What a script is given.
pub record SseObject : Type 0 where
  pub event : Text
  -- `data` of the object
  pub content : Text
  pub id : Option Text

-- `make_metric`, of a call that lasted so long
unfoldable pub make_metric : {F : Type 0} → Text → Option Text → ℕ → Metric F
make_metric name error duration =
    request name (record no_timings { duration = duration; waiting = duration })
      (elim error [ none ↦ 200 | some _ ↦ 0 ]) error []

unfoldable pub object_of : SseEvent → SseObject
object_of e = record { event = get_or e.event (codes "message"); content = e.content; id = e.id }

unfoldable pub received :
    {F : Type 0}
    → ℕ
    → SseStream
    → Result (Option SseEvent) IoError × Stream
    → Option SseObject × List (Metric F) × Option SseStream
unfolding object_of make_metric
received duration s (ok (some e), rest) = (
  some (object_of e),
  make_metric (codes "sse::recv") none duration ∷ [],
  some (record {
    reader = rest;
    last_event_id = elim e.id [ none ↦ s.last_event_id | some i ↦ some i ];
  }),
)
received duration s (ok none, rest) = (none, [], none)
received duration s (err e, rest) = (
  none,
  make_metric (codes "sse::recv") (some (codes "SSE Read Error: " ++ message_of e)) duration ∷ [],
  if is_transient e then some (record s { reader = rest }) else none,
)

-- `recv`: the event or null, the metrics that are sent, and the client's stream.
unfoldable pub recv :
    {F : Type 0} → ℕ → Option SseStream → Option SseObject × List (Metric F) × Option SseStream
unfolding read_sse_event received
recv duration none = (none, [], none)
recv duration (some s) = received duration s (read_sse_event s.reader)

unfoldable pub close : Option SseStream → Option SseStream
close inner = none
