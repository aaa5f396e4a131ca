-- ===== src/Sse/Client.antt =====
-- `recv` of src/bridge/sse.rs, on events that are printed as a server sends them and on streams that fail.
use fusillade.Prelude.{
  ℕ, List, [], ◌∷◌, ◌++◌, Option, none, some, Text, codes, trim_newlines, join, get_or,
  if◌then◌else◌, Result, ok, err, ◌≡◌, ◌≢◌, refl, ap, All,
}
use fusillade.Sse.{
  IoError, is_transient, message_of, Stream, Partial, nothing, on_line, read_from, read_sse_event,
  make_metric, received, recv,
}
use fusillade.Sse.Events.{IsValue, IsValue?, printed, read-printed}

module _ (F : Type 0) (duration : ℕ) (last : Option Text) where
  -- Where the type, the lines of the text and the number of an event have no line breaks and no white
  -- space at their ends, a script gets the event that a server printed: its type, or "message" if it has
  -- none, the lines of its text, at least one, and its number, which the client keeps; what follows is
  -- left for later.
  pub recv-printed :
      (event : Option Text) (v : Text) (vs : List Text) (id : Option Text) (rest : Stream)
      → IsValue? event
      → All IsValue (v ∷ vs)
      → IsValue? id
      → recv {F = F} duration
          (some (record { reader = printed event (v ∷ vs) id rest; last_event_id = last }))
        ≡ (
          some (record {
            event = get_or event (codes "message");
            content = join (codes "\n") (v ∷ vs);
            id = id;
          }),
          make_metric (codes "sse::recv") none duration ∷ [],
          some
              (record { reader = rest; last_event_id = elim id [ none ↦ last | some i ↦ some i ] }),
        )
  unfolding recv received
  recv-printed event v vs id rest he hv hi =
      ap
        (received duration
          (record { reader = printed event (v ∷ vs) id rest; last_event_id = last }))
        (read-printed event v vs id rest he hv hi)

abbrev pub lines : List Text → Stream → Stream
lines [] rest = rest
lines (l ∷ ls) rest = ok l ∷ lines ls rest

-- A line that is not the end of an event.
abbrev pub IsField : Text → Type 0
IsField l = trim_newlines l ≢ []

on_line-field :
    (l : Text) (rest : Stream) (p : Partial) (next : Partial → Result _ IoError × Stream)
    (r : Result _ IoError × Stream)
    → l ≢ []
    → ((q : Partial) → next q ≡ r)
    → on_line l rest p next ≡ r
unfolding on_line
on_line-field [] rest p next r h k = absurd (h refl)
on_line-field (c ∷ cs) rest p next r h k = k _

read-interrupted :
    (ls : List Text) (e : IoError) (rest : Stream) (p : Partial)
    → All IsField ls
    → read_from (lines ls (err e ∷ rest)) p ≡ (err e, rest)
unfolding read_from trim_newlines
read-interrupted [] e rest p h = refl
read-interrupted ([] ∷ ls) e rest p h = absurd (h.0 refl)
read-interrupted ((c ∷ cs) ∷ ls) e rest p h =
    on_line-field (trim_newlines (c ∷ cs)) (lines ls (err e ∷ rest)) p
      (read_from (lines ls (err e ∷ rest))) (err e, rest) h.0
      (λ q. read-interrupted ls e rest q h.1)

-- An error in the middle of an event: a script gets null, and the lines that were read are lost, also
-- where the connection is kept since the error is transient. The metric has the status 0.
pub recv-interrupted :
    (F : Type 0) (duration : ℕ) (last : Option Text) (ls : List Text) (e : IoError) (rest : Stream)
    → All IsField ls
    → recv {F = F} duration
        (some (record { reader = lines ls (err e ∷ rest); last_event_id = last }))
      ≡ (
        none,
        make_metric (codes "sse::recv") (some (codes "SSE Read Error: " ++ message_of e)) duration
            ∷ [],
        if is_transient e then some (record { reader = rest; last_event_id = last }) else none,
      )
unfolding recv received read_sse_event
recv-interrupted F duration last ls e rest h =
    ap (received duration (record { reader = lines ls (err e ∷ rest); last_event_id = last }))
      (read-interrupted ls e rest nothing h)
