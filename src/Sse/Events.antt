-- ===== src/Sse/Events.antt =====
-- Events that are printed as a server sends them, and read by `read_sse_event` of src/bridge/sse.rs.
use fusillade.Prelude.{
  ℕ, Bool, true, false, ◌||◌, List, [], ◌∷◌, ◌++◌, Option, none, some, Text, codes, trim,
  trim_newlines, keep_or_trim, trim_start, join, starts_with, Result, ok, ◌==◌, ◌≡◌, refl, ap, sym,
  ◌∙◌, All, append_assoc, append-nil, is_whitespace,
}
use fusillade.Sse.{
  IoError, Stream, Partial, nothing, finish, take_line, add_line, on_line, read_from,
  read_sse_event,
}

abbrev is_newline : ℕ → Bool
is_newline c = c == b'\n' || c == b'\r'

-- The value of a field: it has no line breaks, and no white space at its ends.
abbrev pub IsValue : Text → Type 0
IsValue v = All (λ c. is_newline c ≡ false) v × (trim v ≡ v)

-- one line of an event, with its end
abbrev pub field_line : Text → Text → Result Text IoError
field_line name v = ok (name ++ (b':' ∷ b' ' ∷ (v ++ (b'\n' ∷ []))))

abbrev pub data_of : List Text → Stream
data_of [] = []
data_of (v ∷ vs) = field_line (codes "data") v ∷ data_of vs

abbrev pub field_of : Text → Option Text → Stream
field_of name none = []
field_of name (some v) = field_line name v ∷ []

-- The lines of an event as a server prints it: the type, the lines of the text, the number, and an empty
-- line; and what follows.
abbrev pub printed : Option Text → List Text → Option Text → Stream → Stream
printed event text id rest =
    field_of (codes "event") event
    ++ (data_of text ++ (field_of (codes "id") id ++ (ok (codes "\n") ∷ rest)))

abbrev pub IsValue? : Option Text → Type 0
IsValue? none = Unit {0}
IsValue? (some v) = IsValue v

trim_newlines-end :
    (xs : Text) → All (λ c. is_newline c ≡ false) xs → trim_newlines (xs ++ (b'\n' ∷ [])) ≡ xs
unfolding trim_newlines
trim_newlines-end [] h = refl
trim_newlines-end (c ∷ []) h = rw h.0 refl
trim_newlines-end (c ∷ d ∷ cs) h = ap (keep_or_trim c) (trim_newlines-end (d ∷ cs) h.1)

trim-space : (v : Text) → trim (b' ' ∷ v) ≡ trim v
unfolding trim trim_start is_whitespace
trim-space v = refl

-- A line of a printed event is read without its end.
read-line :
    (c : ℕ) (cs : Text) (rest : Stream) (p : Partial)
    → All (λ c. is_newline c ≡ false) (c ∷ cs)
    → read_from (ok (c ∷ (cs ++ (b'\n' ∷ []))) ∷ rest) p ≡ read_from rest (add_line (c ∷ cs) p)
unfolding read_from
read-line c cs rest p h = ap (λ l. on_line l rest p (read_from rest)) (trim_newlines-end (c ∷ cs) h)

-- the variables of the loop once it holds a line
abbrev held : Option Text → List Text → Option Text → Partial
held event text id = record { event_type = event; data_lines = text; id = id; has_content = true }

read-event :
    (v : Option Text) (rest : Stream)
    → IsValue? v
    → read_from (field_of (codes "event") v ++ rest) nothing
      ≡ read_from rest
          (record nothing { event_type = v; has_content = elim v [ none ↦ false | some _ ↦ true ] })
unfolding add_line take_line starts_with
read-event none rest h = refl
read-event (some v) rest h =
    read-line b'e' (codes "vent: " ++ v) rest nothing
      (refl, (refl, (refl, (refl, (refl, (refl, (refl, h.0)))))))
    ∙ ap (λ l. read_from rest (record nothing { event_type = some l; has_content = true }))
        (trim-space v ∙ h.1)

read-datum :
    (v : Text) (rest : Stream) (event : Option Text) (text : List Text) (c : Bool)
    → IsValue v
    → read_from
        (field_line (codes "data") v ∷ rest)
        (record { event_type = event; data_lines = text; id = none; has_content = c })
      ≡ read_from rest (held event (text ++ (v ∷ [])) none)
unfolding add_line take_line starts_with
read-datum v rest event text c h =
    read-line b'd' (codes "ata: " ++ v) rest _ (refl, (refl, (refl, (refl, (refl, (refl, h.0))))))
    ∙ ap (λ l. read_from rest (held event (text ++ (l ∷ [])) none)) (trim-space v ∙ h.1)

read-data :
    (vs : List Text) (rest : Stream) (event : Option Text) (text : List Text)
    → All IsValue vs
    → read_from (data_of vs ++ rest) (held event text none)
      ≡ read_from rest (held event (text ++ vs) none)
read-data [] rest event text h =
    ap (λ l. read_from rest (held event l none)) (sym (append-nil text))
read-data (v ∷ vs) rest event text h =
    read-datum v (data_of vs ++ rest) event text true h.0
    ∙ read-data vs rest event (text ++ (v ∷ [])) h.1
    ∙ ap (λ l. read_from rest (held event l none)) (append_assoc text (v ∷ []) vs)

read-id :
    (v : Option Text) (rest : Stream) (event : Option Text) (text : List Text)
    → IsValue? v
    → read_from (field_of (codes "id") v ++ rest) (held event text none)
      ≡ read_from rest (held event text v)
unfolding add_line take_line starts_with
read-id none rest event text h = refl
read-id (some v) rest event text h =
    read-line b'i' (codes "d: " ++ v) rest _ (refl, (refl, (refl, (refl, h.0))))
    ∙ ap (λ l. read_from rest (held event text (some l))) (trim-space v ∙ h.1)

read-end :
    (event : Option Text) (text : List Text) (id : Option Text) (rest : Stream)
    → read_from (ok (codes "\n") ∷ rest) (held event text id)
      ≡ (ok (some (record { event = event; content = join (codes "\n") text; id = id })), rest)
unfolding read_from on_line finish trim_newlines
read-end event text id rest = refl

-- Reading undoes printing, whatever follows.
pub read-printed :
    (event : Option Text) (v : Text) (vs : List Text) (id : Option Text) (rest : Stream)
    → IsValue? event
    → All IsValue (v ∷ vs)
    → IsValue? id
    → read_sse_event (printed event (v ∷ vs) id rest)
      ≡ (ok (some (record { event = event; content = join (codes "\n") (v ∷ vs); id = id })), rest)
unfolding read_sse_event
read-printed event v vs id rest he hv hi =
    let tail = field_of (codes "id") id ++ (ok (codes "\n") ∷ rest) in
    read-event event (data_of (v ∷ vs) ++ tail) he
    ∙ read-datum v (data_of vs ++ tail) event [] _ hv.0
    ∙ read-data vs tail event (v ∷ []) hv.1
    ∙ read-id id (ok (codes "\n") ∷ rest) event (v ∷ vs) hi
    ∙ read-end event (v ∷ vs) id rest
