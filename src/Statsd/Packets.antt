-- ===== src/Statsd/Packets.antt =====
-- The packets of an export, as the receiver splits them into lines.
use fusillade.Prelude.{
  ℕ, ◌≤◌, ◌⊎◌, inl, inr, ◌≡◌, ◌≢◌, refl, ap, ◌∙◌, Bool, true, false, List, [], ◌∷◌, ◌++◌, Text,
  byte_len, byte_len-append, arith, ◌==◌, if◌then◌else◌, All, append_assoc, Bool-cases, utf8_len,
}
use fusillade.Statsd.{export_loop, send_last, is_full, push_metric, max_packet_size}

abbrev prepend : ℕ → List Text → List Text
prepend c [] = (c ∷ []) ∷ []
prepend c (l ∷ ls) = (c ∷ l) ∷ ls

-- The lines of a packet.
unfoldable pub split_lines : Text → List Text
split_lines [] = [] ∷ []
split_lines (c ∷ cs) = if c == b'\n' then [] ∷ split_lines cs else prepend c (split_lines cs)

abbrev pub lines_of : List Text → List Text
lines_of [] = []
lines_of (p ∷ ps) = split_lines p ++ lines_of ps

-- A metric is not empty and has no line feed.
abbrev pub IsLine : Text → Type 0
IsLine m = (m ≢ []) × All (λ c. (c == b'\n') ≡ false) m

split_lines-line : (m : Text) → All (λ c. (c == b'\n') ≡ false) m → split_lines m ≡ m ∷ []
unfolding split_lines
split_lines-line [] h = refl
split_lines-line (c ∷ cs) h = rw h.0 (ap (prepend c) (split_lines-line cs h.1))

prepend-prepend :
    (c d : ℕ) (xs ls : List Text) → prepend c (prepend d xs ++ ls) ≡ prepend c (prepend d xs) ++ ls
prepend-prepend c d [] ls = refl
prepend-prepend c d (x ∷ xs) ls = refl

prepend-append :
    (c : ℕ) (a : Text) (ls : List Text)
    → prepend c (split_lines a ++ ls) ≡ prepend c (split_lines a) ++ ls
unfolding split_lines
prepend-append c [] ls = refl
prepend-append c (d ∷ a) ls = elim (Bool-cases (d == b'\n')) [
  | inl q ↦ rw q
  | inr q ↦ rw q (prepend-prepend c d (split_lines a) ls)
]

split_lines-append : (a b : Text) → split_lines (a ++ (b'\n' ∷ b)) ≡ split_lines a ++ split_lines b
unfolding split_lines
split_lines-append [] b = refl
split_lines-append (c ∷ a) b = elim (Bool-cases (c == b'\n')) [
  | inl q ↦ rw q (ap (λ ls. [] ∷ ls) (split_lines-append a b))
  | inr q ↦ rw q (ap (prepend c) (split_lines-append a b) ∙ prepend-append c a (split_lines b))
]

-- The lines of a batch: none if it is empty.
abbrev batch_lines : Text → List Text
batch_lines [] = []
batch_lines (c ∷ cs) = split_lines (c ∷ cs)

-- A packet of more bytes than the limit is one metric alone.
abbrev pub IsBounded : Text → Type 0
IsBounded p = (byte_len p ≤ max_packet_size) ⊎ (split_lines p ≡ p ∷ [])

batch_lines-push :
    (batch m : Text) → IsLine m → batch_lines (push_metric batch m) ≡ batch_lines batch ++ (m ∷ [])
batch_lines-push [] [] h = absurd (h.0 refl)
batch_lines-push [] (c ∷ m) h = split_lines-line (c ∷ m) h.1
batch_lines-push (c ∷ cs) m h =
    split_lines-append (c ∷ cs) m ∙ ap (λ ls. split_lines (c ∷ cs) ++ ls) (split_lines-line m h.1)

push-IsBounded :
    (batch m : Text) → IsLine m → is_full batch m ≡ false → IsBounded (push_metric batch m)
unfolding byte_len utf8_len
push-IsBounded [] m h f = inr (split_lines-line m h.1)
push-IsBounded (c ∷ cs) m h f = inl (ground (arith, byte_len-append (c ∷ cs) (b'\n' ∷ m), f))

module _ (send : Text → Bool) where
  -- The lines of what is sent, and its packets.
  abbrev Delivers : List Text × Bool → List Text → Type 0
  Delivers r lines = (r.1 ≡ true) → (lines_of r.0 ≡ lines) × All IsBounded r.0

  export_loop-full :
      (c : ℕ) (cs m : Text) (ms : List Text)
      → IsLine m
      → IsBounded (c ∷ cs)
      → Delivers (export_loop send m ms) (batch_lines m ++ ms)
      → is_full (c ∷ cs) m ≡ true
      → Delivers (export_loop send (c ∷ cs) (m ∷ ms)) (batch_lines (c ∷ cs) ++ (m ∷ ms))
  unfolding export_loop
  export_loop-full c cs m ms h b d f = elim (Bool-cases (send (c ∷ cs))) [
    | inl s ↦
        rw (f, s)
          (λ e.
            let (lines, bounded) = d e in
            (
              ap (λ ls. split_lines (c ∷ cs) ++ ls)
                  (lines ∙ ap (λ ls. ls ++ ms) (batch_lines-push [] m h)),
              (b, bounded),
            ))
    | inr s ↦ rw (f, s) (λ e. absurd (ground (arith, e)))
  ]

  export_loop_lem :
      (batch : Text) (ms : List Text)
      → All IsLine ms
      → IsBounded batch
      → Delivers (export_loop send batch ms) (batch_lines batch ++ ms)
  unfolding export_loop send_last
  export_loop_lem [] [] h b = λ e. (refl, tt)
  export_loop_lem (c ∷ cs) [] h b = λ e. (refl, (b, tt))
  export_loop_lem [] (m ∷ ms) h b = λ e.
      let (lines, bounded) = export_loop_lem m ms h.1 (inr (split_lines-line m (h.0).1)) e in
      (lines ∙ ap (λ ls. ls ++ ms) (batch_lines-push [] m h.0), bounded)
  export_loop_lem (c ∷ cs) (m ∷ ms) h b = elim (Bool-cases (is_full (c ∷ cs) m)) [
    | inl f ↦
        export_loop-full c cs m ms h.0 b
          (export_loop_lem m ms h.1 (inr (split_lines-line m (h.0).1))) f
    | inr f ↦ rw f (λ e.
        let (lines, bounded) =
          export_loop_lem (push_metric (c ∷ cs) m) ms h.1 (push-IsBounded (c ∷ cs) m h.0 f) e in
        (
          lines
              ∙ ap (λ ls. ls ++ ms) (batch_lines-push (c ∷ cs) m h.0)
              ∙ append_assoc (batch_lines (c ∷ cs)) (m ∷ []) ms,
          bounded,
        ))
  ]

  -- For metrics that are not empty and have no line feed, if the socket takes every packet, then the
  -- receiver reads from the packets the metrics, each once and in order, and a packet of more than
  -- 1400 bytes is one metric alone.
  pub export_loop-lines :
      (ms : List Text)
      → All IsLine ms
      → (export_loop send [] ms).1 ≡ true
      → (lines_of (export_loop send [] ms).0 ≡ ms) × All IsBounded (export_loop send [] ms).0
  unfolding byte_len
  export_loop-lines ms h e = export_loop_lem [] ms h (inl (omega arith)) e

-- A socket that takes every packet has taken them all.
pub export_loop-sent :
    (send : Text → Bool)
    → ((p : Text) → send p ≡ true)
    → (batch : Text) (ms : List Text) → (export_loop send batch ms).1 ≡ true
unfolding export_loop send_last
export_loop-sent send h [] [] = refl
export_loop-sent send h (c ∷ cs) [] = h (c ∷ cs)
export_loop-sent send h batch (m ∷ ms) =
    ground (
      arith,
      h batch,
      export_loop-sent send h m ms,
      export_loop-sent send h (push_metric batch m) ms,
    )
