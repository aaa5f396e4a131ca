-- ===== src/Duration/RoundTrip.antt =====
-- What `parse_duration` makes of the text that `format_duration` gives.
use mathlib.Core.List.{reverse-append, reverse-reverse}
use fusillade.Prelude.{
  Bool-cases, inl, inr, ℕ, ◌*◌, ◌/◌, ◌%◌, ◌<◌, ◌≡◌, refl, ◌∙◌, ap, sym, true, false, [], ◌∷◌, ◌++◌,
  Option, none, some, reverse, Text, codes, arith, ltb, ◌==◌, if◌then◌else◌, is_digit, parse_u64,
  parse_digits, parse-show, show_ℕ, show_ℕ-last, u64_mod, bind, append_assoc, ==_iff, parse_first,
  parse_digits-append, parse_digits-show, show_ℕ-first,
}
use native.Mathlib.Nat.{mod-eq_of_lt}
use fusillade.Float.{nanos_per_sec}
use fusillade.Duration.{
  strip_ms, strip_char, trim_end_ms, trim_end_char, unit_of_end, parse_in_unit, parse_duration,
  format_duration, from_millis, from_secs, s,
}

strip_ms_digit : (c : ℕ) (r : Text) → is_digit c ≡ true → strip_ms (c ∷ r) ≡ c ∷ r
unfolding strip_ms
strip_ms_digit c [] d = refl
strip_ms_digit c (b ∷ r) d = ground arith

strip_char_digit :
    (k c : ℕ) (r : Text) → is_digit c ≡ true → is_digit k ≡ false → strip_char k (c ∷ r) ≡ c ∷ r
unfolding strip_char
strip_char_digit k c r d e = ground arith

-- `xs ++ c ∷ []` backwards.
backwards : (xs : Text) (c : ℕ) → reverse (xs ++ (c ∷ [])) ≡ c ∷ reverse xs
backwards xs c = reverse-append xs (c ∷ [])

trim_end_ms_digit :
    (xs : Text) (c : ℕ)
    → is_digit c ≡ true
    → trim_end_ms ((xs ++ (c ∷ [])) ++ codes "ms") ≡ xs ++ (c ∷ [])
unfolding trim_end_ms strip_ms
trim_end_ms_digit xs c d =
    ap (λ r. reverse (strip_ms r)) (reverse-append (xs ++ (c ∷ [])) (codes "ms"))
    ∙ ap (λ r. reverse (strip_ms (b's' ∷ b'm' ∷ r))) (backwards xs c)
    ∙ ap reverse (strip_ms_digit c (reverse xs) d ∙ sym (backwards xs c))
    ∙ reverse-reverse (xs ++ (c ∷ []))

trim_end_char_digit :
    (k : ℕ) (xs : Text) (c : ℕ)
    → is_digit c ≡ true
    → is_digit k ≡ false
    → trim_end_char k ((xs ++ (c ∷ [])) ++ (k ∷ [])) ≡ xs ++ (c ∷ [])
unfolding trim_end_char
trim_end_char_digit k xs c d e =
    ap (λ r. reverse (strip_char k r))
      (backwards (xs ++ (c ∷ [])) k ∙ ap (λ r. k ∷ r) (backwards xs c))
    ∙ ap reverse (strip_self ∙ strip_char_digit k c (reverse xs) d e ∙ sym (backwards xs c))
    ∙ reverse-reverse (xs ++ (c ∷ []))
  where
    strip_self : strip_char k (k ∷ c ∷ reverse xs) ≡ strip_char k (c ∷ reverse xs)
    strip_self = unfold strip_char in rw ((==_iff k k).1 refl)

-- The text of a number, whatever stands before it, and a suffix.
module _ (xs : Text) (c : ℕ) (d : is_digit c ≡ true) where
  parse_duration_ms :
      parse_duration ((xs ++ (c ∷ [])) ++ codes "ms")
      ≡ bind (parse_u64 (xs ++ (c ∷ []))) (λ n. some (from_millis n))
  unfolding parse_duration unit_of_end parse_in_unit
  parse_duration_ms =
      ap (λ r. parse_in_unit (unit_of_end r) ((xs ++ (c ∷ [])) ++ codes "ms"))
        (reverse-append (xs ++ (c ∷ [])) (codes "ms"))
      ∙ ap (λ r. bind (parse_u64 r) (λ n. some (from_millis n))) (trim_end_ms_digit xs c d)

  parse_duration_s :
      parse_duration ((xs ++ (c ∷ [])) ++ codes "s")
      ≡ bind (parse_u64 (xs ++ (c ∷ []))) (λ n. some (from_secs n))
  unfolding parse_duration unit_of_end parse_in_unit
  parse_duration_s =
      ap (λ r. parse_in_unit (unit_of_end r) ((xs ++ (c ∷ [])) ++ codes "s"))
        (backwards (xs ++ (c ∷ [])) b's' ∙ ap (λ r. b's' ∷ r) (backwards xs c))
      ∙ ap (λ u. parse_in_unit u ((xs ++ (c ∷ [])) ++ codes "s")) seconds_unit
      ∙ ap (λ r. bind (parse_u64 r) (λ n. some (from_secs n)))
          (trim_end_char_digit b's' xs c d refl)
    where
      seconds_unit : unit_of_end (b's' ∷ c ∷ reverse xs) ≡ s
      seconds_unit = ground arith

  parse_duration_m :
      parse_duration ((xs ++ (c ∷ [])) ++ codes "m")
      ≡ bind (parse_u64 (xs ++ (c ∷ []))) (λ n. some (from_secs ((n * 60) % u64_mod)))
  unfolding parse_duration unit_of_end parse_in_unit
  parse_duration_m =
      ap (λ r. parse_in_unit (unit_of_end r) ((xs ++ (c ∷ [])) ++ codes "m"))
        (backwards (xs ++ (c ∷ [])) b'm' ∙ ap (λ r. b'm' ∷ r) (backwards xs c))
      ∙ ap (λ r. bind (parse_u64 r) (λ n. some (from_secs ((n * 60) % u64_mod))))
          (trim_end_char_digit b'm' xs c d refl)

-- A number that is followed by a letter is no `u64`.
parse_u64_compound :
    (n k : ℕ) (rest : Text)
    → n < u64_mod
    → is_digit k ≡ false
    → parse_u64 (show_ℕ n ++ (k ∷ rest)) ≡ none
unfolding parse_digits
parse_u64_compound n k rest b e =
    let (c, xs, f, d) = show_ℕ-first n in
    rw f (parse_first c (xs ++ (k ∷ rest)) d)
    ∙ ap (λ t. parse_digits 0 (t ++ (k ∷ rest))) (sym f)
    ∙ parse_digits-append (show_ℕ n) (k ∷ rest) 0
    ∙ ap (λ o. bind o (λ a. parse_digits a (k ∷ rest))) (parse_digits-show n b)
    ∙ rw e

-- What `parse_duration` reads back: nothing of a text of two units.
abbrev pub readable : ℕ → Option ℕ
readable d =
    let total_secs = d / nanos_per_sec in
    let millis = d % nanos_per_sec / 1_000_000 in
    if total_secs == 0
    then some (from_millis millis)
    else if ltb total_secs 60
    then if ltb 0 millis then none else some (from_secs total_secs)
    else if ltb 0 (total_secs % 60)
    then none
    else some (from_secs total_secs)

-- The text of a number with a suffix, as it is read.
read_ms : (n : ℕ) → n < u64_mod → parse_duration (show_ℕ n ++ codes "ms") ≡ some (from_millis n)
read_ms n b =
    let (xs, c, e, d) = show_ℕ-last n in
    ap (λ t. parse_duration (t ++ codes "ms")) e
    ∙ parse_duration_ms xs c d
    ∙ ap (λ t. bind (parse_u64 t) (λ n. some (from_millis n))) (sym e)
    ∙ ap (λ o. bind o (λ n. some (from_millis n))) (parse-show n b)

read_s : (n : ℕ) → n < u64_mod → parse_duration (show_ℕ n ++ codes "s") ≡ some (from_secs n)
read_s n b =
    let (xs, c, e, d) = show_ℕ-last n in
    ap (λ t. parse_duration (t ++ codes "s")) e
    ∙ parse_duration_s xs c d
    ∙ ap (λ t. bind (parse_u64 t) (λ n. some (from_secs n))) (sym e)
    ∙ ap (λ o. bind o (λ n. some (from_secs n))) (parse-show n b)

read_m :
    (n : ℕ) → n * 60 < u64_mod → parse_duration (show_ℕ n ++ codes "m") ≡ some (from_secs (n * 60))
read_m n b =
    let (xs, c, e, d) = show_ℕ-last n in
    let wraps = λ (n : ℕ). some (from_secs ((n * 60) % u64_mod)) in
    ap (λ t. parse_duration (t ++ codes "m")) e
    ∙ parse_duration_m xs c d
    ∙ ap (λ t. bind (parse_u64 t) wraps) (sym e)
    ∙ ap (λ o. bind o wraps) (parse-show n (omega arith))
    ∙ ap (λ k. some (from_secs k)) (mod-eq_of_lt b)

refuse_ms :
    (n k : ℕ)
    → n < u64_mod
    → parse_duration (show_ℕ n ++ (codes "s" ++ (show_ℕ k ++ codes "ms"))) ≡ none
refuse_ms n k b =
    let (ys, c, e, d) = show_ℕ-last k in
    let xs = show_ℕ n ++ (b's' ∷ ys) in
    ap (λ t. parse_duration (show_ℕ n ++ (codes "s" ++ (t ++ codes "ms")))) e
    ∙ ap parse_duration (simp append_assoc)
    ∙ parse_duration_ms xs c d
    ∙ ap (λ t. bind (parse_u64 t) (λ n. some (from_millis n)))
        (append_assoc (show_ℕ n) (b's' ∷ ys) (c ∷ []))
    ∙ ap (λ o. bind o (λ n. some (from_millis n)))
        (parse_u64_compound n b's' (ys ++ (c ∷ [])) b refl)

refuse_s :
    (n k : ℕ)
    → n < u64_mod
    → parse_duration (show_ℕ n ++ (codes "m" ++ (show_ℕ k ++ codes "s"))) ≡ none
refuse_s n k b =
    let (ys, c, e, d) = show_ℕ-last k in
    let xs = show_ℕ n ++ (b'm' ∷ ys) in
    ap (λ t. parse_duration (show_ℕ n ++ (codes "m" ++ (t ++ codes "s")))) e
    ∙ ap parse_duration (simp append_assoc)
    ∙ parse_duration_s xs c d
    ∙ ap (λ t. bind (parse_u64 t) (λ n. some (from_secs n)))
        (append_assoc (show_ℕ n) (b'm' ∷ ys) (c ∷ []))
    ∙ ap (λ o. bind o (λ n. some (from_secs n))) (parse_u64_compound n b'm' (ys ++ (c ∷ [])) b refl)

-- Of a formatted duration whose seconds fit a `u64`, `parse_duration` gives back the whole milliseconds below a second, whole
-- seconds below a minute, and whole minutes; a text of two units, such as "1m30s", it refuses.
pub parse-format_duration :
    (d : ℕ) → d / nanos_per_sec < u64_mod → parse_duration (format_duration d) ≡ readable d
unfolding format_duration
parse-format_duration d b = elim (Bool-cases (d / nanos_per_sec == 0)) [
  | inl zero_secs ↦ rw zero_secs (read_ms (d % nanos_per_sec / 1_000_000) (omega arith))
  | inr some_secs ↦ elim (Bool-cases (ltb (d / nanos_per_sec) 60)) [
    | inl below ↦ elim (Bool-cases (ltb 0 (d % nanos_per_sec / 1_000_000))) [
      | inl millis ↦
          rw (some_secs, below, millis)
            (refuse_ms (d / nanos_per_sec) (d % nanos_per_sec / 1_000_000) b)
      | inr whole ↦ rw (some_secs, below, whole) (read_s (d / nanos_per_sec) b)
    ]
    | inr above ↦ elim (Bool-cases (ltb 0 (d / nanos_per_sec % 60))) [
      | inl secs ↦
          rw (some_secs, above, secs)
            (refuse_s (d / nanos_per_sec / 60) (d / nanos_per_sec % 60) (omega arith))
      | inr whole ↦
          let e : d / nanos_per_sec / 60 * 60 ≡ d / nanos_per_sec = ground arith in
          rw (some_secs, above, whole)
            (read_m (d / nanos_per_sec / 60) (omega (arith, e)) ∙ ap (λ n. some (from_secs n)) e)
    ]
  ]
]

-- The engine refuses every duration in hours.
parse_duration_hours : (t : Text) → parse_duration (t ++ codes "h") ≡ none
unfolding parse_duration unit_of_end parse_in_unit
parse_duration_hours t =
    ap (λ r. parse_in_unit (unit_of_end r) (t ++ codes "h")) (backwards t b'h') ∙ hours (reverse t)
  where
    hours : (r : Text) → parse_in_unit (unit_of_end (b'h' ∷ r)) (t ++ codes "h") ≡ none
    hours [] = refl
    hours (b ∷ r) = refl
