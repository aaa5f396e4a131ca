-- ===== src/Duration.antt =====
-- Durations as text: `parse_duration_str`, `parse_duration` and `format_duration` of
-- src/engine/mod.rs, and src/utils.rs. A `Duration` is its count of nanoseconds.
pub mod RoundTrip
use fusillade.Prelude.{
  ℕ, ◌+◌, ◌*◌, ◌/◌, ◌%◌, Bool, true, false, ◌&&◌, List, [], ◌∷◌, ◌++◌, Option, none, some, reverse,
  Text, codes, trim, take, ltb, ◌==◌, if◌then◌else◌, parse_u64, show_ℕ, u64_mod, bind,
}
use fusillade.Float.{Float, nanos_per_sec}

-- `Duration::from_millis` and `Duration::from_secs`
abbrev pub from_millis : ℕ → ℕ
from_millis ms = ms * 1_000_000

abbrev pub from_secs : ℕ → ℕ
from_secs s = s * nanos_per_sec

-- What a duration ends in, in the order in which the program asks.
pub data TimeUnit : Type 0 where
  ms s m h other : TimeUnit

-- The unit of a text, given from its end, and the end of the text without any such suffix:
-- `trim_end_matches` takes it off as often as it is there.
unfoldable pub strip_ms : Text → Text
strip_ms (a ∷ b ∷ r) = let rest = strip_ms r in if a == b's' && b == b'm' then rest else a ∷ b ∷ r
strip_ms r = r

unfoldable pub strip_char : ℕ → Text → Text
strip_char c [] = []
strip_char c (a ∷ r) = let rest = strip_char c r in if a == c then rest else a ∷ r

unfoldable pub trim_end_ms : Text → Text
unfolding strip_ms
trim_end_ms t = reverse (strip_ms (reverse t))

unfoldable pub trim_end_char : ℕ → Text → Text
unfolding strip_char
trim_end_char c t = reverse (strip_char c (reverse t))

-- `ends_with` of "ms", 's', 'm' and 'h', asked in this order.
unfoldable pub unit_of_end : Text → TimeUnit
unit_of_end [] = other
unit_of_end (a ∷ []) =
    if a == b's' then s else if a == b'm' then m else if a == b'h' then h else other
unit_of_end (a ∷ b ∷ r) =
    if a == b's' && b == b'm'
    then ms
    else if a == b's'
    then s
    else if a == b'm'
    then m
    else if a == b'h'
    then h
    else other

-- `parse_duration` of the engine, with `none` for its errors. It knows no hours, and `mins * 60`
-- wraps.
unfoldable pub parse_in_unit : TimeUnit → Text → Option ℕ
unfolding trim_end_ms trim_end_char
parse_in_unit ms d = bind (parse_u64 (trim_end_ms d)) (λ n. some (from_millis n))
parse_in_unit s d = bind (parse_u64 (trim_end_char b's' d)) (λ n. some (from_secs n))
parse_in_unit m d =
    bind (parse_u64 (trim_end_char b'm' d)) (λ n. some (from_secs ((n * 60) % u64_mod)))
parse_in_unit _ d = none

unfoldable pub parse_duration : Text → Option ℕ
unfolding unit_of_end parse_in_unit
parse_duration d = parse_in_unit (unit_of_end (reverse d)) d

-- `parse_duration_str` of the engine: a bare integer is a number of milliseconds.
unfoldable pub parse_duration_str : Text → Option ℕ
unfolding parse_duration
parse_duration_str t = elim (parse_duration t) [
  | some d ↦ some d
  | none ↦ bind (parse_u64 t) (λ n. some (from_millis n))
]

-- `format_duration` of the engine.
unfoldable pub format_duration : ℕ → Text
unfolding show_ℕ
format_duration d =
    let total_secs = d / nanos_per_sec in
    let millis = d % nanos_per_sec / 1_000_000 in
    if total_secs == 0
    then show_ℕ millis ++ codes "ms"
    else if ltb total_secs 60
    then if ltb 0 millis
      then show_ℕ total_secs ++ (codes "s" ++ (show_ℕ millis ++ codes "ms"))
      else show_ℕ total_secs ++ codes "s"
    else if ltb 0 (total_secs % 60)
    then show_ℕ (total_secs / 60) ++ (codes "m" ++ (show_ℕ (total_secs % 60) ++ codes "s"))
    else show_ℕ (total_secs / 60) ++ codes "m"

-- The outcome of `utils::parse_duration_str`. `Duration::from_secs_f64` panics at a negative
-- number, at one that is too large and at NaN.
pub data Parsed : Type 0 where
  duration : ℕ → Parsed
  invalid : Parsed
  panics : Parsed

abbrev pub from_option : Option ℕ → Parsed
from_option none = invalid
from_option (some n) = duration n

-- `from_secs_f64` is a parameter: `none` is its panic.
module _ (fl : Float) (from_secs_f64 : fl.F → Option ℕ) where
  abbrev pub seconds : Option fl.F → Parsed
  seconds none = invalid
  seconds (some x) = elim (from_secs_f64 x) [ none ↦ panics | some d ↦ duration d ]

  abbrev pub times : ℕ → Option fl.F → Option fl.F
  times k none = none
  times k (some x) = some (fl.mul x (fl.of_nat k))

  unfoldable pub parse_str_in_unit : TimeUnit → Text → Parsed
  unfolding trim_end_ms trim_end_char
  parse_str_in_unit ms t =
      from_option (bind (parse_u64 (trim_end_ms t)) (λ n. some (from_millis n)))
  parse_str_in_unit s t = seconds (fl.parse (trim_end_char b's' t))
  parse_str_in_unit m t = seconds (times 60 (fl.parse (trim_end_char b'm' t)))
  parse_str_in_unit h t = seconds (times 3600 (fl.parse (trim_end_char b'h' t)))
  parse_str_in_unit other t = from_option (bind (parse_u64 t) (λ n. some (from_millis n)))

  -- `parse_duration_str` of src/utils.rs
  unfoldable pub parse_str : Text → Parsed
  unfolding unit_of_end parse_str_in_unit trim
  parse_str text = let t = trim text in parse_str_in_unit (unit_of_end (reverse t)) t

  abbrev or_default : ℕ → Parsed → Parsed
  or_default secs (duration d) = duration d
  or_default secs invalid = duration (from_secs secs)
  or_default secs panics = panics

  -- `parse_duration_str_or_warn`, without the warning
  unfoldable pub parse_str_or_warn : Text → ℕ → Parsed
  unfolding parse_str
  parse_str_or_warn text default_secs = or_default default_secs (parse_str text)

-- `safe_truncate`
unfoldable pub safe_truncate : Text → ℕ → Text
safe_truncate t max_chars = take max_chars t
