-- ===== src/Float.antt =====
-- What the program takes from outside its own sources: IEEE 754 doubles, as an interface. Literals
-- are written `of_nat n`; a comparison `a > b` is `lt b a`.
use fusillade.Prelude.{ℕ, Bool, Option, Text, ◌/◌, ◌%◌}

pub record Float : Type 1 where
  pub F : Type 0
  -- `n as f64`
  pub of_nat : ℕ → F
  pub add : F → F → F
  pub sub : F → F → F
  pub mul : F → F → F
  pub div : F → F → F
  pub abs : F → F
  pub epsilon : F
  pub lt : F → F → Bool
  pub le : F → F → Bool
  -- `x as u64` and `x as usize`: truncated, and held within the range of the type
  pub to_nat : F → ℕ
  -- `str::parse::<f64>`
  pub parse : Text → Option F
  -- `{}`
  pub display : F → Text
  -- `{:.n}`
  pub fixed : ℕ → F → Text

abbrev pub nanos_per_sec : ℕ
nanos_per_sec = 1_000_000_000

-- `Duration::as_millis` and `Duration::as_micros` of a count of nanoseconds.
abbrev pub as_millis : ℕ → ℕ
as_millis d = d / 1_000_000

abbrev pub as_micros : ℕ → ℕ
as_micros d = d / 1000

-- `Duration::as_secs_f64`
unfoldable pub as_secs_f64 : (fl : Float) → ℕ → fl.F
as_secs_f64 fl d =
    fl.add (fl.of_nat (d / nanos_per_sec))
      (fl.div (fl.of_nat (d % nanos_per_sec)) (fl.of_nat nanos_per_sec))
