-- ===== src/Scenario.antt =====
-- `validate_scenario_name` of src/engine/mod.rs. `alphanumeric` is `char::is_alphanumeric`.
pub mod Apart
use fusillade.Prelude.{
  ℕ, Bool, true, false, not, ◌&&◌, ◌||◌, List, [], ◌∷◌, Text, ltb, ◌==◌, if◌then◌else◌, byte_len,
  Result, ok, err,
}

pub data NameError : Type 0 where
  empty_name : NameError
  too_long : NameError
  invalid_character : ℕ → NameError

module _ (alphanumeric : ℕ → Bool) where
  -- the loop over the characters
  unfoldable pub check_characters : Text → Result Unit NameError
  check_characters [] = ok tt
  check_characters (c ∷ cs) =
      let rest = check_characters cs in
      if not (alphanumeric c) && not (c == b'_') && not (c == b'-') && not (c == b'.')
      then err (invalid_character c)
      else rest

  unfoldable pub validate_scenario_name : Text → Result Unit NameError
  unfolding check_characters
  validate_scenario_name [] = err empty_name
  validate_scenario_name (c ∷ cs) =
      if ltb 64 (byte_len (c ∷ cs)) then err too_long else check_characters (c ∷ cs)
