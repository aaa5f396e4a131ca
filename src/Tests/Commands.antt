-- ===== src/Tests/Commands.antt =====
-- The theorems on the control, the durations and the configuration at concrete inputs.
use fusillade.Prelude.{
  ℕ, ◌+◌, ◌-◌, ◌≡◌, refl, List, [], ◌∷◌, some, codes, arith, text_key, nat_key, is_whitespace,
}
use fusillade.Control.{tag, new, do_pause, total_paused, parse_control_command}
use fusillade.Control.Pauses.{Pause, run, total_paused_exact}
use fusillade.Control.Commands.{IsTypable, parse-print_command}
use fusillade.Duration.{parse_duration, format_duration}
use fusillade.Duration.RoundTrip.{parse-format_duration}
use fusillade.Config.{Config, default}
use fusillade.Config.Priority.{merge_all, strongest, merge_all-strongest}

abbrev pauses : List Pause
pauses = record { from = 10; to = 25 } ∷ record { from = 40; to = 45 } ∷ []

total_paused_exact_example :
    (total_paused 75 (run pauses (new 4)) ≡ 20)
    × (total_paused 75 (do_pause 70 (run pauses (new 4))) ≡ 20 + (75 - 70))
total_paused_exact_example =
    total_paused_exact 4 pauses 60 70 75
      (omega arith, omega arith, (omega arith, omega arith, omega arith)) (omega arith)
      (omega arith) (omega arith)

typable : IsTypable (tag (codes "build") (codes "7"))
unfolding is_whitespace
typable = (
  (refl, (refl, (refl, (refl, (refl, tt))))),
  (refl, (refl, (refl, (refl, (refl, tt))))),
  (refl, tt),
)

parse-print_command_example :
    parse_control_command (codes "tag build=7") ≡ some (tag (codes "build") (codes "7"))
parse-print_command_example = parse-print_command (tag (codes "build") (codes "7")) typable

parse-format_duration_example :
    parse_duration (format_duration 120_000_000_000) ≡ some 120_000_000_000
parse-format_duration_example = parse-format_duration 120_000_000_000 (omega arith)

abbrev script : Config ℕ
script = record default { workers = some 10; duration = some (codes "30s") }

abbrev file : Config ℕ
file = record default { workers = some 20 }

abbrev command_line : Config ℕ
command_line = record default { duration = some (codes "1m") }

merge_all-strongest_example :
    merge_all (script ∷ file ∷ command_line ∷ []) default
    ≡ strongest (script ∷ file ∷ command_line ∷ [])
merge_all-strongest_example = merge_all-strongest (script ∷ file ∷ command_line ∷ [])
