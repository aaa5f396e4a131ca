-- ===== src/Engine/Iterations/Counted.antt =====
-- What the iterations of a scenario in src/engine/mod.rs do to the statistics that its thresholds are checked
-- against.
use fusillade.Prelude.{
  ℕ, ◌+◌, List, [], ◌∷◌, ◌++◌, Text, codes, if◌then◌else◌, starts_with, text_key,
}
use fusillade.Float.{Float}
use fusillade.Stats.Types.{HistogramLib, RequestStats}
use fusillade.Stats.Add.{Agg}

module _ (fl : Float) (hl : HistogramLib) (prefix : Text) where
  -- The requests of the endpoints whose names begin with the prefix.
  abbrev prefixed : List (Text × RequestStats hl.H) → ℕ
  prefixed [] = 0
  prefixed ((name, s) ∷ m) =
      let rest = prefixed m in (if starts_with name prefix then s.total_requests else 0) + rest

module _ (fl : Float) (hl : HistogramLib) (scenario : Text) where
  abbrev of_scenario : Agg fl hl → ℕ
  of_scenario a = prefixed fl hl (scenario ++ codes "::") a.requests
