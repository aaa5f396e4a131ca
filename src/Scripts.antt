-- ===== src/Scripts.antt =====
-- What a script measures itself: `check` of src/bridge/check.rs, and `metrics` of src/bridge/metrics.rs.
-- The screenshot of a browser test after a failure is output only.
pub mod Tallies
use fusillade.Prelude.{Bool, true, false, List, [], ◌∷◌, ◌++◌, Option, none, some, Text, codes}
use fusillade.Stats.Types.{Metric, Tags, check, histogram, counter, gauge, rate}

-- What an assertion's function gives: `missing` is `null` or `undefined`, `truthy` any other value that is
-- no Boolean and no string, also a number that JavaScript takes for false. A string may be unreadable.
pub data Outcome : Type 0 where
  boolean : Bool → Outcome
  string : Option Text → Outcome
  missing : Outcome
  truthy : Outcome
  thrown : Text → Outcome

-- An entry of the object that is given to `check`: an assertion, or one whose name or function cannot be
-- read.
pub data Entry : Type 0 where
  assertion : Text → Outcome → Entry
  unreadable : Entry

-- whether it holds, and the message
unfoldable pub judge : Outcome → Bool × Option Text
judge (boolean b) = (b, none)
judge (string message) = (false, message)
judge missing = (false, none)
judge truthy = (true, none)
judge (thrown e) = (false, some (codes "JS error: " ++ e))

-- The metrics that are sent; an entry that cannot be read ends the call with an exception.
unfoldable pub run_checks : {F : Type 0} → List Entry → List (Metric F)
unfolding judge
run_checks [] = []
run_checks (unreadable ∷ es) = []
run_checks (assertion name outcome ∷ es) =
    let (success, message) = judge outcome in check name success message ∷ run_checks es

-- A call of a script.
pub data Call (F : Type 0) : Type 0 where
  check_call : List Entry → Call F
  histogram_add : Text → F → Option Tags → Call F
  counter_add : Text → F → Option Tags → Call F
  gauge_set : Text → F → Option Tags → Call F
  rate_add : Text → Bool → Option Tags → Call F

-- `unwrap_or_default`
abbrev tags_of : Option Tags → Tags
tags_of none = []
tags_of (some tags) = tags

unfoldable pub run_call : {F : Type 0} → Call F → List (Metric F)
unfolding run_checks
run_call (check_call entries) = run_checks entries
run_call (histogram_add name value tags) = histogram name value (tags_of tags) ∷ []
run_call (counter_add name value tags) = counter name value (tags_of tags) ∷ []
run_call (gauge_set name value tags) = gauge name value (tags_of tags) ∷ []
run_call (rate_add name success tags) = rate name success (tags_of tags) ∷ []

unfoldable pub run_calls : {F : Type 0} → List (Call F) → List (Metric F)
unfolding run_call
run_calls [] = []
run_calls (c ∷ cs) = run_call c ++ run_calls cs
