-- ===== src/Tests/Tables.antt =====
-- The theorems on the tables of the console and of the dashboard at concrete inputs.
use mathlib.Core.List.{Permᴰ}
use fusillade.Prelude.{
  erase, text_key, ℕ, suc, ◌*◌, [], ◌∷◌, ◌++◌, Option, none, some, Text, codes, text_eq, length,
  show_ℕ, if◌then◌else◌, ◌≡◌, refl, All,
}
use fusillade.Tests.{float, histogram_lib, fresh, metrics}
use fusillade.Stats.Add.{add_all}
use fusillade.Stats.Report.{to_report}
use fusillade.Stats.Sharded.{Sharded, merge}
use fusillade.Tui.Snapshot.{refresh_snapshot}
use fusillade.Tui.Snapshot.Rows.{
  IsSorted, is_busier, is_lower, shown_rows, refresh_snapshot-IsSorted,
}
use fusillade.Console.{
  Values, number, collect, column_widths, row_line, separator, line, row_lines, format_table,
}
use fusillade.Console.Aligned.{present, format_table-aligned}

-- The number 0 is an array of the objects 1 and 20, between which a `get` fails; 5 and up are numbers.
abbrev get_of : ℕ → Text → Option ℕ
get_of n key = if text_eq key (codes "id") then some (n * 5) else none

abbrev js : Values
js = record {
  V = ℕ;
  shape = λ n. number (show_ℕ n);
  as_array = λ n. some (some 1 ∷ none ∷ some 20 ∷ []);
  as_object = λ n. some (codes "id" ∷ codes "größe" ∷ [], get_of n);
}

format_table-aligned_example :
    let rows = (collect js (some 1 ∷ none ∷ some 20 ∷ []) []).1 in
    let headers = codes "id" ∷ codes "größe" ∷ [] in
    let ws = column_widths headers rows in
    (format_table js (0 ∷ [])
      ≡ (line (row_line ws headers) ++ line (separator ws)) ++ row_lines ws rows)
    × (length rows ≡ suc (present js (none ∷ some 20 ∷ [])))
    × (length (row_line ws headers) ≡ length (separator ws))
    × All (λ row. length (row_line ws row) ≡ length (separator ws)) rows
format_table-aligned_example =
    format_table-aligned js 0 1 [] (none ∷ some 20 ∷ []) (codes "id") (codes "größe" ∷ [])
      (get_of 1) refl refl (tt, ((_, refl), tt))

-- the shards of two workers
abbrev aggregator : Sharded float histogram_lib
aggregator = record {
  shards = add_all float histogram_lib metrics fresh ∷ fresh ∷ [];
  num_shards = 2;
}

refresh_snapshot-IsSorted_example :
    let s = refresh_snapshot float histogram_lib 5_000_000_000 aggregator in
    let r = to_report float histogram_lib (merge float histogram_lib aggregator) in
    (IsSorted is_busier s.endpoints
      × Permᴰ s.endpoints (
          shown_rows
            (erase (codes "iteration") (erase (codes "iteration_total") r.grouped_requests))))
    × (IsSorted is_lower s.status_codes × Permᴰ s.status_codes r.status_codes)
refresh_snapshot-IsSorted_example =
    refresh_snapshot-IsSorted float histogram_lib 5_000_000_000 aggregator
