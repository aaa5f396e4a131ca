-- ===== src/Stats/Threshold/Meaning.antt =====
-- What a threshold of src/stats/mod.rs means: the number of a metric, and the comparison.
use fusillade.Prelude.{
  ltb, ◌≡◌, ◌↔◌, refl, sym, Bool, true, List, [], ◌∷◌, none, some, Text, arith, if◌then◌else◌,
  text_key, codes, Bool-cases, Option-cases, inl, inr, text_eq, text_eq_iff, lookup, get_or,
}
use mathlib.Core.Path.{subst}
use fusillade.Float.{Float}
use fusillade.Stats.Report.{ReportStats, HistogramReport}
use fusillade.Stats.Threshold.{
  sum_values, duration_value, failed_value, custom_value, histogram_value, Words, too_few, three,
  first_three, split_whitespace, actual_value, passes, check_words,
}

module _ (fl : Float) where
  open fl use {F, of_nat, sub, div, abs, epsilon, lt, le, parse}

  -- What the operators mean; no other word compares two numbers.
  pub data Compares (actual value : F) : Text → Type 0 where
    less : lt actual value ≡ true → Compares actual value (codes "<")
    at_most : le actual value ≡ true → Compares actual value (codes "<=")
    greater : lt value actual ≡ true → Compares actual value (codes ">")
    at_least : le value actual ≡ true → Compares actual value (codes ">=")
    equal : lt (abs (sub actual value)) epsilon ≡ true → Compares actual value (codes "==")

  -- The numbers that can be asked of a metric; any other is 0.0.
  abbrev pub entry : Text → List (Text × F) → F
  entry check [] = of_nat 0
  entry check ((word, x) ∷ table) =
      let rest = entry check table in if text_eq check word then x else rest

  abbrev duration_table : ReportStats F → List (Text × F)
  duration_table r =
      (codes "p95", r.p95_latency_ms)
      ∷ (codes "p99", r.p99_latency_ms)
      ∷ (codes "avg", r.avg_latency_ms)
      ∷ (codes "max", of_nat r.max_latency_ms)
      ∷ (codes "min", of_nat r.min_latency_ms)
      ∷ []

  abbrev histogram_table : HistogramReport F → List (Text × F)
  histogram_table h =
      (codes "p95", h.p95)
      ∷ (codes "p99", h.p99)
      ∷ (codes "p90", h.p90)
      ∷ (codes "avg", h.avg)
      ∷ (codes "max", h.max)
      ∷ (codes "min", h.min)
      ∷ (codes "count", of_nat h.count)
      ∷ []

  -- the share of failed requests
  abbrev failed_table : ReportStats F → List (Text × F)
  failed_table r =
      (
        codes "rate",
        if ltb 0 r.total_requests
            then div (of_nat (sum_values r.errors)) (of_nat r.total_requests)
            else of_nat 0,
      )
      ∷ []

  -- a histogram, else a rate, else a counter, else a gauge of that name
  abbrev custom_table : ReportStats F → Text → List (Text × F)
  custom_table r name = elim (lookup name r.histograms) [
    | some h ↦ histogram_table h
    | none ↦ elim (lookup name r.rates) [
      | some rate ↦ (codes "rate", rate.rate) ∷ []
      | none ↦ elim (lookup name r.counters) [
        | some v ↦ (codes "count", v) ∷ (codes "value", v) ∷ []
        | none ↦ elim (lookup name r.gauges) [ some v ↦ (codes "value", v) ∷ [] | none ↦ [] ]
      ]
    ]
  ]

  abbrev pub table_of : ReportStats F → Text → List (Text × F)
  table_of r name =
      if text_eq name (codes "http_req_duration")
      then duration_table r
      else if text_eq name (codes "http_req_failed")
      then failed_table r
      else custom_table r name

  -- A threshold of three words or more holds by its comparison, a shorter one always.
  abbrev pub WordsHold : ReportStats F → Text → Words → Type 0
  WordsHold r name too_few = Unit
  WordsHold r name (three check operator value) =
      Compares (entry check (table_of r name)) (get_or (parse value) (of_nat 0)) operator

  abbrev pub Holds : ReportStats F → Text → Text → Type 0
  Holds r name threshold = WordsHold r name (first_three (split_whitespace threshold))

  Compares-passes :
      (operator : Text) (actual value : F)
      → Compares actual value operator
      → passes fl operator actual value ≡ true
  unfolding passes text_eq
  Compares-passes _ actual value (less h) = h
  Compares-passes _ actual value (at_most h) = h
  Compares-passes _ actual value (greater h) = h
  Compares-passes _ actual value (at_least h) = h
  Compares-passes _ actual value (equal h) = h

  named :
      (operator word : Text) (actual value : F)
      → text_eq operator word ≡ true
      → Compares actual value word
      → Compares actual value operator
  named operator word actual value e c =
      subst (Compares actual value) (sym ((text_eq_iff operator word).0 e)) c

  passes-Compares :
      (operator : Text) (actual value : F)
      → passes fl operator actual value ≡ true
      → Compares actual value operator
  unfolding passes
  passes-Compares operator actual value h = elim (Bool-cases (text_eq operator (codes "<"))) [
    | inl e ↦ named operator (codes "<") actual value e (less (ground (arith, h, e)))
    | inr a ↦ elim (Bool-cases (text_eq operator (codes "<="))) [
      | inl e ↦ named operator (codes "<=") actual value e (at_most (ground (arith, h, a, e)))
      | inr b ↦ elim (Bool-cases (text_eq operator (codes ">"))) [
        | inl e ↦ named operator (codes ">") actual value e (greater (ground (arith, h, a, b, e)))
        | inr c ↦ elim (Bool-cases (text_eq operator (codes ">="))) [
          | inl e ↦
              named operator (codes ">=") actual value e (at_least (ground (arith, h, a, b, c, e)))
          | inr d ↦ elim (Bool-cases (text_eq operator (codes "=="))) [
            | inl e ↦
                named operator (codes "==") actual value e
                  (equal (ground (arith, h, a, b, c, d, e)))
            | inr e ↦ absurd (ground (arith, h, a, b, c, d, e))
          ]
        ]
      ]
    ]
  ]

  empty_iff : (b : Bool) (m : Text) → ((if b then [] else m ∷ []) ≡ []) ↔ (b ≡ true)
  empty_iff b m = ground arith

  duration_value-table :
      (r : ReportStats F) (check : Text)
      → duration_value fl r check ≡ entry check (duration_table r)
  unfolding duration_value
  duration_value-table r check = refl

  failed_value-table :
      (r : ReportStats F) (check : Text) → failed_value fl r check ≡ entry check (failed_table r)
  unfolding failed_value
  failed_value-table r check = refl

  custom_value-table :
      (r : ReportStats F) (name check : Text)
      → custom_value fl r name check ≡ entry check (custom_table r name)
  unfolding custom_value histogram_value
  custom_value-table r name check = elim (Option-cases (lookup name r.histograms)) [
    | inr (h, e) ↦ rw (e, custom_value, custom_table) refl
    | inl a ↦ elim (Option-cases (lookup name r.rates)) [
      | inr (x, e) ↦ rw (a, e, custom_value, custom_table) refl
      | inl b ↦ elim (Option-cases (lookup name r.counters)) [
        | inr (x, e) ↦ rw (a, b, e, custom_value, custom_table) (ground arith)
        | inl c ↦ elim (Option-cases (lookup name r.gauges)) [
          | inr (x, e) ↦ rw (a, b, c, e, custom_value, custom_table) refl
          | inl d ↦ rw (a, b, c, d, custom_value, custom_table) refl
        ]
      ]
    ]
  ]

  actual_value-table :
      (r : ReportStats F) (name check : Text)
      → actual_value fl r name check ≡ entry check (table_of r name)
  unfolding actual_value
  actual_value-table r name check = ground (
    arith,
    duration_value-table r check,
    failed_value-table r check,
    custom_value-table r name check,
  )

  pub check_words-nil_iff :
      (r : ReportStats F) (name threshold : Text) (w : Words)
      → (check_words fl r name threshold w ≡ []) ↔ WordsHold r name w
  unfolding check_words
  check_words-nil_iff r name threshold too_few = ((λ _. tt), (λ _. refl))
  check_words-nil_iff r name threshold (three check operator value) =
      let number = get_or (parse value) (of_nat 0) in
      let actual = entry check (table_of r name) in
      rw (actual_value-table r name check) (
        (λ e. passes-Compares operator actual number ((empty_iff _ _).0 e)),
        (λ c. (empty_iff _ _).1 (Compares-passes operator actual number c)),
      )
