-- ===== src/Stats/Threshold/Verdict.antt =====
-- When a run passes its thresholds, and what a scenario's thresholds depend on.
use fusillade.Prelude.{
  ℕ, ◌≡◌, ◌≢◌, ◌↔◌, refl, false, List, [], ◌∷◌, ◌++◌, Option, none, some, Text, arith,
  if◌then◌else◌, All, update, text_key, codes, starts_with, Bool-cases, inl, inr, text_eq,
  text_eq_iff, lookup,
}
use fusillade.Float.{Float}
use fusillade.Stats.Add.{
  add, add_request, add_http, add_failure, add_endpoint, full_name, add_timings, Agg,
}
use fusillade.Stats.Report.{ReportStats, to_report}
use fusillade.Stats.Threshold.Meaning.{Holds, check_words-nil_iff}
use fusillade.Stats.Threshold.{
  first_three, split_whitespace, actual_value, check_threshold, check_all, check_criteria,
  validate_thresholds, add_endpoints, add_endpoint_to, scenario_stats,
}
use fusillade.Stats.Types.{
  Tags, RequestTimings, request, HistogramLib, RequestStats, new_stats, new_aggregator,
}

module _ (fl : Float) where
  open fl use {F, of_nat}

  append-nil_iff : (xs ys : List Text) → (xs ++ ys ≡ []) ↔ ((xs ≡ []) × (ys ≡ []))
  append-nil_iff [] ys = ((λ e. (refl, e)), (λ e. e.1))
  append-nil_iff (x ∷ xs) ys = ((λ e. cc), (λ e. cc (e.0)))

  check_all-nil_iff :
      (r : ReportStats F) (name : Text) (ts : List Text)
      → (check_all fl r name ts ≡ []) ↔ All (Holds fl r name) ts
  unfolding check_all check_threshold
  check_all-nil_iff r name [] = ((λ _. tt), (λ _. refl))
  check_all-nil_iff r name (t ∷ ts) =
      let one = check_words-nil_iff fl r name t (first_three (split_whitespace t)) in
      let rest = check_all-nil_iff r name ts in
      let both = append-nil_iff (check_threshold fl r name t) (check_all fl r name ts) in
      ((λ e. (one.0 (both.0 e).0, rest.0 (both.0 e).1)), (λ h. both.1 (one.1 h.0, rest.1 h.1)))

  pub check_criteria-nil_iff :
      (r : ReportStats F) (cs : List (Text × List Text))
      → (check_criteria fl r cs ≡ []) ↔ All (λ c. All (Holds fl r c.0) c.1) cs
  unfolding check_criteria
  check_criteria-nil_iff r [] = ((λ _. tt), (λ _. refl))
  check_criteria-nil_iff r ((name, ts) ∷ cs) =
      let one = check_all-nil_iff r name ts in
      let rest = check_criteria-nil_iff r cs in
      let both = append-nil_iff (check_all fl r name ts) (check_criteria fl r cs) in
      ((λ e. (one.0 (both.0 e).0, rest.0 (both.0 e).1)), (λ h. both.1 (one.1 h.0, rest.1 h.1)))

  -- A metric that is neither built in nor recorded as a histogram, rate, counter or gauge is compared
  -- as 0.0, whatever is asked of it.
  actual_value_unrecorded :
      (r : ReportStats F) (name check : Text)
      → name ≢ codes "http_req_duration"
      → name ≢ codes "http_req_failed"
      → lookup name r.histograms ≡ none
      → lookup name r.rates ≡ none
      → lookup name r.counters ≡ none
      → lookup name r.gauges ≡ none
      → actual_value fl r name check ≡ of_nat 0
  unfolding actual_value
  actual_value_unrecorded r name check d f h ra c g = ground (
    arith,
    text_eq_iff name (codes "http_req_duration"),
    text_eq_iff name (codes "http_req_failed"),
  )

module _ (fl : Float) (hl : HistogramLib) where
  -- No failure is reported exactly if every threshold of three words or more holds on the report: the
  -- number that is asked of the metric, or 0.0, stands to the number of the threshold, or 0.0 if it does
  -- not parse, as the operator means; a threshold with another operator never holds.
  pub validate_thresholds-nil_iff :
      (a : Agg fl hl) (criteria : List (Text × List Text))
      → (validate_thresholds fl hl a criteria ≡ [])
        ↔ All (λ c. All (Holds fl (to_report fl hl a) c.0) c.1) criteria
  unfolding validate_thresholds
  validate_thresholds-nil_iff a criteria = check_criteria-nil_iff fl (to_report fl hl a) criteria

  add_endpoints-update :
      (prefix name : Text) (d : RequestStats hl.H) (f : RequestStats hl.H → RequestStats hl.H)
      (m : List (Text × RequestStats hl.H)) (sub : Agg fl hl)
      → starts_with name prefix ≡ false
      → add_endpoints fl hl prefix (update name d f m) sub ≡ add_endpoints fl hl prefix m sub
  unfolding add_endpoints update
  add_endpoints-update prefix name d f [] sub h = rw h
  add_endpoints-update prefix name d f ((j, w) ∷ m) sub h = elim (Bool-cases (text_eq j name)) [
    | inl same ↦ rw (same, (text_eq_iff j name).0 same, h)
    | inr other ↦ rw other (
        add_endpoints-update prefix name d f m
          (if starts_with j prefix then add_endpoint_to fl hl w sub else sub) h)
  ]

  -- A request whose endpoint does not begin with the scenario's name and "::" does not change what the
  -- scenario's thresholds are checked against.
  pub scenario_stats-add_request :
      (scenario name : Text) (t : RequestTimings) (status : ℕ) (error : Option Text) (tags : Tags)
      (a : Agg fl hl)
      → starts_with (full_name name tags) (scenario ++ codes "::") ≡ false
      → scenario_stats fl hl scenario (add fl hl (request name t status error tags) a)
        ≡ scenario_stats fl hl scenario a
  unfolding scenario_stats add add_request add_http add_failure add_endpoint
  scenario_stats-add_request scenario name t status none tags a h = ground (
    arith,
    add_endpoints-update (scenario ++ codes "::") (full_name name tags) (new_stats hl)
        (add_timings fl hl t none) a.requests (new_aggregator fl.F hl) h,
  )
  scenario_stats-add_request scenario name t status (some e) tags a h = ground (
    arith,
    add_endpoints-update (scenario ++ codes "::") (full_name name tags) (new_stats hl)
        (add_timings fl hl t (some e)) a.requests (new_aggregator fl.F hl) h,
  )
