-- ===== src/Stats/Sharded/Counts.antt =====
-- The status codes, errors, checks and rates of a run as views, one key at a time.
use fusillade.Prelude.{
  ℕ, ◌≡◌, refl, List, Option, none, some, Text, add_u64, lookup, nat_key, text_key, opt_plus,
  opt_plus_assoc, opt_plus_comm, map,
}
use fusillade.Float.{Float}
use fusillade.Stats.Add.{add_all}
use fusillade.Stats.Sharded.Sums.{lookup-merge_map}
use fusillade.Stats.Sharded.Totals.{add_u64_assoc, add_u64_comm}
use fusillade.Stats.Sharded.Views.{View, view-merge-add_run}
use fusillade.Stats.Sharded.{Sharded, new, add_run, merge, merge_shard, add_pair}
use fusillade.Stats.Types.{Metric, HistogramLib, new_aggregator}
use fusillade.Stats.Sharded.Steps.{
  add_pair_assoc, add_pair_comm, status_of, errors_of, checks_of, rates_of, status-add, errors-add,
  checks-add, rates-add,
}

module _ (fl : Float) (hl : HistogramLib) where
  status_view : ℕ → View fl hl
  unfolding merge_shard lookup
  status_view q = record {
    M = Option ℕ;
    plus = opt_plus add_u64;
    unit = none;
    view = λ a. lookup q a.status_codes;
    delta = status_of q;
    assoc = opt_plus_assoc add_u64 add_u64_assoc;
    comm = opt_plus_comm add_u64 add_u64_comm;
    idem = refl;
    view_new = refl;
    view_add = status-add fl hl q;
    view_merge =
        λ m s h. lookup-merge_map nat_key add_u64 0 q s.status_codes m.status_codes h.status_codes;
    view_logs = λ a logs. refl;
  }

  errors_view : Text → View fl hl
  unfolding merge_shard lookup
  errors_view q = record {
    M = Option ℕ;
    plus = opt_plus add_u64;
    unit = none;
    view = λ a. lookup q a.errors;
    delta = errors_of q;
    assoc = opt_plus_assoc add_u64 add_u64_assoc;
    comm = opt_plus_comm add_u64 add_u64_comm;
    idem = refl;
    view_new = refl;
    view_add = errors-add fl hl q;
    view_merge = λ m s h. lookup-merge_map text_key add_u64 0 q s.errors m.errors h.errors;
    view_logs = λ a logs. refl;
  }

  checks_view : Text → View fl hl
  unfolding merge_shard lookup
  checks_view q = record {
    M = Option (ℕ × ℕ);
    plus = opt_plus add_pair;
    unit = none;
    view = λ a. lookup q a.checks;
    delta = checks_of q;
    assoc = opt_plus_assoc add_pair add_pair_assoc;
    comm = opt_plus_comm add_pair add_pair_comm;
    idem = refl;
    view_new = refl;
    view_add = checks-add fl hl q;
    view_merge = λ m s h. lookup-merge_map text_key add_pair (0, 0) q s.checks m.checks h.checks;
    view_logs = λ a logs. refl;
  }

  rates_view : Text → View fl hl
  unfolding merge_shard lookup
  rates_view q = record {
    M = Option (ℕ × ℕ);
    plus = opt_plus add_pair;
    unit = none;
    view = λ a. lookup q a.rates;
    delta = rates_of q;
    assoc = opt_plus_assoc add_pair add_pair_assoc;
    comm = opt_plus_comm add_pair add_pair_comm;
    idem = refl;
    view_new = refl;
    view_add = rates-add fl hl q;
    view_merge = λ m s h. lookup-merge_map text_key add_pair (0, 0) q s.rates m.rates h.rates;
    view_logs = λ a logs. refl;
  }

  -- The same status codes, errors, checks and rates, as often.
  pub counts-merge :
      (n : ℕ) (ms : List (ℕ × Metric fl.F)) {s : Sharded fl hl}
      → add_run fl hl ms (new fl hl n) ≡ some s
      → let whole = add_all fl hl (map (λ p. p.1) ms) (new_aggregator fl.F hl) in
        ((q : ℕ) → lookup q (merge fl hl s).status_codes ≡ lookup q whole.status_codes)
        × ((q : Text) → lookup q (merge fl hl s).errors ≡ lookup q whole.errors)
        × ((q : Text) → lookup q (merge fl hl s).checks ≡ lookup q whole.checks)
        × ((q : Text) → lookup q (merge fl hl s).rates ≡ lookup q whole.rates)
  unfolding status_view errors_view checks_view rates_view
  counts-merge n ms e = (
    λ q. view-merge-add_run fl hl (status_view q) n ms e,
    λ q. view-merge-add_run fl hl (errors_view q) n ms e,
    λ q. view-merge-add_run fl hl (checks_view q) n ms e,
    λ q. view-merge-add_run fl hl (rates_view q) n ms e,
  )
