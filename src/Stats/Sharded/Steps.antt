-- ===== src/Stats/Sharded/Steps.antt =====
-- What one metric adds to the status codes, errors, checks and rates, one key at a time.
use fusillade.Prelude.{
  ℕ, ◌≡◌, refl, ap, Bool, true, false, ◌&&◌, List, Option, none, some, Text, arith, if◌then◌else◌,
  add_u64, inl, inr, lookup, update, lookup-update, nat_key, text_key, text_eq, text_eq_iff, ==_iff,
  ◌==◌, opt_plus, IsCounts, lookup-normal, Option-cases,
}
use fusillade.Float.{Float}
use fusillade.Stats.Add.{
  add, add_request, add_http, add_failure, add_endpoint, is_iteration, is_iteration_total, count,
  observe, Agg,
}
use fusillade.Stats.Sharded.Totals.{add_u64_assoc, add_u64_comm}
use fusillade.Stats.Sharded.{add_pair}
use fusillade.Stats.Tidy.{IsTidy}
use fusillade.Stats.Types.{Tags, RequestTimings, Metric, request, check, rate, HistogramLib}

pub add_pair_assoc : (x y z : ℕ × ℕ) → add_pair (add_pair x y) z ≡ add_pair x (add_pair y z)
add_pair_assoc x y z = λ i. (add_u64_assoc x.0 y.0 z.0 i, add_u64_assoc x.1 y.1 z.1 i)

pub add_pair_comm : (x y : ℕ × ℕ) → add_pair x y ≡ add_pair y x
add_pair_comm x y = λ i. (add_u64_comm x.0 y.0 i, add_u64_comm x.1 y.1 i)

abbrev at_key : Bool → ℕ → Option ℕ
at_key b n = if b then some n else none

pub status_of : {F : Type 0} → ℕ → Metric F → Option ℕ
status_of q (request name t status error tags) =
    if is_iteration name then none else at_key (status == q) 1
status_of q _ = none

abbrev error_at : Text → Option Text → Option ℕ
error_at q none = none
error_at q (some e) = at_key (text_eq e q) 1

pub errors_of : {F : Type 0} → Text → Metric F → Option ℕ
errors_of q (request name t status error tags) =
    if is_iteration name && is_iteration_total name then none else error_at q error
errors_of q _ = none

abbrev observed : Bool → Bool → Option (ℕ × ℕ)
observed hit success = if hit then some (1, if success then 1 else 0) else none

pub checks_of : {F : Type 0} → Text → Metric F → Option (ℕ × ℕ)
checks_of q (check name success message) = observed (text_eq name q) success
checks_of q _ = none

pub rates_of : {F : Type 0} → Text → Metric F → Option (ℕ × ℕ)
rates_of q (rate name success tags) = observed (text_eq name q) success
rates_of q _ = none

opt_plus-none : {V : Type 0} (f : V → V → V) (o : Option V) → o ≡ opt_plus f o none
opt_plus-none f none = refl
opt_plus-none f (some x) = refl

lookup-count_status :
    (s q : ℕ) (m : List (ℕ × ℕ))
    → lookup q (update s 0 count m) ≡ opt_plus add_u64 (lookup q m) (at_key (s == q) 1)
lookup-count_status s q m = ground (arith, lookup-update s q 0 count m, ==_iff s q)

lookup-count_text :
    (s q : Text) (m : List (Text × ℕ))
    → lookup q (update s 0 count m) ≡ opt_plus add_u64 (lookup q m) (at_key (text_eq s q) 1)
lookup-count_text s q m = ground (arith, lookup-update s q 0 count m, text_eq_iff s q)

-- A pair of counts, one more observed.
observe_plus :
    (b : Bool) (v : ℕ × ℕ)
    → add_pair (0, 0) v ≡ v
    → observe b v ≡ add_pair v (1, if b then 1 else 0)
observe_plus true v h = refl
observe_plus false v h =
    let e : v.1 ≡ add_u64 v.1 0 = omega (arith, ap (λ (p : ℕ × ℕ). p.1) h) in
    λ i. (add_u64 v.0 1, e i)

lookup-observe :
    (b : Bool) (s q : Text) (m : List (Text × (ℕ × ℕ)))
    → IsCounts text_key add_pair (0, 0) m
    → lookup q (update s (0, 0) (observe b) m)
      ≡ opt_plus add_pair (lookup q m) (observed (text_eq s q) b)
lookup-observe b s q m h = elim (Option-cases (lookup q m)) [
  | inl n ↦ ground (arith, lookup-update s q (0, 0) (observe b) m, text_eq_iff s q)
  | inr (v, e) ↦ ground (
    arith,
    lookup-update s q (0, 0) (observe b) m,
    text_eq_iff s q,
    observe_plus b v (lookup-normal text_key add_pair (0, 0) q m v e h),
  )
]

module _ (fl : Float) (hl : HistogramLib) where
  request_status :
      (q : ℕ) (name : Text) (t : RequestTimings) (status : ℕ) (error : Option Text) (tags : Tags)
      (a : Agg fl hl)
      → lookup q (add_request fl hl name t status error tags a).status_codes
        ≡ opt_plus add_u64
            (lookup q a.status_codes)
            (status_of {F = fl.F} q (Metric.request name t status error tags))
  unfolding add_request add_http add_failure add_endpoint status_of
  request_status q name t status error tags a = ground (
    arith,
    lookup-count_status status q a.status_codes,
    opt_plus-none add_u64 (lookup q a.status_codes),
  )

  request_errors :
      (q : Text) (name : Text) (t : RequestTimings) (status : ℕ) (error : Option Text) (tags : Tags)
      (a : Agg fl hl)
      → lookup q (add_request fl hl name t status error tags a).errors
        ≡ opt_plus add_u64
            (lookup q a.errors)
            (errors_of {F = fl.F} q (Metric.request name t status error tags))
  unfolding add_request add_http add_failure add_endpoint errors_of
  request_errors q name t status none tags a =
      ground (arith, opt_plus-none add_u64 (lookup q a.errors))
  request_errors q name t status (some e) tags a =
      ground (arith, lookup-count_text e q a.errors, opt_plus-none add_u64 (lookup q a.errors))

  pub status-add :
      (q : ℕ) (m : Metric fl.F) (a : Agg fl hl)
      → IsTidy a
      → lookup q (add fl hl m a).status_codes
        ≡ opt_plus add_u64 (lookup q a.status_codes) (status_of q m)
  unfolding add status_of
  status-add q (request name t status error tags) a h = request_status q name t status error tags a
  status-add q (check _ _ _) a h = opt_plus-none add_u64 _
  status-add q _ a h = opt_plus-none add_u64 _

  pub errors-add :
      (q : Text) (m : Metric fl.F) (a : Agg fl hl)
      → IsTidy a
      → lookup q (add fl hl m a).errors ≡ opt_plus add_u64 (lookup q a.errors) (errors_of q m)
  unfolding add errors_of
  errors-add q (request name t status error tags) a h = request_errors q name t status error tags a
  errors-add q (check _ _ _) a h = opt_plus-none add_u64 _
  errors-add q _ a h = opt_plus-none add_u64 _

  pub checks-add :
      (q : Text) (m : Metric fl.F) (a : Agg fl hl)
      → IsTidy a
      → lookup q (add fl hl m a).checks ≡ opt_plus add_pair (lookup q a.checks) (checks_of q m)
  unfolding add checks_of add_request add_http add_failure add_endpoint
  checks-add q (request name t status none tags) a h =
      ground (arith, opt_plus-none add_pair (lookup q a.checks))
  checks-add q (request name t status (some e) tags) a h =
      ground (arith, opt_plus-none add_pair (lookup q a.checks))
  checks-add q (check name success message) a h = lookup-observe success name q a.checks h.checks
  checks-add q _ a h = opt_plus-none add_pair _

  pub rates-add :
      (q : Text) (m : Metric fl.F) (a : Agg fl hl)
      → IsTidy a
      → lookup q (add fl hl m a).rates ≡ opt_plus add_pair (lookup q a.rates) (rates_of q m)
  unfolding add rates_of add_request add_http add_failure add_endpoint
  rates-add q (request name t status none tags) a h =
      ground (arith, opt_plus-none add_pair (lookup q a.rates))
  rates-add q (request name t status (some e) tags) a h =
      ground (arith, opt_plus-none add_pair (lookup q a.rates))
  rates-add q (rate name success tags) a h = lookup-observe success name q a.rates h.rates
  rates-add q _ a h = opt_plus-none add_pair _
