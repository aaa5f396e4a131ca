-- ===== src/Engine/Iterations/Failures.antt =====
-- How many iterations a worker of src/engine/mod.rs runs, and what an aggregator counts of them.
use fusillade.Prelude.{
  ℕ, zero, suc, ◌+◌, ◌-◌, ◌<◌, max, true, false, List, [], ◌∷◌, ◌++◌, Option, none, some, Text,
  codes, leb, if◌then◌else◌, ◌≡◌, refl, ap, sym, ◌∙◌, arith, take, starts_with, starts_with-append,
  ends_with, text_eq, text_eq_iff, reverse, append-nil, Bool-cases, inl, inr, u64_mod, add_u64,
}
use mathlib.Core.List.{reverse-append}
use fusillade.Float.{Float}
use fusillade.Stats.Types.{Metric, HistogramLib, RequestTimings, Tags}
use fusillade.Stats.Add.{
  Agg, add, add_all, add_request, add_failure, add_endpoint, is_iteration, is_iteration_total,
}
use fusillade.Stats.Add.Checks.{add_all-append}
use fusillade.Engine.Iterations.{
  Turn, lasting, status_of, in_scenario, iteration_metrics, is_limit, worker_loop,
}

-- The rounds before the worker is told to leave.
abbrev pub until_halted : List Turn → List Turn
until_halted [] = []
until_halted (t ∷ ts) = if t.halted then [] else t ∷ until_halted ts

-- A limit lets so many of them be run, but one at least.
abbrev pub within : Option ℕ → List Turn → List Turn
within none ts = ts
within (some limit) ts = take (max 1 limit) ts

abbrev pub failures : List Turn → ℕ
failures [] = 0
failures (t ∷ ts) = (elim t.error [ none ↦ 0 | some _ ↦ 1 ]) + failures ts

abbrev pub all_metrics : {F : Type 0} → Option Text → List Turn → List (Metric F)
all_metrics scenario [] = []
all_metrics scenario (t ∷ ts) = iteration_metrics scenario t ++ all_metrics scenario ts

module _ (F : Type 0) (scenario : Option Text) where
  unlimited_lem :
      (ts : List Turn) (n : ℕ)
      → worker_loop {F = F} scenario none ts n ≡ all_metrics scenario (until_halted ts)
  unfolding worker_loop
  unlimited_lem [] n = refl
  unlimited_lem (t ∷ ts) n = ground (arith, unlimited_lem ts (n + 1))

  limited_lem :
      (limit : ℕ) (ts : List Turn) (n k : ℕ)
      → n + suc k ≡ max 1 limit
      → worker_loop {F = F} scenario (some limit) ts n
        ≡ all_metrics scenario (take (suc k) (until_halted ts))
  unfolding worker_loop is_limit
  limited_lem limit [] n k e = refl
  limited_lem limit (t ∷ ts) n zero e =
      let last : leb limit (n + 1) ≡ true = ground (arith, e) in
      ground (arith, last, append-nil (iteration_metrics {F = F} scenario t))
  limited_lem limit (t ∷ ts) n (suc k) e =
      let more : leb limit (n + 1) ≡ false = ground (arith, e) in
      ground (arith, more, limited_lem limit ts (n + 1) k (omega arith))

  pub worker_loop-metrics :
      (max_iterations : Option ℕ) (ts : List Turn)
      → worker_loop {F = F} scenario max_iterations ts 0
        ≡ all_metrics scenario (within max_iterations (until_halted ts))
  worker_loop-metrics none ts = unlimited_lem ts 0
  worker_loop-metrics (some limit) ts =
      let e : suc (max 1 limit - 1) ≡ max 1 limit = omega arith in
      limited_lem limit ts 0 (max 1 limit - 1) (omega arith)
      ∙ ap (λ n. all_metrics scenario (take n (until_halted ts))) e

ends_with-append : (t e : Text) → ends_with (t ++ e) e ≡ true
unfolding ends_with
ends_with-append t e =
    ap (λ r. starts_with r (reverse e)) (reverse-append t e)
    ∙ starts_with-append (reverse e) (reverse t)

not_total_end :
    (s : Text) → ends_with (s ++ codes "::iteration") (codes "::iteration_total") ≡ false
unfolding ends_with starts_with
not_total_end s =
    ap (λ r. starts_with r (reverse (codes "::iteration_total")))
      (reverse-append s (codes "::iteration"))

not_total_name : (s : Text) → text_eq (s ++ codes "::iteration") (codes "iteration_total") ≡ false
unfolding ends_with starts_with
not_total_name s =
    elim (Bool-cases (text_eq (s ++ codes "::iteration") (codes "iteration_total"))) [
      | inr other ↦ other
      | inl same ↦
          let e = (text_eq_iff (s ++ codes "::iteration") (codes "iteration_total")).0 same in
          let f : ends_with (codes "iteration_total") (codes "::iteration") ≡ true =
            ap (λ t. ends_with t (codes "::iteration")) (sym e)
            ∙ ends_with-append s (codes "::iteration") in
          cc
    ]

-- Neither of a worker's metrics counts as a request, and the second is no failure.
is_iteration-in_scenario :
    (scenario : Option Text)
    → (is_iteration (in_scenario scenario (codes "iteration")) ≡ true)
      × (is_iteration_total (in_scenario scenario (codes "iteration")) ≡ false)
      × (is_iteration (in_scenario scenario (codes "iteration_total")) ≡ true)
      × (is_iteration_total (in_scenario scenario (codes "iteration_total")) ≡ true)
unfolding in_scenario is_iteration is_iteration_total text_eq ends_with starts_with
is_iteration-in_scenario none = (refl, refl, refl, refl)
is_iteration-in_scenario (some s) = (
  ground (arith, ends_with-append s (codes "::iteration")),
  ground (arith, not_total_name s, not_total_end s),
  ground (arith, ends_with-append s (codes "::iteration_total")),
  ground (arith, ends_with-append s (codes "::iteration_total")),
)

abbrev bump : Option Text → ℕ → ℕ
bump none n = n
bump (some _) n = add_u64 n 1

module _ (fl : Float) (hl : HistogramLib) where
  add_request-iteration :
      (name : Text) (t : RequestTimings) (status : ℕ) (error : Option Text) (tags : Tags)
      (a : Agg fl hl)
      → is_iteration name ≡ true
      → is_iteration_total name ≡ false
      → ((add_request fl hl name t status error tags a).failed_iterations
          ≡ bump error a.failed_iterations)
        × ((add_request fl hl name t status error tags a).total_requests ≡ a.total_requests)
  unfolding add_request add_failure add_endpoint
  add_request-iteration name t status none tags a i n = ground arith
  add_request-iteration name t status (some e) tags a i n = ground arith

  add_request-total :
      (name : Text) (t : RequestTimings) (status : ℕ) (error : Option Text) (tags : Tags)
      (a : Agg fl hl)
      → is_iteration name ≡ true
      → is_iteration_total name ≡ true
      → ((add_request fl hl name t status error tags a).failed_iterations ≡ a.failed_iterations)
        × ((add_request fl hl name t status error tags a).total_requests ≡ a.total_requests)
  unfolding add_request add_endpoint
  add_request-total name t status error tags a i n = ground arith

  add_all-turn :
      (scenario : Option Text) (t : Turn) (a : Agg fl hl)
      → ((add_all fl hl (iteration_metrics scenario t) a).failed_iterations
          ≡ bump t.error a.failed_iterations)
        × ((add_all fl hl (iteration_metrics scenario t) a).total_requests ≡ a.total_requests)
  unfolding iteration_metrics add_all add
  add_all-turn scenario t a =
      let (i, n, j, m) = is_iteration-in_scenario scenario in
      let name = in_scenario scenario (codes "iteration") in
      let first =
        add_request-iteration name (lasting (t.elapsed - t.slept)) (status_of t.error) t.error
          t.tags a i n in
      let a' =
        add_request fl hl name (lasting (t.elapsed - t.slept)) (status_of t.error) t.error t.tags
          a in
      let second =
        add_request-total (in_scenario scenario (codes "iteration_total")) (lasting t.elapsed)
          (status_of t.error) t.error t.tags a' j m in
      (second.0 ∙ first.0, second.1 ∙ first.1)

  pub add_all-turns :
      (scenario : Option Text) (ts : List Turn) (a : Agg fl hl)
      → a.failed_iterations + failures ts < u64_mod
      → ((add_all fl hl (all_metrics scenario ts) a).failed_iterations
          ≡ a.failed_iterations + failures ts)
        × ((add_all fl hl (all_metrics scenario ts) a).total_requests ≡ a.total_requests)
  unfolding add_all
  add_all-turns scenario [] a h = (omega arith, refl)
  add_all-turns scenario (t ∷ ts) a h =
      let one = add_all-turn scenario t a in
      let b = add_all fl hl (iteration_metrics scenario t) a in
      let sum : b.failed_iterations + failures ts ≡ a.failed_iterations + failures (t ∷ ts) =
        ground (arith, one.0) in
      let rest = add_all-turns scenario ts b (omega (arith, sum)) in
      rw (add_all-append fl hl (iteration_metrics scenario t) (all_metrics scenario ts) a)
        (rest.0 ∙ sum, rest.1 ∙ one.1)

  -- Of the calls that a worker is let make, until it is told to leave and within its limit, but one at
  -- least, an aggregator counts the failed ones as failed iterations, each once, and none as a request.
  pub worker_loop-failures :
      (scenario : Option Text) (max_iterations : Option ℕ) (ts : List Turn) (a : Agg fl hl)
      → let calls = within max_iterations (until_halted ts) in
        a.failed_iterations + failures calls < u64_mod
        → let b = add_all fl hl (worker_loop scenario max_iterations ts 0) a in
          (b.failed_iterations ≡ a.failed_iterations + failures calls)
          × (b.total_requests ≡ a.total_requests)
  worker_loop-failures scenario max_iterations ts a h =
      rw (worker_loop-metrics fl.F scenario max_iterations ts)
        (add_all-turns scenario (within max_iterations (until_halted ts)) a h)
