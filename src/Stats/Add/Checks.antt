-- ===== src/Stats/Add/Checks.antt =====
-- The tally of a check is exact: how often it was made, and how often it passed.
use fusillade.Prelude.{
  ℕ, ◌+◌, ◌≤◌, ◌<◌, ◌≡◌, refl, Bool, ◌&&◌, List, [], ◌∷◌, ◌++◌, Option, none, some, Text, arith,
  if◌then◌else◌, length, lookup, lookup-update, text_key, text_eq, text_eq_iff, ◌==◌, u64_mod,
}
use fusillade.Float.{Float}
use fusillade.Stats.Add.{
  add, add_all, add_request, add_http, add_failure, add_endpoint, observe, Agg,
}
use fusillade.Stats.Types.{Metric, request, check, HistogramLib, new_aggregator}

abbrev one_if : Bool → ℕ
one_if b = if b then 1 else 0

-- How often the check `q` was made, and how often it passed.
abbrev pub made : {F : Type 0} → Text → Metric F → ℕ
made q (check name success message) = one_if (text_eq name q)
made q _ = 0

abbrev pub passed : {F : Type 0} → Text → Metric F → ℕ
passed q (check name success message) = one_if (text_eq name q && success)
passed q _ = 0

abbrev pub total_made : {F : Type 0} → Text → List (Metric F) → ℕ
total_made q [] = 0
total_made q (m ∷ ms) = made q m + total_made q ms

abbrev pub total_passed : {F : Type 0} → Text → List (Metric F) → ℕ
total_passed q [] = 0
total_passed q (m ∷ ms) = passed q m + total_passed q ms

-- The entry of a check in the map: none if it was never made.
abbrev pub tally : ℕ → ℕ → Option (ℕ × ℕ)
tally n p = if n == 0 then none else some (n, p)

module _ (fl : Float) (hl : HistogramLib) where
  pub add_all-append :
      (xs ys : List (Metric fl.F)) (a : Agg fl hl)
      → add_all fl hl (xs ++ ys) a ≡ add_all fl hl ys (add_all fl hl xs a)
  unfolding add_all
  add_all-append [] ys a = refl
  add_all-append (x ∷ xs) ys a = add_all-append xs ys (add fl hl x a)

  checks-add :
      (q : Text) (m : Metric fl.F) (a : Agg fl hl) (n p : ℕ)
      → lookup q a.checks ≡ tally n p
      → p ≤ n
      → n + 1 < u64_mod
      → lookup q (add fl hl m a).checks ≡ tally (n + made q m) (p + passed q m)
  unfolding add add_request add_http add_failure add_endpoint
  checks-add q (check name success message) a n p e h b =
      ground (arith, lookup-update name q (0, 0) (observe success) a.checks, text_eq_iff name q)
  checks-add q (request name t status none tags) a n p e h b = ground arith
  checks-add q (request name t status (some err) tags) a n p e h b = ground arith
  checks-add q _ a n p e h b = ground arith

  passed-le-made : (q : Text) (m : Metric fl.F) → (passed q m ≤ made q m) × (made q m ≤ 1)
  passed-le-made q (check name success message) = ground arith
  passed-le-made q _ = omega arith

  total_passed-le : (q : Text) (ms : List (Metric fl.F)) → total_passed q ms ≤ total_made q ms
  total_passed-le q [] = omega arith
  total_passed-le q (m ∷ ms) = omega (arith, passed-le-made q m, total_passed-le q ms)

  checks-add_all :
      (q : Text) (ms : List (Metric fl.F)) (a : Agg fl hl) (n p : ℕ)
      → lookup q a.checks ≡ tally n p
      → p ≤ n
      → n + length ms < u64_mod
      → lookup q (add_all fl hl ms a).checks ≡ tally (n + total_made q ms) (p + total_passed q ms)
  unfolding add_all
  checks-add_all q [] a n p e h b = ground arith
  checks-add_all q (m ∷ ms) a n p e h b = ground (
    arith,
    passed-le-made q m,
    checks-add q m a n p e h (omega arith),
    checks-add_all q ms (add fl hl m a) (n + made q m) (p + passed q m),
  )

  -- After fewer than 2^64 metrics each check has its exact tally, and the passes are no more than
  -- the times that it was made; a check that was never made has no entry.
  pub checks-add_all-new :
      (q : Text) (ms : List (Metric fl.F))
      → length ms < u64_mod
      → (lookup q (add_all fl hl ms (new_aggregator fl.F hl)).checks
          ≡ tally (total_made q ms) (total_passed q ms))
        × (total_passed q ms ≤ total_made q ms)
  unfolding lookup
  checks-add_all-new q ms h = (
    ground
        (arith, checks-add_all q ms (new_aggregator fl.F hl) 0 0 refl (omega arith) (omega arith)),
    total_passed-le q ms,
  )
