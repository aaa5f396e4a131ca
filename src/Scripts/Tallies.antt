-- ===== src/Scripts/Tallies.antt =====
-- How often a report says that a script's check or rate was observed, and how often with success.
use fusillade.Prelude.{
  ℕ, ◌+◌, ◌≤◌, ◌<◌, Bool, true, false, ◌&&◌, List, [], ◌∷◌, ◌++◌, Text, ◌≡◌, refl, ap, ◌∙◌, arith,
  if◌then◌else◌, length, length-append, lookup, lookup-update, text_key, text_eq, text_eq_iff,
  u64_mod,
}
use fusillade.Float.{Float}
use fusillade.Stats.Types.{Metric, HistogramLib, new_aggregator, check}
use fusillade.Stats.Add.{add, add_all, observe, Agg}
use fusillade.Stats.Add.Checks.{add_all-append, checks-add_all-new, tally, total_made, total_passed}
use fusillade.Scripts.{
  Outcome, Entry, Call, judge, run_checks, run_call, run_calls, boolean, string, missing, truthy,
  thrown, assertion, unreadable, check_call, histogram_add, counter_add, gauge_set, rate_add,
}

-- Only `true`, and a value that is neither a Boolean nor a string nor missing, satisfies an assertion.
abbrev pub holds : Outcome → Bool
holds (boolean b) = b
holds truthy = true
holds _ = false

-- How many assertions `q` stand before the first entry that cannot be read, and how many of them hold.
abbrev pub asserted : Text → List Entry → ℕ × ℕ
asserted q [] = (0, 0)
asserted q (unreadable ∷ es) = (0, 0)
asserted q (assertion name outcome ∷ es) =
    let (n, p) = asserted q es in
    ((if text_eq name q then 1 else 0) + n, (if text_eq name q && holds outcome then 1 else 0) + p)

abbrev pub checked : {F : Type 0} → Text → List (Call F) → ℕ × ℕ
checked q [] = (0, 0)
checked q (check_call es ∷ cs) =
    let (n, p) = asserted q es in let (m, o) = checked q cs in (n + m, p + o)
checked q (_ ∷ cs) = checked q cs

-- How often the rate `q` was added to, and how often with success.
abbrev pub rated : {F : Type 0} → Text → List (Call F) → ℕ × ℕ
rated q [] = (0, 0)
rated q (rate_add name success tags ∷ cs) =
    let (n, p) = rated q cs in
    ((if text_eq name q then 1 else 0) + n, (if text_eq name q && success then 1 else 0) + p)
rated q (_ ∷ cs) = rated q cs

total_made-append :
    {F : Type 0} (q : Text) (xs ys : List (Metric F))
    → total_made q (xs ++ ys) ≡ total_made q xs + total_made q ys
total_made-append q [] ys = omega arith
total_made-append q (x ∷ xs) ys = omega (arith, total_made-append q xs ys)

total_passed-append :
    {F : Type 0} (q : Text) (xs ys : List (Metric F))
    → total_passed q (xs ++ ys) ≡ total_passed q xs + total_passed q ys
total_passed-append q [] ys = omega arith
total_passed-append q (x ∷ xs) ys = omega (arith, total_passed-append q xs ys)

judge-holds : (outcome : Outcome) → (judge outcome).0 ≡ holds outcome
unfolding judge
judge-holds (boolean b) = refl
judge-holds (string message) = refl
judge-holds missing = refl
judge-holds truthy = refl
judge-holds (thrown e) = refl

run_checks-asserted :
    (F : Type 0) (q : Text) (es : List Entry)
    → (total_made q (run_checks {F = F} es) ≡ (asserted q es).0)
      × (total_passed q (run_checks {F = F} es) ≡ (asserted q es).1)
unfolding run_checks
run_checks-asserted F q [] = (refl, refl)
run_checks-asserted F q (unreadable ∷ es) = (refl, refl)
run_checks-asserted F q (assertion name outcome ∷ es) =
    let rest = run_checks-asserted F q es in
    (ground (arith, rest.0), rw judge-holds (ground (arith, rest.1)))

same_counts : {m p n k : ℕ} → (m ≡ n) × (p ≡ k) → (0 + m ≡ n) × (0 + p ≡ k)
same_counts h = (omega (arith, h.0), omega (arith, h.1))

run_calls-checked :
    (F : Type 0) (q : Text) (cs : List (Call F))
    → (total_made q (run_calls cs) ≡ (checked q cs).0)
      × (total_passed q (run_calls cs) ≡ (checked q cs).1)
unfolding run_calls run_call
run_calls-checked F q [] = (refl, refl)
run_calls-checked F q (check_call es ∷ cs) =
    let here = run_checks-asserted F q es in
    let rest = run_calls-checked F q cs in
    (
      omega (arith, total_made-append q (run_checks es) (run_calls cs), here.0, rest.0),
      omega (arith, total_passed-append q (run_checks es) (run_calls cs), here.1, rest.1),
    )
run_calls-checked F q (histogram_add name value tags ∷ cs) = same_counts (run_calls-checked F q cs)
run_calls-checked F q (counter_add name value tags ∷ cs) = same_counts (run_calls-checked F q cs)
run_calls-checked F q (gauge_set name value tags ∷ cs) = same_counts (run_calls-checked F q cs)
run_calls-checked F q (rate_add name success tags ∷ cs) = same_counts (run_calls-checked F q cs)

module _ (fl : Float) (hl : HistogramLib) where
  rates-run_checks :
      (es : List Entry) (a : Agg fl hl) → (add_all fl hl (run_checks es) a).rates ≡ a.rates
  unfolding add_all add run_checks
  rates-run_checks [] a = refl
  rates-run_checks (unreadable ∷ es) a = refl
  rates-run_checks (assertion name outcome ∷ es) a =
      rates-run_checks es (add fl hl (check name (judge outcome).0 (judge outcome).1) a)

  rates-run_calls :
      (q : Text) (cs : List (Call fl.F)) (a : Agg fl hl) (n p : ℕ)
      → lookup q a.rates ≡ tally n p
      → p ≤ n
      → n + length (run_calls cs) < u64_mod
      → lookup q (add_all fl hl (run_calls cs) a).rates
        ≡ tally (n + (rated q cs).0) (p + (rated q cs).1)
  unfolding add_all add run_calls run_call
  rates-run_calls q [] a n p e h b = ground (arith, e)
  rates-run_calls q (check_call es ∷ cs) a n p e h b =
      let a' = add_all fl hl (run_checks es) a in
      let same : lookup q a'.rates ≡ tally n p = ap (lookup q) (rates-run_checks es a) ∙ e in
      let less : n + length (run_calls cs) < u64_mod =
        omega (arith, b, length-append (run_checks {F = fl.F} es) (run_calls cs)) in
      ap (λ (x : Agg fl hl). lookup q x.rates)
        (add_all-append fl hl (run_checks es) (run_calls cs) a)
      ∙ rates-run_calls q cs a' n p same h less
  rates-run_calls q (histogram_add name value tags ∷ cs) a n p e h b =
      rates-run_calls q cs _ n p e h (omega (arith, b))
  rates-run_calls q (counter_add name value tags ∷ cs) a n p e h b =
      rates-run_calls q cs _ n p e h (omega (arith, b))
  rates-run_calls q (gauge_set name value tags ∷ cs) a n p e h b =
      rates-run_calls q cs _ n p e h (omega (arith, b))
  rates-run_calls q (rate_add name success tags ∷ cs) a n p e h b =
      let n' = (if text_eq name q then 1 else 0) + n in
      let p' = (if text_eq name q && success then 1 else 0) + p in
      let a' = add_all fl hl (run_call (rate_add name success tags)) a in
      let here : lookup q a'.rates ≡ tally n' p' =
        ground (arith, lookup-update name q (0, 0) (observe success) a.rates, text_eq_iff name q) in
      ground (arith, rates-run_calls q cs a' n' p' here)

  -- After calls of a script that send fewer than 2^64 metrics a report has for each check the assertions
  -- of its name that stand before an entry that cannot be read, and how many of them hold; and for each
  -- rate how often it was added to, and how often with success.
  pub run_calls-tallies :
      (q : Text) (cs : List (Call fl.F))
      → length (run_calls cs) < u64_mod
      → let a = add_all fl hl (run_calls cs) (new_aggregator fl.F hl) in
        (lookup q a.checks ≡ tally (checked q cs).0 (checked q cs).1)
        × (lookup q a.rates ≡ tally (rated q cs).0 (rated q cs).1)
  unfolding lookup
  run_calls-tallies q cs h =
      let (made, passed) = run_calls-checked fl.F q cs in
      (
        (checks-add_all-new fl hl q (run_calls cs) h).0 ∙ rw (made, passed) refl,
        ground (
          arith,
          rates-run_calls q cs (new_aggregator fl.F hl) 0 0 refl (omega arith) (omega (arith, h)),
        ),
      )
