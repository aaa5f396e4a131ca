-- ===== src/Stats/Sharded/Refines.antt =====
-- Sharding is invisible: what a run of `ShardedAggregator` merges to.
use fusillade.Prelude.{
  ℕ, zero, suc, ◌+◌, ◌-◌, ◌%◌, ◌<◌, ◌≤◌, ◌≡◌, refl, ap, List, [], ◌∷◌, some, Text, arith, length,
  lookup, nat_key, text_key, map, drop, ltb, Bool-cases, inl, inr,
}
use native.Mathlib.Nat.{mod-lt}
use fusillade.Float.{Float}
use fusillade.Stats.Add.{add, add_all}
use fusillade.Stats.Sharded.Counts.{counts-merge}
use fusillade.Stats.Sharded.Totals.{totals, totals-merge}
use fusillade.Stats.Sharded.{
  Sharded, new, add_to_shard, add_run, merge, modify, copies, trim_rounds, trim_logs,
}
use fusillade.Stats.Types.{Metric, HistogramLib, StatsAggregator, new_aggregator}

-- Two aggregators show the same counters, durations, extremes, status codes, errors, checks and
-- rates.
pub record Agrees {F H : Type 0} (a b : StatsAggregator F H) : Type 0 where
  pub totals_agree : totals a ≡ totals b
  pub status_agree : (q : ℕ) → lookup q a.status_codes ≡ lookup q b.status_codes
  pub errors_agree : (q : Text) → lookup q a.errors ≡ lookup q b.errors
  pub checks_agree : (q : Text) → lookup q a.checks ≡ lookup q b.checks
  pub rates_agree : (q : Text) → lookup q a.rates ≡ lookup q b.rates

length-copies : {A : Type 0} (n : ℕ) (a : A) → length (copies n a) ≡ n
unfolding copies
length-copies zero a = refl
length-copies (suc n) a = ap suc (length-copies n a)

modify_total :
    {A : Type 0} (f : A → A) (i : ℕ) (xs : List A)
    → i < length xs
    → (ys : List A) × (modify f i xs ≡ some ys) × (length ys ≡ length xs)
unfolding modify
modify_total f i [] h = absurd (omega arith)
modify_total f zero (x ∷ xs) h = (f x ∷ xs, refl, refl)
modify_total f (suc i) (x ∷ xs) h =
    let (ys, e, l) = modify_total f i xs (omega arith) in (x ∷ ys, ground arith, omega (arith, l))

module _ (fl : Float) (hl : HistogramLib) where
  -- As many shards as the number says, and at least one.
  abbrev pub IsSized : Sharded fl hl → Type 0
  IsSized s = (length s.shards ≡ s.num_shards) × (0 < s.num_shards)

  pub add_to_shard_total :
      (w : ℕ) (m : Metric fl.F) (s : Sharded fl hl)
      → IsSized s
      → (t : Sharded fl hl) × (add_to_shard fl hl w m s ≡ some t) × IsSized t
  unfolding add_to_shard
  add_to_shard_total w m s h =
      let (ys, e, l) =
        modify_total (add fl hl m) (w % s.num_shards) s.shards (omega (arith, mod-lt w h.1)) in
      (record s { shards = ys }, ground arith, (omega arith, h.1))

  add_run_total :
      (ms : List (ℕ × Metric fl.F)) (s : Sharded fl hl)
      → IsSized s
      → (t : Sharded fl hl) × (add_run fl hl ms s ≡ some t) × IsSized t
  unfolding add_run
  add_run_total [] s h = (s, refl, h)
  add_run_total ((w, m) ∷ ms) s h =
      let (t, e, ht) = add_to_shard_total w m s h in
      let (u, e', hu) = add_run_total ms t ht in (u, ground arith, hu)

  pub new-IsSized : (n : ℕ) → 0 < n → IsSized (new fl hl n)
  unfolding new
  new-IsSized n h = (omega (arith, length-copies n (new_aggregator fl.F hl)), h)

  -- With at least one shard no addition panics, whatever the worker ids are, and the merged shards
  -- agree with a single aggregator that is given the same metrics in the same order: in the totals,
  -- the extremes, the status codes, the errors, the checks and the rates.
  pub merge-Agrees :
      (n : ℕ) (ms : List (ℕ × Metric fl.F))
      → 0 < n
      → (s : Sharded fl hl) × (add_run fl hl ms (new fl hl n) ≡ some s)
        × Agrees (merge fl hl s) (add_all fl hl (map (λ p. p.1) ms) (new_aggregator fl.F hl))
  unfolding new
  merge-Agrees n ms h =
      let (s, e, _) =
        add_run_total ms (new fl hl n)
          (omega (arith, length-copies n (new_aggregator fl.F hl)), h) in
      let (c1, c2, c3, c4) = counts-merge fl hl n ms e in
      (
        s,
        e,
        record {
          totals_agree = totals-merge fl hl n ms e;
          status_agree = c1;
          errors_agree = c2;
          checks_agree = c3;
          rates_agree = c4;
        },
      )

trim_rounds-drop :
    (n : ℕ) (logs : List Text)
    → length logs ≤ n + 100
    → trim_rounds n logs ≡ drop (length logs - 100) logs
unfolding trim_rounds
trim_rounds-drop zero logs h = let e : length logs - 100 ≡ 0 = omega arith in rw e
trim_rounds-drop (suc n) [] h = let e : ◌-◌ 0 100 ≡ 0 = omega arith in refl
trim_rounds-drop (suc n) (x ∷ xs) h = elim (Bool-cases (ltb 100 (suc (length xs)))) [
  | inl more ↦
      let e : suc (length xs) - 100 ≡ suc (length xs - 100) = ground arith in
      rw (more, e) (trim_rounds-drop n xs (omega arith))
  | inr done ↦ let e : suc (length xs) - 100 ≡ 0 = ground arith in rw (done, e)
]

-- The merged logs are the last hundred, in the order of the shards.
trim_logs-drop : (logs : List Text) → trim_logs logs ≡ drop (length logs - 100) logs
unfolding trim_logs
trim_logs-drop logs = trim_rounds-drop (length logs) logs (omega arith)
