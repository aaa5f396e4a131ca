-- ===== src/Pipeline/Shards.antt =====
-- What the shards hold once the consumers have shared out the metrics.
use mathlib.Core.Path.{subst}
use fusillade.Prelude.{
  ℕ, ◌%◌, ◌<◌, ◌≡◌, refl, sym, ap, ◌∙◌, Bool, List, [], ◌∷◌, map, some, arith, bind, get_or,
}
use fusillade.Float.{Float}
use fusillade.Pipeline.{Pipeline, Receipt, start, consumer_of, receive, receive_all, settle, report}
use fusillade.Stats.Add.{add_all}
use fusillade.Stats.Sharded.{Sharded, add_run, merge, add_to_shard}
use fusillade.Stats.Sharded.Refines.{Agrees, merge-Agrees, IsSized, new-IsSized, add_to_shard_total}
use fusillade.Stats.Types.{Metric, HistogramLib, new_aggregator}

pub some_inj : {A : Type 0} {x y : A} → some x ≡ some y → x ≡ y
some_inj {x} p = ap (λ o. get_or o x) p

module _ (fl : Float) (hl : HistogramLib) (reporting : Bool) (aggregators : ℕ) where
  -- nothing behind the addition touches the shards
  settle-shards :
      (r : Receipt fl.F) (p : Pipeline fl hl)
      → (settle fl hl reporting aggregators r.agg_id r.due r.metric p).shards ≡ p.shards
  unfolding settle report
  settle-shards r p = ground arith

  add_run-cons :
      (w : ℕ) (m : Metric fl.F) (ms : List (ℕ × Metric fl.F)) (s t : Sharded fl hl)
      → add_to_shard fl hl w m s ≡ some t
      → add_run fl hl ((w, m) ∷ ms) s ≡ add_run fl hl ms t
  unfolding add_run
  add_run-cons w m ms s t e = ground (arith, e)

  run_total :
      (rs : List (Receipt fl.F)) (p : Pipeline fl hl)
      → IsSized fl hl p.shards
      → (q : Pipeline fl hl) × (ms : List (ℕ × Metric fl.F)) × (receive_all fl hl reporting
            aggregators rs p
          ≡ some q)
        × (add_run fl hl ms p.shards ≡ some q.shards)
        × (map (λ m. m.1) ms ≡ map (λ r. r.metric) rs)
  unfolding receive_all receive add_run
  run_total [] p h = (p, [], refl, refl, refl)
  run_total (r ∷ rs) p h =
      let shard = (consumer_of fl hl r.agg_id p.consumers).local_counter % (p.shards).num_shards in
      let (s, e, k) = add_to_shard_total fl hl shard r.metric p.shards h in
      let next =
        settle fl hl reporting aggregators r.agg_id r.due r.metric (record p { shards = s }) in
      let same = settle-shards r (record p { shards = s }) in
      let (q, ms, a, b, c) = run_total rs next (subst (IsSized fl hl) (sym same) k) in
      (
        q,
        (shard, r.metric) ∷ ms,
        ap
              (λ o.
                bind
                  (bind o (λ t. some (
                    settle fl hl reporting aggregators r.agg_id r.due r.metric
                      (record p { shards = t }))))
                  (receive_all fl hl reporting aggregators rs))
              e
            ∙ a,
        add_run-cons shard r.metric ms p.shards s e ∙ ap (add_run fl hl ms) (sym same) ∙ b,
        ap (λ l. r.metric ∷ l) c,
      )

  -- With at least one shard no consumer fails, and however the metrics are shared out among the
  -- consumers, the merged shards agree with one aggregator that is given the metrics in the order in
  -- which they leave the channel: in the totals, the extremes, the status codes, the errors, the
  -- checks and the rates.
  pub receive_all-Agrees :
      (num_shards : ℕ) (rs : List (Receipt fl.F))
      → 0 < num_shards
      → (p : Pipeline fl hl) × (receive_all fl hl reporting aggregators rs (start fl hl num_shards)
          ≡ some p)
        × Agrees
            (merge fl hl p.shards)
            (add_all fl hl (map (λ r. r.metric) rs) (new_aggregator fl.F hl))
  unfolding start
  receive_all-Agrees num_shards rs h =
      let (q, ms, a, b, c) =
        run_total rs (start fl hl num_shards) (new-IsSized fl hl num_shards h) in
      let (s, e, agrees) = merge-Agrees fl hl num_shards ms h in
      (
        q,
        a,
        subst (λ l. Agrees (merge fl hl q.shards) (add_all fl hl l (new_aggregator fl.F hl))) c
            (subst
              (λ t.
                Agrees (merge fl hl t) (add_all fl hl (map (λ m. m.1) ms) (new_aggregator fl.F hl)))
              (some_inj (sym e ∙ b)) agrees),
      )
