-- ===== src/Stats/Sharded/Views.antt =====
-- A view is a part of the statistics that adds up: what an added metric contributes to it does not
-- depend on what was added before. Any view of the merged shards is that of a single aggregator.
use fusillade.Prelude.{
  ℕ, zero, suc, ◌%◌, ◌≡◌, refl, sym, ◌∙◌, ap, List, [], ◌∷◌, some, arith, All, Option-cases, inl,
  inr, map, Text,
}
use fusillade.Float.{Float}
use fusillade.Stats.Add.{add, add_all, Agg}
use fusillade.Stats.Sharded.Sums.{sum_from, sum_from-modify, sum_from-copies}
use fusillade.Stats.Sharded.{
  Sharded, new, add_to_shard, add_run, merge, merge_from, merge_shard, modify, copies,
}
use fusillade.Stats.Tidy.{IsTidy, new-IsTidy, add-IsTidy}
use fusillade.Stats.Types.{Metric, HistogramLib, StatsAggregator, new_aggregator}

pub record View (fl : Float) (hl : HistogramLib) : Type 1 where
  pub M : Type 0
  pub plus : M → M → M
  pub unit : M
  pub view : Agg fl hl → M
  pub delta : Metric fl.F → M
  pub assoc : (x y z : M) → plus (plus x y) z ≡ plus x (plus y z)
  pub comm : (x y : M) → plus x y ≡ plus y x
  pub idem : plus unit unit ≡ unit
  pub view_new : view (new_aggregator fl.F hl) ≡ unit
  pub view_add :
      (m : Metric fl.F) (a : Agg fl hl) → IsTidy a → view (add fl hl m a) ≡ plus (view a) (delta m)
  pub view_merge :
      (m s : Agg fl hl) → IsTidy s → view (merge_shard fl hl m s) ≡ plus (view m) (view s)
  pub view_logs : (a : Agg fl hl) (logs : List Text) → view (record a { logs = logs }) ≡ view a

copies-IsTidy :
    {F H : Type 0} (n : ℕ) (a : StatsAggregator F H) → IsTidy a → All IsTidy (copies n a)
unfolding copies
copies-IsTidy zero a h = tt
copies-IsTidy (suc n) a h = (h, copies-IsTidy n a h)

modify-All :
    {A : Type 0} (P : A → Type 0) (f : A → A)
    → ((a : A) → P a → P (f a))
    → (i : ℕ) (xs : List A) {ys : List A} → modify f i xs ≡ some ys
    → All P xs
    → All P ys
unfolding modify
modify-All P f h i [] e p = cc
modify-All P f h zero (x ∷ xs) {ys} e p =
    let e' : f x ∷ xs ≡ ys = ground arith in rw (← e') (h x p.0, p.1)
modify-All P f h (suc i) (x ∷ xs) {ys} e p = elim (Option-cases (modify f i xs)) [
  | inl n ↦ absurd (ground arith)
  | inr (zs, m) ↦
      let e' : x ∷ zs ≡ ys = ground arith in rw (← e') (p.0, modify-All P f h i xs m p.1)
]

module _ (fl : Float) (hl : HistogramLib) where
  -- A successful addition, taken apart.
  pub add_to_shard-shards :
      (w : ℕ) (m : Metric fl.F) (s : Sharded fl hl) {s' : Sharded fl hl}
      → add_to_shard fl hl w m s ≡ some s'
      → modify (add fl hl m) (w % s.num_shards) s.shards ≡ some s'.shards
  unfolding add_to_shard
  add_to_shard-shards w m s e =
      elim (Option-cases (modify (add fl hl m) (w % s.num_shards) s.shards)) [
        | inl n ↦ absurd (ground arith)
        | inr (ys, found) ↦ ground arith
      ]

  pub add_to_shard-IsTidy :
      (w : ℕ) (m : Metric fl.F) (s : Sharded fl hl) {s' : Sharded fl hl}
      → add_to_shard fl hl w m s ≡ some s'
      → All IsTidy s.shards
      → All IsTidy s'.shards
  add_to_shard-IsTidy w m s e =
      modify-All IsTidy (add fl hl m) (add-IsTidy fl hl m) _ s.shards (add_to_shard-shards w m s e)

module _ (fl : Float) (hl : HistogramLib) (v : View fl hl) where
  open v use {plus, view, delta, assoc, comm, view_add, view_merge}

  view-merge_from :
      (m : Agg fl hl) (ss : List (Agg fl hl))
      → All IsTidy ss
      → view (merge_from fl hl m ss) ≡ sum_from plus view (view m) ss
  unfolding merge_from sum_from
  view-merge_from m [] h = refl
  view-merge_from m (s ∷ ss) h =
      view-merge_from (merge_shard fl hl m s) ss h.1
      ∙ ap (λ x. sum_from plus view x ss) (view_merge m s h.0)

  view-merge :
      (s : Sharded fl hl)
      → All IsTidy s.shards
      → view (merge fl hl s) ≡ sum_from plus view v.unit s.shards
  unfolding merge
  view-merge s h =
      v.view_logs _ _
      ∙ view-merge_from _ s.shards h
      ∙ ap (λ x. sum_from plus view x s.shards) v.view_new

  -- The shards' sum follows the single aggregator through a run.
  add_run-view :
      (ms : List (ℕ × Metric fl.F)) (s : Sharded fl hl) (a : Agg fl hl) {s' : Sharded fl hl}
      → add_run fl hl ms s ≡ some s'
      → All IsTidy s.shards
      → IsTidy a
      → sum_from plus view v.unit s.shards ≡ view a
      → view (merge fl hl s') ≡ view (add_all fl hl (map (λ p. p.1) ms) a)
  unfolding add_run add_all
  add_run-view [] s a {s'} e hs ha h =
      let e' : s ≡ s' = ground arith in rw (← e') (view-merge s hs ∙ h)
  add_run-view ((w, m) ∷ ms) s a e hs ha h = elim (Option-cases (add_to_shard fl hl w m s)) [
    | inl n ↦ absurd (ground arith)
    | inr (t, added) ↦
        add_run-view ms t (add fl hl m a) (ground arith) (add_to_shard-IsTidy fl hl w m s added hs)
          (add-IsTidy fl hl m a ha)
          (sum_from-modify plus view assoc comm IsTidy (add fl hl m) (delta m) (view_add m) _ v.unit
              s.shards (add_to_shard-shards fl hl w m s added) hs
            ∙ ap (λ x. plus x (delta m)) h
            ∙ sym (view_add m a ha))
  ]

  pub view-merge-add_run :
      (n : ℕ) (ms : List (ℕ × Metric fl.F)) {s : Sharded fl hl}
      → add_run fl hl ms (new fl hl n) ≡ some s
      → view (merge fl hl s) ≡ view (add_all fl hl (map (λ p. p.1) ms) (new_aggregator fl.F hl))
  unfolding new
  view-merge-add_run n ms e =
      add_run-view ms (new fl hl n) (new_aggregator fl.F hl) e
        (copies-IsTidy n _ (new-IsTidy fl hl)) (new-IsTidy fl hl)
        (sum_from-copies plus view v.unit n _ v.idem v.view_new ∙ sym v.view_new)
