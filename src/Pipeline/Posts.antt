-- ===== src/Pipeline/Posts.antt =====
-- What is posted to the controller.
use mathlib.Core.Path.{subst}
use fusillade.Prelude.{
  flatten, flatten-snoc, ℕ, ◌≡◌, ◌≢◌, refl, sym, ap, ◌∙◌, Bool, true, ◌||◌, List, [], ◌∷◌, ◌++◌,
  Option, none, some, arith, ◌==◌, if◌then◌else◌, append_assoc, append-nil, lookup, insert,
  lookup-insert, nat_key, Bool-cases, Option-cases, inl, inr, ==_iff, bind, length, leb, ◌%◌,
}
use fusillade.Float.{Float}
use fusillade.Pipeline.{
  Pipeline, Consumer, Receipt, start, consumer_of, receive, receive_all, settle, report,
}
use fusillade.Pipeline.Shards.{some_inj}
use fusillade.Stats.Sharded.{Sharded, add_to_shard}
use fusillade.Stats.Types.{Metric, HistogramLib}

-- The metrics that the first consumer gets.
abbrev pub first_share : {F : Type 0} → List (Receipt F) → List (Metric F)
first_share [] = []
first_share (r ∷ rs) = if r.agg_id == 0 then r.metric ∷ first_share rs else first_share rs

first_share-cons :
    {F : Type 0} (r : Receipt F) (rs : List (Receipt F))
    → (if r.agg_id == 0 then r.metric ∷ [] else []) ++ first_share rs ≡ first_share (r ∷ rs)
first_share-cons r rs = ground arith

no_none : {A : Type 0} {x : A} → none ≢ some x
no_none p = ground (arith, p)

module _ (fl : Float) (hl : HistogramLib) where
  -- What has been posted, and what waits in the batch of the first consumer.
  abbrev pub outbox : Pipeline fl hl → List (Metric fl.F)
  outbox p = flatten p.posted ++ (consumer_of fl hl 0 p.consumers).batch

  consumer_of-insert :
      (a : ℕ) (c : Consumer fl.F) (m : List (ℕ × Consumer fl.F))
      → consumer_of fl hl 0 (insert a c m) ≡ (if a == 0 then c else consumer_of fl hl 0 m)
  consumer_of-insert a c m = ground (arith, lookup-insert a 0 c m)

  in_outbox :
      (m : Metric fl.F) (c : Consumer fl.F) (p : Pipeline fl hl)
      → c.batch ≡ (consumer_of fl hl 0 p.consumers).batch
      → flatten p.posted ++ (c.batch ++ (m ∷ [])) ≡ outbox p ++ (m ∷ [])
  in_outbox m c p e =
      sym (append_assoc (flatten p.posted) c.batch (m ∷ []))
      ∙ ap (λ b. flatten p.posted ++ b ++ (m ∷ [])) e

  report-outbox :
      (due : Bool) (m : Metric fl.F) (c : Consumer fl.F) (p : Pipeline fl hl)
      → c.batch ≡ (consumer_of fl hl 0 p.consumers).batch
      → outbox (report fl hl 0 due m c p) ≡ outbox p ++ (m ∷ [])
  unfolding report
  report-outbox due m c p e = elim (Bool-cases (due || leb 100 (length (c.batch ++ (m ∷ []))))) [
    | inl full ↦ rw full (
        ap (λ x. flatten (p.posted ++ ((c.batch ++ (m ∷ [])) ∷ [])) ++ x.batch)
          (consumer_of-insert 0 (record c { batch = [] }) p.consumers)
        ∙ append-nil (flatten (p.posted ++ ((c.batch ++ (m ∷ [])) ∷ [])))
        ∙ flatten-snoc p.posted (c.batch ++ (m ∷ []))
        ∙ in_outbox m c p e)
    | inr not_full ↦ rw not_full (
        ap (λ x. flatten p.posted ++ x.batch)
          (consumer_of-insert 0 (record c { batch = c.batch ++ (m ∷ []) }) p.consumers)
        ∙ in_outbox m c p e)
  ]

  settle-outbox :
      (aggregators a : ℕ) (due : Bool) (m : Metric fl.F) (p : Pipeline fl hl)
      → outbox (settle fl hl true aggregators a due m p)
        ≡ outbox p ++ (if a == 0 then m ∷ [] else [])
  unfolding settle
  settle-outbox aggregators a due m p = elim (Bool-cases (a == 0)) [
    | inl q ↦
        subst
          (λ b.
            outbox (settle fl hl true aggregators b due m p)
            ≡ outbox p ++ (if b == 0 then m ∷ [] else []))
          (sym ((==_iff a 0).0 q)) (report-outbox due m _ p refl)
    | inr q ↦ rw q (
        ap (λ x. flatten p.posted ++ x.batch) (consumer_of-insert a _ p.consumers)
        ∙ rw q (sym (append-nil (outbox p))))
  ]

  receive_all-outbox :
      (aggregators : ℕ) (rs : List (Receipt fl.F)) (p q : Pipeline fl hl)
      → receive_all fl hl true aggregators rs p ≡ some q
      → outbox q ≡ outbox p ++ first_share rs
  unfolding receive_all receive
  receive_all-outbox aggregators [] p q e =
      ap outbox (some_inj (sym e)) ∙ sym (append-nil (outbox p))
  receive_all-outbox aggregators (r ∷ rs) p q e =
      let shard = (consumer_of fl hl r.agg_id p.consumers).local_counter % (p.shards).num_shards in
      let rest : Option (Sharded fl hl) → Option (Pipeline fl hl) = λ o.
        bind
          (bind o (λ s.
            some (settle fl hl true aggregators r.agg_id r.due r.metric (record p { shards = s }))))
          (receive_all fl hl true aggregators rs) in
      elim (Option-cases (add_to_shard fl hl shard r.metric p.shards)) [
        | inl n ↦ absurd (no_none (sym (ap rest n) ∙ e))
        | inr (s, k) ↦
            let next =
              settle fl hl true aggregators r.agg_id r.due r.metric (record p { shards = s }) in
            receive_all-outbox aggregators rs next q (sym (ap rest k) ∙ e)
            ∙ ap (λ l. l ++ first_share rs)
                (settle-outbox aggregators r.agg_id r.due r.metric (record p { shards = s }))
            ∙ append_assoc (outbox p) (if r.agg_id == 0 then r.metric ∷ [] else []) (first_share rs)
            ∙ ap (λ l. outbox p ++ l) (first_share-cons r rs)
      ]

  -- With a controller to report to, what is posted, batch after batch, and what waits in the first
  -- consumer's batch at the end are the metrics that the first consumer got from the channel, in
  -- order: those that the other consumers got are not among them, and the batch is not posted.
  pub receive_all-posted :
      (aggregators num_shards : ℕ) (rs : List (Receipt fl.F)) (p : Pipeline fl hl)
      → receive_all fl hl true aggregators rs (start fl hl num_shards) ≡ some p
      → flatten p.posted ++ (consumer_of fl hl 0 p.consumers).batch ≡ first_share rs
  unfolding start lookup
  receive_all-posted aggregators num_shards rs p e =
      receive_all-outbox aggregators rs (start fl hl num_shards) p e
