-- ===== src/Cluster/Metrics.antt =====
-- What the controller adds, of the metrics that a worker sends.
use fusillade.Prelude.{
  flatten, ok, ℕ, ◌<◌, ◌≡◌, refl, sym, ap, ◌∙◌, false, Option, none, some, List, [], ◌∷◌, ◌++◌,
  Text, arith, u64_mod, u16_mod, All, map, ◌%◌,
}
use fusillade.Float.{Float}
use fusillade.Stats.Types.{
  HistogramLib, Metric, request, check, log, histogram, rate, counter, gauge,
}
use fusillade.Stats.Add.{Agg, add, add_all}
use fusillade.Cluster.{
  ProtoMetric, internal_metric_to_proto, received_metric, add_batch, add_batches, answer,
  report_metrics, check_auth,
}

-- A timing that the fields of the message hold.
abbrev pub Fits : {F : Type 0} → Metric F → Type 0
Fits (request name t status error tags) =
    (t.duration < u64_mod)
    × (t.blocked < u64_mod)
    × (t.connecting < u64_mod)
    × (t.tls_handshaking < u64_mod)
    × (t.sending < u64_mod)
    × (t.waiting < u64_mod)
    × (t.receiving < u64_mod)
    × (status < u16_mod)
Fits _ = Unit

-- What a worker sends of its metrics.
abbrev pub sent : {F : Type 0} → List (Metric F) → List ProtoMetric
sent [] = []
sent (m ∷ ms) = elim (internal_metric_to_proto m) [ none ↦ sent ms | some p ↦ p ∷ sent ms ]

-- The requests among metrics, without their tags and whether their connection was reused.
abbrev pub bare_requests : {F : Type 0} → List (Metric F) → List (Metric F)
bare_requests [] = []
bare_requests (request name t status error tags ∷ ms) =
    request name (record t { pool_reused = false }) status error [] ∷ bare_requests ms
bare_requests (_ ∷ ms) = bare_requests ms

in_u64 : (a : ℕ) → a < u64_mod → a % u64_mod ≡ a
in_u64 a h = omega arith

in_u16 : (a : ℕ) → a < u16_mod → a % u16_mod ≡ a
in_u16 a h = omega arith

received-sent :
    {F : Type 0} (ms : List (Metric F))
    → All Fits ms
    → map received_metric (sent ms) ≡ bare_requests ms
unfolding received_metric internal_metric_to_proto
received-sent [] h = refl
received-sent (request name t status error tags ∷ ms) ((d, b, c, l, s, w, r, q), h) = rw (
  in_u64 _ d,
  in_u64 _ b,
  in_u64 _ c,
  in_u64 _ l,
  in_u64 _ s,
  in_u64 _ w,
  in_u64 _ r,
  in_u16 _ q,
  received-sent ms h,
)
received-sent (check _ _ _ ∷ ms) h = received-sent ms h.1
received-sent (log _ ∷ ms) h = received-sent ms h.1
received-sent (histogram _ _ _ ∷ ms) h = received-sent ms h.1
received-sent (rate _ _ _ ∷ ms) h = received-sent ms h.1
received-sent (counter _ _ _ ∷ ms) h = received-sent ms h.1
received-sent (gauge _ _ _ ∷ ms) h = received-sent ms h.1

module _ (fl : Float) (hl : HistogramLib) where
  add_batch-add_all :
      (ps : List ProtoMetric) (a : Agg fl hl)
      → add_batch fl hl ps a ≡ add_all fl hl (map received_metric ps) a
  unfolding add_batch add_all
  add_batch-add_all [] a = refl
  add_batch-add_all (p ∷ ps) a = add_batch-add_all ps (add fl hl (received_metric p) a)

  add_all-append :
      (ms ns : List (Metric fl.F)) (a : Agg fl hl)
      → add_all fl hl (ms ++ ns) a ≡ add_all fl hl ns (add_all fl hl ms a)
  unfolding add_all
  add_all-append [] ns a = refl
  add_all-append (m ∷ ms) ns a = add_all-append ms ns (add fl hl m a)

  add_batches-sent :
      (batches : List (List (Metric fl.F))) (a : Agg fl hl)
      → All (All Fits) batches
      → add_batches fl hl (map sent batches) a
        ≡ add_all fl hl (flatten (map bare_requests batches)) a
  unfolding add_batches add_all
  add_batches-sent [] a h = refl
  add_batches-sent (b ∷ bs) a h =
      ap (add_batches fl hl (map sent bs))
        (add_batch-add_all (sent b) a ∙ ap (λ ms. add_all fl hl ms a) (received-sent b h.0))
      ∙ add_batches-sent bs (add_all fl hl (bare_requests b) a) h.1
      ∙ sym (add_all-append (bare_requests b) (flatten (map bare_requests bs)) a)

  -- When the controller accepts a worker's stream, and the times fit the fields of the message, the
  -- controller's statistics are those of the requests of all batches, in order, less their tags and
  -- the reuse of their connections; the other metrics are not sent.
  pub report_metrics-sent :
      (token authorization : Option Text) (batches : List (List (Metric fl.F))) (a : Agg fl hl)
      → check_auth token authorization ≡ ok tt
      → All (All Fits) batches
      → report_metrics fl hl token authorization (map sent batches) a
        ≡ (add_all fl hl (flatten (map bare_requests batches)) a, ok tt)
  unfolding report_metrics answer
  report_metrics-sent token authorization batches a e h =
      ap (λ r. answer fl hl r (map sent batches) a) e
      ∙ ap (λ s. (s, ok tt)) (add_batches-sent batches a h)
