-- ===== src/Pipeline.antt =====
-- src/engine/mod.rs, the way of a metric from the workers to the shards: several consumers take the
-- metrics from one channel, each adds those that it gets to a shard of its own counting, and the first
-- one also posts them to a controller, if there is one. A receipt says which consumer gets the next
-- metric and whether a second has passed since its last post: the channel and the clock decide.
pub mod Shards
pub mod Posts
use fusillade.Prelude.{
  ℕ, ◌*◌, ◌/◌, ◌%◌, ◌<◌, Bool, true, false, ◌&&◌, ◌||◌, List, [], ◌∷◌, ◌++◌, Option, none, some,
  Text, ltb, leb, ◌==◌, if◌then◌else◌, lookup, insert, nat_key, get_or, add_u64, length, bind, min,
  max,
}
use fusillade.Config.{Config, ScenarioConfig}
use fusillade.Float.{Float}
use fusillade.Stats.Sharded as Sharded
use fusillade.Stats.Sharded.{Sharded, add_to_shard}
use fusillade.Stats.Types.{Metric, HistogramLib}

abbrev clamp : ℕ → ℕ → ℕ → ℕ
clamp lo hi n = min (max n lo) hi

abbrev sum_workers : List (Text × ScenarioConfig) → ℕ
sum_workers [] = 0
sum_workers ((name, s) ∷ m) = add_u64 (get_or s.workers 1) (sum_workers m)

unfoldable pub total_workers : {F : Type 0} → Config F → ℕ
total_workers config = elim config.scenarios [
  | some scenarios ↦ sum_workers scenarios
  | none ↦ get_or config.workers 1
]

unfoldable pub num_shards_for : ℕ → ℕ
num_shards_for workers = clamp 16 256 (workers / 100)

-- The products do not wrap for the numbers of workers that a machine can hold.
unfoldable pub channel_size : ℕ → ℕ
channel_size workers =
    if ltb 30_000 workers
    then clamp 50_000 250_000 (workers * 5)
    else clamp 20_000 100_000 (workers * 10)

unfoldable pub num_aggregators_for : ℕ → ℕ
num_aggregators_for cpus = max cpus 2 / 2

pub record Consumer (F : Type 0) : Type 0 where
  pub local_counter : ℕ
  pub batch : List (Metric F)

pub record Receipt (F : Type 0) : Type 0 where
  pub agg_id : ℕ
  pub due : Bool
  pub metric : Metric F

module _ (fl : Float) (hl : HistogramLib) where
  pub record Pipeline : Type 0 where
    pub shards : Sharded fl hl
    pub consumers : List (ℕ × Consumer fl.F)
    pub posted : List (List (Metric fl.F))

  unfoldable pub start : ℕ → Pipeline
  start num_shards = record { shards = Sharded.new fl hl num_shards; consumers = []; posted = [] }

  -- A consumer counts from its own number.
  abbrev pub consumer_of : ℕ → List (ℕ × Consumer fl.F) → Consumer fl.F
  consumer_of agg_id consumers =
      get_or (lookup agg_id consumers) (record { local_counter = agg_id; batch = [] })

  -- the block of the first consumer, with the consumer behind its count
  unfoldable pub report : ℕ → Bool → Metric fl.F → Consumer fl.F → Pipeline → Pipeline
  report agg_id due m c p =
      let batch = c.batch ++ (m ∷ []) in
      if due || leb 100 (length batch)
      then record p {
        consumers = insert agg_id (record c { batch = [] }) p.consumers;
        posted = p.posted ++ (batch ∷ []);
      }
      else record p { consumers = insert agg_id (record c { batch = batch }) p.consumers }

  -- behind the addition to the shard
  unfoldable pub settle : Bool → ℕ → ℕ → Bool → Metric fl.F → Pipeline → Pipeline
  unfolding report
  settle reporting num_aggregators agg_id due m p =
      let c = consumer_of agg_id p.consumers in
      let c' : Consumer fl.F = record c {
        local_counter = add_u64 c.local_counter num_aggregators;
      } in
      if agg_id == 0 && reporting
      then report agg_id due m c' p
      else record p { consumers = insert agg_id c' p.consumers }

  -- One round of `while let Ok(metric) = rx.recv()`.
  unfoldable pub receive : Bool → ℕ → Receipt fl.F → Pipeline → Option Pipeline
  unfolding settle
  receive reporting num_aggregators r p =
      let shard = (consumer_of r.agg_id p.consumers).local_counter % (p.shards).num_shards in
      bind (add_to_shard fl hl shard r.metric p.shards) (λ s.
        some (settle reporting num_aggregators r.agg_id r.due r.metric (record p { shards = s })))

  unfoldable pub receive_all : Bool → ℕ → List (Receipt fl.F) → Pipeline → Option Pipeline
  unfolding receive
  receive_all reporting num_aggregators [] p = some p
  receive_all reporting num_aggregators (r ∷ rs) p =
      bind (receive reporting num_aggregators r p) (receive_all reporting num_aggregators rs)
