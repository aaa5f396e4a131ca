-- ===== src/Config/Priority.antt =====
-- The priority chain: defaults, script, configuration file, command line.
use fusillade.Prelude.{◌≡◌, refl, ◌∙◌, List, [], ◌∷◌, map, Option, none, some}
use fusillade.Config.{Config, default, merge_field, merge_from}

-- `merge_from` with one layer after the other, the weakest first.
abbrev pub merge_all : {F : Type 0} → List (Config F) → Config F → Config F
merge_all [] config = config
merge_all (layer ∷ layers) config = merge_all layers (merge_from config layer)

-- The last of the values that is set.
abbrev pub or_later : {A : Type 0} → Option A → Option A → Option A
or_later early none = early
or_later early (some v) = some v

abbrev pub last_set : {A : Type 0} → List (Option A) → Option A
last_set [] = none
last_set (x ∷ xs) = or_later x (last_set xs)

-- Each setting by itself: the value of the last layer that sets it.
abbrev pub strongest : {F : Type 0} → List (Config F) → Config F
strongest layers = record {
  workers = last_set (map (λ l. l.workers) layers);
  duration = last_set (map (λ l. l.duration) layers);
  schedule = last_set (map (λ l. l.schedule) layers);
  executor = last_set (map (λ l. l.executor) layers);
  rate = last_set (map (λ l. l.rate) layers);
  time_unit = last_set (map (λ l. l.time_unit) layers);
  criteria = last_set (map (λ l. l.criteria) layers);
  min_iteration_duration = last_set (map (λ l. l.min_iteration_duration) layers);
  warmup = last_set (map (λ l. l.warmup) layers);
  stop = last_set (map (λ l. l.stop) layers);
  iterations = last_set (map (λ l. l.iterations) layers);
  scenarios = last_set (map (λ l. l.scenarios) layers);
  jitter = last_set (map (λ l. l.jitter) layers);
  drop = last_set (map (λ l. l.drop) layers);
  stack_size = last_set (map (λ l. l.stack_size) layers);
  heap_size = last_set (map (λ l. l.heap_size) layers);
  response_sink = last_set (map (λ l. l.response_sink) layers);
  no_endpoint_tracking = last_set (map (λ l. l.no_endpoint_tracking) layers);
  abort_on_fail = last_set (map (λ l. l.abort_on_fail) layers);
  memory_safe = last_set (map (λ l. l.memory_safe) layers);
  insecure = last_set (map (λ l. l.insecure) layers);
  max_redirects = last_set (map (λ l. l.max_redirects) layers);
  user_agent = last_set (map (λ l. l.user_agent) layers);
  no_pool = last_set (map (λ l. l.no_pool) layers);
  env_passthrough = last_set (map (λ l. l.env_passthrough) layers);
}

merge_field_assoc :
    {A : Type 0} (x y z : Option A) → merge_field (merge_field x y) z ≡ merge_field x (or_later y z)
unfolding merge_field
merge_field_assoc x y none = refl
merge_field_assoc x y (some v) = refl

merge_field-none : {A : Type 0} (x : Option A) → merge_field none x ≡ x
unfolding merge_field
merge_field-none none = refl
merge_field-none (some v) = refl

merge_from_assoc :
    {F : Type 0} (a b : Config F) (layers : List (Config F))
    → merge_from (merge_from a b) (strongest layers) ≡ merge_from a (strongest (b ∷ layers))
unfolding merge_from
merge_from_assoc a b layers = λ i. record {
  workers = merge_field_assoc a.workers b.workers (last_set (map (λ l. l.workers) layers)) i;
  duration = merge_field_assoc a.duration b.duration (last_set (map (λ l. l.duration) layers)) i;
  schedule = merge_field_assoc a.schedule b.schedule (last_set (map (λ l. l.schedule) layers)) i;
  executor = merge_field_assoc a.executor b.executor (last_set (map (λ l. l.executor) layers)) i;
  rate = merge_field_assoc a.rate b.rate (last_set (map (λ l. l.rate) layers)) i;
  time_unit =
      merge_field_assoc a.time_unit b.time_unit (last_set (map (λ l. l.time_unit) layers)) i;
  criteria = merge_field_assoc a.criteria b.criteria (last_set (map (λ l. l.criteria) layers)) i;
  min_iteration_duration =
      merge_field_assoc a.min_iteration_duration b.min_iteration_duration
        (last_set (map (λ l. l.min_iteration_duration) layers)) i;
  warmup = merge_field_assoc a.warmup b.warmup (last_set (map (λ l. l.warmup) layers)) i;
  stop = merge_field_assoc a.stop b.stop (last_set (map (λ l. l.stop) layers)) i;
  iterations =
      merge_field_assoc a.iterations b.iterations (last_set (map (λ l. l.iterations) layers)) i;
  scenarios =
      merge_field_assoc a.scenarios b.scenarios (last_set (map (λ l. l.scenarios) layers)) i;
  jitter = merge_field_assoc a.jitter b.jitter (last_set (map (λ l. l.jitter) layers)) i;
  drop = merge_field_assoc a.drop b.drop (last_set (map (λ l. l.drop) layers)) i;
  stack_size =
      merge_field_assoc a.stack_size b.stack_size (last_set (map (λ l. l.stack_size) layers)) i;
  heap_size =
      merge_field_assoc a.heap_size b.heap_size (last_set (map (λ l. l.heap_size) layers)) i;
  response_sink =
      merge_field_assoc a.response_sink b.response_sink
        (last_set (map (λ l. l.response_sink) layers)) i;
  no_endpoint_tracking =
      merge_field_assoc a.no_endpoint_tracking b.no_endpoint_tracking
        (last_set (map (λ l. l.no_endpoint_tracking) layers)) i;
  abort_on_fail =
      merge_field_assoc a.abort_on_fail b.abort_on_fail
        (last_set (map (λ l. l.abort_on_fail) layers)) i;
  memory_safe =
      merge_field_assoc a.memory_safe b.memory_safe (last_set (map (λ l. l.memory_safe) layers)) i;
  insecure = merge_field_assoc a.insecure b.insecure (last_set (map (λ l. l.insecure) layers)) i;
  max_redirects =
      merge_field_assoc a.max_redirects b.max_redirects
        (last_set (map (λ l. l.max_redirects) layers)) i;
  user_agent =
      merge_field_assoc a.user_agent b.user_agent (last_set (map (λ l. l.user_agent) layers)) i;
  no_pool = merge_field_assoc a.no_pool b.no_pool (last_set (map (λ l. l.no_pool) layers)) i;
  env_passthrough =
      merge_field_assoc a.env_passthrough b.env_passthrough
        (last_set (map (λ l. l.env_passthrough) layers)) i;
}

merge_from-default : {F : Type 0} (c : Config F) → merge_from default c ≡ c
unfolding merge_from
merge_from-default c = λ i. record {
  workers = merge_field-none c.workers i;
  duration = merge_field-none c.duration i;
  schedule = merge_field-none c.schedule i;
  executor = merge_field-none c.executor i;
  rate = merge_field-none c.rate i;
  time_unit = merge_field-none c.time_unit i;
  criteria = merge_field-none c.criteria i;
  min_iteration_duration = merge_field-none c.min_iteration_duration i;
  warmup = merge_field-none c.warmup i;
  stop = merge_field-none c.stop i;
  iterations = merge_field-none c.iterations i;
  scenarios = merge_field-none c.scenarios i;
  jitter = merge_field-none c.jitter i;
  drop = merge_field-none c.drop i;
  stack_size = merge_field-none c.stack_size i;
  heap_size = merge_field-none c.heap_size i;
  response_sink = merge_field-none c.response_sink i;
  no_endpoint_tracking = merge_field-none c.no_endpoint_tracking i;
  abort_on_fail = merge_field-none c.abort_on_fail i;
  memory_safe = merge_field-none c.memory_safe i;
  insecure = merge_field-none c.insecure i;
  max_redirects = merge_field-none c.max_redirects i;
  user_agent = merge_field-none c.user_agent i;
  no_pool = merge_field-none c.no_pool i;
  env_passthrough = merge_field-none c.env_passthrough i;
}

merge_all_lem :
    {F : Type 0} (layers : List (Config F)) (c : Config F)
    → merge_all layers c ≡ merge_from c (strongest layers)
unfolding merge_from merge_field
merge_all_lem [] c = refl
merge_all_lem (layer ∷ layers) c =
    merge_all_lem layers (merge_from c layer) ∙ merge_from_assoc c layer layers

-- Layers that are merged one after the other into the default give each setting the value of the last layer
-- that sets it, and leave it unset where none does.
pub merge_all-strongest :
    {F : Type 0} (layers : List (Config F)) → merge_all layers default ≡ strongest layers
merge_all-strongest layers = merge_all_lem layers default ∙ merge_from-default (strongest layers)
