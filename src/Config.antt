-- ===== src/Config.antt =====
-- src/cli/config.rs: the configuration of a test, and the merge by which the script, the
-- configuration file and the command line are applied one over the other. `F` stands for `f64`.
pub mod Priority
use fusillade.Prelude.{ℕ, Bool, List, Option, none, some, Text}

pub data ExecutorType : Type 0 where
  constant_workers : ExecutorType
  ramping_workers : ExecutorType
  constant_arrival_rate : ExecutorType
  ramping_arrival_rate : ExecutorType
  per_worker_iterations : ExecutorType
  shared_iterations : ExecutorType

pub record ScheduleStep : Type 0 where
  pub duration : Text
  pub target : ℕ

pub record ScenarioConfig : Type 0 where
  pub executor : Option ExecutorType
  pub workers : Option ℕ
  pub duration : Option Text
  pub iterations : Option ℕ
  pub schedule : Option (List ScheduleStep)
  pub rate : Option ℕ
  pub time_unit : Option Text
  pub exec : Option Text
  pub start_time : Option Text
  pub thresholds : Option (List (Text × List Text))
  pub stack_size : Option ℕ
  pub response_sink : Option Bool
  pub no_pool : Option Bool

pub record Config (F : Type 0) : Type 0 where
  pub workers : Option ℕ
  pub duration : Option Text
  pub schedule : Option (List ScheduleStep)
  pub executor : Option ExecutorType
  pub rate : Option ℕ
  pub time_unit : Option Text
  pub criteria : Option (List (Text × List Text))
  pub min_iteration_duration : Option Text
  pub warmup : Option Text
  pub stop : Option Text
  pub iterations : Option ℕ
  pub scenarios : Option (List (Text × ScenarioConfig))
  pub jitter : Option Text
  pub drop : Option F
  pub stack_size : Option ℕ
  pub heap_size : Option ℕ
  pub response_sink : Option Bool
  pub no_endpoint_tracking : Option Bool
  pub abort_on_fail : Option Bool
  pub memory_safe : Option Bool
  pub insecure : Option Bool
  pub max_redirects : Option ℕ
  pub user_agent : Option Text
  pub no_pool : Option Bool
  pub env_passthrough : Option Bool

-- `Config::default()`
abbrev pub default : {F : Type 0} → Config F
default = record {
  workers = none;
  duration = none;
  schedule = none;
  executor = none;
  rate = none;
  time_unit = none;
  criteria = none;
  min_iteration_duration = none;
  warmup = none;
  stop = none;
  iterations = none;
  scenarios = none;
  jitter = none;
  drop = none;
  stack_size = none;
  heap_size = none;
  response_sink = none;
  no_endpoint_tracking = none;
  abort_on_fail = none;
  memory_safe = none;
  insecure = none;
  max_redirects = none;
  user_agent = none;
  no_pool = none;
  env_passthrough = none;
}

-- `if field.is_some() { self.field = field; }`
unfoldable pub merge_field : {A : Type 0} → Option A → Option A → Option A
merge_field own none = own
merge_field own (some v) = some v

-- `merge_from`, with `self` first
unfoldable pub merge_from : {F : Type 0} → Config F → Config F → Config F
unfolding merge_field
merge_from self overrides = record {
  workers = merge_field self.workers overrides.workers;
  duration = merge_field self.duration overrides.duration;
  schedule = merge_field self.schedule overrides.schedule;
  executor = merge_field self.executor overrides.executor;
  rate = merge_field self.rate overrides.rate;
  time_unit = merge_field self.time_unit overrides.time_unit;
  criteria = merge_field self.criteria overrides.criteria;
  min_iteration_duration = merge_field self.min_iteration_duration overrides.min_iteration_duration;
  warmup = merge_field self.warmup overrides.warmup;
  stop = merge_field self.stop overrides.stop;
  iterations = merge_field self.iterations overrides.iterations;
  scenarios = merge_field self.scenarios overrides.scenarios;
  jitter = merge_field self.jitter overrides.jitter;
  drop = merge_field self.drop overrides.drop;
  stack_size = merge_field self.stack_size overrides.stack_size;
  heap_size = merge_field self.heap_size overrides.heap_size;
  response_sink = merge_field self.response_sink overrides.response_sink;
  no_endpoint_tracking = merge_field self.no_endpoint_tracking overrides.no_endpoint_tracking;
  abort_on_fail = merge_field self.abort_on_fail overrides.abort_on_fail;
  memory_safe = merge_field self.memory_safe overrides.memory_safe;
  insecure = merge_field self.insecure overrides.insecure;
  max_redirects = merge_field self.max_redirects overrides.max_redirects;
  user_agent = merge_field self.user_agent overrides.user_agent;
  no_pool = merge_field self.no_pool overrides.no_pool;
  env_passthrough = merge_field self.env_passthrough overrides.env_passthrough;
}
