-- ===== src/Cluster.antt =====
-- src/cluster/mod.rs: the service that the workers of a distributed run connect to. The channel to a
-- worker is a parameter: a sender is a value, and `try_send` is the sender after the command, or
-- nothing when the channel is full or closed. A registration is a task of its own; the tasks share
-- the registry, so what they do is a sequence of events, each with the number of its connection.
pub mod Auth
pub mod Registry
pub mod Metrics
use fusillade.Prelude.{
  strip_prefix, Result, ok, err, ℕ, suc, ◌%◌, Bool, true, false, List, [], ◌∷◌, Option, none, some,
  Text, codes, text_eq, starts_with, drop, length, if◌then◌else◌, ◌==◌, lookup, insert, erase,
  text_key, nat_key, get_or, bind, u64_mod, u16_mod,
}
use fusillade.Float.{Float}
use fusillade.Stats.Types.{HistogramLib, Metric, request, RequestTimings, Tags}
use fusillade.Stats.Add.{Agg, add}

-- `authorization` is the header of that name, if it is there and readable.
unfoldable pub check_auth : Option Text → Option Text → Result Unit Text
check_auth none authorization = ok tt
check_auth (some expected) authorization =
    let provided = get_or (bind authorization (strip_prefix (codes "Bearer "))) [] in
    if text_eq provided expected then ok tt else err (codes "Invalid or missing cluster token")

pub record StartTest : Type 0 where
  pub script_content : Text
  pub config_json : Text
  pub assets : List (Text × Text)
  pub metrics_url : Text

-- `mpsc::Sender`
pub record Channel : Type 1 where
  pub Sender : Type 0
  pub try_send : StartTest → Sender → Option Sender

pub record WorkerInfo (S : Type 0) : Type 0 where
  pub id : Text
  pub address : Text
  pub available_cpus : ℕ
  pub sender : S

abbrev pub WorkerRegistry : Type 0 → Type 0
WorkerRegistry S = List (Text × WorkerInfo S)

-- `worker_message::Msg`; `unset` is a message without its `oneof`.
pub data Msg : Type 0 where
  register : Text → Text → ℕ → Msg
  heartbeat : Text → Msg
  test_finished : Text → Msg
  unset : Msg

-- What `stream.message()` returns: a message, or the end of the stream or an error.
pub data Event (S : Type 0) : Type 0 where
  connected : S → Event S
  message : Msg → Event S
  closed : Event S

-- The task of a connection: it waits for the registration, or it is registered.
pub data Task (S : Type 0) : Type 0 where
  waiting : S → Task S
  registered : WorkerInfo S → Task S

pub record Cluster (S : Type 0) : Type 0 where
  pub tasks : List (ℕ × Task S)
  pub workers : WorkerRegistry S

module _ (ch : Channel) where
  open ch use {Sender}

  -- The loop over the workers: the registry with the senders after it, and the count.
  unfoldable pub send_all : StartTest → WorkerRegistry Sender → WorkerRegistry Sender × ℕ
  send_all cmd [] = ([], 0)
  send_all cmd ((id, worker) ∷ workers) =
      let (workers', sent_count) = send_all cmd workers in
      elim (ch.try_send cmd worker.sender) [
        | some sender ↦ ((id, record worker { sender = sender }) ∷ workers', suc sent_count)
        | none ↦ ((id, worker) ∷ workers', sent_count)
      ]

  unfoldable pub dispatch_test_to_workers :
      StartTest → WorkerRegistry Sender → WorkerRegistry Sender × Result ℕ Text
  unfolding send_all
  dispatch_test_to_workers cmd [] = ([], err (codes "No workers connected"))
  dispatch_test_to_workers cmd (w ∷ ws) =
      let (workers', sent_count) = send_all cmd (w ∷ ws) in (workers', ok sent_count)

module _ {S : Type 0} where
  -- What a task does on an event: the task after it, if it goes on, and the registry.
  unfoldable pub register_step :
      Task S → Event S → WorkerRegistry S → Option (Task S) × WorkerRegistry S
  register_step (waiting tx) (message (register id address available_cpus)) workers =
      let worker_info : WorkerInfo S = record {
        id = id;
        address = address;
        available_cpus = available_cpus;
        sender = tx;
      } in
      (some (registered worker_info), insert id worker_info workers)
  register_step (waiting tx) (message _) workers = (none, workers)
  register_step (waiting tx) (connected _) workers = (some (waiting tx), workers)
  register_step (waiting tx) closed workers = (none, workers)
  register_step (registered w) (message _) workers = (some (registered w), workers)
  register_step (registered w) (connected _) workers = (some (registered w), workers)
  register_step (registered w) closed workers = (none, erase w.id workers)

  abbrev pub set_task : ℕ → Option (Task S) → List (ℕ × Task S) → List (ℕ × Task S)
  set_task n none tasks = erase n tasks
  set_task n (some t) tasks = insert n t tasks

  -- The event reaches the task of connection `n`, if it still runs.
  unfoldable pub act : ℕ → Option (Task S) → Event S → Cluster S → Cluster S
  unfolding register_step
  act n none e c = c
  act n (some t) e c =
      let (t', workers') = register_step t e c.workers in
      record { tasks = set_task n t' c.tasks; workers = workers' }

  unfoldable pub step : ℕ → Event S → Cluster S → Cluster S
  unfolding act
  step n (connected tx) c = record c { tasks = insert n (waiting tx) c.tasks }
  step n (message m) c = act n (lookup n c.tasks) (message m) c
  step n closed c = act n (lookup n c.tasks) closed c

  unfoldable pub run : List (ℕ × Event S) → Cluster S → Cluster S
  unfolding step
  run [] c = c
  run ((n, e) ∷ es) c = run es (step n e c)

-- `proto::Metric`
pub record ProtoMetric : Type 0 where
  pub name : Text
  pub duration_ns : ℕ
  pub status : ℕ
  pub error : Option Text
  pub timestamp : ℕ
  pub blocked_ns : ℕ
  pub connecting_ns : ℕ
  pub tls_ns : ℕ
  pub sending_ns : ℕ
  pub waiting_ns : ℕ
  pub receiving_ns : ℕ
  pub response_size : ℕ
  pub request_size : ℕ

unfoldable pub internal_metric_to_proto : {F : Type 0} → Metric F → Option ProtoMetric
internal_metric_to_proto (request name timings status error tags) = some record {
  name = name;
  duration_ns = timings.duration % u64_mod;
  status = status;
  error = error;
  timestamp = 0;
  blocked_ns = timings.blocked % u64_mod;
  connecting_ns = timings.connecting % u64_mod;
  tls_ns = timings.tls_handshaking % u64_mod;
  sending_ns = timings.sending % u64_mod;
  waiting_ns = timings.waiting % u64_mod;
  receiving_ns = timings.receiving % u64_mod;
  response_size = timings.response_size;
  request_size = timings.request_size;
}
internal_metric_to_proto _ = none

-- The metric that `report_metrics` makes of one that it receives.
unfoldable pub received_metric : {F : Type 0} → ProtoMetric → Metric F
received_metric metric =
    request metric.name
      record {
        duration = metric.duration_ns;
        blocked = metric.blocked_ns;
        connecting = metric.connecting_ns;
        tls_handshaking = metric.tls_ns;
        sending = metric.sending_ns;
        waiting = metric.waiting_ns;
        receiving = metric.receiving_ns;
        response_size = metric.response_size;
        request_size = metric.request_size;
        pool_reused = false;
      }
      (metric.status % u16_mod) metric.error []

module _ (fl : Float) (hl : HistogramLib) where
  -- The metrics of one batch.
  unfoldable pub add_batch : List ProtoMetric → Agg fl hl → Agg fl hl
  unfolding received_metric
  add_batch [] a = a
  add_batch (metric ∷ metrics) a = add_batch metrics (add fl hl (received_metric metric) a)

  unfoldable pub add_batches : List (List ProtoMetric) → Agg fl hl → Agg fl hl
  unfolding add_batch
  add_batches [] a = a
  add_batches (batch ∷ batches) a = add_batches batches (add_batch batch a)

  unfoldable pub answer :
      Result Unit Text → List (List ProtoMetric) → Agg fl hl → Agg fl hl × Result Unit Text
  unfolding add_batches
  answer (err e) batches a = (a, err e)
  answer (ok _) batches a = (add_batches batches a, ok tt)

  unfoldable pub report_metrics :
      Option Text → Option Text → List (List ProtoMetric) → Agg fl hl → Agg fl hl × Result Unit Text
  unfolding check_auth answer
  report_metrics token authorization = answer (check_auth token authorization)
