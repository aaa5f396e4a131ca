-- ===== src/Lib.antt =====
-- Fusillade, a load testing tool: scripts are run by workers, their metrics are added up, reported,
-- checked against thresholds and exported, and a run is controlled live or from a cluster.
--
-- The parts and their files:
--   * Stats: src/stats/mod.rs. Types has the metric and the statistics, Add has
--     `StatsAggregator::add`, Sharded has `ShardedAggregator`, to which the consumers of Pipeline
--     add and which is merged for the report, Report has `to_report`, Threshold has the checks of a
--     run and of a scenario. Tidy, Add/Consistent, Add/Checks, Add/Names, Sharded/Totals,
--     Sharded/Counts, Sharded/Refines, Threshold/Meaning and Threshold/Verdict prove what they are
--     named for.
--   * Control: src/engine/control.rs, and the command loop of src/engine/mod.rs. The loop reads the
--     commands that the console or the dashboard sends; the workers read the state.
--   * Duration: src/utils.rs, and the parser and the printer of durations in src/engine/mod.rs.
--   * Config: src/cli/config.rs; the command line merges script, file and flags.
--   * Memory: src/engine/memory.rs, the estimates and the monitor.
--   * Cluster: src/cluster/mod.rs, the controller; what workers report goes to `StatsAggregator::add`.
--   * Csv: src/stats/csv.rs, which prints a report, and the CSV reader of src/bridge/data.rs.
--   * Statsd: src/stats/statsd.rs, which sends a report in packets.
--   * Tui: src/tui/mod.rs, the keys of the dashboard, which send commands to the loop of Control.
--     Snapshot is what it shows of the merged shards of Stats.
--   * Schedule: `calculate_target` and `calculate_rate` of src/engine/mod.rs, which the engine asks for
--     the number of workers and the rate.
--   * Pipeline: the consumers in src/engine/mod.rs that take the workers' metrics from the channel, add
--     them to the shards of Stats and post them to a controller.
--   * Scenario: the check of a scenario's name in src/engine/mod.rs, on which the thresholds of Stats
--     by scenario rest.
--   * Group: src/bridge/group.rs, the nested segments of a script, and the request names of
--     src/bridge/http_sync.rs.
--   * Http: src/bridge/http_sync.rs. Http has cookies, errors and redirects, Follow what one redirect
--     does, Run the two loops that send a request; Hops and Agree prove what they send. A request's
--     metric is named by Group and goes to the channel of Pipeline.
--   * Engine: the control loop of src/engine/mod.rs, which handles the commands of Control and follows
--     Schedule; Workers and Ends prove how many workers it leaves and that it ends. Shared, Arrival
--     and Ramping are executors of scenarios, with proofs in Shared/Bounds and Ramping/Follows; Iterations is the loop
--     of a worker, whose metrics go to Stats, as Failures and Counted prove.
--   * Scripts: src/bridge/check.rs and src/bridge/metrics.rs, what a script measures itself, which goes to
--     Stats.
--   * Console: the console of a script in src/bridge/mod.rs; what it logs goes to Stats.
--   * Har: src/cli/har.rs, scripts from recorded requests. OpenApi: src/cli/openapi.rs, scripts from a
--     description of an interface. Replay: src/bridge/replay.rs, cURL commands.
--   * Sse: src/bridge/sse.rs, server-sent events. Ws: src/bridge/ws.rs, WebSockets that reconnect.
--   * Prelude: texts, maps, lists, words and numbers as the parts above use them, and the names of the
--     libraries that are passed on. Float: IEEE doubles. Tests: the results at concrete inputs.
--
-- How the code is read. A `String` is the list of its code points, a `HashMap` an association list
-- whose order stands for the order in which the map is walked, a `Duration` its nanoseconds. `u64` and
-- `usize` are taken modulo 2^64 where they are added to, as in a release build for 64 bits; the sums
-- of durations are not bounded, since they would panic after 2^64 seconds. A method that takes
-- `&mut self`, or writes through a lock or an atomic, takes the state and returns it. `f64`, the crate
-- hdrhistogram, channels, sockets, the text of files and the clock are parameters; what is said of
-- them stands in the theorems that use it. Loops are recursion over the list that they walk; the
-- trimming of the merged logs has as much fuel as there are logs, one for each
-- that it can take away, and the printing of a number as much as the number. A request's loop has a
-- round for each redirect that it may follow, and one more. Loops that wait for the outside are
-- recursion over what they meet: rounds with the time and the commands, events, or lines.
--
-- Not modelled: the threads that run scripts and the script engine, the clients of gRPC, MQTT, AMQP and
-- browsers, drawing, templates, and argument parsing, which are I/O or calls of other libraries.
pub mod Prelude
pub mod Float
pub mod Stats
pub mod Duration
pub mod Control
pub mod Config
pub mod Console
pub mod Memory
pub mod Cluster
pub mod Csv
pub mod Statsd
pub mod Tui
pub mod Schedule
pub mod Pipeline
pub mod Scenario
pub mod Engine
pub mod Group
pub mod Har
pub mod Http
pub mod OpenApi
pub mod Replay
pub mod Scripts
pub mod Sse
pub mod Ws
pub mod Tests
