-- ===== src/Lib.antt =====
-- Kaleidoscope: the stores and the rules of an observability platform.
--
-- The platform is a set of Rust crates (crates/): a gateway receives telemetry, stores keep it in
-- logs with snapshots, and query servers read it. This library models the crates whose logic is
-- their own, as functions by clauses over explicit state.
--
--   * Prelude: Boolean tests, results, machine words and association lists. A `HashMap` is an
--     association list; what is read from one is its value at a key, never its order. A `BTreeMap`
--     is the list of its entries in the order of their keys.
--   * WalRecovery (crates/wal-recovery/src/lib.rs): `replay_wal_tolerating_torn_tail` on the bytes of a
--     log, with `String::from_utf8_lossy` in WalRecovery.Utf8. Parser and `apply` are parameters. The
--     rest of the file, the atomic write of a snapshot and the fsync backends, is not modelled.
--   * Sluice (crates/sluice/src): the queue per tenant. Sluice.Memory is queue.rs; Sluice.Durable is
--     file_backed.rs, with its log (`append_wal`, `apply_record`), its snapshot and `open`;
--     Sluice.Spec is the abstract queue, a list of messages per tenant and the messages in flight.
--     The recorder of metrics is the list of the calls made to it.
--   * Storage: `append_wal` and the `BufWriter` of the stores that replay with WalRecovery, and what the
--     bytes of such a log replay to.
--   * Cinder (crates/cinder/src): the tier of every item. Cinder.Memory is store.rs, Cinder.Sweep the scan
--     of `evaluate_at`, Cinder.Durable is file_backed.rs on the bytes of its log.
--   * Beacon (crates/beacon/src): the alerting rules. Beacon.StateMachine is state_machine.rs,
--     Beacon.Inhibition is inhibition.rs; the transitions feed `observe`, whose emissions go to the sinks,
--     and Beacon.Inhibition.Runs puts reloads between them.
--     Beacon.States is state_store.rs, which keeps the states of the rules over restarts.
--   * Aegis (crates/aegis/src): Aegis.Validator is validator.rs, with the checks of a token in their
--     order; Aegis.Catalogue is catalogue.rs. The decoding of a token is a parameter.
--   * Codex (crates/codex/src): Codex.Fuzzy is `levenshtein` of fuzzy.rs, with its two rows;
--     Codex.Nearest is its `nearest_blessed_match`.
--   * Pulse (crates/pulse/src): the metrics. Pulse.Types is metric.rs, Pulse.Predicate predicate.rs and
--     Pulse.Store the `InMemoryMetricStore` of store.rs; a metric value, an `f64`, is of a parameter type.
--   * QueryHttp (crates/query-http-common/src/lib.rs): QueryHttp.Tenant gives the tenant of a request, with
--     Aegis.Validator and the token that QueryHttp.Bearer reads from the header; QueryHttp.TimeRange
--     parses the bounds of a query.
--   * QueryApi (crates/query-api/src): QueryApi.Selector.Parser is selector.rs, and QueryApi.Selector.Grammar the
--     grammar of selectors; QueryApi.Matrix is matrix.rs; QueryApi.Handler is `handle_query_range` of lib.rs,
--     over any store of metrics, and QueryApi.OverPulse puts the store of pulse under it.
--   * Loom (crates/loom/src): Loom.Apply is apply.rs, which copies the rule files of beacon to the directory
--     that is deployed; a directory is the map of its rule files. Loom.Plan is plan.rs, on the rules of
--     Beacon.Types.
--
-- A `Mutex` is held for a whole call in every store, so a run is a sequence of calls. The log of
-- sluice is the list of its lines, that of cinder its bytes. The file system is not modelled; the
-- outcome of each write is an argument, and a `BufWriter` keeps the line of a flush that failed, as
-- the standard library documents. serde_json is a parameter, a record of a printer and a parser with
-- the laws that the code relies on. A `u64` and a `usize` wrap at 2 ^ 64, written out, but for
-- the counts of points and series in memory in pulse. One loop takes fuel: `matcher_loop` of the selector
-- parser gets one round more than there are characters, and each round but the last reads one. Every
-- other loop is over a list. The crate `regex`, the printer and the parser of floats and the parser of
-- RFC 3339 are parameters. A text is the list of its code points where its characters matter. A response is
-- its status, its challenge and its body.
--
-- Not modelled: formatting for debug output, paths, the routers of the servers, and the crates that are I/O
-- or wiring.
pub mod Prelude
pub mod WalRecovery
pub mod Storage
pub mod Sluice
pub mod Cinder
pub mod Beacon
pub mod Aegis
pub mod Codex
pub mod QueryHttp
pub mod Pulse
pub mod QueryApi
pub mod Loom
