-- ===== src/Lib.antt =====
-- Ruscker: a portal that runs containerised applications behind a sticky, auto-scaling proxy.
--
-- The program keeps a registry of replicas (containers) per spec (application). A request is routed
-- to a replica, which reserves a seat of it; a session tracker holds who sits where and gives idle
-- seats back; the auto-scaler spawns, recycles and stops replicas from tick to tick; alerts and a
-- failure log report what goes wrong. The files follow these parts.
--
-- - Replica, Registry: `Replica` (crates/ruscker-core/src/replica.rs) and `ReplicaRegistry`
--   (crates/ruscker-core/src/lib.rs). A hash map is an association list (Prelude.Assoc), its order
--   the order of iteration; ids are numbers. Registry.Find, Lookup, Counting, Filing and Sizes are
--   the registry's laws, which all other parts rest on.
-- - Spec: `Spec` with its effective settings and the access rule
--   (crates/ruscker-config/src/schema.rs), for the fields that the modelled code reads.
-- - Sessions: `InMemorySessionStore` (crates/ruscker-admin/src/sessions.rs).
-- - Routing: picking, reservation and the sticky cookie
--   (crates/ruscker-admin/src/routes/proxy.rs, `pick_index` to `pick_or_spawn`,
--   `resolve_replica`, the gates of the splash). The registry and the round-robin counter are passed
--   on; a critical section under the registry's lock is one step, and `pick_or_spawn` is its critical
--   sections in a row.
-- - Scaler: `cleanup_replica_state`, `stop_one`, `spawn_one` and one spec's turn of
--   `tick_with_interval` (crates/ruscker-admin/src/scaler.rs). Scaler.Signals has the pure readings
--   of a snapshot, Scaler.Spawn the serialized spawn, Scaler.Pass the turn, and Scaler.Liveness the
--   reconciliation with the backend (`reconcile_backend_liveness`, `readopt_running_replica`).
-- - Interleaved: the tasks that share one spec's pool, as a relation between shared states whose steps
--   are the critical sections, with the spec's mutex (`spawn_locks`) held across several of them.
--   Interleaved.Refined ties `spawn_one` and `readopt_running_replica` to it; the steps of a visitor are
--   those of `pick_or_spawn` itself.
-- - Alerts, FailureLog: `AlertSink` (crates/ruscker-admin/src/alerts.rs) and `FailureLog`
--   (crates/ruscker-admin/src/scaler.rs).
-- - Limits: the sliding-window limiters of crates/ruscker-admin/src: `LoginRateLimiter` (auth.rs),
--   `ConfirmRateLimiter` (mfa.rs) and `ApiRateLimiter` (ratelimit.rs).
-- - Hosts: `choose_host` and `classify_multihost_liveness`
--   (crates/ruscker-docker/src/multihost.rs), the two decisions of the multi-host backend; the
--   placement table is an argument.
-- - Docker: what the local backend decides without the daemon (crates/ruscker-docker/src/lib.rs). The
--   text's length is the fuel of a repeated strip, and Docker.Registries shows that it is enough.
-- - Forward: the headers that the proxy strips and adds
--   (crates/ruscker-admin/src/routes/proxy.rs, `strip_hop_headers` to
--   `strip_reserved_identity_headers`). A header map is a list of names with values.
-- - Catalog: the union of the database's and the file's specs, and its cache
--   (crates/ruscker-admin/src/catalog.rs).
-- - StickyCookie: the signed cookie of a visitor and the key that signs it
--   (crates/ruscker-proxy/src/sticky.rs).
-- - Rewrite: base paths, mounts and the rewriting of URLs
--   (crates/ruscker-admin/src/routes/rewrite.rs, crates/ruscker-config/src/schema.rs).
-- - Config: the interpolation of the configuration (crates/ruscker-config/src/env.rs). Its scan takes
--   the length of the line as fuel, since every step consumes a character.
-- - AccessCounter, MetricsCache, Leader, Jobs: the background tasks of
--   crates/ruscker-admin/src/access_counter.rs, metrics_cache.rs, leader.rs and jobs.rs (the claim of
--   a schedule is the UPDATE of db/schedules.rs).
-- - Accounts: roles and admin sessions (crates/ruscker-admin/src/auth.rs) and the scope of an editor
--   (scope.rs). Mfa: the second factor (mfa.rs).
-- - Examples: concrete runs.
--
-- Numbers: counters are native numbers; u32 and i64 operations keep their saturation or wrap-around
-- written out. An instant is a number of nanoseconds since an epoch. Text is a list of code
-- points (Prelude.Text) where the program takes it apart. Recursion is structural but for that scan
-- and that strip. An f64 is its bit pattern, with the operations of the code a parameter.
--
-- Parameters: the answers of the container backend (a list for spawns, a function for stops), whether
-- a spawn request can be built (credentials, environment), the backend's report on its containers and
-- its readiness probe, the hash of an error message, the
-- conversions of header values, the environment, the cron library, the hash functions and rows of the
-- database for the second factor, JSON, HMAC and base64 of the sticky cookie, the answers of Postgres
-- to the election, the rows and the signature of the catalog, the in-flight gauge where a pick reads
-- it. Named
-- hypotheses say what the code expects of a spawned replica (IsFresh, IsUnknown, DeliversAll,
-- DeliversUsable).
--
-- Left out: HTTP, WebSocket and HTML handling, the database layer, the Docker client, log lines.
-- In Interleaved, a leader that reloads the registry at start-up (`reset`) is no step, and
-- a spec keeps its mutex as long as somebody holds it.
pub mod Prelude
pub mod Replica
pub mod Registry
pub mod Spec
pub mod Sessions
pub mod Routing
pub mod Alerts
pub mod FailureLog
pub mod Scaler
pub mod Interleaved
pub mod Catalog
pub mod StickyCookie
pub mod Limits
pub mod Hosts
pub mod Docker
pub mod Forward
pub mod Rewrite
pub mod Config
pub mod AccessCounter
pub mod Accounts
pub mod Mfa
pub mod MetricsCache
pub mod Leader
pub mod Jobs
pub mod Examples
