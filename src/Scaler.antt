-- ===== src/Scaler.antt =====
-- The shared state that the auto-scaler works on, and how a replica leaves it
-- (crates/ruscker-admin/src/scaler.rs: `cleanup_replica_state`, `prune_dead_replica`,
-- `mark_restart_detected`, `stop_one`, `stop_spec`). The backend's answers are parameters; log lines
-- are left out.
pub mod Cleanup
pub mod Signals
pub mod Spawn
pub mod Pass
pub mod Liveness
use ruscker.Prelude.{
  ℕ, ◌+◌, ◌-◌, ◌%◌, String, Bool, Option, none, some, List, [], ◌∷◌, if◌then◌else◌, unwrap_or,
  length, any, ◌==◌, nat_key, string_key, pair_key,
}
use ruscker.Prelude.Assoc
use ruscker.Replica.{Replica}
use ruscker.Registry.{ReplicaRegistry, replicas_of, remove, mark_restarting}
use ruscker.Sessions.{Store, drop_replica}
use ruscker.Alerts.{AlertSink, AlertEvent, notify, replica_down}
use ruscker.FailureLog.{FailureLog}

-- The parts of `AppState` that the scaler reads and writes, with the process-wide in-flight gauge
-- and failure log. A metrics row is the number of a sample.
pub record AppState : Type 0 where
  pub replicas : ReplicaRegistry
  pub sessions : Store
  pub metrics : List (ℕ × ℕ)
  pub inflight : List (ℕ × ℕ)
  pub alerts : AlertSink
  pub failures : FailureLog

-- The in-flight gauge of routes/proxy.rs. A count is a u32.
abbrev pub inflight_count : AppState → ℕ → ℕ
inflight_count st i = unwrap_or (Assoc.lookup i st.inflight) 0

unfoldable pub inflight_enter : ℕ → AppState → AppState
inflight_enter i st = record st {
  inflight = Assoc.insert i ((inflight_count st i + 1) % 4294967296) st.inflight;
}

unfoldable pub inflight_leave : ℕ → AppState → AppState
inflight_leave i st = elim (Assoc.lookup i st.inflight) [
  | none ↦ st
  | some n ↦ record st { inflight = Assoc.insert i (n - 1) st.inflight }
]

unfoldable pub inflight_gc : List ℕ → AppState → AppState
inflight_gc alive st = record st {
  inflight = Assoc.retain (λ i _. any (λ j. j == i) alive) st.inflight;
}

unfoldable pub cleanup_replica_state : ℕ → AppState → AppState × Option Replica
cleanup_replica_state i st =
    let removed = remove st.replicas i in
    (
      record st {
        replicas = removed.0;
        sessions = (drop_replica st.sessions i).0;
        metrics = Assoc.remove i st.metrics;
        inflight = Assoc.remove i st.inflight;
      },
      removed.1,
    )

unfoldable pub prune_dead_replica : ℕ → Replica → AppState → AppState
unfolding cleanup_replica_state
prune_dead_replica now r st =
    let cleaned = cleanup_replica_state r.id st in
    let down : AlertEvent = record { kind = replica_down; spec = r.spec_id; replica = some r.id } in
    elim cleaned.1 [
      | none ↦ cleaned.0
      | some _ ↦ record cleaned.0 { alerts = (notify now down cleaned.0.alerts).0 }
    ]

unfoldable pub mark_restart_detected : Replica → ℕ → AppState → AppState
mark_restart_detected r observed_at st =
    let marked = mark_restarting st.replicas r.id observed_at in
    if marked.1
    then record st {
      replicas = marked.0;
      sessions = (drop_replica st.sessions r.id).0;
      metrics = Assoc.remove r.id st.metrics;
      inflight = Assoc.remove r.id st.inflight;
    }
    else record st { replicas = marked.0 }

-- `stopped` is the backend's answer, which the cleanup does not wait for.
unfoldable pub stop_one : (ℕ → Bool) → ℕ → AppState → AppState × Bool
unfolding cleanup_replica_state
stop_one stopped i st = ((cleanup_replica_state i st).0, stopped i)

abbrev pub stop_all : (ℕ → Bool) → List Replica → AppState → AppState
stop_all stopped [] st = st
stop_all stopped (r ∷ rs) st = stop_all stopped rs (stop_one stopped r.id st).0

unfoldable pub stop_spec : (ℕ → Bool) → String → AppState → AppState × ℕ
stop_spec stopped spec_id st = (
  stop_all stopped (replicas_of st.replicas spec_id) st,
  length (replicas_of st.replicas spec_id),
)
