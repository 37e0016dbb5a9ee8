-- ===== src/Routing/Gates.antt =====
-- The tests in front of the routing: readiness, capacity, a live sticky session
-- (`has_ready_replica`, `at_capacity`, `sticky_replica_is_live`).
use ruscker.Prelude.{
  ℕ, String, Bool, true, false, ◌&&◌, leb, is_some, length, keep_if, any, string_key, nat_key,
  pair_key, ◌==◌,
}
use ruscker.Replica.{ReplicaState, starting, ready, draining, stopped, failed}
use ruscker.Registry.{ReplicaRegistry, replicas_of}
use ruscker.Spec.{Spec}
use ruscker.Routing.{Proxy, accepting_of, effective_max_replicas}

-- The signed content of the sticky cookie (crates/ruscker-proxy/src/sticky.rs).
pub record StickySession : Type 0 where
  pub session_id : ℕ
  pub spec_id : String
  pub replica_id : ℕ

-- The probe moves the round-robin counter, as every pick does.
unfoldable pub has_ready_replica : (ℕ → ℕ) → Spec → Proxy → Proxy × Bool
has_ready_replica inflight spec p =
    let picked = accepting_of inflight spec p in
    (record p { ticket = picked.ticket }, is_some picked.choice)

abbrev pub counts_as_live : ReplicaState → Bool
counts_as_live starting = true
counts_as_live ready = true
counts_as_live draining = true
counts_as_live stopped = false
counts_as_live failed = false

unfoldable pub at_capacity : Spec → ReplicaRegistry → Bool
at_capacity spec reg =
    leb (effective_max_replicas spec)
      (length (keep_if (λ r. counts_as_live r.state) (replicas_of reg spec.id)))

abbrev pub keeps_sessions : ReplicaState → Bool
keeps_sessions ready = true
keeps_sessions draining = true
keeps_sessions starting = false
keeps_sessions stopped = false
keeps_sessions failed = false

unfoldable pub sticky_replica_is_live : ReplicaRegistry → String → StickySession → Bool
sticky_replica_is_live reg spec_id session =
    session.spec_id == spec_id
    && any (λ r. r.id == session.replica_id && keeps_sessions r.state) (replicas_of reg spec_id)
