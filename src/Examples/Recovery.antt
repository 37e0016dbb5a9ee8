-- ===== src/Examples/Recovery.antt =====
-- Examples of restarts and of the reconciliation with the backend.
use ruscker.Prelude.{
  ◌≤◌, max, refl, true, List, [], ◌∷◌, arith, length, string_key, nat_key, pair_key, list_key,
}
use ruscker.Replica.{Replica, ready, stopped}
use ruscker.Registry.{find_mut, replicas_of, all}
use ruscker.Registry.Counting.{IsUnique, occurrences}
use ruscker.Sessions.Seats.{IsBalanced}
use ruscker.Spec.{effective_max_replicas}
use ruscker.Scaler.{AppState}
use ruscker.Scaler.Liveness.{ReplicaLivenessReport, ReplicaLiveness, reconcile_backend_liveness}
use ruscker.Scaler.Liveness.Capped.{reconcile_backend_liveness-le-max}
use ruscker.Examples.{portal, replica, registry, busy, visitors, no_seat}

abbrev hosted : List Replica → AppState
hosted rs = record {
  replicas = registry rs;
  sessions = visitors;
  metrics = [];
  inflight = [];
  alerts = record { queue = []; recent = [] };
  failures = [];
}

hosted-IsBalanced : IsBalanced (registry busy) visitors no_seat
unfolding find_mut
hosted-IsBalanced i r h = ground arith

-- Replica 1 is running again, replica 2 is gone, and replica 7 is a container nobody knows.
abbrev restarted_pool : List Replica
restarted_pool = replica 1 stopped 0 ∷ replica 2 ready 2 ∷ []

restarted_pool-IsUnique : IsUnique (registry restarted_pool)
unfolding occurrences all
restarted_pool-IsUnique i = ground arith

abbrev report : ReplicaLivenessReport
report = record {
  observations = (2, ReplicaLiveness.missing) ∷ [];
  running = replica 1 ready 0 ∷ replica 7 ready 0 ∷ [];
  managed = [];
}

reconcile_backend_liveness-le-max_example :
    let done =
      (reconcile_backend_liveness 90
        (λ i. true)
        (portal ∷ [])
        restarted_pool
        report
        (hosted restarted_pool)).0.app in
    IsUnique done.replicas
    × (length (replicas_of done.replicas portal.id)
        ≤ max
            (length (replicas_of (registry restarted_pool) portal.id))
            (effective_max_replicas portal))
reconcile_backend_liveness-le-max_example =
    reconcile_backend_liveness-le-max 90 (λ i. true) (portal ∷ []) portal restarted_pool report
      (hosted restarted_pool) refl restarted_pool-IsUnique
      ((λ q e. ground arith), ((λ q e. absurd (ground arith)), tt))
