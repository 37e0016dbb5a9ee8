-- ===== src/Examples/Scaling.antt =====
-- Examples of the auto-scaler.
use ruscker.Prelude.{
  ℕ, ◌*◌, ◌/◌, ◌≤◌, max, ◌≡◌, refl, ◌↔◌, true, none, some, List, [], ◌∷◌, Memᴰ, arith, ltb,
  string_key, nat_key, pair_key, list_key, pos,
}
use ruscker.Replica.{Replica, ready, starting}
use ruscker.Registry.{find_mut, replicas_of, all}
use ruscker.Registry.Counting.{IsUnique, occurrences}
use ruscker.Sessions.Seats.{IsBalanced}
use ruscker.Spec.{
  kind, effective_min_replicas, effective_max_replicas, effective_scale_down_threshold,
}
use ruscker.Scaler.{AppState, cleanup_replica_state}
use ruscker.Scaler.Cleanup.{Forgotten, cleanup_replica_state-Forgotten}
use ruscker.Scaler.Signals.{F64, Ticks, lifetime_reap_candidates}
use ruscker.Scaler.Signals.Lifetime.{Outlived, lifetime_reap_candidates-Outlived}
use ruscker.Scaler.Spawn.{World, spawn_one, ensure_available}
use ruscker.Scaler.Spawn.Coalesce.{burst, burst-spawn_one}
use ruscker.Scaler.Pass.{Env, Pass, scale_spec, drop_candidates, drop_after}
use ruscker.Scaler.Pass.Size.{size_of, scale_spec-le-max}
use ruscker.Scaler.Pass.Refill.{scale_spec-ge-min}
use ruscker.Scaler.Pass.Graced.{drop_candidates-WasIdle}
use ruscker.Scaler.Signals.{update_idle_ticks}
use ruscker.Scaler.Signals.Watched.{IdleEvent, seen, dropped, idle_after, WasIdle, AllOnce}
use ruscker.Examples.{portal, replica, registry, busy, visitors, no_seat}

abbrev state : List Replica → AppState
state rs = record {
  replicas = registry rs;
  sessions = visitors;
  metrics = (1, 40) ∷ (2, 41) ∷ [];
  inflight = (2, 3) ∷ [];
  alerts = record { queue = []; recent = [] };
  failures = [];
}

-- f64 operations that are right on small whole numbers, in thousandths.
abbrev thousandths : F64
thousandths = record { of_u64 = λ n. n; div = λ a b. a * 1000 / b; lt = λ a b. ltb a b }

abbrev env : Env
env = record {
  now = 100000000000;
  interval = 10;
  drop_after_ticks = 3;
  spawn_after_saturated_ticks = 2;
  default_cooldown_ticks = none;
  f64 = thousandths;
  stopped = λ i. true;
  prepared = λ s. true;
  error_hash = λ s. 0;
}

abbrev world : List Replica → World
world rs = record { app = state rs; outcomes = some (replica 9 starting 0) ∷ [] }

abbrev pass : List Replica → Pass
pass rs = record { world = world rs; idle = (1, 5) ∷ (3, 4) ∷ []; saturation = []; cooldown = [] }

scale_spec-le-max_example :
    size_of portal (scale_spec env portal (pass busy))
    ≤ max (size_of portal (pass busy)) (effective_max_replicas portal)
scale_spec-le-max_example = scale_spec-le-max env portal (pass busy)

-- The pool is empty and the backend has one replica to give.
scale_spec-ge-min_example :
    effective_min_replicas portal ≤ size_of portal (scale_spec env portal (pass []))
unfolding kind effective_min_replicas effective_max_replicas
scale_spec-ge-min_example =
    scale_spec-ge-min env portal refl refl (omega arith) (pass []) refl (refl, tt)

abbrev calm : List Replica
calm = replica 1 ready 0 ∷ replica 2 ready 2 ∷ replica 3 ready 0 ∷ []

-- Three ticks, 100 seconds after the start, after another replica was stopped.
abbrev calm_ticks : List IdleEvent
calm_ticks =
    seen 120000000000 calm ∷ seen 110000000000 calm ∷ seen 100000000000 calm ∷ dropped 4 ∷ []

calm_ticks-AllOnce : AllOnce 1 calm_ticks
unfolding occurrences
calm_ticks-AllOnce = (omega arith, (omega arith, (omega arith, (tt, tt))))

drop_candidates-WasIdle_example :
    ((r : Replica) × Memᴰ r calm × (r.id ≡ 1) × (r.sessions_active ≡ 0))
    × WasIdle 1 (drop_after env portal) calm_ticks
unfolding drop_candidates effective_min_replicas effective_scale_down_threshold idle_after
    update_idle_ticks
drop_candidates-WasIdle_example =
    drop_candidates-WasIdle env portal calm calm_ticks 1 calm_ticks-AllOnce (Memᴰ.head refl)

busy-distinct : IsUnique (registry busy)
unfolding occurrences all
busy-distinct i = ground arith

busy-settled : IsBalanced (registry busy) visitors no_seat
unfolding find_mut
busy-settled i r h = ground arith

cleanup_replica_state-Forgotten_example : Forgotten (cleanup_replica_state 2 (state busy)).0 2
cleanup_replica_state-Forgotten_example =
    cleanup_replica_state-Forgotten (state busy) 2 busy-distinct

burst-spawn_one_example :
    burst (λ s. true) portal 5 (world [])
    ≡ (spawn_one (λ s. true) portal ensure_available (world [])).0
unfolding spawn_one effective_max_replicas replicas_of kind
burst-spawn_one_example = burst-spawn_one (λ s. true) portal 4 (world []) (refl, refl) refl

-- Replica 1 is idle and 100 seconds old, past a hard cap of 60.
lifetime_reap_candidates-Outlived_example :
    Memᴰ 1 (lifetime_reap_candidates calm env.now (some (pos 60)) none (pos 60))
    ↔ ((r : Replica) × Memᴰ r calm × (r.id ≡ 1) × Outlived env.now (some (pos 60)) none (pos 60) r)
lifetime_reap_candidates-Outlived_example =
    lifetime_reap_candidates-Outlived env.now (some (pos 60)) none (pos 60) calm 1

calm-once : occurrences 1 calm ≤ 1
unfolding occurrences
calm-once = omega arith

abbrev five_idle : Ticks ℕ
five_idle = (1, 5) ∷ []
