-- ===== src/Examples/Interleaving.antt =====
-- Examples of tasks that interleave on one spec.
use ruscker.Prelude.{
  ◌≡◌, refl, subst, ◌↔◌, inl, true, Option, none, some, List, [], ◌∷◌, arith, string_key, nat_key,
  pair_key, list_key,
}
use ruscker.Replica.{Replica, ready, draining}
use ruscker.Registry.{replicas_of, all, remove}
use ruscker.Registry.Counting.{occurrences}
use ruscker.Scaler.Spawn.{World, spawn_one, add_capacity}
use ruscker.Spec.{kind, effective_routing, effective_max_replicas}
use ruscker.Routing.{Proxy, slow_path, publish, pick_or_spawn, pick_accepting, pick_replica, select}
use ruscker.Routing.{failed_spawn}
use ruscker.Routing.Admit.{pool}
use ruscker.Routing.Needed.{NeedsSpawn, pick_or_spawn-NeedsSpawn}
use ruscker.Routing.Growth.{IsFresh}
use ruscker.Interleaved.{
  FreshRun, extend, standing, spawning, leave_to_spawn, publish_first, removed,
}
use ruscker.Interleaved.Bounded.{IsWithin, Run-IsWithin}
use ruscker.Interleaved.Refined.{scaled, spawn_one-Run, unlocked}
use ruscker.Examples.{portal, busy, visitors, registry, booth, replica, proxy_of, no_load}

abbrev newcomer : Replica
newcomer = replica 9 ready 0

-- The booth's only replica drains when a visitor comes, so the visitor leaves the double-check to
-- spawn at the cap. The scaler removes the drained replica before the visitor publishes its own.
abbrev closing : Proxy
closing = proxy_of (replica 3 draining 0 ∷ [])

abbrev checked : Proxy
checked = (slow_path no_load booth closing).0

abbrev drained : Proxy
drained = record checked { registry = (remove checked.registry 3).0 }

closing-IsWithin : IsWithin booth 1 (unlocked closing)
unfolding occurrences all replicas_of
closing-IsWithin = record { distinct = λ i. ground arith; within = omega arith }

drained-IsFresh : IsFresh booth drained.registry newcomer
unfolding slow_path select pick_accepting pick_replica kind effective_routing replicas_of
    effective_max_replicas remove occurrences all
drained-IsFresh = record { unseen = refl; own = refl; unused = refl }

race : FreshRun booth (unlocked closing) (unlocked (publish booth drained (some newcomer)).0) 1
unfolding slow_path select pick_accepting pick_replica kind effective_routing replicas_of
    effective_max_replicas
race =
    extend
      (extend (extend standing (leave_to_spawn no_load closing refl) tt)
        (removed (record { proxy = checked; turn = spawning }) 3) tt)
      (publish_first drained newcomer) drained-IsFresh

Run-IsWithin_example : IsWithin booth 2 (unlocked (publish booth drained (some newcomer)).0)
unfolding effective_max_replicas
Run-IsWithin_example =
    Run-IsWithin booth 1 (unlocked closing) (unlocked (publish booth drained (some newcomer)).0) 1
      race.0 race.1 (omega arith) closing-IsWithin

-- The scaler adds capacity to the busy portal.
abbrev growing : World
growing = record {
  app = record {
    replicas = registry busy;
    sessions = visitors;
    metrics = [];
    inflight = [];
    alerts = record { queue = []; recent = [] };
    failures = [];
  };
  outcomes = some newcomer ∷ [];
}

growing-IsFresh :
    (fresh : Replica) (rest : List (Option Replica))
    → growing.outcomes ≡ some fresh ∷ rest
    → IsFresh portal growing.app.replicas fresh
unfolding occurrences all
growing-IsFresh fresh rest e =
    let same : newcomer ≡ fresh = cc in
    subst (λ (r : Replica). IsFresh portal growing.app.replicas r) same
      (record { unseen = refl; own = refl; unused = refl })

spawn_one-Run_example :
    FreshRun portal
      (scaled 0 growing.app)
      (scaled 0 (spawn_one (λ s. true) portal add_capacity growing).0.app)
      0
spawn_one-Run_example = spawn_one-Run (λ s. true) portal add_capacity 0 growing growing-IsFresh

-- The booth's only replica has drained and nothing is coming up, so a visitor needs the backend.
pick_or_spawn-NeedsSpawn_example :
    (((pick_or_spawn no_load booth none closing).1 ≡ failed_spawn)
      ↔ NeedsSpawn booth (pool booth closing))
    × ((spawned : Option Replica)
        → (NeedsSpawn booth (pool booth closing) → ⊥)
        → pick_or_spawn no_load booth spawned closing ≡ pick_or_spawn no_load booth none closing)
pick_or_spawn-NeedsSpawn_example = pick_or_spawn-NeedsSpawn no_load booth closing

closing_fails : (pick_or_spawn no_load booth none closing).1 ≡ failed_spawn
unfolding replicas_of
closing_fails =
    (pick_or_spawn-NeedsSpawn no_load booth closing).0.1
      (record { full = refl; none_coming = refl; no_fallback = inl refl })
