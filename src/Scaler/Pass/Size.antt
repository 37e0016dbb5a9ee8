-- ===== src/Scaler/Pass/Size.antt =====
-- A spec's turn and its limits: the pool's size against `max-replicas` and `min-replicas`.
use ruscker.Prelude.{
  ℕ, zero, suc, ◌+◌, ◌-◌, ◌≤◌, max, ◌≡◌, Bool, true, false, List, [], ◌∷◌, arith, length, nat_key,
  string_key, pair_key,
}
use ruscker.Registry.Sizes.{length-remove}
use ruscker.Spec.{Spec, effective_max_replicas, effective_min_replicas}
use ruscker.Scaler.{stop_one, Replica}
use ruscker.Scaler.Spawn.{World, spawn_one, add_capacity}
use ruscker.Scaler.Spawn.Capacity.{pool_in, spawn_one-le-max}
use ruscker.Scaler.Pass.{
  Env, Pass, log_spawn_failure, clear_failures, reap, spawn_to_min, grow, saturation_spawn, shrink,
  drop_candidates, alert_saturated, scale, scale_spec, tick_cooldown, snapshot, reap_aged,
  is_cooling, forget_saturation, reap_one, aged_ids, grow_at, streak, count_saturated,
}

-- How many replicas the spec has.
abbrev pub size_of : Spec → Pass → ℕ
size_of spec s = length (pool_in spec s.world)

module _ (env : Env) (spec : Spec) where
  pub log-pool : (w : World) → pool_in spec (log_spawn_failure env spec w) ≡ pool_in spec w
  unfolding log_spawn_failure
  log-pool w = ground arith

  spawn_to_min-le :
      (n : ℕ) (w : World)
      → length (pool_in spec (spawn_to_min env spec n w))
        ≤ max (length (pool_in spec w)) (effective_max_replicas spec)
  unfolding spawn_to_min
  spawn_to_min-le zero w = omega arith
  spawn_to_min-le (suc n) w = ground (
    arith,
    spawn_one-le-max env.prepared spec add_capacity w,
    spawn_to_min-le n (clear_failures env spec (spawn_one env.prepared spec add_capacity w).0),
    log-pool (spawn_one env.prepared spec add_capacity w).0,
  )

  reap_one-size :
      (i : ℕ) (s : Pass)
      → (size_of spec (reap_one env spec i s) ≤ size_of spec s)
        × (size_of spec s ≤ size_of spec (reap_one env spec i s) + 1)
  unfolding stop_one
  reap_one-size i s = length-remove s.world.app.replicas i spec.id

  -- Stopping replicas takes at most one each from the pool, and adds none.
  pub reap-size :
      (ids : List ℕ) (s : Pass)
      → (size_of spec (reap env spec ids s) ≤ size_of spec s)
        × (size_of spec s ≤ size_of spec (reap env spec ids s) + length ids)
  unfolding reap
  reap-size [] s = (omega arith, omega arith)
  reap-size (i ∷ ids) s =
      let (below, above) = reap_one-size i s in
      let (less, more) = reap-size ids (reap_one env spec i s) in (omega arith, omega arith)

  saturation_spawn-le :
      (s : Pass)
      → size_of spec (saturation_spawn env spec s)
        ≤ max (size_of spec s) (effective_max_replicas spec)
  saturation_spawn-le s = ground (
    arith,
    spawn_one-le-max env.prepared spec add_capacity s.world,
    log-pool (spawn_one env.prepared spec add_capacity s.world).0,
  )

  grow_at-le :
      (n : ℕ) (s : Pass)
      → size_of spec (grow_at env spec n s) ≤ max (size_of spec s) (effective_max_replicas spec)
  grow_at-le n s = ground (arith, saturation_spawn-le s)

  grow-le :
      (cooling : Bool) (s : Pass)
      → size_of spec (grow env spec cooling s) ≤ max (size_of spec s) (effective_max_replicas spec)
  unfolding grow
  grow-le true s = ground arith
  grow-le false s = grow_at-le (streak env spec s) (count_saturated env spec s)

  shrink-le :
      (snap : List Replica) (s : Pass) → size_of spec (shrink env spec snap s) ≤ size_of spec s
  unfolding shrink
  shrink-le snap s = ground (arith, reap-size (drop_candidates env spec snap s.idle) s)

  scale-le :
      (cooling : Bool) (snap : List Replica) (s : Pass)
      → size_of spec (scale env spec cooling snap s)
        ≤ max (size_of spec s) (effective_max_replicas spec)
  unfolding scale
  scale-le cooling snap s = ground (
    arith,
    spawn_to_min-le (effective_min_replicas spec - length snap) s.world,
    grow-le cooling s,
    shrink-le snap (forget_saturation spec (alert_saturated env spec snap s)),
  )

  pub tick_cooldown-pool : (s : Pass) → size_of spec (tick_cooldown spec s) ≡ size_of spec s
  unfolding tick_cooldown
  tick_cooldown-pool s = ground arith

  -- A spec's turn never takes its pool over `max-replicas`: afterwards the pool is no larger than
  -- the cap, or than it was if it was over the cap before. It holds for all counters, thresholds
  -- and answers of the backend.
  pub scale_spec-le-max :
      (s : Pass)
      → size_of spec (scale_spec env spec s) ≤ max (size_of spec s) (effective_max_replicas spec)
  unfolding scale_spec
  scale_spec-le-max s =
      let aged = reap_aged env spec (tick_cooldown spec s) in
      ground (
        arith,
        tick_cooldown-pool s,
        reap-size (aged_ids env spec (tick_cooldown spec s)) (tick_cooldown spec s),
        scale-le (is_cooling spec s) (snapshot env spec aged) aged,
      )
