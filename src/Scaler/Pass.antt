-- ===== src/Scaler/Pass.antt =====
-- One spec's turn in a pass of the auto-scaler (crates/ruscker-admin/src/scaler.rs, the loop body of
-- `tick_with_interval`) and the pass over the catalog. What the pass is started with stands in
-- `Env`; log lines are left out.
pub mod Shrink
pub mod Graced
pub mod Size
pub mod Refill
pub mod Cooling
use ruscker.Prelude.{
  ℕ, zero, suc, ◌+◌, ◌-◌, ◌%◌, String, Bool, true, ◌&&◌, ◌||◌, not, Option, none, some, List, [],
  ◌∷◌, map, ltb, leb, if◌then◌else◌, is_some, unwrap_or, length, keep_if, take, any, ◌==◌, nat_key,
  string_key, pair_key,
}
use ruscker.Prelude.Assoc
use mathlib.Core.Option
use ruscker.Replica.{Replica}
use ruscker.Registry.{replicas_of}
use ruscker.Spec.{
  Spec, kind, is_external, effective_min_replicas, effective_max_replicas,
  effective_max_lifetime_secs, effective_container_lifetime_secs, effective_drain_timeout_secs,
  effective_scale_up_threshold, effective_scale_down_threshold,
}
use ruscker.Alerts.{AlertEvent, notify, spawn_failed, saturated}
use ruscker.FailureLog.{FailVerdict, warn, quiet, observe, clear}
use ruscker.Scaler.{AppState, stop_one, inflight_count}
use ruscker.Scaler.Signals.{
  Ticks, F64, u32_range, pool_utilization, scale_up_triggered, grace_secs_to_ticks,
  cooldown_ticks_for_spec, overlay_request_capacity, lifetime_reap_candidates, is_idle,
}
use ruscker.Scaler.Spawn.{World, spawn_one, add_capacity}

pub record Env : Type 0 where
  pub now : ℕ
  pub interval : ℕ
  pub drop_after_ticks : ℕ
  pub spawn_after_saturated_ticks : ℕ
  pub default_cooldown_ticks : Option ℕ
  pub f64 : F64
  -- The backend's answer to a stop, and whether a spec's spawn request can be built.
  pub stopped : ℕ → Bool
  pub prepared : Spec → Bool
  -- The hash of the error that a failing spawn of a spec gives.
  pub error_hash : String → ℕ

-- `DEFAULT_INTERVAL`, in seconds.
abbrev pub default_interval : ℕ
default_interval = 10

-- The counters that the scaler task keeps from tick to tick.
pub record Pass : Type 0 where
  pub world : World
  pub idle : Ticks ℕ
  pub saturation : Ticks String
  pub cooldown : Ticks String

abbrev pub app_of : Pass → AppState
app_of s = s.world.app

abbrev pub with_app : Pass → AppState → Pass
with_app s st = record s { world = record s.world { app = st } }

abbrev pub forget_saturation : Spec → Pass → Pass
forget_saturation spec s = record s { saturation = Assoc.remove spec.id s.saturation }

abbrev pub is_cooling : Spec → Pass → Bool
is_cooling spec s = ltb 0 (unwrap_or (Assoc.lookup spec.id s.cooldown) 0)

unfoldable pub tick_cooldown : Spec → Pass → Pass
tick_cooldown spec s = elim (Assoc.lookup spec.id s.cooldown) [
  | none ↦ s
  | some c ↦ record s {
    cooldown =
        if c - 1 == 0
        then Assoc.remove spec.id s.cooldown
        else Assoc.insert spec.id (c - 1) s.cooldown;
  }
]

module _ (env : Env) (spec : Spec) where
  -- The pool as the passes see it.
  abbrev pub snapshot : Pass → List Replica
  snapshot s =
      overlay_request_capacity (inflight_count (app_of s)) spec
        (replicas_of (app_of s).replicas spec.id)

  abbrev pub raise : AlertEvent → AppState → AppState
  raise ev st = record st { alerts = (notify env.now ev st.alerts).0 }

  abbrev pub raise_failed : FailVerdict → AppState → AppState
  raise_failed (warn n) st =
      raise (record { kind = spawn_failed; spec = spec.id; replica = none }) st
  raise_failed (quiet n) st = st

  unfoldable pub log_spawn_failure : World → World
  log_spawn_failure w =
      let seen = observe spec.id (env.error_hash spec.id) env.now w.app.failures in
      record w { app = raise_failed seen.1 (record w.app { failures = seen.0 }) }

  abbrev pub clear_failures : World → World
  clear_failures w = record w { app = record w.app { failures = clear spec.id w.app.failures } }

  abbrev pub reap_one : ℕ → Pass → Pass
  reap_one i s = record (with_app s (stop_one env.stopped i (app_of s)).0) {
    idle = Assoc.remove i s.idle;
  }

  unfoldable pub reap : List ℕ → Pass → Pass
  reap [] s = s
  reap (i ∷ ids) s = reap ids (reap_one i s)

  -- The loop of `to_spawn` spawns, which a failure ends.
  unfoldable pub spawn_to_min : ℕ → World → World
  unfolding log_spawn_failure
  spawn_to_min zero w = w
  spawn_to_min (suc n) w =
      let next = spawn_one env.prepared spec add_capacity w in
      let rest = spawn_to_min n (clear_failures next.0) in
      if next.1 then rest else log_spawn_failure next.0

  abbrev pub below_min : ℕ → Pass → Pass
  below_min to_spawn s = forget_saturation spec (record s { world = spawn_to_min to_spawn s.world })

  abbrev pub saturation_spawn : Pass → Pass
  saturation_spawn s =
      let next = spawn_one env.prepared spec add_capacity s.world in
      forget_saturation spec
        (record s { world = if next.1 then clear_failures next.0 else log_spawn_failure next.0 })

  -- How many ticks in a row the pool has been saturated, this one included.
  abbrev pub streak : Pass → ℕ
  streak s = elim (Assoc.lookup spec.id s.saturation) [ none ↦ 1 | some n ↦ (n + 1) % u32_range ]

  abbrev pub count_saturated : Pass → Pass
  count_saturated s = record s { saturation = Assoc.insert spec.id (streak s) s.saturation }

  abbrev pub grow_at : ℕ → Pass → Pass
  grow_at n s = if leb env.spawn_after_saturated_ticks n then saturation_spawn s else s

  -- A saturated pool below its cap.
  unfoldable pub grow : Bool → Pass → Pass
  grow cooling s =
      if cooling then forget_saturation spec s else grow_at (streak s) (count_saturated s)

  abbrev pub drop_after : ℕ
  drop_after =
      unwrap_or
        (Option.map (λ secs. grace_secs_to_ticks secs default_interval) spec.scale_down_grace)
        env.drop_after_ticks

  abbrev pub underutilized : List Replica → Option ℕ → Bool
  underutilized snap none = true
  underutilized snap (some t) = env.f64.lt (pool_utilization env.f64 snap) t

  abbrev pub is_droppable : Ticks ℕ → Replica → Bool
  is_droppable idle r = is_idle r && leb drop_after (unwrap_or (Assoc.lookup r.id idle) 0)

  unfoldable pub drop_candidates : List Replica → Ticks ℕ → List ℕ
  drop_candidates snap idle =
      if underutilized snap (effective_scale_down_threshold spec)
      then map (λ r. r.id)
          (take (length snap - effective_min_replicas spec) (keep_if (is_droppable idle) snap))
      else []

  abbrev pub arm_cooldown : Bool → Pass → Pass
  arm_cooldown stopped_any s =
      let ticks = cooldown_ticks_for_spec spec env.interval env.default_cooldown_ticks in
      if stopped_any && ltb 0 ticks
      then record s { cooldown = Assoc.insert spec.id ticks s.cooldown }
      else s

  unfoldable pub shrink : List Replica → Pass → Pass
  shrink snap s =
      let ids = drop_candidates snap s.idle in
      if ltb (effective_min_replicas spec) (length snap)
      then arm_cooldown (any env.stopped ids) (reap ids s)
      else s

  abbrev pub alert_saturated : List Replica → Pass → Pass
  alert_saturated snap s =
      if leb (effective_max_replicas spec) (length snap)
        && ltb 0 (length snap)
        && scale_up_triggered env.f64 snap (effective_scale_up_threshold spec)
      then with_app s
          (raise (record { kind = saturated; spec = spec.id; replica = none }) (app_of s))
      else s

  unfoldable pub scale : Bool → List Replica → Pass → Pass
  unfolding grow shrink spawn_to_min
  scale cooling snap s =
      if ltb (length snap) (effective_min_replicas spec)
      then below_min (effective_min_replicas spec - length snap) s
      else if ltb (length snap) (effective_max_replicas spec)
          && scale_up_triggered env.f64 snap (effective_scale_up_threshold spec)
      then grow cooling s
      else shrink snap (forget_saturation spec (alert_saturated snap s))

  abbrev pub aged_ids : Pass → List ℕ
  aged_ids s =
      lifetime_reap_candidates (snapshot s) env.now (effective_max_lifetime_secs spec)
        (effective_container_lifetime_secs spec) (effective_drain_timeout_secs spec)

  abbrev pub reap_aged : Pass → Pass
  reap_aged s = reap (aged_ids s) s

  unfoldable pub scale_spec : Pass → Pass
  unfolding tick_cooldown reap scale
  scale_spec s =
      if is_external (kind spec) || not (is_some spec.container_image)
      then s
      else let aged = reap_aged (tick_cooldown spec s) in
        scale (is_cooling spec s) (snapshot aged) aged
