-- ===== src/Scaler/Pass/Refill.antt =====
-- A spec's turn brings its pool up to `min-replicas` when the backend delivers.
use ruscker.Prelude.{
  ℕ, zero, suc, ◌+◌, ◌-◌, ◌≤◌, ◌<◌, ◌≡◌, refl, Bool, true, false, Option, none, some, List, [], ◌∷◌,
  arith, leb, is_some, length, nat_key, string_key, pair_key,
}
use ruscker.Replica.{Replica}
use ruscker.Registry.{replicas_of}
use ruscker.Registry.Sizes.{length-add_ge}
use ruscker.Spec.{
  Spec, kind, is_external, effective_min_replicas, effective_seats, kind, is_external,
  effective_max_replicas, effective_min_replicas,
}
use ruscker.Scaler.{AppState}
use ruscker.Scaler.Spawn.{World, spawn_one, spawn_outcome, add_capacity}
use ruscker.Scaler.Spawn.Capacity.{pool_in, Delivers, spawn_one-grows}
use ruscker.Scaler.Pass.{
  Env, reap_one, grow, grow_at, count_saturated, streak, aged_ids, reap_aged, is_cooling, scale,
  scale_spec, snapshot, tick_cooldown, forget_saturation, alert_saturated, reap, Pass,
  clear_failures, spawn_to_min, grow, grow_at, streak, count_saturated, alert_saturated, scale,
  scale_spec, tick_cooldown, snapshot, reap, reap_aged, is_cooling, forget_saturation,
}
use ruscker.Scaler.Pass.Size.{size_of, log-pool}
use ruscker.Scaler.Pass.Shrink.{shrink-ge-min, length-snapshot}

-- The next `n` answers of the backend are replicas of the spec that it was asked for.
abbrev pub DeliversAll : Spec → ℕ → List (Option Replica) → Type 0
DeliversAll spec zero os = Unit {0}
DeliversAll spec (suc n) [] = ⊥
DeliversAll spec (suc n) (none ∷ os) = ⊥
DeliversAll spec (suc n) (some r ∷ os) = (r.spec_id ≡ spec.id) × DeliversAll spec n os

DeliversAll-first :
    (spec : Spec) (n : ℕ) (os : List (Option Replica))
    → DeliversAll spec (suc n) os
    → Delivers spec os
DeliversAll-first spec n [] d = d
DeliversAll-first spec n (none ∷ os) d = d
DeliversAll-first spec n (some r ∷ os) d = d.0

DeliversAll-outcome :
    (spec : Spec) (n : ℕ) (st : AppState) (os : List (Option Replica))
    → DeliversAll spec (suc n) os
    → DeliversAll spec n (spawn_outcome spec st os).0.outcomes
DeliversAll-outcome spec n st [] d = absurd d
DeliversAll-outcome spec n st (none ∷ os) d = absurd d
DeliversAll-outcome spec n st (some r ∷ os) d = d.1

DeliversAll-fewer :
    (spec : Spec) (n m : ℕ) (os : List (Option Replica))
    → n ≤ m
    → DeliversAll spec m os
    → DeliversAll spec n os
DeliversAll-fewer spec zero m os h d = tt
DeliversAll-fewer spec (suc n) zero os h d = absurd (omega arith)
DeliversAll-fewer spec (suc n) (suc m) [] h d = d
DeliversAll-fewer spec (suc n) (suc m) (none ∷ os) h d = d
DeliversAll-fewer spec (suc n) (suc m) (some r ∷ os) h d =
    (d.0, DeliversAll-fewer spec n m os (omega arith) d.1)

module _ (env : Env) (spec : Spec) (image : is_some spec.container_image ≡ true)
    (ready_to_ask : env.prepared spec ≡ true) where
  spawn_one-outcomes :
      (n : ℕ) (w : World)
      → length (pool_in spec w) < effective_max_replicas spec
      → DeliversAll spec (suc n) w.outcomes
      → DeliversAll spec n (spawn_one env.prepared spec add_capacity w).0.outcomes
  unfolding spawn_one
  spawn_one-outcomes n w below d =
      let full : leb (effective_max_replicas spec) (length (pool_in spec w)) ≡ false =
        ground arith in
      rw (full, spawn_one)
        (rw (image, spawn_one)
          (rw (ready_to_ask, spawn_one) (DeliversAll-outcome spec n w.app w.outcomes d)))

  spawn_to_min-size :
      (n : ℕ) (w : World)
      → length (pool_in spec w) + n ≤ effective_max_replicas spec
      → DeliversAll spec n w.outcomes
      → length (pool_in spec (spawn_to_min env spec n w)) ≡ length (pool_in spec w) + n
  unfolding spawn_to_min
  spawn_to_min-size zero w room d = omega arith
  spawn_to_min-size (suc n) w room d =
      let next = (spawn_one env.prepared spec add_capacity w).0 in
      let (grown, ok) =
        spawn_one-grows env.prepared spec w image ready_to_ask (omega arith)
          (DeliversAll-first spec n w.outcomes d) in
      rw (ok, spawn_to_min)
        (ground (
          arith,
          spawn_to_min-size n (clear_failures env spec next) (omega arith)
              (spawn_one-outcomes n w (omega arith) d),
        ))

module _ (env : Env) (spec : Spec) where
  outcome-ge :
      (st : AppState) (os : List (Option Replica))
      → length (replicas_of st.replicas spec.id)
        ≤ length (pool_in spec (spawn_outcome spec st os).0)
  outcome-ge st [] = omega arith
  outcome-ge st (none ∷ os) = omega arith
  outcome-ge st (some r ∷ os) =
      length-add_ge st.replicas (record r { sessions_max = effective_seats spec }) spec.id

  spawn_one-ge :
      (w : World)
      → length (pool_in spec w)
        ≤ length (pool_in spec (spawn_one env.prepared spec add_capacity w).0)
  unfolding spawn_one
  spawn_one-ge w = ground (arith, outcome-ge w.app w.outcomes)

  grow_at-ge : (n : ℕ) (s : Pass) → size_of spec s ≤ size_of spec (grow_at env spec n s)
  grow_at-ge n s = ground (
    arith,
    spawn_one-ge s.world,
    log-pool env spec (spawn_one env.prepared spec add_capacity s.world).0,
  )

  grow-ge : (cooling : Bool) (s : Pass) → size_of spec s ≤ size_of spec (grow env spec cooling s)
  unfolding grow
  grow-ge true s = omega arith
  grow-ge false s = grow_at-ge (streak env spec s) (count_saturated env spec s)

  reap-outcomes :
      (ids : List ℕ) (s : Pass) → (reap env spec ids s).world.outcomes ≡ s.world.outcomes
  unfolding reap
  reap-outcomes [] s = refl
  reap-outcomes (i ∷ ids) s = reap-outcomes ids (reap_one env spec i s)

  tick_cooldown-outcomes : (s : Pass) → (tick_cooldown spec s).world.outcomes ≡ s.world.outcomes
  unfolding tick_cooldown
  tick_cooldown-outcomes s = ground arith

  quiet_shrink : (s : Pass) → Pass
  quiet_shrink s = forget_saturation spec (alert_saturated env spec (snapshot env spec s) s)

  quiet_shrink-snapshot : (s : Pass) → snapshot env spec (quiet_shrink s) ≡ snapshot env spec s
  unfolding quiet_shrink
  quiet_shrink-snapshot s = ground arith

  module _ (image : is_some spec.container_image ≡ true) (ready_to_ask : env.prepared spec ≡ true)
      (fits : effective_min_replicas spec ≤ effective_max_replicas spec) where
    scale-ge-min :
        (cooling : Bool) (s : Pass)
        → DeliversAll spec (effective_min_replicas spec) s.world.outcomes
        → effective_min_replicas spec
          ≤ size_of spec (scale env spec cooling (snapshot env spec s) s)
    unfolding scale quiet_shrink
    scale-ge-min cooling s d =
        let low = effective_min_replicas spec in
        let missing = low - length (snapshot env spec s) in
        ground (
          arith,
          length-snapshot env spec s,
          grow-ge cooling s,
          spawn_to_min-size env spec image ready_to_ask missing s.world,
          DeliversAll-fewer spec missing low s.world.outcomes,
          shrink-ge-min env spec (quiet_shrink s),
          quiet_shrink-snapshot s,
        )

    -- After a spec's turn its pool has at least `min-replicas` replicas, whatever the lifetime
    -- reap and the scale-down stopped, if the spec is not external and has an image, its request
    -- can be built, the backend delivers and `min-replicas` is at most `max-replicas`.
    pub scale_spec-ge-min :
        (s : Pass)
        → is_external (kind spec) ≡ false
        → DeliversAll spec (effective_min_replicas spec) s.world.outcomes
        → effective_min_replicas spec ≤ size_of spec (scale_spec env spec s)
    unfolding scale_spec
    scale_spec-ge-min s e d =
        let ticked = tick_cooldown spec s in
        let aged = reap_aged env spec ticked in
        rw (e, scale_spec)
          (rw (image, scale_spec)
            (scale-ge-min (is_cooling spec s) aged (
              rw (reap-outcomes (aged_ids env spec ticked) ticked)
                (rw (tick_cooldown-outcomes s) d))))
