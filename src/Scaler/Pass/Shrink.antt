-- ===== src/Scaler/Pass/Shrink.antt =====
-- The scale-down: which replicas it stops, and that it stays at or above `min-replicas`.
use ruscker.Prelude.{
  ℕ, ◌-◌, ◌≤◌, ◌≡◌, inl, inr, List, Memᴰ, arith, Bool-cases, unwrap_or, length, keep_if, take,
  length-take, string_key, nat_key, pair_key, list_key, take-Mem, keep_if-Mem, length-map, map-Mem,
}
use ruscker.Prelude.Assoc
use ruscker.Replica.{Replica}
use ruscker.Spec.{Spec, effective_min_replicas, effective_scale_down_threshold}
use ruscker.Scaler.{inflight_count}
use ruscker.Scaler.Spawn.Capacity.{pool_in}
use ruscker.Scaler.Signals.{Ticks, overlay_request_capacity, overlaid}
use ruscker.Scaler.Pass.{
  Env, Pass, shrink, drop_candidates, underutilized, drop_after, is_droppable, snapshot,
}
use ruscker.Scaler.Pass.Size.{size_of, reap-size}

module _ (env : Env) (spec : Spec) where
  pub length-snapshot : (s : Pass) → length (snapshot env spec s) ≡ size_of spec s
  unfolding overlay_request_capacity
  length-snapshot s =
      ground (arith, length-map (overlaid (inflight_count s.world.app) spec) (pool_in spec s.world))

  length-drop_candidates :
      (snap : List Replica) (idle : Ticks ℕ)
      → length (drop_candidates env spec snap idle) ≤ length snap - effective_min_replicas spec
  unfolding drop_candidates
  length-drop_candidates snap idle =
      let kept = keep_if (is_droppable env spec idle) snap in
      ground (
        arith,
        length-map {A = Replica} (λ r. r.id)
            (take (length snap - effective_min_replicas spec) kept),
        length-take (length snap - effective_min_replicas spec) kept,
      )

  pub drop_candidates-idle :
      (snap : List Replica) (idle : Ticks ℕ) (i : ℕ)
      → Memᴰ i (drop_candidates env spec snap idle)
      → (r : Replica) × Memᴰ r snap
        × (r.id ≡ i)
        × (r.sessions_active ≡ 0)
        × (drop_after env spec ≤ unwrap_or (Assoc.lookup i idle) 0)
  unfolding drop_candidates
  drop_candidates-idle snap idle i m =
      elim (Bool-cases (underutilized env spec snap (effective_scale_down_threshold spec))) [
        | inr e ↦ elim (rw (e, drop_candidates) at m) [ ]
        | inl e ↦
            let kept = keep_if (is_droppable env spec idle) snap in
            let n = length snap - effective_min_replicas spec in
            let (r, k, same) =
              map-Mem {A = Replica} (λ r. r.id) i (take n kept) (rw (e, drop_candidates) at m) in
            let (member, ok) =
              keep_if-Mem (is_droppable env spec idle) r snap (take-Mem n r kept k) in
            (r, member, same, ground arith, ground arith)
      ]

  -- A scale-down of a pool of at least `min-replicas` replicas never leaves fewer than
  -- `min-replicas`.
  pub shrink-ge-min :
      (s : Pass)
      → effective_min_replicas spec ≤ size_of spec s
      → effective_min_replicas spec ≤ size_of spec (shrink env spec (snapshot env spec s) s)
  unfolding shrink
  shrink-ge-min s h = ground (
    arith,
    length-snapshot s,
    length-drop_candidates (snapshot env spec s) s.idle,
    reap-size env spec (drop_candidates env spec (snapshot env spec s) s.idle) s,
  )
