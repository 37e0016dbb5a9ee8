-- ===== src/Interleaved/Bounded.antt =====
-- The replica cap of a spec under every interleaving of its tasks.
use ruscker.Prelude.{
  ℕ, ◌+◌, ◌≤◌, subst, Bool, false, not, arith, length, string_key, nat_key, pair_key, list_key,
}
use ruscker.Replica.{Replica}
use ruscker.Registry.{ReplicaRegistry, replicas_of, add}
use ruscker.Registry.Counting.{IsUnique, add-IsUnique, upsert-IsUnique}
use ruscker.Spec.{Spec, effective_max_replicas, effective_seats, is_api, kind}
use ruscker.Routing.{reserve_seat}
use ruscker.Routing.Growth.{IsFresh, length-add}
use ruscker.Scaler.Liveness.{adopted}
use ruscker.Scaler.Liveness.Adopted.{upsert-size_own}
use ruscker.Interleaved.{
  StepIsFresh, AllFresh, Turn, free, spawning, adopting, Shared, Step, fast, double_check,
  leave_to_spawn, publish_first, spawn_begins, spawn_ends, spawn_fails, readopt_begins,
  readopt_ends, readopt_fails, removed, modified, recounted, added_elsewhere, Run, here, later,
  Proxy,
}
use ruscker.Interleaved.Sections.{
  room_for, Fits, reserve_seat-Fits, modify-Fits, recount-Fits, remove-Fits, add_elsewhere-Fits,
  fast_path-Fits, slow_path-Fits,
}

-- The pool of the spec with the replica that the mutex's holder may still add.
abbrev pub reach : Spec → Turn → ReplicaRegistry → ℕ
reach spec free reg = length (replicas_of reg spec.id)
reach spec spawning reg = length (replicas_of reg spec.id) + 1
reach spec (adopting r) reg = room_for r (replicas_of reg spec.id)

-- Distinct ids, and a pool of at most `most` replicas, the awaited one included.
pub record IsWithin (spec : Spec) (most : ℕ) (s : Shared) : Type 0 where
  pub distinct : IsUnique s.proxy.registry
  pub within : reach spec s.turn s.proxy.registry ≤ most

reach-Fits :
    (spec : Spec) (turn : Turn) (reg next : ReplicaRegistry)
    → Fits spec.id reg next
    → reach spec turn next ≤ reach spec turn reg
reach-Fits spec free reg next f = f.size
reach-Fits spec spawning reg next f = omega (arith, f.size)
reach-Fits spec (adopting r) reg next f = f.room r

-- The pool after the insertion of a new replica of the spec.
insert-IsWithin :
    (spec : Spec) (reg : ReplicaRegistry) (r : Replica) (b : Bool)
    → IsUnique reg
    → IsFresh spec reg r
    → let next = reserve_seat b (add reg (record r { sessions_max = effective_seats spec })) r.id in
      IsUnique next × (length (replicas_of next spec.id) ≤ length (replicas_of reg spec.id) + 1)
insert-IsWithin spec reg r b u fresh =
    let sized = record r { sessions_max = effective_seats spec } in
    let f =
      reserve_seat-Fits spec.id (add reg sized) b r.id (add-IsUnique reg sized u fresh.unseen) in
    (f.distinct, omega (arith, f.size, length-add spec reg sized fresh.own))

-- A section that leaves the mutex alone.
kept-IsWithin :
    (spec : Spec) (most : ℕ) (s : Shared) (q : Proxy)
    → Fits spec.id s.proxy.registry q.registry
    → IsWithin spec most s
    → IsWithin spec (most + 0) (record s { proxy = q })
kept-IsWithin spec most s q f h = record {
  distinct = f.distinct;
  within = omega (arith, h.within, reach-Fits spec s.turn s.proxy.registry q.registry f);
}

Step-IsWithin :
    {spec : Spec} {s t : Shared} {k most : ℕ} (step : Step spec s t k)
    → StepIsFresh step
    → effective_max_replicas spec ≤ most
    → IsWithin spec most s
    → IsWithin spec (most + k) t
Step-IsWithin {spec} (fast inflight s) _ c h =
    kept-IsWithin spec _ s _ (fast_path-Fits inflight spec.id spec s.proxy h.distinct) h
Step-IsWithin {spec} (double_check inflight p r b e) _ c h =
    let f = slow_path-Fits inflight spec.id spec p h.distinct in
    record { distinct = f.distinct; within = omega (arith, h.within, f.size) }
Step-IsWithin {spec} (leave_to_spawn inflight p e) _ c h =
    let f = slow_path-Fits inflight spec.id spec p h.distinct in
    record { distinct = f.distinct; within = ground (arith, h.within, f.size, c) }
Step-IsWithin {spec} (publish_first p r) fresh c h =
    let (u, n) = insert-IsWithin spec p.registry r (not (is_api (kind spec))) h.distinct fresh in
    record { distinct = u; within = omega (arith, h.within, n) }
Step-IsWithin {spec} (spawn_begins p e) _ c h = record {
  distinct = h.distinct;
  within = ground (arith, h.within, c);
}
Step-IsWithin {spec} (spawn_ends p r) fresh c h =
    let (u, n) = insert-IsWithin spec p.registry r false h.distinct fresh in
    record { distinct = u; within = omega (arith, h.within, n) }
Step-IsWithin (spawn_fails p) _ c h = record {
  distinct = h.distinct;
  within = omega (arith, h.within);
}
Step-IsWithin {spec} (readopt_begins p r own room) _ c h = record {
  distinct = h.distinct;
  within = ground (arith, h.within, c);
}
Step-IsWithin {spec} (readopt_ends p r own) _ c h = record {
  distinct = upsert-IsUnique p.registry (adopted spec r) h.distinct;
  within =
      ground (arith, h.within, upsert-size_own p.registry (adopted spec r) spec.id h.distinct own);
}
Step-IsWithin (readopt_fails p r) _ c h = record {
  distinct = h.distinct;
  within = ground (arith, h.within);
}
Step-IsWithin {spec} (removed s i) _ c h =
    kept-IsWithin spec _ s _ (remove-Fits spec.id s.proxy.registry i h.distinct) h
Step-IsWithin {spec} (modified s i g e) _ c h =
    kept-IsWithin spec _ s _ (modify-Fits spec.id s.proxy.registry i g e h.distinct) h
Step-IsWithin {spec} (recounted s counts) _ c h =
    kept-IsWithin spec _ s _ (recount-Fits spec.id s.proxy.registry counts h.distinct) h
Step-IsWithin {spec} (added_elsewhere s r other) fresh c h =
    kept-IsWithin spec _ s _ (add_elsewhere-Fits spec.id s.proxy.registry r fresh other h.distinct)
      h

-- Whatever the visitors, the scaler's spawns and re-adoptions, the session tracker and the other
-- writers of the registry do in whatever order, ids stay distinct and the pool of the spec, with
-- the replica that the holder of the mutex may still add, stays within a bound that is at least
-- the spec's `max-replicas`, but for one replica for each visitor that left the double-check to
-- spawn at the cap. A replica that the backend returns in the run has the right spec and an id
-- that the registry does not hold then.
pub Run-IsWithin :
    (spec : Spec) (most : ℕ) (s t : Shared) (k : ℕ) (run : Run spec s t k)
    → AllFresh run
    → effective_max_replicas spec ≤ most
    → IsWithin spec most s
    → IsWithin spec (most + k) t
Run-IsWithin spec most s t k here f c h = record {
  distinct = h.distinct;
  within = omega (arith, h.within);
}
Run-IsWithin spec most s t _ (later {t = u} {k = k} run step) (f, fresh) c h =
    subst (λ (m : ℕ). IsWithin spec m t) (omega arith)
      (Step-IsWithin step fresh (omega (arith, c)) (Run-IsWithin spec most s u k run f c h))
