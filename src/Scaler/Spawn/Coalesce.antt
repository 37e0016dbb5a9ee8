-- ===== src/Scaler/Spawn/Coalesce.antt =====
-- A burst of cold-start requests.
use ruscker.Prelude.{
  ℕ, zero, suc, ◌≤◌, ◌<◌, ◌≡◌, refl, Bool, true, false, ◌||◌, Option, none, some, List, [], ◌∷◌,
  ◌++◌, arith, eq_iff, leb, length, keep_if, any, nat_key, string_key, pair_key,
}
use ruscker.Replica.{
  Replica, ReplicaState, starting, ready, draining, stopped, failed, is_starting, is_ready,
}
use ruscker.Registry.{replicas_of}
use ruscker.Registry.Lookup.{replicas_of-add}
use ruscker.Spec.{Spec, effective_max_replicas, effective_seats}
use ruscker.Routing.Gates.{at_capacity, counts_as_live}
use ruscker.Scaler.{AppState}
use ruscker.Scaler.Spawn.{World, spawn_one, spawn_outcome, ensure_available, is_available}
use ruscker.Scaler.Spawn.Capacity.{pool_in}

-- Callers of `ensure_replica_available` that the spec's mutex lets in one after the other.
unfoldable pub burst : (Spec → Bool) → Spec → ℕ → World → World
unfolding spawn_one
burst prepared spec zero w = w
burst prepared spec (suc n) w = burst prepared spec n (spawn_one prepared spec ensure_available w).0

-- The backend delivers replicas of the spec that are starting, or ready with a seat.
abbrev pub DeliversUsable : Spec → List (Option Replica) → Type 0
DeliversUsable spec [] = Unit {0}
DeliversUsable spec (none ∷ os) = Unit {0}
DeliversUsable spec (some r ∷ os) =
    (r.spec_id ≡ spec.id) × (is_available (record r { sessions_max = effective_seats spec }) ≡ true)

any-last :
    (p : Replica → Bool) (rs : List Replica) (r : Replica)
    → p r ≡ true
    → any p (rs ++ r ∷ []) ≡ true
any-last p [] r h = ground arith
any-last p (q ∷ rs) r h = ground (arith, any-last p rs r h)

-- A second caller has nothing to do.
abbrev IsServed : Spec → World → Type 0
IsServed spec w =
    (any is_available (pool_in spec w)
      || leb (effective_max_replicas spec) (length (pool_in spec w)))
    ≡ true

outcome-IsServed :
    (spec : Spec) (st : AppState) (os : List (Option Replica))
    → DeliversUsable spec os
    → (spawn_outcome spec st os).1 ≡ true
    → any is_available (pool_in spec (spawn_outcome spec st os).0) ≡ true
outcome-IsServed spec st [] d h = absurd (ground arith)
outcome-IsServed spec st (none ∷ os) d h = absurd (ground arith)
outcome-IsServed spec st (some r ∷ os) d h = ground (
  arith,
  eq_iff r.spec_id spec.id,
  replicas_of-add st.replicas (record r { sessions_max = effective_seats spec }) spec.id,
  any-last is_available (replicas_of st.replicas spec.id)
      (record r { sessions_max = effective_seats spec }),
)

spawn_one-IsServed :
    (prepared : Spec → Bool) (spec : Spec) (w : World)
    → DeliversUsable spec w.outcomes
    → (spawn_one prepared spec ensure_available w).1 ≡ true
    → IsServed spec (spawn_one prepared spec ensure_available w).0
unfolding spawn_one
spawn_one-IsServed prepared spec w d h = ground (arith, outcome-IsServed spec w.app w.outcomes d)

served_idle :
    (prepared : Spec → Bool) (spec : Spec) (w : World)
    → IsServed spec w
    → (spawn_one prepared spec ensure_available w).0 ≡ w
unfolding spawn_one
served_idle prepared spec w s = ground arith

burst_idle :
    (prepared : Spec → Bool) (spec : Spec) (n : ℕ) (w : World)
    → IsServed spec w
    → burst prepared spec n w ≡ w
unfolding burst
burst_idle prepared spec zero w s = refl
burst_idle prepared spec (suc n) w s =
    rw (served_idle prepared spec w s) (burst_idle prepared spec n w s)

-- A burst of cold-start callers spawns once: when the first one succeeds, and the backend's next
-- answer is usable if it is a replica, every later one finds its capacity (or the cap) and changes
-- nothing, so the burst leaves what the first call left.
pub burst-spawn_one :
    (prepared : Spec → Bool) (spec : Spec) (n : ℕ) (w : World)
    → DeliversUsable spec w.outcomes
    → (spawn_one prepared spec ensure_available w).1 ≡ true
    → burst prepared spec (suc n) w ≡ (spawn_one prepared spec ensure_available w).0
unfolding burst
burst-spawn_one prepared spec n w d h =
    burst_idle prepared spec n (spawn_one prepared spec ensure_available w).0
      (spawn_one-IsServed prepared spec w d h)

none_live :
    (rs : List Replica)
    → any (λ r. counts_as_live r.state) rs ≡ false
    → length (keep_if (λ r. counts_as_live r.state) rs) ≡ 0
none_live [] h = refl
none_live (r ∷ rs) h = ground (arith, none_live rs)

not_live :
    (s : ReplicaState) → counts_as_live s ≡ false → (is_starting s ≡ false) × (is_ready s ≡ false)
not_live starting h = absurd (ground arith)
not_live ready h = absurd (ground arith)
not_live draining h = absurd (ground arith)
not_live stopped h = (refl, refl)
not_live failed h = (refl, refl)

none_available :
    (rs : List Replica) → any (λ r. counts_as_live r.state) rs ≡ false → any is_available rs ≡ false
none_available [] h = refl
none_available (r ∷ rs) h = ground (arith, none_available rs, not_live r.state)

-- The splash's capacity test and the spawn's cap count different replicas: with the pool at a
-- positive cap and none of it live, the test says there is room while the spawn is skipped and
-- reports success.
pub at_capacity-spawn_one :
    (prepared : Spec → Bool) (spec : Spec) (w : World)
    → 0 < effective_max_replicas spec
    → effective_max_replicas spec ≤ length (pool_in spec w)
    → any (λ r. counts_as_live r.state) (pool_in spec w) ≡ false
    → (at_capacity spec w.app.replicas ≡ false)
      × (spawn_one prepared spec ensure_available w ≡ (w, true))
unfolding at_capacity spawn_one
at_capacity-spawn_one prepared spec w m full n = (
  ground (arith, none_live (pool_in spec w) n),
  ground (arith, none_available (pool_in spec w) n),
)
