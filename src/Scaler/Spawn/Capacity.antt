-- ===== src/Scaler/Spawn/Capacity.antt =====
-- A spawn and the replica cap.
use ruscker.Prelude.{
  ◌+◌, ◌≤◌, ◌<◌, max, ◌≡◌, refl, Bool, true, Option, none, some, List, [], ◌∷◌, arith, eq_iff,
  is_some, length, length-append, nat_key, string_key, pair_key,
}
use ruscker.Replica.{Replica}
use ruscker.Registry.{replicas_of}
use ruscker.Registry.Sizes.{length-add_le}
use ruscker.Registry.Lookup.{replicas_of-add}
use ruscker.Spec.{Spec, effective_max_replicas, effective_seats}
use ruscker.Scaler.{AppState}
use ruscker.Scaler.Spawn.{World, SpawnIntent, spawn_one, spawn_outcome, add_capacity}

-- The pool of a spec.
abbrev pub pool_in : Spec → World → List Replica
pool_in spec w = replicas_of w.app.replicas spec.id

outcome-le :
    (spec : Spec) (st : AppState) (os : List (Option Replica))
    → length (pool_in spec (spawn_outcome spec st os).0)
      ≤ length (replicas_of st.replicas spec.id) + 1
outcome-le spec st [] = omega arith
outcome-le spec st (none ∷ os) = omega arith
outcome-le spec st (some r ∷ os) =
    length-add_le st.replicas (record r { sessions_max = effective_seats spec }) spec.id

-- No spawn takes a pool over its cap: afterwards the pool is no larger than the cap, or than it was
-- if it was over the cap before; for either intent, and whatever the backend answers.
pub spawn_one-le-max :
    (prepared : Spec → Bool) (spec : Spec) (intent : SpawnIntent) (w : World)
    → length (pool_in spec (spawn_one prepared spec intent w).0)
      ≤ max (length (pool_in spec w)) (effective_max_replicas spec)
unfolding spawn_one
spawn_one-le-max prepared spec intent w = ground (arith, outcome-le spec w.app w.outcomes)

-- The backend's next answer is a replica of the spec it was asked for.
abbrev pub Delivers : Spec → List (Option Replica) → Type 0
Delivers spec [] = ⊥
Delivers spec (none ∷ os) = ⊥
Delivers spec (some r ∷ os) = r.spec_id ≡ spec.id

outcome-grows :
    (spec : Spec) (st : AppState) (os : List (Option Replica))
    → Delivers spec os
    → (length (pool_in spec (spawn_outcome spec st os).0)
        ≡ length (replicas_of st.replicas spec.id) + 1)
      × ((spawn_outcome spec st os).1 ≡ true)
outcome-grows spec st [] d = absurd d
outcome-grows spec st (none ∷ os) d = absurd d
outcome-grows spec st (some r ∷ os) d = (
  ground (
    arith,
    eq_iff r.spec_id spec.id,
    replicas_of-add st.replicas (record r { sessions_max = effective_seats spec }) spec.id,
    length-append (replicas_of st.replicas spec.id)
        (record r { sessions_max = effective_seats spec } ∷ []),
  ),
  refl,
)

-- Adding capacity below the cap succeeds and adds one replica, if the spec has an image, its request
-- can be built and the backend delivers.
pub spawn_one-grows :
    (prepared : Spec → Bool) (spec : Spec) (w : World)
    → is_some spec.container_image ≡ true
    → prepared spec ≡ true
    → length (pool_in spec w) < effective_max_replicas spec
    → Delivers spec w.outcomes
    → (length (pool_in spec (spawn_one prepared spec add_capacity w).0)
        ≡ length (pool_in spec w) + 1)
      × ((spawn_one prepared spec add_capacity w).1 ≡ true)
unfolding spawn_one
spawn_one-grows prepared spec w i p below d =
    let (n, ok) = outcome-grows spec w.app w.outcomes d in (ground arith, ground arith)
