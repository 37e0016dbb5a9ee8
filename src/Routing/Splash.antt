-- ===== src/Routing/Splash.antt =====
-- The tests that gate the cold-start splash agree with the routing behind it.
use ruscker.Prelude.{
  ℕ, ◌≤◌, String, ◌≡◌, refl, false, ◌&&◌, some, List, [], ◌∷◌, arith, is_some, any, string_key,
  nat_key, pair_key, ◌==◌,
}
use ruscker.Replica.{Replica, is_accepting}
use ruscker.Registry.{replicas_of, all, Pools, pool_of, all_pools}
use ruscker.Registry.Counting.{IsUnique, occurrences, occurrences-append}
use ruscker.Spec.{Spec, effective_routing, is_api, kind}
use ruscker.Routing.{Proxy}
use ruscker.Routing.Pick.{pick_accepting-is_some}
use ruscker.Routing.Admit.{pool}
use ruscker.Routing.Gates.{StickySession, keeps_sessions, sticky_replica_is_live, has_ready_replica}
use ruscker.Routing.Resolve.{live_in, pinned}

-- The readiness probe says yes exactly when some replica of the pool is ready with a free seat,
-- and it leaves the registry as it was.
pub has_ready_replica-any :
    (inflight : ℕ → ℕ) (spec : Spec) (p : Proxy)
    → ((has_ready_replica inflight spec p).1 ≡ any is_accepting (pool spec p))
      × ((has_ready_replica inflight spec p).0.registry ≡ p.registry)
unfolding has_ready_replica
has_ready_replica-any inflight spec p = (
  pick_accepting-is_some inflight (effective_routing spec) (is_api (kind spec)) p.ticket
      (pool spec p),
  refl,
)

no_live-any :
    (rs : List Replica) (i : ℕ)
    → occurrences i rs ≡ 0
    → any (λ r. r.id == i && keeps_sessions r.state) rs ≡ false
unfolding occurrences
no_live-any [] i h = refl
no_live-any (r ∷ rs) i h = ground (arith, no_live-any rs i)

any-live_in :
    (rs : List Replica) (i : ℕ)
    → occurrences i rs ≤ 1
    → any (λ r. r.id == i && keeps_sessions r.state) rs ≡ is_some (live_in rs i)
unfolding occurrences
any-live_in [] i h = refl
any-live_in (r ∷ rs) i h = ground (arith, any-live_in rs i, no_live-any rs i)

occurrences-pool_of :
    (i : ℕ) (s : String) (ps : Pools) → occurrences i (pool_of s ps) ≤ occurrences i (all_pools ps)
unfolding occurrences
occurrences-pool_of i s [] = omega arith
occurrences-pool_of i s ((j, rs) ∷ ps) =
    ground (arith, occurrences-append i rs (all_pools ps), occurrences-pool_of i s ps)

-- The splash is bypassed for a sticky session exactly when `resolve_replica` will honour its
-- cookie: the gate and the routing agree on every registry whose replica ids are distinct.
pub sticky_replica_is_live-pinned :
    (spec : Spec) (p : Proxy) (session : StickySession)
    → IsUnique p.registry
    → sticky_replica_is_live p.registry spec.id session ≡ is_some (pinned spec p (some session))
unfolding sticky_replica_is_live replicas_of all
sticky_replica_is_live-pinned spec p session u = ground (
  arith,
  any-live_in (replicas_of p.registry spec.id) session.replica_id,
  occurrences-pool_of session.replica_id spec.id p.registry.by_spec,
  u session.replica_id,
)
