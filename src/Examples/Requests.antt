-- ===== src/Examples/Requests.antt =====
-- Examples of requests on their way to a replica.
use ruscker.Prelude.{
  ◌≡◌, refl, subst, true, false, none, some, List, [], ◌∷◌, arith, eq_of_some, string_key, nat_key,
  pair_key, list_key,
}
use ruscker.Replica.{Replica, ready, stopped}
use ruscker.Registry.{find_mut, replicas_of, all}
use ruscker.Registry.Counting.{IsUnique, occurrences}
use ruscker.Sessions.Seats.{IsBalanced}
use ruscker.Spec.{kind}
use ruscker.Routing.{pick_or_spawn}
use ruscker.Routing.Admit.{Admits, pick_or_spawn-Admits}
use ruscker.Routing.Flow.{resolve_and_track-IsBalanced, IsCalm}
use ruscker.Routing.Resolve.{resolve_and_track, resolve_replica, Resolved}
use ruscker.Routing.Resolve.{resolve_and_track}
use ruscker.Examples.{visitors}
use ruscker.Routing.Gates.{StickySession, sticky_replica_is_live}
use ruscker.Routing.Assets.{IsForwarded, resolve_and_track-asset}
use ruscker.Routing.Sticky.{resolve_replica-IsPinned, IsPinned}
use ruscker.Routing.Gates.{StickySession}
use ruscker.Routing.Growth.{IsFresh}
use ruscker.Examples.{portal, booth, replica, registry, busy, visitors, proxy_of, no_seat, no_load}

busy-IsBalanced : IsBalanced (registry busy) visitors no_seat
unfolding find_mut
busy-IsBalanced i r h = ground arith

busy-IsCalm : IsCalm (registry busy)
unfolding find_mut
busy-IsCalm i r h = ground arith

busy-IsUnique : IsUnique (registry busy)
unfolding occurrences all
busy-IsUnique i = ground arith

-- A new visitor takes the free seat of replica 1.
resolve_and_track-IsBalanced_example :
    IsBalanced
      (resolve_and_track no_load portal none true 30 none 9 visitors (proxy_of busy)).proxy.registry
      (resolve_and_track no_load portal none true 30 none 9 visitors (proxy_of busy)).store
      no_seat
unfolding kind
resolve_and_track-IsBalanced_example =
    resolve_and_track-IsBalanced no_load portal none true 30 none 9 visitors no_seat (proxy_of busy)
      refl refl (λ fresh e. absurd (ground arith)) busy-IsCalm busy-IsBalanced

pick_or_spawn-Admits_example :
    Admits portal none (proxy_of busy) (pick_or_spawn no_load portal none (proxy_of busy))
unfolding kind
pick_or_spawn-Admits_example = pick_or_spawn-Admits no_load portal none (proxy_of busy) refl

-- The cookie of session 20, on the full replica 2.
abbrev cookie : StickySession
cookie = record { session_id = 20; spec_id = "portal"; replica_id = 2 }

abbrev kept_20 : Resolved
kept_20 = record {
  replica = replica 2 ready 2;
  session_id = 20;
  cookie_used = true;
  seat_reserved = false;
  track = true;
}

resolve_replica-IsPinned_example :
    IsPinned portal (proxy_of busy) (some cookie) kept_20
    × ((resolve_replica no_load portal (some cookie) true 30 none (proxy_of busy)).0
        ≡ proxy_of busy)
unfolding resolve_replica replicas_of
resolve_replica-IsPinned_example =
    resolve_replica-IsPinned no_load portal (some cookie) true 30 none (proxy_of busy) kept_20 refl
      refl

-- A stylesheet of the portal, with the cookie of another application.
abbrev stray : StickySession
stray = record { session_id = 20; spec_id = "lab"; replica_id = 1 }

stray_dead :
    (s : StickySession)
    → some stray ≡ some s
    → sticky_replica_is_live (registry busy) "portal" s ≡ false
unfolding sticky_replica_is_live
stray_dead s e =
    subst (λ (q : StickySession). sticky_replica_is_live (registry busy) "portal" q ≡ false)
      (eq_of_some stray s e) refl

resolve_and_track-asset_example :
    IsForwarded portal visitors
      (proxy_of busy)
      (resolve_and_track no_load portal (some stray) false 30 none 9 visitors (proxy_of busy))
unfolding replicas_of
resolve_and_track-asset_example =
    resolve_and_track-asset no_load portal (some stray) 30 none 9 visitors (proxy_of busy)
      stray_dead refl

-- Replica 9 as the backend returns it.
abbrev newcomer : Replica
newcomer = replica 9 ready 0

-- The only replica of the booth has stopped.
abbrev shut : List Replica
shut = replica 1 stopped 0 ∷ []

shut-IsUnique : IsUnique (registry shut)
unfolding occurrences all
shut-IsUnique i = ground arith

shut-IsFresh : IsFresh booth (registry shut) newcomer
unfolding occurrences all
shut-IsFresh = record { unseen = refl; own = refl; unused = refl }
