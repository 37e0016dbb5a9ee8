-- ===== src/Examples/Visits.antt =====
-- Examples of the session tracker, and of the least-loaded choice.
use ruscker.Prelude.{
  ◌≡◌, refl, ◌≢◌, false, [], arith, All, string_key, nat_key, pair_key, list_key, pos,
}
use ruscker.Prelude.Assoc
use ruscker.Replica.{ready}
use ruscker.Registry.{find_mut, all}
use ruscker.Registry.Counting.{IsUnique, occurrences}
use ruscker.Sessions.{sweep, expired, timeout_of}
use ruscker.Sessions.Seats.{IsBalanced, HasRoom, claimed}
use ruscker.Sessions.Sweep.{sweep-lookup, sweep-IsBalanced, unless}
use ruscker.Spec.{round_robin, least_connections}
use ruscker.Routing.{select}
use ruscker.Routing.Balance.{NoLessLoaded, select-least_loaded}
use ruscker.Examples.{replica, registry, busy, visitors, no_seat, no_load}

visitors-IsMap : Assoc.IsMap visitors
visitors-IsMap k = ground arith

busy-IsBalanced : IsBalanced (registry busy) visitors no_seat
unfolding find_mut
busy-IsBalanced i r h = ground arith

-- Three milliseconds, at the instant of nine: session 10 goes, session 21 stays.
sweep-lookup_example :
    Assoc.lookup 21 (sweep visitors (registry busy) 9000000 (pos 3) []).store
    ≡ unless (λ x. expired (timeout_of (pos 3) [] x) 9000000 x) (Assoc.lookup 21 visitors)
sweep-lookup_example = sweep-lookup (registry busy) visitors 21 9000000 (pos 3) [] visitors-IsMap

sweep-IsBalanced_example :
    IsBalanced
      (sweep visitors (registry busy) 9000000 (pos 3) []).registry
      (sweep visitors (registry busy) 9000000 (pos 3) []).store
      no_seat
sweep-IsBalanced_example =
    sweep-IsBalanced (registry busy) visitors no_seat 9000000 (pos 3) [] visitors-IsMap
      busy-IsBalanced

busy-HasRoom : HasRoom (registry busy) 1
unfolding find_mut
busy-HasRoom r h = ground arith

unclaimed : IsBalanced (registry busy) visitors (claimed visitors 30 1 false no_seat)
unfolding find_mut
unclaimed i r h = ground arith

busy-IsUnique : IsUnique (registry busy)
unfolding occurrences all
busy-IsUnique i = ground arith

not_round_robin : least_connections ≢ round_robin
not_round_robin e = absurd (ground (arith, e))

select-least_loaded_example : All (NoLessLoaded false no_load (replica 1 ready 1)) busy
unfolding select
select-least_loaded_example =
    select-least_loaded no_load least_connections false 0 busy (replica 1 ready 1) not_round_robin
      refl
