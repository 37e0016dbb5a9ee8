-- ===== src/Scaler/Pass/Graced.antt =====
-- The scale-down and the ticks before it.
use ruscker.Prelude.{ℕ, ◌≡◌, List, Memᴰ, string_key, nat_key, pair_key, list_key}
use ruscker.Replica.{Replica}
use ruscker.Spec.{Spec}
use ruscker.Scaler.Signals.Watched.{IdleEvent, idle_after, WasIdle, AllOnce, idle_after-WasIdle}
use ruscker.Scaler.Pass.{Env, drop_candidates, drop_after}
use ruscker.Scaler.Pass.Shrink.{drop_candidates-idle}

-- A replica that the scale-down picks is one of the snapshot and has no session there (no request
-- in flight, for an API), and in each of the last `drop_after` snapshots of the registry it was
-- past its start-up grace and had no session by the registry's own count, which for an API does
-- not see the requests in flight. Each of these snapshots has the replica at most once.
pub drop_candidates-WasIdle :
    (env : Env) (spec : Spec) (snap : List Replica) (events : List IdleEvent) (i : ℕ)
    → AllOnce i events
    → Memᴰ i (drop_candidates env spec snap (idle_after events))
    → ((r : Replica) × Memᴰ r snap × (r.id ≡ i) × (r.sessions_active ≡ 0))
      × WasIdle i (drop_after env spec) events
drop_candidates-WasIdle env spec snap events i once m =
    let (r, member, same, free, enough) =
      drop_candidates-idle env spec snap (idle_after events) i m in
    ((r, member, same, free), idle_after-WasIdle i (drop_after env spec) events once enough)
