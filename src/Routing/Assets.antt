-- ===== src/Routing/Assets.antt =====
-- Requests that open no session: the assets of a page.
use ruscker.Prelude.{
  ℕ, ◌≡◌, refl, inl, inr, true, false, ◌&&◌, Option, none, some, List, [], ◌∷◌, Memᴰ, arith,
  Option-cases, any, string_key, nat_key, pair_key, ◌==◌, list_key,
}
use ruscker.Replica.{Replica, is_accepting}
use ruscker.Spec.{Spec}
use ruscker.Sessions.{Store}
use ruscker.Routing.{Proxy, any_of, serves}
use ruscker.Routing.Admit.{pool}
use ruscker.Routing.Pick.{pick_replica_lem}
use ruscker.Spec.{effective_routing, is_api, kind}
use ruscker.Routing.Gates.{StickySession, sticky_replica_is_live, keeps_sessions}
use ruscker.Routing.Resolve.{Resolved, live_in, pinned, resolve_replica, Tracked, resolve_and_track}

-- No session is opened or touched, no seat moves, and a ready replica of the pool serves, one with
-- a free seat if there is one.
pub record IsForwarded (spec : Spec) (st : Store) (p : Proxy) (done : Tracked) : Type 0 where
  pub sessions : done.store ≡ st
  pub seats : done.proxy.registry ≡ p.registry
  pub res : Resolved
  pub served : done.served ≡ some res
  pub member : Memᴰ res.replica (pool spec p)
  pub is_ready : serves res.replica ≡ true
  pub is_free : is_accepting res.replica ≡ any is_accepting (pool spec p)

live_in-dead :
    (rs : List Replica) (i : ℕ)
    → any (λ r. r.id == i && keeps_sessions r.state) rs ≡ false
    → live_in rs i ≡ none
live_in-dead [] i h = refl
live_in-dead (r ∷ rs) i h = ground (arith, live_in-dead rs i)

pinned-dead :
    (spec : Spec) (p : Proxy) (cookie : Option StickySession)
    → ((s : StickySession) → cookie ≡ some s → sticky_replica_is_live p.registry spec.id s ≡ false)
    → pinned spec p cookie ≡ none
unfolding sticky_replica_is_live
pinned-dead spec p none h = refl
pinned-dead spec p (some s) h = ground (arith, h s refl, live_in-dead (pool spec p) s.replica_id)

forwarded : Replica → ℕ → Resolved
forwarded r fresh_id = record {
  replica = r;
  session_id = fresh_id;
  cookie_used = true;
  seat_reserved = false;
  track = false;
}

module _ (inflight : ℕ → ℕ) (spec : Spec) (cookie : Option StickySession) (fresh_id : ℕ)
    (spawned : Option Replica) (now : ℕ) (st : Store) (p : Proxy) where
  asset-lem :
      (r : Replica)
      → pinned spec p cookie ≡ none
      → (any_of inflight spec p).choice ≡ some r
      → resolve_and_track inflight spec cookie false fresh_id spawned now st p ≡ record {
        proxy = record p { ticket = (any_of inflight spec p).ticket };
        store = st;
        served = some (forwarded r fresh_id);
      }
  unfolding resolve_and_track resolve_replica forwarded
  asset-lem r e c = rw (e, resolve_replica) (rw (c, resolve_replica) refl)

  -- A request that is not tracked, and whose cookie, if any, names no replica that
  -- `sticky_replica_is_live` accepts, is no visit: it is served by a ready replica of the pool,
  -- one with a free seat if there is one, and the session store and the registry with all its
  -- seats are as they were. The pool has a ready replica.
  pub resolve_and_track-asset :
      ((s : StickySession) → cookie ≡ some s → sticky_replica_is_live p.registry spec.id s ≡ false)
      → any serves (pool spec p) ≡ true
      → IsForwarded spec st p
          (resolve_and_track inflight spec cookie false fresh_id spawned now st p)
  unfolding forwarded
  resolve_and_track-asset dead ready =
      let (found, chosen) =
        pick_replica_lem inflight (effective_routing spec) (is_api (kind spec)) p.ticket
          (pool spec p) in
      elim (Option-cases (any_of inflight spec p).choice) [
        | inl e ↦ absurd (ground arith)
        | inr (r, e) ↦
            let (m, s, a) = chosen r e in
            rw (asset-lem r (pinned-dead spec p cookie dead) e) (record {
              sessions = refl;
              seats = refl;
              res = forwarded r fresh_id;
              served = refl;
              member = m;
              is_ready = s;
              is_free = a;
            })
      ]
