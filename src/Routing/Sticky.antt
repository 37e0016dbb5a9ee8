-- ===== src/Routing/Sticky.antt =====
-- What `resolve_replica` promises about the sticky cookie.
use ruscker.Prelude.{
  ℕ, ◌≡◌, refl, sym, ◌∙◌, inl, inr, Bool, true, false, ◌&&◌, ◌||◌, not, Option, none, some, List,
  Memᴰ, arith, eq_iff, Bool-cases, Option-cases, eq_of_some, any, find, find-mem, string_key,
  nat_key, pair_key, ◌==◌, list_key,
}
use ruscker.Replica.{Replica}
use ruscker.Spec.{Spec, effective_routing, is_api, kind}
use ruscker.Routing.{
  Proxy, pick_or_spawn, Admission, admitted, must_spawn, failed_spawn, any_of, serves,
}
use ruscker.Routing.Pick.{pick_replica_lem}
use ruscker.Routing.Admit.{pool}
use ruscker.Routing.Gates.{StickySession, keeps_sessions}
use ruscker.Routing.Resolve.{Resolved, live_in, pinned, visit, resolve_replica}

live_in_lem :
    (rs : List Replica) (i : ℕ) (r : Replica)
    → live_in rs i ≡ some r
    → Memᴰ r rs × (r.id ≡ i) × (keeps_sessions r.state ≡ true)
live_in_lem rs i r h = elim (Option-cases (find (λ r. r.id == i) rs)) [
  | inl e ↦ absurd (ground arith)
  | inr (q, e) ↦
      let (m, k) = find-mem (λ r. r.id == i) rs q e in
      let same : q ≡ r = eq_of_some q r (ground arith) in
      (rw (← same) m, rw (← same) (ground arith), rw (← same) (ground arith))
]

-- The session of a cookie, on a replica of the pool that can still serve it.
pub record IsPinned (spec : Spec) (p : Proxy) (cookie : Option StickySession) (res : Resolved)
    : Type 0 where
  pub session : StickySession
  pub sent : cookie ≡ some session
  pub same_spec : session.spec_id ≡ spec.id
  pub same_session : res.session_id ≡ session.session_id
  pub same_replica : res.replica.id ≡ session.replica_id
  pub member : Memᴰ res.replica (pool spec p)
  pub alive : keeps_sessions res.replica.state ≡ true
  pub counted : res.seat_reserved ≡ false
  pub tracked : res.track ≡ true

pub pinned_lem :
    (spec : Spec) (p : Proxy) (cookie : Option StickySession) (res : Resolved)
    → pinned spec p cookie ≡ some res
    → IsPinned spec p cookie res
pinned_lem spec p none res h = absurd (ground arith)
pinned_lem spec p (some s) res h = elim (Option-cases (live_in (pool spec p) s.replica_id)) [
  | inl e ↦ absurd (ground arith)
  | inr (r, e) ↦
      let (m, i, k) = live_in_lem (pool spec p) s.replica_id r e in
      let same : r ≡ res.replica = ground arith in
      record {
        session = s;
        sent = refl;
        same_spec = ground (arith, eq_iff s.spec_id spec.id);
        same_session = ground arith;
        same_replica = ground arith;
        member = rw (← same) m;
        alive = rw (← same) k;
        counted = ground arith;
        tracked = ground arith;
      }
]

module _ (inflight : ℕ → ℕ) (spec : Spec) (cookie : Option StickySession) (is_visit : Bool)
    (fresh_id : ℕ) (spawned : Option Replica) (p : Proxy) where
  -- The three ways of `resolve_replica`: the cookie's replica, an asset on a ready replica, and
  -- the admission of a visit.
  pub data Resolves (q : Proxy × Option Resolved) : Type 0 where
    kept :
        (res : Resolved) → pinned spec p cookie ≡ some res → q.0 ≡ p → q.1 ≡ some res → Resolves q
    forwarded :
        (r : Replica)
        → pinned spec p cookie ≡ none
        → is_visit ≡ false
        → Memᴰ r (pool spec p)
        → serves r ≡ true
        → q.0.registry ≡ p.registry
        → q.1
          ≡ some (record {
            replica = r;
            session_id = fresh_id;
            cookie_used = true;
            seat_reserved = false;
            track = false;
          })
        → Resolves q
    opened :
        pinned spec p cookie ≡ none
        → (is_visit || not (any serves (pool spec p))) ≡ true
        → q ≡ visit fresh_id (pick_or_spawn inflight spec spawned p)
        → Resolves q

  resolved : Proxy × Option Resolved
  unfolding resolve_replica
  resolved = resolve_replica inflight spec cookie is_visit fresh_id spawned p

  unpinned :
      (choice : Option Replica)
      → (any_of inflight spec p).choice ≡ choice
      → pinned spec p cookie ≡ none
      → Resolves resolved
  unfolding resolved
  unpinned none c e =
      opened e
        (ground (
          arith,
          (pick_replica_lem inflight (effective_routing spec) (is_api (kind spec)) p.ticket
              (pool spec p)).0,
        ))
        (ground arith)
  unpinned (some r) c e =
      let (m, s, _) =
        (pick_replica_lem inflight (effective_routing spec) (is_api (kind spec)) p.ticket
            (pool spec p)).1
          r c in
      elim (Bool-cases is_visit) [
        | inl v ↦ opened e (ground arith) (ground arith)
        | inr v ↦ forwarded r e v m s (ground arith) (ground arith)
      ]

  pub resolve_replica-Resolves :
      Resolves (resolve_replica inflight spec cookie is_visit fresh_id spawned p)
  unfolding resolved
  resolve_replica-Resolves = elim (Option-cases (pinned spec p cookie)) [
    | inr (res, e) ↦ kept res e (ground arith) (ground arith)
    | inl e ↦ unpinned (any_of inflight spec p).choice refl e
  ]

visit_tracks :
    (fresh_id : ℕ) (a : Proxy × Admission) (res : Resolved)
    → (visit fresh_id a).1 ≡ some res
    → (res.track ≡ true) × (res.cookie_used ≡ false)
visit_tracks fresh_id (p, admitted r reserved) res h = (ground arith, ground arith)
visit_tracks fresh_id (p, must_spawn) res h = absurd (ground arith)
visit_tracks fresh_id (p, failed_spawn) res h = absurd (ground arith)

IsPinned-cases :
    (inflight : ℕ → ℕ) (spec : Spec) (cookie : Option StickySession) (is_visit : Bool)
    (fresh_id : ℕ) (spawned : Option Replica) (p : Proxy) (q : Proxy × Option Resolved)
    (res : Resolved)
    → Resolves inflight spec cookie is_visit fresh_id spawned p q
    → q.1 ≡ some res
    → (res.cookie_used && res.track) ≡ true
    → IsPinned spec p cookie res × (q.0 ≡ p)
IsPinned-cases inflight spec cookie is_visit fresh_id spawned p q res (kept found e s t) h c =
    (pinned_lem spec p cookie res (e ∙ sym t ∙ h), s)
IsPinned-cases inflight spec cookie is_visit fresh_id spawned p q res (forwarded r e v m s g t) h
      c =
    absurd (ground arith)
IsPinned-cases inflight spec cookie is_visit fresh_id spawned p q res (opened e v t) h c =
    let (_, unused) =
      visit_tracks fresh_id (pick_or_spawn inflight spec spawned p) res (rw t at h) in
    absurd (ground arith)

-- A request whose tracked session comes from its cookie is served by the replica that the cookie
-- names, in the pool of this spec and still able to serve, under the cookie's session id; the
-- cookie is one of this spec, no seat is reserved and the registry is left as it was.
pub resolve_replica-IsPinned :
    (inflight : ℕ → ℕ) (spec : Spec) (cookie : Option StickySession) (is_visit : Bool)
    (fresh_id : ℕ) (spawned : Option Replica) (p : Proxy) (res : Resolved)
    → (resolve_replica inflight spec cookie is_visit fresh_id spawned p).1 ≡ some res
    → (res.cookie_used && res.track) ≡ true
    → IsPinned spec p cookie res
      × ((resolve_replica inflight spec cookie is_visit fresh_id spawned p).0 ≡ p)
resolve_replica-IsPinned inflight spec cookie is_visit fresh_id spawned p res h c =
    IsPinned-cases inflight spec cookie is_visit fresh_id spawned p _ res
      (resolve_replica-Resolves inflight spec cookie is_visit fresh_id spawned p) h c
