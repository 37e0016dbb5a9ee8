-- ===== src/Routing/Resolve.antt =====
-- The replica and the session of a request (`resolve_replica`), and the tracking of the session by
-- the handler that calls it.
use ruscker.Prelude.{
  ℕ, Bool, true, false, ◌&&◌, Option, none, some, List, if◌then◌else◌, find, ◌==◌, nat_key,
  string_key,
}
use ruscker.Replica.{Replica}
use ruscker.Registry.{replicas_of}
use ruscker.Spec.{Spec, SpecKind, kind, shiny, interactive_app, api, external}
use ruscker.Sessions.{Store, touch_or_register}
use ruscker.Routing.{
  Proxy, pick_or_spawn, any_of, Picked, Admission, admitted, must_spawn, failed_spawn,
}
use ruscker.Routing.Gates.{StickySession, keeps_sessions}

pub record Resolved : Type 0 where
  pub replica : Replica
  pub session_id : ℕ
  pub cookie_used : Bool
  pub seat_reserved : Bool
  pub track : Bool

-- The pinned replica of a decoded cookie, while it can still serve the session.
abbrev pub live_in : List Replica → ℕ → Option Replica
live_in rs rid = elim (find (λ r. r.id == rid) rs) [
  | none ↦ none
  | some r ↦ if keeps_sessions r.state then some r else none
]

abbrev pub pinned : Spec → Proxy → Option StickySession → Option Resolved
pinned spec p none = none
pinned spec p (some session) =
    if session.spec_id == spec.id
    then elim (live_in (replicas_of p.registry spec.id) session.replica_id) [
      | none ↦ none
      | some r ↦ some (record {
        replica = r;
        session_id = session.session_id;
        cookie_used = true;
        seat_reserved = false;
        track = true;
      })
    ]
    else none

abbrev pub visit : ℕ → Proxy × Admission → Proxy × Option Resolved
visit fresh_id (p, admitted r reserved) = (
  p,
  some (record {
    replica = r;
    session_id = fresh_id;
    cookie_used = false;
    seat_reserved = reserved;
    track = true;
  }),
)
visit fresh_id (p, must_spawn) = (p, none)
visit fresh_id (p, failed_spawn) = (p, none)

abbrev pub asset : ℕ → Proxy → Picked → Option (Proxy × Option Resolved)
asset fresh_id p picked = elim picked.choice [
  | none ↦ none
  | some r ↦ some (
    record p { ticket = picked.ticket },
    some (record {
      replica = r;
      session_id = fresh_id;
      cookie_used = true;
      seat_reserved = false;
      track = false;
    }),
  )
]

-- `fresh_id` is the session id that is minted when one is needed.
unfoldable pub resolve_replica :
    (ℕ → ℕ)
    → Spec
    → Option StickySession
    → Bool
    → ℕ
    → Option Replica
    → Proxy
    → Proxy × Option Resolved
resolve_replica inflight spec cookie is_visit fresh_id spawned p =
    let new_visit = visit fresh_id (pick_or_spawn inflight spec spawned p) in
    let any_ready = any_of inflight spec p in
    elim (pinned spec p cookie) [
      | some kept ↦ (p, some kept)
      | none ↦
          if is_visit
          then new_visit
          else elim (asset fresh_id p any_ready) [ some served ↦ served | none ↦ new_visit ]
    ]

abbrev pub spec_kind_needs_sticky : SpecKind → Bool
spec_kind_needs_sticky shiny = true
spec_kind_needs_sticky interactive_app = true
spec_kind_needs_sticky api = false
spec_kind_needs_sticky external = false

pub record Tracked : Type 0 where
  pub proxy : Proxy
  pub store : Store
  pub served : Option Resolved

abbrev pub touch_resolved : Spec → ℕ → Store → Proxy → Resolved → Tracked
touch_resolved spec now st p res =
    let touch =
      touch_or_register st p.registry now res.session_id spec.id res.replica.id res.seat_reserved in
    if res.track && spec_kind_needs_sticky (kind spec)
    then record {
      proxy = record p { registry = touch.registry };
      store = touch.store;
      served = some res;
    }
    else record { proxy = p; store = st; served = some res }

abbrev pub track_outcome : Spec → ℕ → Store → Proxy × Option Resolved → Tracked
track_outcome spec now st (p, none) = record { proxy = p; store = st; served = none }
track_outcome spec now st (p, some res) = touch_resolved spec now st p res

-- Steps 4 and 4b of the handler: resolve, then record the session.
unfoldable pub resolve_and_track :
    (ℕ → ℕ) → Spec → Option StickySession → Bool → ℕ → Option Replica → ℕ → Store → Proxy → Tracked
unfolding resolve_replica
resolve_and_track inflight spec cookie is_visit fresh_id spawned now st p =
    track_outcome spec now st (resolve_replica inflight spec cookie is_visit fresh_id spawned p)
