-- ===== src/Routing/Flow.antt =====
-- The seat accounting across one request: routing, admission and session tracking together.
use ruscker.Prelude.{
  ℕ, ◌+◌, ◌<◌, ◌≡◌, refl, inl, inr, Bool, true, false, Option, none, some, arith, Option-cases,
  nat_key, string_key,
}
use ruscker.Prelude.Assoc
use ruscker.Replica.{Replica, u32_max}
use ruscker.Registry.{ReplicaRegistry, find_mut, inc_sessions, add}
use ruscker.Registry.Find.{find_mut-add, find_mut-inc_sessions}
use ruscker.Sessions.{Store, bound}
use ruscker.Sessions.Seats.{
  IsBalanced, HasRoom, more, reserve-IsBalanced, touch_or_register-IsBalanced, claimed,
}
use ruscker.Spec.{Spec, SpecKind, kind, is_api, shiny, interactive_app, api, external}
use ruscker.Routing.{Proxy, pick_or_spawn, Admission, admitted, must_spawn, failed_spawn}
use ruscker.Routing.Admit.{
  Admits, pick_or_spawn-Admits, seated_in, overloaded, grown, refused, sized,
}
use ruscker.Routing.Gates.{StickySession}
use ruscker.Routing.Resolve.{
  Tracked, Resolved, touch_resolved, track_outcome, visit, spec_kind_needs_sticky, resolve_replica,
  resolve_and_track,
}
use ruscker.Routing.Sticky.{Resolves, kept, forwarded, opened, resolve_replica-Resolves, pinned_lem}

-- No counter comes within two of the largest u32.
abbrev pub IsCalm : ReplicaRegistry → Type 0
IsCalm reg = (i : ℕ) (r : Replica) → find_mut reg i ≡ some r → r.sessions_active + 1 < u32_max

-- A replica that the backend returns is new to the registry, the tracker and the pending seats.
pub record IsUnknown (reg : ReplicaRegistry) (st : Store) (pending : ℕ → ℕ) (r : Replica)
    : Type 0 where
  pub unseen : find_mut reg r.id ≡ none
  pub unbound : bound r.id st + pending r.id ≡ 0
  pub unused : r.sessions_active ≡ 0

inc_sessions-HasRoom : (reg : ReplicaRegistry) (i : ℕ) → IsCalm reg → HasRoom (inc_sessions reg i) i
inc_sessions-HasRoom reg i c r h = elim (Option-cases (find_mut reg i)) [
  | inl gone ↦ absurd (ground (arith, find_mut-inc_sessions i i reg))
  | inr (q, found) ↦ ground (arith, c i q found, find_mut-inc_sessions i i reg)
]

add-IsCalm :
    (reg : ReplicaRegistry) (r : Replica)
    → find_mut reg r.id ≡ none
    → r.sessions_active ≡ 0
    → IsCalm reg
    → IsCalm (add reg r)
add-IsCalm reg r n z c i q h = ground (arith, find_mut-add i r reg n, c i q)

add-IsBalanced :
    (reg : ReplicaRegistry) (st : Store) (pending : ℕ → ℕ) (r : Replica)
    → find_mut reg r.id ≡ none
    → bound r.id st + pending r.id ≡ 0
    → r.sessions_active ≡ 0
    → IsBalanced reg st pending
    → IsBalanced (add reg r) st pending
add-IsBalanced reg st pending r n k z b i q h = ground (arith, find_mut-add i r reg n, b i q)

-- An admission leaves a reserved seat of the admitted replica pending, and nothing else.
abbrev Reserved : Store → (ℕ → ℕ) → Proxy × Admission → Type 0
Reserved st pending (p, admitted r reserved) =
    (reserved ≡ true) × IsBalanced p.registry st (more r.id pending) × HasRoom p.registry r.id
Reserved st pending (p, must_spawn) = IsBalanced p.registry st pending
Reserved st pending (p, failed_spawn) = IsBalanced p.registry st pending

Reserved-admitted :
    (st : Store) (pending : ℕ → ℕ) (q : Proxy × Admission) (reg : ReplicaRegistry) (r : Replica)
    → IsCalm reg
    → IsBalanced reg st pending
    → q.0.registry ≡ inc_sessions reg r.id
    → q.1 ≡ admitted r true
    → Reserved st pending q
Reserved-admitted st pending (p, a) reg r c b g e = rw e (
  refl,
  rw g (reserve-IsBalanced reg st pending r.id (λ x h. omega (arith, c r.id x h)) b),
  rw g (inc_sessions-HasRoom reg r.id c),
)

Admits-Reserved :
    (spec : Spec) (spawned : Option Replica) (p : Proxy) (st : Store) (pending : ℕ → ℕ)
    (q : Proxy × Admission)
    → ((fresh : Replica) → spawned ≡ some fresh → IsUnknown p.registry st pending fresh)
    → IsCalm p.registry
    → IsBalanced p.registry st pending
    → Admits spec spawned p q
    → Reserved st pending q
Admits-Reserved spec spawned p st pending q f c b (seated_in r m a g e) =
    Reserved-admitted st pending q p.registry r c b g e
Admits-Reserved spec spawned p st pending q f c b (overloaded r m s n full g e) =
    Reserved-admitted st pending q p.registry r c b g e
Admits-Reserved spec spawned p st pending q f c b (grown fresh o n may g e) =
    let k = f fresh o in
    Reserved-admitted st pending q (add p.registry (sized spec fresh)) (sized spec fresh)
      (add-IsCalm p.registry (sized spec fresh) k.unseen k.unused c)
      (add-IsBalanced p.registry st pending (sized spec fresh) k.unseen k.unbound k.unused b) g e
Admits-Reserved spec spawned p st pending (q, a) f c b (refused o n may g e) = rw e (rw g b)

-- The balance after the tracking step.
abbrev Settled : (ℕ → ℕ) → Tracked → Type 0
Settled pending t = IsBalanced t.proxy.registry t.store pending

touch_resolved-Settled :
    (spec : Spec) (now : ℕ) (st : Store) (pending : ℕ → ℕ) (p : Proxy) (res : Resolved)
    → spec_kind_needs_sticky (kind spec) ≡ true
    → res.track ≡ true
    → HasRoom p.registry res.replica.id
    → IsBalanced p.registry st (claimed st res.session_id res.replica.id res.seat_reserved pending)
    → Settled pending (touch_resolved spec now st p res)
touch_resolved-Settled spec now st pending p res k t room b =
    rw (t, touch_resolved)
      (rw (k, touch_resolved)
        (touch_or_register-IsBalanced p.registry st pending now res.session_id spec.id
          res.replica.id res.seat_reserved room b))

claimed_unreserved :
    (st : Store) (sid rid : ℕ) (pending : ℕ → ℕ) → claimed st sid rid false pending ≡ pending
claimed_unreserved st sid rid pending = ground arith

opened-Settled :
    (spec : Spec) (now fresh_id : ℕ) (st : Store) (pending : ℕ → ℕ) (q : Proxy × Admission)
    → spec_kind_needs_sticky (kind spec) ≡ true
    → Assoc.lookup fresh_id st ≡ none
    → Reserved st pending q
    → Settled pending (track_outcome spec now st (visit fresh_id q))
opened-Settled spec now fresh_id st pending (p, admitted r true) k n h =
    touch_resolved-Settled spec now st pending p _ k refl h.2 (rw (n, claimed) h.1)
opened-Settled spec now fresh_id st pending (p, admitted r false) k n h =
    absurd (ground (arith, h.0))
opened-Settled spec now fresh_id st pending (p, must_spawn) k n h = h
opened-Settled spec now fresh_id st pending (p, failed_spawn) k n h = h

seats_of_sticky :
    (spec : Spec) → spec_kind_needs_sticky (kind spec) ≡ true → is_api (kind spec) ≡ false
seats_of_sticky spec k = go (kind spec) k
  where
    go : (k : SpecKind) → spec_kind_needs_sticky k ≡ true → is_api k ≡ false
    go shiny h = refl
    go interactive_app h = refl
    go api h = absurd (ground arith)
    go external h = absurd (ground arith)

module _ (inflight : ℕ → ℕ) (spec : Spec) (cookie : Option StickySession) (is_visit : Bool)
    (fresh_id : ℕ) (spawned : Option Replica) (now : ℕ) (st : Store) (pending : ℕ → ℕ) (p : Proxy)
    (k : spec_kind_needs_sticky (kind spec) ≡ true) (n : Assoc.lookup fresh_id st ≡ none)
    (f : (fresh : Replica) → spawned ≡ some fresh → IsUnknown p.registry st pending fresh)
    (c : IsCalm p.registry) (b : IsBalanced p.registry st pending) where
  Resolves-Settled :
      (q : Proxy × Option Resolved)
      → Resolves inflight spec cookie is_visit fresh_id spawned p q
      → Settled pending (track_outcome spec now st q)
  Resolves-Settled (q, o) (kept res e s t) =
      let pin = pinned_lem spec p cookie res e in
      rw t (
        rw s (
          touch_resolved-Settled spec now st pending p res k pin.tracked
            (λ x h. omega (arith, c res.replica.id x h))
            (rw pin.counted (rw (claimed_unreserved st res.session_id res.replica.id pending) b))))
  Resolves-Settled (q, o) (forwarded r e v m s g t) = rw t (rw g b)
  Resolves-Settled q (opened e v t) = rw t (
      opened-Settled spec now fresh_id st pending (pick_or_spawn inflight spec spawned p) k n (
        Admits-Reserved spec spawned p st pending (pick_or_spawn inflight spec spawned p) f c b
          (pick_or_spawn-Admits inflight spec spawned p (seats_of_sticky spec k))))

  -- One request of a seat-based app keeps the seat accounting: after the replica is chosen, a seat
  -- perhaps reserved, a replica perhaps spawned and the session recorded, the counter of every
  -- replica is again the number of its tracked sessions and of the seats that other requests hold.
  -- It holds for any cookie, visit or not, if the minted session id is new, the spawned replica is
  -- unknown so far and no counter is about to saturate.
  pub resolve_and_track-IsBalanced :
      let t = resolve_and_track inflight spec cookie is_visit fresh_id spawned now st p in
      IsBalanced t.proxy.registry t.store pending
  unfolding resolve_and_track
  resolve_and_track-IsBalanced =
      Resolves-Settled (resolve_replica inflight spec cookie is_visit fresh_id spawned p)
        (resolve_replica-Resolves inflight spec cookie is_visit fresh_id spawned p)
