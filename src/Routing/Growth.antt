-- ===== src/Routing/Growth.antt =====
-- What an admission does to the limits of a spec: seats per replica, and replicas.
use ruscker.Prelude.{
  ℕ, ◌+◌, ◌≤◌, ◌<◌, String, ◌≡◌, ap, ◌∙◌, ◌⊎◌, inl, inr, Bool, true, false, Option, none, some,
  List, [], ◌∷◌, Memᴰ, arith, eq_iff, ltb, eq_of_some, length, any, find, length-append, nat_key,
  string_key, pair_key, any_complete,
}
use ruscker.Replica.{Replica, available_seats}
use ruscker.Registry.{ReplicaRegistry, replicas_of, add, inc_sessions, all, seated}
use ruscker.Registry.Counting.{IsUnique, occurrences, add-IsUnique}
use ruscker.Registry.Lookup.{replicas_of-add, replicas_of-modify, length-modify_in}
use ruscker.Spec.{Spec}
use ruscker.Routing.{
  Proxy, pick_or_spawn, Admission, is_api, effective_seats, kind, effective_max_replicas, serves,
  admitted, is_coming,
}
use ruscker.Routing.Admit.{
  Admits, pool, MaySpawn, pick_or_spawn-Admits, seated_in, overloaded, grown, sized, refused,
}

-- A backend's new replica: under an id of its own, for this spec, with no session.
pub record IsFresh (spec : Spec) (reg : ReplicaRegistry) (r : Replica) : Type 0 where
  pub unseen : occurrences r.id (all reg) ≡ 0
  pub own : r.spec_id ≡ spec.id
  pub unused : r.sessions_active ≡ 0

pub length-inc_sessions :
    (reg : ReplicaRegistry) (i : ℕ) (s : String)
    → IsUnique reg
    → length (replicas_of (inc_sessions reg i) s) ≡ length (replicas_of reg s)
unfolding inc_sessions
length-inc_sessions reg i s u =
    ap length (replicas_of-modify reg i seated s (u i))
    ∙ length-modify_in i seated (replicas_of reg s)

pub length-add :
    (spec : Spec) (reg : ReplicaRegistry) (r : Replica)
    → r.spec_id ≡ spec.id
    → length (replicas_of (add reg r) spec.id) ≡ length (replicas_of reg spec.id) + 1
length-add spec reg r e = ground (
  arith,
  eq_iff r.spec_id spec.id,
  replicas_of-add reg r spec.id,
  length-append (replicas_of reg spec.id) (r ∷ []),
)

seats_below-cases :
    (spec : Spec) (spawned : Option Replica) (p : Proxy) (q : Proxy × Admission) (r : Replica)
    (reserved : Bool)
    → ((fresh : Replica) → spawned ≡ some fresh → IsFresh spec p.registry fresh)
    → 0 < effective_seats spec
    → length (pool spec p) < effective_max_replicas spec
    → Admits spec spawned p q
    → q.1 ≡ admitted r reserved
    → ltb 0 (available_seats r) ≡ true
seats_below-cases spec spawned p q r reserved f s below (seated_in x m a g e) h = ground arith
seats_below-cases spec spawned p q r reserved f s below (overloaded x m a n full g e) h =
    absurd (omega arith)
seats_below-cases spec spawned p q r reserved f s below (grown x o n may g e) h =
    ground (arith, (f x o).unused)
seats_below-cases spec spawned p q r reserved f s below (refused o n may g e) h =
    absurd (ground arith)

-- Below the replica cap a seat-based spec is never oversubscribed: the replica that a new session
-- gets has a free seat at that moment, if the spec gives its replicas a seat and a spawned replica
-- is new.
pub pick_or_spawn-has_seat :
    (inflight : ℕ → ℕ) (spec : Spec) (spawned : Option Replica) (p : Proxy) (r : Replica)
    (reserved : Bool)
    → is_api (kind spec) ≡ false
    → ((fresh : Replica) → spawned ≡ some fresh → IsFresh spec p.registry fresh)
    → 0 < effective_seats spec
    → length (pool spec p) < effective_max_replicas spec
    → (pick_or_spawn inflight spec spawned p).1 ≡ admitted r reserved
    → ltb 0 (available_seats r) ≡ true
pick_or_spawn-has_seat inflight spec spawned p r reserved seats f s below h =
    seats_below-cases spec spawned p (pick_or_spawn inflight spec spawned p) r reserved f s below
      (pick_or_spawn-Admits inflight spec spawned p seats) h

size-cases :
    (spec : Spec) (spawned : Option Replica) (p : Proxy) (q : Proxy × Admission)
    → IsUnique p.registry
    → ((fresh : Replica) → spawned ≡ some fresh → IsFresh spec p.registry fresh)
    → Admits spec spawned p q
    → (length (pool spec q.0) ≡ length (pool spec p))
      ⊎ ((length (pool spec q.0) ≡ length (pool spec p) + 1) × MaySpawn spec (pool spec p))
size-cases spec spawned p q u f (seated_in x m a g e) =
    inl (rw g (length-inc_sessions p.registry x.id spec.id u))
size-cases spec spawned p q u f (overloaded x m a n full g e) =
    inl (rw g (length-inc_sessions p.registry x.id spec.id u))
size-cases spec spawned p q u f (grown x o n may g e) =
    let fresh = f x o in
    inr (
      rw g (
          length-inc_sessions (add p.registry (sized spec x)) x.id spec.id
            (add-IsUnique p.registry (sized spec x) u fresh.unseen)
          ∙ length-add spec p.registry (sized spec x) fresh.own),
      may,
    )
size-cases spec spawned p q u f (refused o n may g e) = inl (rw g)

-- The pool of a seat-based spec that is within its cap stays within it while some replica of it is
-- ready. Replica ids are distinct and a spawned replica is new.
pub pick_or_spawn-le-max :
    (inflight : ℕ → ℕ) (spec : Spec) (spawned : Option Replica) (p : Proxy)
    → is_api (kind spec) ≡ false
    → IsUnique p.registry
    → ((fresh : Replica) → spawned ≡ some fresh → IsFresh spec p.registry fresh)
    → any serves (pool spec p) ≡ true
    → length (pool spec p) ≤ effective_max_replicas spec
    → length (pool spec (pick_or_spawn inflight spec spawned p).0) ≤ effective_max_replicas spec
pick_or_spawn-le-max inflight spec spawned p seats u f s at_most = ground (
  arith,
  size-cases spec spawned p (pick_or_spawn inflight spec spawned p) u f
      (pick_or_spawn-Admits inflight spec spawned p seats),
)

none_coming-mem :
    (f : Replica → Bool) (rs : List Replica) (r : Replica)
    → find f rs ≡ none
    → Memᴰ r rs
    → f r ≡ false
none_coming-mem f [] r h m = elim m [ ]
none_coming-mem f (q ∷ rs) r h (Memᴰ.head e) = rw e (ground arith)
none_coming-mem f (q ∷ rs) r h (Memᴰ.tail m) = none_coming-mem f rs r (ground arith) m

over_cap-cases :
    (spec : Spec) (fresh : Replica) (p : Proxy) (q : Proxy × Admission)
    → IsUnique p.registry
    → IsFresh spec p.registry fresh
    → any serves (pool spec p) ≡ false
    → find is_coming (pool spec p) ≡ none
    → Admits spec (some fresh) p q
    → length (pool spec q.0) ≡ length (pool spec p) + 1
over_cap-cases spec fresh p q u f s c (seated_in x m a g e) = absurd (
    ground
      (arith, none_coming-mem is_coming (pool spec p) x c m, any_complete serves x (pool spec p) m))
over_cap-cases spec fresh p q u f s c (overloaded x m a n full g e) =
    absurd (ground (arith, any_complete serves x (pool spec p) m a))
over_cap-cases spec fresh p q u f s c (grown x o n may g e) =
    let same : fresh ≡ x = eq_of_some fresh x o in
    rw g (
      rw (← same) (
        length-inc_sessions (add p.registry (sized spec fresh)) fresh.id spec.id
          (add-IsUnique p.registry (sized spec fresh) u f.unseen)
        ∙ length-add spec p.registry (sized spec fresh) f.own))
over_cap-cases spec fresh p q u f s c (refused o n may g e) = absurd (ground arith)

-- When no replica of a seat-based pool is ready or coming up with a free seat, an admission whose
-- spawn succeeds adds a replica, also to a pool that is at its cap already. Replica ids are
-- distinct and the spawned replica is new.
pub pick_or_spawn-over_cap :
    (inflight : ℕ → ℕ) (spec : Spec) (fresh : Replica) (p : Proxy)
    → is_api (kind spec) ≡ false
    → IsUnique p.registry
    → IsFresh spec p.registry fresh
    → any serves (pool spec p) ≡ false
    → find is_coming (pool spec p) ≡ none
    → length (pool spec p) ≡ effective_max_replicas spec
    → length (pool spec (pick_or_spawn inflight spec (some fresh) p).0)
      ≡ effective_max_replicas spec + 1
pick_or_spawn-over_cap inflight spec fresh p seats u f s c full =
    over_cap-cases spec fresh p (pick_or_spawn inflight spec (some fresh) p) u f s c
      (pick_or_spawn-Admits inflight spec (some fresh) p seats)
    ∙ ap (λ n. n + 1) full
