-- ===== src/Sessions/Seats.antt =====
-- Seat accounting: the registry's counters against the tracked sessions and the seats that a
-- request has reserved but not registered yet.
use ruscker.Prelude.{
  ℕ, ◌+◌, ◌<◌, String, ◌≡◌, inl, inr, Bool, true, false, none, some, arith, if◌then◌else◌,
  Option-cases, is_some, ◌==◌, nat_key, string_key,
}
use ruscker.Prelude.Assoc
use ruscker.Replica.{Replica, u32_max}
use ruscker.Registry.{ReplicaRegistry, find_mut, inc_sessions, dec_sessions}
use ruscker.Registry.Find.{find_mut-inc_sessions, find_mut-dec_sessions}
use ruscker.Sessions.{Store, end_session, bound, SessionEntry, points_at, touch_or_register}

-- Every replica's counter is the number of its sessions and of its reserved seats.
abbrev pub IsBalanced : ReplicaRegistry → Store → (ℕ → ℕ) → Type 0
IsBalanced reg st pending =
    (i : ℕ) (r : Replica) → find_mut reg i ≡ some r → r.sessions_active ≡ bound i st + pending i

-- No counter is about to saturate.
abbrev pub HasRoom : ReplicaRegistry → ℕ → Type 0
HasRoom reg i = (r : Replica) → find_mut reg i ≡ some r → r.sessions_active < u32_max

abbrev pub more : ℕ → (ℕ → ℕ) → ℕ → ℕ
more rid pending i = (if rid == i then 1 else 0) + pending i

-- One session leaves the store and its replica's counter goes down by one.
pub release-IsBalanced :
    (reg : ReplicaRegistry) (st : Store) (pending : ℕ → ℕ) (sid : ℕ) (x : SessionEntry)
    → Assoc.IsMap st
    → Assoc.lookup sid st ≡ some x
    → IsBalanced reg st pending
    → IsBalanced (dec_sessions reg x.replica_id) (Assoc.remove sid st) pending
release-IsBalanced reg st pending sid x m e b i r h = elim (Option-cases (find_mut reg i)) [
  | inl gone ↦ absurd (ground (arith, find_mut-dec_sessions i x.replica_id reg))
  | inr (q, found) ↦ ground (
    arith,
    b i q found,
    find_mut-dec_sessions i x.replica_id reg,
    Assoc.count-remove (points_at i) sid x st m e,
  )
]

-- Ending a session keeps the seat accounting: it frees exactly the seat that the session held. The
-- tracker has a session id at most once.
pub end_session-IsBalanced :
    (reg : ReplicaRegistry) (st : Store) (pending : ℕ → ℕ) (sid : ℕ)
    → Assoc.IsMap st
    → IsBalanced reg st pending
    → IsBalanced (end_session st reg sid).registry (end_session st reg sid).store pending
unfolding end_session
end_session-IsBalanced reg st pending sid m b = elim (Option-cases (Assoc.lookup sid st)) [
  | inl e ↦ rw (e, end_session) b
  | inr (x, e) ↦ rw (e, end_session) (release-IsBalanced reg st pending sid x m e b)
]

pub reserve-IsBalanced :
    (reg : ReplicaRegistry) (st : Store) (pending : ℕ → ℕ) (rid : ℕ)
    → HasRoom reg rid
    → IsBalanced reg st pending
    → IsBalanced (inc_sessions reg rid) st (more rid pending)
reserve-IsBalanced reg st pending rid room b i r h = elim (Option-cases (find_mut reg i)) [
  | inl gone ↦ absurd (ground (arith, find_mut-inc_sessions i rid reg))
  | inr (q, found) ↦ ground (arith, b i q found, room q, find_mut-inc_sessions i rid reg)
]

refresh-IsBalanced :
    (reg : ReplicaRegistry) (st : Store) (pending : ℕ → ℕ) (now sid : ℕ) (x : SessionEntry)
    → Assoc.lookup sid st ≡ some x
    → IsBalanced reg st pending
    → IsBalanced reg (Assoc.insert sid (record x { last_seen = now }) st) pending
refresh-IsBalanced reg st pending now sid x e b i r h =
    omega (
      arith,
      b i r h,
      Assoc.count-insert_old (points_at i) sid (record x { last_seen = now }) x st e,
    )

register-IsBalanced :
    (reg : ReplicaRegistry) (st : Store) (pending : ℕ → ℕ) (sid : ℕ) (x : SessionEntry)
    → Assoc.lookup sid st ≡ none
    → IsBalanced reg st (more x.replica_id pending)
    → IsBalanced reg (Assoc.insert sid x st) pending
register-IsBalanced reg st pending sid x e b i r h =
    ground (arith, b i r h, Assoc.count-insert_new (points_at i) sid x st e)

-- The seats that wait for their session before `touch_or_register` is called with these arguments.
abbrev pub claimed : Store → ℕ → ℕ → Bool → (ℕ → ℕ) → ℕ → ℕ
claimed st sid rid seat_reserved pending =
    if is_some (Assoc.lookup sid st)
    then pending
    else if seat_reserved
    then more rid pending
    else pending

-- A touch or a registration keeps the seat accounting: a seat that was reserved at pick time is
-- counted once, and a session that was seen before keeps its seat. The counter of the replica is
-- not about to saturate.
pub touch_or_register-IsBalanced :
    (reg : ReplicaRegistry) (st : Store) (pending : ℕ → ℕ) (now sid : ℕ) (spec_id : String)
    (rid : ℕ) (seat_reserved : Bool)
    → HasRoom reg rid
    → IsBalanced reg st (claimed st sid rid seat_reserved pending)
    → let t = touch_or_register st reg now sid spec_id rid seat_reserved in
      IsBalanced t.registry t.store pending
unfolding touch_or_register
touch_or_register-IsBalanced reg st pending now sid spec_id rid reserved room b =
    elim (Option-cases (Assoc.lookup sid st)) [
      | inr (x, e) ↦
          rw (e, touch_or_register)
            (refresh-IsBalanced reg st pending now sid x e (rw (e, claimed) at b))
      | inl e ↦ rw (e, touch_or_register) (fresh reserved e (rw (e, claimed) at b))
    ]
  where
    entry : SessionEntry
    entry = record { spec_id = spec_id; replica_id = rid; last_seen = now }

    fresh :
        (reserved : Bool)
        → Assoc.lookup sid st ≡ none
        → IsBalanced reg st (if reserved then more rid pending else pending)
        → IsBalanced
            (if reserved then reg else inc_sessions reg rid)
            (Assoc.insert sid entry st)
            pending
    fresh true e b = register-IsBalanced reg st pending sid entry e b
    fresh false e b =
        register-IsBalanced (inc_sessions reg rid) st pending sid entry e
          (reserve-IsBalanced reg st pending rid room b)
