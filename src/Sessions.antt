-- ===== src/Sessions.antt =====
-- The single-node session tracker (crates/ruscker-admin/src/sessions.rs, `InMemorySessionStore`).
-- A method that awaits the registry lock takes the registry and returns the new one. Instants are
-- nanoseconds; `duration_since` is 0 for a later instant, as `-` on ℕ is.
pub mod Seats
pub mod Laws
pub mod Sweep
use ruscker.Prelude.{
  ℕ, ◌+◌, ◌-◌, ◌*◌, String, Bool, true, false, not, none, some, List, [], ◌∷◌, ltb, if◌then◌else◌,
  unwrap_or, ◌==◌, nat_key, string_key, ℤ, pos, negsuc,
}
use ruscker.Registry.{ReplicaRegistry, inc_sessions, dec_sessions}
use ruscker.Prelude.Assoc

pub record SessionEntry : Type 0 where
  pub spec_id : String
  pub replica_id : ℕ
  pub last_seen : ℕ

-- `sessions: DashMap<Uuid, SessionEntry>`.
abbrev pub Store : Type 0
Store = List (ℕ × SessionEntry)

pub data TouchOutcome : Type 0 where
  registered touched : TouchOutcome

pub record Touch : Type 0 where
  pub registry : ReplicaRegistry
  pub store : Store
  pub outcome : TouchOutcome

unfoldable pub touch_or_register : Store → ReplicaRegistry → ℕ → ℕ → String → ℕ → Bool → Touch
touch_or_register st reg now sid spec_id replica_id seat_reserved = elim (Assoc.lookup sid st) [
  | some entry ↦ record {
    registry = reg;
    store = Assoc.insert sid (record entry { last_seen = now }) st;
    outcome = touched;
  }
  | none ↦ record {
    registry = if seat_reserved then reg else inc_sessions reg replica_id;
    store =
        Assoc.insert sid (record { spec_id = spec_id; replica_id = replica_id; last_seen = now })
          st;
    outcome = registered;
  }
]

abbrev pub nanos_per_milli : ℕ
nanos_per_milli = 1000000

-- A negative timeout never expires.
abbrev pub expired : ℤ → ℕ → SessionEntry → Bool
expired (pos ms) now entry = ltb (ms * nanos_per_milli) (now - entry.last_seen)
expired (negsuc n) now entry = false

abbrev pub timeout_of : ℤ → List (String × ℤ) → SessionEntry → ℤ
timeout_of global_ms overrides entry = unwrap_or (Assoc.lookup entry.spec_id overrides) global_ms

abbrev pub victims : (SessionEntry → Bool) → Store → List (ℕ × ℕ)
victims old [] = []
victims old ((sid, entry) ∷ st) =
    let rest = victims old st in if old entry then (sid, entry.replica_id) ∷ rest else rest

pub record Evicted : Type 0 where
  pub registry : ReplicaRegistry
  pub store : Store
  pub count : ℕ

-- The loop over the victims, on the store as it is by then: only a session that this loop removes
-- gives its seat back.
unfoldable pub evict : List (ℕ × ℕ) → Store → ReplicaRegistry → Evicted
evict [] st reg = record { registry = reg; store = st; count = 0 }
evict ((sid, rid) ∷ vs) st reg =
    let gone = evict vs (Assoc.remove sid st) (dec_sessions reg rid) in
    let kept = evict vs st reg in
    elim (Assoc.lookup sid st) [ none ↦ kept | some _ ↦ record gone { count = gone.count + 1 } ]

unfoldable pub sweep : Store → ReplicaRegistry → ℕ → ℤ → List (String × ℤ) → Evicted
unfolding evict
sweep st reg now global_ms overrides =
    evict (victims (λ entry. expired (timeout_of global_ms overrides entry) now entry) st) st reg

abbrev pub points_at : ℕ → SessionEntry → Bool
points_at rid entry = entry.replica_id == rid

unfoldable pub drop_replica : Store → ℕ → Store × ℕ
drop_replica st rid =
    (Assoc.retain (λ _ entry. not (points_at rid entry)) st, Assoc.count (points_at rid) st)

pub record Ended : Type 0 where
  pub registry : ReplicaRegistry
  pub store : Store
  pub removed : Bool

unfoldable pub end_session : Store → ReplicaRegistry → ℕ → Ended
end_session st reg sid = elim (Assoc.lookup sid st) [
  | some entry ↦ record {
    registry = dec_sessions reg entry.replica_id;
    store = Assoc.remove sid st;
    removed = true;
  }
  | none ↦ record { registry = reg; store = st; removed = false }
]

-- Sessions bound to a replica.
abbrev pub bound : ℕ → Store → ℕ
bound rid st = Assoc.count (points_at rid) st
