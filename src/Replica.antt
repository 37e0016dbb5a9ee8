-- ===== src/Replica.antt =====
-- A running container instance (crates/ruscker-core/src/replica.rs) and the machine integers it
-- counts with. Instants are native numbers of nanoseconds since an epoch, a UUID is a number, and
-- an address is the text that names it.
use ruscker.Prelude.{ℕ, ◌+◌, ◌-◌, String, Bool, true, false, ◌&&◌, Option, ltb, if◌then◌else◌}

pub data ReplicaState : Type 0 where
  starting ready draining stopped failed : ReplicaState

pub record Replica : Type 0 where
  pub id : ℕ
  pub spec_id : String
  pub container_id : String
  pub upstream : String
  pub state : ReplicaState
  pub started_at : ℕ
  pub sessions_active : ℕ
  pub sessions_max : ℕ
  pub host : Option String

-- `u32::MAX`, and `saturating_add(1)` on a u32.
abbrev pub u32_max : ℕ
u32_max = 4294967295

abbrev pub saturating_inc : ℕ → ℕ
saturating_inc n = if ltb n u32_max then n + 1 else u32_max

abbrev pub is_ready : ReplicaState → Bool
is_ready ready = true
is_ready _ = false

abbrev pub is_starting : ReplicaState → Bool
is_starting starting = true
is_starting _ = false

abbrev pub is_stopped : ReplicaState → Bool
is_stopped stopped = true
is_stopped _ = false

-- `-` on ℕ stops at 0, as `saturating_sub` does.
abbrev pub available_seats : Replica → ℕ
available_seats r = r.sessions_max - r.sessions_active

abbrev pub is_accepting : Replica → Bool
is_accepting r = is_ready r.state && ltb 0 (available_seats r)
