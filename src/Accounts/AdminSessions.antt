-- ===== src/Accounts/AdminSessions.antt =====
-- The admin sessions of one process (crates/ruscker-admin/src/auth.rs,
-- `InMemoryAdminSessionStore`). The store is passed on; a new session's id is an argument.
pub mod Revoked
use ruscker.Prelude.{
  ℕ, ◌+◌, String, Bool, false, not, Option, none, some, List, [], ◌∷◌, ltb, if◌then◌else◌,
  string_key, nat_key, pair_key, ◌==◌, list_key,
}
use ruscker.Prelude.Assoc
use ruscker.Accounts.Roles.{Role}

pub record SessionInfo : Type 0 where
  pub role : Role
  pub actor : Option String

pub record SessionEntry : Type 0 where
  pub expiry : ℕ
  pub role : Role
  pub actor : Option String

abbrev pub Sessions : Type 0
Sessions = List (String × SessionEntry)

-- 24 hours, in nanoseconds.
abbrev pub default_ttl : ℕ
default_ttl = 86400000000000

abbrev pub create : ℕ → ℕ → String → Role → Option String → Sessions → Sessions
create ttl now id role actor st =
    Assoc.insert id (record { expiry = now + ttl; role = role; actor = actor }) st

-- A session that has expired is dropped when it is looked up.
abbrev pub validate_entry :
    ℕ → String → Option SessionEntry → Sessions → Sessions × Option SessionInfo
validate_entry now id none st = (st, none)
validate_entry now id (some e) st =
    if ltb now e.expiry
    then (st, some (record { role = e.role; actor = e.actor }))
    else (Assoc.remove id st, none)

unfoldable pub validate : ℕ → String → Sessions → Sessions × Option SessionInfo
validate now id st = validate_entry now id (Assoc.lookup id st) st

abbrev pub remove : String → Sessions → Sessions
remove id st = Assoc.remove id st

abbrev pub is_actor : String → Option String → Bool
is_actor actor none = false
is_actor actor (some a) = a == actor

unfoldable pub revoke_by_actor : String → Sessions → Sessions
revoke_by_actor actor st = Assoc.retain (λ id e. not (is_actor actor e.actor)) st

-- The operations of the store, as requests that arrive one after the other.
pub data Operation : Type 0 where
  creates : ℕ → String → Role → Option String → Operation
  validates : ℕ → String → Operation
  removes revokes : String → Operation

unfoldable pub perform : ℕ → Operation → Sessions → Sessions
perform ttl (creates now id role actor) st = create ttl now id role actor st
perform ttl (validates now id) st = (validate now id st).0
perform ttl (removes id) st = remove id st
perform ttl (revokes actor) st = revoke_by_actor actor st

unfoldable pub perform_all : ℕ → List Operation → Sessions → Sessions
perform_all ttl [] st = st
perform_all ttl (o ∷ os) st = perform_all ttl os (perform ttl o st)
