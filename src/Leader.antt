-- ===== src/Leader.antt =====
-- The election of the instance that scales (crates/ruscker-admin/src/leader.rs). The answers of the
-- database to one tick's round trips are an argument: `none` is an error or a timeout.
pub mod Confirmed
use ruscker.Prelude.{
  ℕ, Bool, true, false, Option, none, some, List, [], ◌∷◌, if◌then◌else◌, string_key, nat_key,
  pair_key, list_key,
}

pub record LockState : Type 0 where
  pub conn : Option ℕ
  pub holds : Bool

pub record Answers : Type 0 where
  -- A new connection, the liveness of the present one, and `pg_try_advisory_lock`.
  pub connects : Option ℕ
  pub pings : Bool
  pub locks : Option Bool

abbrev pub disconnected : LockState
disconnected = record { conn = none; holds = false }

abbrev pub check_held : Answers → LockState → LockState × Bool
check_held a st = if a.pings then (st, true) else (disconnected, false)

abbrev pub try_lock : Answers → LockState → LockState × Bool
try_lock a st = elim a.locks [
  | none ↦ (record st { conn = none }, false)
  | some got ↦ (record st { holds = got }, got)
]

abbrev pub with_connection : Answers → LockState → LockState × Bool
with_connection a st = if st.holds then check_held a st else try_lock a st

unfoldable pub is_leader : Answers → LockState → LockState × Bool
is_leader a st = elim st.conn [
  | some c ↦ with_connection a st
  | none ↦ elim a.connects [
    | none ↦ (st, false)
    | some c ↦ with_connection a (record { conn = some c; holds = false })
  ]
]

-- The ticks of one instance, with its answer to each.
pub ticks : List Answers → LockState → LockState × List Bool
ticks [] st = (st, [])
ticks (a ∷ as_) st =
    let step = is_leader a st in let rest = ticks as_ step.0 in (rest.0, step.1 ∷ rest.1)
