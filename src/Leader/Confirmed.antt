-- ===== src/Leader/Confirmed.antt =====
-- An instance leads a tick only on the database's word in that tick.
use ruscker.Prelude.{
  ◌≡◌, Bool, true, false, ◌&&◌, ◌||◌, arith, if◌then◌else◌, is_some, unwrap_or, string_key, nat_key,
  pair_key, list_key,
}
use ruscker.Leader.{LockState, Answers, is_leader}

-- The lock is held on a connection.
abbrev pub IsSound : LockState → Type 0
IsSound st = st.holds ≡ true → is_some st.conn ≡ true

-- In this tick the database granted the lock, or it answered on the connection that holds it.
abbrev pub is_confirmed : Answers → LockState → Bool
is_confirmed a st =
    if st.holds then a.pings else (is_some st.conn || is_some a.connects) && unwrap_or a.locks false

-- An instance leads a tick exactly when the database granted the lock in that tick or answered a
-- ping on the connection that holds it; afterwards it holds the lock exactly then, and only on a
-- connection. Before the tick it holds the lock only on a connection.
pub is_leader-is_confirmed :
    (a : Answers) (st : LockState)
    → IsSound st
    → ((is_leader a st).1 ≡ is_confirmed a st)
      × ((is_leader a st).0.holds ≡ is_confirmed a st)
      × IsSound (is_leader a st).0
unfolding is_leader
is_leader-is_confirmed a st h = ground arith
