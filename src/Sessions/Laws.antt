-- ===== src/Sessions/Laws.antt =====
-- What the tracker promises of one operation.
use ruscker.Prelude.{ℕ, ◌≡◌, [], ◌∷◌, arith, if◌then◌else◌, ◌==◌, nat_key, string_key}
use ruscker.Sessions.{Store, drop_replica, bound}

-- Dropping a replica takes its sessions and no others.
pub drop_replica-bound :
    (st : Store) (rid i : ℕ)
    → bound i (drop_replica st rid).0 ≡ (if rid == i then 0 else bound i st)
unfolding drop_replica
drop_replica-bound [] rid i = ground arith
drop_replica-bound ((s, e) ∷ st) rid i = ground (arith, drop_replica-bound st rid i)
