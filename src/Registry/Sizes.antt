-- ===== src/Registry/Sizes.antt =====
-- How far one operation moves the size of a pool.
use ruscker.Prelude.{
  ℕ, ◌+◌, ◌≤◌, String, inl, inr, [], ◌∷◌, arith, Option-cases, length, length-append, nat_key,
  string_key, pair_key,
}
use ruscker.Replica.{Replica}
use ruscker.Registry.{
  ReplicaRegistry, Pools, replicas_of, add, remove, remove_pools, pool_of, find_in,
}
use ruscker.Registry.Lookup.{replicas_of-add, length-drop_from}

pub length-add_le :
    (reg : ReplicaRegistry) (r : Replica) (s : String)
    → length (replicas_of (add reg r) s) ≤ length (replicas_of reg s) + 1
length-add_le reg r s =
    ground (arith, replicas_of-add reg r s, length-append (replicas_of reg s) (r ∷ []))

length-remove_pools :
    (i : ℕ) (s : String) (ps : Pools)
    → (length (pool_of s (remove_pools i ps)) ≤ length (pool_of s ps))
      × (length (pool_of s ps) ≤ length (pool_of s (remove_pools i ps)) + 1)
length-remove_pools i s [] = (omega arith, omega arith)
length-remove_pools i s ((k, rs) ∷ ps) = elim (Option-cases (find_in i rs)) [
  | inl e ↦
      rw (e, remove_pools)
        (ground (arith, length-remove_pools i s ps), ground (arith, length-remove_pools i s ps))
  | inr (r, e) ↦
      rw (e, remove_pools)
        (ground (arith, length-drop_from i rs), ground (arith, length-drop_from i rs))
]

-- A removal takes at most one replica from a pool.
pub length-remove :
    (reg : ReplicaRegistry) (i : ℕ) (s : String)
    → (length (replicas_of (remove reg i).0 s) ≤ length (replicas_of reg s))
      × (length (replicas_of reg s) ≤ length (replicas_of (remove reg i).0 s) + 1)
unfolding replicas_of remove
length-remove reg i s = length-remove_pools i s reg.by_spec

pub length-add_ge :
    (reg : ReplicaRegistry) (r : Replica) (s : String)
    → length (replicas_of reg s) ≤ length (replicas_of (add reg r) s)
length-add_ge reg r s =
    ground (arith, replicas_of-add reg r s, length-append (replicas_of reg s) (r ∷ []))
