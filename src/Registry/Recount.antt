-- ===== src/Registry/Recount.antt =====
-- The recount of the sessions of every replica, from the shared session table.
use ruscker.Prelude.{
  ℕ, String, ◌≡◌, refl, List, [], ◌∷◌, map, arith, length, any, string_key, nat_key, pair_key, ◌==◌,
  list_key,
}
use ruscker.Replica.{Replica}
use ruscker.Registry.{
  ReplicaRegistry, Pools, set_session_counts, recount, recount_pools, replicas_of, pool_of, all,
  all_pools,
}
use ruscker.Registry.Counting.{occurrences, occurrences-append}

occurrences-recount :
    (counts : List (ℕ × ℕ)) (i : ℕ) (rs : List Replica)
    → occurrences i (map (recount counts) rs) ≡ occurrences i rs
unfolding occurrences
occurrences-recount counts i [] = refl
occurrences-recount counts i (r ∷ rs) = ground (arith, occurrences-recount counts i rs)

occurrences-recount_pools :
    (counts : List (ℕ × ℕ)) (i : ℕ) (ps : Pools)
    → occurrences i (all_pools (recount_pools counts ps)) ≡ occurrences i (all_pools ps)
occurrences-recount_pools counts i [] = refl
occurrences-recount_pools counts i ((s, rs) ∷ ps) = omega (
  arith,
  occurrences-append i rs (all_pools ps),
  occurrences-append i (map (recount counts) rs) (all_pools (recount_pools counts ps)),
  occurrences-recount counts i rs,
  occurrences-recount_pools counts i ps,
)

pub occurrences-set_session_counts :
    (counts : List (ℕ × ℕ)) (i : ℕ) (reg : ReplicaRegistry)
    → occurrences i (all (set_session_counts reg counts)) ≡ occurrences i (all reg)
unfolding all set_session_counts
occurrences-set_session_counts counts i reg = occurrences-recount_pools counts i reg.by_spec

pool_of-recount_pools :
    (counts : List (ℕ × ℕ)) (s : String) (ps : Pools)
    → pool_of s (recount_pools counts ps) ≡ map (recount counts) (pool_of s ps)
pool_of-recount_pools counts s [] = refl
pool_of-recount_pools counts s ((k, rs) ∷ ps) = ground (arith, pool_of-recount_pools counts s ps)

-- A pool keeps its length and its ids.
pub replicas_of-set_session_counts :
    (counts : List (ℕ × ℕ)) (s : String) (reg : ReplicaRegistry)
    → replicas_of (set_session_counts reg counts) s ≡ map (recount counts) (replicas_of reg s)
unfolding replicas_of set_session_counts
replicas_of-set_session_counts counts s reg = pool_of-recount_pools counts s reg.by_spec

pub recount_lem :
    (counts : List (ℕ × ℕ)) (i : ℕ) (rs : List Replica)
    → (length (map (recount counts) rs) ≡ length rs)
      × (any (λ r. r.id == i) (map (recount counts) rs) ≡ any (λ r. r.id == i) rs)
recount_lem counts i [] = (refl, refl)
recount_lem counts i (r ∷ rs) = ground (arith, recount_lem counts i rs)
