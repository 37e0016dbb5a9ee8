-- ===== src/Registry/Lookup.antt =====
-- What `replicas_of` reads after each operation.
use ruscker.Prelude.{
  ℕ, ◌-◌, ◌≤◌, ◌<◌, String, ◌≡◌, refl, inl, inr, true, List, [], ◌∷◌, ◌++◌, arith, eq_iff,
  if◌then◌else◌, Option-cases, is_some, length, any, string_key, nat_key, pair_key, ◌==◌,
}
use ruscker.Replica.{Replica}
use ruscker.Registry.{
  Pools, ReplicaRegistry, pool_of, replicas_of, push_pool, add, drop_from, all_pools, modify_in,
  remove_pools, modify_pools, find_in, modify, all, remove,
}
use ruscker.Registry.Counting.{occurrences, occurrences-append, find_in-none, find_in-occurrences}

pool_of-push_pool :
    (s : String) (r : Replica) (ps : Pools)
    → pool_of s (push_pool r ps) ≡ (if r.spec_id == s then pool_of s ps ++ r ∷ [] else pool_of s ps)
pool_of-push_pool s r [] = ground (arith, eq_iff r.spec_id s)
pool_of-push_pool s r ((k, rs) ∷ ps) =
    ground (arith, eq_iff r.spec_id s, eq_iff k r.spec_id, eq_iff k s, pool_of-push_pool s r ps)

-- A new replica joins the pool of its own spec, at the end; every other pool stays.
pub replicas_of-add :
    (reg : ReplicaRegistry) (r : Replica) (s : String)
    → replicas_of (add reg r) s
      ≡ (if r.spec_id == s then replicas_of reg s ++ r ∷ [] else replicas_of reg s)
unfolding replicas_of add
replicas_of-add reg r s = pool_of-push_pool s r reg.by_spec

drop_from_absent : (i : ℕ) (rs : List Replica) → occurrences i rs ≡ 0 → drop_from i rs ≡ rs
unfolding occurrences
drop_from_absent i [] h = refl
drop_from_absent i (r ∷ rs) h = ground (arith, drop_from_absent i rs)

modify_in_absent :
    (i : ℕ) (f : Replica → Replica) (rs : List Replica)
    → occurrences i rs ≡ 0
    → modify_in i f rs ≡ rs
unfolding occurrences
modify_in_absent i f [] h = refl
modify_in_absent i f (r ∷ rs) h = ground (arith, modify_in_absent i f rs)

pool_of_absent :
    (i : ℕ) (s : String) (ps : Pools)
    → occurrences i (all_pools ps) ≡ 0
    → occurrences i (pool_of s ps) ≡ 0
unfolding occurrences
pool_of_absent i s [] h = refl
pool_of_absent i s ((k, rs) ∷ ps) h =
    ground (arith, pool_of_absent i s ps, occurrences-append i rs (all_pools ps))

pool_of-remove_pools :
    (j : ℕ) (s : String) (ps : Pools)
    → occurrences j (all_pools ps) ≤ 1
    → pool_of s (remove_pools j ps) ≡ drop_from j (pool_of s ps)
pool_of-remove_pools j s [] h = refl
pool_of-remove_pools j s ((k, rs) ∷ ps) h = elim (Option-cases (find_in j rs)) [
  | inl e ↦
      rw (e, remove_pools)
        (ground (
          arith,
          pool_of-remove_pools j s ps,
          occurrences-append j rs (all_pools ps),
          drop_from_absent j rs,
          find_in-none j rs e,
        ))
  | inr (r, e) ↦
      rw (e, remove_pools)
        (ground (
          arith,
          occurrences-append j rs (all_pools ps),
          find_in-occurrences j rs r e,
          pool_of_absent j s ps,
          drop_from_absent j (pool_of s ps),
        ))
]

-- Removing an id takes that replica out of its pool and leaves every other pool as it was.
pub replicas_of-remove :
    (reg : ReplicaRegistry) (j : ℕ) (s : String)
    → occurrences j (all reg) ≤ 1
    → replicas_of (remove reg j).0 s ≡ drop_from j (replicas_of reg s)
unfolding replicas_of remove all
replicas_of-remove reg j s h = pool_of-remove_pools j s reg.by_spec h

pool_of-modify_pools :
    (j : ℕ) (f : Replica → Replica) (s : String) (ps : Pools)
    → occurrences j (all_pools ps) ≤ 1
    → pool_of s (modify_pools j f ps) ≡ modify_in j f (pool_of s ps)
pool_of-modify_pools j f s [] h = refl
pool_of-modify_pools j f s ((k, rs) ∷ ps) h = elim (Option-cases (find_in j rs)) [
  | inl e ↦
      rw (e, modify_pools)
        (ground (
          arith,
          pool_of-modify_pools j f s ps,
          occurrences-append j rs (all_pools ps),
          modify_in_absent j f rs,
          find_in-none j rs e,
        ))
  | inr (r, e) ↦
      rw (e, modify_pools)
        (ground (
          arith,
          occurrences-append j rs (all_pools ps),
          find_in-occurrences j rs r e,
          pool_of_absent j s ps,
          modify_in_absent j f (pool_of s ps),
        ))
]

pub replicas_of-modify :
    (reg : ReplicaRegistry) (j : ℕ) (f : Replica → Replica) (s : String)
    → occurrences j (all reg) ≤ 1
    → replicas_of (modify reg j f) s ≡ modify_in j f (replicas_of reg s)
unfolding replicas_of modify all
replicas_of-modify reg j f s h = pool_of-modify_pools j f s reg.by_spec h

find_in_pos : (j : ℕ) (rs : List Replica) → is_some (find_in j rs) ≡ true → 0 < length rs
find_in_pos j [] h = cc
find_in_pos j (r ∷ rs) h = omega arith

pub length-drop_from :
    (j : ℕ) (rs : List Replica)
    → length (drop_from j rs) ≡ length rs - (if is_some (find_in j rs) then 1 else 0)
length-drop_from j [] = refl
length-drop_from j (r ∷ rs) = ground (arith, length-drop_from j rs, find_in_pos j rs)

pub length-modify_in :
    (j : ℕ) (f : Replica → Replica) (rs : List Replica) → length (modify_in j f rs) ≡ length rs
length-modify_in j f [] = refl
length-modify_in j f (r ∷ rs) = ground (arith, length-modify_in j f rs)

pub any-find_in : (i : ℕ) (rs : List Replica) → any (λ r. r.id == i) rs ≡ is_some (find_in i rs)
any-find_in i [] = refl
any-find_in i (r ∷ rs) = ground (arith, any-find_in i rs)
