-- ===== src/Registry/Filing.antt =====
-- Replicas stay in the pool of their own spec.
use ruscker.Prelude.{
  ℕ, String, ◌≡◌, refl, ◌∙◌, subst, inl, inr, List, [], ◌∷◌, arith, eq_iff, Bool-cases,
  Option-cases, All, All-append, ◌==◌, nat_key, string_key,
}
use ruscker.Replica.{Replica}
use ruscker.Registry.{
  Pools, drop_from, modify_in, replicas_of, modify, remove, remove_pools, ReplicaRegistry, add,
  modify_pools, pool_of, push_pool, find_in,
}

-- Each replica stands in the pool of its own spec.
abbrev FiledPools : Pools → Type 0
FiledPools [] = Unit
FiledPools ((s, rs) ∷ ps) = All (λ r. r.spec_id ≡ s) rs × FiledPools ps

pub IsFiled : ReplicaRegistry → Type 0
IsFiled reg = FiledPools reg.by_spec

FiledPools-push_pool : (r : Replica) (ps : Pools) → FiledPools ps → FiledPools (push_pool r ps)
FiledPools-push_pool r [] h = ((refl, tt), tt)
FiledPools-push_pool r ((s, rs) ∷ ps) h = ground (
  arith,
  eq_iff s r.spec_id,
  FiledPools-push_pool r ps h.1,
  All-append (λ (q : Replica). q.spec_id ≡ s) rs (r ∷ []) h.0,
)

pub add-IsFiled : (reg : ReplicaRegistry) (r : Replica) → IsFiled reg → IsFiled (add reg r)
unfolding IsFiled add
add-IsFiled reg r h = FiledPools-push_pool r reg.by_spec h

All-drop_from {κ} :
    (P : Replica → Type κ) (j : ℕ) (rs : List Replica) → All P rs → All P (drop_from j rs)
All-drop_from P j [] h = tt
All-drop_from P j (r ∷ rs) h = ground (arith, All-drop_from P j rs h.1)

FiledPools-remove_pools : (j : ℕ) (ps : Pools) → FiledPools ps → FiledPools (remove_pools j ps)
FiledPools-remove_pools j [] h = tt
FiledPools-remove_pools j ((s, rs) ∷ ps) h = elim (Option-cases (find_in j rs)) [
  | inl e ↦ rw (e, remove_pools) (h.0, FiledPools-remove_pools j ps h.1)
  | inr (r, e) ↦ rw (e, remove_pools) (All-drop_from (λ q. q.spec_id ≡ s) j rs h.0, h.1)
]

pub remove-IsFiled : (reg : ReplicaRegistry) (j : ℕ) → IsFiled reg → IsFiled (remove reg j).0
unfolding IsFiled remove
remove-IsFiled reg j h = FiledPools-remove_pools j reg.by_spec h

All-modify_in {κ} :
    (P : Replica → Type κ) (j : ℕ) (f : Replica → Replica) (rs : List Replica)
    → ((r : Replica) → P r → P (f r))
    → All P rs
    → All P (modify_in j f rs)
All-modify_in P j f [] k h = tt
All-modify_in P j f (r ∷ rs) k h = elim (Bool-cases (r.id == j)) [
  | inl e ↦ rw (e, modify_in) (k r h.0, h.1)
  | inr e ↦ rw (e, modify_in) (h.0, All-modify_in P j f rs k h.1)
]

FiledPools-modify_pools :
    (j : ℕ) (f : Replica → Replica) (ps : Pools)
    → ((r : Replica) → (f r).spec_id ≡ r.spec_id)
    → FiledPools ps
    → FiledPools (modify_pools j f ps)
FiledPools-modify_pools j f [] k h = tt
FiledPools-modify_pools j f ((s, rs) ∷ ps) k h = elim (Option-cases (find_in j rs)) [
  | inl e ↦ rw (e, modify_pools) (h.0, FiledPools-modify_pools j f ps k h.1)
  | inr (r, e) ↦
      rw (e, modify_pools) (All-modify_in (λ q. q.spec_id ≡ s) j f rs (λ q hq. k q ∙ hq) h.0, h.1)
]

pub modify-IsFiled :
    (reg : ReplicaRegistry) (j : ℕ) (f : Replica → Replica)
    → ((r : Replica) → (f r).spec_id ≡ r.spec_id)
    → IsFiled reg
    → IsFiled (modify reg j f)
unfolding IsFiled modify
modify-IsFiled reg j f k h = FiledPools-modify_pools j f reg.by_spec k h

pool_of-Filed : (s : String) (ps : Pools) → FiledPools ps → All (λ r. r.spec_id ≡ s) (pool_of s ps)
pool_of-Filed s [] h = tt
pool_of-Filed s ((k, rs) ∷ ps) h = elim (Bool-cases (k == s)) [
  | inl e ↦
      rw (e, pool_of)
        (subst (λ (t : String). All (λ (r : Replica). r.spec_id ≡ t) rs) ((eq_iff k s).0 e) h.0)
  | inr e ↦ rw (e, pool_of) (pool_of-Filed s ps h.1)
]

-- What `replicas_of` returns belongs to the spec that was asked for.
pub replicas_of-All :
    (reg : ReplicaRegistry) (s : String)
    → IsFiled reg
    → All (λ r. r.spec_id ≡ s) (replicas_of reg s)
unfolding IsFiled replicas_of
replicas_of-All reg s h = pool_of-Filed s reg.by_spec h
