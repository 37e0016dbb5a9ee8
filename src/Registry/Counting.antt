-- ===== src/Registry/Counting.antt =====
-- How often an id stands in the registry after each operation.
use ruscker.Prelude.{
  ℕ, ◌+◌, ◌-◌, ◌≤◌, ◌≡◌, refl, inl, inr, none, some, List, [], ◌∷◌, ◌++◌, arith, if◌then◌else◌,
  Option-cases, length, length-append, ◌==◌, nat_key, string_key,
}
use ruscker.Replica.{Replica}
use ruscker.Registry.{
  Pools, ReplicaRegistry, push_pool, add, find_in, drop_from, remove_pools, all_pools, all,
  total_pools, modify, total, modify_pools, remove, modify_in, upsert, find_pools,
}

unfoldable pub occurrences : ℕ → List Replica → ℕ
occurrences i [] = 0
occurrences i (r ∷ rs) = (if r.id == i then 1 else 0) + occurrences i rs

-- Every id stands at most once.
abbrev pub IsUnique : ReplicaRegistry → Type 0
IsUnique reg = (i : ℕ) → occurrences i (all reg) ≤ 1

pub occurrences-append :
    (i : ℕ) (rs qs : List Replica) → occurrences i (rs ++ qs) ≡ occurrences i rs + occurrences i qs
unfolding occurrences
occurrences-append i [] qs = omega arith
occurrences-append i (r ∷ rs) qs = omega (arith, occurrences-append i rs qs)

occurrences-push_pool :
    (i : ℕ) (r : Replica) (ps : Pools)
    → occurrences i (all_pools (push_pool r ps))
      ≡ occurrences i (all_pools ps) + (if r.id == i then 1 else 0)
unfolding occurrences
occurrences-push_pool i r [] = ground arith
occurrences-push_pool i r ((s, rs) ∷ ps) = ground (
  arith,
  occurrences-append i (rs ++ r ∷ []) (all_pools ps),
  occurrences-append i rs (r ∷ []),
  occurrences-append i rs (all_pools ps),
  occurrences-append i rs (all_pools (push_pool r ps)),
  occurrences-push_pool i r ps,
)

pub occurrences-add :
    (i : ℕ) (reg : ReplicaRegistry) (r : Replica)
    → occurrences i (all (add reg r)) ≡ occurrences i (all reg) + (if r.id == i then 1 else 0)
unfolding all add
occurrences-add i reg r = occurrences-push_pool i r reg.by_spec

pub find_in-none : (i : ℕ) (rs : List Replica) → find_in i rs ≡ none → occurrences i rs ≡ 0
unfolding occurrences
find_in-none i [] h = refl
find_in-none i (r ∷ rs) h = ground (arith, find_in-none i rs)

find_in-some : (i : ℕ) (rs : List Replica) (r : Replica) → find_in i rs ≡ some r → r.id ≡ i
find_in-some i [] r h = cc
find_in-some i (q ∷ rs) r h = ground (arith, find_in-some i rs r)

pub occurrences-drop_from :
    (i j : ℕ) (rs : List Replica)
    → occurrences i (drop_from j rs) ≡ occurrences i rs - (if j == i then 1 else 0)
unfolding occurrences
occurrences-drop_from i j [] = ground arith
occurrences-drop_from i j (r ∷ rs) = ground (arith, occurrences-drop_from i j rs)

pub occurrences_zero-find_in :
    (i : ℕ) (rs : List Replica) → occurrences i rs ≡ 0 → find_in i rs ≡ none
unfolding occurrences
occurrences_zero-find_in i [] h = refl
occurrences_zero-find_in i (r ∷ rs) h = ground (arith, occurrences_zero-find_in i rs)

pub occurrences_zero-find_pools :
    (i : ℕ) (ps : Pools) → occurrences i (all_pools ps) ≡ 0 → find_pools i ps ≡ none
occurrences_zero-find_pools i [] h = refl
occurrences_zero-find_pools i ((s, rs) ∷ ps) h = ground (
  arith,
  occurrences-append i rs (all_pools ps),
  occurrences_zero-find_in i rs,
  occurrences_zero-find_pools i ps,
)

pub find_in-occurrences :
    (i : ℕ) (rs : List Replica) (r : Replica) → find_in i rs ≡ some r → 1 ≤ occurrences i rs
unfolding occurrences
find_in-occurrences i [] r h = cc
find_in-occurrences i (q ∷ rs) r h = ground (arith, find_in-occurrences i rs r)

occurrences-remove_pools :
    (i j : ℕ) (ps : Pools)
    → occurrences i (all_pools (remove_pools j ps))
      ≡ occurrences i (all_pools ps) - (if j == i then 1 else 0)
unfolding occurrences
occurrences-remove_pools i j [] = ground arith
occurrences-remove_pools i j ((s, rs) ∷ ps) = elim (Option-cases (find_in j rs)) [
  | inl e ↦
      rw (e, remove_pools)
        (ground (
          arith,
          occurrences-append i rs (all_pools ps),
          occurrences-append i rs (all_pools (remove_pools j ps)),
          occurrences-remove_pools i j ps,
          find_in-none j rs e,
        ))
  | inr (r, e) ↦
      rw (e, remove_pools)
        (ground (
          arith,
          occurrences-append i rs (all_pools ps),
          occurrences-append i (drop_from j rs) (all_pools ps),
          occurrences-drop_from i j rs,
          find_in-occurrences j rs r e,
        ))
]

pub occurrences-remove :
    (i j : ℕ) (reg : ReplicaRegistry)
    → occurrences i (all (remove reg j).0) ≡ occurrences i (all reg) - (if j == i then 1 else 0)
unfolding all remove
occurrences-remove i j reg = occurrences-remove_pools i j reg.by_spec

occurrences-modify_in :
    (i j : ℕ) (f : Replica → Replica) (rs : List Replica)
    → ((r : Replica) → (f r).id ≡ r.id)
    → occurrences i (modify_in j f rs) ≡ occurrences i rs
unfolding occurrences
occurrences-modify_in i j f [] h = refl
occurrences-modify_in i j f (r ∷ rs) h = ground (arith, h r, occurrences-modify_in i j f rs h)

occurrences-modify_pools :
    (i j : ℕ) (f : Replica → Replica) (ps : Pools)
    → ((r : Replica) → (f r).id ≡ r.id)
    → occurrences i (all_pools (modify_pools j f ps)) ≡ occurrences i (all_pools ps)
occurrences-modify_pools i j f [] h = refl
occurrences-modify_pools i j f ((s, rs) ∷ ps) h = elim (Option-cases (find_in j rs)) [
  | inl e ↦
      rw (e, modify_pools)
        (omega (
          arith,
          occurrences-append i rs (all_pools ps),
          occurrences-append i rs (all_pools (modify_pools j f ps)),
          occurrences-modify_pools i j f ps h,
        ))
  | inr (r, e) ↦
      rw (e, modify_pools)
        (omega (
          arith,
          occurrences-append i rs (all_pools ps),
          occurrences-append i (modify_in j f rs) (all_pools ps),
          occurrences-modify_in i j f rs h,
        ))
]

pub occurrences-modify :
    (i j : ℕ) (f : Replica → Replica) (reg : ReplicaRegistry)
    → ((r : Replica) → (f r).id ≡ r.id)
    → occurrences i (all (modify reg j f)) ≡ occurrences i (all reg)
unfolding all modify
occurrences-modify i j f reg h = occurrences-modify_pools i j f reg.by_spec h

pub remove-IsUnique : (reg : ReplicaRegistry) (j : ℕ) → IsUnique reg → IsUnique (remove reg j).0
remove-IsUnique reg j u i = omega (arith, occurrences-remove i j reg, u i)

pub add-IsUnique :
    (reg : ReplicaRegistry) (r : Replica)
    → IsUnique reg
    → occurrences r.id (all reg) ≡ 0
    → IsUnique (add reg r)
add-IsUnique reg r u fresh i = ground (arith, occurrences-add i reg r, u i)

-- `upsert` leaves exactly one row for the replica's id and does not disturb the others.
pub upsert-occurrences :
    (i : ℕ) (reg : ReplicaRegistry) (r : Replica)
    → IsUnique reg
    → occurrences i (all (upsert reg r)) ≡ (if r.id == i then 1 else occurrences i (all reg))
unfolding upsert
upsert-occurrences i reg r u =
    ground (arith, occurrences-add i (remove reg r.id).0 r, occurrences-remove i r.id reg, u i)

pub upsert-IsUnique : (reg : ReplicaRegistry) (r : Replica) → IsUnique reg → IsUnique (upsert reg r)
upsert-IsUnique reg r u i = ground (arith, upsert-occurrences i reg r u, u i)

total_pools-length : (ps : Pools) → total_pools ps ≡ length (all_pools ps)
total_pools-length [] = refl
total_pools-length ((s, rs) ∷ ps) =
    omega (arith, total_pools-length ps, length-append rs (all_pools ps))

-- `total` counts what `all` walks.
pub total-length : (reg : ReplicaRegistry) → total reg ≡ length (all reg)
unfolding total all
total-length reg = total_pools-length reg.by_spec
