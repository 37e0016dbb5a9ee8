-- ===== src/Registry/Find.antt =====
-- What `find_mut` sees after each operation.
use mathlib.Core.Option
use ruscker.Prelude.{
  ℕ, zero, ◌≤◌, ◌≡◌, refl, inl, inr, none, some, List, [], ◌∷◌, ◌++◌, arith, if◌then◌else◌,
  Option-cases, is_some, ◌==◌, nat_key, string_key,
}
use ruscker.Replica.{Replica, stopped}
use ruscker.Registry.{
  Pools, all_pools, find_pools, find_in, find_mut, push_pool, modify_pools, modify_in, drop_from,
  add, modify, remove_pools, ReplicaRegistry, upsert, remove, mark_restarting, all, inc_sessions,
  dec_sessions, unseated, seated,
}
use ruscker.Registry.Counting.{
  occurrences, occurrences_zero-find_in, occurrences-append, IsUnique, find_in-occurrences,
  find_in-none, occurrences_zero-find_pools,
}

find_in-modify_in :
    (i j : ℕ) (f : Replica → Replica) (rs : List Replica)
    → ((r : Replica) → (f r).id ≡ r.id)
    → find_in i (modify_in j f rs) ≡ (if j == i then Option.map f (find_in i rs) else find_in i rs)
find_in-modify_in i j f [] k = ground arith
find_in-modify_in i j f (r ∷ rs) k = ground (arith, k r, find_in-modify_in i j f rs k)

find_pools-modify_pools :
    (i j : ℕ) (f : Replica → Replica) (ps : Pools)
    → ((r : Replica) → (f r).id ≡ r.id)
    → find_pools i (modify_pools j f ps)
      ≡ (if j == i then Option.map f (find_pools i ps) else find_pools i ps)
find_pools-modify_pools i j f [] k = ground arith
find_pools-modify_pools i j f ((s, rs) ∷ ps) k =
    ground (arith, find_in-modify_in i j f rs k, find_pools-modify_pools i j f ps k)

-- A write through `find_mut` is seen at that id and nowhere else.
pub find_mut-modify :
    (i j : ℕ) (f : Replica → Replica) (reg : ReplicaRegistry)
    → ((r : Replica) → (f r).id ≡ r.id)
    → find_mut (modify reg j f) i
      ≡ (if j == i then Option.map f (find_mut reg i) else find_mut reg i)
unfolding find_mut modify
find_mut-modify i j f reg k = find_pools-modify_pools i j f reg.by_spec k

find_in-append :
    (i : ℕ) (rs : List Replica) (r : Replica)
    → find_in i (rs ++ r ∷ [])
      ≡ (if is_some (find_in i rs) then find_in i rs else find_in i (r ∷ []))
find_in-append i [] r = refl
find_in-append i (q ∷ rs) r = ground (arith, find_in-append i rs r)

find_pools-push_pool :
    (i : ℕ) (r : Replica) (ps : Pools)
    → find_pools r.id ps ≡ none
    → find_pools i (push_pool r ps) ≡ (if r.id == i then some r else find_pools i ps)
find_pools-push_pool i r [] h = ground arith
find_pools-push_pool i r ((s, rs) ∷ ps) h =
    ground (arith, find_in-append i rs r, find_pools-push_pool i r ps)

-- A fresh replica is found under its id, and hides no other.
pub find_mut-add :
    (i : ℕ) (r : Replica) (reg : ReplicaRegistry)
    → find_mut reg r.id ≡ none
    → find_mut (add reg r) i ≡ (if r.id == i then some r else find_mut reg i)
unfolding find_mut add
find_mut-add i r reg h = find_pools-push_pool i r reg.by_spec h

find_in-drop_from :
    (i j : ℕ) (rs : List Replica)
    → occurrences i rs ≤ 1
    → find_in i (drop_from j rs) ≡ (if j == i then none else find_in i rs)
unfolding occurrences
find_in-drop_from i j [] h = ground arith
find_in-drop_from i j (r ∷ rs) h =
    ground (arith, find_in-drop_from i j rs, occurrences_zero-find_in i rs)

find_pools-remove_pools :
    (i j : ℕ) (ps : Pools)
    → occurrences i (all_pools ps) ≤ 1
    → find_pools i (remove_pools j ps) ≡ (if j == i then none else find_pools i ps)
find_pools-remove_pools i j [] h = ground arith
find_pools-remove_pools i j ((s, rs) ∷ ps) h = elim (Option-cases (find_in j rs)) [
  | inl e ↦
      rw (e, remove_pools)
        (ground (arith, occurrences-append i rs (all_pools ps), find_pools-remove_pools i j ps))
  | inr (r, e) ↦
      rw (e, remove_pools)
        (ground (
          arith,
          occurrences-append i rs (all_pools ps),
          find_in-drop_from i j rs,
          find_in-occurrences j rs r e,
          occurrences_zero-find_pools i ps,
        ))
]

-- After a removal the id is gone; every other id still finds its replica.
pub find_mut-remove :
    (i j : ℕ) (reg : ReplicaRegistry)
    → IsUnique reg
    → find_mut (remove reg j).0 i ≡ (if j == i then none else find_mut reg i)
unfolding find_mut remove all
find_mut-remove i j reg u = find_pools-remove_pools i j reg.by_spec (u i)

-- The replica that re-adoption publishes replaces the row under its id, and only that one. The
-- registry has an id at most once.
pub find_mut-upsert :
    (i : ℕ) (reg : ReplicaRegistry) (r : Replica)
    → IsUnique reg
    → find_mut (upsert reg r) i ≡ (if r.id == i then some r else find_mut reg i)
unfolding upsert
find_mut-upsert i reg r u = ground (
  arith,
  find_mut-remove r.id r.id reg u,
  find_mut-remove i r.id reg u,
  find_mut-add i r (remove reg r.id).0,
)

abbrev restarted : ℕ → Replica → Replica
restarted at r = record r { state = stopped; started_at = at; sessions_active = zero }

-- A restarting replica keeps its slot, is stopped with no session, and nothing else changes.
pub find_mut-mark_restarting :
    (i j at : ℕ) (reg : ReplicaRegistry)
    → find_mut (mark_restarting reg j at).0 i
      ≡ (if j == i then Option.map (restarted at) (find_mut reg i) else find_mut reg i)
unfolding mark_restarting
find_mut-mark_restarting i j at reg =
    ground (arith, find_mut-modify i j (restarted at) reg (λ r. refl))

find_in-find_pools :
    (i : ℕ) (ps : Pools) → find_pools i ps ≡ none → occurrences i (all_pools ps) ≡ 0
unfolding occurrences
find_in-find_pools i [] h = refl
find_in-find_pools i ((s, rs) ∷ ps) h =
    ground
      (arith, occurrences-append i rs (all_pools ps), find_in-none i rs, find_in-find_pools i ps)

pub find_mut-none :
    (i : ℕ) (reg : ReplicaRegistry) → find_mut reg i ≡ none → occurrences i (all reg) ≡ 0
unfolding find_mut all
find_mut-none i reg h = find_in-find_pools i reg.by_spec h

pub find_mut-inc_sessions :
    (i j : ℕ) (reg : ReplicaRegistry)
    → find_mut (inc_sessions reg j) i
      ≡ (if j == i then Option.map seated (find_mut reg i) else find_mut reg i)
unfolding inc_sessions
find_mut-inc_sessions i j reg = find_mut-modify i j seated reg (λ r. refl)

pub find_mut-dec_sessions :
    (i j : ℕ) (reg : ReplicaRegistry)
    → find_mut (dec_sessions reg j) i
      ≡ (if j == i then Option.map unseated (find_mut reg i) else find_mut reg i)
unfolding dec_sessions
find_mut-dec_sessions i j reg = find_mut-modify i j unseated reg (λ r. refl)
