-- ===== src/Registry.antt =====
-- The live registry of replicas (crates/ruscker-core/src/lib.rs, `ReplicaRegistry`): pools of
-- replicas keyed by spec id. `HashMap` order is the order of the association list.
pub mod Counting
pub mod Lookup
pub mod Filing
pub mod Find
pub mod Sizes
pub mod Recount
use ruscker.Prelude.{
  ℕ, zero, ◌+◌, ◌-◌, String, Bool, true, false, Option, none, some, List, [], ◌∷◌, ◌++◌, map,
  if◌then◌else◌, unwrap_or, length, find, ◌==◌, nat_key, string_key,
}
use ruscker.Prelude.Assoc
use ruscker.Replica.{Replica, ReplicaState, stopped, saturating_inc}

abbrev pub Pools : Type 0
Pools = List (String × List Replica)

pub record ReplicaRegistry : Type 0 where
  pub by_spec : Pools

pub new : ReplicaRegistry
new = record { by_spec = [] }

abbrev pub pool_of : String → Pools → List Replica
pool_of s ps = unwrap_or (Assoc.lookup s ps) []

unfoldable pub replicas_of : ReplicaRegistry → String → List Replica
replicas_of reg s = pool_of s reg.by_spec

-- `entry(spec_id).or_default().push(replica)`.
abbrev pub push_pool : Replica → Pools → Pools
push_pool r [] = (r.spec_id, r ∷ []) ∷ []
push_pool r ((s, rs) ∷ ps) =
    if s == r.spec_id then (s, rs ++ r ∷ []) ∷ ps else (s, rs) ∷ push_pool r ps

unfoldable pub add : ReplicaRegistry → Replica → ReplicaRegistry
add reg r = record { by_spec = push_pool r reg.by_spec }

-- `position` and `Vec::remove` in one pool: the first replica with the id.
abbrev pub find_in : ℕ → List Replica → Option Replica
find_in i rs = find (λ r. r.id == i) rs

abbrev pub drop_from : ℕ → List Replica → List Replica
drop_from i [] = []
drop_from i (r ∷ rs) = if r.id == i then rs else r ∷ drop_from i rs

-- The first pool that holds the id is the one that changes.
abbrev pub remove_pools : ℕ → Pools → Pools
remove_pools i [] = []
remove_pools i ((s, rs) ∷ ps) = elim (find_in i rs) [
  | some r ↦ (s, drop_from i rs) ∷ ps
  | none ↦ (s, rs) ∷ remove_pools i ps
]

abbrev pub find_pools : ℕ → Pools → Option Replica
find_pools i [] = none
find_pools i ((s, rs) ∷ ps) = elim (find_in i rs) [ some r ↦ some r | none ↦ find_pools i ps ]

unfoldable pub remove : ReplicaRegistry → ℕ → ReplicaRegistry × Option Replica
remove reg i = (record { by_spec = remove_pools i reg.by_spec }, find_pools i reg.by_spec)

unfoldable pub upsert : ReplicaRegistry → Replica → ReplicaRegistry
unfolding remove add
upsert reg r = add (remove reg r.id).0 r

-- `find_mut` and an assignment through it.
abbrev pub modify_in : ℕ → (Replica → Replica) → List Replica → List Replica
modify_in i f [] = []
modify_in i f (r ∷ rs) = if r.id == i then f r ∷ rs else r ∷ modify_in i f rs

abbrev pub modify_pools : ℕ → (Replica → Replica) → Pools → Pools
modify_pools i f [] = []
modify_pools i f ((s, rs) ∷ ps) = elim (find_in i rs) [
  | some r ↦ (s, modify_in i f rs) ∷ ps
  | none ↦ (s, rs) ∷ modify_pools i f ps
]

unfoldable pub modify : ReplicaRegistry → ℕ → (Replica → Replica) → ReplicaRegistry
modify reg i f = record { by_spec = modify_pools i f reg.by_spec }

unfoldable pub find_mut : ReplicaRegistry → ℕ → Option Replica
find_mut reg i = find_pools i reg.by_spec

unfoldable pub mark_restarting : ReplicaRegistry → ℕ → ℕ → ReplicaRegistry × Bool
unfolding modify find_mut
mark_restarting reg i observed_at = elim (find_mut reg i) [
  | none ↦ (reg, false)
  | some _ ↦ (
    modify reg i
        (λ r. record r { state = stopped; started_at = observed_at; sessions_active = zero }),
    true,
  )
]

add_all : ReplicaRegistry → List Replica → ReplicaRegistry
unfolding add
add_all reg [] = reg
add_all reg (r ∷ rs) = add_all (add reg r) rs

unfoldable pub reset : ReplicaRegistry → List Replica → ReplicaRegistry
unfolding add_all
reset reg rs = add_all (record { by_spec = [] }) rs

unfoldable pub spec_count : ReplicaRegistry → ℕ
spec_count reg = length reg.by_spec

abbrev pub all_pools : Pools → List Replica
all_pools [] = []
all_pools ((s, rs) ∷ ps) = rs ++ all_pools ps

abbrev total_pools : Pools → ℕ
total_pools [] = 0
total_pools ((s, rs) ∷ ps) = length rs + total_pools ps

unfoldable pub total : ReplicaRegistry → ℕ
total reg = total_pools reg.by_spec

unfoldable pub all : ReplicaRegistry → List Replica
all reg = all_pools reg.by_spec

abbrev pub seated : Replica → Replica
seated r = record r { sessions_active = saturating_inc r.sessions_active }

unfoldable pub inc_sessions : ReplicaRegistry → ℕ → ReplicaRegistry
unfolding modify
inc_sessions reg i = modify reg i seated

abbrev pub unseated : Replica → Replica
unseated r = record r { sessions_active = r.sessions_active - 1 }

unfoldable pub dec_sessions : ReplicaRegistry → ℕ → ReplicaRegistry
unfolding modify
dec_sessions reg i = modify reg i unseated

unfoldable pub set_session_count : ReplicaRegistry → ℕ → ℕ → ReplicaRegistry
unfolding modify
set_session_count reg i n = modify reg i (λ r. record r { sessions_active = n })

abbrev pub recount : List (ℕ × ℕ) → Replica → Replica
recount counts r = record r { sessions_active = unwrap_or (Assoc.lookup r.id counts) 0 }

abbrev recount_pools : List (ℕ × ℕ) → Pools → Pools
recount_pools counts [] = []
recount_pools counts ((s, rs) ∷ ps) = (s, map (recount counts) rs) ∷ recount_pools counts ps

unfoldable pub set_session_counts : ReplicaRegistry → List (ℕ × ℕ) → ReplicaRegistry
set_session_counts reg counts = record { by_spec = recount_pools counts reg.by_spec }
