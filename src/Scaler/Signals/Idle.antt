-- ===== src/Scaler/Signals/Idle.antt =====
-- The idle counters after one observation.
use ruscker.Prelude.{
  ℕ, ◌+◌, ◌%◌, ◌≤◌, ◌≡◌, refl, inl, inr, Option, none, some, List, [], ◌∷◌, arith, if◌then◌else◌,
  Bool-cases, is_some, unwrap_or, any, string_key, nat_key, pair_key, ◌==◌,
}
use ruscker.Prelude.Assoc
use ruscker.Replica.{Replica}
use ruscker.Registry.{find_in}
use ruscker.Registry.Lookup.{any-find_in}
use ruscker.Registry.Counting.{occurrences}
use ruscker.Scaler.Signals.{Ticks, update_idle_ticks, observe_idle, counts_as_idle, bump, u32_range}

-- The counter of a replica after one observation of it.
abbrev pub observed : ℕ → Option ℕ → Option Replica → Option ℕ
observed now old none = none
observed now old (some r) =
    if counts_as_idle now r then some ((unwrap_or old 0 + 1) % u32_range) else none

lookup_observe_absent :
    (now i : ℕ) (rs : List Replica) (ticks : Ticks ℕ)
    → occurrences i rs ≡ 0
    → Assoc.lookup i (observe_idle now rs ticks) ≡ Assoc.lookup i ticks
unfolding occurrences
lookup_observe_absent now i [] ticks h = refl
lookup_observe_absent now i (r ∷ rs) ticks h = ground (
  arith,
  lookup_observe_absent now i rs (bump r.id ticks),
  lookup_observe_absent now i rs (Assoc.remove r.id ticks),
  Assoc.lookup-insert r.id i ((unwrap_or (Assoc.lookup r.id ticks) 0 + 1) % u32_range) ticks,
  Assoc.lookup-remove r.id i ticks,
)

lookup-observe_idle :
    (now i : ℕ) (rs : List Replica) (ticks : Ticks ℕ)
    → occurrences i rs ≤ 1
    → Assoc.lookup i (observe_idle now rs ticks) ≡ (
        if is_some (find_in i rs)
        then observed now (Assoc.lookup i ticks) (find_in i rs)
        else Assoc.lookup i ticks)
unfolding occurrences
lookup-observe_idle now i [] ticks h = refl
lookup-observe_idle now i (r ∷ rs) ticks h = elim (Bool-cases (r.id == i)) [
  | inl e ↦ ground (
    arith,
    lookup_observe_absent now i rs (bump r.id ticks),
    lookup_observe_absent now i rs (Assoc.remove r.id ticks),
    Assoc.lookup-insert r.id i ((unwrap_or (Assoc.lookup r.id ticks) 0 + 1) % u32_range) ticks,
    Assoc.lookup-remove r.id i ticks,
  )
  | inr e ↦ ground (
    arith,
    lookup-observe_idle now i rs (bump r.id ticks),
    lookup-observe_idle now i rs (Assoc.remove r.id ticks),
    Assoc.lookup-insert r.id i ((unwrap_or (Assoc.lookup r.id ticks) 0 + 1) % u32_range) ticks,
    Assoc.lookup-remove r.id i ticks,
  )
]

lookup-retain_known :
    (i : ℕ) (rs : List Replica) (ticks : Ticks ℕ)
    → Assoc.lookup i (Assoc.retain (λ j _. any (λ r. r.id == j) rs) ticks)
      ≡ (if any (λ r. r.id == i) rs then Assoc.lookup i ticks else none)
lookup-retain_known i rs [] = ground arith
lookup-retain_known i rs ((k, n) ∷ ticks) = elim (Bool-cases (k == i)) [
  | inl e ↦
      let same : k ≡ i = (nat_key.same_iff k i).0 e in
      ground (arith, lookup-retain_known i rs ticks)
  | inr e ↦ ground (arith, lookup-retain_known i rs ticks)
]

-- One observation of the registry: a replica that left it loses its counter, a busy one and one
-- that started within the grace are at zero, and an idle one goes up by one. The snapshot has the
-- id at most once.
pub lookup-update_idle_ticks :
    (ticks : Ticks ℕ) (snap : List Replica) (now i : ℕ)
    → occurrences i snap ≤ 1
    → Assoc.lookup i (update_idle_ticks ticks snap now)
      ≡ observed now (Assoc.lookup i ticks) (find_in i snap)
unfolding update_idle_ticks
lookup-update_idle_ticks ticks snap now i u = ground (
  arith,
  lookup-observe_idle now i snap (Assoc.retain (λ j _. any (λ r. r.id == j) snap) ticks) u,
  lookup-retain_known i snap ticks,
  any-find_in i snap,
)
