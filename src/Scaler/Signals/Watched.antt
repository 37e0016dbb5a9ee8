-- ===== src/Scaler/Signals/Watched.antt =====
-- What an idle counter says of the observations before.
use ruscker.Prelude.{
  ℕ, zero, suc, ◌≤◌, ◌≡◌, refl, inl, inr, true, false, Option, none, some, List, [], ◌∷◌, Memᴰ,
  arith, Bool-cases, unwrap_or, All, find-mem, string_key, nat_key, pair_key, ◌==◌, list_key,
}
use ruscker.Prelude.Assoc
use ruscker.Replica.{Replica}
use ruscker.Registry.{find_in}
use ruscker.Registry.Counting.{occurrences}
use ruscker.Scaler.Signals.{Ticks, update_idle_ticks, counts_as_idle, is_young}
use ruscker.Scaler.Signals.Idle.{observed, lookup-update_idle_ticks}

-- What happens to the counters: a tick's snapshot with its time, and the removal of a stopped replica.
pub data IdleEvent : Type 0 where
  seen : ℕ → List Replica → IdleEvent
  dropped : ℕ → IdleEvent

-- The counters after the events so far, the last one first.
unfoldable pub idle_after : List IdleEvent → Ticks ℕ
unfolding update_idle_ticks
idle_after [] = []
idle_after (seen now snap ∷ before) = update_idle_ticks (idle_after before) snap now
idle_after (dropped i ∷ before) = Assoc.remove i (idle_after before)

-- In each of the last `n` snapshots the replica stands without a session, past its start-up grace.
abbrev pub WasIdle : ℕ → ℕ → List IdleEvent → Type 0
WasIdle i zero events = Unit {0}
WasIdle i (suc n) [] = ⊥
WasIdle i (suc n) (seen now snap ∷ before) =
    ((r : Replica) × Memᴰ r snap × (r.id ≡ i) × (r.sessions_active ≡ 0) × (is_young now r ≡ false))
    × WasIdle i n before
WasIdle i (suc n) (dropped j ∷ before) = WasIdle i (suc n) before

abbrev pub StandsOnce : ℕ → IdleEvent → Type 0
StandsOnce i (seen now snap) = occurrences i snap ≤ 1
StandsOnce i (dropped j) = Unit {0}

abbrev pub AllOnce : ℕ → List IdleEvent → Type 0
AllOnce i events = All (StandsOnce i) events

find_in-mem :
    (i : ℕ) (rs : List Replica) (r : Replica) → find_in i rs ≡ some r → Memᴰ r rs × (r.id ≡ i)
find_in-mem i rs r h = let (m, e) = find-mem (λ q. q.id == i) rs r h in (m, ground arith)

observed-suc :
    (now n : ℕ) (old : Option ℕ) (found : Option Replica)
    → suc n ≤ unwrap_or (observed now old found) 0
    → (r : Replica) × (found ≡ some r) × (counts_as_idle now r ≡ true) × (n ≤ unwrap_or old 0)
observed-suc now n old none h = absurd (omega arith)
observed-suc now n old (some r) h = elim (Bool-cases (counts_as_idle now r)) [
  | inl e ↦ (r, refl, e, ground arith)
  | inr e ↦ absurd (ground arith)
]

pub idle_after-WasIdle :
    (i n : ℕ) (events : List IdleEvent)
    → AllOnce i events
    → n ≤ unwrap_or (Assoc.lookup i (idle_after events)) 0
    → WasIdle i n events
unfolding idle_after
idle_after-WasIdle i zero events a h = tt
idle_after-WasIdle i (suc n) [] a h = absurd (omega arith)
idle_after-WasIdle i (suc n) (seen now snap ∷ before) (once, a) h =
    let step = lookup-update_idle_ticks (idle_after before) snap now i once in
    let (r, found, idle, less) =
      observed-suc now n (Assoc.lookup i (idle_after before)) (find_in i snap) (rw step at h) in
    let (m, e) = find_in-mem i snap r found in
    ((r, m, e, ground arith, ground arith), idle_after-WasIdle i n before a less)
idle_after-WasIdle i (suc n) (dropped j ∷ before) (_, a) h =
    idle_after-WasIdle i (suc n) before a
      (ground (arith, Assoc.lookup-remove j i (idle_after before)))
