-- ===== src/Scaler/Liveness/Adopted.antt =====
-- Reconciliation and the replica cap.
use ruscker.Prelude.{
  ℕ, zero, ◌+◌, ◌≤◌, max, String, ◌≡◌, refl, ap, inl, inr, true, false, List, [], ◌∷◌, arith,
  eq_iff, if◌then◌else◌, Option-cases, is_some, length, any, length-append, string_key, nat_key,
  pair_key, ◌==◌, list_key,
}
use ruscker.Replica.{Replica, ReplicaState}
use ruscker.Registry.{
  ReplicaRegistry, replicas_of, upsert, remove, mark_restarting, find_in, find_mut,
}
use ruscker.Registry.Counting.{IsUnique, remove-IsUnique, occurrences-modify}
use ruscker.Registry.Lookup.{
  any-find_in, replicas_of-add, replicas_of-remove, replicas_of-modify, length-drop_from,
  length-modify_in,
}
use ruscker.Registry.Sizes.{length-remove}
use ruscker.Scaler.{AppState, prune_dead_replica, mark_restart_detected}

abbrev pub size_in : String → ReplicaRegistry → ℕ
size_in s reg = length (replicas_of reg s)

-- The registry is still one with distinct ids, and the pool has not grown beyond `most`.
abbrev pub Holds : String → ℕ → ReplicaRegistry → ReplicaRegistry → Type 0
Holds s most reg next = IsUnique next × (size_in s next ≤ max (size_in s reg) most)

pub prune-replicas :
    (now : ℕ) (r : Replica) (st : AppState)
    → (prune_dead_replica now r st).replicas ≡ (remove st.replicas r.id).0
unfolding prune_dead_replica
prune-replicas now r st = ground arith

pub prune-Holds :
    (s : String) (most now : ℕ) (r : Replica) (st : AppState)
    → IsUnique st.replicas
    → Holds s most st.replicas (prune_dead_replica now r st).replicas
prune-Holds s most now r st u =
    rw (prune-replicas now r st)
      (remove-IsUnique st.replicas r.id u, ground (arith, length-remove st.replicas r.id s))

restart-Holds :
    (s : String) (most i now : ℕ) (reg : ReplicaRegistry)
    → IsUnique reg
    → Holds s most reg (mark_restarting reg i now).0
unfolding mark_restarting
restart-Holds s most i now reg u =
    let f = λ (r : Replica). record r {
      state = ReplicaState.stopped;
      started_at = now;
      sessions_active = zero;
    } in
    elim (Option-cases (find_mut reg i)) [
      | inl e ↦ rw (e, mark_restarting) (u, omega arith)
      | inr (q, e) ↦
          rw (e, mark_restarting)
            (
              (λ j. omega (arith, occurrences-modify j i f reg (λ r. refl), u j)),
              ground (
                arith,
                ap length (replicas_of-modify reg i f s (u i)),
                length-modify_in i f (replicas_of reg s),
              ),
            )
    ]

mark-replicas :
    (now : ℕ) (r : Replica) (st : AppState)
    → (mark_restart_detected r now st).replicas ≡ (mark_restarting st.replicas r.id now).0
unfolding mark_restart_detected
mark-replicas now r st = ground arith

pub mark-Holds :
    (s : String) (most now : ℕ) (r : Replica) (st : AppState)
    → IsUnique st.replicas
    → Holds s most st.replicas (mark_restart_detected r now st).replicas
mark-Holds s most now r st u =
    rw (mark-replicas now r st) (restart-Holds s most r.id now st.replicas u)

found_length : (i : ℕ) (rs : List Replica) → is_some (find_in i rs) ≡ true → 1 ≤ length rs
found_length i [] h = absurd (ground arith)
found_length i (r ∷ rs) h = omega arith

pub upsert-size_own :
    (reg : ReplicaRegistry) (r : Replica) (s : String)
    → IsUnique reg
    → r.spec_id ≡ s
    → size_in s (upsert reg r)
      ≡ (if any (λ q. q.id == r.id) (replicas_of reg s) then size_in s reg else size_in s reg + 1)
unfolding upsert
upsert-size_own reg r s u e = ground (
  arith,
  eq_iff r.spec_id s,
  replicas_of-add (remove reg r.id).0 r s,
  length-append (replicas_of (remove reg r.id).0 s) (r ∷ []),
  ap length (replicas_of-remove reg r.id s (u r.id)),
  length-drop_from r.id (replicas_of reg s),
  any-find_in r.id (replicas_of reg s),
  found_length r.id (replicas_of reg s),
)

pub upsert-size_other :
    (reg : ReplicaRegistry) (r : Replica) (s : String)
    → (r.spec_id == s) ≡ false
    → size_in s (upsert reg r) ≤ size_in s reg
unfolding upsert
upsert-size_other reg r s d =
    ground (arith, replicas_of-add (remove reg r.id).0 r s, length-remove reg r.id s)
