-- ===== src/Scaler/Cleanup.antt =====
-- What the removal of a replica does to every table that knows it.
use ruscker.Prelude.{
  ℕ, ◌≡◌, inl, inr, false, none, some, arith, if◌then◌else◌, Option-cases, is_some, string_key,
  nat_key, pair_key, ◌==◌, same_refl,
}
use ruscker.Prelude.Assoc
use ruscker.Registry.{mark_restarting, find_mut}
use ruscker.Registry.Counting.{IsUnique}
use ruscker.Registry.Find.{find_mut-mark_restarting, find_mut-remove}
use ruscker.Sessions.{bound}
use ruscker.Sessions.Laws.{drop_replica-bound}
use ruscker.Sessions.Seats.{IsBalanced}
use ruscker.Scaler.{mark_restart_detected, AppState, cleanup_replica_state, Replica, drop_replica}

-- The tables of a state agree for a replica: what each of them says of it.
pub record SameAt (st : AppState) (next : AppState) (i : ℕ) : Type 0 where
  pub row : find_mut next.replicas i ≡ find_mut st.replicas i
  pub seats : bound i next.sessions ≡ bound i st.sessions
  pub sample : Assoc.lookup i next.metrics ≡ Assoc.lookup i st.metrics
  pub gauge : Assoc.lookup i next.inflight ≡ Assoc.lookup i st.inflight

-- No table knows the replica.
pub record Forgotten (st : AppState) (i : ℕ) : Type 0 where
  pub row : find_mut st.replicas i ≡ none
  pub seats : bound i st.sessions ≡ 0
  pub sample : Assoc.lookup i st.metrics ≡ none
  pub gauge : Assoc.lookup i st.inflight ≡ none

module _ (st : AppState) (rid : ℕ) (u : IsUnique st.replicas) where
  -- The cleanup of a replica leaves no trace of it in the registry, the session tracker, the
  -- metrics or the in-flight gauge. The registry has an id at most once.
  pub cleanup_replica_state-Forgotten : Forgotten (cleanup_replica_state rid st).0 rid
  unfolding cleanup_replica_state
  cleanup_replica_state-Forgotten = record {
    row = ground (arith, find_mut-remove rid rid st.replicas u);
    seats = ground (arith, drop_replica-bound st.sessions rid rid);
    sample = ground (arith, Assoc.lookup-remove rid rid st.metrics, same_refl rid);
    gauge = ground (arith, Assoc.lookup-remove rid rid st.inflight, same_refl rid);
  }

  -- The cleanup of a replica changes nothing that any of the tables says of another replica. The
  -- registry has an id at most once.
  pub cleanup_replica_state-SameAt :
      (i : ℕ) → (rid == i) ≡ false → SameAt st (cleanup_replica_state rid st).0 i
  unfolding cleanup_replica_state
  cleanup_replica_state-SameAt i d = record {
    row = ground (arith, find_mut-remove i rid st.replicas u);
    seats = ground (arith, drop_replica-bound st.sessions rid i);
    sample = ground (arith, Assoc.lookup-remove rid i st.metrics);
    gauge = ground (arith, Assoc.lookup-remove rid i st.inflight);
  }

  -- The cleanup of a replica keeps the seat accounting of the replicas that stay. The registry has
  -- an id at most once.
  pub cleanup_replica_state-IsBalanced :
      (pending : ℕ → ℕ)
      → IsBalanced st.replicas st.sessions pending
      → IsBalanced
          (cleanup_replica_state rid st).0.replicas
          (cleanup_replica_state rid st).0.sessions
          pending
  unfolding cleanup_replica_state
  cleanup_replica_state-IsBalanced pending b i r h =
      ground
        (arith, b i r, find_mut-remove i rid st.replicas u, drop_replica-bound st.sessions rid i)

mark_restart-parts :
    (r : Replica) (at : ℕ) (st : AppState)
    → (mark_restart_detected r at st).replicas ≡ (mark_restarting st.replicas r.id at).0
unfolding mark_restart_detected
mark_restart-parts r at st = ground arith

mark_restart-sessions :
    (r : Replica) (at : ℕ) (st : AppState)
    → (mark_restart_detected r at st).sessions ≡ (
        if is_some (find_mut st.replicas r.id)
        then (drop_replica st.sessions r.id).0
        else st.sessions)
unfolding mark_restart_detected mark_restarting
mark_restart-sessions r at st = ground arith

-- A detected restart keeps the seat accounting: the replica is stopped with no session and its
-- sessions are dropped, if no request holds a seat of it that is not registered yet.
pub mark_restart_detected-IsBalanced :
    (r : Replica) (at : ℕ) (st : AppState) (pending : ℕ → ℕ)
    → pending r.id ≡ 0
    → IsBalanced st.replicas st.sessions pending
    → IsBalanced
        (mark_restart_detected r at st).replicas
        (mark_restart_detected r at st).sessions
        pending
mark_restart_detected-IsBalanced r at st pending z b i q h =
    let found : find_mut (mark_restarting st.replicas r.id at).0 i ≡ some q =
      rw (mark_restart-parts r at st) at h in
    elim (Option-cases (find_mut st.replicas i)) [
      | inl gone ↦ absurd (ground (arith, find_mut-mark_restarting i r.id at st.replicas))
      | inr (x, e) ↦ ground (
        arith,
        b i x e,
        find_mut-mark_restarting i r.id at st.replicas,
        mark_restart-sessions r at st,
        drop_replica-bound st.sessions r.id i,
      )
    ]
