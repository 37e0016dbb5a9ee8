-- ===== src/Interleaved/Refined.antt =====
-- The code's own functions are runs of the relation.
use ruscker.Prelude.{
  ℕ, ◌≡◌, refl, inl, inr, Bool, true, false, ◌&&◌, not, Option, none, some, List, [], ◌∷◌,
  Bool-cases, is_some, any, string_key, nat_key, pair_key, ◌==◌, list_key,
}
use ruscker.Scaler.{AppState}
use ruscker.Scaler.Spawn.{World, SpawnIntent, spawn_one, spawn_outcome, coalesces}
use ruscker.Spec.{Spec}
use ruscker.Routing.{Proxy}
use ruscker.Replica.{Replica, is_ready}
use ruscker.Registry.{replicas_of}
use ruscker.Routing.Growth.{IsFresh}
use ruscker.Scaler.Liveness.{Reconciling, give_up, readopt_running_replica}
use ruscker.Scaler.Liveness.Adopted.{prune-replicas}
use ruscker.Interleaved.{
  FreshRun, extend, standing, free, Shared, at_cap, is_known, spawn_begins, spawn_ends, spawn_fails,
  readopt_begins, readopt_ends, readopt_fails, removed,
}

abbrev pub unlocked : Proxy → Shared
unlocked p = record { proxy = p; turn = free }

-- The registry as the scaler's tasks find and leave it.
abbrev pub scaled : ℕ → AppState → Shared
scaled ticket st = unlocked (record { registry = st.replicas; ticket = ticket })

outcome-Run :
    (spec : Spec) (ticket : ℕ) (st : AppState) (os : List (Option Replica))
    → ((fresh : Replica) (rest : List (Option Replica))
        → os ≡ some fresh ∷ rest
        → IsFresh spec st.replicas fresh)
    → at_cap spec (replicas_of st.replicas spec.id) ≡ false
    → FreshRun spec (scaled ticket st) (scaled ticket (spawn_outcome spec st os).0.app) 0
outcome-Run spec ticket st [] f e =
    extend (extend standing (spawn_begins _ e) tt) (spawn_fails _) tt
outcome-Run spec ticket st (none ∷ os) f e =
    extend (extend standing (spawn_begins _ e) tt) (spawn_fails _) tt
outcome-Run spec ticket st (some r ∷ os) f e =
    extend (extend standing (spawn_begins _ e) tt) (spawn_ends _ r) (f r os refl)

-- One `spawn_one` of the scaler, with either intent and whatever the backend answers, is a run of
-- the critical sections that never spawns at the cap. Each replica that the run adds is new in it,
-- if the one that the backend returns is new.
pub spawn_one-Run :
    (prepared : Spec → Bool) (spec : Spec) (intent : SpawnIntent) (ticket : ℕ) (w : World)
    → ((fresh : Replica) (rest : List (Option Replica))
        → w.outcomes ≡ some fresh ∷ rest
        → IsFresh spec w.app.replicas fresh)
    → FreshRun spec (scaled ticket w.app) (scaled ticket (spawn_one prepared spec intent w).0.app) 0
unfolding spawn_one
spawn_one-Run prepared spec intent ticket w f =
    let rs = replicas_of w.app.replicas spec.id in
    elim (Bool-cases (coalesces intent rs)) [
      | inl e ↦ rw (e, spawn_one) standing
      | inr e ↦ elim (Bool-cases (at_cap spec rs)) [
        | inl full ↦ rw (e, spawn_one) (rw (full, spawn_one) standing)
        | inr room ↦
            rw (e, spawn_one)
              (rw (room, spawn_one)
                (elim (Bool-cases (is_some spec.container_image && prepared spec)) [
                  | inl i ↦ rw (i, spawn_one) (outcome-Run spec ticket w.app w.outcomes f room)
                  | inr i ↦ rw (i, spawn_one) standing
                ]))
      ]
    ]

module _ (now : ℕ) (becomes_ready : ℕ → Bool) (spec : Spec) (ticket : ℕ) (r : Replica) where
  given_up-Run :
      (present : Bool) (st : Reconciling)
      → r.spec_id ≡ spec.id
      → (not (is_known r (replicas_of st.app.replicas spec.id))
          && at_cap spec (replicas_of st.app.replicas spec.id))
        ≡ false
      → FreshRun spec
          (scaled ticket st.app)
          (scaled ticket (give_up now becomes_ready present r st).app)
          0
  given_up-Run true st own room = rw (prune-replicas now r st.app) (
      extend (extend (extend standing (readopt_begins _ r own room) tt) (removed _ r.id) tt)
        (readopt_fails _ r) tt)
  given_up-Run false st own room =
      extend (extend standing (readopt_begins _ r own room) tt) (readopt_fails _ r) tt

  -- A re-adoption is a run too, and never goes over the cap.
  pub readopt_running_replica-Run :
      (st : Reconciling)
      → r.spec_id ≡ spec.id
      → FreshRun spec
          (scaled ticket st.app)
          (scaled ticket (readopt_running_replica now becomes_ready spec r st).app)
          0
  unfolding readopt_running_replica
  readopt_running_replica-Run st own =
      let pool = replicas_of st.app.replicas spec.id in
      elim (Bool-cases (any (λ q. q.id == r.id && is_ready q.state) pool)) [
        | inl a ↦ rw (a, readopt_running_replica) standing
        | inr a ↦ elim (Bool-cases (not (is_known r pool) && at_cap spec pool)) [
          | inl full ↦ rw (a, readopt_running_replica) (rw (full, readopt_running_replica) standing)
          | inr room ↦
              rw (a, readopt_running_replica)
                (rw (room, readopt_running_replica)
                  (elim (Bool-cases (becomes_ready r.id)) [
                    | inl k ↦
                        rw (k, readopt_running_replica)
                          (extend (extend standing (readopt_begins _ r own room) tt)
                            (readopt_ends _ r own) tt)
                    | inr k ↦
                        rw (k, readopt_running_replica) (given_up-Run (is_known r pool) st own room)
                  ]))
        ]
      ]
