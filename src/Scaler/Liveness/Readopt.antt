-- ===== src/Scaler/Liveness/Readopt.antt =====
-- One re-adoption and the replica cap.
use ruscker.Prelude.{
  ℕ, ◌≤◌, max, String, ◌≡◌, subst, inl, inr, Bool, true, false, ◌&&◌, not, arith, eq_iff, leb,
  Bool-cases, length, any, string_key, nat_key, pair_key, ◌==◌,
}
use ruscker.Replica.{Replica, is_ready}
use ruscker.Registry.{ReplicaRegistry, replicas_of, upsert}
use ruscker.Registry.Counting.{IsUnique, upsert-IsUnique}
use ruscker.Spec.{Spec, effective_max_replicas}
use ruscker.Scaler.Liveness.{Reconciling, adopted, give_up, readopt_running_replica}
use ruscker.Scaler.Liveness.Adopted.{
  size_in, Holds, prune-Holds, upsert-size_own, upsert-size_other,
}

pub Holds-refl :
    (s : String) (most : ℕ) (reg : ReplicaRegistry) → IsUnique reg → Holds s most reg reg
Holds-refl s most reg u = (u, omega arith)

pub Holds-trans :
    (s : String) (most : ℕ) (a b c : ReplicaRegistry)
    → Holds s most a b
    → Holds s most b c
    → Holds s most a c
Holds-trans s most a b c h k = (k.0, omega (arith, h.1, k.1))

module _ (now : ℕ) (becomes_ready : ℕ → Bool) (s : String) (most : ℕ) where
  upsert-Holds :
      (spec : Spec) (r : Replica) (reg : ReplicaRegistry)
      → IsUnique reg
      → r.spec_id ≡ spec.id
      → ((spec.id ≡ s) → effective_max_replicas spec ≤ most)
      → (not (any (λ q. q.id == r.id) (replicas_of reg spec.id))
          && leb (effective_max_replicas spec) (length (replicas_of reg spec.id)))
        ≡ false
      → Holds s most reg (upsert reg (adopted spec r))
  upsert-Holds spec r reg u e c room =
      let fresh = adopted spec r in
      elim (Bool-cases (spec.id == s)) [
        | inl own ↦
            let same : spec.id ≡ s = (eq_iff spec.id s).0 own in
            (
              upsert-IsUnique reg fresh u,
              subst (λ (i : String). size_in i (upsert reg fresh) ≤ max (size_in i reg) most) same
                  (ground (arith, upsert-size_own reg fresh spec.id u e, c same)),
            )
        | inr other ↦ (
          upsert-IsUnique reg fresh u,
          ground (arith, upsert-size_other reg fresh s (rw e other)),
        )
      ]

  give_up-Holds :
      (present : Bool) (r : Replica) (st : Reconciling)
      → IsUnique st.app.replicas
      → Holds s most st.app.replicas (give_up now becomes_ready present r st).app.replicas
  give_up-Holds true r st u = prune-Holds s most now r st.app u
  give_up-Holds false r st u = Holds-refl s most st.app.replicas u

  pub readopt-Holds :
      (spec : Spec) (r : Replica) (st : Reconciling)
      → IsUnique st.app.replicas
      → r.spec_id ≡ spec.id
      → ((spec.id ≡ s) → effective_max_replicas spec ≤ most)
      → Holds s most st.app.replicas
          (readopt_running_replica now becomes_ready spec r st).app.replicas
  unfolding readopt_running_replica
  readopt-Holds spec r st u e c =
      let pool = replicas_of st.app.replicas spec.id in
      elim (Bool-cases (any (λ q. q.id == r.id && is_ready q.state) pool)) [
        | inl a ↦ rw (a, readopt_running_replica) (Holds-refl s most st.app.replicas u)
        | inr a ↦
            elim (Bool-cases (
              not (any (λ q. q.id == r.id) pool)
              && leb (effective_max_replicas spec) (length pool))) [
                | inl full ↦
                    rw (a, readopt_running_replica)
                      (rw (full, readopt_running_replica) (Holds-refl s most st.app.replicas u))
                | inr room ↦ elim (Bool-cases (becomes_ready r.id)) [
                  | inl k ↦
                      rw (a, readopt_running_replica)
                        (rw (room, readopt_running_replica)
                          (rw (k, readopt_running_replica)
                            (upsert-Holds spec r st.app.replicas u e c room)))
                  | inr k ↦
                      rw (a, readopt_running_replica)
                        (rw (room, readopt_running_replica)
                          (rw (k, readopt_running_replica)
                            (give_up-Holds (any (λ q. q.id == r.id) pool) r st u)))
                ]
              ]
      ]
