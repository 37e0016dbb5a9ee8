-- ===== src/Scaler/Liveness/Capped.antt =====
-- A whole reconciliation never takes a pool over its cap.
use ruscker.Prelude.{
  ℕ, ◌≤◌, max, String, ◌≡◌, refl, sym, ◌∙◌, subst, inl, inr, Bool, Option, none, some, List, [],
  ◌∷◌, arith, eq_iff, Bool-cases, Option-cases, eq_of_some, length, find-mem, string_key, nat_key,
  pair_key, ◌==◌,
}
use ruscker.Prelude.Assoc
use ruscker.Replica.{Replica, is_stopped}
use ruscker.Registry.{ReplicaRegistry, replicas_of}
use ruscker.Registry.Counting.{IsUnique}
use ruscker.Spec.{Spec, effective_max_replicas}
use ruscker.Scaler.{AppState}
use ruscker.Scaler.Liveness.{
  Reconciling, ReplicaLiveness, running, missing, stopped, unknown, readopt_running_replica,
  spec_of, readopt_known, handle, handle_running, handle_stopped, liveness_of, reconcile_known,
  adopt, adopt_rest, is_runnable, reconcile_backend_liveness, ReplicaLivenessReport,
  restart_expired, by_id, observed_map,
}
use ruscker.Scaler.Liveness.Adopted.{Holds, prune-Holds, mark-Holds}
use ruscker.Scaler.Liveness.Readopt.{Holds-refl, Holds-trans, readopt-Holds}

-- The backend reports a replica of the snapshot under the spec that the registry has for it.
abbrev pub Agrees : List (ℕ × Replica) → List Replica → Type 0
Agrees found [] = Unit {0}
Agrees found (r ∷ rs) =
    ((q : Replica) → Assoc.lookup r.id found ≡ some q → q.spec_id ≡ r.spec_id) × Agrees found rs

remove-Agrees :
    (i : ℕ) (found : List (ℕ × Replica)) (rs : List Replica)
    → Agrees found rs
    → Agrees (Assoc.remove i found) rs
remove-Agrees i found [] h = tt
remove-Agrees i found (r ∷ rs) h = (
  (λ q e. h.0 q (ground (arith, Assoc.lookup-remove i r.id found))),
  remove-Agrees i found rs h.1,
)

module _ (now : ℕ) (becomes_ready : ℕ → Bool) (specs : List Spec) (target : Spec) (s : String)
    (known : spec_of specs s ≡ some target) where
  abbrev Within : ReplicaRegistry → ReplicaRegistry → Type 0
  Within reg next = Holds s (effective_max_replicas target) reg next

  found-lem :
      (i : String) (spec : Spec)
      → spec_of specs i ≡ some spec
      → (i ≡ spec.id)
        × ((spec.id ≡ s) → effective_max_replicas spec ≤ effective_max_replicas target)
  found-lem i spec e =
      let (m, t) = find-mem (λ (x : Spec). x.id == i) specs spec e in
      let named : spec.id ≡ i = (eq_iff spec.id i).0 t in
      (
        sym named,
        λ h.
            let at_s : spec_of specs s ≡ some spec =
              subst (λ (j : String). spec_of specs j ≡ some spec) (sym named ∙ h) e in
            let same : spec ≡ target = eq_of_some spec target (sym at_s ∙ known) in
            subst (λ (x : Spec). effective_max_replicas spec ≤ effective_max_replicas x) same
              (omega arith),
      )

  readopt_known-Within :
      (r : Replica) (found : Option Spec) (o : Option Replica) (st : Reconciling)
      → IsUnique st.app.replicas
      → spec_of specs r.spec_id ≡ found
      → ((q : Replica) → o ≡ some q → q.spec_id ≡ r.spec_id)
      → Within st.app.replicas (readopt_known now becomes_ready found o st).app.replicas
  readopt_known-Within r (some spec) (some q) st u e a =
      let (i, c) = found-lem r.spec_id spec e in
      readopt-Holds now becomes_ready s (effective_max_replicas target) spec q st u (a q refl ∙ i) c
  readopt_known-Within r (some spec) none st u e a = Holds-refl s _ st.app.replicas u
  readopt_known-Within r none found st u e a = Holds-refl s _ st.app.replicas u

  handle_running-Within :
      (r : Replica) (st : Reconciling)
      → IsUnique st.app.replicas
      → ((q : Replica) → Assoc.lookup r.id st.running ≡ some q → q.spec_id ≡ r.spec_id)
      → Within st.app.replicas (handle_running now becomes_ready specs r st).app.replicas
  handle_running-Within r st u a = elim (Bool-cases (is_stopped r.state)) [
    | inl e ↦
        rw (e, handle_running)
          (readopt_known-Within r (spec_of specs r.spec_id) (Assoc.lookup r.id st.running)
            (record st { running = Assoc.remove r.id st.running }) u refl a)
    | inr e ↦ rw (e, handle_running) (Holds-refl s _ st.app.replicas u)
  ]

  handle_stopped-Within :
      (r : Replica) (st : Reconciling)
      → IsUnique st.app.replicas
      → Within st.app.replicas (handle_stopped now becomes_ready r st).app.replicas
  handle_stopped-Within r st u = elim (Bool-cases (is_stopped r.state)) [
    | inr e ↦ rw (e, handle_stopped) (mark-Holds s _ now r st.app u)
    | inl e ↦ elim (Bool-cases (restart_expired now becomes_ready r)) [
      | inl x ↦ rw (e, handle_stopped) (rw (x, handle_stopped) (prune-Holds s _ now r st.app u))
      | inr x ↦ rw (e, handle_stopped) (rw (x, handle_stopped) (Holds-refl s _ st.app.replicas u))
    ]
  ]

  handle-Within :
      (l : ReplicaLiveness) (r : Replica) (st : Reconciling)
      → IsUnique st.app.replicas
      → ((q : Replica) → Assoc.lookup r.id st.running ≡ some q → q.spec_id ≡ r.spec_id)
      → Within st.app.replicas (handle now becomes_ready specs l r st).app.replicas
  handle-Within running r st u a = handle_running-Within r st u a
  handle-Within unknown r st u a = Holds-refl s _ st.app.replicas u
  handle-Within missing r st u a = prune-Holds s _ now r st.app u
  handle-Within stopped r st u a = handle_stopped-Within r st u

  -- What is left of the running replicas.
  readopt_known-running :
      (found : Option Spec) (o : Option Replica) (st : Reconciling)
      → (readopt_known now becomes_ready found o st).running ≡ st.running
  unfolding readopt_running_replica
  readopt_known-running (some spec) (some q) st = ground arith
  readopt_known-running (some spec) none st = refl
  readopt_known-running none o st = refl

  handle-Agrees :
      (l : ReplicaLiveness) (r : Replica) (st : Reconciling) (rs : List Replica)
      → Agrees st.running rs
      → Agrees (handle now becomes_ready specs l r st).running rs
  handle-Agrees running r st rs a = elim (Bool-cases (is_stopped r.state)) [
    | inr e ↦ rw (e, handle) a
    | inl e ↦
        rw (e, handle)
          (rw
            (readopt_known-running (spec_of specs r.spec_id) (Assoc.lookup r.id st.running)
              (record st { running = Assoc.remove r.id st.running }))
            (remove-Agrees r.id st.running rs a))
  ]
  handle-Agrees unknown r st rs a = a
  handle-Agrees missing r st rs a = a
  handle-Agrees stopped r st rs a = subst (λ (m : List (ℕ × Replica)). Agrees m rs) (ground arith) a

  reconcile_known-Within :
      (observations : List (ℕ × ReplicaLiveness)) (rs : List Replica) (st : Reconciling)
      → IsUnique st.app.replicas
      → Agrees st.running rs
      → Within st.app.replicas
          (reconcile_known now becomes_ready specs observations rs st).app.replicas
  unfolding reconcile_known
  reconcile_known-Within observations [] st u a = Holds-refl s _ st.app.replicas u
  reconcile_known-Within observations (r ∷ rs) st u a =
      let l = liveness_of observations st r in
      let next = handle now becomes_ready specs l r st in
      let h = handle-Within l r st u a.0 in
      Holds-trans s _ st.app.replicas next.app.replicas _ h
        (reconcile_known-Within observations rs next h.0 (handle-Agrees l r st rs a.1))

  adopt-Within :
      (r : Replica) (st : Reconciling)
      → IsUnique st.app.replicas
      → Within st.app.replicas (adopt now becomes_ready specs r st).app.replicas
  adopt-Within r st u = elim (Option-cases (spec_of specs r.spec_id)) [
    | inl e ↦ rw (e, adopt) (Holds-refl s _ st.app.replicas u)
    | inr (spec, e) ↦ elim (Bool-cases (is_runnable spec)) [
      | inl k ↦
          let (i, c) = found-lem r.spec_id spec e in
          rw (e, adopt)
            (rw (k, adopt)
              (readopt-Holds now becomes_ready s (effective_max_replicas target) spec r st u i c))
      | inr k ↦ rw (e, adopt) (rw (k, adopt) (Holds-refl s _ st.app.replicas u))
    ]
  ]

  adopt_rest-Within :
      (rest : List (ℕ × Replica)) (st : Reconciling)
      → IsUnique st.app.replicas
      → Within st.app.replicas (adopt_rest now becomes_ready specs rest st).app.replicas
  unfolding adopt_rest
  adopt_rest-Within [] st u = Holds-refl s _ st.app.replicas u
  adopt_rest-Within ((i, r) ∷ rest) st u =
      let next = adopt now becomes_ready specs r st in
      let h = adopt-Within r st u in
      Holds-trans s _ st.app.replicas next.app.replicas _ h (adopt_rest-Within rest next h.0)

-- Reconciling with the backend keeps the replica ids distinct and never takes the pool of a spec
-- of the catalog over its cap: afterwards the pool is no larger than the cap, or than it was
-- before. The registry's ids are distinct at the start, and the backend reports a replica of the
-- snapshot under its own spec.
pub reconcile_backend_liveness-le-max :
    (now : ℕ) (becomes_ready : ℕ → Bool) (specs : List Spec) (spec : Spec) (snap : List Replica)
    (report : ReplicaLivenessReport) (st : AppState)
    → spec_of specs spec.id ≡ some spec
    → IsUnique st.replicas
    → Agrees (by_id report.running []) snap
    → let done = (reconcile_backend_liveness now becomes_ready specs snap report st).0.app in
      IsUnique done.replicas
      × (length (replicas_of done.replicas spec.id)
          ≤ max (length (replicas_of st.replicas spec.id)) (effective_max_replicas spec))
unfolding reconcile_backend_liveness
reconcile_backend_liveness-le-max now becomes_ready specs spec snap report st known u a =
    let started : Reconciling = record {
      app = st;
      running = by_id report.running [];
      stops = [];
    } in
    let after =
      reconcile_known now becomes_ready specs (observed_map report.observations []) snap started in
    let h =
      reconcile_known-Within now becomes_ready specs spec spec.id known
        (observed_map report.observations []) snap started u a in
    let k = adopt_rest-Within now becomes_ready specs spec spec.id known after.running after h.0 in
    Holds-trans spec.id _ st.replicas after.app.replicas _ h k
