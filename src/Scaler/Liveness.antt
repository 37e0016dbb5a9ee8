-- ===== src/Scaler/Liveness.antt =====
-- Reconciliation with the container backend (crates/ruscker-admin/src/scaler.rs,
-- `reconcile_backend_liveness`, `readopt_running_replica`). The backend's report and its answer to a
-- readiness probe are parameters; what the backend is asked to stop or to remove is recorded.
pub mod Adopted
pub mod Readopt
pub mod Capped
use ruscker.Prelude.{
  ℕ, ◌+◌, String, Bool, false, ◌&&◌, not, Option, none, some, List, [], ◌∷◌, ◌++◌, map, leb,
  if◌then◌else◌, is_some, unwrap_or, length, keep_if, any, find, string_key, nat_key, pair_key,
  ◌==◌,
}
use ruscker.Prelude.Assoc
use ruscker.Replica.{Replica, ReplicaState, ready, is_ready, is_stopped}
use ruscker.Registry.{replicas_of, upsert, all}
use ruscker.Spec.{Spec, kind, is_external, effective_max_replicas, effective_seats}
use ruscker.Scaler.{AppState, prune_dead_replica, mark_restart_detected}

pub data ReplicaLiveness : Type 0 where
  running missing stopped unknown : ReplicaLiveness

pub record ManagedContainer : Type 0 where
  pub id : String
  pub running : Bool
  pub finished_at : Option ℕ

pub record ReplicaLivenessReport : Type 0 where
  pub observations : List (ℕ × ReplicaLiveness)
  pub running : List Replica
  pub managed : List ManagedContainer

abbrev pub external_restart_grace : ℕ
external_restart_grace = 30000000000

-- The state of the pass: running replicas that are not matched yet, and what the backend is told.
pub record Reconciling : Type 0 where
  pub app : AppState
  pub running : List (ℕ × Replica)
  pub stops : List ℕ

-- `collect` into a hash map: a later entry replaces an earlier one.
abbrev pub by_id : List Replica → List (ℕ × Replica) → List (ℕ × Replica)
by_id [] m = m
by_id (r ∷ rs) m = by_id rs (Assoc.insert r.id r m)

abbrev pub observed_map :
    List (ℕ × ReplicaLiveness) → List (ℕ × ReplicaLiveness) → List (ℕ × ReplicaLiveness)
observed_map [] m = m
observed_map ((i, l) ∷ os) m = observed_map os (Assoc.insert i l m)

abbrev pub adopted : Spec → Replica → Replica
adopted spec r = record r {
  state = ready;
  sessions_active = 0;
  sessions_max = effective_seats spec;
}

abbrev pub spec_of : List Spec → String → Option Spec
spec_of specs id = find (λ spec. spec.id == id) specs

abbrev pub liveness_of : List (ℕ × ReplicaLiveness) → Reconciling → Replica → ReplicaLiveness
liveness_of observations s r =
    if is_some (Assoc.lookup r.id s.running)
    then running
    else unwrap_or (Assoc.lookup r.id observations) unknown

abbrev pub is_runnable : Spec → Bool
is_runnable spec = not (is_external (kind spec)) && is_some spec.container_image

module _ (now : ℕ) (becomes_ready : ℕ → Bool) where
  -- After a failed readiness wait.
  abbrev pub give_up : Bool → Replica → Reconciling → Reconciling
  give_up same_id_present r s = record s {
    app = if same_id_present then prune_dead_replica now r s.app else s.app;
    stops = s.stops ++ r.id ∷ [];
  }

  unfoldable pub readopt_running_replica : Spec → Replica → Reconciling → Reconciling
  readopt_running_replica spec r s =
      let pool = replicas_of s.app.replicas spec.id in
      let same_id_present = any (λ q. q.id == r.id) pool in
      if any (λ q. q.id == r.id && is_ready q.state) pool
      then s
      else if not same_id_present && leb (effective_max_replicas spec) (length pool)
      then record s { stops = s.stops ++ r.id ∷ [] }
      else if becomes_ready r.id
      then record s { app = record s.app { replicas = upsert s.app.replicas (adopted spec r) } }
      else give_up same_id_present r s

  abbrev pub readopt_known : Option Spec → Option Replica → Reconciling → Reconciling
  readopt_known (some spec) (some r) s = readopt_running_replica spec r s
  readopt_known (some spec) none s = s
  readopt_known none found s = s

  abbrev pub restart_expired : Replica → Bool
  restart_expired r = leb (r.started_at + external_restart_grace) now

  abbrev pub handle_running : List Spec → Replica → Reconciling → Reconciling
  handle_running specs r s =
      if is_stopped r.state
      then readopt_known (spec_of specs r.spec_id) (Assoc.lookup r.id s.running)
          (record s { running = Assoc.remove r.id s.running })
      else s

  abbrev pub handle_stopped : Replica → Reconciling → Reconciling
  handle_stopped r s =
      if not (is_stopped r.state)
      then record s { app = mark_restart_detected r now s.app }
      else if restart_expired r
      then record s { app = prune_dead_replica now r s.app; stops = s.stops ++ r.id ∷ [] }
      else s

  abbrev pub handle : List Spec → ReplicaLiveness → Replica → Reconciling → Reconciling
  handle specs running r s = handle_running specs r s
  handle specs unknown r s = s
  handle specs missing r s = record s { app = prune_dead_replica now r s.app }
  handle specs stopped r s = handle_stopped r s

  unfoldable pub reconcile_known :
      List Spec → List (ℕ × ReplicaLiveness) → List Replica → Reconciling → Reconciling
  unfolding readopt_running_replica
  reconcile_known specs observations [] s = s
  reconcile_known specs observations (r ∷ rs) s =
      reconcile_known specs observations rs (handle specs (liveness_of observations s r) r s)

  abbrev pub adopt : List Spec → Replica → Reconciling → Reconciling
  adopt specs r s = elim (spec_of specs r.spec_id) [
    | none ↦ s
    | some spec ↦ if is_runnable spec then readopt_running_replica spec r s else s
  ]

  unfoldable pub adopt_rest : List Spec → List (ℕ × Replica) → Reconciling → Reconciling
  unfolding readopt_running_replica
  adopt_rest specs [] s = s
  adopt_rest specs ((i, r) ∷ rest) s = adopt_rest specs rest (adopt specs r s)

  abbrev pub is_orphan : List Replica → ManagedContainer → Bool
  is_orphan registered c = elim c.finished_at [
    | none ↦ false
    | some t ↦
        not c.running
        && not (any (λ r. r.container_id == c.id) registered)
        && leb (t + external_restart_grace) now
  ]

  -- The state afterwards, and the stopped containers that are removed.
  unfoldable pub reconcile_backend_liveness :
      List Spec → List Replica → ReplicaLivenessReport → AppState → Reconciling × List String
  unfolding reconcile_known adopt_rest
  reconcile_backend_liveness specs snap report st =
      let started : Reconciling = record {
        app = st;
        running = by_id report.running [];
        stops = [];
      } in
      let known = reconcile_known specs (observed_map report.observations []) snap started in
      let done = adopt_rest specs known.running known in
      (done, map (λ c. c.id) (keep_if (is_orphan (snap ++ all done.app.replicas)) report.managed))
