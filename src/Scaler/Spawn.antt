-- ===== src/Scaler/Spawn.antt =====
-- One serialized spawn (crates/ruscker-admin/src/scaler.rs, `spawn_one`). The spec's mutex makes the
-- whole of it one step. What building the request needs of other services (credentials, the
-- environment) is a parameter, and the backend's answers are a list that the calls consume.
pub mod Capacity
pub mod Coalesce
use ruscker.Prelude.{
  Bool, true, false, ◌&&◌, ◌||◌, Option, none, some, List, [], ◌∷◌, leb, if◌then◌else◌, is_some,
  length, any, nat_key, string_key, pair_key,
}
use ruscker.Replica.{Replica, is_starting, is_accepting}
use ruscker.Registry.{ReplicaRegistry, replicas_of, add}
use ruscker.Spec.{Spec, effective_max_replicas, effective_seats}
use ruscker.Scaler.{AppState}

pub data SpawnIntent : Type 0 where
  add_capacity ensure_available : SpawnIntent

-- The state, and what the next calls of the backend's `spawn_request` return: `none` for an error,
-- also after the end of the list.
pub record World : Type 0 where
  pub app : AppState
  pub outcomes : List (Option Replica)

abbrev pub is_available : Replica → Bool
is_available r = is_starting r.state || is_accepting r

abbrev pub coalesces : SpawnIntent → List Replica → Bool
coalesces add_capacity rs = false
coalesces ensure_available rs = any is_available rs

abbrev pub publish_spawned : Spec → Replica → AppState → AppState
publish_spawned spec r st = record st {
  replicas = add st.replicas (record r { sessions_max = effective_seats spec });
}

abbrev pub spawn_outcome : Spec → AppState → List (Option Replica) → World × Bool
spawn_outcome spec st [] = (record { app = st; outcomes = [] }, false)
spawn_outcome spec st (none ∷ os) = (record { app = st; outcomes = os }, false)
spawn_outcome spec st (some r ∷ os) =
    (record { app = publish_spawned spec r st; outcomes = os }, true)

module _ (prepared : Spec → Bool) where
  unfoldable pub spawn_one : Spec → SpawnIntent → World → World × Bool
  spawn_one spec intent w =
      let rs = replicas_of w.app.replicas spec.id in
      if coalesces intent rs
      then (w, true)
      else if leb (effective_max_replicas spec) (length rs)
      then (w, true)
      else if is_some spec.container_image && prepared spec
      then spawn_outcome spec w.app w.outcomes
      else (w, false)
