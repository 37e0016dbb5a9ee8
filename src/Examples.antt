-- ===== src/Examples.antt =====
-- A small catalog, registry and tracker that the examples run on.
mod Requests
mod Visits
mod Scaling
mod Services
mod Limited
mod Recovery
mod Placed
mod Forwarded
mod Administered
mod Measured
mod Interleaving
mod Signing
mod Cataloged
use ruscker.Prelude.{ℕ, none, some, List, [], ◌∷◌, string_key, nat_key, pair_key}
use ruscker.Replica.{Replica, ReplicaState, ready, starting, stopped, draining, failed}
use ruscker.Registry.{ReplicaRegistry}
use ruscker.Sessions.{Store}
use ruscker.Spec.{Spec}
use ruscker.Routing.{Proxy}

-- A Shiny app of two seats per container, one to three replicas.
abbrev pub portal : Spec
portal = record {
  id = "portal";
  container_image = some "portal:1";
  container_port = none;
  platform = none;
  seats_per_container = some 2;
  max_lifetime = some 60;
  container_lifetime = none;
  heartbeat_timeout = none;
  container_wait_time = none;
  access_groups = some ("staff" ∷ []);
  access_users = none;
  require_mfa = none;
  mfa_validity_days = none;
  kind_override = none;
  api = none;
  min_replicas = some 1;
  max_replicas = some 3;
  scale_up_threshold = none;
  scale_down_threshold = none;
  scale_down_grace = none;
  scale_down_cooldown_secs = some 30;
  drain_timeout = none;
  routing_strategy = none;
  concurrent_requests_per_replica = none;
  placement = none;
  anti_affinity = none;
}

-- The same app with room for one replica only.
abbrev pub booth : Spec
booth = record portal { max_replicas = some 1 }

abbrev pub replica : ℕ → ReplicaState → ℕ → Replica
replica i state active = record {
  id = i;
  spec_id = "portal";
  container_id = "c";
  upstream = "10.0.0.1:3838";
  state = state;
  started_at = 0;
  sessions_active = active;
  sessions_max = 2;
  host = none;
}

abbrev pub registry : List Replica → ReplicaRegistry
registry rs = record { by_spec = ("portal", rs) ∷ [] }

-- One seat is free on replica 1, none on replica 2.
abbrev pub busy : List Replica
busy = replica 1 ready 1 ∷ replica 2 ready 2 ∷ []

abbrev pub visitors : Store
visitors =
    (10, record { spec_id = "portal"; replica_id = 1; last_seen = 0 })
    ∷ (20, record { spec_id = "portal"; replica_id = 2; last_seen = 5000000 })
    ∷ (21, record { spec_id = "portal"; replica_id = 2; last_seen = 7000000 })
    ∷ []

abbrev pub proxy_of : List Replica → Proxy
proxy_of rs = record { registry = registry rs; ticket = 0 }

abbrev pub no_seat : ℕ → ℕ
no_seat i = 0

abbrev pub no_load : ℕ → ℕ
no_load i = 0
