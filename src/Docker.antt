-- ===== src/Docker.antt =====
-- What the local Docker backend decides without asking the daemon
-- (crates/ruscker-docker/src/lib.rs): states, events, local liveness, and the registry of a pull.
pub mod Registries
use ruscker.Prelude.{
  ℕ, zero, suc, String, Bool, ◌&&◌, ◌||◌, not, Option, none, some, List, [], ◌∷◌, map,
  if◌then◌else◌, unwrap_or, length, any, find, string_key, nat_key, pair_key, ◌==◌, list_key,
}
use mathlib.Core.List.{reverse}
use ruscker.Prelude.Text.{Text, codes, trim, strip_end, before, lacks, is_empty}
use ruscker.Replica.{Replica, ReplicaState, starting, ready, draining, stopped}
use ruscker.Hosts.{ReplicaLivenessQuery}
use ruscker.Scaler.Liveness.{ReplicaLiveness, ManagedContainer, ReplicaLivenessReport}

pub data ContainerSummaryState : Type 0 where
  created running paused restarting exited removing dead other_state : ContainerSummaryState

abbrev pub state_from_enum : Option ContainerSummaryState → ReplicaState
state_from_enum none = starting
state_from_enum (some created) = starting
state_from_enum (some running) = ready
state_from_enum (some paused) = draining
state_from_enum (some restarting) = starting
state_from_enum (some exited) = stopped
state_from_enum (some removing) = stopped
state_from_enum (some dead) = stopped
state_from_enum (some other_state) = starting

pub data ContainerEventKind : Type 0 where
  start die stop destroy other : ContainerEventKind

abbrev pub event_kind_of : String → ContainerEventKind
event_kind_of action =
    if action == "start"
    then start
    else if action == "die" || action == "oom"
    then die
    else if action == "stop" || action == "kill"
    then stop
    else if action == "destroy"
    then destroy
    else other

abbrev pub event_kind_from_action : Option String → ContainerEventKind
event_kind_from_action (some action) = event_kind_of action
event_kind_from_action none = other

abbrev local_state : Option ManagedContainer → ReplicaLiveness
local_state (some c) = if c.running then ReplicaLiveness.running else ReplicaLiveness.stopped
local_state none = ReplicaLiveness.missing

abbrev pub observe_local : List ManagedContainer → ReplicaLivenessQuery → ℕ × ReplicaLiveness
observe_local managed query =
    (query.replica_id, local_state (find (λ c. c.id == query.container_id) managed))

unfoldable pub classify_local_liveness :
    List ReplicaLivenessQuery → List ManagedContainer → List Replica → ReplicaLivenessReport
classify_local_liveness known managed replicas = record {
  observations = map (observe_local managed) known;
  running = replicas;
  managed = managed;
}

abbrev pub docker_hub_registry : Text
docker_hub_registry = codes "https://index.docker.io/v1/"

abbrev pub strip_prefix : Text → Text → Option Text
strip_prefix [] s = some s
strip_prefix (p ∷ ps) [] = none
strip_prefix (p ∷ ps) (c ∷ s) = if c == p then strip_prefix ps s else none

-- `trim_start_matches`: the prefix as often as it stands there, at most as often as the fuel says.
unfoldable pub trim_start_from : ℕ → Text → Text → Text
trim_start_from zero prefix s = s
trim_start_from (suc n) prefix s = elim (strip_prefix prefix s) [
  | none ↦ s
  | some rest ↦ trim_start_from n prefix rest
]

-- Every prefix is a character at least.
abbrev pub trim_start_matches : Text → Text → Text
trim_start_matches prefix s = trim_start_from (length s) prefix s

abbrev pub trim_end_matches : Text → Text → Text
trim_end_matches suffix s = reverse (trim_start_matches (reverse suffix) (reverse s))

abbrev pub hub_aliases : List Text
hub_aliases =
    codes "docker.io"
    ∷ codes "index.docker.io"
    ∷ codes "registry-1.docker.io"
    ∷ codes "hub.docker.com"
    ∷ codes "registry.hub.docker.com"
    ∷ []

abbrev pub without_slash : Text → Text
without_slash s = strip_end (λ c. c == b'/') s

unfoldable pub bare_address : Text → Text
unfolding trim_start_from
bare_address a = without_slash (
    trim_end_matches (codes "/v1") (
      without_slash
        (trim_start_matches (codes "http://") (trim_start_matches (codes "https://") a))))

abbrev pub is_hub : Text → Bool
is_hub a = any (λ h. h == bare_address a) hub_aliases

-- Of an address that is trimmed already.
abbrev pub canonical_trimmed : Text → Text
canonical_trimmed a =
    if is_empty a then docker_hub_registry else if is_hub a then docker_hub_registry else a

-- It never is `none`.
unfoldable pub canonical_server_address : Option Text → Option Text
unfolding bare_address
canonical_server_address none = some docker_hub_registry
canonical_server_address (some addr) = some (canonical_trimmed (trim addr))

pub record RegistryCredentials : Type 0 where
  pub username : Text
  pub password : Text
  pub server_address : Option Text
  pub credential_name : Option Text

pub record PullLogContext : Type 0 where
  pub auth_mode : Text
  pub credential : Text
  pub registry : Text
  pub username : Text

abbrev pub looks_like_host : Text → Bool
looks_like_host first =
    first == codes "localhost" || not (lacks b'.' first) || not (lacks b':' first)

unfoldable pub registry_from_image : Text → Text
unfolding canonical_server_address
registry_from_image image =
    let first = before b'/' image in
    if not (lacks b'/' image) && looks_like_host first
    then unwrap_or (canonical_server_address (some first)) first
    else docker_hub_registry

unfoldable pub pull_log_context : Text → Option RegistryCredentials → PullLogContext
unfolding canonical_server_address registry_from_image
pull_log_context image (some creds) = record {
  auth_mode = codes "authenticated";
  credential = unwrap_or creds.credential_name (codes "inline");
  registry = unwrap_or (canonical_server_address creds.server_address) docker_hub_registry;
  username = creds.username;
}
pull_log_context image none = record {
  auth_mode = codes "anonymous";
  credential = codes "none";
  registry = registry_from_image image;
  username = codes "none";
}
