-- ===== src/Examples/Placed.antt =====
-- Examples of three container hosts, one of which does not answer, and of the registries of a pull.
use ruscker.Prelude.{
  ℕ, String, ◌≡◌, refl, Bool, true, false, ◌&&◌, not, Option, none, some, List, [], ◌∷◌, Memᴰ,
  arith, any, string_key, nat_key, pair_key, list_key,
}
use ruscker.Spec.{spread}
use ruscker.Scaler.Liveness.{missing}
use ruscker.Hosts.{
  HostLoad, has_room, number, eligible, choose_host, ReplicaLivenessQuery, Reported,
  classify_multihost_liveness,
}
use ruscker.Prelude.Text.{codes, is_whitespace}
use ruscker.Docker.{
  RegistryCredentials, canonical_server_address, pull_log_context, registry_from_image,
  bare_address, trim_start_from,
}
use ruscker.Hosts.Chosen.{choose_host-lem}
use ruscker.Hosts.Unanswered.{IsGone, classify_multihost_liveness-missing}

abbrev load : ℕ → Bool → HostLoad
load n b = record { count = n; max_containers = some 4; weight = 1; runs_spec = b }

-- The first host is full; the second has the least load but runs the spec already.
abbrev loads : List HostLoad
loads = load 4 false ∷ load 1 true ∷ load 3 false ∷ []

chosen : choose_host loads spread true ≡ some 2
unfolding choose_host
chosen = ground arith

choose_host-lem_example :
    (h : HostLoad) × Memᴰ (2, h) (number 0 loads)
    × (has_room h ≡ true)
    × ((true && h.runs_spec && any (λ c. not c.1.runs_spec) (eligible loads)) ≡ false)
choose_host-lem_example = choose_host-lem loads spread true 2 chosen

abbrev query : ℕ → String → Option String → ReplicaLivenessQuery
query i c h = record { replica_id = i; container_id = c; host = h }

-- Replica 1 is gone from host "a"; replica 2 is on "b", which does not answer.
abbrev known : List ReplicaLivenessQuery
known = query 1 "c1" (some "a") ∷ query 2 "c2" none ∷ []

abbrev reported : Reported
reported = ("a", record { id = "c9"; running = true; finished_at = none } ∷ []) ∷ []

abbrev placed : List (ℕ × (String × String))
placed = (2, ("b", "c2")) ∷ []

seen : Memᴰ (1, missing) (classify_multihost_liveness known reported ("b" ∷ []) placed)
unfolding classify_multihost_liveness
seen = Memᴰ.head refl

classify_multihost_liveness-missing_example :
    (q : ReplicaLivenessQuery) × Memᴰ q known
    × (q.replica_id ≡ 1)
    × IsGone reported ("b" ∷ []) placed q
classify_multihost_liveness-missing_example =
    classify_multihost_liveness-missing known reported ("b" ∷ []) placed 1 seen

abbrev hub_login : RegistryCredentials
hub_login = record {
  username = codes "ana";
  password = codes "x";
  server_address = some (codes " https://docker.io/ ");
  credential_name = none;
}

hub_login_registry :
    (pull_log_context (codes "ana/app") (some hub_login)).registry
    ≡ codes "https://index.docker.io/v1/"
unfolding pull_log_context canonical_server_address bare_address trim_start_from is_whitespace
hub_login_registry = refl

foreign_registry : (pull_log_context (codes "ghcr.io/ana/app") none).registry ≡ codes "ghcr.io"
unfolding pull_log_context registry_from_image canonical_server_address bare_address trim_start_from
    is_whitespace
foreign_registry = refl
