-- ===== src/Hosts.antt =====
-- Several container hosts (crates/ruscker-docker/src/multihost.rs): which host takes a new replica
-- (`choose_host`), and what is known of a replica when hosts do not answer
-- (`classify_multihost_liveness`).
pub mod Chosen
pub mod Unanswered
use ruscker.Prelude.{
  ℕ, ◌+◌, ◌*◌, max, String, Bool, true, ◌&&◌, ◌||◌, not, Option, none, some, List, [], ◌∷◌, ◌++◌,
  ltb, leb, if◌then◌else◌, length, keep_if, any, find, string_key, nat_key, pair_key, ◌==◌,
}
use ruscker.Prelude.Assoc
use ruscker.Spec.{Placement, spread, bin_pack}
use ruscker.Scaler.Liveness.{ReplicaLiveness, ManagedContainer, running, missing, stopped, unknown}

pub record HostLoad : Type 0 where
  pub count : ℕ
  pub max_containers : Option ℕ
  pub weight : ℕ
  pub runs_spec : Bool

abbrev pub has_room : HostLoad → Bool
has_room h = elim h.max_containers [ none ↦ true | some m ↦ ltb h.count m ]

-- The hosts with their indices.
abbrev pub number : ℕ → List HostLoad → List (ℕ × HostLoad)
number i [] = []
number i (h ∷ hs) = (i, h) ∷ number (i + 1) hs

-- `a` comes before `b` by count / weight, and by index among equals.
abbrev pub less_loaded : ℕ × HostLoad → ℕ × HostLoad → Bool
less_loaded a b =
    let left = a.1.count * max b.1.weight 1 in
    let right = b.1.count * max a.1.weight 1 in ltb left right || (left == right && ltb a.0 b.0)

-- `a` is at least as full as `b`, by index among equals.
abbrev pub fuller : ℕ × HostLoad → ℕ × HostLoad → Bool
fuller a b = ltb b.1.count a.1.count || (a.1.count == b.1.count && leb a.0 b.0)

-- `min_by` keeps the first of equals, `max_by` the last.
abbrev pub best_of :
    (ℕ × HostLoad → ℕ × HostLoad → Bool) → ℕ × HostLoad → List (ℕ × HostLoad) → ℕ × HostLoad
best_of better best [] = best
best_of better best (c ∷ cs) = best_of better (if better c best then c else best) cs

abbrev pub pick_host : Placement → List (ℕ × HostLoad) → Option (ℕ × HostLoad)
pick_host placement [] = none
pick_host spread (c ∷ cs) = some (best_of less_loaded c cs)
pick_host bin_pack (c ∷ cs) = some (best_of fuller c cs)

abbrev pub eligible : List HostLoad → List (ℕ × HostLoad)
eligible loads = keep_if (λ c. has_room c.1) (number 0 loads)

abbrev pub free_hosts : List HostLoad → List (ℕ × HostLoad)
free_hosts loads = keep_if (λ c. not c.1.runs_spec) (eligible loads)

abbrev pub candidates : List HostLoad → Bool → List (ℕ × HostLoad)
candidates loads anti_affinity =
    if anti_affinity && ltb 0 (length (free_hosts loads)) then free_hosts loads else eligible loads

unfoldable pub choose_host : List HostLoad → Placement → Bool → Option ℕ
choose_host loads placement anti_affinity =
    elim (pick_host placement (candidates loads anti_affinity)) [ none ↦ none | some c ↦ some c.0 ]

pub record ReplicaLivenessQuery : Type 0 where
  pub replica_id : ℕ
  pub container_id : String
  pub host : Option String

abbrev pub Reported : Type 0
Reported = List (String × List ManagedContainer)

abbrev pub state_of : ManagedContainer → ReplicaLiveness
state_of c = if c.running then running else stopped

abbrev pub in_inventory : ReplicaLivenessQuery → List ManagedContainer → ReplicaLiveness
in_inventory q cs = elim (find (λ c. c.id == q.container_id) cs) [
  | none ↦ missing
  | some c ↦ state_of c
]

abbrev pub all_managed : Reported → List ManagedContainer
all_managed [] = []
all_managed ((h, cs) ∷ rest) = cs ++ all_managed rest

abbrev pub owner_of : List (ℕ × (String × String)) → ReplicaLivenessQuery → Option String
owner_of placement q = elim q.host [
  | some h ↦ some h
  | none ↦ elim (Assoc.lookup q.replica_id placement) [ none ↦ none | some p ↦ some p.0 ]
]

abbrev pub owned : Reported → List String → ReplicaLivenessQuery → String → ReplicaLiveness
owned reported failed_hosts q owner =
    if any (λ h. h == owner) failed_hosts
    then unknown
    else elim (find (λ (r : String × List ManagedContainer). r.0 == owner) reported) [
      | none ↦ unknown
      | some r ↦ in_inventory q r.1
    ]

abbrev pub unowned : Reported → List String → ReplicaLivenessQuery → ReplicaLiveness
unowned reported failed_hosts q = elim (find (λ c. c.id == q.container_id) (all_managed reported)) [
  | some c ↦ state_of c
  | none ↦ elim failed_hosts [ [] ↦ missing | _ ∷ _ ↦ unknown ]
]

abbrev pub liveness_of :
    Reported → List String → List (ℕ × (String × String)) → ReplicaLivenessQuery → ReplicaLiveness
liveness_of reported failed_hosts placement q = elim (owner_of placement q) [
  | some owner ↦ owned reported failed_hosts q owner
  | none ↦ unowned reported failed_hosts q
]

unfoldable pub classify_multihost_liveness :
    List ReplicaLivenessQuery
    → Reported
    → List String
    → List (ℕ × (String × String))
    → List (ℕ × ReplicaLiveness)
classify_multihost_liveness [] reported failed_hosts placement = []
classify_multihost_liveness (q ∷ qs) reported failed_hosts placement =
    (q.replica_id, liveness_of reported failed_hosts placement q)
    ∷ classify_multihost_liveness qs reported failed_hosts placement
