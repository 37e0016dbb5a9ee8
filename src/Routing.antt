-- ===== src/Routing.antt =====
-- Which replica serves a request (crates/ruscker-admin/src/routes/proxy.rs): the picking functions,
-- the sticky lookup and the seat reservation. The process-wide round-robin counter is passed in,
-- and returned where it moves; the in-flight gauge is a function of the replica id.
pub mod Pick
pub mod Balance
pub mod Admit
pub mod Growth
pub mod Needed
pub mod Gates
pub mod Resolve
pub mod Sticky
pub mod Assets
pub mod Flow
pub mod Splash
use ruscker.Prelude.{
  ℕ, zero, suc, ◌+◌, ◌%◌, Bool, true, false, ◌&&◌, ◌||◌, not, Option, none, some, List, [], ◌∷◌,
  ltb, leb, if◌then◌else◌, is_some, length, keep_if, find, nat_key, string_key,
}
use ruscker.Replica.{Replica, available_seats, is_accepting, is_ready, is_starting}
use ruscker.Registry.{ReplicaRegistry, replicas_of, inc_sessions, add}
use ruscker.Spec.{
  Spec, RoutingStrategy, effective_routing, effective_seats, is_api, kind, effective_max_replicas,
  round_robin, least_connections, weighted_random, resource_aware,
}

-- `min_by_key` keeps the first of equals, `max_by_key` the last.
abbrev pub min_by_key : (Replica → ℕ) → Replica → List Replica → Replica
min_by_key key best [] = best
min_by_key key best (r ∷ rs) = min_by_key key (if ltb (key r) (key best) then r else best) rs

abbrev pub max_by_key : (Replica → ℕ) → Replica → List Replica → Replica
max_by_key key best [] = best
max_by_key key best (r ∷ rs) = max_by_key key (if leb (key best) (key r) then r else best) rs

-- `cands[i]`, with the first candidate for an index out of range, which `%` excludes.
abbrev pub nth : ℕ → Replica → List Replica → Replica
nth i first [] = first
nth zero first (r ∷ rs) = r
nth (suc i) first (r ∷ rs) = nth i first rs

-- The counter that `pick_index` reads and increments: a usize.
abbrev pub usize_mod : ℕ
usize_mod = 18446744073709551616

abbrev pub pick_index : ℕ → ℕ → ℕ
pick_index ticket n = ticket % n

pub record Picked : Type 0 where
  pub choice : Option Replica
  pub ticket : ℕ

abbrev pub least_loaded : Bool → (ℕ → ℕ) → Replica → List Replica → Replica
least_loaded true inflight r rs = min_by_key (λ q. inflight q.id) r rs
least_loaded false inflight r rs = max_by_key available_seats r rs

abbrev pub choose : (ℕ → ℕ) → RoutingStrategy → Bool → ℕ → Replica → List Replica → Picked
choose inflight round_robin api ticket r rs = record {
  choice = some (nth (pick_index ticket (length (r ∷ rs))) r (r ∷ rs));
  ticket = (ticket + 1) % usize_mod;
}
choose inflight least_connections api ticket r rs = record {
  choice = some (least_loaded api inflight r rs);
  ticket = ticket;
}
choose inflight weighted_random api ticket r rs = record {
  choice = some (least_loaded api inflight r rs);
  ticket = ticket;
}
choose inflight resource_aware api ticket r rs = record {
  choice = some (least_loaded api inflight r rs);
  ticket = ticket;
}

abbrev pub serves : Replica → Bool
serves r = is_ready r.state

module _ (inflight : ℕ → ℕ) (routing : RoutingStrategy) (api : Bool) where
  unfoldable pub select : ℕ → List Replica → Picked
  select ticket [] = record { choice = none; ticket = ticket }
  select ticket (r ∷ rs) = choose inflight routing api ticket r rs

  unfoldable pub pick_accepting : ℕ → List Replica → Picked
  pick_accepting ticket rs = select ticket (keep_if is_accepting rs)

  unfoldable pub pick_replica : ℕ → List Replica → Picked
  pick_replica ticket rs =
      let strict = pick_accepting ticket rs in
      let fallback = select strict.ticket (keep_if serves rs) in
      if is_some strict.choice then strict else fallback

-- The registry and the round-robin counter, as a request finds and leaves them.
pub record Proxy : Type 0 where
  pub registry : ReplicaRegistry
  pub ticket : ℕ

pub data Admission : Type 0 where
  -- A replica, and whether its seat was reserved here.
  admitted : Replica → Bool → Admission
  -- The caller has to spawn.
  must_spawn : Admission
  -- The spawn failed.
  failed_spawn : Admission

abbrev pub reserve_seat : Bool → ReplicaRegistry → ℕ → ReplicaRegistry
reserve_seat true reg rid = inc_sessions reg rid
reserve_seat false reg rid = reg

-- A pick and its reservation, under one write lock.
abbrev pub admit : Spec → Proxy → Picked → Proxy × Admission
admit spec p picked = elim picked.choice [
  | some r ↦ (
    record {
      registry = reserve_seat (not (is_api (kind spec))) p.registry r.id;
      ticket = picked.ticket;
    },
    admitted r (not (is_api (kind spec))),
  )
  | none ↦ (record p { ticket = picked.ticket }, must_spawn)
]

abbrev pub is_coming : Replica → Bool
is_coming r = is_starting r.state && ltb 0 (available_seats r)

-- The insertion of the replica that the backend returned, its seat cap taken from the spec.
abbrev pub publish : Spec → Proxy → Option Replica → Proxy × Admission
publish spec p none = (p, failed_spawn)
publish spec p (some fresh) =
    let r = record fresh { sessions_max = effective_seats spec } in
    (
      record p { registry = reserve_seat (not (is_api (kind spec))) (add p.registry r) r.id },
      admitted r (not (is_api (kind spec))),
    )

abbrev pub spawn_after : Spec → Option Replica → Proxy × Admission → Proxy × Admission
spawn_after spec spawned (p, must_spawn) = publish spec p spawned
spawn_after spec spawned (p, admitted r reserved) = (p, admitted r reserved)
spawn_after spec spawned (p, failed_spawn) = (p, failed_spawn)

module _ (inflight : ℕ → ℕ) where
  abbrev pub accepting_of : Spec → Proxy → Picked
  accepting_of spec p =
      pick_accepting inflight (effective_routing spec) (is_api (kind spec)) p.ticket
        (replicas_of p.registry spec.id)

  abbrev pub any_of : Spec → Proxy → Picked
  any_of spec p =
      pick_replica inflight (effective_routing spec) (is_api (kind spec)) p.ticket
        (replicas_of p.registry spec.id)

  -- The first critical section of `pick_or_spawn`.
  unfoldable pub fast_path : Spec → Proxy → Proxy × Admission
  fast_path spec p = admit spec p (accepting_of spec p)

  -- The overload branch: APIs at once, seat-based specs at the replica cap.
  abbrev pub overload : Spec → Proxy → Proxy × Admission
  overload spec p =
      if is_api (kind spec)
        || leb (effective_max_replicas spec) (length (replicas_of p.registry spec.id))
      then admit spec p (any_of spec p)
      else (p, must_spawn)

  -- The double-check under the spec's mutex, before the spawn.
  unfoldable pub slow_path : Spec → Proxy → Proxy × Admission
  slow_path spec p =
      let strict = accepting_of spec p in
      let rest = record p { ticket = strict.ticket } in
      if is_some strict.choice
      then admit spec p strict
      else elim (find is_coming (replicas_of p.registry spec.id)) [
        | some r ↦ admit spec rest (record { choice = some r; ticket = rest.ticket })
        | none ↦ overload spec rest
      ]

  abbrev pub slow_after : Spec → Option Replica → Proxy × Admission → Proxy × Admission
  slow_after spec spawned (p, must_spawn) = spawn_after spec spawned (slow_path spec p)
  slow_after spec spawned (p, admitted r reserved) = (p, admitted r reserved)
  slow_after spec spawned (p, failed_spawn) = (p, failed_spawn)

  -- The whole of `pick_or_spawn`, with nothing between its critical sections; `spawned` is what
  -- the backend (or a step before it) gives, `none` for an error.
  unfoldable pub pick_or_spawn : Spec → Option Replica → Proxy → Proxy × Admission
  unfolding fast_path slow_path
  pick_or_spawn spec spawned p = slow_after spec spawned (fast_path spec p)
