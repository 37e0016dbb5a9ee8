-- ===== src/Spec.antt =====
-- One application of the catalog and its effective settings (crates/ruscker-config/src/schema.rs,
-- `Spec` and its methods). Only the fields that the other modules read are kept. An f64 is its bit
-- pattern, a number; its operations are a parameter of the code that computes with it.
pub mod Access
pub mod Allowed
pub mod Sizing
use mathlib.Core.Option
use ruscker.Prelude.{
  ℕ, min, max, String, Bool, true, false, Option, none, some, List, map, unwrap_or, nat_key,
  string_key, ℤ, as_i64, saturating_mul, pos,
}

pub data SpecKindOverride : Type 0 where
  shiny app streamlit dash voila api external : SpecKindOverride

pub data SpecKind : Type 0 where
  shiny interactive_app api external : SpecKind

pub data RoutingStrategy : Type 0 where
  least_connections round_robin weighted_random resource_aware : RoutingStrategy

pub data Placement : Type 0 where
  spread bin_pack : Placement

pub record ApiSpec : Type 0 where
  pub port : Option ℕ
  pub rate_limit : Option String
  pub cors : Bool

pub record Spec : Type 0 where
  pub id : String
  pub container_image : Option String
  pub container_port : Option ℕ
  pub platform : Option String
  pub seats_per_container : Option ℕ
  pub max_lifetime : Option ℕ
  pub container_lifetime : Option ℕ
  pub heartbeat_timeout : Option ℤ
  pub container_wait_time : Option ℕ
  pub access_groups : Option (List String)
  pub access_users : Option (List String)
  pub require_mfa : Option Bool
  pub mfa_validity_days : Option ℕ
  pub kind_override : Option SpecKindOverride
  pub api : Option ApiSpec
  pub min_replicas : Option ℕ
  pub max_replicas : Option ℕ
  pub scale_up_threshold : Option ℕ
  pub scale_down_threshold : Option ℕ
  pub scale_down_grace : Option ℕ
  pub scale_down_cooldown_secs : Option ℕ
  pub drain_timeout : Option ℕ
  pub routing_strategy : Option RoutingStrategy
  pub concurrent_requests_per_replica : Option ℕ
  pub placement : Option Placement
  pub anti_affinity : Option Bool

abbrev pub default_max_replicas : ℕ
default_max_replicas = 5

abbrev pub default_scale_down_cooldown_secs : ℕ
default_scale_down_cooldown_secs = 60

abbrev pub default_seats_per_app : ℕ
default_seats_per_app = 10

abbrev pub default_mfa_validity_days : ℕ
default_mfa_validity_days = 7

abbrev pub max_mfa_validity_days : ℕ
max_mfa_validity_days = 30

abbrev kind_of : Option SpecKindOverride → Option String → SpecKind
kind_of (some SpecKindOverride.api) image = SpecKind.api
kind_of (some SpecKindOverride.shiny) image = SpecKind.shiny
kind_of (some SpecKindOverride.app) image = interactive_app
kind_of (some SpecKindOverride.streamlit) image = interactive_app
kind_of (some SpecKindOverride.dash) image = interactive_app
kind_of (some SpecKindOverride.voila) image = interactive_app
kind_of (some SpecKindOverride.external) image = SpecKind.external
kind_of none (some image) = SpecKind.shiny
kind_of none none = SpecKind.external

unfoldable pub kind : Spec → SpecKind
kind s = kind_of s.kind_override s.container_image

abbrev pub is_api : SpecKind → Bool
is_api SpecKind.api = true
is_api _ = false

abbrev pub is_external : SpecKind → Bool
is_external SpecKind.external = true
is_external _ = false

abbrev default_seats : SpecKind → ℕ
default_seats SpecKind.api = 100
default_seats SpecKind.shiny = default_seats_per_app
default_seats interactive_app = default_seats_per_app
default_seats SpecKind.external = 0

unfoldable pub effective_seats : Spec → ℕ
unfolding kind
effective_seats s = unwrap_or s.seats_per_container (default_seats (kind s))

unfoldable pub effective_require_mfa : Spec → Bool
effective_require_mfa s = unwrap_or s.require_mfa false

unfoldable pub effective_mfa_validity_days : Spec → ℕ
effective_mfa_validity_days s =
    min (unwrap_or s.mfa_validity_days default_mfa_validity_days) max_mfa_validity_days

unfoldable pub effective_min_replicas : Spec → ℕ
effective_min_replicas s = unwrap_or s.min_replicas 0

abbrev default_max : SpecKind → ℕ → ℕ
default_max SpecKind.external low = 0
default_max SpecKind.shiny low = max low default_max_replicas
default_max interactive_app low = max low default_max_replicas
default_max SpecKind.api low = max low default_max_replicas

unfoldable pub effective_max_replicas : Spec → ℕ
unfolding kind effective_min_replicas
effective_max_replicas s =
    unwrap_or s.max_replicas (default_max (kind s) (effective_min_replicas s))

abbrev minutes_to_secs : ℕ → ℤ
minutes_to_secs m = saturating_mul (as_i64 m) 60

unfoldable pub effective_max_lifetime_secs : Spec → Option ℤ
effective_max_lifetime_secs s = Option.map minutes_to_secs s.max_lifetime

unfoldable pub effective_container_lifetime_secs : Spec → Option ℤ
effective_container_lifetime_secs s = Option.map minutes_to_secs s.container_lifetime

unfoldable pub effective_drain_timeout_secs : Spec → ℤ
effective_drain_timeout_secs s = unwrap_or (Option.map as_i64 s.drain_timeout) (pos 60)

unfoldable pub effective_scale_up_threshold : Spec → Option ℕ
effective_scale_up_threshold s = s.scale_up_threshold

unfoldable pub effective_scale_down_threshold : Spec → Option ℕ
effective_scale_down_threshold s = s.scale_down_threshold

unfoldable pub effective_scale_down_cooldown_secs : Spec → ℕ
effective_scale_down_cooldown_secs s =
    unwrap_or s.scale_down_cooldown_secs default_scale_down_cooldown_secs

unfoldable pub effective_concurrent_requests_per_replica : Spec → ℕ
effective_concurrent_requests_per_replica s = unwrap_or s.concurrent_requests_per_replica 100

unfoldable pub effective_placement : Spec → Placement
effective_placement s = unwrap_or s.placement spread

unfoldable pub effective_anti_affinity : Spec → Bool
effective_anti_affinity s = unwrap_or s.anti_affinity false

abbrev default_routing : SpecKind → RoutingStrategy
default_routing SpecKind.api = round_robin
default_routing _ = least_connections

unfoldable pub effective_routing : Spec → RoutingStrategy
unfolding kind
effective_routing s = unwrap_or s.routing_strategy (default_routing (kind s))

unfoldable pub needs_sticky_sessions : Spec → Bool
unfolding kind
needs_sticky_sessions s = elim (kind s) [
  | SpecKind.shiny ↦ true
  | SpecKind.interactive_app ↦ true
  | SpecKind.api ↦ false
  | SpecKind.external ↦ false
]

abbrev framework_port : Option SpecKindOverride → Option ℕ
framework_port (some SpecKindOverride.streamlit) = some 8501
framework_port (some SpecKindOverride.dash) = some 8050
framework_port (some SpecKindOverride.voila) = some 8866
framework_port (some _) = none
framework_port none = none

abbrev kind_port : SpecKind → Option ℕ
kind_port SpecKind.api = some 8080
kind_port _ = none

-- `or` and `or_else`.
abbrev or_else {ℓ} : {A : Type ℓ} → Option A → Option A → Option A
or_else none b = b
or_else (some a) b = some a

abbrev api_port : Option ApiSpec → Option ℕ
api_port none = none
api_port (some a) = a.port

unfoldable pub effective_inner_port : Spec → Option ℕ
unfolding kind
effective_inner_port s =
    or_else s.container_port
      (or_else (api_port s.api) (or_else (framework_port s.kind_override) (kind_port (kind s))))
