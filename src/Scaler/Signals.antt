-- ===== src/Scaler/Signals.antt =====
-- The scaler's pure readings of a snapshot (crates/ruscker-admin/src/scaler.rs): idle counters,
-- saturation, grace and cooldown in ticks, lifetimes, request capacity. f64 operations on bit
-- patterns are a parameter.
pub mod Idle
pub mod Watched
pub mod Lifetime
pub mod Ticks
use ruscker.Prelude.{
  ℕ, ◌+◌, ◌-◌, ◌*◌, ◌/◌, ◌%◌, min, max, Bool, true, false, ◌&&◌, ◌||◌, not, Option, none, some,
  List, [], ◌∷◌, map, ltb, leb, if◌then◌else◌, is_some, unwrap_or, keep_if, any, ◌==◌, nat_key,
  string_key, pair_key, ℤ, leb_ℤ, neg, saturating_add, pos,
}
use ruscker.Prelude.Assoc
use ruscker.Replica.{Replica, available_seats}
use ruscker.Spec.{
  Spec, kind, is_api, effective_concurrent_requests_per_replica, effective_scale_down_cooldown_secs,
}

-- `HashMap<_, u32>`.
abbrev pub Ticks {ℓ} : Type ℓ → Type ℓ
Ticks K = List (K × ℕ)

abbrev pub u32_range : ℕ
u32_range = 4294967296

abbrev pub nanos : ℕ
nanos = 1000000000

abbrev pub young_replica_grace_secs : ℕ
young_replica_grace_secs = 60

-- `now.signed_duration_since(started_at) < grace`, also for a start after `now`.
abbrev pub is_young : ℕ → Replica → Bool
is_young now r = ltb now (r.started_at + young_replica_grace_secs * nanos)

abbrev pub counts_as_idle : ℕ → Replica → Bool
counts_as_idle now r = r.sessions_active == 0 && not (is_young now r)

abbrev pub bump : ℕ → Ticks ℕ → Ticks ℕ
bump i ticks = Assoc.insert i ((unwrap_or (Assoc.lookup i ticks) 0 + 1) % u32_range) ticks

abbrev pub observe_idle : ℕ → List Replica → Ticks ℕ → Ticks ℕ
observe_idle now [] ticks = ticks
observe_idle now (r ∷ rs) ticks =
    let bumped = observe_idle now rs (bump r.id ticks) in
    let cleared = observe_idle now rs (Assoc.remove r.id ticks) in
    if counts_as_idle now r then bumped else cleared

unfoldable pub update_idle_ticks : Ticks ℕ → List Replica → ℕ → Ticks ℕ
update_idle_ticks ticks snap now =
    observe_idle now snap (Assoc.retain (λ i _. any (λ r. r.id == i) snap) ticks)

abbrev pub is_full : Replica → Bool
is_full r = available_seats r == 0

abbrev pub all_full : List Replica → Bool
all_full [] = true
all_full (r ∷ rs) = is_full r && all_full rs

unfoldable pub all_saturated : List Replica → Bool
all_saturated [] = false
all_saturated (r ∷ rs) = all_full (r ∷ rs)

abbrev pub sum_of : (Replica → ℕ) → List Replica → ℕ
sum_of f [] = 0
sum_of f (r ∷ rs) = f r + sum_of f rs

-- The f64 operations of the code, on bit patterns: `as f64` of a u64, division and `<`.
pub record F64 : Type 0 where
  pub of_u64 : ℕ → ℕ
  pub div : ℕ → ℕ → ℕ
  pub lt : ℕ → ℕ → Bool

module _ (f64 : F64) where
  unfoldable pub pool_utilization : List Replica → ℕ
  pool_utilization rs =
      let seats = sum_of (λ r. r.sessions_max) rs in
      if seats == 0
      then 0
      else f64.div (f64.of_u64 (sum_of (λ r. r.sessions_active) rs)) (f64.of_u64 seats)

  abbrev has_some : List Replica → Bool
  has_some [] = false
  has_some (r ∷ rs) = true

  unfoldable pub scale_up_triggered : List Replica → Option ℕ → Bool
  unfolding pool_utilization all_saturated
  scale_up_triggered rs none = all_saturated rs
  scale_up_triggered rs (some t) = has_some rs && f64.lt t (pool_utilization rs)

-- `secs.div_ceil(iv).max(1).min(u32::MAX)`; the interval in seconds.
unfoldable pub grace_secs_to_ticks : ℕ → ℕ → ℕ
grace_secs_to_ticks secs interval =
    let iv = max interval 1 in min (max ((secs + (iv - 1)) / iv) 1) 4294967295

unfoldable pub cooldown_secs_to_ticks : ℕ → ℕ → ℕ
unfolding grace_secs_to_ticks
cooldown_secs_to_ticks secs interval = if secs == 0 then 0 else grace_secs_to_ticks secs interval

unfoldable pub cooldown_ticks_for_spec : Spec → ℕ → Option ℕ → ℕ
unfolding cooldown_secs_to_ticks
cooldown_ticks_for_spec spec interval fallback = elim spec.scale_down_cooldown_secs [
  | some secs ↦ cooldown_secs_to_ticks secs interval
  | none ↦
      unwrap_or fallback (cooldown_secs_to_ticks (effective_scale_down_cooldown_secs spec) interval)
]

abbrev pub overlaid : (ℕ → ℕ) → Spec → Replica → Replica
overlaid inflight spec r = record r {
  sessions_active = inflight r.id;
  sessions_max = effective_concurrent_requests_per_replica spec;
}

unfoldable pub overlay_request_capacity : (ℕ → ℕ) → Spec → List Replica → List Replica
overlay_request_capacity inflight spec snap =
    if is_api (kind spec) then map (overlaid inflight spec) snap else snap

-- `(now - started_at).num_seconds()`, towards zero.
abbrev pub age_secs : ℕ → Replica → ℤ
age_secs now r =
    if leb r.started_at now
    then pos ((now - r.started_at) / nanos)
    else neg ((r.started_at - now) / nanos)

abbrev pub is_idle : Replica → Bool
is_idle r = r.sessions_active == 0

abbrev pub past_hard : ℕ → Option ℤ → ℤ → Replica → Bool
past_hard now none drain r = false
past_hard now (some secs) drain r =
    leb_ℤ (if is_idle r then secs else saturating_add secs drain) (age_secs now r)

abbrev pub past_soft : ℕ → Option ℤ → Replica → Bool
past_soft now none r = false
past_soft now (some secs) r = leb_ℤ secs (age_secs now r) && is_idle r

unfoldable pub lifetime_reap_candidates : List Replica → ℕ → Option ℤ → Option ℤ → ℤ → List ℕ
lifetime_reap_candidates rs now hard soft drain =
    if is_some hard || is_some soft
    then map (λ r. r.id) (keep_if (λ r. past_hard now hard drain r || past_soft now soft r) rs)
    else []
