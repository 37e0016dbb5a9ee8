-- ===== src/Limits.antt =====
-- The sliding-window limiters: logins (crates/ruscker-admin/src/auth.rs, `LoginRateLimiter`), MFA
-- confirmations (crates/ruscker-admin/src/mfa.rs, `ConfirmRateLimiter`) and API requests
-- (crates/ruscker-admin/src/ratelimit.rs, `ApiRateLimiter`). Durations are in nanoseconds.
pub mod Granted
pub mod Requests
pub mod Recorded
pub mod Budget
use ruscker.Prelude.{
  ℕ, ◌+◌, ◌-◌, ◌*◌, ◌/◌, ◌%◌, String, Bool, true, false, Option, none, some, List, [], ◌∷◌, ◌++◌,
  ltb, leb, if◌then◌else◌, unwrap_or, length, Key, string_key, nat_key, pair_key, max,
}
use ruscker.Prelude.Assoc

-- Timestamps that have aged out of the window leave from the front, up to the first that has not.
abbrev pub prune : ℕ → ℕ → List ℕ → List ℕ
prune window now [] = []
prune window now (t ∷ ts) =
    let rest = prune window now ts in if ltb window (now - t) then rest else t ∷ ts

pub record LoginRateLimiter : Type 0 where
  pub failures : List ℕ
  pub max : ℕ
  pub window : ℕ

unfoldable pub allow : ℕ → LoginRateLimiter → LoginRateLimiter × Bool
allow now rl =
    let kept = prune rl.window now rl.failures in
    (record rl { failures = kept }, ltb (length kept) rl.max)

unfoldable pub record_failure : ℕ → LoginRateLimiter → LoginRateLimiter
record_failure now rl = record rl { failures = rl.failures ++ now ∷ [] }

unfoldable pub record_success : LoginRateLimiter → LoginRateLimiter
record_success rl = record rl { failures = [] }

pub record ConfirmRateLimiter : Type 0 where
  pub failures : List (String × List ℕ)
  pub max : ℕ
  pub window : ℕ

abbrev pub window_of {ℓ} : {K : Type ℓ} ⦃k : Key K⦄ → K → List (K × List ℕ) → List ℕ
window_of key m = unwrap_or (Assoc.lookup key m) []

-- A refusal keeps the pruned window.
unfoldable pub try_reserve : String → ℕ → ConfirmRateLimiter → ConfirmRateLimiter × Bool
try_reserve username now rl =
    let kept = prune rl.window now (window_of username rl.failures) in
    if leb rl.max (length kept)
    then (record rl { failures = Assoc.insert username kept rl.failures }, false)
    else (record rl { failures = Assoc.insert username (kept ++ now ∷ []) rl.failures }, true)

unfoldable pub confirm_success : String → ConfirmRateLimiter → ConfirmRateLimiter
confirm_success username rl = record rl { failures = Assoc.remove username rl.failures }

pub record RatePolicy : Type 0 where
  pub max : ℕ
  pub window : ℕ

pub data RateDecision : Type 0 where
  permit : RateDecision
  deny : ℕ → RateDecision

pub record ApiRateLimiter : Type 0 where
  pub windows : List ((String × String) × List ℕ)
  pub max_window_ms : ℕ
  pub since_sweep : ℕ

abbrev pub sweep_every : ℕ
sweep_every = 1024

abbrev pub nanos_per_ms : ℕ
nanos_per_ms = 1000000

abbrev pub newest : List ℕ → Option ℕ
newest [] = none
newest (t ∷ ts) = some (unwrap_or (newest ts) t)

abbrev pub is_active : ℕ → ℕ → List ℕ → Bool
is_active now horizon q = elim (newest q) [ none ↦ false | some t ↦ leb (now - t) horizon ]

unfoldable pub sweep_idle : ℕ → ApiRateLimiter → ApiRateLimiter
sweep_idle now rl = record rl {
  windows = Assoc.retain (λ _ q. is_active now (rl.max_window_ms * nanos_per_ms) q) rl.windows;
}

-- The bookkeeping in front of a check. A window in milliseconds fits a u64.
unfoldable pub before_check : ℕ → RatePolicy → ApiRateLimiter → ApiRateLimiter
unfolding sweep_idle
before_check now policy rl =
    let seen = record rl { max_window_ms = max rl.max_window_ms (policy.window / nanos_per_ms) } in
    if leb sweep_every (rl.since_sweep + 1)
    then sweep_idle now (record seen { since_sweep = 0 })
    else record seen { since_sweep = rl.since_sweep + 1 }

-- `oldest` is the front of the pruned window.
abbrev pub retry_after : ℕ → RatePolicy → List ℕ → ℕ
retry_after now policy [] = 1
retry_after now policy (oldest ∷ ts) = (policy.window - (now - oldest)) / 1000000000 + 1

abbrev pub record_request :
    (String × String) → ℕ → RatePolicy → ApiRateLimiter → ApiRateLimiter × RateDecision
record_request key now policy rl =
    let kept = prune policy.window now (window_of key rl.windows) in
    if ltb (length kept % 4294967296) policy.max
    then (record rl { windows = Assoc.insert key (kept ++ now ∷ []) rl.windows }, permit)
    else (
      record rl { windows = Assoc.insert key kept rl.windows },
      deny (retry_after now policy kept),
    )

unfoldable pub check :
    (String × String) → RatePolicy → ℕ → ApiRateLimiter → ApiRateLimiter × RateDecision
unfolding before_check
check key policy now rl = record_request key now policy (before_check now policy rl)
