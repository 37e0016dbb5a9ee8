-- ===== src/Limits/Budget.antt =====
-- The API limiter's budget per client: a whole run.
use ruscker.Prelude.{
  ℕ, ◌+◌, ◌*◌, ◌≤◌, ◌<◌, String, ◌≡◌, sym, subst, inl, inr, ◌&&◌, [], ◌∷◌, arith, if◌then◌else◌,
  Bool-cases, length, All, string_key, nat_key, same_pair_iff, pair_key, ◌==◌, same_refl,
}
use ruscker.Prelude.Assoc
use ruscker.Limits.{window_of, ApiRateLimiter, RatePolicy, before_check, nanos_per_ms, check}
use ruscker.Limits.Granted.{recent, recent-le-length}
use ruscker.Limits.Requests.{Bounded, used, is_permit, permits, Calls}
use ruscker.Limits.Recorded.{before_check-Bounded, record_other-Bounded, record_own-Bounded}

-- One check keeps the bounds, and counts a permitted request of the client itself.
abbrev Checked :
    (String → RatePolicy) → String × String → ℕ → ℕ → ApiRateLimiter → String × String → Type 0
Checked policies key lo now rl k =
    Bounded key (policies key.0) lo (check k (policies k.0) now rl).0
    × (used key lo (check k (policies k.0) now rl).0
        ≡ used key lo rl
          + (if (k == key) && is_permit (check k (policies k.0) now rl).1 then 1 else 0))

module _ (policies : String → RatePolicy) (key : String × String) (lo ms : ℕ)
    (whole : (policies key.0).window ≡ ms * nanos_per_ms)
    (small : (policies key.0).max < 4294967296) where
  check_own-Bounded :
      (now : ℕ) (rl : ApiRateLimiter)
      → lo ≤ now
      → now ≤ lo + (policies key.0).window
      → Bounded key (policies key.0) lo rl
      → Checked policies key lo now rl key
  unfolding check
  check_own-Bounded now rl early late b =
      let policy = policies key.0 in
      let (c, same, seen) =
        before_check-Bounded key policy lo now ms whole early late policy rl b in
      let (d, n) =
        record_own-Bounded key policy lo now ms whole early late (before_check now policy rl) small
          seen c in
      (d, ground (arith, n, same, same_refl key.0, same_refl key.1))

  check-Bounded :
      (k : String × String) (now : ℕ) (rl : ApiRateLimiter)
      → lo ≤ now
      → now ≤ lo + (policies key.0).window
      → Bounded key (policies key.0) lo rl
      → Checked policies key lo now rl k
  unfolding check
  check-Bounded k now rl early late b = elim (Bool-cases (k == key)) [
    | inl e ↦
        subst (λ (j : String × String). Checked policies key lo now rl j)
          (sym ((same_pair_iff k key).0 e)) (check_own-Bounded now rl early late b)
    | inr e ↦
        let policy = policies key.0 in
        let (c, same, seen) =
          before_check-Bounded key policy lo now ms whole early late (policies k.0) rl b in
        let (d, n) =
          record_other-Bounded key policy lo now ms whole early late k (policies k.0)
            (before_check now (policies k.0) rl) e c in
        (d, ground (arith, n, same))
  ]

  used-permits :
      (calls : Calls) (rl : ApiRateLimiter)
      → All (λ call. (lo ≤ call.1) × (call.1 ≤ lo + (policies key.0).window)) calls
      → Bounded key (policies key.0) lo rl
      → used key lo rl + permits policies key calls rl ≤ (policies key.0).max
  unfolding permits
  used-permits [] rl w b = omega (arith, recent-le-length lo (window_of key rl.windows), b.short)
  used-permits ((k, now) ∷ calls) rl w b =
      let (c, n) = check-Bounded k now rl w.0.0 w.0.1 b in
      omega (arith, n, used-permits calls (check k (policies k.0) now rl).0 w.1 c)

-- Within any span as long as its policy's window, a client of a spec is permitted at most `max`
-- requests, whatever other clients request and whenever the idle sweep runs. The limiter's table
-- is a map, the client's window is within its limit and has nothing of the span in it at the
-- start, the limit fits a u32 and the window is a whole number of milliseconds.
pub permits-le-max :
    (policies : String → RatePolicy) (key : String × String) (lo ms : ℕ) (calls : Calls)
    (rl : ApiRateLimiter)
    → (policies key.0).window ≡ ms * nanos_per_ms
    → (policies key.0).max < 4294967296
    → Assoc.IsMap rl.windows
    → length (window_of key rl.windows) ≤ (policies key.0).max
    → recent lo (window_of key rl.windows) ≡ 0
    → All (λ call. (lo ≤ call.1) × (call.1 ≤ lo + (policies key.0).window)) calls
    → permits policies key calls rl ≤ (policies key.0).max
permits-le-max policies key lo ms calls rl whole small u short z w =
    let total =
      used-permits policies key lo ms whole small calls rl w
        (record { unique = u; short = short; lively = inl z }) in
    omega (arith, total, z)
