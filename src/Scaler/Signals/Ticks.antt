-- ===== src/Scaler/Signals/Ticks.antt =====
-- Durations in ticks, and how long a cooldown holds.
use native.Mathlib.Nat.{le-div_iff_mul-le, div-le_of_le-mul}
use ruscker.Prelude.{
  ℕ, zero, suc, ◌+◌, ◌-◌, ◌*◌, ◌/◌, ◌≤◌, min, max, ◌≡◌, inl, inr, arith, leb, leb→le, Bool-cases,
  nat_key, string_key, pair_key,
}
use ruscker.Scaler.Signals.{grace_secs_to_ticks}

-- The quotient rounded up.
quotient_up : ℕ → ℕ → ℕ
quotient_up secs iv = (secs + (iv - 1)) / iv

quotient_up-bounds :
    (secs iv : ℕ)
    → 1 ≤ iv
    → secs ≤ 4294967295
    → (secs ≤ quotient_up secs iv * iv)
      × (quotient_up secs iv * iv ≤ secs + (iv - 1))
      × (quotient_up secs iv ≤ 4294967295)
unfolding quotient_up
quotient_up-bounds secs iv p h =
    let q = (secs + (iv - 1)) / iv in
    let below : q * iv ≤ secs + (iv - 1) = (le-div_iff_mul-le p).0 (omega arith) in
    let up : secs ≤ q * iv = elim (Bool-cases (leb secs (q * iv))) [
      | inl e ↦ leb→le _ _ e
      | inr e ↦
          let step : (q + 1) * iv ≤ secs + (iv - 1) = ground arith in
          let over : q + 1 ≤ q = (le-div_iff_mul-le p).1 step in absurd (omega arith)
    ] in
    (up, below, div-le_of_le-mul iv (omega arith))

covers_of :
    (q iv secs : ℕ)
    → 1 ≤ iv
    → secs ≤ q * iv
    → q * iv ≤ secs + (iv - 1)
    → (secs ≤ max q 1 * iv) × ((max q 1 - 1) * iv ≤ secs)
covers_of zero iv secs p up below = (omega arith, omega arith)
covers_of (suc q) iv secs p up below = (ground arith, ground arith)

clamped : (q : ℕ) → q ≤ 4294967295 → min (max q 1) 4294967295 ≡ max q 1
clamped q h = omega arith

-- A grace in ticks covers the configured seconds, and no tick of it is to spare: with one tick
-- less it would not be longer than they are. It is at least one tick. The seconds fit a u32.
pub grace_secs_to_ticks-covers :
    (secs interval : ℕ)
    → secs ≤ 4294967295
    → (secs ≤ grace_secs_to_ticks secs interval * max interval 1)
      × (1 ≤ grace_secs_to_ticks secs interval)
      × ((grace_secs_to_ticks secs interval - 1) * max interval 1 ≤ secs)
unfolding grace_secs_to_ticks quotient_up
grace_secs_to_ticks-covers secs interval h =
    let iv = max interval 1 in
    let q = quotient_up secs iv in
    let (up, below, small) = quotient_up-bounds secs iv (omega arith) h in
    let (long, short) = covers_of q iv secs (omega arith) up below in
    rw (clamped q small) (long, omega arith, short)
