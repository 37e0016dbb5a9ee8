-- ===== src/Scaler/Pass/Cooling.antt =====
-- How long the cooldown after a scale-down holds back a saturation spawn.
use ruscker.Prelude.{
  ℕ, zero, suc, ◌-◌, ◌<◌, ◌≡◌, inl, inr, true, arith, ltb, Option-cases, unwrap_or, nat_key,
  string_key, same_refl, pair_key,
}
use ruscker.Prelude.Assoc
use ruscker.Spec.{Spec}
use ruscker.Scaler.Signals.{cooldown_ticks_for_spec}
use ruscker.Scaler.Pass.{Env, Pass, tick_cooldown, is_cooling, arm_cooldown}

abbrev left_of : Spec → Pass → ℕ
left_of spec s = unwrap_or (Assoc.lookup spec.id s.cooldown) 0

left_of-tick_cooldown :
    (spec : Spec) (s : Pass) → left_of spec (tick_cooldown spec s) ≡ left_of spec s - 1
unfolding tick_cooldown
left_of-tick_cooldown spec s = elim (Option-cases (Assoc.lookup spec.id s.cooldown)) [
  | inl e ↦ rw (e, tick_cooldown) (ground arith)
  | inr (c, e) ↦
      rw (e, tick_cooldown)
        (ground (
          arith,
          same_refl spec.id,
          Assoc.lookup-insert spec.id spec.id (c - 1) s.cooldown,
          Assoc.lookup-remove spec.id spec.id s.cooldown,
        ))
]

-- The spec's cooldown after `k` turns that do not arm it again.
unfoldable pub cooled : Spec → ℕ → Pass → Pass
unfolding tick_cooldown
cooled spec zero s = s
cooled spec (suc k) s = cooled spec k (tick_cooldown spec s)

left_of-cooled :
    (spec : Spec) (k : ℕ) (s : Pass) → left_of spec (cooled spec k s) ≡ left_of spec s - k
unfolding cooled
left_of-cooled spec zero s = omega arith
left_of-cooled spec (suc k) s =
    omega (arith, left_of-cooled spec k (tick_cooldown spec s), left_of-tick_cooldown spec s)

-- A scale-down that stopped a replica arms the cooldown for exactly its configured number of
-- turns, if that is not 0: the spec is cooling in each of them and in none after.
pub is_cooling-cooled :
    (env : Env) (spec : Spec) (k : ℕ) (s : Pass)
    → 0 < cooldown_ticks_for_spec spec env.interval env.default_cooldown_ticks
    → is_cooling spec (cooled spec k (arm_cooldown env spec true s))
      ≡ ltb k (cooldown_ticks_for_spec spec env.interval env.default_cooldown_ticks)
is_cooling-cooled env spec k s h =
    let n = cooldown_ticks_for_spec spec env.interval env.default_cooldown_ticks in
    ground (
      arith,
      left_of-cooled spec k (arm_cooldown env spec true s),
      same_refl spec.id,
      Assoc.lookup-insert spec.id spec.id n s.cooldown,
    )
