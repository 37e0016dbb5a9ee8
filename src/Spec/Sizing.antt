-- ===== src/Spec/Sizing.antt =====
-- The effective sizes and lifetimes of a spec.
use ruscker.Prelude.{
  ℕ, ◌*◌, ◌≤◌, min, ◌≡◌, refl, false, none, some, arith, nat_key, string_key, i64_max, pos,
}
use ruscker.Spec.{
  Spec, SpecKind, shiny, interactive_app, api, external, kind, is_external, effective_min_replicas,
  effective_max_replicas, effective_max_lifetime_secs,
}

-- A containerised app that names no maximum can always be started and can reach its minimum: its
-- effective maximum is at least 5 and at least the effective minimum.
pub effective_max_replicas-room :
    (s : Spec)
    → s.max_replicas ≡ none
    → is_external (kind s) ≡ false
    → (5 ≤ effective_max_replicas s) × (effective_min_replicas s ≤ effective_max_replicas s)
unfolding effective_max_replicas
effective_max_replicas-room s h e = go (kind s) refl e
  where
    go :
        (k : SpecKind)
        → kind s ≡ k
        → is_external k ≡ false
        → (5 ≤ effective_max_replicas s) × (effective_min_replicas s ≤ effective_max_replicas s)
    go shiny k e = (ground arith, ground arith)
    go interactive_app k e = (ground arith, ground arith)
    go api k e = (ground arith, ground arith)
    go external k e = absurd (ground arith)

-- A lifetime in minutes that fits an i64 becomes its seconds, at most `i64::MAX`, never negative.
pub effective_lifetime_secs-bounds :
    (s : Spec) (m : ℕ)
    → s.max_lifetime ≡ some m
    → m ≤ i64_max
    → effective_max_lifetime_secs s ≡ some (pos (min (m * 60) i64_max))
unfolding effective_max_lifetime_secs
effective_lifetime_secs-bounds s m h b = ground arith
