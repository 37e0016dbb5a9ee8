-- ===== src/Limits/Requests.antt =====
-- The API limiter under interleaved clients, policies and idle sweeps.
use ruscker.Prelude.{
  ℕ, ◌+◌, ◌-◌, ◌*◌, ◌/◌, ◌≤◌, String, ◌≡◌, refl, sym, ap, ◌∙◌, ◌⊎◌, inl, inr, Bool, true, false,
  ◌&&◌, none, some, List, [], ◌∷◌, ◌++◌, arith, ltb, if◌then◌else◌, Bool-cases, Option-cases,
  length, string_key, nat_key, pair_key, ◌==◌,
}
use ruscker.Prelude.Assoc
use ruscker.Limits.{
  prune, newest, window_of, ApiRateLimiter, RatePolicy, RateDecision, permit, deny, check,
  sweep_idle, nanos_per_ms, is_active,
}
use ruscker.Limits.Granted.{recent}

abbrev pub is_permit : RateDecision → Bool
is_permit permit = true
is_permit (deny n) = false

-- The requests of (spec, client) pairs, each with its time; a spec has one policy.
abbrev pub Calls : Type 0
Calls = List ((String × String) × ℕ)

-- How many of the requests under a key are permitted.
unfoldable pub permits : (String → RatePolicy) → String × String → Calls → ApiRateLimiter → ℕ
unfolding check
permits policies key [] rl = 0
permits policies key ((k, now) ∷ calls) rl =
    let tried = check k (policies k.0) now rl in
    (if (k == key) && is_permit tried.1 then 1 else 0) + permits policies key calls tried.0

abbrev pub used : String × String → ℕ → ApiRateLimiter → ℕ
used key lo rl = recent lo (window_of key rl.windows)

pub newest-append : (now : ℕ) (q : List ℕ) → newest (q ++ now ∷ []) ≡ some now
newest-append now [] = refl
newest-append now (t ∷ q) = ground (arith, newest-append now q)

newest-none : (q : List ℕ) → newest q ≡ none → q ≡ []
newest-none [] h = refl
newest-none (t ∷ q) h = absurd (ground arith)

pub newest-prune :
    (window now : ℕ) (q : List ℕ)
    → (newest (prune window now q) ≡ newest q) ⊎ (prune window now q ≡ [])
newest-prune window now [] = inr refl
newest-prune window now (t ∷ q) =
    go (Bool-cases (ltb window (now - t))) (newest-prune window now q) (Option-cases (newest q))
  where
    go :
        ((ltb window (now - t) ≡ true) ⊎ (ltb window (now - t) ≡ false))
        → (newest (prune window now q) ≡ newest q) ⊎ (prune window now q ≡ [])
        → (newest q ≡ none) ⊎ ((x : ℕ) × (newest q ≡ some x))
        → (newest (prune window now (t ∷ q)) ≡ newest (t ∷ q)) ⊎ (prune window now (t ∷ q) ≡ [])
    go (inr young) h n = inl (ground arith)
    go (inl old) (inr h) n = inr (ground arith)
    go (inl old) (inl h) (inl n) =
        let none_left : prune window now q ≡ [] = newest-none (prune window now q) (h ∙ n) in
        inr (ground arith)
    go (inl old) (inl h) (inr (x, n)) = inl (ground arith)

-- What holds between two requests of the window of a key, under its policy.
pub record Bounded (key : String × String) (policy : RatePolicy) (lo : ℕ) (rl : ApiRateLimiter)
    : Type 0 where
  pub unique : Assoc.IsMap rl.windows
  pub short : length (window_of key rl.windows) ≤ policy.max
  -- The newest timestamp is recent if any is, and the sweep's horizon covers it.
  pub lively :
      (used key lo rl ≡ 0)
      ⊎ ((t : ℕ) × (newest (window_of key rl.windows) ≡ some t)
          × (lo ≤ t)
          × (policy.window / nanos_per_ms ≤ rl.max_window_ms))

sweep_idle-window :
    (key : String × String) (now : ℕ) (rl : ApiRateLimiter)
    → Assoc.IsMap rl.windows
    → window_of key (sweep_idle now rl).windows ≡ (
        if is_active now (rl.max_window_ms * nanos_per_ms) (window_of key rl.windows)
        then window_of key rl.windows
        else [])
unfolding sweep_idle
sweep_idle-window key now rl u =
    ground (
      arith,
      Assoc.lookup-retain (is_active now (rl.max_window_ms * nanos_per_ms)) key rl.windows u,
    )

sweep_idle-IsMap :
    (now : ℕ) (rl : ApiRateLimiter)
    → Assoc.IsMap rl.windows
    → Assoc.IsMap (sweep_idle now rl).windows
unfolding sweep_idle
sweep_idle-IsMap now rl u = Assoc.retain-IsMap _ rl.windows u

pub sweep_idle-horizon :
    (now : ℕ) (rl : ApiRateLimiter) → (sweep_idle now rl).max_window_ms ≡ rl.max_window_ms
unfolding sweep_idle
sweep_idle-horizon now rl = refl

module _ (key : String × String) (policy : RatePolicy) (lo now ms : ℕ)
    (whole : policy.window ≡ ms * nanos_per_ms) (early : lo ≤ now)
    (late : now ≤ lo + policy.window) where
  -- The sweep keeps a window with recent timestamps, and may only drop one without.
  sweep_idle-cases :
      (rl : ApiRateLimiter)
      → Bounded key policy lo rl
      → (window_of key (sweep_idle now rl).windows ≡ window_of key rl.windows)
        ⊎ ((window_of key (sweep_idle now rl).windows ≡ []) × (used key lo rl ≡ 0))
  sweep_idle-cases rl b =
      elim (Bool-cases
        (is_active now (rl.max_window_ms * nanos_per_ms) (window_of key rl.windows))) [
          | inl active ↦ inl (ground (arith, sweep_idle-window key now rl b.unique))
          | inr idle ↦ inr (
            ground (arith, sweep_idle-window key now rl b.unique),
            elim b.lively [
              | inl none_recent ↦ none_recent
              | inr (t, n, l, seen) ↦
                  let enough : ms ≤ rl.max_window_ms = ground (arith, whole) in
                  absurd (ground arith)
            ],
          )
        ]

  pub sweep_idle-Bounded :
      (rl : ApiRateLimiter)
      → Bounded key policy lo rl
      → Bounded key policy lo (sweep_idle now rl)
        × (used key lo (sweep_idle now rl) ≡ used key lo rl)
  sweep_idle-Bounded rl b = go (sweep_idle-cases rl b)
    where
      go :
          (window_of key (sweep_idle now rl).windows ≡ window_of key rl.windows)
            ⊎ ((window_of key (sweep_idle now rl).windows ≡ []) × (used key lo rl ≡ 0))
          → Bounded key policy lo (sweep_idle now rl)
            × (used key lo (sweep_idle now rl) ≡ used key lo rl)
      go (inl same) = (
        record {
          unique = sweep_idle-IsMap now rl b.unique;
          short = rw same b.short;
          lively = rw same (rw (sweep_idle-horizon now rl) b.lively);
        },
        ap (recent lo) same,
      )
      go (inr (gone, z)) = (
        record {
          unique = sweep_idle-IsMap now rl b.unique;
          short = rw gone (omega arith);
          lively = inl (ap (recent lo) gone);
        },
        ap (recent lo) gone ∙ sym z,
      )
