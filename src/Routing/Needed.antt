-- ===== src/Routing/Needed.antt =====
-- When a visitor needs the backend, read off the pool alone.
use ruscker.Prelude.{
  ℕ, ◌<◌, ◌≡◌, refl, sym, ap, ◌∙◌, subst, ◌↔◌, ◌⊎◌, Bool, false, Option, none, List, [], ◌∷◌, arith,
  leb→le, is_some, length, any, find, string_key, nat_key, pair_key, list_key,
}
use ruscker.Replica.{Replica, is_accepting}
use ruscker.Spec.{Spec, effective_routing, is_api, kind, effective_max_replicas}
use ruscker.Routing.{
  Proxy, must_spawn, fast_path, serves, is_coming, accepting_of, any_of, slow_path, pick_or_spawn,
  Admission, spawn_after, failed_spawn, admitted, ReplicaRegistry, replicas_of,
}
use ruscker.Routing.Pick.{pick_accepting-is_some, pick_replica_lem}
use ruscker.Routing.Admit.{pool}

-- No replica has a free seat, ready or starting, and there is room to grow (for a spec with seats)
-- or nothing to fall back on.
pub record NeedsSpawn (spec : Spec) (rs : List Replica) : Type 0 where
  pub full : any is_accepting rs ≡ false
  pub none_coming : any is_coming rs ≡ false
  pub no_fallback :
      (any serves rs ≡ false)
      ⊎ ((is_api (kind spec) ≡ false) × (length rs < effective_max_replicas spec))

find-any : (f : Replica → Bool) (rs : List Replica) → is_some (find f rs) ≡ any f rs
find-any f [] = refl
find-any f (r ∷ rs) = ground (arith, find-any f rs)

module _ (inflight : ℕ → ℕ) (spec : Spec) where
  accepting-any :
      (p : Proxy) → is_some (accepting_of inflight spec p).choice ≡ any is_accepting (pool spec p)
  accepting-any p =
      pick_accepting-is_some inflight (effective_routing spec) (is_api (kind spec)) p.ticket
        (pool spec p)

  fallback-any : (p : Proxy) → is_some (any_of inflight spec p).choice ≡ any serves (pool spec p)
  fallback-any p =
      (pick_replica_lem inflight (effective_routing spec) (is_api (kind spec)) p.ticket
        (pool spec p)).0

  fast_path-must_spawn :
      (p : Proxy)
      → ((fast_path inflight spec p).1 ≡ must_spawn) ↔ (any is_accepting (pool spec p) ≡ false)
  unfolding fast_path
  fast_path-must_spawn p = ground (arith, accepting-any p)

  fast_path-registry :
      (p : Proxy)
      → (fast_path inflight spec p).1 ≡ must_spawn
      → (fast_path inflight spec p).0.registry ≡ p.registry
  unfolding fast_path
  fast_path-registry p h = ground arith

  rest_of : Proxy → Proxy
  rest_of p = record p { ticket = (accepting_of inflight spec p).ticket }

  slow_path-NeedsSpawn :
      (p : Proxy) → (slow_path inflight spec p).1 ≡ must_spawn → NeedsSpawn spec (pool spec p)
  unfolding slow_path rest_of
  slow_path-NeedsSpawn p h = record {
    full = ground (arith, accepting-any p);
    none_coming = ground (arith, find-any is_coming (pool spec p));
    no_fallback = ground (
      arith,
      fallback-any (rest_of p),
      leb→le (effective_max_replicas spec) (length (pool spec p)),
    );
  }

  NeedsSpawn-slow_path :
      (p : Proxy) → NeedsSpawn spec (pool spec p) → (slow_path inflight spec p).1 ≡ must_spawn
  unfolding slow_path rest_of
  NeedsSpawn-slow_path p n = ground (
    arith,
    accepting-any p,
    find-any is_coming (pool spec p),
    fallback-any (rest_of p),
    n.full,
    n.none_coming,
    n.no_fallback,
  )

  -- What stands in front of the spawn.
  checked : Proxy → Proxy × Admission
  checked p = elim (fast_path inflight spec p).1 [
    | must_spawn ↦ slow_path inflight spec (fast_path inflight spec p).0
    | admitted r b ↦ fast_path inflight spec p
    | failed_spawn ↦ fast_path inflight spec p
  ]

  pick_or_spawn-checked :
      (spawned : Option Replica) (p : Proxy)
      → pick_or_spawn inflight spec spawned p ≡ spawn_after spec spawned (checked p)
  unfolding pick_or_spawn checked
  pick_or_spawn-checked spawned p = ground arith

  never_failed : (p : Proxy) → (checked p).1 ≡ failed_spawn → ⊥
  unfolding checked fast_path slow_path
  never_failed p h = ground arith

  pool-fast_path :
      (p : Proxy)
      → (fast_path inflight spec p).1 ≡ must_spawn
      → pool spec (fast_path inflight spec p).0 ≡ pool spec p
  pool-fast_path p h =
      ap (λ (reg : ReplicaRegistry). replicas_of reg spec.id) (fast_path-registry p h)

  checked-NeedsSpawn :
      (p : Proxy) (a : Admission)
      → (fast_path inflight spec p).1 ≡ a
      → ((checked p).1 ≡ must_spawn) ↔ NeedsSpawn spec (pool spec p)
  unfolding checked
  checked-NeedsSpawn p must_spawn e =
      let same = pool-fast_path p e in
      (
        (λ h.
            subst (λ (rs : List Replica). NeedsSpawn spec rs) same
              (slow_path-NeedsSpawn (fast_path inflight spec p).0 (rw (e, checked) at h))),
        (λ n.
            rw (e, checked)
              (NeedsSpawn-slow_path (fast_path inflight spec p).0
                (subst (λ (rs : List Replica). NeedsSpawn spec rs) (sym same) n))),
      )
  checked-NeedsSpawn p (admitted r b) e =
      ((λ h. absurd (ground arith)), (λ n. absurd (ground (arith, fast_path-must_spawn p, n.full))))
  checked-NeedsSpawn p failed_spawn e =
      ((λ h. absurd (ground arith)), (λ n. absurd (ground (arith, fast_path-must_spawn p, n.full))))

spawn_after-fails :
    (spec : Spec) (x : Proxy × Admission)
    → (x.1 ≡ failed_spawn → ⊥)
    → ((spawn_after spec none x).1 ≡ failed_spawn) ↔ (x.1 ≡ must_spawn)
spawn_after-fails spec (p, must_spawn) f = ((λ h. refl), (λ h. refl))
spawn_after-fails spec (p, admitted r b) f =
    ((λ h. absurd (ground arith)), (λ h. absurd (ground arith)))
spawn_after-fails spec (p, failed_spawn) f = absurd (f refl)

spawn_after-unasked :
    (spec : Spec) (spawned : Option Replica) (x : Proxy × Admission)
    → (x.1 ≡ must_spawn → ⊥)
    → spawn_after spec spawned x ≡ spawn_after spec none x
spawn_after-unasked spec spawned (p, must_spawn) f = absurd (f refl)
spawn_after-unasked spec spawned (p, admitted r b) f = refl
spawn_after-unasked spec spawned (p, failed_spawn) f = refl

-- A visitor asks for a new replica, and so is refused when the spawn fails, exactly when no
-- replica of the pool is ready with a free seat, none is on its way with one, and either no
-- replica is ready at all or the spec counts seats and its pool is below `max-replicas`. In every
-- other case the outcome and the registry are the same whatever a spawn would bring.
pub pick_or_spawn-NeedsSpawn :
    (inflight : ℕ → ℕ) (spec : Spec) (p : Proxy)
    → (((pick_or_spawn inflight spec none p).1 ≡ failed_spawn) ↔ NeedsSpawn spec (pool spec p))
      × ((spawned : Option Replica)
          → (NeedsSpawn spec (pool spec p) → ⊥)
          → pick_or_spawn inflight spec spawned p ≡ pick_or_spawn inflight spec none p)
pick_or_spawn-NeedsSpawn inflight spec p =
    let (asks, needs) = checked-NeedsSpawn inflight spec p (fast_path inflight spec p).1 refl in
    let (fails, left) =
      spawn_after-fails spec (checked inflight spec p) (never_failed inflight spec p) in
    let at_none = pick_or_spawn-checked inflight spec none p in
    (
      (
        (λ h. asks (fails (sym (ap (λ (x : Proxy × Admission). x.1) at_none) ∙ h))),
        (λ n. ap (λ (x : Proxy × Admission). x.1) at_none ∙ left (needs n)),
      ),
      (λ spawned f.
          pick_or_spawn-checked inflight spec spawned p
          ∙ spawn_after-unasked spec spawned (checked inflight spec p) (λ h. f (asks h))
          ∙ sym at_none),
    )
