-- ===== src/Routing/Admit.antt =====
-- The complete behaviour of `pick_or_spawn` for seat-based specs, and what follows for seats and
-- for the size of the pool.
use ruscker.Prelude.{
  ℕ, ◌≤◌, ◌<◌, ◌≡◌, refl, ◌⊎◌, inl, inr, true, false, ◌||◌, Option, none, some, List, Memᴰ, arith,
  leb, leb→le, Bool-cases, Option-cases, length, any, find, find-mem, nat_key, string_key, pair_key,
}
use ruscker.Replica.{Replica, is_accepting}
use ruscker.Registry.{replicas_of, inc_sessions, add}
use ruscker.Spec.{Spec}
use ruscker.Routing.{
  Proxy, pick_or_spawn, Admission, effective_seats, is_api, effective_max_replicas, kind, serves,
  is_coming, accepting_of, effective_routing, admitted, failed_spawn, any_of,
}
use ruscker.Routing.Pick.{pick_accepting_lem, pick_accepting-is_some, pick_replica_lem}

abbrev pub pool : Spec → Proxy → List Replica
pool spec p = replicas_of p.registry spec.id

abbrev pub sized : Spec → Replica → Replica
sized spec r = record r { sessions_max = effective_seats spec }

-- The cap leaves room for one more replica, or no replica serves.
abbrev pub MaySpawn : Spec → List Replica → Type 0
MaySpawn spec rs = (length rs < effective_max_replicas spec) ⊎ (any serves rs ≡ false)

module _ (spec : Spec) (spawned : Option Replica) (p : Proxy) where
  -- What `pick_or_spawn` may give: a free seat, a seat over the limit, a new replica, an error.
  pub data Admits (q : Proxy × Admission) : Type 0 where
    seated_in :
        (r : Replica)
        → Memᴰ r (pool spec p)
        → (is_accepting r || is_coming r) ≡ true
        → q.0.registry ≡ inc_sessions p.registry r.id
        → q.1 ≡ admitted r true
        → Admits q
    overloaded :
        (r : Replica)
        → Memᴰ r (pool spec p)
        → serves r ≡ true
        → any is_accepting (pool spec p) ≡ false
        → effective_max_replicas spec ≤ length (pool spec p)
        → q.0.registry ≡ inc_sessions p.registry r.id
        → q.1 ≡ admitted r true
        → Admits q
    grown :
        (fresh : Replica)
        → spawned ≡ some fresh
        → any is_accepting (pool spec p) ≡ false
        → MaySpawn spec (pool spec p)
        → q.0.registry ≡ inc_sessions (add p.registry (sized spec fresh)) fresh.id
        → q.1 ≡ admitted (sized spec fresh) true
        → Admits q
    refused :
        spawned ≡ none
        → any is_accepting (pool spec p) ≡ false
        → MaySpawn spec (pool spec p)
        → q.0.registry ≡ p.registry
        → q.1 ≡ failed_spawn
        → Admits q

module _ (inflight : ℕ → ℕ) (spec : Spec) (spawned : Option Replica) (p : Proxy)
    (seats : is_api (kind spec) ≡ false) where
  fast-Admits :
      (r : Replica)
      → (accepting_of inflight spec p).choice ≡ some r
      → Admits spec spawned p (pick_or_spawn inflight spec spawned p)
  unfolding pick_or_spawn
  fast-Admits r e =
      let (m, a) =
        (pick_accepting_lem inflight (effective_routing spec) (is_api (kind spec)) p.ticket
            (pool spec p)).1
          r e in
      seated_in r m (ground arith) (ground arith) (ground arith)

  p₁ : Proxy
  p₁ = record p { ticket = (accepting_of inflight spec p).ticket }

  p₂ : Proxy
  unfolding p₁
  p₂ = record p { ticket = (accepting_of inflight spec p₁).ticket }

  still_full :
      (accepting_of inflight spec p).choice ≡ none
      → (any is_accepting (pool spec p) ≡ false) × ((accepting_of inflight spec p₁).choice ≡ none)
  unfolding p₁
  still_full e = ground (
    arith,
    pick_accepting-is_some inflight (effective_routing spec) (is_api (kind spec)) p.ticket
        (pool spec p),
    pick_accepting-is_some inflight (effective_routing spec) (is_api (kind spec)) p₁.ticket
        (pool spec p),
  )

  coming-Admits :
      (r : Replica)
      → (accepting_of inflight spec p).choice ≡ none
      → find is_coming (pool spec p) ≡ some r
      → Admits spec spawned p (pick_or_spawn inflight spec spawned p)
  unfolding pick_or_spawn p₂
  coming-Admits r e c =
      let (m, a) = find-mem is_coming (pool spec p) r c in
      let (f, e₁) = still_full e in seated_in r m (ground arith) (ground arith) (ground arith)

  overloaded-Admits :
      (r : Replica)
      → (accepting_of inflight spec p).choice ≡ none
      → find is_coming (pool spec p) ≡ none
      → leb (effective_max_replicas spec) (length (pool spec p)) ≡ true
      → (any_of inflight spec p₂).choice ≡ some r
      → Admits spec spawned p (pick_or_spawn inflight spec spawned p)
  unfolding pick_or_spawn p₂
  overloaded-Admits r e c at_cap o =
      let (f, e₁) = still_full e in
      let (m, s, _) =
        (pick_replica_lem inflight (effective_routing spec) (is_api (kind spec)) p₂.ticket
            (pool spec p)).1
          r o in
      overloaded r m s f (leb→le _ _ at_cap) (ground arith) (ground arith)

  grown-Admits :
      (accepting_of inflight spec p).choice ≡ none
      → find is_coming (pool spec p) ≡ none
      → MaySpawn spec (pool spec p)
      → (leb (effective_max_replicas spec) (length (pool spec p)) ≡ false)
        ⊎ ((any_of inflight spec p₂).choice ≡ none)
      → (o : Option Replica) → spawned ≡ o
      → Admits spec spawned p (pick_or_spawn inflight spec spawned p)
  unfolding pick_or_spawn p₂
  grown-Admits e c may why none h =
      let (f, e₁) = still_full e in refused h f may (ground arith) (ground arith)
  grown-Admits e c may why (some fresh) h =
      let (f, e₁) = still_full e in grown fresh h f may (ground arith) (ground arith)

  capped-Admits :
      (accepting_of inflight spec p).choice ≡ none
      → find is_coming (pool spec p) ≡ none
      → leb (effective_max_replicas spec) (length (pool spec p)) ≡ true
      → Admits spec spawned p (pick_or_spawn inflight spec spawned p)
  unfolding p₂
  capped-Admits e c at_cap = elim (Option-cases (any_of inflight spec p₂).choice) [
    | inr (r, o) ↦ overloaded-Admits r e c at_cap o
    | inl o ↦
        grown-Admits e c
          (inr (
            ground (
              arith,
              (pick_replica_lem inflight (effective_routing spec) (is_api (kind spec)) p₂.ticket
                  (pool spec p)).0,
            )))
          (inr o) spawned refl
  ]

  -- `pick_or_spawn` for a seat-based spec does one of four things: it reserves a free seat of the
  -- pool; at the replica cap, with every ready replica full, it reserves one seat too many on a
  -- ready replica; below the cap, or with no ready replica, it publishes the spawned replica with
  -- its first seat reserved; or the spawn fails and the registry stays as it was.
  pub pick_or_spawn-Admits : Admits spec spawned p (pick_or_spawn inflight spec spawned p)
  pick_or_spawn-Admits = elim (Option-cases (accepting_of inflight spec p).choice) [
    | inr (r, e) ↦ fast-Admits r e
    | inl e ↦ elim (Option-cases (find is_coming (pool spec p))) [
      | inr (r, c) ↦ coming-Admits r e c
      | inl c ↦ elim (Bool-cases (leb (effective_max_replicas spec) (length (pool spec p)))) [
        | inl at_cap ↦ capped-Admits e c at_cap
        | inr below ↦ grown-Admits e c (inl (ground arith)) (inl below) spawned refl
      ]
    ]
  ]
