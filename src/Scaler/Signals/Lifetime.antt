-- ===== src/Scaler/Signals/Lifetime.antt =====
-- Which replicas the lifetime reap picks.
use ruscker.Prelude.{
  ℕ, ◌≡◌, refl, subst, ◌≢◌, ◌↔◌, inl, inr, Bool, true, ◌||◌, Option, none, some, List, Memᴰ, arith,
  Bool-cases, is_some, keep_if, nat_key, string_key, pair_key, ℤ, leb_ℤ, saturating_add,
  keep_if-Mem, Mem-keep_if, map-Mem, Mem-map,
}
use ruscker.Replica.{Replica}
use ruscker.Scaler.Signals.{lifetime_reap_candidates, past_hard, past_soft, age_secs, is_idle}

-- Why a replica is recycled: idle past the hard or the soft cap, or busy past the hard cap and the
-- drain window.
pub data Outlived (now : ℕ) (hard soft : Option ℤ) (drain : ℤ) (r : Replica) : Type 0 where
  idle_past_hard :
      (secs : ℤ)
      → hard ≡ some secs
      → r.sessions_active ≡ 0
      → leb_ℤ secs (age_secs now r) ≡ true
      → Outlived now hard soft drain r
  busy_past_drain :
      (secs : ℤ)
      → hard ≡ some secs
      → r.sessions_active ≢ 0
      → leb_ℤ (saturating_add secs drain) (age_secs now r) ≡ true
      → Outlived now hard soft drain r
  idle_past_soft :
      (secs : ℤ)
      → soft ≡ some secs
      → r.sessions_active ≡ 0
      → leb_ℤ secs (age_secs now r) ≡ true
      → Outlived now hard soft drain r

module _ (now : ℕ) (hard soft : Option ℤ) (drain : ℤ) where
  past-Outlived :
      (r : Replica)
      → (past_hard now hard drain r || past_soft now soft r) ≡ true
      → Outlived now hard soft drain r
  past-Outlived r h = elim (Bool-cases (past_hard now hard drain r)) [
    | inl p ↦ from_hard hard refl p
    | inr p ↦ from_soft soft refl (ground arith)
  ]
    where
      from_hard :
          (o : Option ℤ)
          → hard ≡ o
          → past_hard now o drain r ≡ true
          → Outlived now hard soft drain r
      from_hard none e p = absurd (ground arith)
      from_hard (some secs) e p = elim (Bool-cases (is_idle r)) [
        | inl i ↦ idle_past_hard secs e (ground arith) (rw (i, past_hard) at p)
        | inr i ↦ busy_past_drain secs e (λ z. ground arith) (rw (i, past_hard) at p)
      ]

      from_soft :
          (o : Option ℤ) → soft ≡ o → past_soft now o r ≡ true → Outlived now hard soft drain r
      from_soft none e p = absurd (ground arith)
      from_soft (some secs) e p = idle_past_soft secs e (ground arith) (ground arith)

  Outlived-past :
      (r : Replica)
      → Outlived now hard soft drain r
      → ((past_hard now hard drain r || past_soft now soft r) ≡ true)
        × ((is_some hard || is_some soft) ≡ true)
  Outlived-past r (idle_past_hard secs e i a) = (ground arith, ground arith)
  Outlived-past r (busy_past_drain secs e i a) = (ground arith, ground arith)
  Outlived-past r (idle_past_soft secs e i a) = (ground arith, ground arith)

  is_past : Replica → Bool
  is_past r = past_hard now hard drain r || past_soft now soft r

  reaped-Outlived :
      (rs : List Replica) (i : ℕ)
      → Memᴰ i (lifetime_reap_candidates rs now hard soft drain)
      → (r : Replica) × Memᴰ r rs × (r.id ≡ i) × Outlived now hard soft drain r
  unfolding lifetime_reap_candidates is_past
  reaped-Outlived rs i m = elim (Bool-cases (is_some hard || is_some soft)) [
    | inr e ↦ elim (rw (e, lifetime_reap_candidates) at m) [ ]
    | inl e ↦
        let (r, k, same) =
          map-Mem {A = Replica} (λ r. r.id) i (keep_if is_past rs)
            (rw (e, lifetime_reap_candidates) at m) in
        let (member, past) = keep_if-Mem is_past r rs k in (r, member, same, past-Outlived r past)
  ]

  Outlived-reaped :
      (rs : List Replica) (r : Replica)
      → Memᴰ r rs
      → Outlived now hard soft drain r
      → Memᴰ r.id (lifetime_reap_candidates rs now hard soft drain)
  unfolding lifetime_reap_candidates is_past
  Outlived-reaped rs r m o =
      let (past, set) = Outlived-past r o in
      rw (set, lifetime_reap_candidates)
        (Mem-map {A = Replica} (λ r. r.id) r (keep_if is_past rs) (Mem-keep_if is_past r rs m past))

  -- The lifetime reap picks exactly the ids of the replicas that have outlived a cap: an idle one
  -- at the hard or the soft cap, a busy one at the hard cap plus the drain window and never at the
  -- soft cap.
  pub lifetime_reap_candidates-Outlived :
      (rs : List Replica) (i : ℕ)
      → Memᴰ i (lifetime_reap_candidates rs now hard soft drain)
        ↔ ((r : Replica) × Memᴰ r rs × (r.id ≡ i) × Outlived now hard soft drain r)
  unfolding lifetime_reap_candidates
  lifetime_reap_candidates-Outlived rs i = (
    reaped-Outlived rs i,
    λ found.
        let (r, m, same, o) = found in
        subst (λ (j : ℕ). Memᴰ j (lifetime_reap_candidates rs now hard soft drain)) same
          (Outlived-reaped rs r m o),
  )
