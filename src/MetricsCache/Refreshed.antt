-- ===== src/MetricsCache/Refreshed.antt =====
-- What a refresh makes of the row of each replica, in terms of the backend's answers.
use ruscker.Prelude.{
  ℕ, zero, suc, ◌-◌, ◌≤◌, ◌≡◌, refl, sym, ap, ◌∙◌, subst, ◌⊎◌, inl, inr, Bool, true, false, Option,
  none, some, List, [], ◌∷◌, ◌++◌, arith, if◌then◌else◌, Bool-cases, Option-cases, is_some, length,
  any, length-append, string_key, nat_key, pair_key, ◌==◌, list_key,
}
use ruscker.Prelude.Assoc
use ruscker.MetricsCache.{
  ReplicaMetrics, CachedMetrics, Cache, drop, excess, histories, sampled, is_kept, replace_keeping,
  fresh_of, unsampled_of, refresh_once,
}
use ruscker.MetricsCache.History.{
  lookup-replace_keeping, IsBounded, AllBounded, AllBounded-lookup, length-drop, after_sample,
  any-lookup,
}

-- The last samples of a history: all of them, or 360.
pub record IsRecent (whole shown : List ℕ) : Type 0 where
  pub cut : List ℕ
  pub parts : whole ≡ cut ++ shown
  pub most : length shown ≤ 360
  pub all_or_full : (cut ≡ []) ⊎ (length shown ≡ 360)

abbrev pub cpu_before : Option CachedMetrics → List ℕ
cpu_before none = []
cpu_before (some e) = e.cpu_history

abbrev pub mem_before : Option CachedMetrics → List ℕ
mem_before none = []
mem_before (some e) = e.mem_history

pub record IsSampled (now : ℕ) (m : ReplicaMetrics) (before : Option CachedMetrics)
    (row : CachedMetrics) : Type 0 where
  pub current : row.metrics ≡ m
  pub time : row.observed_at ≡ now
  pub cpu : IsRecent (cpu_before before ++ m.cpu_percent ∷ []) row.cpu_history
  pub mem : IsRecent (mem_before before ++ m.memory_bytes ∷ []) row.mem_history

-- By the answer for the replica: none, a failure, or a sample.
abbrev pub IsRefreshed :
    ℕ → Option (Option ReplicaMetrics) → Option CachedMetrics → Option CachedMetrics → Type 0
IsRefreshed now none before after = after ≡ none
IsRefreshed now (some none) before after = after ≡ before
IsRefreshed now (some (some m)) before after =
    (row : CachedMetrics) × (after ≡ some row) × IsSampled now m before row

abbrev Results : Type 0
Results = List (ℕ × Option ReplicaMetrics)

abbrev sample_of : Option (Option ReplicaMetrics) → Option ReplicaMetrics
sample_of none = none
sample_of (some o) = o

abbrev failed : Option (Option ReplicaMetrics) → Bool
failed none = false
failed (some none) = true
failed (some (some m)) = false

entries-fresh_of : (j : ℕ) (rs : Results) → Assoc.entries j (fresh_of rs) ≤ Assoc.entries j rs
entries-fresh_of j [] = omega arith
entries-fresh_of j ((i, none) ∷ rs) = ground (arith, entries-fresh_of j rs)
entries-fresh_of j ((i, some m) ∷ rs) = ground (arith, entries-fresh_of j rs)

lookup-fresh_of :
    (j : ℕ) (rs : Results)
    → Assoc.entries j rs ≤ 1
    → Assoc.lookup j (fresh_of rs) ≡ sample_of (Assoc.lookup j rs)
lookup-fresh_of j [] u = refl
lookup-fresh_of j ((i, none) ∷ rs) u =
    ground (arith, lookup-fresh_of j rs, entries-fresh_of j rs, Assoc.lookup-none j (fresh_of rs))
lookup-fresh_of j ((i, some m) ∷ rs) u = ground (arith, lookup-fresh_of j rs)

any-unsampled_of :
    (j : ℕ) (rs : Results)
    → Assoc.entries j rs ≤ 1
    → any (λ i. i == j) (unsampled_of rs) ≡ failed (Assoc.lookup j rs)
any-unsampled_of j [] u = refl
any-unsampled_of j ((i, none) ∷ rs) u = ground (arith, any-unsampled_of j rs)
any-unsampled_of j ((i, some m) ∷ rs) u =
    ground (arith, any-unsampled_of j rs, Assoc.lookup-none j rs)

drop-parts : (n : ℕ) (xs : List ℕ) → (cut : List ℕ) × (xs ≡ cut ++ drop n xs) × (n ≡ 0 → cut ≡ [])
drop-parts zero xs = ([], refl, λ e. refl)
drop-parts (suc n) [] = ([], refl, λ e. refl)
drop-parts (suc n) (x ∷ xs) =
    let (cut, e, _) = drop-parts n xs in (x ∷ cut, ap (λ t. x ∷ t) e, λ z. absurd (omega arith))

drop-IsRecent : (n : ℕ) (xs : List ℕ) → n ≡ length xs - 360 → IsRecent xs (drop n xs)
drop-IsRecent n xs e =
    let (cut, parts, short) = drop-parts n xs in
    let size = length-drop {0} n xs in
    record {
      cut = cut;
      parts = parts;
      most = omega arith;
      all_or_full = elim (Bool-cases (n == 0)) [
        | inl z ↦ inl (short (ground arith))
        | inr z ↦ inr (ground arith)
      ];
    }

length-before :
    (o : Option CachedMetrics)
    → ((e : CachedMetrics) → o ≡ some e → IsBounded e)
    → (length (cpu_before o) ≡ length (mem_before o))
      × ((histories o).0 ≡ cpu_before o)
      × ((histories o).1 ≡ mem_before o)
length-before none h = (refl, refl, refl)
length-before (some e) h = ((h e refl).0, refl, refl)

sampled-IsSampled :
    (now : ℕ) (m : ReplicaMetrics) (o : Option CachedMetrics)
    → ((e : CachedMetrics) → o ≡ some e → IsBounded e)
    → IsSampled now m o (sampled now m o)
sampled-IsSampled now m o h =
    let (same, c, d) = length-before o h in
    let cpu = cpu_before o ++ m.cpu_percent ∷ [] in
    let mem = mem_before o ++ m.memory_bytes ∷ [] in
    let a = length-append (cpu_before o) (m.cpu_percent ∷ []) in
    let b = length-append (mem_before o) (m.memory_bytes ∷ []) in
    record {
      current = refl;
      time = refl;
      cpu = rw c (drop-IsRecent (excess cpu) cpu refl);
      mem = rw (c, d) (drop-IsRecent (excess cpu) mem (omega arith));
    }

any-failed :
    (j : ℕ) (rs : Results)
    → Assoc.entries j rs ≤ 1
    → is_kept (fresh_of rs) (unsampled_of rs) j ≡ is_some (Assoc.lookup j rs)
any-failed j rs u = elim (Option-cases (Assoc.lookup j rs)) [
  | inl e ↦
      ground (arith, any-lookup j (fresh_of rs), lookup-fresh_of j rs u, any-unsampled_of j rs u)
  | inr (o, e) ↦ rw e (
      kept o (any-lookup j (fresh_of rs) ∙ rw (lookup-fresh_of j rs u) (rw e refl))
        (any-unsampled_of j rs u ∙ rw e refl))
]
  where
    kept :
        (o : Option ReplicaMetrics)
        → any (λ f. f.0 == j) (fresh_of rs) ≡ is_some (sample_of (some o))
        → any (λ i. i == j) (unsampled_of rs) ≡ failed (some o)
        → is_kept (fresh_of rs) (unsampled_of rs) j ≡ true
    kept none a b = rw (a, b) refl
    kept (some m) a b = rw a refl

module _ (now j : ℕ) (rs : Results) (cache : Cache) (u : Assoc.IsMap rs)
    (b : AllBounded cache) where
  refreshed-lookup :
      Assoc.lookup j (replace_keeping now (fresh_of rs) (unsampled_of rs) cache)
      ≡ after_sample now
          (sample_of (Assoc.lookup j rs))
          (if is_some (Assoc.lookup j rs) then Assoc.lookup j cache else none)
  refreshed-lookup =
      rw (← lookup-fresh_of j rs (u j), ← any-failed j rs (u j))
        (lookup-replace_keeping now j (fresh_of rs) (unsampled_of rs) cache
          (λ k. omega (arith, entries-fresh_of k rs, u k)))

  answered :
      (o : Option (Option ReplicaMetrics))
      → IsRefreshed now o
          (Assoc.lookup j cache)
          (after_sample now (sample_of o) (if is_some o then Assoc.lookup j cache else none))
  answered none = refl
  answered (some none) = refl
  answered (some (some m)) = (
    sampled now m (Assoc.lookup j cache),
    refl,
    sampled-IsSampled now m (Assoc.lookup j cache) (λ e h. AllBounded-lookup j e cache b h),
  )

  replaced-IsRefreshed :
      IsRefreshed now
        (Assoc.lookup j rs)
        (Assoc.lookup j cache)
        (Assoc.lookup j (replace_keeping now (fresh_of rs) (unsampled_of rs) cache))
  replaced-IsRefreshed =
      subst
        (λ (after : Option CachedMetrics).
          IsRefreshed now (Assoc.lookup j rs) (Assoc.lookup j cache) after)
        (sym refreshed-lookup) (answered (Assoc.lookup j rs))

-- After a refresh of the metrics cache a sampled replica has a row with the sample, its time and
-- both histories, each the old history with the new value at its end, the oldest cut off only
-- where more than 360 would stand; a replica whose sample failed has the row that it had; and a
-- replica that was not asked has none. The results name each replica at most once, and the two
-- histories of a row were equally long and at most 360 samples.
pub refresh_once-IsRefreshed :
    (now j : ℕ) (results : List (ℕ × Option ReplicaMetrics)) (cache : Cache)
    → Assoc.IsMap results
    → AllBounded cache
    → IsRefreshed now
        (Assoc.lookup j results)
        (Assoc.lookup j cache)
        (Assoc.lookup j (refresh_once now results cache))
unfolding refresh_once
refresh_once-IsRefreshed now j [] cache u b = replaced-IsRefreshed now j [] cache u b
refresh_once-IsRefreshed now j (r ∷ rs) cache u b = replaced-IsRefreshed now j (r ∷ rs) cache u b
