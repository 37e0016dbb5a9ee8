-- ===== src/MetricsCache/History.antt =====
-- What a refresh does to the row of each replica, and the bound on the histories.
use ruscker.Prelude.{
  ℕ, zero, suc, ◌-◌, ◌≤◌, ◌≡◌, refl, ap, ◌∙◌, subst, inl, inr, Bool, Option, none, some, List, [],
  ◌∷◌, ◌++◌, arith, if◌then◌else◌, Bool-cases, is_some, eq_of_some, length, any, length-append,
  string_key, same_nat_iff, nat_key, pair_key, ◌==◌, list_key,
}
use ruscker.Prelude.Assoc
use ruscker.MetricsCache.{
  history_len, ReplicaMetrics, CachedMetrics, Cache, drop, excess, histories, sampled, is_kept,
  record_all, replace_keeping,
}

lookup-retain_key :
    (q : ℕ → Bool) (j : ℕ) (m : Cache)
    → Assoc.lookup j (Assoc.retain (λ i e. q i) m) ≡ (if q j then Assoc.lookup j m else none)
lookup-retain_key q j [] = ground arith
lookup-retain_key q j ((i, e) ∷ m) = elim (Bool-cases (i == j)) [
  | inl s ↦ let same = (same_nat_iff i j).0 s in ground (arith, lookup-retain_key q j m, ap q same)
  | inr s ↦ ground (arith, lookup-retain_key q j m)
]

abbrev pub after_sample : ℕ → Option ReplicaMetrics → Option CachedMetrics → Option CachedMetrics
after_sample now none before = before
after_sample now (some m) before = some (sampled now m before)

lookup-record_all :
    (now j : ℕ) (fresh : List (ℕ × ReplicaMetrics)) (cache : Cache)
    → Assoc.IsMap fresh
    → Assoc.lookup j (record_all now fresh cache)
      ≡ after_sample now (Assoc.lookup j fresh) (Assoc.lookup j cache)
lookup-record_all now j [] cache u = refl
lookup-record_all now j ((i, m) ∷ fresh) cache u =
    let v = sampled now m (Assoc.lookup i cache) in
    let rest = lookup-record_all now j fresh (Assoc.insert i v cache) (λ k. ground (arith, u k)) in
    let step = Assoc.lookup-insert i j v cache in
    elim (Bool-cases (i == j)) [
      | inl s ↦
          let same = (same_nat_iff i j).0 s in
          let gone = Assoc.lookup-none j fresh (ground (arith, u j)) in
          rest ∙ rw (gone, step, s) (ap (λ k. some (sampled now m (Assoc.lookup k cache))) same)
      | inr s ↦ rest ∙ rw (step, s) refl
    ]

pub any-lookup :
    (j : ℕ) (fresh : List (ℕ × ReplicaMetrics))
    → any (λ f. f.0 == j) fresh ≡ is_some (Assoc.lookup j fresh)
any-lookup j [] = refl
any-lookup j ((i, m) ∷ fresh) = ground (arith, any-lookup j fresh)

pub lookup-replace_keeping :
    (now j : ℕ) (fresh : List (ℕ × ReplicaMetrics)) (unsampled : List ℕ) (cache : Cache)
    → Assoc.IsMap fresh
    → Assoc.lookup j (replace_keeping now fresh unsampled cache)
      ≡ after_sample now
          (Assoc.lookup j fresh)
          (if is_kept fresh unsampled j then Assoc.lookup j cache else none)
unfolding replace_keeping
lookup-replace_keeping now j fresh unsampled cache u =
    lookup-record_all now j fresh (Assoc.retain (λ i e. is_kept fresh unsampled i) cache) u
    ∙ ap (λ o. after_sample now (Assoc.lookup j fresh) o)
        (lookup-retain_key (λ i. is_kept fresh unsampled i) j cache)

pub length-drop {ℓ} : {A : Type ℓ} (n : ℕ) (xs : List A) → length (drop n xs) ≡ length xs - n
length-drop zero xs = omega arith
length-drop (suc n) [] = omega arith
length-drop (suc n) (x ∷ xs) = omega (arith, length-drop n xs)

-- Both histories of a row have the same length, at most `history_len`.
abbrev pub IsBounded : CachedMetrics → Type 0
IsBounded e = (length e.cpu_history ≡ length e.mem_history) × (length e.cpu_history ≤ history_len)

abbrev pub AllBounded : Cache → Type 0
AllBounded [] = Unit {0}
AllBounded ((i, e) ∷ m) = IsBounded e × AllBounded m

pub length-histories :
    (o : Option CachedMetrics)
    → ((e : CachedMetrics) → o ≡ some e → IsBounded e)
    → length (histories o).0 ≡ length (histories o).1
length-histories none h = refl
length-histories (some e) h = (h e refl).0

sampled-IsBounded :
    (now : ℕ) (m : ReplicaMetrics) (o : Option CachedMetrics)
    → ((e : CachedMetrics) → o ≡ some e → IsBounded e)
    → IsBounded (sampled now m o)
sampled-IsBounded now m o h =
    let cpu = (histories o).0 ++ m.cpu_percent ∷ [] in
    let mem = (histories o).1 ++ m.memory_bytes ∷ [] in
    let a = length-append (histories o).0 (m.cpu_percent ∷ []) in
    let b = length-append (histories o).1 (m.memory_bytes ∷ []) in
    let same = length-histories o h in
    (
      omega (arith, length-drop {0} (excess cpu) cpu, length-drop {0} (excess cpu) mem),
      omega (arith, length-drop {0} (excess cpu) cpu),
    )

pub AllBounded-lookup :
    (j : ℕ) (e : CachedMetrics) (m : Cache) → AllBounded m → Assoc.lookup j m ≡ some e → IsBounded e
AllBounded-lookup j e [] b h = absurd (ground arith)
AllBounded-lookup j e ((i, d) ∷ m) b h = elim (Bool-cases (i == j)) [
  | inl s ↦ subst IsBounded (eq_of_some d e (rw (s, Assoc.lookup) at h)) b.0
  | inr s ↦ AllBounded-lookup j e m b.1 (rw (s, Assoc.lookup) at h)
]

insert-AllBounded :
    (j : ℕ) (e : CachedMetrics) (m : Cache)
    → IsBounded e
    → AllBounded m
    → AllBounded (Assoc.insert j e m)
insert-AllBounded j e [] h b = (h, tt)
insert-AllBounded j e ((i, d) ∷ m) h b = elim (Bool-cases (i == j)) [
  | inl s ↦ rw (s, Assoc.insert) (h, b.1)
  | inr s ↦ rw (s, Assoc.insert) (b.0, insert-AllBounded j e m h b.1)
]

retain-AllBounded :
    (p : ℕ → CachedMetrics → Bool) (m : Cache) → AllBounded m → AllBounded (Assoc.retain p m)
retain-AllBounded p [] b = tt
retain-AllBounded p ((i, d) ∷ m) b = elim (Bool-cases (p i d)) [
  | inl s ↦ rw (s, Assoc.retain) (b.0, retain-AllBounded p m b.1)
  | inr s ↦ rw (s, Assoc.retain) (retain-AllBounded p m b.1)
]

record_all-AllBounded :
    (now : ℕ) (fresh : List (ℕ × ReplicaMetrics)) (cache : Cache)
    → AllBounded cache
    → AllBounded (record_all now fresh cache)
record_all-AllBounded now [] cache b = b
record_all-AllBounded now ((i, m) ∷ fresh) cache b =
    let old = Assoc.lookup i cache in
    record_all-AllBounded now fresh (Assoc.insert i (sampled now m old) cache) (
      insert-AllBounded i (sampled now m old) cache
        (sampled-IsBounded now m old (λ e h. AllBounded-lookup i e cache b h)) b)

-- A refresh keeps the CPU and memory history of each replica equally long and at most 360 samples.
pub replace_keeping-AllBounded :
    (now : ℕ) (fresh : List (ℕ × ReplicaMetrics)) (unsampled : List ℕ) (cache : Cache)
    → AllBounded cache
    → AllBounded (replace_keeping now fresh unsampled cache)
unfolding replace_keeping
replace_keeping-AllBounded now fresh unsampled cache b =
    record_all-AllBounded now fresh (Assoc.retain (λ i e. is_kept fresh unsampled i) cache)
      (retain-AllBounded (λ i e. is_kept fresh unsampled i) cache b)
