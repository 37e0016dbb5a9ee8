-- ===== src/MetricsCache.antt =====
-- The cache of replica metrics with its rolling history
-- (crates/ruscker-admin/src/metrics_cache.rs). A CPU percentage is the bit pattern of its f64.
pub mod History
pub mod Refreshed
use ruscker.Prelude.{
  ℕ, zero, suc, ◌-◌, Bool, ◌||◌, Option, none, some, List, [], ◌∷◌, ◌++◌, length, any, string_key,
  nat_key, pair_key, ◌==◌, list_key,
}
use ruscker.Prelude.Assoc

abbrev pub history_len : ℕ
history_len = 360

pub record ReplicaMetrics : Type 0 where
  pub cpu_percent : ℕ
  pub memory_bytes : ℕ

pub record CachedMetrics : Type 0 where
  pub metrics : ReplicaMetrics
  pub observed_at : ℕ
  pub cpu_history : List ℕ
  pub mem_history : List ℕ

abbrev pub Cache : Type 0
Cache = List (ℕ × CachedMetrics)

-- `drain(0..n)`.
abbrev pub drop {ℓ} : {A : Type ℓ} → ℕ → List A → List A
drop zero xs = xs
drop (suc n) [] = []
drop (suc n) (x ∷ xs) = drop n xs

-- A history with a sample more, of the last `history_len`: both are cut by what the first is over.
abbrev pub excess : List ℕ → ℕ
excess cpu_history = length cpu_history - history_len

abbrev pub histories : Option CachedMetrics → List ℕ × List ℕ
histories none = ([], [])
histories (some e) = (e.cpu_history, e.mem_history)

abbrev pub sampled : ℕ → ReplicaMetrics → Option CachedMetrics → CachedMetrics
sampled now m before =
    let cpu = (histories before).0 ++ m.cpu_percent ∷ [] in
    let mem = (histories before).1 ++ m.memory_bytes ∷ [] in
    record {
      metrics = m;
      observed_at = now;
      cpu_history = drop (excess cpu) cpu;
      mem_history = drop (excess cpu) mem;
    }

abbrev pub is_kept : List (ℕ × ReplicaMetrics) → List ℕ → ℕ → Bool
is_kept fresh unsampled i = any (λ f. f.0 == i) fresh || any (λ j. j == i) unsampled

abbrev pub record_all : ℕ → List (ℕ × ReplicaMetrics) → Cache → Cache
record_all now [] cache = cache
record_all now ((i, m) ∷ fresh) cache =
    record_all now fresh (Assoc.insert i (sampled now m (Assoc.lookup i cache)) cache)

unfoldable pub replace_keeping : ℕ → List (ℕ × ReplicaMetrics) → List ℕ → Cache → Cache
replace_keeping now fresh unsampled cache =
    record_all now fresh (Assoc.retain (λ i e. is_kept fresh unsampled i) cache)

abbrev pub replace : ℕ → List (ℕ × ReplicaMetrics) → Cache → Cache
replace now fresh cache = replace_keeping now fresh [] cache

-- The answers of the backend, sorted into samples and failures.
abbrev pub fresh_of : List (ℕ × Option ReplicaMetrics) → List (ℕ × ReplicaMetrics)
fresh_of [] = []
fresh_of ((i, none) ∷ rs) = fresh_of rs
fresh_of ((i, some m) ∷ rs) = (i, m) ∷ fresh_of rs

abbrev pub unsampled_of : List (ℕ × Option ReplicaMetrics) → List ℕ
unsampled_of [] = []
unsampled_of ((i, none) ∷ rs) = i ∷ unsampled_of rs
unsampled_of ((i, some m) ∷ rs) = unsampled_of rs

unfoldable pub refresh_once : ℕ → List (ℕ × Option ReplicaMetrics) → Cache → Cache
refresh_once now [] cache = replace now [] cache
refresh_once now (r ∷ rs) cache =
    replace_keeping now (fresh_of (r ∷ rs)) (unsampled_of (r ∷ rs)) cache
