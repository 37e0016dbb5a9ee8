-- ===== src/Interleaved.antt =====
-- The pool of one spec under concurrent tasks: visitors in `pick_or_spawn`
-- (crates/ruscker-admin/src/routes/proxy.rs), the scaler in `spawn_one` and
-- `readopt_running_replica` (crates/ruscker-admin/src/scaler.rs), and whatever else writes to the
-- registry. A step is one critical section of the registry's lock; the spec's mutex in
-- `spawn_locks` is held across several of them, so between two steps of its holder any other task
-- may take steps of its own.
pub mod Sections
pub mod Bounded
pub mod Refined
use ruscker.Prelude.{
  ℕ, ◌+◌, ◌≡◌, Bool, false, ◌&&◌, not, some, List, leb, if◌then◌else◌, length, any, string_key,
  nat_key, pair_key, ◌==◌, list_key,
}
use ruscker.Replica.{Replica}
use ruscker.Registry.{
  set_session_counts, ReplicaRegistry, replicas_of, add, remove, modify, upsert, all,
}
use ruscker.Registry.Counting.{occurrences}
use ruscker.Spec.{Spec, effective_max_replicas, effective_seats}
use ruscker.Routing.{Proxy, Admission, admitted, must_spawn, fast_path, slow_path, publish}
use ruscker.Routing.Growth.{IsFresh}
use ruscker.Scaler.Liveness.{adopted}

-- Who holds the spec's mutex: nobody, a task that waits for the backend's new replica, or one that
-- waits for a restarted replica to be ready again.
pub data Turn : Type 0 where
  free : Turn
  spawning : Turn
  adopting : Replica → Turn

pub record Shared : Type 0 where
  pub proxy : Proxy
  pub turn : Turn

-- The registry of a shared state after a write that keeps the mutex.
abbrev pub with_registry : Shared → ReplicaRegistry → Shared
with_registry s reg = record s { proxy = record s.proxy { registry = reg } }

abbrev pub is_known : Replica → List Replica → Bool
is_known r rs = any (λ q. q.id == r.id) rs

abbrev pub at_cap : Spec → List Replica → Bool
at_cap spec rs = leb (effective_max_replicas spec) (length rs)

-- One critical section. The index counts the visitors that leave the double-check to spawn although
-- the pool is at its cap.
pub data Step (spec : Spec) : Shared → Shared → ℕ → Type 0 where
  fast :
      (inflight : ℕ → ℕ) (s : Shared)
      → Step spec s (record s { proxy = (fast_path inflight spec s.proxy).0 }) 0
  double_check :
      (inflight : ℕ → ℕ) (p : Proxy) (r : Replica) (reserved : Bool)
      → (slow_path inflight spec p).1 ≡ admitted r reserved
      → Step spec
          (record { proxy = p; turn = free })
          (record { proxy = (slow_path inflight spec p).0; turn = free })
          0
  leave_to_spawn :
      (inflight : ℕ → ℕ) (p : Proxy)
      → (slow_path inflight spec p).1 ≡ must_spawn
      → Step spec
          (record { proxy = p; turn = free })
          (record { proxy = (slow_path inflight spec p).0; turn = spawning })
          (if at_cap spec (replicas_of p.registry spec.id) then 1 else 0)
  publish_first :
      (p : Proxy) (r : Replica)
      → Step spec
          (record { proxy = p; turn = spawning })
          (record { proxy = (publish spec p (some r)).0; turn = free })
          0
  spawn_begins :
      (p : Proxy)
      → at_cap spec (replicas_of p.registry spec.id) ≡ false
      → Step spec (record { proxy = p; turn = free }) (record { proxy = p; turn = spawning }) 0
  spawn_ends :
      (p : Proxy) (r : Replica)
      → Step spec
          (record { proxy = p; turn = spawning })
          (record {
            proxy = record p {
              registry = add p.registry (record r { sessions_max = effective_seats spec });
            };
            turn = free;
          })
          0
  spawn_fails :
      (p : Proxy)
      → Step spec (record { proxy = p; turn = spawning }) (record { proxy = p; turn = free }) 0
  readopt_begins :
      (p : Proxy) (r : Replica)
      → r.spec_id ≡ spec.id
      → (not (is_known r (replicas_of p.registry spec.id))
          && at_cap spec (replicas_of p.registry spec.id))
        ≡ false
      → Step spec (record { proxy = p; turn = free }) (record { proxy = p; turn = adopting r }) 0
  readopt_ends :
      (p : Proxy) (r : Replica)
      → r.spec_id ≡ spec.id
      → Step spec
          (record { proxy = p; turn = adopting r })
          (record {
            proxy = record p { registry = upsert p.registry (adopted spec r) };
            turn = free;
          })
          0
  readopt_fails :
      (p : Proxy) (r : Replica)
      → Step spec (record { proxy = p; turn = adopting r }) (record { proxy = p; turn = free }) 0
  -- Replicas that drain, die, time out or are restarted by hand.
  removed : (s : Shared) (i : ℕ) → Step spec s (with_registry s (remove s.proxy.registry i).0) 0
  -- Seats given back, states and timestamps.
  modified :
      (s : Shared) (i : ℕ) (f : Replica → Replica)
      → ((r : Replica) → (f r).id ≡ r.id)
      → Step spec s (with_registry s (modify s.proxy.registry i f)) 0
  -- The session table's counts, for every replica.
  recounted :
      (s : Shared) (counts : List (ℕ × ℕ))
      → Step spec s (with_registry s (set_session_counts s.proxy.registry counts)) 0
  -- Replicas of other specs, whose mutexes are others.
  added_elsewhere :
      (s : Shared) (r : Replica)
      → (r.spec_id == spec.id) ≡ false
      → Step spec s (with_registry s (add s.proxy.registry r)) 0

-- Steps in any order, and the sum of their indices.
pub data Run (spec : Spec) (s : Shared) : Shared → ℕ → Type 0 where
  here : Run spec s s 0
  later :
      {t next : Shared} {k n : ℕ} → Run spec s t k → Step spec t next n → Run spec s next (k + n)

-- What the backend's answer is in a step that adds a replica: one of the right spec, under an id that
-- the registry does not hold.
abbrev pub StepIsFresh : {spec : Spec} {s t : Shared} {k : ℕ} → Step spec s t k → Type 0
StepIsFresh {spec} (publish_first p r) = IsFresh spec p.registry r
StepIsFresh {spec} (spawn_ends p r) = IsFresh spec p.registry r
StepIsFresh (added_elsewhere s r other) = occurrences r.id (all s.proxy.registry) ≡ 0
StepIsFresh (fast inflight s) = Unit {0}
StepIsFresh (double_check inflight p r reserved e) = Unit {0}
StepIsFresh (leave_to_spawn inflight p e) = Unit {0}
StepIsFresh (spawn_begins p e) = Unit {0}
StepIsFresh (spawn_fails p) = Unit {0}
StepIsFresh (readopt_begins p r own room) = Unit {0}
StepIsFresh (readopt_ends p r own) = Unit {0}
StepIsFresh (readopt_fails p r) = Unit {0}
StepIsFresh (removed s i) = Unit {0}
StepIsFresh (modified s i f e) = Unit {0}
StepIsFresh (recounted s counts) = Unit {0}

abbrev pub AllFresh : {spec : Spec} {s t : Shared} {k : ℕ} → Run spec s t k → Type 0
AllFresh here = Unit {0}
AllFresh (later run step) = AllFresh run × StepIsFresh step

-- A run in which the backend answers as it should.
abbrev pub FreshRun : Spec → Shared → Shared → ℕ → Type 0
FreshRun spec s t k = (run : Run spec s t k) × AllFresh run

abbrev pub extend :
    {spec : Spec} {s t u : Shared} {k n : ℕ}
    → FreshRun spec s t k
    → (step : Step spec t u n) → StepIsFresh step
    → FreshRun spec s u (k + n)
extend (run, f) step fresh = (later run step, (f, fresh))

abbrev pub standing : {spec : Spec} {s : Shared} → FreshRun spec s s 0
standing = (here, tt)
