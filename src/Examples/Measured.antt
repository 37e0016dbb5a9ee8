-- ===== src/Examples/Measured.antt =====
-- Examples of the access counter, the metrics cache, the election and scheduled jobs.
use ruscker.Prelude.{
  ℕ, ◌+◌, ◌≤◌, ◌≡◌, refl, true, false, Option, none, some, List, [], ◌∷◌, arith, string_key,
  nat_key, pair_key, list_key,
}
use ruscker.Prelude.Assoc
use ruscker.AccessCounter.{
  Bucket, Drain, Event, access, flush_starts, bucket_written, bucket_refused, handle_all,
}
use ruscker.AccessCounter.Account.{counted, counted_for, accesses, accesses_of, handle_all-counted}
use ruscker.MetricsCache.{ReplicaMetrics, Cache, refresh_once}
use ruscker.MetricsCache.Refreshed.{IsRefreshed, refresh_once-IsRefreshed}
use ruscker.Leader.{LockState, Answers, is_leader}
use ruscker.Leader.Confirmed.{IsSound, is_confirmed, is_leader-is_confirmed}
use ruscker.Jobs.{Schedule, Cron, fires}
use ruscker.Jobs.Claimed.{fires-le-one}

abbrev idle : Drain
idle = record {
  counter = record { pending = []; dropped = 0; flush_failures = 0 };
  entries = [];
  persisted = [];
}

abbrev api : Bucket
api = ("api", "2026-01-01")

-- A flush that the database refuses, with an access in between, and one that it takes.
abbrev day_of_events : List Event
day_of_events =
    access api ∷ flush_starts ∷ access api ∷ bucket_refused ∷ flush_starts ∷ bucket_written ∷ []

handle_all-counted_example :
    (counted (handle_all day_of_events idle) + (handle_all day_of_events idle).counter.dropped
      ≡ counted idle + idle.counter.dropped + accesses day_of_events)
    × ((k : Bucket)
        → counted_for k (handle_all day_of_events idle)
          ≤ counted_for k idle + accesses_of k day_of_events)
handle_all-counted_example = handle_all-counted day_of_events idle (omega arith)

abbrev cache : Cache
cache =
    (
      1,
      record {
        metrics = record { cpu_percent = 3; memory_bytes = 70 };
        observed_at = 5;
        cpu_history = 3 ∷ [];
        mem_history = 70 ∷ [];
      },
    )
    ∷ []

-- Replica 1 answers, replica 2 fails.
abbrev answers : List (ℕ × Option ReplicaMetrics)
answers = (1, some (record { cpu_percent = 4; memory_bytes = 80 })) ∷ (2, none) ∷ []

answers-IsMap : Assoc.IsMap answers
answers-IsMap k = ground arith

refresh_once-IsRefreshed_example :
    IsRefreshed 9
      (Assoc.lookup 1 answers)
      (Assoc.lookup 1 cache)
      (Assoc.lookup 1 (refresh_once 9 answers cache))
refresh_once-IsRefreshed_example =
    refresh_once-IsRefreshed 9 1 answers cache answers-IsMap ((refl, omega arith), tt)

abbrev standing_by : LockState
standing_by = record { conn = none; holds = false }

abbrev granted : Answers
granted = record { connects = some 1; pings = true; locks = some true }

is_leader-is_confirmed_example :
    ((is_leader granted standing_by).1 ≡ is_confirmed granted standing_by)
    × ((is_leader granted standing_by).0.holds ≡ is_confirmed granted standing_by)
    × IsSound (is_leader granted standing_by).0
is_leader-is_confirmed_example =
    is_leader-is_confirmed granted standing_by (λ h. absurd (ground arith))

-- A job that runs every ten seconds.
abbrev every_ten : Cron
every_ten cron after = some (after + 10)

abbrev nightly : Schedule
nightly = record {
  id = 1;
  cron = "* * * * *";
  enabled = true;
  last_run_at = some 20;
  created_at = 0;
}

fires-le-one_example : (fires every_ten nightly (31 ∷ 32 ∷ []) (nightly ∷ [])).1 ≤ 1
fires-le-one_example =
    fires-le-one every_ten nightly (31 ∷ 32 ∷ []) (nightly ∷ []) (λ cron after next e. ground arith)
