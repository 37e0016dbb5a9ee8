-- ===== src/FailureLog/Rearm.antt =====
-- When a failure is loud.
use ruscker.Prelude.{
  ℕ, ◌+◌, ◌%◌, ◌<◌, String, ◌≡◌, refl, ◌≢◌, ◌⊎◌, inl, inr, Bool, true, false, some, List, [], ◌∷◌,
  arith, if◌then◌else◌, Bool-cases, Option-cases, All, ◌==◌, nat_key, string_key, same_refl,
  pair_key,
}
use ruscker.Prelude.Assoc
use ruscker.FailureLog.{
  FailureLog, FailState, FailVerdict, warn, quiet, observe, clear, failure_warn_window,
}

abbrev pub is_loud : FailVerdict → Bool
is_loud (warn n) = true
is_loud (quiet n) = false

-- Failures of one spec with one error, at the given times.
unfoldable pub observe_all : String → ℕ → List ℕ → FailureLog → ℕ
unfolding observe
observe_all spec_id hash [] log = 0
observe_all spec_id hash (now ∷ times) log =
    let (next, verdict) = observe spec_id hash now log in
    (if is_loud verdict then 1 else 0) + observe_all spec_id hash times next

-- A spec's error is known and quiet until the given time.
abbrev pub QuietUntil : String → ℕ → ℕ → FailureLog → Type 0
QuietUntil spec_id hash until log =
    (st : FailState) × (Assoc.lookup spec_id log ≡ some st)
    × (st.hash ≡ hash)
    × (st.next_warn ≡ until)

observe-QuietUntil :
    (spec_id : String) (hash until now : ℕ) (log : FailureLog)
    → now < until
    → QuietUntil spec_id hash until log
    → QuietUntil spec_id hash until (observe spec_id hash now log).0
      × (is_loud (observe spec_id hash now log).1 ≡ false)
unfolding observe
observe-QuietUntil spec_id hash until now log t (st, e, k, u) =
    let n = (st.count + 1) % 4294967296 in
    (
      (
        record st { count = n },
        ground (
          arith,
          same_refl hash,
          same_refl spec_id,
          Assoc.lookup-insert spec_id spec_id (record st { count = n }) log,
        ),
        k,
        u,
      ),
      ground (arith, same_refl hash),
    )

-- While an error of a spec is known and its window runs, the error is not logged loudly again,
-- however often the spawn fails with it.
pub observe_all-quiet :
    (spec_id : String) (hash until : ℕ) (times : List ℕ) (log : FailureLog)
    → All (λ now. now < until) times
    → QuietUntil spec_id hash until log
    → observe_all spec_id hash times log ≡ 0
unfolding observe_all
observe_all-quiet spec_id hash until [] log t q = refl
observe_all-quiet spec_id hash until (now ∷ times) log t q =
    let (next, quiet_now) = observe-QuietUntil spec_id hash until now log t.0 q in
    ground
      (arith, observe_all-quiet spec_id hash until times (observe spec_id hash now log).0 t.1 next)

-- A loud failure opens a full window for its error.
pub observe-loud :
    (spec_id : String) (hash now : ℕ) (log : FailureLog)
    → is_loud (observe spec_id hash now log).1 ≡ true
    → QuietUntil spec_id hash (now + failure_warn_window) (observe spec_id hash now log).0
unfolding observe
observe-loud spec_id hash now log l = elim (Option-cases (Assoc.lookup spec_id log)) [
  | inl e ↦ (
    record { hash = hash; count = 1; next_warn = now + failure_warn_window },
    ground (
      arith,
      same_refl spec_id,
      Assoc.lookup-insert spec_id spec_id
          (record { hash = hash; count = 1; next_warn = now + failure_warn_window }) log,
    ),
    refl,
    refl,
  )
  | inr (st, e) ↦ known st e (Bool-cases (st.hash == hash))
]
  where
    known :
        (st : FailState)
        → Assoc.lookup spec_id log ≡ some st
        → ((st.hash == hash) ≡ true) ⊎ ((st.hash == hash) ≡ false)
        → QuietUntil spec_id hash (now + failure_warn_window) (observe spec_id hash now log).0
    known st e (inl k) =
        let x : FailState = record st {
          count = (st.count + 1) % 4294967296;
          next_warn = now + failure_warn_window;
        } in
        (
          x,
          ground (arith, same_refl spec_id, Assoc.lookup-insert spec_id spec_id x log),
          ground arith,
          refl,
        )
    known st e (inr k) =
        let x : FailState = record {
          hash = hash;
          count = 1;
          next_warn = now + failure_warn_window;
        } in
        (
          x,
          ground (arith, same_refl spec_id, Assoc.lookup-insert spec_id spec_id x log),
          refl,
          refl,
        )

observe-hash :
    (spec_id : String) (hash now : ℕ) (log : FailureLog)
    → (st : FailState) × (Assoc.lookup spec_id (observe spec_id hash now log).0 ≡ some st)
      × (st.hash ≡ hash)
unfolding observe
observe-hash spec_id hash now log = elim (Bool-cases (is_loud (observe spec_id hash now log).1)) [
  | inl l ↦ let (st, e, k, _) = observe-loud spec_id hash now log l in (st, e, k)
  | inr q ↦ elim (Option-cases (Assoc.lookup spec_id log)) [
    | inl e ↦ absurd (ground arith)
    | inr (st, e) ↦
        let x : FailState = record st { count = (st.count + 1) % 4294967296 } in
        (
          x,
          ground (arith, same_refl spec_id, Assoc.lookup-insert spec_id spec_id x log),
          ground arith,
        )
  ]
]

-- A success re-arms the log, and so does a different error: the next failure is loud.
pub observe-rearmed :
    (spec_id : String) (hash other now later : ℕ) (log : FailureLog)
    → other ≢ hash
    → (is_loud (observe spec_id hash now (clear spec_id log)).1 ≡ true)
      × (is_loud (observe spec_id other later (observe spec_id hash now log).0).1 ≡ true)
unfolding observe clear
observe-rearmed spec_id hash other now later log d = (
  ground (arith, same_refl spec_id, Assoc.lookup-remove spec_id spec_id log),
  let (st, e, k) = observe-hash spec_id hash now log in ground arith,
)
