-- ===== src/Jobs.antt =====
-- Scheduled jobs: when a schedule is due and who fires it (crates/ruscker-admin/src/jobs.rs;
-- the claim is the `UPDATE` of crates/ruscker-admin/src/db/schedules.rs). The cron library is a
-- function: the next occurrence of an expression after an instant.
pub mod Claimed
use ruscker.Prelude.{
  ℕ, ◌+◌, String, Bool, true, false, ◌&&◌, Option, none, some, List, [], ◌∷◌, leb, if◌then◌else◌,
  is_some, unwrap_or, string_key, nat_key, pair_key, ◌==◌, list_key,
}

pub record Schedule : Type 0 where
  pub id : ℕ
  pub cron : String
  pub enabled : Bool
  pub last_run_at : Option ℕ
  pub created_at : ℕ

abbrev pub Cron : Type 0
Cron = String → ℕ → Option ℕ

abbrev pub anchor : Schedule → ℕ
anchor s = unwrap_or s.last_run_at s.created_at

unfoldable pub is_due : Cron → Schedule → ℕ → Bool
is_due next_occurrence s now = elim (next_occurrence s.cron (anchor s)) [
  | none ↦ false
  | some next ↦ leb next now
]

abbrev pub same_marker : Option ℕ → Option ℕ → Bool
same_marker none none = true
same_marker none (some n) = false
same_marker (some m) none = false
same_marker (some m) (some n) = m == n

-- `UPDATE … WHERE id = ? AND last_run_at IS ?`, and whether a row was changed.
unfoldable pub mark_fired : ℕ → Option ℕ → ℕ → List Schedule → List Schedule × Bool
mark_fired id previous now [] = ([], false)
mark_fired id previous now (s ∷ table) =
    let rest = mark_fired id previous now table in
    if s.id == id && same_marker s.last_run_at previous
    then (record s { last_run_at = some now } ∷ rest.0, true)
    else (s ∷ rest.0, rest.1)

-- One schedule of a scheduler's listing, at that scheduler's time: a fire needs a due schedule whose
-- expression has a next occurrence, and the claim.
unfoldable pub fire : Cron → Schedule → ℕ → List Schedule → List Schedule × Bool
fire next_occurrence s now table =
    if s.enabled && is_some (next_occurrence s.cron now) && is_due next_occurrence s now
    then mark_fired s.id s.last_run_at now table
    else (table, false)

-- Schedulers that listed the table at the same time and come to a schedule one after the other.
pub fires : Cron → Schedule → List ℕ → List Schedule → List Schedule × ℕ
fires next_occurrence s [] table = (table, 0)
fires next_occurrence s (now ∷ times) table =
    let step = fire next_occurrence s now table in
    let rest = fires next_occurrence s times step.0 in (rest.0, (if step.1 then 1 else 0) + rest.1)
