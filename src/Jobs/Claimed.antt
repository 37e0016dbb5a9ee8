-- ===== src/Jobs/Claimed.antt =====
-- A window fires once, however many schedulers see it.
use ruscker.Prelude.{
  ℕ, ◌≤◌, ◌<◌, String, ◌≡◌, refl, inl, inr, Bool, true, false, ◌&&◌, not, some, List, [], ◌∷◌,
  arith, Bool-cases, Option-cases, is_some, string_key, nat_key, pair_key, ◌==◌, list_key,
}
use ruscker.Jobs.{Schedule, Cron, anchor, is_due, same_marker, mark_fired, fire, fires}

-- No row of the schedule has the marker any more.
abbrev is_claimed : Schedule → List Schedule → Bool
is_claimed s [] = true
is_claimed s (r ∷ table) =
    not (r.id == s.id && same_marker r.last_run_at s.last_run_at) && is_claimed s table

mark_fired-claimed :
    (s : Schedule) (now : ℕ) (table : List Schedule)
    → is_claimed s table ≡ true
    → mark_fired s.id s.last_run_at now table ≡ (table, false)
unfolding mark_fired
mark_fired-claimed s now [] h = refl
mark_fired-claimed s now (r ∷ table) h = ground (arith, mark_fired-claimed s now table)

is_claimed-mark_fired :
    (s : Schedule) (now : ℕ) (table : List Schedule)
    → same_marker (some now) s.last_run_at ≡ false
    → is_claimed s (mark_fired s.id s.last_run_at now table).0 ≡ true
unfolding mark_fired
is_claimed-mark_fired s now [] h = refl
is_claimed-mark_fired s now (r ∷ table) h = ground (arith, is_claimed-mark_fired s now table)

-- A due time is after the marker, so it is another marker.
due-later :
    (next_occurrence : Cron) (s : Schedule) (now : ℕ)
    → ((cron : String) (after next : ℕ) → next_occurrence cron after ≡ some next → after < next)
    → is_due next_occurrence s now ≡ true
    → same_marker (some now) s.last_run_at ≡ false
unfolding is_due
due-later next_occurrence s now strict h = elim (Option-cases (next_occurrence s.cron (anchor s))) [
  | inl e ↦ absurd (ground arith)
  | inr (next, e) ↦ ground (arith, strict s.cron (anchor s) next e)
]

fires-claimed :
    (next_occurrence : Cron) (s : Schedule) (times : List ℕ) (table : List Schedule)
    → is_claimed s table ≡ true
    → (fires next_occurrence s times table).1 ≡ 0
unfolding fires fire
fires-claimed next_occurrence s [] table h = refl
fires-claimed next_occurrence s (now ∷ times) table h =
    ground (arith, mark_fired-claimed s now table h, fires-claimed next_occurrence s times table h)

-- Of any number of schedulers that listed a schedule with the same marker, at most one fires it,
-- at whatever times they come to it. The next occurrence of a cron expression is after the instant
-- it is asked for.
pub fires-le-one :
    (next_occurrence : Cron) (s : Schedule) (times : List ℕ) (table : List Schedule)
    → ((cron : String) (after next : ℕ) → next_occurrence cron after ≡ some next → after < next)
    → (fires next_occurrence s times table).1 ≤ 1
unfolding fires fire
fires-le-one next_occurrence s [] table strict = omega arith
fires-le-one next_occurrence s (now ∷ times) table strict =
    elim (Bool-cases
      (s.enabled && is_some (next_occurrence s.cron now) && is_due next_occurrence s now)) [
        | inr e ↦
            let rest = fires-le-one next_occurrence s times table strict in
            rw (e, fires) (omega (arith, rest))
        | inl e ↦
            let claimed =
              is_claimed-mark_fired s now table
                (due-later next_occurrence s now strict (ground arith)) in
            let none_left =
              fires-claimed next_occurrence s times (mark_fired s.id s.last_run_at now table).0
                claimed in
            rw (e, fires) (ground arith)
      ]
