-- ===== src/Limits/Granted.antt =====
-- No window grants more than its limit.
use ruscker.Prelude.{
  ℕ, ◌+◌, ◌≤◌, String, ◌≡◌, refl, subst, inl, inr, false, ◌&&◌, List, [], ◌∷◌, ◌++◌, arith, eq_iff,
  leb, if◌then◌else◌, Bool-cases, length, count_if, count_if-append, count_if-le-length, All,
  string_key, nat_key, pair_key, ◌==◌, list_key,
}
use ruscker.Prelude.Assoc
use ruscker.Limits.{confirm_success, prune, window_of, ConfirmRateLimiter, try_reserve}

-- The timestamps of a window at or after an instant.
abbrev pub recent : ℕ → List ℕ → ℕ
recent lo q = count_if (λ t. leb lo t) q

pub recent-prune :
    (window now lo : ℕ) (q : List ℕ)
    → now ≤ lo + window
    → recent lo (prune window now q) ≡ recent lo q
recent-prune window now lo [] h = refl
recent-prune window now lo (t ∷ q) h = ground (arith, recent-prune window now lo q h)

pub recent-append :
    (lo now : ℕ) (q : List ℕ) → lo ≤ now → recent lo (q ++ now ∷ []) ≡ recent lo q + 1
recent-append lo now q h = ground (arith, count_if-append (λ t. leb lo t) q (now ∷ []))

pub recent-le-length : (lo : ℕ) (q : List ℕ) → recent lo q ≤ length q
recent-le-length lo q = count_if-le-length (λ t. leb lo t) q

-- What the confirmation handlers do with the limiter.
pub data ConfirmCall : Type 0 where
  attempted : String → ℕ → ConfirmCall
  confirmed : String → ConfirmCall

-- How many of the attempts of a user are granted, among calls for any users.
unfoldable pub grants : String → List ConfirmCall → ConfirmRateLimiter → ℕ
unfolding try_reserve confirm_success
grants username [] rl = 0
grants username (attempted name now ∷ calls) rl =
    let tried = try_reserve name now rl in
    (if (name == username) && tried.1 then 1 else 0) + grants username calls tried.0
grants username (confirmed name ∷ calls) rl = grants username calls (confirm_success name rl)

used : String → ℕ → ConfirmRateLimiter → ℕ
used username lo rl = recent lo (window_of username rl.failures)

try_reserve-used :
    (username name : String) (lo now : ℕ) (rl : ConfirmRateLimiter)
    → lo ≤ now
    → now ≤ lo + rl.window
    → used username lo rl ≤ rl.max
    → (used username lo (try_reserve name now rl).0
        ≡ used username lo rl
          + (if (name == username) && (try_reserve name now rl).1 then 1 else 0))
      × (used username lo (try_reserve name now rl).0 ≤ rl.max)
unfolding used try_reserve
try_reserve-used username name lo now rl a b c =
    let q = window_of name rl.failures in
    let kept = prune rl.window now q in
    let same : recent lo kept ≡ recent lo q = recent-prune rl.window now lo q b in
    let pushed : recent lo (kept ++ now ∷ []) ≡ recent lo kept + 1 = recent-append lo now kept a in
    let short : recent lo kept ≤ length kept = recent-le-length lo kept in
    let old = Assoc.lookup-insert name username kept rl.failures in
    let new = Assoc.lookup-insert name username (kept ++ now ∷ []) rl.failures in
    elim (Bool-cases (name == username)) [
      | inl e ↦
          let user : name ≡ username = (eq_iff name username).0 e in
          let at_user : used username lo rl ≡ recent lo q =
            subst (λ (n : String). recent lo (window_of n rl.failures) ≡ recent lo q) user refl in
          elim (Bool-cases (leb rl.max (length kept))) [
            | inl full ↦ rw (full, try_reserve) (ground arith, ground arith)
            | inr room ↦ rw (room, try_reserve) (ground arith, ground arith)
          ]
      | inr e ↦ elim (Bool-cases (leb rl.max (length kept))) [
        | inl full ↦ rw (full, try_reserve) (ground arith, ground arith)
        | inr room ↦ rw (room, try_reserve) (ground arith, ground arith)
      ]
    ]

-- The attempts lie in the span, and the user confirms nothing in it.
abbrev pub FitsSpan : String → ℕ → ℕ → ConfirmCall → Type 0
FitsSpan username lo window (attempted name now) = (lo ≤ now) × (now ≤ lo + window)
FitsSpan username lo window (confirmed name) = (name == username) ≡ false

abbrev pub Within : String → ℕ → ℕ → List ConfirmCall → Type 0
Within username lo window calls = All (FitsSpan username lo window) calls

confirm_success-used :
    (username name : String) (lo : ℕ) (rl : ConfirmRateLimiter)
    → (name == username) ≡ false
    → used username lo (confirm_success name rl) ≡ used username lo rl
unfolding used confirm_success
confirm_success-used username name lo rl h =
    ground (arith, Assoc.lookup-remove name username rl.failures)

confirm_success-policy :
    (name : String) (rl : ConfirmRateLimiter)
    → ((confirm_success name rl).max ≡ rl.max) × ((confirm_success name rl).window ≡ rl.window)
unfolding confirm_success
confirm_success-policy name rl = (refl, refl)

try_reserve-policy :
    (name : String) (now : ℕ) (rl : ConfirmRateLimiter)
    → ((try_reserve name now rl).0.max ≡ rl.max) × ((try_reserve name now rl).0.window ≡ rl.window)
unfolding try_reserve
try_reserve-policy name now rl = (ground arith, ground arith)

used-grants :
    (username : String) (lo : ℕ) (calls : List ConfirmCall) (rl : ConfirmRateLimiter)
    → Within username lo rl.window calls
    → used username lo rl ≤ rl.max
    → used username lo rl + grants username calls rl ≤ rl.max
unfolding grants
used-grants username lo [] rl w h = omega (arith, h)
used-grants username lo (attempted name now ∷ calls) rl w h =
    let next = (try_reserve name now rl).0 in
    let (m, k) = try_reserve-policy name now rl in
    let (step, small) = try_reserve-used username name lo now rl w.0.0 w.0.1 h in
    let rest = used-grants username lo calls next (rw k w.1) (rw m small) in ground arith
used-grants username lo (confirmed name ∷ calls) rl w h =
    let (m, k) = confirm_success-policy name rl in
    let step = confirm_success-used username name lo rl w.0 in
    let rest =
      used-grants username lo calls (confirm_success name rl) (rw k w.1) (rw (m, step) h) in
    ground arith

-- Within any span as long as the window, a user who confirms nothing in it (a success clears the
-- user's attempts) is granted at most `max` confirmation attempts, however the attempts and the
-- confirmations of other users come in between. When the span starts, none of the user's attempts
-- is counted in it.
pub grants-le-max :
    (username : String) (lo : ℕ) (calls : List ConfirmCall) (rl : ConfirmRateLimiter)
    → Within username lo rl.window calls
    → recent lo (window_of username rl.failures) ≡ 0
    → grants username calls rl ≤ rl.max
unfolding used
grants-le-max username lo calls rl w h =
    let total = used-grants username lo calls rl w (omega (arith, h)) in omega (arith, h, total)
