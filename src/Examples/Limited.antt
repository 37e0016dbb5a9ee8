-- ===== src/Examples/Limited.antt =====
-- Examples of the limiters.
use ruscker.Prelude.{
  ℕ, ◌*◌, ◌≤◌, String, refl, List, [], ◌∷◌, arith, string_key, nat_key, pair_key, list_key,
}
use ruscker.Limits.{ConfirmRateLimiter, RatePolicy, nanos_per_ms}
use ruscker.Limits.Granted.{ConfirmCall, attempted, confirmed, grants, grants-le-max}

-- Two attempts in ten nanoseconds.
abbrev strict : ConfirmRateLimiter
strict = record { failures = []; max = 2; window = 10 }

abbrev attempts : List ConfirmCall
attempts =
    attempted "ana" 100
    ∷ attempted "bob" 101
    ∷ confirmed "bob"
    ∷ attempted "ana" 105
    ∷ attempted "ana" 110
    ∷ []

grants-le-max_example : grants "ana" attempts strict ≤ 2
grants-le-max_example =
    grants-le-max "ana" 100 attempts strict
      (
        (omega arith, omega arith),
        (
          (omega arith, omega arith),
          (refl, ((omega arith, omega arith), ((omega arith, omega arith), tt))),
        ),
      )
      refl

-- One request per millisecond.
abbrev slow : String → RatePolicy
slow spec = record { max = 1; window = 1 * nanos_per_ms }

abbrev hits : List ((String × String) × ℕ)
hits = (("api", "10.0.0.1"), 500) ∷ (("api", "10.0.0.2"), 600) ∷ (("api", "10.0.0.1"), 700) ∷ []
