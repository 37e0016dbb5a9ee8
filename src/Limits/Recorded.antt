-- ===== src/Limits/Recorded.antt =====
-- What the bookkeeping and the recording of one API request do to a client's window.
use ruscker.Prelude.{
  ℕ, ◌+◌, ◌*◌, ◌/◌, ◌%◌, ◌≤◌, ◌<◌, max, String, ◌≡◌, refl, ap, ◌∙◌, ◌⊎◌, inl, inr, false, some,
  List, [], ◌∷◌, ◌++◌, arith, ltb, leb, if◌then◌else◌, Bool-cases, length, length-append,
  string_key, nat_key, pair_key, ◌==◌, same_refl,
}
use ruscker.Prelude.Assoc
use ruscker.Limits.{
  prune, newest, window_of, ApiRateLimiter, RatePolicy, before_check, record_request, nanos_per_ms,
}
use ruscker.Limits.Granted.{recent, recent-prune, recent-append}
use ruscker.Limits.Requests.{
  Bounded, used, is_permit, newest-append, newest-prune, sweep_idle-Bounded, sweep_idle-horizon,
}

raise-Bounded :
    (key : String × String) (policy : RatePolicy) (lo m n : ℕ) (rl : ApiRateLimiter)
    → Bounded key policy lo rl
    → Bounded key policy lo (record rl { max_window_ms = max rl.max_window_ms m; since_sweep = n })
raise-Bounded key policy lo m n rl b = record {
  unique = b.unique;
  short = b.short;
  lively = elim b.lively [
    | inl z ↦ inl z
    | inr (t, e, l, seen) ↦ inr (t, e, l, omega (arith, seen))
  ];
}

store_other-Bounded :
    (key k : String × String) (policy : RatePolicy) (lo : ℕ) (q : List ℕ) (rl : ApiRateLimiter)
    → (k == key) ≡ false
    → Bounded key policy lo rl
    → Bounded key policy lo (record rl { windows = Assoc.insert k q rl.windows })
      × (used key lo (record rl { windows = Assoc.insert k q rl.windows }) ≡ used key lo rl)
store_other-Bounded key k policy lo q rl d b =
    let same : window_of key (Assoc.insert k q rl.windows) ≡ window_of key rl.windows =
      ground (arith, Assoc.lookup-insert k key q rl.windows) in
    (
      record {
        unique = Assoc.insert-IsMap k q rl.windows b.unique;
        short = rw same b.short;
        lively = rw same b.lively;
      },
      ap (recent lo) same,
    )

store_own-Bounded :
    (key : String × String) (policy : RatePolicy) (lo : ℕ) (q : List ℕ) (rl : ApiRateLimiter)
    → Assoc.IsMap rl.windows
    → length q ≤ policy.max
    → ((recent lo q ≡ 0)
        ⊎ ((t : ℕ) × (newest q ≡ some t)
            × (lo ≤ t)
            × (policy.window / nanos_per_ms ≤ rl.max_window_ms)))
    → Bounded key policy lo (record rl { windows = Assoc.insert key q rl.windows })
      × (used key lo (record rl { windows = Assoc.insert key q rl.windows }) ≡ recent lo q)
store_own-Bounded key policy lo q rl u short lively =
    let same : window_of key (Assoc.insert key q rl.windows) ≡ q =
      ground (arith, Assoc.lookup-insert key key q rl.windows, same_refl key.0, same_refl key.1) in
    (
      record {
        unique = Assoc.insert-IsMap key q rl.windows u;
        short = rw same short;
        lively = rw same lively;
      },
      ap (recent lo) same,
    )

length-prune : (window now : ℕ) (q : List ℕ) → length (prune window now q) ≤ length q
length-prune window now [] = omega arith
length-prune window now (t ∷ q) = ground (arith, length-prune window now q)

module _ (key : String × String) (policy : RatePolicy) (lo now ms : ℕ)
    (whole : policy.window ≡ ms * nanos_per_ms) (early : lo ≤ now)
    (late : now ≤ lo + policy.window) where
  pub before_check-Bounded :
      (p : RatePolicy) (rl : ApiRateLimiter)
      → Bounded key policy lo rl
      → Bounded key policy lo (before_check now p rl)
        × (used key lo (before_check now p rl) ≡ used key lo rl)
        × (p.window / nanos_per_ms ≤ (before_check now p rl).max_window_ms)
  unfolding before_check
  before_check-Bounded p rl b = elim (Bool-cases (leb 1024 (rl.since_sweep + 1))) [
    | inr e ↦
        rw (e, before_check)
          (
            raise-Bounded key policy lo (p.window / nanos_per_ms) (rl.since_sweep + 1) rl b,
            refl,
            omega arith,
          )
    | inl e ↦
        let up : ApiRateLimiter = record rl {
          max_window_ms = max rl.max_window_ms (p.window / nanos_per_ms);
          since_sweep = 0;
        } in
        let (c, s) =
          sweep_idle-Bounded key policy lo now ms whole early late up
            (raise-Bounded key policy lo (p.window / nanos_per_ms) 0 rl b) in
        rw (e, before_check) (c, s, omega (arith, sweep_idle-horizon now up))
  ]

  -- A request of another client leaves the window alone.
  pub record_other-Bounded :
      (k : String × String) (p : RatePolicy) (rl : ApiRateLimiter)
      → (k == key) ≡ false
      → Bounded key policy lo rl
      → Bounded key policy lo (record_request k now p rl).0
        × (used key lo (record_request k now p rl).0 ≡ used key lo rl)
  record_other-Bounded k p rl d b =
      let kept = prune p.window now (window_of k rl.windows) in
      elim (Bool-cases (ltb (length kept % 4294967296) p.max)) [
        | inl e ↦
            rw (e, record_request) (store_other-Bounded key k policy lo (kept ++ now ∷ []) rl d b)
        | inr e ↦ rw (e, record_request) (store_other-Bounded key k policy lo kept rl d b)
      ]

  kept_lively :
      (rl : ApiRateLimiter)
      → Bounded key policy lo rl
      → let kept = prune policy.window now (window_of key rl.windows) in
        (recent lo kept ≡ 0)
        ⊎ ((t : ℕ) × (newest kept ≡ some t)
            × (lo ≤ t)
            × (policy.window / nanos_per_ms ≤ rl.max_window_ms))
  kept_lively rl b =
      let q = window_of key rl.windows in
      elim b.lively [
        | inl z ↦ inl (recent-prune policy.window now lo q late ∙ z)
        | inr (t, n, l, seen) ↦ elim (newest-prune policy.window now q) [
          | inl same ↦ inr (t, same ∙ n, l, seen)
          | inr gone ↦ inl (ap (recent lo) gone)
        ]
      ]

  -- A request of the client itself counts once if it is permitted.
  pub record_own-Bounded :
      (rl : ApiRateLimiter)
      → policy.max < 4294967296
      → policy.window / nanos_per_ms ≤ rl.max_window_ms
      → Bounded key policy lo rl
      → Bounded key policy lo (record_request key now policy rl).0
        × (used key lo (record_request key now policy rl).0
            ≡ used key lo rl + (if is_permit (record_request key now policy rl).1 then 1 else 0))
  record_own-Bounded rl small seen b =
      let q = window_of key rl.windows in
      let kept = prune policy.window now q in
      let shorter : length kept ≤ length q = length-prune policy.window now q in
      let held : recent lo kept ≡ recent lo q = recent-prune policy.window now lo q late in
      elim (Bool-cases (ltb (length kept % 4294967296) policy.max)) [
        | inl e ↦
            let (c, n) =
              store_own-Bounded key policy lo (kept ++ now ∷ []) rl b.unique
                (ground (arith, b.short, length-append kept (now ∷ [])))
                (inr (now, newest-append now kept, early, seen)) in
            rw (e, record_request) (c, n ∙ recent-append lo now kept early ∙ ap (λ x. x + 1) held)
        | inr e ↦
            let (c, n) =
              store_own-Bounded key policy lo kept rl b.unique (omega (arith, b.short, shorter))
                (kept_lively rl b) in
            rw (e, record_request) (c, n ∙ held ∙ omega arith)
      ]
