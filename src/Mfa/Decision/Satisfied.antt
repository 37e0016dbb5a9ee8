-- ===== src/Mfa/Decision/Satisfied.antt =====
-- What a satisfied decision rests on.
use ruscker.Prelude.{
  ℕ, ◌+◌, ◌*◌, ◌≤◌, ◌<◌, ◌≡◌, refl, ◌≢◌, ◌↔◌, ◌⊎◌, inl, inr, true, false, Option, none, some, arith,
  Bool-cases, string_key, same_nat_iff, nat_key, pair_key, ◌==◌, same_list_iff, list_key,
}
use ruscker.Prelude.Text.{Text}
use ruscker.Spec.{Spec, effective_mfa_validity_days}
use ruscker.Mfa.Decision.{
  satisfied, Fetched, found, absent, unavailable, Grant, Factor, Services, cookie_parts, day,
  without_cookie, with_factor, with_grant, with_cookie, evaluate, fits, is_fresh,
  effective_require_mfa,
}

-- An unexpired grant of this user, for the token that the browser holds, bound to the factor as it
-- is now, and young enough for the application: in its days, or in this very session.
pub record IsProven (services : Services) (now : ℕ) (username session_id : Text) (spec : Spec)
    (cookie : Option Text) : Type 0 where
  pub id : Text
  pub token : Text
  pub grant : Grant
  pub factor : Factor
  pub with_db : services.has_db ≡ true
  pub held : cookie_parts cookie ≡ some (id, token)
  pub granted : services.fetch_valid id ≡ found grant
  pub enrolled : services.fetch_factor username ≡ found factor
  pub confirmed : factor.confirmed_at ≡ some grant.factor_confirmed_at
  pub genuine : services.verify_device_token token grant.token_hash ≡ true
  pub own : grant.username ≡ services.normalize_username username
  pub unexpired : now < grant.expires_at
  pub same_epoch : grant.security_epoch ≡ factor.security_epoch
  pub in_session :
      effective_mfa_validity_days spec ≡ 0
      → grant.session_binding ≡ services.session_binding session_id
  pub in_days :
      effective_mfa_validity_days spec ≢ 0
      → (grant.mfa_verified_at ≤ now)
        × (now ≤ grant.mfa_verified_at + effective_mfa_validity_days spec * day)

module _ (services : Services) (now : ℕ) (username session_id : Text) (spec : Spec)
    (cookie : Option Text) where
  with_factor-IsProven :
      (id token : Text) (g : Grant) (o : Fetched Factor)
      → services.has_db ≡ true
      → cookie_parts cookie ≡ some (id, token)
      → services.fetch_valid id ≡ found g
      → services.fetch_factor username ≡ o
      → with_factor services now username session_id spec token g o ≡ satisfied
      → IsProven services now username session_id spec cookie
  with_factor-IsProven id token g absent d c q e h = absurd (ground arith)
  with_factor-IsProven id token g unavailable d c q e h = absurd (ground arith)
  with_factor-IsProven id token g (found f) d c q e h = record {
    id = id;
    token = token;
    grant = g;
    factor = f;
    with_db = d;
    held = c;
    granted = q;
    enrolled = e;
    confirmed = ground arith;
    genuine = ground arith;
    own = (same_list_iff g.username (services.normalize_username username)).0 (ground arith);
    unexpired = ground arith;
    same_epoch = ground arith;
    in_session = λ z.
        (same_list_iff g.session_binding (services.session_binding session_id)).0 (ground arith);
    in_days = λ z. ground arith;
  }

  with_cookie-IsProven :
      (o : Option (Text × Text))
      → services.has_db ≡ true
      → cookie_parts cookie ≡ o
      → with_cookie services now username session_id spec o ≡ satisfied
      → IsProven services now username session_id spec cookie
  with_cookie-IsProven none d c h = absurd (plain (services.fetch_factor username) h)
    where
      plain : (o : Fetched Factor) → ¬ (without_cookie o ≡ satisfied)
      plain (found f) h = ground arith
      plain absent h = ground arith
      plain unavailable h = ground arith
  with_cookie-IsProven (some p) d c h = granted (services.fetch_valid p.0) refl h
    where
      granted :
          (o : Fetched Grant)
          → services.fetch_valid p.0 ≡ o
          → with_grant services now username session_id spec p.1 o ≡ satisfied
          → IsProven services now username session_id spec cookie
      granted (found g) e k =
          with_factor-IsProven p.0 p.1 g (services.fetch_factor username) d c e refl k
      granted absent e k = absurd (ground arith)
      granted unavailable e k = absurd (ground arith)

  fits-IsProven :
      (p : IsProven services now username session_id spec cookie)
      → fits services now username session_id spec p.token p.grant p.factor ≡ true
  fits-IsProven p = ground (
    arith,
    p.genuine,
    p.unexpired,
    p.confirmed,
    p.same_epoch,
    (same_list_iff p.grant.username (services.normalize_username username)).1 p.own,
  )

  is_fresh-IsProven :
      (p : IsProven services now username session_id spec cookie)
      → is_fresh services now username session_id spec p.grant (effective_mfa_validity_days spec)
        ≡ true
  is_fresh-IsProven p = elim (Bool-cases (effective_mfa_validity_days spec == 0)) [
    | inl e ↦
        rw (e, is_fresh)
          ((same_list_iff p.grant.session_binding (services.session_binding session_id)).1
            (p.in_session ((same_nat_iff (effective_mfa_validity_days spec) 0).0 e)))
    | inr e ↦ let young = p.in_days (λ z. ground arith) in rw (e, is_fresh) (ground arith)
  ]

  evaluate-IsProven :
      (p : IsProven services now username session_id spec cookie)
      → effective_require_mfa spec ≡ true
      → evaluate services now username session_id spec cookie ≡ satisfied
  unfolding evaluate
  evaluate-IsProven p r =
      rw (evaluate, r)
        (rw (p.with_db) (
          rw (p.held) (
            rw (p.granted) (
              rw (p.enrolled)
                (rw (fits-IsProven p) (rw (is_fresh-IsProven p) (rw (p.confirmed) refl)))))))

-- The MFA decision is `Satisfied` exactly when the application does not require a proof, or there
-- is one: the device cookie holds an id and a token, the database has an unexpired grant under the
-- id, the token fits its hash, the grant is the user's own, it is bound to the factor as it is
-- confirmed now and to its epoch, and it is young enough, by days or by the session. Every failed
-- lookup leads to another decision.
pub evaluate-satisfied_iff :
    (services : Services) (now : ℕ) (username session_id : Text) (spec : Spec)
    (cookie : Option Text)
    → (evaluate services now username session_id spec cookie ≡ satisfied) ↔ (
        (effective_require_mfa spec ≡ false)
        ⊎ IsProven services now username session_id spec cookie)
unfolding evaluate
evaluate-satisfied_iff services now username session_id spec cookie = (sound, complete)
  where
    sound :
        evaluate services now username session_id spec cookie ≡ satisfied
        → (effective_require_mfa spec ≡ false)
          ⊎ IsProven services now username session_id spec cookie
    sound h = elim (Bool-cases (effective_require_mfa spec)) [
      | inr e ↦ inl e
      | inl e ↦ elim (Bool-cases services.has_db) [
        | inr d ↦ absurd (ground arith)
        | inl d ↦ inr (
            with_cookie-IsProven services now username session_id spec cookie (cookie_parts cookie)
              d refl (rw d at (rw (evaluate, e) at h)))
      ]
    ]

    complete :
        (effective_require_mfa spec ≡ false) ⊎ IsProven services now username session_id spec cookie
        → evaluate services now username session_id spec cookie ≡ satisfied
    complete (inl e) = rw (evaluate, e) refl
    complete (inr p) = elim (Bool-cases (effective_require_mfa spec)) [
      | inl e ↦ evaluate-IsProven services now username session_id spec cookie p e
      | inr e ↦ rw (evaluate, e) refl
    ]
