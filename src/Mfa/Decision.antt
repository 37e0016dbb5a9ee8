-- ===== src/Mfa/Decision.antt =====
-- Whether a browser's device proof satisfies an application (crates/ruscker-admin/src/mfa.rs,
-- `evaluate`). What the database and the hash functions answer is gathered in `Services`. Times are
-- numbers of nanoseconds.
pub mod Satisfied
use ruscker.Prelude.{
  ℕ, ◌+◌, ◌*◌, Bool, true, false, ◌&&◌, ◌||◌, not, Option, none, some, [], ◌∷◌, ltb, leb,
  if◌then◌else◌, is_some, length, string_key, nat_key, pair_key, ◌==◌, list_key,
}
use ruscker.Prelude.Text.{Text, codes, split_once, is_empty, is_ascii_digit}
use ruscker.Spec.{Spec, effective_require_mfa, effective_mfa_validity_days}

pub data MfaDecision : Type 0 where
  satisfied challenge_required enrollment_required : MfaDecision

-- The outcome of a query for one row.
pub data Fetched (A : Type 0) : Type 0 where
  found : A → Fetched A
  absent unavailable : Fetched A

pub record Grant : Type 0 where
  pub username : Text
  pub token_hash : Text
  pub expires_at : ℕ
  pub factor_confirmed_at : ℕ
  pub security_epoch : ℕ
  pub session_binding : Text
  pub mfa_verified_at : ℕ

pub record Factor : Type 0 where
  pub confirmed_at : Option ℕ
  pub security_epoch : ℕ

pub record Services : Type 0 where
  pub has_db : Bool
  pub fetch_valid : Text → Fetched Grant
  pub fetch_factor : Text → Fetched Factor
  pub verify_device_token : Text → Text → Bool
  pub normalize_username : Text → Text
  pub session_binding : Text → Text

abbrev pub is_hex_digit : ℕ → Bool
is_hex_digit c = is_ascii_digit c || (leb b'a' c && leb c b'f') || (leb b'A' c && leb c b'F')

abbrev pub all_hex : Text → Bool
all_hex [] = true
all_hex (c ∷ s) = is_hex_digit c && all_hex s

-- The token is 64 bytes, and as many characters since they are ASCII.
unfoldable pub is_token : Text → Bool
is_token token = length token == 64 && all_hex token

unfoldable pub device_cookie_parts : Text → Option (Text × Text)
device_cookie_parts value = elim (split_once b'.' value) [
  | none ↦ none
  | some p ↦ if is_empty p.0 || not (is_token p.1) then none else some p
]

abbrev pub cookie_parts : Option Text → Option (Text × Text)
cookie_parts none = none
cookie_parts (some value) = device_cookie_parts value

abbrev pub day : ℕ
day = 86400000000000

abbrev pub is_confirmed_at : Option ℕ → ℕ → Bool
is_confirmed_at none t = false
is_confirmed_at (some c) t = t == c

-- Without a device cookie only the factor is looked up.
abbrev pub without_cookie : Fetched Factor → MfaDecision
without_cookie (found f) =
    if is_some f.confirmed_at then challenge_required else enrollment_required
without_cookie absent = enrollment_required
without_cookie unavailable = challenge_required

module _ (services : Services) (now : ℕ) (username session_id : Text) (spec : Spec) where
  abbrev pub fits : Text → Grant → Factor → Bool
  fits token g f =
      services.verify_device_token token g.token_hash
      && g.username == services.normalize_username username
      && ltb now g.expires_at
      && is_confirmed_at f.confirmed_at g.factor_confirmed_at
      && g.security_epoch == f.security_epoch

  abbrev pub is_fresh : Grant → ℕ → Bool
  is_fresh g days =
      if days == 0
      then g.session_binding == services.session_binding session_id
      else leb g.mfa_verified_at now && leb now (g.mfa_verified_at + days * day)

  abbrev pub with_factor : Text → Grant → Fetched Factor → MfaDecision
  with_factor token g absent = enrollment_required
  with_factor token g unavailable = challenge_required
  with_factor token g (found f) =
      if not (is_some f.confirmed_at)
      then enrollment_required
      else if not (fits token g f)
      then challenge_required
      else if is_fresh g (effective_mfa_validity_days spec)
      then satisfied
      else challenge_required

  abbrev pub with_grant : Text → Fetched Grant → MfaDecision
  with_grant token absent = challenge_required
  with_grant token unavailable = challenge_required
  with_grant token (found g) = with_factor token g (services.fetch_factor username)

  abbrev pub with_cookie : Option (Text × Text) → MfaDecision
  with_cookie none = without_cookie (services.fetch_factor username)
  with_cookie (some p) = with_grant p.1 (services.fetch_valid p.0)

  unfoldable pub evaluate : Option Text → MfaDecision
  evaluate cookie =
      if not (effective_require_mfa spec)
      then satisfied
      else if not services.has_db
      then challenge_required
      else with_cookie (cookie_parts cookie)
