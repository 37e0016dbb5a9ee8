-- ===== src/Config/Variables/Filled.antt =====
-- What the scan of a line writes.
use ruscker.Prelude.{
  ℕ, zero, suc, ◌≤◌, ◌≡◌, refl, sym, subst, ◌↔◌, ◌⊎◌, inl, inr, true, false, Option, none, some, [],
  ◌∷◌, ◌++◌, arith, Bool-cases, Option-cases, length, string_key, nat_key, pair_key, list_key,
}
use ruscker.Prelude.Text.{Text}
use ruscker.Config.Variables.{
  ConfigError, literal_of, invalid_env_ref, missing_env_var, Result, ok, err, EnvVar, present,
  not_present, not_unicode, Reference, reference, is_nested, value_of, resolve, followed_by, scan,
  interpolate_line,
}
use ruscker.Config.Variables.Written.{written, reference-written}
use ruscker.Config.Variables.Rest.{length-reference}

-- The value of a reference: the variable's, or else the default.
abbrev pub StandsFor : (Text → EnvVar) → Reference → Text → Type 0
StandsFor env r v =
    (is_nested r.default ≡ false)
    × ((env r.name ≡ present v) ⊎ ((env r.name ≡ not_present) × (r.default ≡ some v)))

-- The text starts with a reference, as it is written in the text.
abbrev pub Refers : Text → Reference → Type 0
Refers s r = (reference s ≡ some r) × (s ≡ written r)

refers : (s : Text) (r : Reference) → reference s ≡ some r → Refers s r
refers s r e = (e, reference-written s r e)

-- A text and the text with its references replaced, everything else copied.
pub data Fills (env : Text → EnvVar) : Text → Text → Type 0 where
  done : Fills env [] []
  copied :
      (c : ℕ) (s out : Text)
      → reference (c ∷ s) ≡ none
      → Fills env s out
      → Fills env (c ∷ s) (c ∷ out)
  filled :
      (c : ℕ) (s : Text) (r : Reference) (v out : Text)
      → Refers (c ∷ s) r
      → StandsFor env r v
      → Fills env r.rest out
      → Fills env (c ∷ s) (v ++ out)

-- Why a reference has no value, and the error that says so.
pub data Refuses (env : Text → EnvVar) (r : Reference) : ConfigError → Type 0 where
  nested : is_nested r.default ≡ true → Refuses env r (invalid_env_ref (literal_of r))
  missing :
      is_nested r.default ≡ false
      → env r.name ≡ not_present
      → r.default ≡ none
      → Refuses env r (missing_env_var r.name)
  unreadable :
      is_nested r.default ≡ false
      → env r.name ≡ not_unicode
      → Refuses env r (invalid_env_ref r.name)

-- A text whose first reference without a value gives the error.
pub data Fails (env : Text → EnvVar) (e : ConfigError) : Text → Type 0 where
  past_text : (c : ℕ) (s : Text) → reference (c ∷ s) ≡ none → Fails env e s → Fails env e (c ∷ s)
  past_value :
      (c : ℕ) (s : Text) (r : Reference) (v : Text)
      → Refers (c ∷ s) r
      → StandsFor env r v
      → Fails env e r.rest
      → Fails env e (c ∷ s)
  stopped :
      (c : ℕ) (s : Text) (r : Reference) → Refers (c ∷ s) r → Refuses env r e → Fails env e (c ∷ s)

resolve-StandsFor :
    (env : Text → EnvVar) (r : Reference) (v : Text) → resolve env r ≡ ok v → StandsFor env r v
unfolding resolve
resolve-StandsFor env r v h = elim (Bool-cases (is_nested r.default)) [
  | inl e ↦ absurd (ground arith)
  | inr e ↦ (e, value (env r.name) refl (rw (e, resolve) at h))
]
  where
    value :
        (w : EnvVar)
        → env r.name ≡ w
        → value_of w r ≡ ok v
        → (env r.name ≡ present v) ⊎ ((env r.name ≡ not_present) × (r.default ≡ some v))
    value (present t) e h = inl (ground arith)
    value not_present e h = inr (e, ground arith)
    value not_unicode e h = absurd (ground arith)

StandsFor-resolve :
    (env : Text → EnvVar) (r : Reference) (v : Text) → StandsFor env r v → resolve env r ≡ ok v
unfolding resolve
StandsFor-resolve env r v (n, inl e) = rw (n, resolve) (rw e refl)
StandsFor-resolve env r v (n, inr (e, d)) = rw (n, resolve) (rw e (rw (value_of, d) refl))

followed_by-ok :
    (a : Result Text) (o : Option (Result Text)) (out : Text)
    → followed_by a o ≡ some (ok out)
    → (v : Text) × (rest : Text) × (a ≡ ok v) × (o ≡ some (ok rest)) × (out ≡ v ++ rest)
followed_by-ok (err e) o out h = absurd (ground arith)
followed_by-ok (ok a) none out h = absurd (ground arith)
followed_by-ok (ok a) (some (err e)) out h = absurd (ground arith)
followed_by-ok (ok a) (some (ok b)) out h = (a, b, refl, refl, ground arith)

scan-Fills :
    (fuel : ℕ) (env : Text → EnvVar) (s out : Text)
    → scan fuel env s ≡ some (ok out)
    → Fills env s out
unfolding scan
scan-Fills fuel env [] out h = subst (λ (t : Text). Fills env [] t) (ground arith) done
scan-Fills zero env (c ∷ s) out h = absurd (ground arith)
scan-Fills (suc fuel) env (c ∷ s) out h = elim (Option-cases (reference (c ∷ s))) [
  | inl e ↦
      let (v, rest, a, o, same) =
        followed_by-ok (ok (c ∷ [])) (scan fuel env s) out (rw (e, scan) at h) in
      subst (λ (t : Text). Fills env (c ∷ s) t) (ground arith)
        (copied c s rest e (scan-Fills fuel env s rest o))
  | inr (r, e) ↦
      let (v, rest, a, o, same) =
        followed_by-ok (resolve env r) (scan fuel env r.rest) out (rw (e, scan) at h) in
      subst (λ (t : Text). Fills env (c ∷ s) t) (sym same)
        (filled c s r v rest (refers (c ∷ s) r e) (resolve-StandsFor env r v a)
          (scan-Fills fuel env r.rest rest o))
]

Fills-scan :
    (env : Text → EnvVar) (fuel : ℕ) (s out : Text)
    → length s ≤ fuel
    → Fills env s out
    → scan fuel env s ≡ some (ok out)
unfolding scan
Fills-scan env fuel _ _ le done = ground arith
Fills-scan env zero _ _ le (copied c s out e f) = absurd (omega arith)
Fills-scan env (suc fuel) _ _ le (copied c s out e f) =
    rw (e, scan) (rw (Fills-scan env fuel s out (omega arith) f) refl)
Fills-scan env zero _ _ le (filled c s r v out (e, _) w f) = absurd (omega arith)
Fills-scan env (suc fuel) _ _ le (filled c s r v out (e, _) w f) =
    rw (e, scan)
      (rw (StandsFor-resolve env r v w)
        (rw (Fills-scan env fuel r.rest out (omega (arith, length-reference (c ∷ s) r e)) f) refl))

resolve-Refuses :
    (env : Text → EnvVar) (r : Reference) (e : ConfigError)
    → resolve env r ≡ err e
    → Refuses env r e
unfolding resolve
resolve-Refuses env r e h = elim (Bool-cases (is_nested r.default)) [
  | inl n ↦ subst (λ (x : ConfigError). Refuses env r x) (ground arith) (nested n)
  | inr n ↦ value (env r.name) refl n (rw (n, resolve) at h)
]
  where
    value :
        (w : EnvVar)
        → env r.name ≡ w
        → is_nested r.default ≡ false
        → value_of w r ≡ err e
        → Refuses env r e
    value (present t) q n h = absurd (ground arith)
    value not_present q n h = elim (Option-cases r.default) [
      | inl d ↦ subst (λ (x : ConfigError). Refuses env r x) (ground arith) (missing n q d)
      | inr (t, d) ↦ absurd (ground arith)
    ]
    value not_unicode q n h =
        subst (λ (x : ConfigError). Refuses env r x) (ground arith) (unreadable n q)

-- Replaced, or refused with the error of its first reference without a value.
abbrev pub IsScanned : (Text → EnvVar) → Text → Option (Result Text) → Type 0
IsScanned env s o =
    ((out : Text) × (o ≡ some (ok out)) × Fills env s out)
    ⊎ ((e : ConfigError) × (o ≡ some (err e)) × Fails env e s)

after_reference :
    (env : Text → EnvVar) (c : ℕ) (s : Text) (r : Reference) (o : Option (Result Text))
    (a : Result Text)
    → reference (c ∷ s) ≡ some r
    → resolve env r ≡ a
    → IsScanned env r.rest o
    → IsScanned env (c ∷ s) (followed_by a o)
after_reference env c s r o (err e) f q k =
    inr (e, refl, stopped c s r (refers (c ∷ s) r f) (resolve-Refuses env r e q))
after_reference env c s r o (ok v) f q (inl (out, same, k)) = inl (
  v ++ out,
  rw same refl,
  filled c s r v out (refers (c ∷ s) r f) (resolve-StandsFor env r v q) k,
)
after_reference env c s r o (ok v) f q (inr (e, same, k)) =
    inr (e, rw same refl, past_value c s r v (refers (c ∷ s) r f) (resolve-StandsFor env r v q) k)

after_text :
    (env : Text → EnvVar) (c : ℕ) (s : Text) (o : Option (Result Text))
    → reference (c ∷ s) ≡ none
    → IsScanned env s o
    → IsScanned env (c ∷ s) (followed_by (ok (c ∷ [])) o)
after_text env c s o f (inl (out, same, k)) = inl (c ∷ out, rw same refl, copied c s out f k)
after_text env c s o f (inr (e, same, k)) = inr (e, rw same refl, past_text c s f k)

scan-IsScanned :
    (env : Text → EnvVar) (fuel : ℕ) (s : Text)
    → length s ≤ fuel
    → IsScanned env s (scan fuel env s)
unfolding scan
scan-IsScanned env zero [] le = inl ([], refl, done)
scan-IsScanned env (suc fuel) [] le = inl ([], refl, done)
scan-IsScanned env zero (c ∷ s) le = absurd (omega arith)
scan-IsScanned env (suc fuel) (c ∷ s) le = elim (Option-cases (reference (c ∷ s))) [
  | inl e ↦
      rw (e, scan)
        (after_text env c s (scan fuel env s) e (scan-IsScanned env fuel s (omega arith)))
  | inr (r, e) ↦
      rw (e, scan)
        (after_reference env c s r (scan fuel env r.rest) (resolve env r) e refl
          (scan-IsScanned env fuel r.rest (omega (arith, length-reference (c ∷ s) r e))))
]

pub interpolate_line-IsScanned :
    (env : Text → EnvVar) (line : Text) → IsScanned env line (interpolate_line env line)
unfolding interpolate_line
interpolate_line-IsScanned env line = scan-IsScanned env (length line) line (omega arith)

pub interpolate_line-Fills :
    (env : Text → EnvVar) (line out : Text)
    → (interpolate_line env line ≡ some (ok out)) ↔ Fills env line out
unfolding interpolate_line
interpolate_line-Fills env line out =
    (scan-Fills (length line) env line out, Fills-scan env (length line) line out (omega arith))
