-- ===== src/Config/Variables/Written.antt =====
-- How a reference is written (crates/ruscker-config/src/env.rs, the pattern of `interpolate_line`).
use ruscker.Prelude.{
  ℕ, ◌≡◌, refl, sym, ap, ◌∙◌, inl, inr, Bool, true, ◌&&◌, not, Option, none, some, [], ◌∷◌, ◌++◌,
  arith, Bool-cases, string_key, nat_key, pair_key, ◌==◌, list_key,
}
use ruscker.Prelude.Text.{Text}
use ruscker.Config.Variables.{Reference, span, closed, ended, in_name, starts_name, reference}

abbrev default_part : Option Text → Text
default_part none = []
default_part (some d) = b':' ∷ b'-' ∷ d

-- `${NAME}` or `${NAME:-default}`, and what follows it.
abbrev pub written : Reference → Text
written r = b'$' ∷ b'{' ∷ (r.name ++ (default_part r.default ++ b'}' ∷ r.rest))

span-append : (p : ℕ → Bool) (s : Text) → (span p s).0 ++ (span p s).1 ≡ s
span-append p [] = refl
span-append p (c ∷ s) = elim (Bool-cases (p c)) [
  | inl e ↦ rw (e, span) (ap (λ (t : Text). c ∷ t) (span-append p s))
  | inr e ↦ rw (e, span) refl
]

closed_written :
    (n : Text) (d : Option Text) (s : Text) (r : Reference)
    → closed n d s ≡ some r
    → (r.name ≡ n) × (r.default ≡ d) × (s ≡ b'}' ∷ r.rest)
closed_written n d [] r h = absurd (ground arith)
closed_written n d (c ∷ s) r h = ground arith

colon_written :
    (b c : ℕ) (s d rest : Text)
    → (b == b':' && c == b'-') ≡ true
    → s ≡ d ++ b'}' ∷ rest
    → b ∷ c ∷ s ≡ b':' ∷ b'-' ∷ (d ++ b'}' ∷ rest)
colon_written b c s d rest e h = ground arith

opened :
    (b c : ℕ) (s t : Text) → (b == b'$' && c == b'{') ≡ true → s ≡ t → b ∷ c ∷ s ≡ b'$' ∷ b'{' ∷ t
opened b c s t e h = ground arith

ended_written :
    (n s : Text) (r : Reference)
    → ended n s ≡ some r
    → n ++ s ≡ r.name ++ (default_part r.default ++ b'}' ∷ r.rest)
ended_written n [] r h = absurd (ground arith)
ended_written n (b ∷ []) r h =
    let (x, y, z) = closed_written n none (b ∷ []) r h in rw (x, y, z) refl
ended_written n (b ∷ c ∷ s) r h = elim (Bool-cases (b == b':' && c == b'-')) [
  | inl e ↦
      let d = span (λ x. not (x == b'}')) s in
      let (x, y, z) = closed_written n (some d.0) d.1 r (rw (e, ended) at h) in
      rw (x, y)
        (ap (λ (t : Text). n ++ t)
          (colon_written b c s d.0 r.rest e
            (sym (span-append (λ x. not (x == b'}')) s) ∙ rw z refl)))
  | inr e ↦
      let (x, y, z) = closed_written n none (b ∷ c ∷ s) r (rw (e, ended) at h) in rw (x, y, z) refl
]

-- A reference that is found stands at the head of the text.
pub reference-written : (s : Text) (r : Reference) → reference s ≡ some r → s ≡ written r
unfolding reference
reference-written [] r h = absurd (ground arith)
reference-written (b ∷ []) r h = absurd (ground arith)
reference-written (b ∷ c ∷ []) r h = absurd (ground arith)
reference-written (b ∷ c ∷ a ∷ s) r h = elim (Bool-cases (b == b'$' && c == b'{')) [
  | inl e ↦ elim (Bool-cases (starts_name a)) [
    | inl f ↦
        let w = ended_written (a ∷ (span in_name s).0) (span in_name s).1 r (rw (e, f) at h) in
        opened b c (a ∷ s) _ e (sym (ap (λ (t : Text). a ∷ t) (span-append in_name s)) ∙ w)
    | inr f ↦ absurd (ground arith)
  ]
  | inr e ↦ absurd (ground arith)
]
