-- ===== src/Config/Variables/Rest.antt =====
-- What follows a reference is shorter than the text that it starts
-- (crates/ruscker-config/src/env.rs, the pattern of `interpolate_line`).
use ruscker.Prelude.{
  ℕ, ◌≤◌, ◌<◌, ◌≡◌, inl, inr, Bool, ◌&&◌, not, Option, none, some, [], ◌∷◌, arith, Bool-cases,
  length, string_key, nat_key, pair_key, ◌==◌, list_key,
}
use ruscker.Prelude.Text.{Text}
use ruscker.Config.Variables.{Reference, span, closed, ended, in_name, reference}

length-span : (p : ℕ → Bool) (s : Text) → length (span p s).1 ≤ length s
length-span p [] = omega arith
length-span p (c ∷ s) = ground (arith, length-span p s)

length-closed :
    (n : Text) (d : Option Text) (s : Text) (r : Reference)
    → closed n d s ≡ some r
    → length r.rest < length s
length-closed n d [] r h = absurd (ground arith)
length-closed n d (c ∷ s) r h = ground arith

length-ended : (n s : Text) (r : Reference) → ended n s ≡ some r → length r.rest < length s
length-ended n [] r h = absurd (ground arith)
length-ended n (b ∷ []) r h = length-closed n none (b ∷ []) r h
length-ended n (b ∷ c ∷ s) r h = elim (Bool-cases (b == b':' && c == b'-')) [
  | inl e ↦
      let d = span (λ x. not (x == b'}')) s in
      let small = length-closed n (some d.0) d.1 r (rw (e, ended) at h) in
      omega (arith, small, length-span (λ (x : ℕ). not (x == b'}')) s)
  | inr e ↦ length-closed n none (b ∷ c ∷ s) r (rw (e, ended) at h)
]

pub length-reference : (s : Text) (r : Reference) → reference s ≡ some r → length r.rest < length s
unfolding reference
length-reference [] r h = absurd (ground arith)
length-reference (b ∷ []) r h = absurd (ground arith)
length-reference (b ∷ c ∷ []) r h = absurd (ground arith)
length-reference (b ∷ c ∷ a ∷ s) r h =
    ground
      (arith, length-ended (a ∷ (span in_name s).0) (span in_name s).1 r, length-span in_name s)
