-- ===== src/Config/Variables/Plain.antt =====
-- A line without references is left as it is.
use ruscker.Prelude.{
  ℕ, zero, suc, ◌≤◌, ◌≡◌, refl, false, none, some, [], ◌∷◌, ◌++◌, arith, length, string_key,
  nat_key, pair_key, list_key,
}
use ruscker.Prelude.Text.{Text, codes, starts_with}
use ruscker.Config.Variables.{ok, EnvVar, reference, contains_open, scan, interpolate_line}

reference_unopened : (s : Text) → starts_with s (codes "${") ≡ false → reference s ≡ none
unfolding reference
reference_unopened [] h = refl
reference_unopened (b ∷ []) h = refl
reference_unopened (b ∷ c ∷ s) h = ground arith

scan_plain :
    (fuel : ℕ) (env : Text → EnvVar) (s : Text)
    → length s ≤ fuel
    → contains_open s ≡ false
    → scan fuel env s ≡ some (ok s)
unfolding scan
scan_plain zero env [] l h = refl
scan_plain (suc fuel) env [] l h = refl
scan_plain zero env (c ∷ s) l h = absurd (omega arith)
scan_plain (suc fuel) env (c ∷ s) l h =
    rw (scan, reference_unopened (c ∷ s) (ground arith))
      (rw (scan_plain fuel env s (omega arith) (ground arith)) refl)

pub interpolate_line_plain :
    (env : Text → EnvVar) (s : Text)
    → contains_open s ≡ false
    → interpolate_line env s ≡ some (ok s)
unfolding interpolate_line
interpolate_line_plain env s h = scan_plain (length s) env s (omega arith) h

pub contains_open-append_left :
    (s t : Text) → contains_open (s ++ t) ≡ false → contains_open s ≡ false
contains_open-append_left [] t h = refl
contains_open-append_left (a ∷ []) t h = ground arith
contains_open-append_left (a ∷ b ∷ s) t h = ground (arith, contains_open-append_left (b ∷ s) t)

pub contains_open-append_right :
    (s t : Text) → contains_open (s ++ t) ≡ false → contains_open t ≡ false
contains_open-append_right [] t h = h
contains_open-append_right (a ∷ s) t h = contains_open-append_right s t (ground arith)
