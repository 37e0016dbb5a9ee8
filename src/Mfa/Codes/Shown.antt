-- ===== src/Mfa/Codes/Shown.antt =====
-- The grouping of a code is undone before it is hashed.
use mathlib.Core.List.{append-nil}
use ruscker.Prelude.{
  ℕ, zero, suc, ◌-◌, ◌≡◌, refl, sym, ap, ◌∙◌, Bool, List, [], ◌∷◌, ◌++◌, map, arith, keep_if,
  string_key, nat_key, pair_key, list_key,
}
use ruscker.Prelude.Text.{Text, codes, join, to_ascii_uppercase}
use ruscker.Mfa.Codes.{
  is_kept, normalize_recovery_code, chunks_from, chunks, recovery_group, format_recovery_code,
}

keep_if-append : (p : ℕ → Bool) (s t : Text) → keep_if p (s ++ t) ≡ keep_if p s ++ keep_if p t
keep_if-append p [] t = refl
keep_if-append p (c ∷ s) t = ground (arith, keep_if-append p s t)

concat_groups : List Text → Text
concat_groups [] = []
concat_groups (g ∷ gs) = g ++ concat_groups gs

concat_groups-chunks_from :
    (n k : ℕ) (s : Text) → (chunks_from n k s).0 ++ concat_groups (chunks_from n k s).1 ≡ s
unfolding chunks_from concat_groups
concat_groups-chunks_from n k [] = refl
concat_groups-chunks_from n zero (c ∷ s) = ap (λ t. c ∷ t) (concat_groups-chunks_from n (n - 1) s)
concat_groups-chunks_from n (suc k) (c ∷ s) = ap (λ t. c ∷ t) (concat_groups-chunks_from n k s)

chunks_from-zero : (n : ℕ) (s : Text) → (chunks_from n 0 s).0 ≡ []
unfolding chunks_from
chunks_from-zero n [] = refl
chunks_from-zero n (c ∷ s) = refl

concat_groups-chunks : (n : ℕ) (s : Text) → concat_groups (chunks n s) ≡ s
unfolding chunks
concat_groups-chunks n s =
    ap (λ t. t ++ concat_groups (chunks_from n 0 s).1) (sym (chunks_from-zero n s))
    ∙ concat_groups-chunks_from n 0 s

keep_if-join :
    (gs : List Text) → keep_if is_kept (join (codes "-") gs) ≡ keep_if is_kept (concat_groups gs)
unfolding concat_groups
keep_if-join [] = refl
keep_if-join (g ∷ []) = ap (λ s. keep_if is_kept s) (sym (append-nil g))
keep_if-join (g ∷ h ∷ gs) =
    keep_if-append is_kept g (b'-' ∷ join (codes "-") (h ∷ gs))
    ∙ ap (λ s. keep_if is_kept g ++ s) (dash (join (codes "-") (h ∷ gs)) ∙ keep_if-join (h ∷ gs))
    ∙ sym (keep_if-append is_kept g (concat_groups (h ∷ gs)))
  where
    dash : (s : Text) → keep_if is_kept (b'-' ∷ s) ≡ keep_if is_kept s
    dash s = ground arith

-- A recovery code in its display grouping is normalized to what the raw code is, so both hash
-- alike.
pub normalize_recovery_code-format :
    (code : Text)
    → normalize_recovery_code (format_recovery_code code) ≡ normalize_recovery_code code
unfolding normalize_recovery_code format_recovery_code
normalize_recovery_code-format code =
    ap (λ s. map to_ascii_uppercase s)
      (keep_if-join (chunks recovery_group code)
        ∙ ap (λ s. keep_if is_kept s) (concat_groups-chunks recovery_group code))
