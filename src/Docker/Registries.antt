-- ===== src/Docker/Registries.antt =====
-- The removal of a prefix as often as it stands (`trim_start_matches` in the registry addresses of
-- crates/ruscker-docker/src/lib.rs).
use ruscker.Prelude.{
  ℕ, zero, suc, ◌+◌, ◌≤◌, ◌≡◌, refl, inl, inr, none, some, [], ◌∷◌, arith, Option-cases, length,
  string_key, nat_key, pair_key, list_key,
}
use ruscker.Prelude.Text.{Text}
use ruscker.Docker.{strip_prefix, trim_start_from, trim_start_matches}

strip_prefix-shrinks :
    (prefix s rest : Text)
    → strip_prefix prefix s ≡ some rest
    → length rest + length prefix ≡ length s
strip_prefix-shrinks [] s rest h = ground arith
strip_prefix-shrinks (p ∷ prefix) [] rest h = absurd (ground arith)
strip_prefix-shrinks (p ∷ prefix) (c ∷ s) rest h =
    ground (arith, strip_prefix-shrinks prefix s rest)

trim_start_from-all :
    (n p : ℕ) (prefix s : Text)
    → length s ≤ n
    → strip_prefix (p ∷ prefix) (trim_start_from n (p ∷ prefix) s) ≡ none
unfolding trim_start_from
trim_start_from-all zero p prefix [] le = refl
trim_start_from-all zero p prefix (c ∷ s) le = absurd (omega arith)
trim_start_from-all (suc n) p prefix s le = elim (Option-cases (strip_prefix (p ∷ prefix) s)) [
  | inl e ↦ rw (e, trim_start_from) e
  | inr (rest, e) ↦
      rw (e, trim_start_from)
        (trim_start_from-all n p prefix rest
          (omega (arith, strip_prefix-shrinks (p ∷ prefix) s rest e)))
]

-- The fuel is enough: no prefix is left.
trim_start_matches-all :
    (p : ℕ) (prefix s : Text) → strip_prefix (p ∷ prefix) (trim_start_matches (p ∷ prefix) s) ≡ none
trim_start_matches-all p prefix s = trim_start_from-all (length s) p prefix s (omega arith)
