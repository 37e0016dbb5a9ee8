-- ===== src/Mfa/Codes.antt =====
-- Recovery codes as people type and read them (crates/ruscker-admin/src/mfa.rs,
-- `normalize_recovery_code`, `format_recovery_code`).
pub mod Shown
use ruscker.Prelude.{
  ℕ, zero, suc, ◌-◌, Bool, ◌&&◌, not, List, [], ◌∷◌, map, keep_if, string_key, nat_key, pair_key,
  ◌==◌, list_key,
}
use ruscker.Prelude.Text.{Text, codes, join, is_whitespace, to_ascii_uppercase}

abbrev pub recovery_group : ℕ
recovery_group = 5

abbrev pub is_kept : ℕ → Bool
is_kept c = not (is_whitespace c) && not (c == b'-')

unfoldable pub normalize_recovery_code : Text → Text
normalize_recovery_code code = map to_ascii_uppercase (keep_if is_kept code)

-- The rest of a group that has room for `k` characters, and the groups after it.
pub chunks_from : ℕ → ℕ → Text → Text × List Text
chunks_from n k [] = ([], [])
chunks_from n zero (c ∷ s) = let r = chunks_from n (n - 1) s in ([], (c ∷ r.0) ∷ r.1)
chunks_from n (suc k) (c ∷ s) = let r = chunks_from n k s in (c ∷ r.0, r.1)

unfoldable pub chunks : ℕ → Text → List Text
unfolding chunks_from
chunks n s = (chunks_from n 0 s).1

unfoldable pub format_recovery_code : Text → Text
format_recovery_code code = join (codes "-") (chunks recovery_group code)
