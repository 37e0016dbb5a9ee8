-- ===== src/Config/Lines/Rendered.antt =====
-- A line that holds references: they are replaced in its code and not in its comment
-- (crates/ruscker-config/src/env.rs, the last case of the loop of `interpolate`).
use ruscker.Prelude.{◌≡◌, ◌⊎◌, Option, some, ◌++◌, string_key, nat_key, pair_key, list_key}
use ruscker.Prelude.Text.{Text}
use ruscker.Config.Variables.{ConfigError, Result, ok, err, EnvVar}
use ruscker.Config.Variables.Filled.{Fills, Fails}
use ruscker.Config.Lines.{split_inline_comment}

-- The line is its code and a comment. The result is the code with its references replaced, then the
-- comment, or the error of the first reference of the code that has no value.
abbrev pub IsRendered : (Text → EnvVar) → Text → Option (Result Text) → Type 0
IsRendered env line o =
    (code : Text) × (comment : Text) × (split_inline_comment line ≡ (code, comment))
    × (code ++ comment ≡ line)
    × (((out : Text) × (o ≡ some (ok (out ++ comment))) × Fills env code out)
        ⊎ ((e : ConfigError) × (o ≡ some (err e)) × Fails env e code))
