-- ===== src/Config/Lines.antt =====
-- The lines of a configuration (crates/ruscker-config/src/env.rs, `interpolate`,
-- `split_inline_comment`). Lengths are in bytes, as in the source.
pub mod Plain
pub mod Rendered
use ruscker.Prelude.{
  ℕ, ◌+◌, ◌-◌, Bool, true, false, ◌&&◌, ◌||◌, not, Option, none, some, List, [], ◌∷◌, ltb, leb,
  if◌then◌else◌, any, string_key, nat_key, pair_key, ◌==◌, list_key,
}
use ruscker.Prelude.Text.{Text, codes, trim, trim_start, strip_start, before, is_empty, starts_with}
use ruscker.Config.Variables.{Result, ok, EnvVar, followed_by, interpolate_line}

abbrev pub len_utf8 : ℕ → ℕ
len_utf8 c = if ltb c 0x80 then 1 else if ltb c 0x800 then 2 else if ltb c 0x10000 then 3 else 4

abbrev pub len : Text → ℕ
len [] = 0
len (c ∷ s) = len_utf8 c + len s

-- The comment of a line starts at a `#` outside quotes that is first or follows a blank.
pub split_comment : Bool → Bool → Bool → Text → Text × Text
split_comment in_single in_double prev_ws [] = ([], [])
split_comment in_single in_double prev_ws (b ∷ s) =
    let single = if b == b'\'' && not in_double then not in_single else in_single in
    let double = if b == b'"' && not in_single then not in_double else in_double in
    let rest = split_comment single double (b == b' ' || b == 9) s in
    if b == b'#' && not in_single && not in_double && prev_ws
    then ([], b ∷ s)
    else (b ∷ rest.0, rest.1)

unfoldable pub split_inline_comment : Text → Text × Text
unfolding split_comment
split_inline_comment line = split_comment false false true line

abbrev pub secret_keys : List Text
secret_keys = codes "docker-registry-password" ∷ []

abbrev pub is_dash : ℕ → Bool
is_dash c = c == b'-'

abbrev pub key_of : Text → Text
key_of trimmed = trim (strip_start is_dash (before b':' trimmed))

abbrev pub dash_prefix : Text → ℕ
dash_prefix trimmed = len trimmed - len (trim_start (strip_start is_dash trimmed))

abbrev pub without_newline : Text → Text
without_newline [] = []
without_newline (c ∷ []) = if c == 10 then [] else c ∷ []
without_newline (c ∷ d ∷ s) = c ∷ without_newline (d ∷ s)

-- Lines with their `\n`, `split_inclusive`.
abbrev pub add_to_line : ℕ → List Text → List Text
add_to_line c [] = (c ∷ []) ∷ []
add_to_line c (l ∷ ls) = (c ∷ l) ∷ ls

abbrev pub split_inclusive : Text → List Text
split_inclusive [] = []
split_inclusive (c ∷ s) =
    let rest = split_inclusive s in if c == 10 then (c ∷ []) ∷ rest else add_to_line c rest

-- A line closes the block when it is not indented deeper than the block's key.
abbrev pub still_open : Option ℕ → ℕ → Option ℕ
still_open none indent = none
still_open (some b) indent = if leb indent b then none else some b

abbrev pub verbatim : Text → Option (Result Text)
verbatim line = some (ok line)

unfoldable pub code_and_comment : (Text → EnvVar) → Text → Option (Result Text)
code_and_comment env line =
    let parts = split_inline_comment line in
    elim (interpolate_line env parts.0) [
      | none ↦ none
      | some code ↦ followed_by code (verbatim parts.1)
    ]

-- The state of the loop is the indentation of an open `container-env:` block.
abbrev pub outside_block : (Text → EnvVar) → Text → Text → ℕ → Option ℕ × Option (Result Text)
outside_block env line trimmed indent =
    if key_of trimmed == codes "container-env"
    then (some (indent + dash_prefix trimmed), verbatim line)
    else if any (λ k. k == key_of trimmed) secret_keys
    then (none, verbatim line)
    else (none, code_and_comment env line)

unfoldable pub interpolate_step :
    (Text → EnvVar) → Option ℕ → Text → Option ℕ × Option (Result Text)
interpolate_step env block line =
    let content = without_newline line in
    let trimmed = trim_start content in
    let indent = len content - len trimmed in
    if is_empty trimmed || starts_with trimmed (codes "#")
    then (block, verbatim line)
    else elim (still_open block indent) [
      | some b ↦ (some b, verbatim line)
      | none ↦ outside_block env line trimmed indent
    ]

abbrev pub chained : Option (Result Text) → Option (Result Text) → Option (Result Text)
chained none rest = none
chained (some r) rest = followed_by r rest

abbrev pub interpolate_lines : (Text → EnvVar) → Option ℕ → List Text → Option (Result Text)
interpolate_lines env block [] = verbatim []
interpolate_lines env block (line ∷ lines) =
    let step = interpolate_step env block line in
    chained step.1 (interpolate_lines env step.0 lines)

unfoldable pub interpolate : (Text → EnvVar) → Text → Option (Result Text)
interpolate env input = interpolate_lines env none (split_inclusive input)
