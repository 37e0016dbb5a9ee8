-- ===== src/Config/Variables.antt =====
-- References to environment variables in one line of text
-- (crates/ruscker-config/src/env.rs, `interpolate_line`, `is_pure_env_ref`). The regular expression
-- of the source is written out as `reference`; the scan takes fuel, one for each character.
pub mod Rest
pub mod Written
pub mod Plain
pub mod Filled
use ruscker.Prelude.{
  ℕ, zero, suc, Bool, true, false, ◌&&◌, ◌||◌, not, Option, none, some, [], ◌∷◌, ◌++◌,
  if◌then◌else◌, length, string_key, nat_key, pair_key, ◌==◌, list_key,
}
use ruscker.Prelude.Text.{
  Text, codes, trim, starts_with, is_empty, is_ascii_letter, is_ascii_alphanumeric,
}

pub data ConfigError : Type 0 where
  missing_env_var invalid_env_ref : Text → ConfigError

pub data Result {ℓ} (A : Type ℓ) : Type ℓ where
  ok : A → Result A
  err : ConfigError → Result A

-- What `env::var` says of a name.
pub data EnvVar : Type 0 where
  present : Text → EnvVar
  not_present not_unicode : EnvVar

pub record Reference : Type 0 where
  pub name : Text
  pub default : Option Text
  pub rest : Text

abbrev pub starts_name : ℕ → Bool
starts_name c = is_ascii_letter c || c == b'_'

abbrev pub in_name : ℕ → Bool
in_name c = is_ascii_alphanumeric c || c == b'_'

-- `[A-Za-z0-9_]*` and `[^}]*`, with what follows.
abbrev pub span : (ℕ → Bool) → Text → Text × Text
span p [] = ([], [])
span p (c ∷ s) = let r = span p s in if p c then (c ∷ r.0, r.1) else ([], c ∷ s)

abbrev pub closed : Text → Option Text → Text → Option Reference
closed n d [] = none
closed n d (c ∷ s) = if c == b'}' then some (record { name = n; default = d; rest = s }) else none

-- What follows the name: `}`, or `:-`, a default and `}`.
abbrev pub ended : Text → Text → Option Reference
ended n (b ∷ c ∷ s) =
    let d = span (λ x. not (x == b'}')) s in
    if b == b':' && c == b'-' then closed n (some d.0) d.1 else closed n none (b ∷ c ∷ s)
ended n (b ∷ []) = closed n none (b ∷ [])
ended n [] = none

abbrev pub named : Text → Option Reference
named [] = none
named (c ∷ s) = let n = span in_name s in if starts_name c then ended (c ∷ n.0) n.1 else none

-- A reference `${NAME}` or `${NAME:-default}` at the head of a text.
unfoldable pub reference : Text → Option Reference
reference (b ∷ c ∷ s) = if b == b'$' && c == b'{' then named s else none
reference (b ∷ []) = none
reference [] = none

abbrev pub contains_open : Text → Bool
contains_open [] = false
contains_open (c ∷ s) = if starts_with (c ∷ s) (codes "${") then true else contains_open s

abbrev pub is_nested : Option Text → Bool
is_nested none = false
is_nested (some d) = contains_open d

-- The reference as it is quoted in an error.
abbrev pub literal_of : Reference → Text
literal_of r =
    codes "${"
    ++ (r.name
        ++ (elim r.default [ none ↦ [] | some d ↦ codes ":-" ++ d ]
            ++ codes "}} — a nested reference in a `:-` default is not supported"))

abbrev pub value_of : EnvVar → Reference → Result Text
value_of (present v) r = ok v
value_of not_present r = elim r.default [ some d ↦ ok d | none ↦ err (missing_env_var r.name) ]
value_of not_unicode r = err (invalid_env_ref r.name)

unfoldable pub resolve : (Text → EnvVar) → Reference → Result Text
resolve env r =
    if is_nested r.default then err (invalid_env_ref (literal_of r)) else value_of (env r.name) r

-- An output and the output of what follows; `none` is a scan out of fuel.
abbrev pub followed_by : Result Text → Option (Result Text) → Option (Result Text)
followed_by (err e) rest = some (err e)
followed_by (ok a) none = none
followed_by (ok a) (some (err e)) = some (err e)
followed_by (ok a) (some (ok b)) = some (ok (a ++ b))

pub scan : ℕ → (Text → EnvVar) → Text → Option (Result Text)
scan fuel env [] = some (ok [])
scan zero env (c ∷ s) = none
scan (suc fuel) env (c ∷ s) = elim (reference (c ∷ s)) [
  | none ↦ followed_by (ok (c ∷ [])) (scan fuel env s)
  | some r ↦ followed_by (resolve env r) (scan fuel env r.rest)
]

unfoldable pub interpolate_line : (Text → EnvVar) → Text → Option (Result Text)
unfolding scan
interpolate_line env line = scan (length line) env line

-- The text without its references: `replace_all` with an empty text.
pub unreferenced : ℕ → Text → Option Text
unreferenced fuel [] = some []
unreferenced zero (c ∷ s) = none
unreferenced (suc fuel) (c ∷ s) = elim (reference (c ∷ s)) [
  | none ↦ elim (unreferenced fuel s) [ none ↦ none | some t ↦ some (c ∷ t) ]
  | some r ↦ unreferenced fuel r.rest
]

unfoldable pub is_pure_env_ref : Text → Option Bool
unfolding unreferenced
is_pure_env_ref value =
    let t = trim value in
    elim (unreferenced (length t) t) [
      | none ↦ none
      | some left ↦ some (not (is_empty t) && is_empty (trim left))
    ]
