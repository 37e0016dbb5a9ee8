-- ===== src/Config/Lines/Plain.antt =====
-- A configuration without references is left as it is, whatever the environment holds.
use ruscker.Prelude.{
  ℕ, ◌-◌, ◌≡◌, refl, ap, ◌∙◌, inl, inr, Bool, true, false, ◌&&◌, ◌||◌, not, Option, none, some,
  List, [], ◌∷◌, ◌++◌, if◌then◌else◌, Bool-cases, Option-cases, any, string_key, nat_key, pair_key,
  ◌==◌, list_key,
}
use ruscker.Prelude.Text.{is_empty, trim_start, Text}
use ruscker.Config.Variables.{ok, EnvVar, contains_open}
use ruscker.Config.Variables.Plain.{
  interpolate_line_plain, contains_open-append_left, contains_open-append_right,
}
use ruscker.Config.Lines.{
  len, split_comment, split_inline_comment, add_to_line, split_inclusive, code_and_comment,
  outside_block, interpolate_step, interpolate_lines, interpolate, without_newline, key_of,
  starts_with, codes, still_open, secret_keys,
}

-- The code and the comment of a line are the line.
split_comment-append :
    (in_single in_double prev_ws : Bool) (s : Text)
    → (split_comment in_single in_double prev_ws s).0
        ++ (split_comment in_single in_double prev_ws s).1
      ≡ s
unfolding split_comment
split_comment-append a b p [] = refl
split_comment-append a b p (c ∷ s) = elim (Bool-cases (c == b'#' && not a && not b && p)) [
  | inl e ↦ rw (e, split_comment) refl
  | inr e ↦
      rw (e, split_comment)
        (ap (λ t. c ∷ t)
          (split_comment-append (if c == b'\'' && not b then not a else a)
            (if c == b'"' && not a then not b else b) (c == b' ' || c == 9) s))
]

pub split_inline_comment-append :
    (line : Text) → (split_inline_comment line).0 ++ (split_inline_comment line).1 ≡ line
unfolding split_inline_comment
split_inline_comment-append line = split_comment-append false false true line

code_and_comment_plain :
    (env : Text → EnvVar) (line : Text)
    → contains_open line ≡ false
    → code_and_comment env line ≡ some (ok line)
unfolding code_and_comment
code_and_comment_plain env line h =
    let parts = split_inline_comment line in
    let whole = split_inline_comment-append line in
    let plain = contains_open-append_left parts.0 parts.1 (rw whole h) in
    rw (code_and_comment, interpolate_line_plain env parts.0 plain)
      (ap (λ (t : Text). some (ok t)) whole)

outside_block_plain :
    (env : Text → EnvVar) (line trimmed : Text) (indent : ℕ)
    → contains_open line ≡ false
    → (outside_block env line trimmed indent).1 ≡ some (ok line)
outside_block_plain env line trimmed indent h =
    elim (Bool-cases (key_of trimmed == codes "container-env")) [
      | inl e ↦ rw (outside_block, e) refl
      | inr e ↦ elim (Bool-cases (any (λ k. k == key_of trimmed) secret_keys)) [
        | inl f ↦ rw (outside_block, e) (rw f refl)
        | inr f ↦ rw (outside_block, e) (rw f (code_and_comment_plain env line h))
      ]
    ]

interpolate_step_plain :
    (env : Text → EnvVar) (block : Option ℕ) (line : Text)
    → contains_open line ≡ false
    → (interpolate_step env block line).1 ≡ some (ok line)
unfolding interpolate_step
interpolate_step_plain env block line h =
    let trimmed = trim_start (without_newline line) in
    let indent = len (without_newline line) - len trimmed in
    elim (Bool-cases (is_empty trimmed || starts_with trimmed (codes "#"))) [
      | inl e ↦ rw (interpolate_step, e) refl
      | inr e ↦ elim (Option-cases (still_open block indent)) [
        | inl f ↦ rw (interpolate_step, e) (rw f (outside_block_plain env line trimmed indent h))
        | inr (b, f) ↦ rw (interpolate_step, e) (rw f refl)
      ]
    ]

abbrev concat_lines : List Text → Text
concat_lines [] = []
concat_lines (l ∷ ls) = l ++ concat_lines ls

concat_lines-add_to_line :
    (c : ℕ) (ls : List Text) → concat_lines (add_to_line c ls) ≡ c ∷ concat_lines ls
concat_lines-add_to_line c [] = refl
concat_lines-add_to_line c (l ∷ ls) = refl

concat_lines-split_inclusive : (s : Text) → concat_lines (split_inclusive s) ≡ s
concat_lines-split_inclusive [] = refl
concat_lines-split_inclusive (c ∷ s) = elim (Bool-cases (c == 10)) [
  | inl e ↦ rw (e, split_inclusive) (ap (λ t. c ∷ t) (concat_lines-split_inclusive s))
  | inr e ↦
      rw (e, split_inclusive)
        (concat_lines-add_to_line c (split_inclusive s)
          ∙ ap (λ t. c ∷ t) (concat_lines-split_inclusive s))
]

interpolate_lines_plain :
    (env : Text → EnvVar) (block : Option ℕ) (ls : List Text)
    → contains_open (concat_lines ls) ≡ false
    → interpolate_lines env block ls ≡ some (ok (concat_lines ls))
interpolate_lines_plain env block [] h = refl
interpolate_lines_plain env block (l ∷ ls) h =
    rw
      (
        interpolate_step_plain env block l (contains_open-append_left l (concat_lines ls) h),
        interpolate_lines_plain env (interpolate_step env block l).0 ls
            (contains_open-append_right l (concat_lines ls) h),
      )
      refl

-- A configuration without `${` is unchanged by the interpolation, byte for byte, whatever the
-- environment holds.
pub interpolate_plain :
    (env : Text → EnvVar) (input : Text)
    → contains_open input ≡ false
    → interpolate env input ≡ some (ok input)
unfolding interpolate
interpolate_plain env input h =
    interpolate_lines_plain env none (split_inclusive input)
      (rw (concat_lines-split_inclusive input) h)
    ∙ ap (λ (t : Text). some (ok t)) (concat_lines-split_inclusive input)
