-- ===== src/Examples/Administered.antt =====
-- Examples of the configuration, of accounts and of the second factor.
use ruscker.Prelude.{
  ◌≡◌, refl, ◌↔◌, ◌⊎◌, true, false, ◌||◌, Option, some, List, [], ◌∷◌, arith, if◌then◌else◌,
  string_key, nat_key, pair_key, ◌==◌, list_key,
}
use ruscker.Prelude.Text.{Text, codes, is_whitespace}
use ruscker.Spec.{Spec, effective_require_mfa}
use ruscker.Spec.Access.{names}
use ruscker.Config.Variables.{
  EnvVar, present, not_present, ok, interpolate_line, reference, resolve,
}
use ruscker.Config.Lines.{interpolate, interpolate_step, code_and_comment, split_inline_comment}
use ruscker.Accounts.Roles.{editor, admin}
use ruscker.Accounts.Scope.{
  EditorScope, UserRow, row, has_group, from_editor, may_touch_spec, merge_preserving_out_of_scope,
}
use ruscker.Accounts.Scope.Merged.{names-merge_preserving_out_of_scope}
use ruscker.Accounts.AdminSessions.{
  SessionInfo, Sessions, Operation, validates, is_actor, validate, revoke_by_actor, perform_all,
  perform,
}
use ruscker.Accounts.AdminSessions.Revoked.{validate-revoke_by_actor}
use ruscker.Mfa.Decision.{Services, found, evaluate, satisfied}
use ruscker.Mfa.Decision.Satisfied.{IsProven, evaluate-satisfied_iff}
use ruscker.Examples.{portal}

-- Only HOME is set.
abbrev env : Text → EnvVar
env name = if name == codes "HOME" then present (codes "/root") else not_present

-- HOME is written out, PASS takes its default, and the comment is left alone.
abbrev mounted_line : Text
mounted_line = codes "dir: ${HOME}/${PASS:-x} # ${PASS}"

rendered_line : code_and_comment env mounted_line ≡ some (ok (codes "dir: /root/x # ${PASS}"))
unfolding code_and_comment split_inline_comment interpolate_line reference resolve
rendered_line = refl

-- The container environment and the password of the registry are written out at the spawn.
interpolated :
    interpolate env
      (codes "container-env:\n  A: ${PASS}\ndocker-registry-password: ${PASS}\ndir: ${HOME}\n")
    ≡ some
        (ok (codes "container-env:\n  A: ${PASS}\ndocker-registry-password: ${PASS}\ndir: /root\n"))
unfolding interpolate interpolate_step code_and_comment split_inline_comment interpolate_line
    reference resolve is_whitespace
interpolated = refl

-- An editor of the staff group.
abbrev ana : UserRow
ana = record { username = "ana"; role = editor; groups = "staff" ∷ [] }

abbrev scope : EditorScope
scope = record { role = editor; actor = some "ana"; groups = "staff" ∷ []; unscoped = false }

names-merge_preserving_out_of_scope_example :
    names "lab" (merge_preserving_out_of_scope scope ("lab" ∷ "staff" ∷ []) ("sales" ∷ [])) ≡ (
      if scope.unscoped || has_group scope "lab"
      then names "lab" ("sales" ∷ [])
      else names "lab" ("lab" ∷ "staff" ∷ []))
names-merge_preserving_out_of_scope_example =
    names-merge_preserving_out_of_scope scope ("lab" ∷ "staff" ∷ []) ("sales" ∷ []) "lab"

touches : may_touch_spec (from_editor editor (some "ana") (some (λ u. row ana))) portal ≡ true
unfolding may_touch_spec from_editor
touches = ground arith

abbrev signed_in : Sessions
signed_in =
    ("s1", record { expiry = 100; role = admin; actor = some "ana" })
    ∷ ("s2", record { expiry = 100; role = editor; actor = some "bo" })
    ∷ []

abbrev bo : SessionInfo
bo = record { role = editor; actor = some "bo" }

abbrev later : List Operation
later = validates 20 "s1" ∷ []

bo_validates :
    (validate 30 "s2" (perform_all 50 later (revoke_by_actor "ana" signed_in))).1 ≡ some bo
unfolding validate perform_all perform revoke_by_actor
bo_validates = refl

validate-revoke_by_actor_example : is_actor "ana" bo.actor ≡ false
validate-revoke_by_actor_example =
    validate-revoke_by_actor "ana" 50 30 later signed_in "s2" bo refl bo_validates

abbrev services : Services
services = record {
  has_db = true;
  fetch_valid = λ id. found (record {
    username = codes "ana";
    token_hash = codes "h";
    expires_at = 90;
    factor_confirmed_at = 5;
    security_epoch = 1;
    session_binding = codes "b";
    mfa_verified_at = 10;
  });
  fetch_factor = λ u. found (record { confirmed_at = some 5; security_epoch = 1 });
  verify_device_token = λ t h. true;
  normalize_username = λ u. u;
  session_binding = λ s. s;
}

abbrev guarded : Spec
guarded = record portal { require_mfa = some true }

abbrev device : Option Text
device = some (codes "g.00112233445566778899aabbccddeeff00112233445566778899aabbccddeeff")

evaluate-satisfied_iff_example :
    (evaluate services 50 (codes "ana") (codes "s1") guarded device ≡ satisfied) ↔ (
      (effective_require_mfa guarded ≡ false)
      ⊎ IsProven services 50 (codes "ana") (codes "s1") guarded device)
evaluate-satisfied_iff_example =
    evaluate-satisfied_iff services 50 (codes "ana") (codes "s1") guarded device
