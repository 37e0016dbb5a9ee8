-- ===== src/Accounts/Scope.antt =====
-- What an editor may act on, by the groups of the account (crates/ruscker-admin/src/scope.rs).
pub mod Merged
pub mod Visible
use Prim.Native.Nat.{Ordering}
use Prim.Native.String.{compare}
use ruscker.Prelude.{
  String, Bool, true, false, ◌&&◌, ◌||◌, not, Option, none, some, List, [], ◌∷◌, ◌++◌,
  if◌then◌else◌, keep_if, any, string_key, nat_key, pair_key, list_key,
}
use ruscker.Spec.{Spec}
use ruscker.Spec.Access.{is_open, names}
use ruscker.Accounts.Roles.{Role, viewer, editor, admin, same_role}

pub record UserRow : Type 0 where
  pub username : String
  pub role : Role
  pub groups : List String

pub record EditorScope : Type 0 where
  pub role : Role
  pub actor : Option String
  pub groups : List String
  pub unscoped : Bool

-- What the database answers to the lookup of an account.
pub data Fetched : Type 0 where
  row : UserRow → Fetched
  no_row failed : Fetched

abbrev pub groups_of : Fetched → List String
groups_of (row u) = u.groups
groups_of no_row = []
groups_of failed = []

-- `fetch` is `none` where no database is configured.
abbrev pub scoped_groups : Option (String → Fetched) → Option String → List String
scoped_groups none actor = []
scoped_groups (some fetch) none = []
scoped_groups (some fetch) (some username) = groups_of (fetch username)

unfoldable pub from_editor : Role → Option String → Option (String → Fetched) → EditorScope
from_editor r actor db =
    if same_role r admin
    then record { role = r; actor = actor; groups = []; unscoped = true }
    else record { role = r; actor = actor; groups = scoped_groups db actor; unscoped = false }

abbrev pub has_group : EditorScope → String → Bool
has_group s group = names group s.groups

unfoldable pub may_touch_group : EditorScope → String → Bool
may_touch_group s group = s.unscoped || has_group s group

abbrev pub shares_group : EditorScope → Option (List String) → Bool
shares_group s none = false
shares_group s (some groups) = any (λ g. has_group s g) groups

unfoldable pub may_touch_spec : EditorScope → Spec → Bool
may_touch_spec s spec = s.unscoped || is_open spec || shares_group s spec.access_groups

unfoldable pub may_touch_user : EditorScope → UserRow → Bool
may_touch_user s user =
    s.unscoped || (not (same_role user.role admin) && any (λ g. has_group s g) user.groups)

abbrev pub all_owned : EditorScope → List String → Bool
all_owned s [] = true
all_owned s (g ∷ gs) = if has_group s g then all_owned s gs else false

unfoldable pub may_assign_groups : EditorScope → List String → Bool
may_assign_groups s requested = s.unscoped || all_owned s requested

abbrev pub is_delegated : Role → Bool
is_delegated viewer = true
is_delegated editor = true
is_delegated admin = false

unfoldable pub may_assign_role : EditorScope → Role → Bool
may_assign_role s requested = s.unscoped || is_delegated requested

-- A sorted set of texts, in the order of their characters.
abbrev pub set_insert : String → List String → List String
set_insert x [] = x ∷ []
set_insert x (y ∷ ys) =
    let later = set_insert x ys in
    elim (compare x y) [ Ordering.lt ↦ x ∷ y ∷ ys | Ordering.eq ↦ y ∷ ys | Ordering.gt ↦ y ∷ later ]

abbrev pub collect_set : List String → List String
collect_set [] = []
collect_set (x ∷ xs) = set_insert x (collect_set xs)

unfoldable pub merge_preserving_out_of_scope : EditorScope → List String → List String → List String
merge_preserving_out_of_scope s existing requested =
    if s.unscoped
    then collect_set requested
    else collect_set
        (keep_if (λ g. not (has_group s g)) existing ++ keep_if (λ g. has_group s g) requested)
