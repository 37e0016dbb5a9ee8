-- ===== src/Accounts/Scope/Visible.antt =====
-- An editor acts on applications that the editor may use.
use ruscker.Prelude.{
  String, ◌≡◌, refl, true, Option, none, some, List, [], ◌∷◌, arith, eq_iff, any, string_key,
  nat_key, pair_key, ◌==◌, list_key,
}
use ruscker.Spec.{Spec}
use ruscker.Spec.Access.{names, group_shared, access_allows}
use ruscker.Accounts.Roles.{Role, admin, same_role}
use ruscker.Accounts.Scope.{EditorScope, Fetched, from_editor, shares_group, may_touch_spec}

names-any : (g : String) (groups : List String) → names g groups ≡ any (λ h. g == h) groups
names-any g [] = refl
names-any g (h ∷ groups) = ground (arith, eq_iff g h, eq_iff h g, names-any g groups)

shares_group-group_shared :
    (s : EditorScope) (gs : Option (List String)) → shares_group s gs ≡ group_shared gs s.groups
shares_group-group_shared s none = refl
shares_group-group_shared s (some []) = refl
shares_group-group_shared s (some (g ∷ gs)) =
    ground (arith, names-any g s.groups, shares_group-group_shared s (some gs))

-- An editor or admin may operate only on applications that the access rule lets the same account
-- use, with the groups that the scope was built from.
pub may_touch_spec-access_allows :
    (r : Role) (actor : Option String) (db : Option (String → Fetched)) (spec : Spec)
    → may_touch_spec (from_editor r actor db) spec ≡ true
    → access_allows spec (same_role r admin) actor (from_editor r actor db).groups ≡ true
unfolding may_touch_spec from_editor access_allows
may_touch_spec-access_allows r actor db spec h =
    ground (arith, shares_group-group_shared (from_editor r actor db) spec.access_groups)
