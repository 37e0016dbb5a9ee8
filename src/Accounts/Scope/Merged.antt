-- ===== src/Accounts/Scope/Merged.antt =====
-- The memberships that an editor writes.
use ruscker.Prelude.{
  String, ◌≡◌, refl, ap, inl, inr, Bool, true, ◌&&◌, ◌||◌, not, List, [], ◌∷◌, ◌++◌, arith, eq_iff,
  if◌then◌else◌, Bool-cases, keep_if, string_key, nat_key, pair_key, ◌==◌, list_key,
}
use ruscker.Spec.Access.{names}
use ruscker.Accounts.Scope.{
  EditorScope, has_group, set_insert, collect_set, merge_preserving_out_of_scope,
}

names-set_insert :
    (g x : String) (xs : List String)
    → names g (set_insert x xs) ≡ (if x == g then true else names g xs)
names-set_insert g x [] = ground arith
names-set_insert g x (y ∷ ys) =
    ground (arith, eq_iff x y, eq_iff x g, eq_iff y g, names-set_insert g x ys)

names-collect_set : (g : String) (xs : List String) → names g (collect_set xs) ≡ names g xs
names-collect_set g [] = refl
names-collect_set g (x ∷ xs) =
    ground (arith, names-set_insert g x (collect_set xs), names-collect_set g xs)

names-append :
    (g : String) (xs ys : List String)
    → names g (xs ++ ys) ≡ (if names g xs then true else names g ys)
names-append g [] ys = refl
names-append g (x ∷ xs) ys = ground (arith, names-append g xs ys)

names-keep_if :
    (p : String → Bool) (g : String) (xs : List String)
    → names g (keep_if p xs) ≡ (p g && names g xs)
names-keep_if p g [] = ground arith
names-keep_if p g (x ∷ xs) = elim (Bool-cases (x == g)) [
  | inl e ↦ let same = (eq_iff x g).0 e in ground (arith, names-keep_if p g xs, ap p same)
  | inr e ↦ ground (arith, names-keep_if p g xs)
]

-- When a scoped editor saves the groups of a user, each group of the editor is a membership
-- afterwards exactly when it was requested, and each other group exactly when it was one before;
-- without a scope the request decides on every group.
pub names-merge_preserving_out_of_scope :
    (s : EditorScope) (existing requested : List String) (g : String)
    → names g (merge_preserving_out_of_scope s existing requested)
      ≡ (if s.unscoped || has_group s g then names g requested else names g existing)
unfolding merge_preserving_out_of_scope
names-merge_preserving_out_of_scope s existing requested g =
    let own = λ (h : String). has_group s h in
    let foreign = λ (h : String). not (has_group s h) in
    ground (
      arith,
      names-collect_set g requested,
      names-collect_set g (keep_if foreign existing ++ keep_if own requested),
      names-append g (keep_if foreign existing) (keep_if own requested),
      names-keep_if foreign g existing,
      names-keep_if own g requested,
    )
