-- ===== src/Spec/Access.antt =====
-- Who may see and reach an application (crates/ruscker-config/src/schema.rs, `access_allows`).
use ruscker.Prelude.{
  String, Bool, true, false, ◌&&◌, ◌||◌, Option, none, some, List, [], ◌∷◌, if◌then◌else◌, any,
  ◌==◌, nat_key, string_key,
}
use ruscker.Spec.{Spec}

abbrev is_empty_list {ℓ} : {A : Type ℓ} → Option (List A) → Bool
is_empty_list none = true
is_empty_list (some []) = true
is_empty_list (some (x ∷ xs)) = false

unfoldable pub is_open : Spec → Bool
is_open s = is_empty_list s.access_groups && is_empty_list s.access_users

abbrev pub names : String → List String → Bool
names n l = any (λ u. u == n) l

abbrev pub user_listed : Option (List String) → Option String → Bool
user_listed _ none = false
user_listed none (some name) = false
user_listed (some us) (some name) = names name us

abbrev pub group_shared : Option (List String) → List String → Bool
group_shared none groups = false
group_shared (some gs) groups = any (λ g. any (λ h. g == h) groups) gs

unfoldable pub access_allows : Spec → Bool → Option String → List String → Bool
unfolding is_open
access_allows s is_admin username groups =
    if is_admin || is_open s
    then true
    else if user_listed s.access_users username
    then true
    else group_shared s.access_groups groups
