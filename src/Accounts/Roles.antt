-- ===== src/Accounts/Roles.antt =====
-- The admin roles (crates/ruscker-admin/src/auth.rs, `Role`).
use ruscker.Prelude.{
  ℕ, String, Bool, Option, none, some, List, [], ◌∷◌, map, leb, if◌then◌else◌, any, string_key,
  nat_key, pair_key, ◌==◌, list_key,
}
use ruscker.Prelude.Text.{Text, codes, to_ascii_lowercase}

pub data Role : Type 0 where
  viewer editor admin : Role

-- The derived order: least to most privileged.
abbrev pub rank : Role → ℕ
rank viewer = 0
rank editor = 1
rank admin = 2

abbrev pub same_role : Role → Role → Bool
same_role r s = rank r == rank s

abbrev pub at_least : Role → Role → Bool
at_least r s = leb (rank s) (rank r)

abbrev pub shared_sections : List String
shared_sections = "dashboard" ∷ "specs" ∷ "images" ∷ "users" ∷ "groups" ∷ []

unfoldable pub can_access_section : Role → String → Bool
can_access_section r section =
    if any (λ s. s == section) shared_sections then at_least r editor else same_role r admin

unfoldable pub can_manage : Role → Bool
can_manage r = at_least r editor

abbrev pub home : Role → String
home viewer = "/"
home editor = "/admin/specs"
home admin = "/admin/specs"

abbrev pub as_str : Role → Text
as_str viewer = codes "viewer"
as_str editor = codes "editor"
as_str admin = codes "admin"

abbrev pub eq_ignore_ascii_case : Text → Text → Bool
eq_ignore_ascii_case s t = map to_ascii_lowercase s == map to_ascii_lowercase t

unfoldable pub parse : Text → Option Role
parse s =
    if eq_ignore_ascii_case s (codes "viewer")
    then some viewer
    else if eq_ignore_ascii_case s (codes "editor")
    then some editor
    else if eq_ignore_ascii_case s (codes "admin")
    then some admin
    else none
