-- ===== src/Rewrite.antt =====
-- Paths under which the portal and its applications are mounted: the shape of the base path
-- (crates/ruscker-config/src/schema.rs, `normalize_base_path`), the mount of an application
-- (crates/ruscker-admin/src/routes/proxy.rs, `mount_prefix`, `public_path`), and the rewriting of
-- root-absolute URLs (crates/ruscker-admin/src/routes/rewrite.rs).
pub mod Mounted
use ruscker.Prelude.{
  ℕ, Bool, ◌&&◌, ◌||◌, not, Option, none, some, List, [], ◌∷◌, ◌++◌, if◌then◌else◌, any, string_key,
  nat_key, pair_key, ◌==◌, list_key,
}
use ruscker.Prelude.Text.{Text, codes, trim, trim_start, strip, strip_start, starts_with, is_empty}
use ruscker.Spec.{Spec, SpecKind, kind}

abbrev pub is_slash : ℕ → Bool
is_slash c = c == b'/'

abbrev pub rooted : Text → Text
rooted [] = []
rooted (c ∷ t) = b'/' ∷ c ∷ t

unfoldable pub normalize_base_path : Text → Text
normalize_base_path raw = rooted (strip is_slash (trim raw))

abbrev pub mount_prefix : Text → Text → Text → Text
mount_prefix base_path route_prefix spec_id = base_path ++ (route_prefix ++ spec_id)

abbrev pub route_prefix_of : SpecKind → Text
route_prefix_of SpecKind.api = codes "/api/"
route_prefix_of SpecKind.shiny = codes "/app/"
route_prefix_of SpecKind.interactive_app = codes "/app/"
route_prefix_of SpecKind.external = codes "/app/"

unfoldable pub public_path : Text → Spec → Text
public_path base_path spec =
    mount_prefix base_path (route_prefix_of (kind spec)) (codes spec.id) ++ b'/' ∷ []

abbrev pub skip_prefixes : List Text
skip_prefixes =
    codes "/admin/"
    ∷ codes "/admin"
    ∷ codes "/assets/"
    ∷ codes "/app/"
    ∷ codes "/__set/"
    ∷ codes "/__assets__/"
    ∷ []

-- The same chain of early returns in both rewriters: not rooted, or protocol-relative.
unfoldable pub is_rooted : Text → Bool
is_rooted t = starts_with t (codes "/") && not (starts_with t (codes "//"))

unfoldable pub is_skipped : Text → Bool
is_skipped t = any (λ p. starts_with t p) skip_prefixes

unfoldable pub rewrite_url : Text → Text → Option Text
rewrite_url value base_path =
    let trimmed = trim_start value in
    if not (is_rooted trimmed)
    then none
    else if is_skipped trimmed
    then none
    else if starts_with trimmed base_path
    then none
    else some (base_path ++ strip_start is_slash trimmed)

unfoldable pub rewrite_url_base : Text → Text → Option Text
rewrite_url_base value base =
    let t = trim_start value in
    if not (is_rooted t)
    then none
    else if t == base || starts_with t (base ++ b'/' ∷ [])
    then none
    else some (base ++ t)

-- The `Location` of a redirect of the portal's own pages, in `prefix_base_path`.
unfoldable pub prefix_location : Text → Text → Text
prefix_location base location =
    if is_empty base
    then location
    else elim (rewrite_url_base location base) [ none ↦ location | some moved ↦ moved ]
