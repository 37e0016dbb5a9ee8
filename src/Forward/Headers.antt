-- ===== src/Forward/Headers.antt =====
-- The header map of the HTTP library, and the headers that the proxy removes and adds
-- (crates/ruscker-admin/src/routes/proxy.rs, `strip_hop_headers` to `apply_smart_routing_headers`).
pub mod Laws
use ruscker.Prelude.{
  Bool, ◌||◌, Option, none, some, List, [], ◌∷◌, ◌++◌, map, if◌then◌else◌, keep_if, string_key,
  nat_key, pair_key, ◌==◌, list_key,
}
use ruscker.Prelude.Text.{Text, codes, trim, split, starts_with}

-- `HeaderMap`: a name may have several values.
abbrev pub HeaderMap : Type 0
HeaderMap = List (Text × Text)

abbrev pub get : Text → HeaderMap → Option Text
get name [] = none
get name ((n, v) ∷ hs) = if n == name then some v else get name hs

abbrev pub get_all : Text → HeaderMap → List Text
get_all name [] = []
get_all name ((n, v) ∷ hs) = let rest = get_all name hs in if n == name then v ∷ rest else rest

abbrev pub remove : Text → HeaderMap → HeaderMap
remove name [] = []
remove name ((n, v) ∷ hs) = let rest = remove name hs in if n == name then rest else (n, v) ∷ rest

-- `insert` drops the values that the name had.
abbrev pub insert : Text → Text → HeaderMap → HeaderMap
insert name v hs = remove name hs ++ (name, v) ∷ []

abbrev pub append : Text → Text → HeaderMap → HeaderMap
append name v hs = hs ++ (name, v) ∷ []

-- `entry(name).or_insert(v)`.
abbrev pub or_insert : Text → Text → HeaderMap → HeaderMap
or_insert name v hs = elim (get name hs) [ none ↦ append name v hs | some w ↦ hs ]

abbrev pub remove_all : List Text → HeaderMap → HeaderMap
remove_all [] hs = hs
remove_all (n ∷ ns) hs = remove_all ns (remove n hs)

abbrev pub hop_by_hop : List Text
hop_by_hop =
    codes "connection"
    ∷ codes "keep-alive"
    ∷ codes "proxy-authenticate"
    ∷ codes "proxy-authorization"
    ∷ codes "te"
    ∷ codes "trailers"
    ∷ codes "transfer-encoding"
    ∷ codes "upgrade"
    ∷ codes "host"
    ∷ codes "proxy-connection"
    ∷ []

-- The names that a `Connection` header lists. `to_str` and `lower` are the libraries' reading of a
-- header value and of Unicode case.
unfoldable pub listed_hops : (Text → Option Text) → (Text → Text) → HeaderMap → List Text
listed_hops to_str lower hs = elim (get (codes "connection") hs) [
  | none ↦ []
  | some v ↦ elim (to_str v) [ none ↦ [] | some s ↦ map (λ t. lower (trim t)) (split b',' s) ]
]

unfoldable pub strip_hop_headers : (Text → Option Text) → (Text → Text) → HeaderMap → HeaderMap
strip_hop_headers to_str lower hs = remove (codes "x-forwarded-port") (
    remove (codes "x-forwarded-proto") (
      or_insert (codes "via") (codes "1.1 ruscker")
        (remove_all (hop_by_hop ++ listed_hops to_str lower hs) hs)))

abbrev pub is_reserved_identity : Text → Bool
is_reserved_identity name =
    starts_with name (codes "x-sp-") || starts_with name (codes "x-ruscker-user-")

abbrev pub reserved_names : HeaderMap → List Text
reserved_names hs = keep_if is_reserved_identity (map (λ h. h.0) hs)

unfoldable pub strip_reserved_identity_headers : HeaderMap → HeaderMap
strip_reserved_identity_headers hs = remove_all (reserved_names hs) hs

unfoldable pub apply_smart_routing_headers :
    (Text → Option Text) → Text → Bool → Option Text → HeaderMap → HeaderMap
apply_smart_routing_headers from_str forwarded_prefix is_https fwd_host hs =
    let mounted : HeaderMap = elim (from_str forwarded_prefix) [
      | none ↦ hs
      | some v ↦
          insert (codes "x-rstudio-root-path") v
            (insert (codes "x-script-name") v (insert (codes "x-forwarded-prefix") v hs))
    ] in
    let secured =
      insert (codes "x-forwarded-proto") (if is_https then codes "https" else codes "http")
        mounted in
    elim fwd_host [ none ↦ secured | some host ↦ insert (codes "x-forwarded-host") host secured ]

unfoldable pub apply_cors_headers : HeaderMap → HeaderMap
apply_cors_headers hs = or_insert (codes "access-control-max-age") (codes "86400") (
    or_insert (codes "access-control-allow-headers") (codes "*") (
      or_insert (codes "access-control-allow-methods")
        (codes "GET, POST, PUT, PATCH, DELETE, OPTIONS, HEAD")
        (or_insert (codes "access-control-allow-origin") (codes "*") hs)))

unfoldable pub with_cors : Bool → HeaderMap → HeaderMap
with_cors enabled hs = if enabled then apply_cors_headers hs else hs
