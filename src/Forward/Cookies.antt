-- ===== src/Forward/Cookies.antt =====
-- The cookies of the portal itself, which no application may see or set
-- (crates/ruscker-admin/src/routes/proxy.rs, `is_ruscker_cookie` to `strip_reserved_set_cookies`).
pub mod Request
pub mod Response
use ruscker.Prelude.{
  ℕ, Bool, false, ◌&&◌, ◌||◌, not, Option, none, some, List, [], ◌∷◌, map, if◌then◌else◌, keep_if,
  any, string_key, nat_key, pair_key, ◌==◌, list_key,
}
use ruscker.Prelude.Text.{
  Text, codes, trim, split, join, before, starts_with, is_empty, lacks, strip, to_ascii_lowercase,
}
use ruscker.Forward.Headers.{HeaderMap, get, get_all, remove, insert, append}

abbrev pub ruscker_cookie_names : List Text
ruscker_cookie_names =
    codes "ruscker_admin_session" ∷ codes "ruscker_theme" ∷ codes "ruscker_locale" ∷ []

unfoldable pub is_ruscker_cookie : Text → Bool
is_ruscker_cookie name =
    any (λ n. n == name) ruscker_cookie_names
    || starts_with name (codes "__ruscker_session")
    || starts_with name (codes "__ruscker_mfa_")

-- The name of a `name=value` pair.
abbrev pub cookie_name : Text → Text
cookie_name pair = trim (before b'=' pair)

-- The pairs of a `Cookie` header.
abbrev pub cookie_pairs : Text → List Text
cookie_pairs raw = keep_if (λ p. not (is_empty p)) (map trim (split b';' raw))

abbrev pub is_foreign : Text → Bool
is_foreign pair = not (is_ruscker_cookie (cookie_name pair))

abbrev pub joined : List Text → Option Text
joined [] = none
joined (p ∷ ps) = some (join (codes "; ") (p ∷ ps))

unfoldable pub filter_ruscker_cookies : Text → Option Text
filter_ruscker_cookies raw = joined (keep_if is_foreign (cookie_pairs raw))

abbrev pub replace_cookies : (Text → Option Text) → HeaderMap → Option Text → HeaderMap
replace_cookies from_str hs none = remove (codes "cookie") hs
replace_cookies from_str hs (some kept) = elim (from_str kept) [
  | none ↦ hs
  | some v ↦ insert (codes "cookie") v hs
]

-- `to_str` and `from_str` are the HTTP library's conversions of a header value.
unfoldable pub strip_ruscker_cookies :
    (Text → Option Text) → (Text → Option Text) → HeaderMap → HeaderMap
strip_ruscker_cookies to_str from_str hs = elim (get (codes "cookie") hs) [
  | none ↦ hs
  | some v ↦ elim (to_str v) [
    | none ↦ hs
    | some raw ↦ replace_cookies from_str hs (filter_ruscker_cookies raw)
  ]
]

-- `trim_ascii`: the ASCII whitespace of a byte string.
abbrev pub is_ascii_space : ℕ → Bool
is_ascii_space c = c == 32 || c == 9 || c == 10 || c == 12 || c == 13

abbrev pub set_cookie_name : Text → Text
set_cookie_name value = strip is_ascii_space (before b'=' (before b';' value))

-- `from_utf8` is the decoder of a byte string.
abbrev pub is_reserved : (Text → Option Text) → Text → Bool
is_reserved from_utf8 value = elim (from_utf8 (set_cookie_name value)) [
  | none ↦ false
  | some name ↦ is_ruscker_cookie name
]

abbrev pub append_foreign : (Text → Option Text) → List Text → HeaderMap → HeaderMap
append_foreign from_utf8 [] hs = hs
append_foreign from_utf8 (v ∷ vs) hs =
    append_foreign from_utf8 vs
      (if is_reserved from_utf8 v then hs else append (codes "set-cookie") v hs)

unfoldable pub strip_reserved_set_cookies : (Text → Option Text) → HeaderMap → HeaderMap
strip_reserved_set_cookies from_utf8 hs =
    append_foreign from_utf8 (get_all (codes "set-cookie") hs) (remove (codes "set-cookie") hs)

abbrev pub safe_directives : List Text
safe_directives =
    codes "cache" ∷ codes "storage" ∷ codes "executionContexts" ∷ codes "clientHints" ∷ []

abbrev pub same_ignoring_case : Text → Text → Bool
same_ignoring_case s t = map to_ascii_lowercase s == map to_ascii_lowercase t

abbrev pub strip_last_quote : Text → Option Text
strip_last_quote [] = none
strip_last_quote (c ∷ []) = if c == b'"' then some [] else none
strip_last_quote (c ∷ d ∷ s) = elim (strip_last_quote (d ∷ s)) [
  | none ↦ none
  | some t ↦ some (c ∷ t)
]

-- What stands between the quotes of an entry.
abbrev pub quoted : Text → Option Text
quoted [] = none
quoted (c ∷ s) = if c == b'"' then strip_last_quote s else none

unfoldable pub is_safe_directive : Text → Bool
is_safe_directive entry = elim (quoted entry) [
  | none ↦ false
  | some inner ↦ lacks b'\\' inner && any (λ d. same_ignoring_case d inner) safe_directives
]

abbrev pub kept_directives : Text → List Text
kept_directives raw = keep_if is_safe_directive (map trim (split b',' raw))

abbrev pub append_directives : (Text → Option Text) → List Text → HeaderMap → HeaderMap
append_directives from_str [] hs = hs
append_directives from_str (e ∷ es) hs = elim (from_str (join (codes ", ") (e ∷ es))) [
  | none ↦ hs
  | some v ↦ append (codes "clear-site-data") v hs
]

abbrev pub sanitize_values :
    (Text → Option Text) → (Text → Option Text) → List Text → HeaderMap → HeaderMap
sanitize_values to_str from_str [] hs = hs
sanitize_values to_str from_str (v ∷ vs) hs =
    sanitize_values to_str from_str vs (elim (to_str v) [
      | none ↦ hs
      | some raw ↦ append_directives from_str (kept_directives raw) hs
    ])

unfoldable pub sanitize_clear_site_data :
    (Text → Option Text) → (Text → Option Text) → HeaderMap → HeaderMap
sanitize_clear_site_data to_str from_str hs =
    sanitize_values to_str from_str (get_all (codes "clear-site-data") hs)
      (remove (codes "clear-site-data") hs)
