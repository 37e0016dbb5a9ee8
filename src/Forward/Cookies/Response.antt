-- ===== src/Forward/Cookies/Response.antt =====
-- The cookies that an application sets, after the portal's own names are dropped.
use ruscker.Prelude.{
  ◌≡◌, ◌∙◌, inl, inr, not, Option, List, [], ◌∷◌, ◌++◌, arith, if◌then◌else◌, Bool-cases, keep_if,
  string_key, nat_key, pair_key, ◌==◌, list_key,
}
use mathlib.Core.List.{append-nil, append_assoc}
use ruscker.Prelude.Text.{Text, codes}
use ruscker.Forward.Headers.{HeaderMap, get_all, remove, append}
use ruscker.Forward.Headers.Laws.{get_all-append, get_all-remove}
use ruscker.Forward.Cookies.{is_reserved, append_foreign, strip_reserved_set_cookies}

module _ (from_utf8 : Text → Option Text) where
  get_all-append_foreign :
      (j : Text) (vs : List Text) (hs : HeaderMap)
      → get_all j (append_foreign from_utf8 vs hs)
        ≡ get_all j hs
          ++ (if codes "set-cookie" == j
              then keep_if (λ v. not (is_reserved from_utf8 v)) vs
              else [])
  get_all-append_foreign j [] hs = ground (arith, append-nil (get_all j hs))
  get_all-append_foreign j (v ∷ vs) hs = elim (Bool-cases (is_reserved from_utf8 v)) [
    | inl e ↦ rw (e, append_foreign) (get_all-append_foreign j vs hs)
    | inr e ↦
        rw (e, append_foreign)
          (get_all-append_foreign j vs (append (codes "set-cookie") v hs)
            ∙ rw (get_all-append (codes "set-cookie") j v hs) (
                ground (
                  arith,
                  append_assoc (get_all j hs) (v ∷ [])
                      (keep_if (λ (v : Text). not (is_reserved from_utf8 v)) vs),
                )))
  ]

-- The `Set-Cookie` headers that a browser gets are those of the application whose name is not the
-- portal's, in order; the values of every other header stay.
pub strip_reserved_set_cookies-get_all :
    (from_utf8 : Text → Option Text) (j : Text) (hs : HeaderMap)
    → get_all j (strip_reserved_set_cookies from_utf8 hs) ≡ (
        if codes "set-cookie" == j
        then keep_if (λ v. not (is_reserved from_utf8 v)) (get_all (codes "set-cookie") hs)
        else get_all j hs)
unfolding strip_reserved_set_cookies
strip_reserved_set_cookies-get_all from_utf8 j hs =
    get_all-append_foreign from_utf8 j (get_all (codes "set-cookie") hs)
      (remove (codes "set-cookie") hs)
    ∙ rw (get_all-remove (codes "set-cookie") j hs) (ground (arith, append-nil (get_all j hs)))
