-- ===== src/Examples/Forwarded.antt =====
-- Examples of headers and URLs on their way through the proxy.
use ruscker.Prelude.{
  ◌≡◌, refl, false, not, none, some, [], ◌∷◌, ◌++◌, keep_if, All, string_key, nat_key, pair_key,
  list_key,
}
use ruscker.Prelude.Text.{Text, codes, trim_start, is_whitespace}
use ruscker.Forward.Headers.{HeaderMap, get_all}
use ruscker.Forward.Cookies.{
  cookie_pairs, cookie_name, is_ruscker_cookie, filter_ruscker_cookies, strip_ruscker_cookies,
  is_reserved, strip_reserved_set_cookies,
}
use ruscker.Forward.Cookies.Request.{strip_ruscker_cookies-get_all}
use ruscker.Forward.Cookies.Response.{strip_reserved_set_cookies-get_all}
use ruscker.Rewrite.{is_rooted, is_skipped, rewrite_url}
use ruscker.Rewrite.Mounted.{rewrite_url-lem}

-- A browser with a session of the portal and one of the application.
abbrev cookies : Text
cookies = codes "theme=dark; ruscker_admin_session=s3cret; lang=pt"

abbrev request : HeaderMap
request = (codes "accept", codes "*") ∷ (codes "cookie", cookies) ∷ []

filtered : filter_ruscker_cookies cookies ≡ some (codes "theme=dark; lang=pt")
unfolding filter_ruscker_cookies is_ruscker_cookie is_whitespace
filtered = refl

strip_ruscker_cookies-get_all_example :
    All
      (λ c. All (λ p. is_ruscker_cookie (cookie_name p) ≡ false) (cookie_pairs c))
      (get_all (codes "cookie") (strip_ruscker_cookies (λ v. some v) (λ s. some s) request))
strip_ruscker_cookies-get_all_example =
    strip_ruscker_cookies-get_all (λ v. some v) (λ s. some s) request cookies cookies refl refl
      (λ kept e. refl)

-- An application that tries to replace the admin session.
abbrev response : HeaderMap
response =
    (codes "set-cookie", codes "lang=pt; Path=/")
    ∷ (codes "set-cookie", codes "ruscker_admin_session=x; Path=/")
    ∷ []

strip_reserved_set_cookies-get_all_example :
    get_all (codes "set-cookie") (strip_reserved_set_cookies (λ b. some b) response)
    ≡ keep_if (λ v. not (is_reserved (λ b. some b) v)) (get_all (codes "set-cookie") response)
strip_reserved_set_cookies-get_all_example =
    strip_reserved_set_cookies-get_all (λ b. some b) (codes "set-cookie") response

moved :
    rewrite_url (codes "/lib/a.js") (codes "/box/app/sales/")
    ≡ some (codes "/box/app/sales/lib/a.js")
unfolding rewrite_url is_rooted is_skipped is_whitespace
moved = refl

rewrite_url-lem_example :
    (codes "/box/app/sales/lib/a.js" ≡ codes "/box/app/sales" ++ trim_start (codes "/lib/a.js"))
    × (rewrite_url (codes "/box/app/sales/lib/a.js") (codes "/box/app/sales/") ≡ none)
rewrite_url-lem_example =
    rewrite_url-lem (codes "/lib/a.js") (codes "box/app/sales") (codes "/box/app/sales/lib/a.js")
      moved
