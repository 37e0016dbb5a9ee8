-- ===== src/Forward/Cookies/Request.antt =====
-- What an application reads in the filtered `Cookie` header.
use ruscker.Prelude.{
  ◌≡◌, refl, sym, subst, true, false, not, Option, none, some, List, [], ◌∷◌, map, arith, keep_if,
  All, All-map, keep_if-All, string_key, nat_key, pair_key, list_key,
}
use ruscker.Prelude.Text.{
  Text, codes, trim, split, join, is_empty, lacks, is_whitespace, is_whitespace-space, split-lacks,
  split-join, strip_idem, strip_skip, strip-lacks,
}
use ruscker.Forward.Headers.Laws.{get_all-insert, get_all-remove}
use ruscker.Forward.Headers.{HeaderMap, get, get_all}
use ruscker.Forward.Cookies.{
  cookie_pairs, replace_cookies, strip_ruscker_cookies, is_ruscker_cookie, cookie_name, is_foreign,
  joined, filter_ruscker_cookies, insert,
}

abbrev IsPiece : Text → Type 0
IsPiece p = (lacks b';' p ≡ true) × (trim p ≡ p)

abbrev IsPair : Text → Type 0
IsPair p = IsPiece p × (is_empty p ≡ false)

map-trim-IsPiece : (ws : List Text) → All (λ w. lacks b';' w ≡ true) ws → All IsPiece (map trim ws)
map-trim-IsPiece [] h = tt
map-trim-IsPiece (w ∷ ws) h =
    ((strip-lacks is_whitespace b';' w h.0, strip_idem is_whitespace w), map-trim-IsPiece ws h.1)

cookie_pairs-IsPair : (raw : Text) → All IsPair (cookie_pairs raw)
cookie_pairs-IsPair raw =
    All-map (λ p. IsPiece p × (not (is_empty p) ≡ true)) IsPair (cookie_pairs raw)
      (λ p h. (h.0, ground arith))
      (keep_if-All IsPiece (λ p. not (is_empty p)) (map trim (split b';' raw))
        (map-trim-IsPiece (split b';' raw) (split-lacks b';' raw)))

-- Trimming the pieces of a joined header gives the pairs back.
trimmed :
    (ps : List Text)
    → All IsPair ps
    → keep_if (λ p. not (is_empty p)) (map trim (map (λ p. 32 ∷ p) ps)) ≡ ps
trimmed [] h = refl
trimmed (p ∷ ps) h =
    rw (strip_skip is_whitespace 32 p is_whitespace-space, h.0.0.1, h.0.1, trimmed ps h.1) refl

cookie_pairs-join :
    (p : Text) (ps : List Text)
    → All IsPair (p ∷ ps)
    → cookie_pairs (join (codes "; ") (p ∷ ps)) ≡ p ∷ ps
cookie_pairs-join p ps h =
    rw
      (split-join b';' 32 p ps refl
        (All-map IsPair (λ v. lacks b';' v ≡ true) (p ∷ ps) (λ v k. k.0.0) h))
      (rw (h.0.0.1, h.0.1, trimmed ps h.1) refl)

abbrev pub pairs_of : Option Text → List Text
pairs_of none = []
pairs_of (some raw) = cookie_pairs raw

All-unit : (ps : List Text) → All (λ p. Unit {0}) ps
All-unit [] = tt
All-unit (p ∷ ps) = (tt, All-unit ps)

pairs_of-joined : (ps : List Text) → All IsPair ps → pairs_of (joined ps) ≡ ps
pairs_of-joined [] h = refl
pairs_of-joined (p ∷ ps) h = cookie_pairs-join p ps h

-- An application that splits the filtered `Cookie` header reads the pairs of the original header
-- that are not the portal's, in order and unchanged, and none where the header is dropped.
pub pairs_of-filter_ruscker_cookies :
    (raw : Text) → pairs_of (filter_ruscker_cookies raw) ≡ keep_if is_foreign (cookie_pairs raw)
unfolding filter_ruscker_cookies
pairs_of-filter_ruscker_cookies raw = pairs_of-joined (keep_if is_foreign (cookie_pairs raw)) (
    All-map (λ p. IsPair p × (is_foreign p ≡ true)) IsPair (keep_if is_foreign (cookie_pairs raw))
      (λ p h. h.0) (keep_if-All IsPair is_foreign (cookie_pairs raw) (cookie_pairs-IsPair raw)))

strip_ruscker_cookies-legible :
    (to_str from_str : Text → Option Text) (hs : HeaderMap) (v raw : Text)
    → get (codes "cookie") hs ≡ some v
    → to_str v ≡ some raw
    → strip_ruscker_cookies to_str from_str hs
      ≡ replace_cookies from_str hs (filter_ruscker_cookies raw)
unfolding strip_ruscker_cookies
strip_ruscker_cookies-legible to_str from_str hs v raw first legible =
    rw (strip_ruscker_cookies, first, legible) refl

-- No `Cookie` header that an application gets holds a cookie of the portal, as the application
-- splits the header into pairs. The first `Cookie` value of the request is legible text, and what
-- is left after the filter is a legal header value.
pub strip_ruscker_cookies-get_all :
    (to_str from_str : Text → Option Text) (hs : HeaderMap) (v raw : Text)
    → get (codes "cookie") hs ≡ some v
    → to_str v ≡ some raw
    → ((kept : Text) → filter_ruscker_cookies raw ≡ some kept → from_str kept ≡ some kept)
    → All
        (λ c. All (λ p. is_ruscker_cookie (cookie_name p) ≡ false) (cookie_pairs c))
        (get_all (codes "cookie") (strip_ruscker_cookies to_str from_str hs))
strip_ruscker_cookies-get_all to_str from_str hs v raw first legible legal =
    rw (strip_ruscker_cookies-legible to_str from_str hs v raw first legible)
      (go (filter_ruscker_cookies raw) refl)
  where
    foreign :
        All (λ p. is_ruscker_cookie (cookie_name p) ≡ false) (pairs_of (filter_ruscker_cookies raw))
    foreign = rw (pairs_of-filter_ruscker_cookies raw) (
        All-map (λ p. Unit {0} × (is_foreign p ≡ true))
          (λ p. is_ruscker_cookie (cookie_name p) ≡ false) (keep_if is_foreign (cookie_pairs raw))
          (λ p h. ground (arith, h.1))
          (keep_if-All (λ p. Unit {0}) is_foreign (cookie_pairs raw) (All-unit (cookie_pairs raw))))

    replaced :
        (kept : Text)
        → filter_ruscker_cookies raw ≡ some kept
        → replace_cookies from_str hs (some kept) ≡ insert (codes "cookie") kept hs
    replaced kept e = rw (legal kept e, replace_cookies) refl

    go :
        (o : Option Text)
        → filter_ruscker_cookies raw ≡ o
        → All
            (λ c. All (λ p. is_ruscker_cookie (cookie_name p) ≡ false) (cookie_pairs c))
            (get_all (codes "cookie") (replace_cookies from_str hs o))
    go none e = rw (get_all-remove (codes "cookie") (codes "cookie") hs) tt
    go (some kept) e =
        subst
          (λ (r : HeaderMap).
            All (λ c. All (λ p. is_ruscker_cookie (cookie_name p) ≡ false) (cookie_pairs c))
              (get_all (codes "cookie") r))
          (sym (replaced kept e))
          (rw (get_all-insert (codes "cookie") (codes "cookie") kept hs) (
            subst (λ o. All (λ p. is_ruscker_cookie (cookie_name p) ≡ false) (pairs_of o)) e
                foreign,
            tt,
          ))
