-- ===== src/Rewrite/Mounted.antt =====
-- Where rewritten URLs lead.
use mathlib.Core.List.{append_assoc}
use ruscker.Prelude.{
  ℕ, ◌≡◌, refl, sym, ap, ◌∙◌, inl, inr, true, false, none, some, [], ◌∷◌, ◌++◌, arith, Option-cases,
  string_key, nat_key, pair_key, list_key,
}
use ruscker.Prelude.Text.{
  Text, trim, trim_start, strip, strip_start, strip_end, sharp, starts_with-append, strip-sharp,
  strip_end_idem, is_whitespace-slash,
}
use ruscker.Rewrite.{
  is_slash, rooted, normalize_base_path, is_rooted, rewrite_url, rewrite_url_base, prefix_location,
}

-- A base path has one leading slash and no trailing one; the root is the empty text.
pub data IsBasePath (path : Text) : Type 0 where
  at_root : path ≡ [] → IsBasePath path
  below_root :
      (c : ℕ) (t : Text)
      → path ≡ b'/' ∷ c ∷ t
      → is_slash c ≡ false
      → strip_end is_slash (c ∷ t) ≡ c ∷ t
      → IsBasePath path

rooted-IsBasePath :
    (t : Text) → sharp is_slash t ≡ true → strip_end is_slash t ≡ t → IsBasePath (rooted t)
rooted-IsBasePath [] s e = at_root refl
rooted-IsBasePath (c ∷ t) s e = below_root c t refl (ground arith) e

normalize_base_path-IsBasePath : (raw : Text) → IsBasePath (normalize_base_path raw)
unfolding normalize_base_path
normalize_base_path-IsBasePath raw =
    rooted-IsBasePath (strip is_slash (trim raw)) (strip-sharp is_slash (trim raw))
      (strip_end_idem is_slash (strip_start is_slash (trim raw)))

-- A rooted text is a slash and what does not start with a slash.
strip_start-rooted : (t : Text) → is_rooted t ≡ true → t ≡ b'/' ∷ strip_start is_slash t
unfolding is_rooted
strip_start-rooted [] h = absurd (ground arith)
strip_start-rooted (c ∷ []) h = ground arith
strip_start-rooted (c ∷ d ∷ t) h = ground arith

trim_start-slash : (t : Text) → trim_start (b'/' ∷ t) ≡ b'/' ∷ t
trim_start-slash t = rw is_whitespace-slash refl

-- What `rewrite_url` does when it rewrites.
rewrite_url-some :
    (value base u : Text)
    → rewrite_url value base ≡ some u
    → (is_rooted (trim_start value) ≡ true) × (u ≡ base ++ strip_start is_slash (trim_start value))
unfolding rewrite_url
rewrite_url-some value base u h = ground arith

-- A URL below the mount is left alone.
rewrite_url-below : (m t : Text) → rewrite_url ((b'/' ∷ m) ++ t) (b'/' ∷ m) ≡ none
unfolding rewrite_url
rewrite_url-below m t =
    rw (trim_start-slash (m ++ t)) (ground (arith, starts_with-append (b'/' ∷ m) t))

-- Where a root-absolute URL is rewritten, the result is the mount followed by the URL that the
-- application wrote, so the path that the proxy forwards after it strips the mount is the
-- application's own; and rewriting the result again changes nothing. The mount starts with a
-- slash.
pub rewrite_url-lem :
    (value mount u : Text)
    → rewrite_url value ((b'/' ∷ mount) ++ b'/' ∷ []) ≡ some u
    → (u ≡ (b'/' ∷ mount) ++ trim_start value)
      × (rewrite_url u ((b'/' ∷ mount) ++ b'/' ∷ []) ≡ none)
rewrite_url-lem value mount u h =
    let (r, e) = rewrite_url-some value ((b'/' ∷ mount) ++ b'/' ∷ []) u h in
    let s = strip_start is_slash (trim_start value) in
    (
      e
          ∙ append_assoc (b'/' ∷ mount) (b'/' ∷ []) s
          ∙ ap (λ t. (b'/' ∷ mount) ++ t) (sym (strip_start-rooted (trim_start value) r)),
      rw e (rewrite_url-below (mount ++ b'/' ∷ []) s),
    )

rewrite_url_base-some :
    (value base u : Text)
    → rewrite_url_base value base ≡ some u
    → (is_rooted (trim_start value) ≡ true) × (u ≡ base ++ trim_start value)
unfolding rewrite_url_base
rewrite_url_base-some value base u h = ground arith

rewrite_url_base-below : (m t : Text) → rewrite_url_base ((b'/' ∷ m) ++ b'/' ∷ t) (b'/' ∷ m) ≡ none
unfolding rewrite_url_base
rewrite_url_base-below m t = rw (trim_start-slash (m ++ b'/' ∷ t)) (
    ground (
      arith,
      starts_with-append ((b'/' ∷ m) ++ b'/' ∷ []) t,
      append_assoc (b'/' ∷ m) (b'/' ∷ []) t,
    ))

moved_once :
    (value base : Text)
    → IsBasePath base
    → prefix_location base (prefix_location base value) ≡ prefix_location base value
unfolding prefix_location
moved_once value base (at_root e) = rw e refl
moved_once value base (below_root c t e n k) =
    elim (Option-cases (rewrite_url_base value (b'/' ∷ c ∷ t))) [
      | inl alone ↦
          let same : prefix_location base value ≡ value = rw e (rw alone refl) in
          ap (λ v. prefix_location base v) same
      | inr (u, h) ↦
          let (r, q) = rewrite_url_base-some value (b'/' ∷ c ∷ t) u h in
          rw e (
            rw (h, prefix_location)
              (ground (
                arith,
                rewrite_url_base-below (c ∷ t) (strip_start is_slash (trim_start value)),
                strip_start-rooted (trim_start value),
              )))
    ]

-- A normalized base path is empty, or starts with one slash and does not end in one; and moving a
-- redirect under it twice is moving it once.
pub prefix_location_idem :
    (raw value : Text)
    → IsBasePath (normalize_base_path raw)
      × (prefix_location (normalize_base_path raw) (prefix_location (normalize_base_path raw) value)
          ≡ prefix_location (normalize_base_path raw) value)
prefix_location_idem raw value =
    let shaped = normalize_base_path-IsBasePath raw in
    (shaped, moved_once value (normalize_base_path raw) shaped)
