-- ===== src/Spec/Allowed.antt =====
-- The access rule in words, and that the code decides it.
use ruscker.Prelude.{
  String, ◌≡◌, refl, sym, subst, ◌↔◌, inl, inr, Bool, true, Option, none, some, List, Memᴰ, arith,
  eq_iff, Bool-cases, any, ◌==◌, nat_key, string_key, same_refl, pair_key, any_complete, any_sound,
}
use ruscker.Spec.{Spec}
use ruscker.Spec.Access.{access_allows, is_open, names, user_listed, group_shared}

-- Why a viewer may see an app.
pub data Allowed (s : Spec) (is_admin : Bool) (username : Option String) (groups : List String)
    : Type 0 where
  by_role : is_admin ≡ true → Allowed s is_admin username groups
  by_openness : is_open s ≡ true → Allowed s is_admin username groups
  by_name :
      (us : List String) (name : String)
      → s.access_users ≡ some us
      → username ≡ some name
      → Memᴰ name us
      → Allowed s is_admin username groups
  by_group :
      (gs : List String) (g : String)
      → s.access_groups ≡ some gs
      → Memᴰ g gs
      → Memᴰ g groups
      → Allowed s is_admin username groups

names-Mem : (n : String) (us : List String) → names n us ≡ true → Memᴰ n us
names-Mem n us h =
    let (a, m, e) = any_sound (λ u. u == n) us h in
    subst (λ (x : String). Memᴰ x us) ((eq_iff a n).0 e) m

listed-Mem :
    (gs groups : List String)
    → any (λ g. any (λ h. g == h) groups) gs ≡ true
    → (g : String) × Memᴰ g gs × Memᴰ g groups
listed-Mem gs groups h =
    let (g, m, e) = any_sound (λ g. any (λ h. g == h) groups) gs h in
    let (k, n, same) = any_sound (λ h. g == h) groups e in
    (g, m, subst (λ (x : String). Memᴰ x groups) (sym ((eq_iff g k).0 same)) n)

module _ (s : Spec) (is_admin : Bool) (username : Option String) (groups : List String) where
  Allowed-by_name :
      (us : Option (List String)) (name : Option String)
      → s.access_users ≡ us
      → username ≡ name
      → user_listed us name ≡ true
      → Allowed s is_admin username groups
  Allowed-by_name us none e n h = absurd (ground arith)
  Allowed-by_name none (some name) e n h = absurd (ground arith)
  Allowed-by_name (some us) (some name) e n h = by_name us name e n (names-Mem name us h)

  Allowed-by_group :
      (gs : Option (List String))
      → s.access_groups ≡ gs
      → group_shared gs groups ≡ true
      → Allowed s is_admin username groups
  Allowed-by_group none e h = absurd (ground arith)
  Allowed-by_group (some gs) e h = let (g, m, n) = listed-Mem gs groups h in by_group gs g e m n

  Allowed-sound :
      access_allows s is_admin username groups ≡ true → Allowed s is_admin username groups
  unfolding access_allows
  Allowed-sound h = elim (Bool-cases is_admin) [
    | inl a ↦ by_role a
    | inr a ↦ elim (Bool-cases (is_open s)) [
      | inl o ↦ by_openness o
      | inr o ↦ elim (Bool-cases (user_listed s.access_users username)) [
        | inl u ↦ Allowed-by_name s.access_users username refl refl u
        | inr u ↦ Allowed-by_group s.access_groups refl (ground arith)
      ]
    ]
  ]

  Allowed-complete :
      Allowed s is_admin username groups → access_allows s is_admin username groups ≡ true
  unfolding access_allows
  Allowed-complete (by_role a) = ground arith
  Allowed-complete (by_openness o) = ground arith
  Allowed-complete (by_name us name e n m) =
      ground (arith, any_complete (λ u. u == name) name us m (same_refl name))
  Allowed-complete (by_group gs g e m n) = ground (
    arith,
    any_complete (λ g. any (λ h. g == h) groups) g gs m
        (any_complete (λ h. g == h) g groups n (same_refl g)),
  )

  -- The access rule admits a viewer exactly when they are an admin, the app is open, their name is
  -- on its user list or one of their groups is on its group list. The groups count whether or not
  -- there is a name.
  pub access_allows-Allowed :
      (access_allows s is_admin username groups ≡ true) ↔ Allowed s is_admin username groups
  access_allows-Allowed = (Allowed-sound, Allowed-complete)
