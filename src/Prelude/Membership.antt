-- ===== src/Prelude/Membership.antt =====
-- Membership in the lists that filters, maps and prefixes make.
use Prim.Native.Nat.{ℕ, zero, suc}
use mathlib.Core.Path.{◌≡◌, refl, sym, ap, subst}
use mathlib.Core.Bool.{Bool, true}
use mathlib.Core.Logic.{inl, inr}
use mathlib.Core.List.{List, [], ◌∷◌, Memᴰ, map}
use native.Mathlib.Omega.{arith}
use ruscker.Prelude.Tests.{Bool-cases}
use ruscker.Prelude.Lists.{length, keep_if, take, any, All, All-map, keep_if-All}

module _ {ℓ} {A : Type ℓ} where
  pub All-mem : (xs : List A) → All (λ x. Memᴰ x xs) xs
  All-mem [] = tt
  All-mem (x ∷ xs) = (
    Memᴰ.head refl,
    All-map (λ q. Memᴰ q xs) (λ q. Memᴰ q (x ∷ xs)) xs (λ q m. Memᴰ.tail m) (All-mem xs),
  )

  pub mem-All {κ} : (P : A → Type κ) (a : A) (xs : List A) → Memᴰ a xs → All P xs → P a
  mem-All P a [] m h = elim m [ ]
  mem-All P a (x ∷ xs) (Memᴰ.head e) h = subst P (sym e) h.0
  mem-All P a (x ∷ xs) (Memᴰ.tail m) h = mem-All P a xs m h.1

  pub take-Mem : (n : ℕ) (a : A) (xs : List A) → Memᴰ a (take n xs) → Memᴰ a xs
  take-Mem zero a xs m = elim m [ ]
  take-Mem (suc n) a [] m = elim m [ ]
  take-Mem (suc n) a (x ∷ xs) (Memᴰ.head e) = Memᴰ.head e
  take-Mem (suc n) a (x ∷ xs) (Memᴰ.tail m) = Memᴰ.tail (take-Mem n a xs m)

  pub keep_if-Mem :
      (p : A → Bool) (a : A) (xs : List A) → Memᴰ a (keep_if p xs) → Memᴰ a xs × (p a ≡ true)
  keep_if-Mem p a xs m =
      mem-All (λ x. Memᴰ x xs × (p x ≡ true)) a (keep_if p xs) m
        (keep_if-All (λ x. Memᴰ x xs) p xs (All-mem xs))

  pub Mem-keep_if :
      (p : A → Bool) (a : A) (xs : List A) → Memᴰ a xs → p a ≡ true → Memᴰ a (keep_if p xs)
  Mem-keep_if p a [] m h = elim m [ ]
  Mem-keep_if p a (x ∷ xs) (Memᴰ.head e) h = rw (subst (λ y. p y ≡ true) e h, keep_if) (Memᴰ.head e)
  Mem-keep_if p a (x ∷ xs) (Memᴰ.tail m) h = elim (Bool-cases (p x)) [
    | inl e ↦ rw (e, keep_if) (Memᴰ.tail (Mem-keep_if p a xs m h))
    | inr e ↦ rw (e, keep_if) (Mem-keep_if p a xs m h)
  ]

  pub any_complete : (p : A → Bool) (a : A) (xs : List A) → Memᴰ a xs → p a ≡ true → any p xs ≡ true
  any_complete p a [] m h = elim m [ ]
  any_complete p a (x ∷ xs) (Memᴰ.head e) h = rw (← e) (rw (h, any))
  any_complete p a (x ∷ xs) (Memᴰ.tail m) h = ground (arith, any_complete p a xs m h)

  pub any_sound :
      (p : A → Bool) (xs : List A) → any p xs ≡ true → (a : A) × Memᴰ a xs × (p a ≡ true)
  any_sound p [] h = absurd (ground arith)
  any_sound p (x ∷ xs) h = elim (Bool-cases (p x)) [
    | inl e ↦ (x, Memᴰ.head refl, e)
    | inr e ↦ let (a, m, k) = any_sound p xs (ground arith) in (a, Memᴰ.tail m, k)
  ]

module _ {ℓ κ} {A : Type ℓ} {B : Type κ} (f : A → B) where
  pub length-map : (xs : List A) → length (map f xs) ≡ length xs
  length-map [] = refl
  length-map (x ∷ xs) = ground (arith, length-map xs)

  pub map-Mem : (b : B) (xs : List A) → Memᴰ b (map f xs) → (a : A) × Memᴰ a xs × (f a ≡ b)
  map-Mem b [] m = elim m [ ]
  map-Mem b (x ∷ xs) (Memᴰ.head e) = (x, Memᴰ.head refl, sym e)
  map-Mem b (x ∷ xs) (Memᴰ.tail m) = let (a, k, e) = map-Mem b xs m in (a, Memᴰ.tail k, e)

  pub Mem-map : (a : A) (xs : List A) → Memᴰ a xs → Memᴰ (f a) (map f xs)
  Mem-map a [] m = elim m [ ]
  Mem-map a (x ∷ xs) (Memᴰ.head e) = Memᴰ.head (ap f e)
  Mem-map a (x ∷ xs) (Memᴰ.tail m) = Memᴰ.tail (Mem-map a xs m)
