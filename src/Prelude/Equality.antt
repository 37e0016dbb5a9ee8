-- ===== src/Prelude/Equality.antt =====
-- Keys with a Boolean equality: numbers, texts and pairs.
use Prim.Native.Nat.{ℕ, compare, Ordering}
use Prim.Native.String.{String}
use mathlib.Core.Path.{◌≡◌, refl}
use mathlib.Core.Logic.{◌↔◌}
use mathlib.Core.Bool.{Bool, true, false, ◌&&◌}
use mathlib.Core.List.{List, [], ◌∷◌}
use native.Mathlib.Omega.{arith}
use text.Mathlib.Text.{◌==◌ as same_text}
use text.Mathlib.TextEquality.{eq_iff}

-- The test decides equality.
pub record Key {ℓ} (K : Type ℓ) : Type ℓ where
  pub same : K → K → Bool
  pub same_iff : (i j : K) → (same i j ≡ true) ↔ (i ≡ j)

instance abbrev pub string_key : Key String
string_key = record { same = same_text; same_iff = eq_iff }

abbrev pub same_nat : ℕ → ℕ → Bool
same_nat a b = elim (compare a b) [ Ordering.eq ↦ true | _ ↦ false ]

pub same_nat_iff : (a b : ℕ) → (same_nat a b ≡ true) ↔ (a ≡ b)
same_nat_iff a b = ground arith

instance abbrev pub nat_key : Key ℕ
nat_key = record { same = same_nat; same_iff = same_nat_iff }

pub same_pair_iff {ℓ κ} :
    {A : Type ℓ} {B : Type κ} ⦃e : Key A⦄ ⦃f : Key B⦄ (a b : A × B)
    → ((e.same a.0 b.0 && f.same a.1 b.1) ≡ true) ↔ (a ≡ b)
same_pair_iff ⦃e⦄ ⦃f⦄ a b = ground (arith, e.same_iff a.0 b.0, f.same_iff a.1 b.1)

instance abbrev pub pair_key {ℓ κ} : {A : Type ℓ} {B : Type κ} ⦃e : Key A⦄ ⦃f : Key B⦄ → Key (A × B)
pair_key ⦃e⦄ ⦃f⦄ = record {
  same = λ a b. e.same a.0 b.0 && f.same a.1 b.1;
  same_iff = same_pair_iff;
}

infix 50 ◌==◌
abbrev pub ◌==◌ {ℓ} : {K : Type ℓ} ⦃k : Key K⦄ → K → K → Bool
◌==◌ ⦃k⦄ = k.same

pub same_refl {ℓ} : {K : Type ℓ} ⦃k : Key K⦄ (i : K) → (i == i) ≡ true
same_refl ⦃k⦄ i = (k.same_iff i i).1 refl

abbrev pub same_list {ℓ} : {A : Type ℓ} ⦃e : Key A⦄ → List A → List A → Bool
same_list [] [] = true
same_list [] (y ∷ ys) = false
same_list (x ∷ xs) [] = false
same_list ⦃e⦄ (x ∷ xs) (y ∷ ys) = e.same x y && same_list xs ys

pub same_list_iff {ℓ} :
    {A : Type ℓ} ⦃e : Key A⦄ (xs ys : List A) → (same_list xs ys ≡ true) ↔ (xs ≡ ys)
same_list_iff [] [] = ground arith
same_list_iff [] (y ∷ ys) = ground arith
same_list_iff (x ∷ xs) [] = ground arith
same_list_iff ⦃e⦄ (x ∷ xs) (y ∷ ys) = ground (arith, e.same_iff x y, same_list_iff xs ys)

instance abbrev pub list_key {ℓ} : {A : Type ℓ} ⦃e : Key A⦄ → Key (List A)
list_key ⦃e⦄ = record { same = same_list; same_iff = same_list_iff }
