-- ===== src/StickyCookie/Compare.antt =====
-- The comparison of two byte strings that looks at every byte.
use Prim.Native.Nat.{max, digits, differ, bit_or, bit_xor, bit_or-bitwise, bit_xor-bitwise}
use ruscker.Prelude.{
  ℕ, zero, suc, ◌/◌, ◌%◌, ◌≤◌, ◌≡◌, refl, sym, ◌∙◌, true, [], ◌∷◌, arith, length, string_key,
  nat_key, pair_key, list_key,
}
use ruscker.StickyCookie.{Bytes, diff_of, ct_eq}

differ_zero : (x y : ℕ) → (differ x y ≡ 0 → x ≡ y) × (x ≡ y → differ x y ≡ 0)
differ_zero zero y = ground arith
differ_zero (suc x) zero = ground arith
differ_zero (suc x) (suc y) = ground (arith, differ_zero x y)

-- The two operations on bits are zero digit by digit.
max_digits : (n a b : ℕ) → a ≤ n → digits (λ y. y) max n a b ≡ 0 → (a ≡ 0) × (b ≡ 0)
max_digits zero zero b le h = (refl, h)
max_digits zero (suc a) b le h = absurd (omega arith)
max_digits (suc n) zero b le h = (refl, h)
max_digits (suc n) (suc a) b le h =
    let (x, y) = max_digits n (suc a / 2) (b / 2) (omega arith) (omega arith) in
    absurd (omega arith)

differ-digits : (n a b : ℕ) → a ≤ n → digits (λ y. y) differ n a b ≡ 0 → a ≡ b
differ-digits zero zero b le h = sym h
differ-digits zero (suc a) b le h = absurd (omega arith)
differ-digits (suc n) zero b le h = sym h
differ-digits (suc n) (suc a) b le h =
    let e = differ-digits n (suc a / 2) (b / 2) (omega arith) (omega arith) in
    let d = (differ_zero (suc a % 2) (b % 2)).0 (omega arith) in omega arith

same_digits : (n a : ℕ) → a ≤ n → digits (λ y. y) differ n a a ≡ 0
same_digits zero zero le = refl
same_digits zero (suc a) le = absurd (omega arith)
same_digits (suc n) zero le = refl
same_digits (suc n) (suc a) le =
    omega
      (arith, same_digits n (suc a / 2) (omega arith), (differ_zero (suc a % 2) (suc a % 2)).1 refl)

bit_or_zero : (a b : ℕ) → bit_or a b ≡ 0 → (a ≡ 0) × (b ≡ 0)
bit_or_zero a b h = max_digits a a b (omega arith) (sym (bit_or-bitwise a b) ∙ h)

bit_xor_zero : (a b : ℕ) → bit_xor a b ≡ 0 → a ≡ b
bit_xor_zero a b h = differ-digits a a b (omega arith) (sym (bit_xor-bitwise a b) ∙ h)

bit_xor_self : (a : ℕ) → bit_xor a a ≡ 0
bit_xor_self a = bit_xor-bitwise a a ∙ same_digits a a (omega arith)

diff_of-zero : (d : ℕ) (a b : Bytes) → length a ≡ length b → diff_of d a b ≡ 0 → (d ≡ 0) × (a ≡ b)
diff_of-zero d [] [] e h = (h, refl)
diff_of-zero d [] (y ∷ b) e h = absurd (omega arith)
diff_of-zero d (x ∷ a) [] e h = absurd (omega arith)
diff_of-zero d (x ∷ a) (y ∷ b) e h =
    let (none_yet, rest) = diff_of-zero (bit_or d (bit_xor x y)) a b (omega arith) h in
    let (before, here) = bit_or_zero d (bit_xor x y) none_yet in
    (before, rw (bit_xor_zero x y here) (rw rest refl))

diff_of_self : (a : Bytes) → diff_of 0 a a ≡ 0
diff_of_self [] = refl
diff_of_self (x ∷ a) = rw (bit_xor_self x) (diff_of_self a)

pub ct_eq_iff : (a b : Bytes) → (ct_eq a b ≡ true → a ≡ b) × (a ≡ b → ct_eq a b ≡ true)
unfolding ct_eq
ct_eq_iff a b = (
  (λ h. (diff_of-zero 0 a b (ground arith) (ground arith)).1),
  (λ e. rw e (ground (arith, diff_of_self b))),
)
