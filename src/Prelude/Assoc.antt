-- ===== src/Prelude/Assoc.antt =====
-- Maps as association lists. The order of the list stands for a hash map's order of iteration.
use Prim.Native.Nat.{ℕ, ◌+◌, ◌≤◌}
use mathlib.Core.Path.{◌≡◌, refl}
use mathlib.Core.Bool.{Bool}
use mathlib.Core.Option.{Option, none, some}
use mathlib.Core.List.{List, [], ◌∷◌}
use native.Mathlib.Omega.{arith}
use ruscker.Prelude.Tests.{if◌then◌else◌}
use ruscker.Prelude.Equality.{Key, ◌==◌}

module _ {ℓ κ} {K : Type ℓ} {V : Type κ} ⦃e : Key K⦄ where
  abbrev pub lookup : K → List (K × V) → Option V
  lookup k [] = none
  lookup k ((j, v) ∷ m) = if j == k then some v else lookup k m

  abbrev pub insert : K → V → List (K × V) → List (K × V)
  insert k v [] = (k, v) ∷ []
  insert k v ((j, w) ∷ m) = if j == k then (k, v) ∷ m else (j, w) ∷ insert k v m

  abbrev pub remove : K → List (K × V) → List (K × V)
  remove k [] = []
  remove k ((j, w) ∷ m) = let rest = remove k m in if j == k then rest else (j, w) ∷ rest

  -- Entries whose key and value pass a test.
  abbrev pub retain : (K → V → Bool) → List (K × V) → List (K × V)
  retain p [] = []
  retain p ((j, w) ∷ m) = let rest = retain p m in if p j w then (j, w) ∷ rest else rest

  -- How many entries a key has, and how many values pass a test.
  abbrev pub entries : K → List (K × V) → ℕ
  entries k [] = 0
  entries k ((j, w) ∷ m) = (if j == k then 1 else 0) + entries k m

  abbrev pub count : (V → Bool) → List (K × V) → ℕ
  count p [] = 0
  count p ((j, w) ∷ m) = (if p w then 1 else 0) + count p m

  -- A hash map has a key at most once.
  abbrev pub IsMap : List (K × V) → Type ℓ
  IsMap m = (k : K) → entries k m ≤ 1

  pub lookup-insert :
      (k j : K) (v : V) (m : List (K × V))
      → lookup j (insert k v m) ≡ (if k == j then some v else lookup j m)
  lookup-insert k j v [] = refl
  lookup-insert k j v ((i, w) ∷ m) =
      ground (arith, e.same_iff k j, e.same_iff i k, e.same_iff i j, lookup-insert k j v m)

  pub lookup-remove :
      (k j : K) (m : List (K × V)) → lookup j (remove k m) ≡ (if k == j then none else lookup j m)
  lookup-remove k j [] = ground arith
  lookup-remove k j ((i, w) ∷ m) =
      ground (arith, e.same_iff k j, e.same_iff i k, e.same_iff i j, lookup-remove k j m)

  pub entries-remove :
      (k j : K) (m : List (K × V)) → entries j (remove k m) ≡ (if k == j then 0 else entries j m)
  entries-remove k j [] = ground arith
  entries-remove k j ((i, w) ∷ m) =
      ground (arith, e.same_iff k j, e.same_iff i k, e.same_iff i j, entries-remove k j m)

  pub entries-insert :
      (k j : K) (v : V) (m : List (K × V))
      → IsMap m
      → entries j (insert k v m) ≡ (if k == j then 1 else entries j m)
  entries-insert k j v [] h = ground arith
  entries-insert k j v ((i, w) ∷ m) h = ground (
    arith,
    e.same_iff k j,
    e.same_iff i k,
    e.same_iff i j,
    h i,
    h j,
    entries-insert k j v m (λ x. ground (arith, h x)),
  )

  pub entries-retain :
      (p : K → V → Bool) (j : K) (m : List (K × V)) → entries j (retain p m) ≤ entries j m
  entries-retain p j [] = ground arith
  entries-retain p j ((i, w) ∷ m) = ground (arith, entries-retain p j m)

  pub lookup-none : (k : K) (m : List (K × V)) → entries k m ≡ 0 → lookup k m ≡ none
  lookup-none k [] h = refl
  lookup-none k ((i, w) ∷ m) h = ground (arith, lookup-none k m)

  pub remove_absent : (k : K) (m : List (K × V)) → entries k m ≡ 0 → remove k m ≡ m
  remove_absent k [] h = refl
  remove_absent k ((i, w) ∷ m) h = ground (arith, remove_absent k m)

  pub entries-none : (k : K) (m : List (K × V)) → lookup k m ≡ none → entries k m ≡ 0
  entries-none k [] h = refl
  entries-none k ((i, w) ∷ m) h = ground (arith, entries-none k m)

  -- What a removal takes from a count: the value under the key.
  pub count-remove :
      (p : V → Bool) (k : K) (v : V) (m : List (K × V))
      → IsMap m
      → lookup k m ≡ some v
      → count p (remove k m) + (if p v then 1 else 0) ≡ count p m
  count-remove p k v [] u h = absurd (ground arith)
  count-remove p k v ((i, w) ∷ m) u h = ground (
    arith,
    u k,
    u i,
    e.same_iff i k,
    remove_absent k m,
    count-remove p k v m (λ x. ground (arith, u x)),
  )

  -- What an insertion adds under a key that was not there, and under one that was.
  pub count-insert_new :
      (p : V → Bool) (k : K) (v : V) (m : List (K × V))
      → lookup k m ≡ none
      → count p (insert k v m) ≡ count p m + (if p v then 1 else 0)
  count-insert_new p k v [] h = ground arith
  count-insert_new p k v ((i, w) ∷ m) h = ground (arith, count-insert_new p k v m)

  pub count-insert_old :
      (p : V → Bool) (k : K) (v w : V) (m : List (K × V))
      → lookup k m ≡ some w
      → count p (insert k v m) + (if p w then 1 else 0) ≡ count p m + (if p v then 1 else 0)
  count-insert_old p k v w [] h = absurd (ground arith)
  count-insert_old p k v w ((i, x) ∷ m) h = ground (arith, count-insert_old p k v w m)

module _ {ℓ κ} {K : Type ℓ} {V : Type κ} ⦃e : Key K⦄ where
  pub remove-IsMap : (k : K) (m : List (K × V)) → IsMap m → IsMap (remove k m)
  remove-IsMap k m h j = ground (arith, entries-remove k j m, h j)

  pub insert-IsMap : (k : K) (v : V) (m : List (K × V)) → IsMap m → IsMap (insert k v m)
  insert-IsMap k v m h j = ground (arith, entries-insert k j v m h, h j)

  pub retain-IsMap : (p : K → V → Bool) (m : List (K × V)) → IsMap m → IsMap (retain p m)
  retain-IsMap p m h j = omega (arith, entries-retain p j m, h j)

-- A value that is looked up and has to pass a test.
abbrev pub passing {ℓ} : {V : Type ℓ} → (V → Bool) → Option V → Option V
passing p none = none
passing p (some v) = if p v then some v else none

module _ {ℓ κ} {K : Type ℓ} {V : Type κ} ⦃e : Key K⦄ (p : V → Bool) where
  pub lookup-retain :
      (k : K) (m : List (K × V))
      → IsMap m
      → lookup k (retain (λ _ v. p v) m) ≡ passing p (lookup k m)
  lookup-retain k [] u = refl
  lookup-retain k ((i, w) ∷ m) u = ground (
    arith,
    e.same_iff i k,
    u k,
    u i,
    entries-retain (λ _ v. p v) k m,
    lookup-none k (retain (λ _ v. p v) m),
    lookup-none k m,
    lookup-retain k m (λ j. ground (arith, u j)),
  )
