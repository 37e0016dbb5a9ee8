-- ===== src/Prelude/Text/Split.antt =====
-- Splitting at a character and joining again.
use Prim.Native.Nat.{ℕ}
use mathlib.Core.Path.{◌≡◌, refl, ap, ◌∙◌}
use mathlib.Core.Logic.{inl, inr}
use mathlib.Core.Bool.{true, false}
use mathlib.Core.List.{List, [], ◌∷◌, ◌++◌, map}
use mathlib.Core.Option.{Option, none, some}
use native.Mathlib.Omega.{arith}
use ruscker.Prelude.Tests.{if◌then◌else◌, Bool-cases}
use ruscker.Prelude.Lists.{All}
use ruscker.Prelude.Equality.{◌==◌, nat_key}
use ruscker.Prelude.Text.Trim.{Text, lacks}

abbrev pub add_front : ℕ → List Text → List Text
add_front x [] = (x ∷ []) ∷ []
add_front x (w ∷ ws) = (x ∷ w) ∷ ws

abbrev pub split : ℕ → Text → List Text
split c [] = [] ∷ []
split c (x ∷ s) = let rest = split c s in if x == c then [] ∷ rest else add_front x rest

abbrev pub join : Text → List Text → Text
join sep [] = []
join sep (w ∷ []) = w
join sep (w ∷ v ∷ ws) = w ++ (sep ++ join sep (v ∷ ws))

-- `s.split(c).next()`.
abbrev pub before : ℕ → Text → Text
before c [] = []
before c (x ∷ s) = if x == c then [] else x ∷ before c s

-- `s.split_once(c)`.
abbrev pub split_once : ℕ → Text → Option (Text × Text)
split_once c [] = none
split_once c (x ∷ s) =
    if x == c
    then some ([], s)
    else elim (split_once c s) [ none ↦ none | some p ↦ some (x ∷ p.0, p.1) ]

-- `s.rsplit_once(c)`.
abbrev pub rsplit_once : ℕ → Text → Option (Text × Text)
rsplit_once c [] = none
rsplit_once c (x ∷ s) = elim (rsplit_once c s) [
  | some p ↦ some (x ∷ p.0, p.1)
  | none ↦ if x == c then some ([], s) else none
]

-- `s.rsplit(c).next()`, the text after the last `c`.
abbrev pub after_last : ℕ → Text → Text
after_last c s = elim (rsplit_once c s) [ none ↦ s | some p ↦ p.1 ]

module _ (c : ℕ) where
  add_front-All :
      (x : ℕ) (ws : List Text)
      → (x == c) ≡ false
      → All (λ w. lacks c w ≡ true) ws
      → All (λ w. lacks c w ≡ true) (add_front x ws)
  add_front-All x [] e h = (rw e refl, tt)
  add_front-All x (w ∷ ws) e h = (rw e h.0, h.1)

  pub split-lacks : (s : Text) → All (λ w. lacks c w ≡ true) (split c s)
  split-lacks [] = (refl, tt)
  split-lacks (x ∷ s) = elim (Bool-cases (x == c)) [
    | inl e ↦ rw (e, split) (refl, split-lacks s)
    | inr e ↦ rw (e, split) (add_front-All x (split c s) e (split-lacks s))
  ]

  pub split_whole : (w : Text) → lacks c w ≡ true → split c w ≡ w ∷ []
  split_whole [] h = refl
  split_whole (x ∷ w) h = ground (arith, split_whole w)

  pub split-append : (w s : Text) → lacks c w ≡ true → split c (w ++ c ∷ s) ≡ w ∷ split c s
  split-append [] s h = ground arith
  split-append (x ∷ w) s h = ground (arith, split-append w s)

  -- A split undoes a join whose separator starts with the character.
  pub split-join :
      (k : ℕ) (w : Text) (ws : List Text)
      → (k == c) ≡ false
      → All (λ v. lacks c v ≡ true) (w ∷ ws)
      → split c (join (c ∷ k ∷ []) (w ∷ ws)) ≡ w ∷ map (λ v. k ∷ v) ws
  split-join k w [] e h = split_whole w h.0
  split-join k w (v ∷ ws) e h =
      split-append w (k ∷ join (c ∷ k ∷ []) (v ∷ ws)) h.0
      ∙ ap (λ r. w ∷ r) (rw (e, split) (rw (split-join k v ws e h.1) refl))
