-- ===== src/Prelude/Text/Trim.antt =====
-- Trimming, prefixes, and texts that lack a character.
use Prim.Native.Nat.{ℕ}
use mathlib.Core.Path.{◌≡◌, refl}
use mathlib.Core.Bool.{Bool, true, false, ◌&&◌, ◌||◌}
use mathlib.Core.List.{List, [], ◌∷◌, ◌++◌}
use native.Mathlib.Omega.{arith}
use ruscker.Prelude.Tests.{if◌then◌else◌, leb}
use ruscker.Prelude.Equality.{◌==◌, nat_key}

abbrev pub Text : Type 0
Text = List ℕ

-- `char::is_whitespace`, the Unicode property White_Space.
unfoldable pub is_whitespace : ℕ → Bool
is_whitespace c =
    (leb 9 c && leb c 13)
    || c == 32
    || c == 0x85
    || c == 0xA0
    || c == 0x1680
    || (leb 0x2000 c && leb c 0x200A)
    || c == 0x2028
    || c == 0x2029
    || c == 0x202F
    || c == 0x205F
    || c == 0x3000

pub is_whitespace-space : is_whitespace 32 ≡ true
unfolding is_whitespace
is_whitespace-space = refl

pub is_whitespace-slash : is_whitespace b'/' ≡ false
unfolding is_whitespace
is_whitespace-slash = refl

abbrev pub strip_start : (ℕ → Bool) → Text → Text
strip_start p [] = []
strip_start p (c ∷ s) = if p c then strip_start p s else c ∷ s

abbrev pub cons_stripped : (ℕ → Bool) → ℕ → Text → Text
cons_stripped p c [] = if p c then [] else c ∷ []
cons_stripped p c (d ∷ s) = c ∷ d ∷ s

abbrev pub strip_end : (ℕ → Bool) → Text → Text
strip_end p [] = []
strip_end p (c ∷ s) = cons_stripped p c (strip_end p s)

abbrev pub strip : (ℕ → Bool) → Text → Text
strip p s = strip_end p (strip_start p s)

abbrev pub trim_start : Text → Text
trim_start = strip_start is_whitespace

abbrev pub trim : Text → Text
trim = strip is_whitespace

abbrev pub starts_with : Text → Text → Bool
starts_with s [] = true
starts_with [] (p ∷ ps) = false
starts_with (c ∷ s) (p ∷ ps) = if c == p then starts_with s ps else false

abbrev pub lacks : ℕ → Text → Bool
lacks c [] = true
lacks c (x ∷ s) = if x == c then false else lacks c s

abbrev pub is_empty : Text → Bool
is_empty [] = true
is_empty (c ∷ s) = false

-- A text that a strip leaves alone at its front.
abbrev pub sharp : (ℕ → Bool) → Text → Bool
sharp p [] = true
sharp p (c ∷ s) = if p c then false else true

module _ (p : ℕ → Bool) where
  pub strip_start-sharp : (s : Text) → sharp p (strip_start p s) ≡ true
  strip_start-sharp [] = refl
  strip_start-sharp (c ∷ s) = ground (arith, strip_start-sharp s)

  pub strip_start_lem : (s : Text) → sharp p s ≡ true → strip_start p s ≡ s
  strip_start_lem [] h = refl
  strip_start_lem (c ∷ s) h = ground arith

  pub cons_stripped_idem :
      (c : ℕ) (s : Text)
      → strip_end p s ≡ s
      → strip_end p (cons_stripped p c s) ≡ cons_stripped p c s
  cons_stripped_idem c [] h = ground arith
  cons_stripped_idem c (d ∷ s) h = rw h refl

  pub strip_end_idem : (s : Text) → strip_end p (strip_end p s) ≡ strip_end p s
  strip_end_idem [] = refl
  strip_end_idem (c ∷ s) = cons_stripped_idem c (strip_end p s) (strip_end_idem s)

  cons_stripped-sharp : (c : ℕ) (s : Text) → p c ≡ false → sharp p (cons_stripped p c s) ≡ true
  cons_stripped-sharp c [] h = ground arith
  cons_stripped-sharp c (d ∷ s) h = ground arith

  pub strip_end-sharp : (s : Text) → sharp p s ≡ true → sharp p (strip_end p s) ≡ true
  strip_end-sharp [] h = refl
  strip_end-sharp (c ∷ s) h = cons_stripped-sharp c (strip_end p s) (ground arith)

  pub strip-sharp : (s : Text) → sharp p (strip p s) ≡ true
  strip-sharp s = strip_end-sharp (strip_start p s) (strip_start-sharp s)

  pub strip_idem : (s : Text) → strip p (strip p s) ≡ strip p s
  strip_idem s = rw (strip_start_lem (strip p s) (strip-sharp s)) (strip_end_idem (strip_start p s))

  pub strip_skip : (c : ℕ) (s : Text) → p c ≡ true → strip p (c ∷ s) ≡ strip p s
  strip_skip c s h = rw h refl

  strip_start-lacks : (k : ℕ) (s : Text) → lacks k s ≡ true → lacks k (strip_start p s) ≡ true
  strip_start-lacks k [] h = refl
  strip_start-lacks k (c ∷ s) h = ground (arith, strip_start-lacks k s)

  cons_stripped-lacks :
      (k c : ℕ) (s : Text)
      → (c == k) ≡ false
      → lacks k s ≡ true
      → lacks k (cons_stripped p c s) ≡ true
  cons_stripped-lacks k c [] e h = ground arith
  cons_stripped-lacks k c (d ∷ s) e h = rw e h

  strip_end-lacks : (k : ℕ) (s : Text) → lacks k s ≡ true → lacks k (strip_end p s) ≡ true
  strip_end-lacks k [] h = refl
  strip_end-lacks k (c ∷ s) h =
      cons_stripped-lacks k c (strip_end p s) (ground arith) (strip_end-lacks k s (ground arith))

  pub strip-lacks : (k : ℕ) (s : Text) → lacks k s ≡ true → lacks k (strip p s) ≡ true
  strip-lacks k s h = strip_end-lacks k (strip_start p s) (strip_start-lacks k s h)

pub starts_with-append : (s t : Text) → starts_with (s ++ t) s ≡ true
starts_with-append [] t = refl
starts_with-append (c ∷ s) t = ground (arith, starts_with-append s t)
