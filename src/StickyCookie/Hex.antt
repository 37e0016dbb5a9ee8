-- ===== src/StickyCookie/Hex.antt =====
-- The key of the environment, written in hexadecimal.
use ruscker.Prelude.{
  ℕ, ◌+◌, ◌-◌, ◌*◌, ◌/◌, ◌%◌, ◌<◌, ◌≡◌, refl, sym, ◌∙◌, ◌⊎◌, inl, inr, true, false, ◌&&◌, Option,
  none, some, [], ◌∷◌, ◌++◌, arith, ltb, if◌then◌else◌, Bool-cases, is_some, eq_of_some, length,
  All, string_key, nat_key, pair_key, ◌==◌, list_key,
}
use ruscker.Prelude.Text.{
  Text, trim, is_whitespace, strip_end, cons_stripped, strip_start_lem, strip_skip,
}
use ruscker.StickyCookie.{
  all_hexdigits, parse_key, and_key, Bytes, digit, is_ascii_hexdigit, decode_hex,
}

-- The digit of a value below 16, with letters from `first` on: `a` or `A`.
abbrev pub shown : ℕ → ℕ → ℕ
shown first n = if ltb n 10 then b'0' + n else first + (n - 10)

abbrev pub hex : ℕ → Bytes → Text
hex first [] = []
hex first (b ∷ bs) = shown first (b / 16) ∷ shown first (b % 16) ∷ hex first bs

module _ (first : ℕ) (letter : (first ≡ b'a') ⊎ (first ≡ b'A')) where
  digit-shown : (n : ℕ) → n < 16 → digit (shown first n) ≡ some n
  digit-shown n lt = ground (arith, letter)

  shown-no_sign : (n : ℕ) → n < 16 → (shown first n == b'+') ≡ false
  shown-no_sign n lt = ground (arith, letter)

  decode_hex-hex : (bs : Bytes) → All (λ b. b < 256) bs → decode_hex (hex first bs) ≡ some bs
  unfolding decode_hex
  decode_hex-hex [] a = refl
  decode_hex-hex (b ∷ bs) (lt, a) = ground (
    arith,
    shown-no_sign (b / 16) (omega arith),
    digit-shown (b / 16) (omega arith),
    digit-shown (b % 16) (omega arith),
    decode_hex-hex bs a,
  )

  length-hex : (bs : Bytes) → length (hex first bs) ≡ 2 * length bs
  length-hex [] = refl
  length-hex (b ∷ bs) = omega (arith, length-hex bs)

  all_hexdigits-hex : (bs : Bytes) → All (λ b. b < 256) bs → all_hexdigits (hex first bs) ≡ true
  all_hexdigits-hex [] a = refl
  all_hexdigits-hex (b ∷ bs) (lt, a) = ground (
    arith,
    digit-shown (b / 16) (omega arith),
    digit-shown (b % 16) (omega arith),
    all_hexdigits-hex bs a,
  )

is_whitespace-hexdigit : (c : ℕ) → is_ascii_hexdigit c ≡ true → is_whitespace c ≡ false
unfolding is_whitespace
is_whitespace-hexdigit c h = ground arith

abbrev pub AllBlank : Text → Type 0
AllBlank s = All (λ c. is_whitespace c ≡ true) s

strip_end-blank : (s : Text) → AllBlank s → strip_end is_whitespace s ≡ []
strip_end-blank [] a = refl
strip_end-blank (c ∷ s) (b, a) = rw (strip_end-blank s a) (ground arith)

strip_end-blank_after :
    (s t : Text) → all_hexdigits s ≡ true → AllBlank t → strip_end is_whitespace (s ++ t) ≡ s
strip_end-blank_after [] t h a = strip_end-blank t a
strip_end-blank_after (c ∷ s) t h a =
    let ink = is_whitespace-hexdigit c (ground arith) in
    rw (strip_end-blank_after s t (ground arith) a) (kept c s ink)
  where
    kept : (c : ℕ) (s : Text) → is_whitespace c ≡ false → cons_stripped is_whitespace c s ≡ c ∷ s
    kept c [] e = ground arith
    kept c (d ∷ s) e = refl

trim-blank_around :
    (before s after : Text)
    → all_hexdigits s ≡ true
    → 0 < length s
    → AllBlank before
    → AllBlank after
    → trim (before ++ s ++ after) ≡ s
trim-blank_around [] [] after h n b a = absurd (omega arith)
trim-blank_around [] (c ∷ s) after h n b a =
    rw (strip_start_lem is_whitespace (c ∷ s ++ after) (ground (arith, is_whitespace-hexdigit c)))
      (strip_end-blank_after (c ∷ s) after h a)
trim-blank_around (c ∷ before) s after h n (b, bs) a =
    strip_skip is_whitespace c (before ++ s ++ after) b ∙ trim-blank_around before s after h n bs a

module _ (standard standard_no_pad : Text → Option Bytes) where
  parse_key-trimmed :
      (text raw : Text) (bs : Bytes)
      → trim text ≡ raw
      → length raw ≡ 64
      → all_hexdigits raw ≡ true
      → decode_hex raw ≡ some bs
      → length bs ≡ 32
      → parse_key standard standard_no_pad text ≡ some bs
  unfolding parse_key
  parse_key-trimmed text raw bs t n h d k = ground arith

  and_key-length : (o : Option Bytes) (key : Bytes) → and_key o ≡ some key → length key ≡ 32
  and_key-length none key h = absurd (ground arith)
  and_key-length (some bs) key h = ground (arith, eq_of_some bs key)

  -- The key that is read from the hexadecimal digits of 32 bytes, in lower or upper case and with
  -- blanks around them, is these bytes, whatever the base64 decoders say.
  pub parse_key-hex :
      (first : ℕ) (before after : Text) (key : Bytes)
      → (first ≡ b'a') ⊎ (first ≡ b'A')
      → AllBlank before
      → AllBlank after
      → length key ≡ 32
      → All (λ b. b < 256) key
      → parse_key standard standard_no_pad (before ++ hex first key ++ after) ≡ some key
  parse_key-hex first before after key letter b a n small =
      let digits = all_hexdigits-hex first letter key small in
      let size : length (hex first key) ≡ 64 = omega (arith, length-hex first letter key) in
      parse_key-trimmed (before ++ hex first key ++ after) (hex first key) key
        (trim-blank_around before (hex first key) after digits (omega arith) b a) size digits
        (decode_hex-hex first letter key small) n

  parse_key-and_key :
      (text : Text) → (o : Option Bytes) × (parse_key standard standard_no_pad text ≡ and_key o)
  unfolding parse_key
  parse_key-and_key text =
      let raw = trim text in
      elim (Bool-cases (length raw == 64 && all_hexdigits raw)) [
        | inl e ↦ (decode_hex raw, rw (e, parse_key) refl)
        | inr e ↦ elim (Bool-cases (is_some (standard raw))) [
          | inl f ↦ (standard raw, rw (e, parse_key) (rw (f, parse_key) refl))
          | inr f ↦ (standard_no_pad raw, rw (e, parse_key) (rw (f, parse_key) refl))
        ]
      ]

  -- Whatever the text, a key is 32 bytes.
  pub parse_key-length :
      (text : Text) (key : Bytes)
      → parse_key standard standard_no_pad text ≡ some key
      → length key ≡ 32
  parse_key-length text key h =
      let (o, e) = parse_key-and_key text in and_key-length o key (sym e ∙ h)
