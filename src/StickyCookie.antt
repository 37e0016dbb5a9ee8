-- ===== src/StickyCookie.antt =====
-- The signed cookie that ties a visitor to a replica (crates/ruscker-proxy/src/sticky.rs). The JSON
-- of a session, HMAC-SHA256 and base64 are parameters; a byte string is a list of bytes.
pub mod Compare
pub mod Signed
pub mod Hex
use Prim.Native.Nat.{bit_or, bit_xor}
use ruscker.Prelude.{
  ℕ, zero, suc, ◌+◌, ◌-◌, ◌*◌, Bool, true, false, ◌&&◌, Option, none, some, List, [], ◌∷◌, ◌++◌,
  map, ltb, leb, if◌then◌else◌, is_some, length, take, string_key, nat_key, pair_key, ◌==◌,
  list_key,
}
use ruscker.Prelude.Text.{Text, trim, is_ascii_digit}
use mathlib.Core.Option
use ruscker.Routing.Gates.{StickySession}

abbrev pub Bytes : Type 0
Bytes = List ℕ

abbrev pub tag_len : ℕ
tag_len = 16

pub data CookieError : Type 0 where
  invalid_encoding too_short bad_signature malformed_payload : CookieError

pub data Decoded : Type 0 where
  ok : StickySession → Decoded
  err : CookieError → Decoded

-- `diff |= x ^ y` over both lists, which have the same length.
abbrev pub diff_of : ℕ → Bytes → Bytes → ℕ
diff_of diff [] ys = diff
diff_of diff (x ∷ xs) [] = diff
diff_of diff (x ∷ xs) (y ∷ ys) = diff_of (bit_or diff (bit_xor x y)) xs ys

unfoldable pub ct_eq : Bytes → Bytes → Bool
ct_eq a b = if length a == length b then diff_of 0 a b == 0 else false

abbrev pub drop : ℕ → Bytes → Bytes
drop zero s = s
drop (suc n) [] = []
drop (suc n) (x ∷ s) = drop n s

module _ (to_vec : StickySession → Option Bytes) (from_slice : Bytes → Option StickySession)
    (sign : Bytes → Bytes → Bytes) (base64 : Bytes → Text) (unbase64 : Text → Option Bytes) where
  -- `none` where the session does not serialize.
  unfoldable pub encode : Bytes → StickySession → Option Text
  encode key session =
      Option.map (λ payload. base64 (payload ++ take tag_len (sign key payload))) (to_vec session)

  abbrev pub parse_payload : Bytes → Decoded
  parse_payload payload = elim (from_slice payload) [
    | some session ↦ ok session
    | none ↦ err malformed_payload
  ]

  abbrev pub check_tag : Bytes → Bytes → Bytes → Decoded
  check_tag key payload tag =
      if ct_eq (take tag_len (sign key payload)) tag
      then parse_payload payload
      else err bad_signature

  abbrev pub check_raw : Bytes → Bytes → Decoded
  check_raw key raw =
      if ltb (length raw) (tag_len + 2)
      then err too_short
      else check_tag key (take (length raw - tag_len) raw) (drop (length raw - tag_len) raw)

  unfoldable pub decode : Bytes → Text → Decoded
  unfolding ct_eq
  decode key cookie_value = elim (unbase64 cookie_value) [
    | some raw ↦ check_raw key raw
    | none ↦ err invalid_encoding
  ]

-- The value of a hexadecimal digit, for `u8::from_str_radix`.
abbrev pub digit : ℕ → Option ℕ
digit c =
    if is_ascii_digit c
    then some (c - b'0')
    else if leb b'a' c && leb c b'f'
    then some (c - b'a' + 10)
    else if leb b'A' c && leb c b'F'
    then some (c - b'A' + 10)
    else none

abbrev pub is_ascii_hexdigit : ℕ → Bool
is_ascii_hexdigit c = is_some (digit c)

abbrev pub all_hexdigits : Text → Bool
all_hexdigits [] = true
all_hexdigits (c ∷ s) = is_ascii_hexdigit c && all_hexdigits s

abbrev pub byte_of : Option ℕ → Option ℕ → Option ℕ
byte_of (some a) (some b) = some (a * 16 + b)
byte_of (some a) none = none
byte_of none b = none

-- `from_str_radix` takes a sign in front.
abbrev pub from_str_radix : ℕ → ℕ → Option ℕ
from_str_radix c d = if c == b'+' then digit d else byte_of (digit c) (digit d)

abbrev pub push_front : Option ℕ → Option Bytes → Option Bytes
push_front (some b) (some bs) = some (b ∷ bs)
push_front (some b) none = none
push_front none bs = none

-- Of ASCII text; `none` for an odd length or a pair that is no number.
unfoldable pub decode_hex : Text → Option Bytes
decode_hex [] = some []
decode_hex (c ∷ []) = none
decode_hex (c ∷ d ∷ s) = push_front (from_str_radix c d) (decode_hex s)

-- `try_into` an array of 32 bytes.
abbrev pub as_key : Bytes → Option Bytes
as_key bs = if length bs == 32 then some bs else none

abbrev pub and_key : Option Bytes → Option Bytes
and_key (some bs) = as_key bs
and_key none = none

-- `CookieKey::parse`, with the two base64 alphabets as parameters. Sixty-four bytes that are all
-- hexadecimal digits are as many characters.
unfoldable pub parse_key : (Text → Option Bytes) → (Text → Option Bytes) → Text → Option Bytes
unfolding decode_hex
parse_key standard standard_no_pad text =
    let raw = trim text in
    if length raw == 64 && all_hexdigits raw
    then and_key (decode_hex raw)
    else if is_some (standard raw)
    then and_key (standard raw)
    else and_key (standard_no_pad raw)
