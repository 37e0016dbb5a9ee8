-- ===== src/Examples/Signing.antt =====
-- Examples of sticky cookies, with a checksum in the place of HMAC and no base64.
use ruscker.Prelude.{
  ℕ, zero, suc, ◌+◌, ◌%◌, ◌≤◌, ◌≡◌, refl, ◌↔◌, inr, Option, none, some, [], ◌∷◌, ◌++◌, arith,
  eq_iff, if◌then◌else◌, length, string_key, nat_key, pair_key, ◌==◌, list_key,
}
use ruscker.Prelude.Text.{is_whitespace, Text, codes, is_whitespace}
use ruscker.Routing.Gates.{StickySession}
use ruscker.StickyCookie.{Bytes, ok, encode, decode, parse_key}
use ruscker.StickyCookie.Signed.{Vouches, decode_iff, decode-encode}
use ruscker.StickyCookie.Hex.{hex, parse_key-hex}

abbrev sum : Bytes → ℕ
sum [] = 0
sum (b ∷ bs) = b + sum bs

abbrev fill : ℕ → ℕ → Bytes
fill zero b = []
fill (suc n) b = b ∷ fill n b

abbrev checksum : Bytes → Bytes → Bytes
checksum key payload = fill 32 ((sum key + sum payload) % 256)

-- Sessions of the portal serialize to their two ids.
abbrev to_vec : StickySession → Option Bytes
to_vec s = if s.spec_id == "portal" then some (s.session_id ∷ s.replica_id ∷ []) else none

abbrev session : ℕ → ℕ → StickySession
session i r = record { session_id = i; spec_id = "portal"; replica_id = r }

abbrev from_slice : Bytes → Option StickySession
from_slice [] = none
from_slice (i ∷ []) = none
from_slice (i ∷ r ∷ []) = some (session i r)
from_slice (i ∷ r ∷ b ∷ bs) = none

serde_portal :
    (q : StickySession) (payload : Bytes)
    → to_vec q ≡ some payload
    → (2 ≤ length payload) × (from_slice payload ≡ some q)
serde_portal q payload h = ground (arith, eq_iff q.spec_id "portal")

abbrev cookie : Text
cookie = 30 ∷ 2 ∷ fill 16 42

decode_iff_example :
    decode to_vec from_slice checksum (λ b. b) some (10 ∷ []) cookie ≡ ok (session 30 2)
    ↔ (raw : Bytes) × (some cookie ≡ some raw)
      × Vouches from_slice checksum (10 ∷ []) (session 30 2) raw
decode_iff_example =
    decode_iff to_vec from_slice checksum (λ b. b) some (λ k p. refl) (10 ∷ []) cookie
      (session 30 2)

decode-encode_example :
    decode to_vec from_slice checksum (λ b. b) some (10 ∷ []) cookie ≡ ok (session 30 2)
unfolding encode
decode-encode_example =
    decode-encode to_vec from_slice checksum (λ b. b) some (λ k p. refl) (10 ∷ []) cookie
      (session 30 2) (λ b. refl) serde_portal refl

-- The variable ends in a line break.
parse_key-hex_example :
    parse_key (λ t. none) (λ t. none) ([] ++ hex b'A' (fill 32 171) ++ codes "\n")
    ≡ some (fill 32 171)
unfolding is_whitespace
parse_key-hex_example =
    parse_key-hex (λ t. none) (λ t. none) b'A' [] (codes "\n") (fill 32 171) (inr refl) tt
      (refl, tt) refl (ground arith)
