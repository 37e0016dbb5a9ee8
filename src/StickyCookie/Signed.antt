-- ===== src/StickyCookie/Signed.antt =====
-- What a cookie value that decodes must be.
use ruscker.Prelude.{
  ℕ, zero, suc, ◌+◌, ◌-◌, ◌≤◌, ◌≡◌, refl, sym, ◌∙◌, subst, ◌↔◌, inl, inr, Option, none, some, [],
  ◌∷◌, ◌++◌, arith, ltb, Bool-cases, Option-cases, length, take, length-append, length-take,
  string_key, nat_key, pair_key, list_key,
}
use ruscker.Prelude.Text.{Text}
use ruscker.Routing.Gates.{StickySession}
use ruscker.StickyCookie.Compare.{ct_eq_iff}
use ruscker.StickyCookie.{Bytes, ok, tag_len, drop, encode, decode, check_raw, check_tag}

take-drop : (n : ℕ) (s : Bytes) → take n s ++ drop n s ≡ s
take-drop zero s = refl
take-drop (suc n) [] = refl
take-drop (suc n) (x ∷ s) = rw (take-drop n s) refl

take-append : (a b : Bytes) (n : ℕ) → n ≡ length a → (take n (a ++ b) ≡ a) × (drop n (a ++ b) ≡ b)
take-append [] b zero e = (refl, refl)
take-append [] b (suc n) e = absurd (omega arith)
take-append (x ∷ a) b zero e = absurd (omega arith)
take-append (x ∷ a) b (suc n) e = let (t, d) = take-append a b n (omega arith) in (rw t refl, d)

-- A byte string that the key signed, of a payload that is this session.
abbrev pub Vouches :
    (Bytes → Option StickySession)
    → (Bytes → Bytes → Bytes)
    → Bytes
    → StickySession
    → Bytes
    → Type 0
Vouches from_slice sign key s raw =
    (payload : Bytes) × (raw ≡ payload ++ take tag_len (sign key payload))
    × (2 ≤ length payload)
    × (from_slice payload ≡ some s)

module _ (to_vec : StickySession → Option Bytes) (from_slice : Bytes → Option StickySession)
    (sign : Bytes → Bytes → Bytes) (base64 : Bytes → Text) (unbase64 : Text → Option Bytes)
    (tag_of : (key payload : Bytes) → length (sign key payload) ≡ 32) where
  check_tag-Vouches :
      (key payload tag : Bytes) (s : StickySession)
      → 2 ≤ length payload
      → check_tag to_vec from_slice sign base64 unbase64 key payload tag ≡ ok s
      → Vouches from_slice sign key s (payload ++ tag)
  check_tag-Vouches key payload tag s n h =
      let same : take tag_len (sign key payload) ≡ tag =
        (ct_eq_iff (take tag_len (sign key payload)) tag).0 (ground arith) in
      (payload, rw same refl, n, ground arith)

  check_raw-Vouches :
      (key raw : Bytes) (s : StickySession)
      → check_raw to_vec from_slice sign base64 unbase64 key raw ≡ ok s
      → Vouches from_slice sign key s raw
  check_raw-Vouches key raw s h =
      let n = length raw - tag_len in
      elim (Bool-cases (ltb (length raw) (tag_len + 2))) [
        | inl short ↦ absurd (ground arith)
        | inr long ↦
            subst (λ (r : Bytes). Vouches from_slice sign key s r) (take-drop n raw)
              (check_tag-Vouches key (take n raw) (drop n raw) s (ground (arith, length-take n raw))
                (ground arith))
      ]

  Vouches-check_raw :
      (key raw : Bytes) (s : StickySession)
      → Vouches from_slice sign key s raw
      → check_raw to_vec from_slice sign base64 unbase64 key raw ≡ ok s
  Vouches-check_raw key raw s (payload, e, n, q) =
      let tag = take tag_len (sign key payload) in
      let size : length tag ≡ 16 =
        ground (arith, length-take tag_len (sign key payload), tag_of key payload) in
      let (t, d) =
        take-append payload tag (length (payload ++ tag) - tag_len)
          (ground (arith, length-append payload tag)) in
      rw e (ground (arith, t, d, length-append payload tag, (ct_eq_iff tag tag).1 refl, size, n, q))

  decode-check_raw :
      (key raw : Bytes) (v : Text)
      → unbase64 v ≡ some raw
      → decode to_vec from_slice sign base64 unbase64 key v
        ≡ check_raw to_vec from_slice sign base64 unbase64 key raw
  unfolding decode
  decode-check_raw key raw v e = rw (e, decode) refl

  decode-none :
      (key : Bytes) (v : Text) (s : StickySession)
      → unbase64 v ≡ none
      → decode to_vec from_slice sign base64 unbase64 key v ≡ ok s
      → ⊥
  unfolding decode
  decode-none key v s e h = ground arith

  -- A sticky cookie decodes to a session exactly when it is the base64 of a payload of at least
  -- two bytes, followed by the first 16 bytes of the key's signature of that payload, and the
  -- payload is the JSON of the session: no cookie that the key did not sign is accepted. A
  -- signature is 32 bytes.
  pub decode_iff :
      (key : Bytes) (v : Text) (s : StickySession)
      → decode to_vec from_slice sign base64 unbase64 key v ≡ ok s
        ↔ (raw : Bytes) × (unbase64 v ≡ some raw) × Vouches from_slice sign key s raw
  decode_iff key v s = (
    (λ h. elim (Option-cases (unbase64 v)) [
      | inl e ↦ absurd (decode-none key v s e h)
      | inr (raw, e) ↦
          (raw, e, check_raw-Vouches key raw s (sym (decode-check_raw key raw v e) ∙ h))
    ]),
    (λ (raw, e, w). decode-check_raw key raw v e ∙ Vouches-check_raw key raw s w),
  )

  -- A cookie that `encode` makes decodes under the same key to the session that it was made for.
  -- base64 decodes what it encodes, JSON reads what it writes and writes at least two bytes, and a
  -- signature is 32 bytes.
  pub decode-encode :
      (key : Bytes) (v : Text) (s : StickySession)
      → ((bs : Bytes) → unbase64 (base64 bs) ≡ some bs)
      → ((q : StickySession) (payload : Bytes)
          → to_vec q ≡ some payload
          → (2 ≤ length payload) × (from_slice payload ≡ some q))
      → encode to_vec from_slice sign base64 unbase64 key s ≡ some v
      → decode to_vec from_slice sign base64 unbase64 key v ≡ ok s
  unfolding encode
  decode-encode key v s codec serde h = elim (Option-cases (to_vec s)) [
    | inl e ↦ absurd (ground arith)
    | inr (payload, e) ↦
        let sent : base64 (payload ++ take tag_len (sign key payload)) ≡ v = ground arith in
        let (n, q) = serde s payload e in
        (decode_iff key v s).1
          (payload ++ take tag_len (sign key payload), rw (← sent) (codec _), (payload, refl, n, q))
  ]
