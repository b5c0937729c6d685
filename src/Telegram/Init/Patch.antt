-- ===== src/Telegram/Init/Patch.antt =====
-- `patch_init_dc` and `extract_dc` of src/modules/telegram/init.rs against each other.
use telegram_socks_ws_proxy.Base.{
  ℕ, ◌+◌, ◌-◌, ◌*◌, ◌/◌, ◌%◌, ◌≤◌, ◌<◌, ◌≡◌, ◌≢◌, refl, sym, ap, ◌∙◌, arith, ltb, if◌then◌else◌,
  Bool-cases, inl, inr, Bool, true, false, none, some, List, [], ◌∷◌, length, get_or, set, slice,
  replicate, append-nil, le→ltb-false, ltb-false→le,
}
use telegram_socks_ws_proxy.Base.Slices.{drop-over, length-slice}
use telegram_socks_ws_proxy.Telegram.Cipher.{Cipher, IsStreamCipher}
use telegram_socks_ws_proxy.Telegram.Init.{
  unknown, from_le_bytes, is_known_proto, decode_dc, decode_header, xor_header, keystream,
  decrypt_header, extract_dc, patch_init_dc,
}
use telegram_socks_ws_proxy.Telegram.Init.Rewrite.{
  rewritten, length-rewritten, slice-rewritten, get_or-rewritten_ne, xor_header-rewritten,
}
use mathlib.Core.Option

-- The protocol tag in the decrypted header.
abbrev pub proto_of : Cipher → List ℕ → ℕ
proto_of c bytes =
    from_le_bytes (slice 0 4 (Option.get_or (decrypt_header c bytes) (replicate 8 0)))

-- The pattern of the `i16` that the router writes: the number of a data centre, negative for media.
abbrev pub signed_dc : ℕ → Bool → ℕ
signed_dc dc is_media = if is_media then 0x10000 - dc else dc

patched-rewritten :
    (c : Cipher) (bytes stream : List ℕ) (dc : ℕ)
    → 64 ≤ length bytes
    → keystream c bytes ≡ some stream
    → patch_init_dc c bytes dc ≡ rewritten bytes stream dc
unfolding patch_init_dc
patched-rewritten c bytes stream dc long e =
    rw (le→ltb-false _ _ long, e)
      (elim (Bool-cases (ltb 64 (length bytes))) [
        | inl more ↦ rw more
        | inr exact ↦ rw (exact, drop-over 64 bytes (ltb-false→le _ _ exact)) (sym (append-nil _))
      ])

-- A header whose fifth and sixth byte hold an `i16`.
decode_header_lem :
    (a b c d y z dc : ℕ)
    → dc < 0x10000
    → decode_header (a ∷ b ∷ c ∷ d ∷ (dc % 256) ∷ (dc / 256) ∷ y ∷ z ∷ [])
      ≡ (if is_known_proto (from_le_bytes (a ∷ b ∷ c ∷ d ∷ [])) then decode_dc dc else unknown)
unfolding decode_header
decode_header_lem a b c d y z dc h =
    let whole : dc % 256 + 256 * (dc / 256 + 256 * 0) ≡ dc = omega arith in
    ap
      (λ (n : ℕ).
        if is_known_proto (from_le_bytes (a ∷ b ∷ c ∷ d ∷ [])) then decode_dc n else unknown)
      whole

signed_dc-fits : (dc : ℕ) (is_media : Bool) → 1 ≤ dc → dc ≤ 5 → signed_dc dc is_media < 0x10000
signed_dc-fits dc true lo hi = omega arith
signed_dc-fits dc false lo hi = omega arith

decode_dc-signed_dc :
    (dc : ℕ) (is_media : Bool)
    → 1 ≤ dc
    → dc ≤ 5
    → decode_dc (signed_dc dc is_media) ≡ record { dc = some dc; is_media = is_media }
unfolding decode_dc
decode_dc-signed_dc dc true lo hi = ground arith
decode_dc-signed_dc dc false lo hi = ground arith

decode_dc-high_byte :
    (dc k : ℕ)
    → 1 ≤ dc
    → dc ≤ 5
    → dc + 256 * k < 0x8000
    → decode_dc (dc + 256 * k) ≡ record { dc = some dc; is_media = false }
unfolding decode_dc
decode_dc-high_byte dc k lo hi fits = ground arith

decode_header_range :
    (plain : List ℕ)
    → ((dc : ℕ) → (decode_header plain).dc ≡ some dc → (1 ≤ dc) × (dc ≤ 5))
      × ((decode_header plain).dc ≡ none → (decode_header plain).is_media ≡ false)
unfolding decode_header
decode_header_range plain = (λ dc e. ground arith, λ e. ground arith)

module _ (c : Cipher) (bytes : List ℕ) where
  decrypt_header-some :
      {stream : List ℕ}
      → keystream c bytes ≡ some stream
      → decrypt_header c bytes ≡ some (xor_header 8 0 bytes stream)
  unfolding decrypt_header
  decrypt_header-some e = ap (Option.map (λ stream. xor_header 8 0 bytes stream)) e

  extract_dc-some :
      {plain : List ℕ}
      → 64 ≤ length bytes
      → decrypt_header c bytes ≡ some plain
      → extract_dc c bytes ≡ decode_header plain
  unfolding extract_dc
  extract_dc-some long e =
      rw (le→ltb-false _ _ long) (ap (λ o. decode_header (Option.get_or o (replicate 8 0))) e)

-- The decrypted header with another data centre in it.
decode_header-xor_header :
    (bytes stream : List ℕ) (dc : ℕ)
    → dc < 0x10000
    → decode_header (set (set (xor_header 8 0 bytes stream) 4 (dc % 256)) 5 (dc / 256)) ≡ (
        if is_known_proto (from_le_bytes (slice 0 4 (xor_header 8 0 bytes stream)))
        then decode_dc dc
        else unknown)
unfolding xor_header
decode_header-xor_header bytes stream dc h = decode_header_lem _ _ _ _ _ _ dc h

module _ (c : Cipher) (laws : IsStreamCipher c) where
  keystream-some :
      (bytes : List ℕ) → 64 ≤ length bytes → (stream : List ℕ) × (keystream c bytes ≡ some stream)
  unfolding keystream
  keystream-some bytes long =
      let (s, e) =
        laws.accepts (slice 8 40 bytes) (slice 40 56 bytes)
          (length-slice 8 40 bytes (omega arith) (omega arith))
          (length-slice 40 56 bytes (omega arith) (omega arith)) in
      ((c.apply_keystream s (replicate 64 0)).0, rw e)

  -- Patching keeps the packet's length and every byte but the two of the data centre.
  pub patch_init_dc-keeps :
      (bytes : List ℕ) (dc : ℕ)
      → (length (patch_init_dc c bytes dc) ≡ length bytes)
        × ((i : ℕ) → i ≢ 60 → i ≢ 61 → get_or (patch_init_dc c bytes dc) i 0 ≡ get_or bytes i 0)
  patch_init_dc-keeps bytes dc = elim (Bool-cases (ltb (length bytes) 64)) [
    | inl short ↦ unfold patch_init_dc in rw short (refl, λ i p q. refl)
    | inr long ↦
        let enough = ltb-false→le _ _ long in
        let (stream, e) = keystream-some bytes enough in
        rw (patched-rewritten c bytes stream dc enough e)
          (length-rewritten bytes stream dc enough, get_or-rewritten_ne bytes stream dc enough)
  ]

  -- The patched packet has the same key and counter block, hence the same keystream.
  keystream-rewritten :
      (bytes stream : List ℕ) (dc : ℕ)
      → 64 ≤ length bytes
      → keystream c (rewritten bytes stream dc) ≡ keystream c bytes
  unfolding keystream
  keystream-rewritten bytes stream dc long = rw (
    slice-rewritten bytes stream dc long 8 32 (omega arith),
    slice-rewritten bytes stream dc long 40 16 (omega arith),
  )

  -- A packet of at least 64 bytes that is patched with an `i16` decodes as that number, if its
  -- protocol tag is known, and as no data centre if not.
  pub extract_dc-patch_init_dc :
      (bytes : List ℕ) (dc : ℕ)
      → 64 ≤ length bytes
      → dc < 0x10000
      → extract_dc c (patch_init_dc c bytes dc)
        ≡ (if is_known_proto (proto_of c bytes) then decode_dc dc else unknown)
  extract_dc-patch_init_dc bytes dc long fits =
      let (stream, e) = keystream-some bytes long in
      let same_proto : proto_of c bytes ≡ from_le_bytes (slice 0 4 (xor_header 8 0 bytes stream)) =
        ap (λ o. from_le_bytes (slice 0 4 (Option.get_or o (replicate 8 0))))
          (decrypt_header-some c bytes e) in
      let long' = length-rewritten bytes stream dc long in
      ap (extract_dc c) (patched-rewritten c bytes stream dc long e)
      ∙ extract_dc-some c (rewritten bytes stream dc) (omega arith) (
          decrypt_header-some c (rewritten bytes stream dc)
            (keystream-rewritten bytes stream dc long ∙ e)
          ∙ ap some (xor_header-rewritten bytes stream dc long))
      ∙ decode_header-xor_header bytes stream dc fits
      ∙ ap (λ proto. if is_known_proto proto then decode_dc dc else unknown) (sym same_proto)

  -- A data centre from 1 to 5 and its media flag come back from a packet that they were patched into,
  -- if the packet has 64 bytes and a known protocol tag.
  pub extract_dc-signed_dc :
      (bytes : List ℕ) (dc : ℕ) (is_media : Bool)
      → 64 ≤ length bytes
      → is_known_proto (proto_of c bytes) ≡ true
      → 1 ≤ dc
      → dc ≤ 5
      → extract_dc c (patch_init_dc c bytes (signed_dc dc is_media))
        ≡ record { dc = some dc; is_media = is_media }
  extract_dc-signed_dc bytes dc is_media long known lo hi =
      extract_dc-patch_init_dc bytes (signed_dc dc is_media) long (signed_dc-fits dc is_media lo hi)
      ∙ rw known (decode_dc-signed_dc dc is_media lo hi)

  -- The high byte of the absolute value is not looked at: whatever multiple of 256 is added to a data
  -- centre from 1 to 5, the packet decodes as that data centre.
  pub extract_dc-high_byte :
      (bytes : List ℕ) (dc k : ℕ)
      → 64 ≤ length bytes
      → is_known_proto (proto_of c bytes) ≡ true
      → 1 ≤ dc
      → dc ≤ 5
      → dc + 256 * k < 0x8000
      → extract_dc c (patch_init_dc c bytes (dc + 256 * k))
        ≡ record { dc = some dc; is_media = false }
  extract_dc-high_byte bytes dc k long known lo hi fits =
      extract_dc-patch_init_dc bytes (dc + 256 * k) long (omega arith)
      ∙ rw known (decode_dc-high_byte dc k lo hi fits)

-- What decodes lies in the range of the data centres, and an unknown one is not media.
pub extract_dc_range :
    (c : Cipher) (bytes : List ℕ)
    → ((dc : ℕ) → (extract_dc c bytes).dc ≡ some dc → (1 ≤ dc) × (dc ≤ 5))
      × ((extract_dc c bytes).dc ≡ none → (extract_dc c bytes).is_media ≡ false)
unfolding extract_dc
extract_dc_range c bytes = elim (Bool-cases (ltb (length bytes) 64)) [
  | inl short ↦ rw short ((λ dc e. cc), λ e. refl)
  | inr long ↦
      rw long (decode_header_range (Option.get_or (decrypt_header c bytes) (replicate 8 0)))
]
