-- ===== src/Telegram/Init.antt =====
-- src/modules/telegram/init.rs: the data centre in the obfuscated init packet.
pub mod Rewrite
pub mod Patch
use telegram_socks_ws_proxy.Base.{
  ℕ, zero, suc, ◌+◌, ◌-◌, ◌*◌, ◌/◌, ◌%◌, ◌==◌, ltb, leb, if◌then◌else◌, bit_xor, Bool, true, false,
  ◌&&◌, ◌||◌, Option, none, some, List, [], ◌∷◌, ◌++◌, length, get_or, set, slice, take, drop,
  replicate,
}
use telegram_socks_ws_proxy.Telegram.Cipher.{Cipher}
use mathlib.Core.Option

pub record TelegramInitInfo : Type 0 where
  pub dc : Option ℕ
  pub is_media : Bool

abbrev pub unknown : TelegramInitInfo
unknown = record { dc = none; is_media = false }

-- `from_le_bytes`
abbrev pub from_le_bytes : List ℕ → ℕ
from_le_bytes [] = 0
from_le_bytes (b ∷ bs) = b + 256 * from_le_bytes bs

-- An `i16` is its bit pattern, a number below 2 ^ 16.
abbrev pub unsigned_abs : ℕ → ℕ
unsigned_abs raw = if ltb raw 0x8000 then raw else 0x10000 - raw

abbrev pub is_negative : ℕ → Bool
is_negative raw = leb 0x8000 raw

abbrev pub is_known_proto : ℕ → Bool
is_known_proto proto = proto == 0xEFEFEFEF || proto == 0xEEEEEEEE || proto == 0xDDDDDDDD

-- What `extract_dc` makes of the `i16`: `as u8` drops the high byte of the absolute value.
unfoldable pub decode_dc : ℕ → TelegramInitInfo
decode_dc dc_raw =
    let dc = unsigned_abs dc_raw % 256 in
    if leb 1 dc && leb dc 5 then record { dc = some dc; is_media = is_negative dc_raw } else unknown

unfoldable pub decode_header : List ℕ → TelegramInitInfo
unfolding decode_dc
decode_header plain =
    if is_known_proto (from_le_bytes (slice 0 4 plain))
    then decode_dc (from_le_bytes (slice 4 6 plain))
    else unknown

-- The `for` loop of `decrypt_header`, with the rounds that are left.
unfoldable pub xor_header : ℕ → ℕ → List ℕ → List ℕ → List ℕ
xor_header zero idx bytes stream = []
xor_header (suc rounds) idx bytes stream =
    bit_xor (get_or bytes (56 + idx) 0) (get_or stream (56 + idx) 0)
    ∷ xor_header rounds (idx + 1) bytes stream

module _ (c : Cipher) where
  open c use {new_from_slices, apply_keystream}

  unfoldable pub keystream : List ℕ → Option (List ℕ)
  keystream bytes =
      Option.map (λ cipher. (apply_keystream cipher (replicate 64 0)).0)
        (new_from_slices (slice 8 40 bytes) (slice 40 56 bytes))

  unfoldable pub decrypt_header : List ℕ → Option (List ℕ)
  unfolding keystream xor_header
  decrypt_header bytes = Option.map (λ stream. xor_header 8 0 bytes stream) (keystream bytes)

  unfoldable pub extract_dc : List ℕ → TelegramInitInfo
  unfolding decrypt_header decode_header
  extract_dc bytes =
      if ltb (length bytes) 64
      then unknown
      else decode_header (Option.get_or (decrypt_header bytes) (replicate 8 0))

  unfoldable pub patch_init_dc : List ℕ → ℕ → List ℕ
  unfolding keystream
  patch_init_dc bytes dc = if ltb (length bytes) 64 then bytes else elim (keystream bytes) [
    | none ↦ bytes
    | some stream ↦
        let out = take 64 bytes in
        let out' = set out 60 (bit_xor (get_or stream 60 0) (dc % 256)) in
        let out'' = set out' 61 (bit_xor (get_or stream 61 0) (dc / 256)) in
        if ltb 64 (length bytes) then out'' ++ drop 64 bytes else out''
  ]
