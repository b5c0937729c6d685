-- ===== src/Telegram/Splitter.antt =====
-- src/modules/telegram/splitter.rs: cutting an encrypted chunk at the boundaries of the MTProto
-- abridged messages in it. A `Vec<u8>` is a list of numbers; `usize` has 64 bits, and no length here
-- comes near its bound.
pub mod Lossless
pub mod Framing
pub mod Frames
use telegram_socks_ws_proxy.Base.{
  ℕ, zero, suc, ◌+◌, ◌*◌, ◌==◌, ltb, leb, if◌then◌else◌, bit_or, ◌||◌, Option, none, some, List, [],
  ◌∷◌, length, get_or, slice, drop, replicate,
}
use telegram_socks_ws_proxy.Telegram.Cipher.{Cipher}
use mathlib.Core.Option

-- The header at `pos`: where the body starts and how long it is, or `none` if the header is cut off.
unfoldable pub message_header : List ℕ → ℕ → Option (ℕ × ℕ)
message_header plain pos =
    let first = get_or plain pos 0 in
    let raw_len =
      bit_or (bit_or (get_or plain (pos + 1) 0) (get_or plain (pos + 2) 0 * 256))
        (get_or plain (pos + 3) 0 * 65536) in
    if first == 0x7f
    then (if ltb (length plain) (pos + 4) then none else some (pos + 4, raw_len * 4))
    else some (pos + 1, first * 4)

-- The end of the message at `pos`, or `none` where the loop breaks.
unfoldable pub message_end : List ℕ → ℕ → Option ℕ
unfolding message_header
message_end plain pos = elim (message_header plain pos) [
  | none ↦ none
  | some (start, msg_len) ↦
      if msg_len == 0 || ltb (length plain) (start + msg_len) then none else some (start + msg_len)
]

-- The `while` loop, with the boundaries that it pushes from `pos` on. `none` means that the fuel ran
-- out.
unfoldable pub scan : ℕ → List ℕ → ℕ → Option (List ℕ)
unfolding message_end
scan zero plain pos = none
scan (suc fuel) plain pos =
    if ltb pos (length plain)
    then elim (message_end plain pos) [
      | none ↦ some []
      | some end ↦ Option.map (λ more. end ∷ more) (scan fuel plain end)
    ]
    else some []

-- The `for` loop over the boundaries, and the rest behind the last one.
unfoldable pub cut : List ℕ → ℕ → List ℕ → List (List ℕ)
cut chunk prev [] = if ltb prev (length chunk) then drop prev chunk ∷ [] else []
cut chunk prev (end ∷ ends) = slice prev end chunk ∷ cut chunk end ends

unfoldable pub parts_of : List ℕ → List ℕ → List (List ℕ)
unfolding cut
parts_of chunk boundaries = if leb (length boundaries) 1 then chunk ∷ [] else cut chunk 0 boundaries

pub record MtProtoMessageSplitter (c : Cipher) : Type 0 where
  pub cipher : c.State

module _ (c : Cipher) where
  open c use {new_from_slices, apply_keystream}

  -- Skips the 64 bytes of keystream that the init packet used.
  unfoldable pub new : List ℕ → Option (MtProtoMessageSplitter c)
  new init_data =
      if ltb (length init_data) 64
      then none
      else Option.map (λ cipher. record { cipher = (apply_keystream cipher (replicate 64 0)).1 })
          (new_from_slices (slice 8 40 init_data) (slice 40 56 init_data))

  -- `none` means that the loop ran out of fuel.
  unfoldable pub split :
      MtProtoMessageSplitter c → List ℕ → Option (List (List ℕ) × MtProtoMessageSplitter c)
  unfolding scan parts_of
  split s [] = some ([] ∷ [], s)
  split s (b ∷ bs) =
      let chunk = b ∷ bs in
      let (plain, cipher') = apply_keystream s.cipher chunk in
      Option.map (λ boundaries. (parts_of chunk boundaries, record { cipher = cipher' }))
        (scan (suc (length plain)) plain 0)

-- The plaintext variant, which no other code calls.
unfoldable pub plain_message_len : List ℕ → ℕ → Option ℕ
plain_message_len chunk pos =
    let len = get_or chunk pos 0 in
    if len == 0
    then none
    else if len == 0x7f
    then (if ltb (length chunk) (pos + 4)
        then none
        else some (
            4
            + (get_or chunk (pos + 1) 0
                + get_or chunk (pos + 2) 0 * 256
                + get_or chunk (pos + 3) 0 * 65536)))
    else some (1 + len * 4)

unfoldable pub plain_parts : ℕ → List ℕ → ℕ → Option (List (List ℕ))
unfolding plain_message_len
plain_parts zero chunk pos = none
plain_parts (suc fuel) chunk pos =
    if ltb pos (length chunk)
    then elim (plain_message_len chunk pos) [
      | none ↦ some []
      | some total_len ↦
          if ltb (length chunk) (pos + total_len)
          then some []
          else Option.map (λ more. slice pos (pos + total_len) chunk ∷ more)
              (plain_parts fuel chunk (pos + total_len))
    ]
    else some []

unfoldable pub or_whole : List ℕ → List (List ℕ) → List (List ℕ)
or_whole chunk [] = chunk ∷ []
or_whole chunk (p ∷ ps) = p ∷ ps

unfoldable pub split_plain_mtproto_messages : List ℕ → Option (List (List ℕ))
unfolding plain_parts or_whole
split_plain_mtproto_messages chunk =
    Option.map (or_whole chunk) (plain_parts (suc (length chunk)) chunk 0)
