-- ===== src/Ws/Frame.antt =====
-- src/modules/ws.rs: the frames, written with a mask and read with or without one. `usize` has 64 bits.
pub mod Bytes
pub mod Reads
pub mod RoundTrip
use telegram_socks_ws_proxy.Base.{
  ℕ, zero, suc, ◌+◌, ◌*◌, ◌/◌, ◌%◌, ◌^◌, ◌==◌, ltb, leb, if◌then◌else◌, bit_and, bit_or, bit_xor,
  Bool, true, false, not, ◌||◌, Option, none, some, List, [], ◌∷◌, ◌++◌, length, get_or, drop,
}
use telegram_socks_ws_proxy.Base.Utf8.{Str, from_utf8_lossy}
use telegram_socks_ws_proxy.Base.Stream.{
  Stream, Io, unexpected_eof, Outcome, ok, err, pending, panicked, bind_outcome, ◌>>=◌, ◌>>◌,
  return, read_exact,
}
use telegram_socks_ws_proxy.Ws.Types.{
  WsCloseInfo, WsError, io, WsFrame, binary, ping, pong, close, other,
}

-- `to_be_bytes` of a word of `k` bytes, and `from_be_bytes`.
unfoldable pub to_be_bytes : ℕ → ℕ → List ℕ
to_be_bytes zero n = []
to_be_bytes (suc k) n = to_be_bytes k (n / 256) ++ (n % 256) ∷ []

unfoldable pub from_be_loop : ℕ → List ℕ → ℕ
from_be_loop acc [] = acc
from_be_loop acc (b ∷ bs) = from_be_loop (acc * 256 + b) bs

abbrev pub from_be_bytes : List ℕ → ℕ
from_be_bytes bs = from_be_loop 0 bs

-- The loop that masks a payload, from its index on.
unfoldable pub apply_mask : List ℕ → ℕ → List ℕ → List ℕ
apply_mask key idx [] = []
apply_mask key idx (b ∷ bs) = bit_xor b (get_or key (idx % 4) 0) ∷ apply_mask key (idx + 1) bs

-- The random key, or the fixed one if `getrandom` fails.
abbrev pub mask_key : Option (List ℕ) → List ℕ
mask_key none = 0x11 ∷ 0x22 ∷ 0x33 ∷ 0x44 ∷ []
mask_key (some key) = key

unfoldable pub length_field : ℕ → List ℕ
unfolding to_be_bytes
length_field n =
    if ltb n 126
    then bit_or 0x80 (n % 256) ∷ []
    else if leb n 0xFFFF
    then bit_or 0x80 126 ∷ to_be_bytes 2 (n % 2 ^ 16)
    else bit_or 0x80 127 ∷ to_be_bytes 8 (n % 2 ^ 64)

unfoldable pub build_frame_with_opcode : ℕ → List ℕ → Option (List ℕ) → List ℕ
unfolding length_field apply_mask
build_frame_with_opcode opcode payload random =
    let key = mask_key random in
    bit_or 0x80 (bit_and opcode 0x0F)
    ∷ (length_field (length payload) ++ (key ++ apply_mask key 0 payload))

unfoldable pub build_frame : List ℕ → Option (List ℕ) → List ℕ
unfolding build_frame_with_opcode
build_frame payload random = build_frame_with_opcode 0x2 payload random

unfoldable pub parse_close_payload : List ℕ → WsCloseInfo
unfolding from_be_loop
parse_close_payload payload =
    if ltb (length payload) 2 then record { code = none; reason = none } else record {
      code = some (from_be_bytes (get_or payload 0 0 ∷ get_or payload 1 0 ∷ []));
      reason = if ltb 2 (length payload) then some (from_utf8_lossy (drop 2 payload)) else none;
    }

unfoldable pub frame_of : ℕ → List ℕ → WsFrame
unfolding parse_close_payload
frame_of opcode payload =
    if opcode == 0x8
    then close (parse_close_payload payload)
    else if opcode == 0x9
    then ping payload
    else if opcode == 0xA
    then pong payload
    else if opcode == 0x0 || opcode == 0x1 || opcode == 0x2
    then binary payload
    else other payload

-- The extended length.
unfoldable pub read_length : ℕ → Io WsError ℕ
unfolding from_be_loop
read_length len =
    if len == 126
    then (do ext ← read_exact io 2; return (from_be_bytes ext))
    else if len == 127
    then (do ext ← read_exact io 8; return (from_be_bytes ext))
    else return len

unfoldable pub read_mask : Bool → Io WsError (List ℕ)
read_mask true = read_exact io 4
read_mask false = return (0 ∷ 0 ∷ 0 ∷ 0 ∷ [])

-- `vec![0u8; n]` panics with "capacity overflow" above `isize::MAX`.
unfoldable pub allocate : ℕ → Io WsError (Unit {0})
allocate n s = if ltb n (2 ^ 63) then (ok tt, s) else (panicked, s)

-- `read_exact` of the two header bytes, where the end of the stream is no error.
abbrev pub header_or_end :
    Outcome WsError (List ℕ) × Stream → Outcome WsError (Option (List ℕ)) × Stream
header_or_end (ok hdr, s) = (ok (some hdr), s)
header_or_end (err (io unexpected_eof), s) = (ok none, s)
header_or_end (err e, s) = (err e, s)
header_or_end (pending, s) = (pending, s)
header_or_end (panicked, s) = (panicked, s)

unfoldable pub read_frame_body : ℕ → ℕ → Io WsError (Option WsFrame)
unfolding read_mask
read_frame_body hdr₀ hdr₁ = do
  payload_len ← read_length (bit_and hdr₁ 0x7f)
  let masked = not (bit_and hdr₁ 0x80 == 0)
  mask ← read_mask masked
  allocate payload_len
  payload ← read_exact io payload_len
  let plain = if masked then apply_mask mask 0 payload else payload
  return (some (frame_of (bit_and hdr₀ 0x0f) plain))

abbrev pub after_header : Option (List ℕ) → Io WsError (Option WsFrame)
after_header none = return none
after_header (some hdr) = read_frame_body (get_or hdr 0 0) (get_or hdr 1 0)

unfoldable pub read_frame : Io WsError (Option WsFrame)
unfolding read_frame_body
read_frame s = bind_outcome (header_or_end (read_exact io 2 s)) after_header
