-- ===== src/Ws/Frame/RoundTrip.antt =====
-- The reader of src/modules/ws.rs against the writer, and against frames without a mask.
use telegram_socks_ws_proxy.Base.{
  ℕ, ◌+◌, ◌^◌, ◌<◌, ◌≡◌, refl, bit_and, bit_or, Bool, false, true, List, [], ◌∷◌, ◌++◌,
  append_assoc, Option, some, length, lt→ltb,
}
use telegram_socks_ws_proxy.Base.Stream.{Stream, ok}
use telegram_socks_ws_proxy.Base.Stream.Laws.{read_exact-front}
use telegram_socks_ws_proxy.Ws.Types.{io}
use telegram_socks_ws_proxy.Ws.Frame.{
  apply_mask, mask_key, build_frame_with_opcode, frame_of, allocate, read_frame_body, read_frame,
}
use telegram_socks_ws_proxy.Ws.Frame.Bytes.{
  apply_mask_twice, length-apply_mask, opcode_kept, code_kept, plain_code, server_opcode,
  length_code, length_ext, length_field_lem, length_code-lt, read_length-ext,
}

abbrev at_input : List ℕ → Stream → Stream
at_input bytes s = record s { incoming = bytes }

allocate_fits : (n : ℕ) (s : Stream) → n < 2 ^ 63 → allocate n s ≡ (ok tt, s)
unfolding allocate
allocate_fits n s h = rw (lt→ltb n (2 ^ 63) h)

-- The part of a frame behind its two header bytes, masked or not.
abbrev behind_header : Bool → List ℕ → List ℕ → List ℕ → List ℕ
behind_header true key payload rest =
    length_ext (length payload) ++ (key ++ (apply_mask key 0 payload ++ rest))
behind_header false key payload rest = length_ext (length payload) ++ (payload ++ rest)

read_body_masked :
    (opcode : ℕ) (key payload rest : List ℕ) (s : Stream)
    → length key ≡ 4
    → length payload < 2 ^ 63
    → read_frame_body opcode
        (128 + length_code (length payload))
        (at_input (behind_header true key payload rest) s)
      ≡ (ok (some (frame_of (bit_and opcode 0x0f) payload)), at_input rest s)
unfolding read_frame_body
read_body_masked opcode key payload rest s k h =
    let (code, mask) = code_kept (length_code (length payload)) (length_code-lt (length payload)) in
    rw (
      code,
      mask,
      read_length-ext (length payload) (key ++ (apply_mask key 0 payload ++ rest)) s h,
      read_exact-front io 4 key (apply_mask key 0 payload ++ rest) s k,
      allocate_fits (length payload) (at_input (apply_mask key 0 payload ++ rest) s) h,
      read_exact-front io (length payload) (apply_mask key 0 payload) rest s
          (length-apply_mask key 0 payload),
      apply_mask_twice key 0 payload,
    )

read_body_plain :
    (opcode : ℕ) (payload rest : List ℕ) (s : Stream)
    → length payload < 2 ^ 63
    → read_frame_body opcode
        (length_code (length payload))
        (at_input (behind_header false [] payload rest) s)
      ≡ (ok (some (frame_of (bit_and opcode 0x0f) payload)), at_input rest s)
unfolding read_frame_body
read_body_plain opcode payload rest s h =
    let (code, mask) =
      plain_code (length_code (length payload)) (length_code-lt (length payload)) in
    rw (
      code,
      mask,
      read_length-ext (length payload) (payload ++ rest) s h,
      allocate_fits (length payload) (at_input (payload ++ rest) s) h,
      read_exact-front io (length payload) payload rest s refl,
    )

-- The frame that is read from two header bytes and what is behind them.
read_frame_on :
    (a b : ℕ) (bytes : List ℕ) (s : Stream)
    → read_frame (at_input (a ∷ b ∷ bytes) s) ≡ read_frame_body a b (at_input bytes s)
unfolding read_frame
read_frame_on a b bytes s = rw (read_exact-front io 2 (a ∷ b ∷ []) bytes s refl)

-- The reader reads back any frame that the writer builds, whatever mask it draws and whatever
-- follows on the connection: the same payload under the same opcode, with nothing else consumed.
-- The opcode has four bits, the payload is below 2 ^ 63 bytes and the key has four bytes.
pub read-build_frame :
    (opcode : ℕ) (payload rest : List ℕ) (random : Option (List ℕ)) (s : Stream)
    → opcode < 16
    → length payload < 2 ^ 63
    → length (mask_key random) ≡ 4
    → read_frame (record s { incoming = build_frame_with_opcode opcode payload random ++ rest })
      ≡ (ok (some (frame_of opcode payload)), record s { incoming = rest })
unfolding build_frame_with_opcode
read-build_frame opcode payload rest random s small h k =
    let key = mask_key random in
    let n = length payload in
    let head = bit_or 0x80 (bit_and opcode 0x0F) in
    rw (
      length_field_lem n,
      append_assoc (length_ext n) (key ++ apply_mask key 0 payload) rest,
      append_assoc key (apply_mask key 0 payload) rest,
      read_frame_on head (128 + length_code n) (behind_header true key payload rest) s,
      read_body_masked head key payload rest s k h,
      opcode_kept opcode small,
    )

-- A frame without a mask, from its first byte, `head`.
abbrev pub plain_frame : ℕ → List ℕ → List ℕ
plain_frame head payload =
    head ∷ length_code (length payload) ∷ (length_ext (length payload) ++ payload)

-- A frame without a mask, and with the final bit.
abbrev pub server_frame : ℕ → List ℕ → List ℕ
server_frame opcode = plain_frame (128 + opcode)

-- The reader reads any frame without a mask, whatever follows it.
pub read-plain_frame :
    (head : ℕ) (payload rest : List ℕ) (s : Stream)
    → length payload < 2 ^ 63
    → read_frame (record s { incoming = plain_frame head payload ++ rest })
      ≡ (ok (some (frame_of (bit_and head 0x0F) payload)), record s { incoming = rest })
read-plain_frame head payload rest s h =
    let n = length payload in
    rw (
      append_assoc (length_ext n) payload rest,
      read_frame_on head (length_code n) (behind_header false [] payload rest) s,
      read_body_plain head payload rest s h,
    )

-- The reader reads any frame of a server, whatever follows it.
pub read-server_frame :
    (opcode : ℕ) (payload rest : List ℕ) (s : Stream)
    → opcode < 16
    → length payload < 2 ^ 63
    → read_frame (record s { incoming = server_frame opcode payload ++ rest })
      ≡ (ok (some (frame_of opcode payload)), record s { incoming = rest })
read-server_frame opcode payload rest s small h =
    rw (read-plain_frame (128 + opcode) payload rest s h, server_opcode opcode small)
