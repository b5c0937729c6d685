-- ===== src/Ws/Frame/Bytes.antt =====
-- The byte-level laws behind the frames of src/modules/ws.rs: big-endian words, masks and the two
-- header bytes.
use telegram_socks_ws_proxy.Base.{
  ℕ, zero, suc, ◌+◌, ◌*◌, ◌/◌, ◌%◌, ◌^◌, ◌<◌, ◌≡◌, refl, ap, ◌∙◌, arith, ltb, leb, ◌==◌,
  if◌then◌else◌, bit_and, bit_or, Bool-cases, inl, inr, false, true, List, [], ◌∷◌, ◌++◌, length,
  length-append, get_or, leb→le,
}
use telegram_socks_ws_proxy.Base.Bits.{
  bit_xor-cancel_right, low_nibble, low_seven, top_bit, set_top_bit, agree, agrees,
}
use telegram_socks_ws_proxy.Base.Stream.{Stream, ok}
use telegram_socks_ws_proxy.Base.Stream.Laws.{read_exact-front}
use telegram_socks_ws_proxy.Ws.Types.{io}
use telegram_socks_ws_proxy.Ws.Frame.{
  to_be_bytes, from_be_loop, from_be_bytes, apply_mask, length_field, read_length,
}
use native.Mathlib.Nat.{pow-suc}

from_be_loop-append :
    (acc b : ℕ) (xs : List ℕ) → from_be_loop acc (xs ++ b ∷ []) ≡ from_be_loop acc xs * 256 + b
unfolding from_be_loop
from_be_loop-append acc b [] = refl
from_be_loop-append acc b (x ∷ xs) = from_be_loop-append (acc * 256 + x) b xs

-- A word read back from its bytes.
pub from_be-to_be : (k n : ℕ) → n < 256 ^ k → from_be_bytes (to_be_bytes k n) ≡ n
unfolding to_be_bytes from_be_loop
from_be-to_be zero n h = omega arith
from_be-to_be (suc k) n h = omega (
  arith,
  pow-suc 256 k,
  from_be_loop-append 0 (n % 256) (to_be_bytes k (n / 256)),
  from_be-to_be k (n / 256) (omega (arith, pow-suc 256 k)),
)

pub length-to_be : (k n : ℕ) → length (to_be_bytes k n) ≡ k
unfolding to_be_bytes
length-to_be zero n = refl
length-to_be (suc k) n =
    omega
      (arith, length-append (to_be_bytes k (n / 256)) ((n % 256) ∷ []), length-to_be k (n / 256))

-- Masking twice gives the payload back.
pub apply_mask_twice :
    (key : List ℕ) (idx : ℕ) (bs : List ℕ) → apply_mask key idx (apply_mask key idx bs) ≡ bs
unfolding apply_mask
apply_mask_twice key idx [] = refl
apply_mask_twice key idx (b ∷ bs) =
    rw (bit_xor-cancel_right b (get_or key (idx % 4) 0), apply_mask_twice key (idx + 1) bs)

pub length-apply_mask :
    (key : List ℕ) (idx : ℕ) (bs : List ℕ) → length (apply_mask key idx bs) ≡ length bs
unfolding apply_mask
length-apply_mask key idx [] = refl
length-apply_mask key idx (b ∷ bs) = ap suc (length-apply_mask key (idx + 1) bs)

-- The first byte keeps the opcode.
pub opcode_kept :
    (opcode : ℕ) → opcode < 16 → bit_and (bit_or 0x80 (bit_and opcode 0x0F)) 0x0f ≡ opcode
unfolding agrees
opcode_kept = agree 16 (λ b. bit_and (bit_or 0x80 (bit_and b 0x0F)) 0x0f) (λ b. b) refl

pub code_kept :
    (l : ℕ) → l < 128 → (bit_and (128 + l) 0x7f ≡ l) × ((bit_and (128 + l) 0x80 == 0) ≡ false)
code_kept l h = ground (arith, low_seven (128 + l), top_bit (128 + l))

pub plain_code : (l : ℕ) → l < 128 → (bit_and l 0x7f ≡ l) × ((bit_and l 0x80 == 0) ≡ true)
plain_code l h = ground (arith, low_seven l, top_bit l)

pub server_opcode : (opcode : ℕ) → opcode < 16 → bit_and (128 + opcode) 0x0f ≡ opcode
server_opcode opcode h = ground (arith, low_nibble (128 + opcode))

-- The 7-bit length and the extended length.
abbrev pub length_code : ℕ → ℕ
length_code n = if ltb n 126 then n else if leb n 0xFFFF then 126 else 127

abbrev pub length_ext : ℕ → List ℕ
length_ext n =
    if ltb n 126
    then []
    else if leb n 0xFFFF
    then to_be_bytes 2 (n % 2 ^ 16)
    else to_be_bytes 8 (n % 2 ^ 64)

pub length_field_lem : (n : ℕ) → length_field n ≡ (128 + length_code n) ∷ length_ext n
unfolding length_field
length_field_lem n = ground (arith, set_top_bit (n % 256))

pub length_code-lt : (n : ℕ) → length_code n < 128
length_code-lt n = ground arith

pub read_length-ext :
    (n : ℕ) (rest : List ℕ) (s : Stream)
    → n < 2 ^ 63
    → read_length (length_code n) (record s { incoming = length_ext n ++ rest })
      ≡ (ok n, record s { incoming = rest })
unfolding read_length
read_length-ext n rest s h = elim (Bool-cases (ltb n 126)) [
  | inl small ↦ rw small (ground arith)
  | inr big ↦ elim (Bool-cases (leb n 0xFFFF)) [
    | inl middle ↦
        rw
          (
            big,
            middle,
            read_exact-front io 2 (to_be_bytes 2 (n % 2 ^ 16)) rest s (length-to_be 2 _),
          )
          (ap (λ m. (ok m, record s { incoming = rest }))
            (from_be-to_be 2 (n % 2 ^ 16) (omega arith) ∙ omega (arith, leb→le n 0xFFFF middle)))
    | inr large ↦
        rw
          (big, large, read_exact-front io 8 (to_be_bytes 8 (n % 2 ^ 64)) rest s (length-to_be 8 _))
          (ap (λ m. (ok m, record s { incoming = rest }))
            (from_be-to_be 8 (n % 2 ^ 64) (omega arith) ∙ omega arith))
  ]
]
