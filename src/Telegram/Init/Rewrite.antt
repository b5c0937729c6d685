-- ===== src/Telegram/Init/Rewrite.antt =====
-- The packet that `patch_init_dc` of src/modules/telegram/init.rs writes, byte by byte.
use telegram_socks_ws_proxy.Base.{
  ℕ, ◌+◌, ◌/◌, ◌%◌, ◌≤◌, ◌<◌, ◌≡◌, ◌≢◌, sym, ap, ◌∙◌, arith, bit_xor, List, ◌++◌, length, get_or,
  set, take, drop, length-set, length-take, length-drop, length-append, take-append-drop,
}
use telegram_socks_ws_proxy.Base.Bits.{bit_xor-cancel_left}
use telegram_socks_ws_proxy.Base.Slices.{
  get_or-set_self, get_or-set_ne, get_or-take, get_or-append_left, get_or-append_right,
  take-drop-set, take-drop-take, take-drop-append,
}
use telegram_socks_ws_proxy.Telegram.Init.{xor_header}
use native.Mathlib.Decide.{dec_lt}

-- The packet with two bytes of its first 64 rewritten.
abbrev pub rewritten : List ℕ → List ℕ → ℕ → List ℕ
rewritten bytes stream dc =
    set (set (take 64 bytes) 60 (bit_xor (get_or stream 60 0) (dc % 256))) 61
      (bit_xor (get_or stream 61 0) (dc / 256))
    ++ drop 64 bytes

module _ (bytes stream : List ℕ) (dc : ℕ) (long : 64 ≤ length bytes) where
  length-front : (v w : ℕ) → length (set (set (take 64 bytes) 60 v) 61 w) ≡ 64
  length-front v w = omega (
    arith,
    length-set (set (take 64 bytes) 60 v) 61 w,
    length-set (take 64 bytes) 60 v,
    length-take 64 bytes,
  )

  pub length-rewritten : length (rewritten bytes stream dc) ≡ length bytes
  length-rewritten = omega (
    arith,
    length-append
        (set (set (take 64 bytes) 60 (bit_xor (get_or stream 60 0) (dc % 256))) 61
          (bit_xor (get_or stream 61 0) (dc / 256)))
        (drop 64 bytes),
    length-front (bit_xor (get_or stream 60 0) (dc % 256))
        (bit_xor (get_or stream 61 0) (dc / 256)),
    length-drop 64 bytes,
  )

  -- A slice that ends before the 60th byte is kept.
  pub slice-rewritten :
      (a n : ℕ) → a + n ≤ 60 → take n (drop a (rewritten bytes stream dc)) ≡ take n (drop a bytes)
  slice-rewritten a n h =
      let v = bit_xor (get_or stream 60 0) (dc % 256) in
      let w = bit_xor (get_or stream 61 0) (dc / 256) in
      take-drop-append n a (set (set (take 64 bytes) 60 v) 61 w) (drop 64 bytes)
        (omega (arith, length-front v w))
      ∙ take-drop-set n a 61 (set (take 64 bytes) 60 v) w (omega arith)
      ∙ take-drop-set n a 60 (take 64 bytes) v (omega arith)
      ∙ take-drop-take n a 64 bytes (omega arith)

  get_or-rewritten_front :
      (i : ℕ) → i < 64 → i ≢ 60 → i ≢ 61 → get_or (rewritten bytes stream dc) i 0 ≡ get_or bytes i 0
  get_or-rewritten_front i lt p q =
      let v = bit_xor (get_or stream 60 0) (dc % 256) in
      let w = bit_xor (get_or stream 61 0) (dc / 256) in
      get_or-append_left (set (set (take 64 bytes) 60 v) 61 w) (drop 64 bytes) i 0
        (omega (arith, length-front v w))
      ∙ get_or-set_ne (set (take 64 bytes) 60 v) 61 i w 0 (λ e. q (sym e))
      ∙ get_or-set_ne (take 64 bytes) 60 i v 0 (λ e. p (sym e))
      ∙ get_or-take 64 i bytes 0 lt

  -- Every byte but two is kept.
  pub get_or-rewritten_ne :
      (i : ℕ) → i ≢ 60 → i ≢ 61 → get_or (rewritten bytes stream dc) i 0 ≡ get_or bytes i 0
  get_or-rewritten_ne i p q = elim (dec_lt i 64) [
    | yes lt ↦ get_or-rewritten_front i lt p q
    | no ge ↦
        let v = bit_xor (get_or stream 60 0) (dc % 256) in
        let w = bit_xor (get_or stream 61 0) (dc / 256) in
        let front = set (set (take 64 bytes) 60 v) 61 w in
        get_or-append_right front (take 64 bytes) (drop 64 bytes) i 0
          (omega (arith, length-front v w, length-take 64 bytes)) (omega (arith, length-front v w))
        ∙ ap (λ l. get_or l i 0) (take-append-drop 64 bytes)
  ]

  get_or-rewritten_60 :
      get_or (rewritten bytes stream dc) 60 0 ≡ bit_xor (get_or stream 60 0) (dc % 256)
  get_or-rewritten_60 =
      let v = bit_xor (get_or stream 60 0) (dc % 256) in
      let w = bit_xor (get_or stream 61 0) (dc / 256) in
      get_or-append_left (set (set (take 64 bytes) 60 v) 61 w) (drop 64 bytes) 60 0
        (omega (arith, length-front v w))
      ∙ get_or-set_ne (set (take 64 bytes) 60 v) 61 60 w 0 (omega arith)
      ∙ get_or-set_self (take 64 bytes) 60 v 0 (omega (arith, length-take 64 bytes))

  get_or-rewritten_61 :
      get_or (rewritten bytes stream dc) 61 0 ≡ bit_xor (get_or stream 61 0) (dc / 256)
  get_or-rewritten_61 =
      let v = bit_xor (get_or stream 60 0) (dc % 256) in
      let w = bit_xor (get_or stream 61 0) (dc / 256) in
      get_or-append_left (set (set (take 64 bytes) 60 v) 61 w) (drop 64 bytes) 61 0
        (omega (arith, length-front v w))
      ∙ get_or-set_self (set (take 64 bytes) 60 v) 61 w 0
          (omega (arith, length-set (take 64 bytes) 60 v, length-take 64 bytes))

  -- The decrypted header of the rewritten packet: the new data centre, and the rest as before.
  pub xor_header-rewritten :
      xor_header 8 0 (rewritten bytes stream dc) stream
      ≡ set (set (xor_header 8 0 bytes stream) 4 (dc % 256)) 5 (dc / 256)
  unfolding xor_header
  xor_header-rewritten = rw (
    get_or-rewritten_60,
    get_or-rewritten_61,
    get_or-rewritten_front 56 (omega arith) (omega arith) (omega arith),
    get_or-rewritten_front 57 (omega arith) (omega arith) (omega arith),
    get_or-rewritten_front 58 (omega arith) (omega arith) (omega arith),
    get_or-rewritten_front 59 (omega arith) (omega arith) (omega arith),
    get_or-rewritten_front 62 (omega arith) (omega arith) (omega arith),
    get_or-rewritten_front 63 (omega arith) (omega arith) (omega arith),
    bit_xor-cancel_left (get_or stream 60 0) (dc % 256),
    bit_xor-cancel_left (get_or stream 61 0) (dc / 256),
  )
