-- ===== src/Telegram/Cipher.antt =====
-- The stream cipher of src/modules/telegram/splitter.rs and init.rs, `Ctr128BE<Aes256>` of the crates
-- `ctr` and `aes`: a parameter, with what their documentation promises.
use telegram_socks_ws_proxy.Base.{ℕ, ◌≡◌, List, length, Option, some}

pub record Cipher : Type 1 where
  pub State : Type 0
  -- from a key and an initial counter block
  pub new_from_slices : List ℕ → List ℕ → Option State
  -- combines the bytes with the keystream from the current position on
  pub apply_keystream : State → List ℕ → List ℕ × State

pub record IsStreamCipher (c : Cipher) : Type 0 where
  -- works in place, so it keeps the length
  pub length-apply : (s : c.State) (xs : List ℕ) → length (c.apply_keystream s xs).0 ≡ length xs
  -- applying one piece of keystream twice gives the bytes back
  pub apply-apply :
      (s : c.State) (xs : List ℕ) → (c.apply_keystream s (c.apply_keystream s xs).0).0 ≡ xs
  -- accepts a 32-byte key with a 16-byte block
  pub accepts :
      (key iv : List ℕ)
      → length key ≡ 32
      → length iv ≡ 16
      → (s : c.State) × (c.new_from_slices key iv ≡ some s)
