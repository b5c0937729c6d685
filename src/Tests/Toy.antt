-- ===== src/Tests/Toy.antt =====
-- A stream cipher that meets what src/modules/telegram/init.rs and splitter.rs rely on: each byte is
-- combined with a byte of a pseudo-random sequence.
use telegram_socks_ws_proxy.Base.{
  ℕ, suc, ◌+◌, ◌*◌, ◌%◌, ◌≡◌, refl, ap, ◌==◌, if◌then◌else◌, ◌&&◌, bit_xor, Option, none, some,
  List, [], ◌∷◌, length, get_or,
}
use telegram_socks_ws_proxy.Base.Bits.{bit_xor-cancel_right}
use telegram_socks_ws_proxy.Telegram.Cipher.{Cipher, IsStreamCipher}

abbrev pub toy_apply : ℕ → List ℕ → List ℕ × ℕ
toy_apply s [] = ([], s)
toy_apply s (x ∷ xs) =
    let (ys, s') = toy_apply ((s * 17 + 43) % 65536) xs in (bit_xor x (s % 256) ∷ ys, s')

abbrev pub toy : Cipher
toy = record {
  State = ℕ;
  new_from_slices = λ key iv.
      if length key == 32 && length iv == 16
      then some (get_or key 0 0 + 256 * get_or iv 0 0)
      else none;
  apply_keystream = toy_apply;
}

length-toy_apply : (s : ℕ) (xs : List ℕ) → length (toy_apply s xs).0 ≡ length xs
length-toy_apply s [] = refl
length-toy_apply s (x ∷ xs) = ap suc (length-toy_apply ((s * 17 + 43) % 65536) xs)

toy_apply_twice : (s : ℕ) (xs : List ℕ) → (toy_apply s (toy_apply s xs).0).0 ≡ xs
toy_apply_twice s [] = refl
toy_apply_twice s (x ∷ xs) =
    rw (bit_xor-cancel_right x (s % 256), toy_apply_twice ((s * 17 + 43) % 65536) xs)

toy_accepts :
    (key iv : List ℕ)
    → length key ≡ 32
    → length iv ≡ 16
    → (s : ℕ) × ◌≡◌ {A = Option ℕ} (toy.new_from_slices key iv) (some s)
toy_accepts key iv k v = (get_or key 0 0 + 256 * get_or iv 0 0, rw (k, v))

pub toy_laws : IsStreamCipher toy
toy_laws = record {
  length-apply = length-toy_apply;
  apply-apply = toy_apply_twice;
  accepts = toy_accepts;
}
