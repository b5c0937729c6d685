-- ===== src/Telegram/Splitter/Frames.antt =====
-- src/modules/telegram/splitter.rs: where the step of its loop sees the end of one abridged message.
use telegram_socks_ws_proxy.Base.{
  ℕ, zero, suc, ◌+◌, ◌*◌, ◌/◌, ◌%◌, ◌^◌, ◌<◌, ◌≡◌, refl, ap, ◌∙◌, arith, ltb, if◌then◌else◌,
  Bool-cases, inl, inr, none, some, List, [], ◌∷◌, ◌++◌, map, length, get_or, drop, take, concat,
  length-take, length-append, bit_or, ltb→lt,
}
use telegram_socks_ws_proxy.Base.Bits.{bit_or_shifted}
use telegram_socks_ws_proxy.Telegram.Splitter.{message_end}
use mathlib.Core.Option

-- The abridged framing: a length in words of four bytes, in one byte or behind 0x7f in three.
unfoldable pub header : ℕ → List ℕ
header w = if ltb w 0x7f then w ∷ [] else 0x7f ∷ (w % 256) ∷ (w / 256 % 256) ∷ (w / 65536) ∷ []

unfoldable pub frame : List ℕ → List ℕ
unfolding header
frame body = header (length body / 4) ++ body

-- A body is a positive number of words, below 2 ^ 24.
abbrev pub IsBody : List ℕ → Type 0
IsBody body = (length body % 4 ≡ 0) × (0 < length body) × (length body < 4 * 2 ^ 24)

abbrev pub frames : List (List ℕ) → List ℕ
frames bodies = concat (map frame bodies)

abbrev pub frame_lengths : List (List ℕ) → List ℕ
frame_lengths [] = []
frame_lengths (b ∷ bs) = length (frame b) ∷ frame_lengths bs

-- A list cut into pieces of the given lengths, and what is left, if anything.
abbrev pub pieces : List ℕ → List ℕ → List (List ℕ)
pieces [] [] = []
pieces (x ∷ xs) [] = (x ∷ xs) ∷ []
pieces xs (n ∷ ns) = take n xs ∷ pieces (drop n xs) ns

get_or-behind : (pre xs : List ℕ) (i d : ℕ) → get_or (pre ++ xs) (length pre + i) d ≡ get_or xs i d
get_or-behind [] xs i d = ap (λ j. get_or xs j d) (omega arith)
get_or-behind (x ∷ pre) xs i d = rw native.Mathlib.Nat.suc-add (get_or-behind pre xs i d)

get_or-here : (pre xs : List ℕ) (d : ℕ) → get_or (pre ++ xs) (length pre) d ≡ get_or xs 0 d
get_or-here [] xs d = refl
get_or-here (x ∷ pre) xs d = get_or-here pre xs d

-- The three length bytes are put together as they were taken apart.
length_bytes :
    (w : ℕ) → w < 2 ^ 24 → bit_or (bit_or (w % 256) (w / 256 % 256 * 256)) (w / 65536 * 65536) ≡ w
length_bytes w h =
    let low = bit_or_shifted 8 (w % 256) (w / 256 % 256) (omega arith) in
    rw low
      (bit_or_shifted 16 (w % 256 + w / 256 % 256 * 256) (w / 65536) (omega arith) ∙ omega arith)

-- The loop's step looks only at what stands from `pos` on.
pub message_end_behind :
    (pre xs : List ℕ)
    → message_end (pre ++ xs) (length pre) ≡ Option.map (λ end. length pre + end) (message_end xs 0)
unfolding message_end
message_end_behind pre xs = ground (
  arith,
  get_or-here pre xs 0,
  get_or-behind pre xs 1 0,
  get_or-behind pre xs 2 0,
  get_or-behind pre xs 3 0,
  length-append pre xs,
)

-- The words of a body, the length of its header, and how they add up.
pub frame_facts :
    (body : List ℕ)
    → IsBody body
    → (0 < length body / 4) × (length body / 4 < 2 ^ 24) × (length body / 4 * 4 ≡ length body)
frame_facts body (whole, pos, fits) = omega arith

-- A whole message is read to its end, whatever follows.
pub message_end_whole :
    (w : ℕ) (body post : List ℕ)
    → 0 < w
    → w < 2 ^ 24
    → w * 4 ≡ length body
    → message_end (header w ++ (body ++ post)) 0 ≡ some (length (header w ++ body))
unfolding message_end header
message_end_whole w body post pos fits e = elim (Bool-cases (ltb w 0x7f)) [
  | inl short ↦ rw short (ground (arith, length-append body post))
  | inr long ↦ rw long (ground (arith, length_bytes w fits, length-append body post))
]

-- A message that is cut off is not read: with a header of one byte, and of four.
cut_short :
    (w n : ℕ) (body : List ℕ)
    → w < 127
    → w * 4 ≡ length body
    → n < 1 + length body
    → message_end (take n (w ∷ body)) 0 ≡ none
unfolding message_end
cut_short w zero body small e h = refl
cut_short w (suc n) body small e h = ground (arith, length-take n body)

cut_long :
    (w n : ℕ) (body : List ℕ)
    → w < 2 ^ 24
    → w * 4 ≡ length body
    → n < 4 + length body
    → message_end (take n (0x7f ∷ (w % 256) ∷ (w / 256 % 256) ∷ (w / 65536) ∷ body)) 0 ≡ none
unfolding message_end
cut_long w zero body fits e h = refl
cut_long w (suc zero) body fits e h = refl
cut_long w (suc (suc zero)) body fits e h = refl
cut_long w (suc (suc (suc zero))) body fits e h = refl
cut_long w (suc (suc (suc (suc n)))) body fits e h =
    ground (arith, length-take n body, length_bytes w fits)

pub message_end_cut :
    (w n : ℕ) (body : List ℕ)
    → w < 2 ^ 24
    → w * 4 ≡ length body
    → n < length (header w ++ body)
    → message_end (take n (header w ++ body)) 0 ≡ none
unfolding header
message_end_cut w n body fits e h = elim (Bool-cases (ltb w 0x7f)) [
  | inl short ↦ rw short (cut_short w n body (ltb→lt _ _ short) e (ground arith))
  | inr long ↦ rw long (cut_long w n body fits e (ground arith))
]
