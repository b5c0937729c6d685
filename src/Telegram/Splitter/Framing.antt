-- ===== src/Telegram/Splitter/Framing.antt =====
-- src/modules/telegram/splitter.rs against the abridged MTProto framing: a chunk that holds several
-- messages is cut exactly at their ends.
use telegram_socks_ws_proxy.Telegram.Splitter.Frames.{
  header, frame, IsBody, frames, frame_lengths, pieces, message_end_behind, frame_facts,
  message_end_whole, message_end_cut,
}
use telegram_socks_ws_proxy.Base.{
  ℕ, zero, suc, ◌+◌, ◌-◌, ◌/◌, ◌≤◌, ◌<◌, ◌≡◌, refl, ap, ◌∙◌, arith, ltb, if◌then◌else◌, Bool-cases,
  inl, inr, none, some, List, [], ◌∷◌, ◌++◌, length, All, drop, take, length-drop, drop-drop,
  append_assoc, length-append, lt→ltb,
}
use telegram_socks_ws_proxy.Telegram.Cipher.{Cipher, IsStreamCipher}
use telegram_socks_ws_proxy.Telegram.Splitter.{
  message_end, scan, cut, parts_of, MtProtoMessageSplitter, split,
}
use telegram_socks_ws_proxy.Telegram.Splitter.Lossless.{NonEmpty}
use mathlib.Core.Option

-- The ends of the messages, from `pos` on.
abbrev ends : ℕ → List (List ℕ) → List ℕ
ends pos [] = []
ends pos (b ∷ bs) = (pos + length (frame b)) ∷ ends (pos + length (frame b)) bs

-- The loop, as a step over `message_end`.
scan_on :
    (fuel end pos : ℕ) (plain : List ℕ)
    → pos < length plain
    → message_end plain pos ≡ some end
    → scan (suc fuel) plain pos ≡ Option.map (λ more. end ∷ more) (scan fuel plain end)
unfolding scan
scan_on fuel end pos plain lt e = rw (lt→ltb _ _ lt, e)

scan_off :
    (fuel pos : ℕ) (plain : List ℕ)
    → message_end plain pos ≡ none
    → scan (suc fuel) plain pos ≡ some []
unfolding scan
scan_off fuel pos plain e = elim (Bool-cases (ltb pos (length plain))) [
  | inl more ↦ rw (more, e)
  | inr over ↦ rw over
]

-- The loop at the front of a message.
scan_step :
    (fuel : ℕ) (pre body rest : List ℕ)
    → IsBody body
    → scan (suc fuel) (pre ++ (frame body ++ rest)) (length pre)
      ≡ Option.map
          (λ more. (length pre + length (frame body)) ∷ more)
          (scan fuel (pre ++ (frame body ++ rest)) (length pre + length (frame body)))
unfolding frame
scan_step fuel pre body rest ok =
    let (pos, fits, e) = frame_facts body ok in
    let xs = header (length body / 4) ++ body ++ rest in
    let whole = message_end_whole (length body / 4) body rest pos fits e in
    scan_on fuel (length pre + length (frame body)) (length pre) (pre ++ (frame body ++ rest))
      (omega (
        arith,
        length-append pre (frame body ++ rest),
        length-append (frame body) rest,
        length-append (header (length body / 4)) body,
      ))
      (message_end_behind pre (frame body ++ rest)
        ∙ ap (Option.map (λ end. length pre + end))
            (ap (λ l. message_end l 0) (append_assoc (header (length body / 4)) body rest) ∙ whole))

-- The loop at the front of a message that is cut off.
scan_stop :
    (fuel n : ℕ) (pre body : List ℕ)
    → IsBody body
    → n < length (frame body)
    → scan (suc fuel) (pre ++ take n (frame body)) (length pre) ≡ some []
unfolding frame
scan_stop fuel n pre body ok h =
    let (_, fits, e) = frame_facts body ok in
    scan_off fuel (length pre) (pre ++ take n (frame body)) (
      message_end_behind pre (take n (frame body))
      ∙ ap (Option.map (λ end. length pre + end))
          (message_end_cut (length body / 4) n body fits e h))

-- The loop over whole messages with one more that is cut off behind them.
scan-frames :
    (bodies : List (List ℕ)) (body : List ℕ) (n fuel : ℕ) (pre : List ℕ)
    → All IsBody bodies
    → IsBody body
    → n < length (frame body)
    → length bodies < fuel
    → scan fuel (pre ++ (frames bodies ++ take n (frame body))) (length pre)
      ≡ some (ends (length pre) bodies)
scan-frames bodies body n zero pre oks ok h enough = absurd (omega arith)
scan-frames [] body n (suc fuel) pre oks ok h enough = scan_stop fuel n pre body ok h
scan-frames (b ∷ bs) body n (suc fuel) pre (ok_b, oks) ok h enough =
    let rest = frames bs ++ take n (frame body) in
    let end = length pre + length (frame b) in
    let ih = scan-frames bs body n fuel (pre ++ frame b) oks ok h (omega arith) in
    rw (append_assoc (frame b) (frames bs) (take n (frame body))) (
      scan_step fuel pre b rest ok_b
      ∙ ap (Option.map (λ more. end ∷ more))
          (rw (append_assoc pre (frame b) rest, length-append pre (frame b)) at ih))

-- Cutting at the ends of the messages takes pieces of their lengths.
cut-ends :
    (chunk : List ℕ) (prev : ℕ) (bodies : List (List ℕ))
    → cut chunk prev (ends prev bodies) ≡ pieces (drop prev chunk) (frame_lengths bodies)
unfolding cut
cut-ends chunk prev [] = last_piece (drop prev chunk) (omega (arith, length-drop prev chunk))
  where
    last_piece :
        (xs : List ℕ)
        → length xs ≡ length chunk - prev
        → (if ltb prev (length chunk) then xs ∷ [] else []) ≡ pieces xs []
    last_piece [] e = ground arith
    last_piece (x ∷ xs) e = ground arith
cut-ends chunk prev (b ∷ bs) =
    let k = length (frame b) in
    let width : prev + k - prev ≡ k = omega arith in
    rw (cut-ends chunk (prev + k) bs, width, drop-drop k prev chunk)

ends_many : (bodies : List (List ℕ)) (pos : ℕ) → length (ends pos bodies) ≡ length bodies
ends_many [] pos = refl
ends_many (b ∷ bs) pos = ap suc (ends_many bs (pos + length (frame b)))

length-frames :
    (bodies : List (List ℕ)) → All IsBody bodies → length bodies ≤ length (frames bodies)
unfolding frame
length-frames [] oks = omega arith
length-frames (b ∷ bs) (ok, oks) = omega (
  arith,
  length-append (header (length b / 4) ++ b) (frames bs),
  length-append (header (length b / 4)) b,
  length-frames bs oks,
)

parts_of_many : (chunk bs : List ℕ) → 2 ≤ length bs → parts_of chunk bs ≡ cut chunk 0 bs
unfolding parts_of
parts_of_many chunk bs h = ground arith

split-scan :
    (c : Cipher) (s : MtProtoMessageSplitter c) (chunk bs : List ℕ)
    → NonEmpty chunk
    → (let plain = (c.apply_keystream s.cipher chunk).0 in
        scan (suc (length plain)) plain 0 ≡ some bs)
    → split c s chunk
      ≡ some (parts_of chunk bs, record { cipher = (c.apply_keystream s.cipher chunk).1 })
unfolding split
split-scan c s [] bs h e = absurd (omega arith)
split-scan c s (b ∷ rest) bs h e = rw e

module _ (c : Cipher) (laws : IsStreamCipher c) where
  -- A chunk that decrypts to at least two whole messages, perhaps with the front of one more behind
  -- them, is cut exactly at the ends of the whole messages: into pieces of the messages' lengths, and
  -- the cut-off front as a last piece if it has a byte.
  pub split-frames :
      (s : MtProtoMessageSplitter c) (bodies : List (List ℕ)) (body : List ℕ) (n : ℕ)
      → All IsBody bodies
      → 2 ≤ length bodies
      → IsBody body
      → n < length (frame body)
      → let chunk = (c.apply_keystream s.cipher (frames bodies ++ take n (frame body))).0 in
        split c s chunk
        ≡ some (
          pieces chunk (frame_lengths bodies),
          record { cipher = (c.apply_keystream s.cipher chunk).1 },
        )
  split-frames s bodies body n oks many ok h =
      let plain = frames bodies ++ take n (frame body) in
      let chunk = (c.apply_keystream s.cipher plain).0 in
      let long : 2 ≤ length plain =
        omega
          (arith, length-frames bodies oks, length-append (frames bodies) (take n (frame body))) in
      let fuel : length bodies < suc (length plain) =
        omega
          (arith, length-frames bodies oks, length-append (frames bodies) (take n (frame body))) in
      let size = laws.length-apply s.cipher plain in
      let run = scan-frames bodies body n (suc (length plain)) [] oks ok h fuel in
      let same = laws.apply-apply s.cipher plain in
      split-scan c s chunk (ends 0 bodies) (omega arith) (rw same run)
      ∙ ap (λ ps. some (ps, record { cipher = (c.apply_keystream s.cipher chunk).1 }))
          (parts_of_many chunk (ends 0 bodies) (omega (arith, ends_many bodies 0))
            ∙ cut-ends chunk 0 bodies)
