-- ===== src/Telegram/Splitter/Lossless.antt =====
-- The loops of src/modules/telegram/splitter.rs end, and cutting loses no byte.
use telegram_socks_ws_proxy.Base.{
  ℕ, zero, suc, ◌+◌, ◌-◌, ◌≤◌, ◌<◌, ◌≡◌, refl, sym, ap, ◌∙◌, arith, ltb, leb, Bool-cases,
  Option-cases, inl, inr, some, List, [], ◌∷◌, ◌++◌, length, All, drop, slice, concat, length-drop,
  ltb→lt, ltb-false→le, subst, take-append-drop, drop-drop, append-nil, append_assoc,
}
use telegram_socks_ws_proxy.Base.Slices.{drop-over, length-slice}
use telegram_socks_ws_proxy.Telegram.Cipher.{Cipher, IsStreamCipher}
use telegram_socks_ws_proxy.Telegram.Splitter.{
  message_end, scan, cut, parts_of, MtProtoMessageSplitter, split, plain_message_len, plain_parts,
  or_whole, split_plain_mtproto_messages,
}
use mathlib.Core.Option

-- Every boundary lies behind the one before it, and none behind `hi`.
abbrev pub Ascending : ℕ → ℕ → List ℕ → Type 0
Ascending lo hi [] = Unit {0}
Ascending lo hi (b ∷ bs) = (lo < b) × (b ≤ hi) × Ascending b hi bs

message_end_bounds :
    (plain : List ℕ) (pos end : ℕ)
    → message_end plain pos ≡ some end
    → (pos < end) × (end ≤ length plain)
unfolding message_end
message_end_bounds plain pos end e = ground arith

pub scan_total :
    (fuel : ℕ) (plain : List ℕ) (pos : ℕ)
    → pos ≤ length plain
    → length plain < pos + fuel
    → (bs : List ℕ) × (scan fuel plain pos ≡ some bs) × Ascending pos (length plain) bs
unfolding scan
scan_total zero plain pos le h = absurd (omega arith)
scan_total (suc fuel) plain pos le h = elim (Bool-cases (ltb pos (length plain))) [
  | inr over ↦ ([], rw over, tt)
  | inl more ↦ elim (Option-cases (message_end plain pos)) [
    | inl stop ↦ ([], rw (more, stop), tt)
    | inr (end, e) ↦
        let (lo, hi) = message_end_bounds plain pos end e in
        let (bs, run, up) = scan_total fuel plain end hi (omega arith) in
        (end ∷ bs, rw (more, e, run), (lo, hi, up))
  ]
]

slice-append-drop {ℓ} :
    {A : Type ℓ} (a b : ℕ) (xs : List A) → a ≤ b → slice a b xs ++ drop b xs ≡ drop a xs
slice-append-drop a b xs h =
    let e : a + (b - a) ≡ b = omega arith in
    ap (λ l. slice a b xs ++ l) (ap (λ n. drop n xs) (sym e) ∙ sym (drop-drop (b - a) a xs))
    ∙ take-append-drop (b - a) (drop a xs)

-- Each list has an element.
abbrev pub NonEmpty {ℓ} : {A : Type ℓ} → List A → Type 0
NonEmpty xs = 0 < length xs

concat-cut :
    (chunk : List ℕ) (prev : ℕ) (bs : List ℕ)
    → Ascending prev (length chunk) bs
    → concat (cut chunk prev bs) ≡ drop prev chunk
unfolding cut
concat-cut chunk prev [] up = elim (Bool-cases (ltb prev (length chunk))) [
  | inl more ↦ rw more (append-nil _)
  | inr over ↦ rw over (sym (drop-over prev chunk (ltb-false→le _ _ over)))
]
concat-cut chunk prev (b ∷ bs) (lo, hi, up) =
    ap (λ l. slice prev b chunk ++ l) (concat-cut chunk b bs up)
    ∙ slice-append-drop prev b chunk (omega arith)

cut-NonEmpty :
    (chunk : List ℕ) (prev : ℕ) (bs : List ℕ)
    → Ascending prev (length chunk) bs
    → All NonEmpty (cut chunk prev bs)
unfolding cut
cut-NonEmpty chunk prev [] up = elim (Bool-cases (ltb prev (length chunk))) [
  | inl more ↦ rw more (omega (arith, length-drop prev chunk, ltb→lt _ _ more), tt)
  | inr over ↦ rw over tt
]
cut-NonEmpty chunk prev (b ∷ bs) (lo, hi, up) =
    (omega (arith, length-slice prev b chunk (omega arith) hi), cut-NonEmpty chunk b bs up)

parts_of_lem :
    (chunk : List ℕ) (bs : List ℕ)
    → NonEmpty chunk
    → Ascending 0 (length chunk) bs
    → (concat (parts_of chunk bs) ≡ chunk) × All NonEmpty (parts_of chunk bs)
unfolding parts_of
parts_of_lem chunk bs some_byte up = elim (Bool-cases (leb (length bs) 1)) [
  | inl few ↦ rw few (append-nil chunk, (some_byte, tt))
  | inr many ↦ rw many (concat-cut chunk 0 bs up, cut-NonEmpty chunk 0 bs up)
]

module _ (c : Cipher) (laws : IsStreamCipher c) where
  split_run :
      (s : MtProtoMessageSplitter c) (chunk : List ℕ)
      → NonEmpty chunk
      → (bs : List ℕ) × (scan
            (suc (length (c.apply_keystream s.cipher chunk).0))
            (c.apply_keystream s.cipher chunk).0
            0
          ≡ some bs)
        × Ascending 0 (length chunk) bs
  split_run s chunk h =
      let plain = (c.apply_keystream s.cipher chunk).0 in
      let (bs, run, up) = scan_total (suc (length plain)) plain 0 (omega arith) (omega arith) in
      (bs, run, subst (λ n. Ascending 0 n bs) (laws.length-apply s.cipher chunk) up)

  -- `split` ends on every chunk. The parts that it returns, joined, are the chunk, and no part of a
  -- chunk that has a byte is empty. The cipher has moved on over the whole chunk.
  pub split-IsLossless :
      (s : MtProtoMessageSplitter c) (chunk : List ℕ)
      → NonEmpty chunk
      → (parts : List (List ℕ)) × (split c s chunk
          ≡ some (parts, record { cipher = (c.apply_keystream s.cipher chunk).1 }))
        × (concat parts ≡ chunk)
        × All NonEmpty parts
  unfolding split
  split-IsLossless s [] h = absurd (omega arith)
  split-IsLossless s (b ∷ rest) h =
      let (bs, run, up) = split_run s (b ∷ rest) h in
      let (joined, full) = parts_of_lem (b ∷ rest) bs h up in
      (parts_of (b ∷ rest) bs, rw run, joined, full)

-- The plaintext variant ends.
plain_message_bounds : (chunk : List ℕ) (pos n : ℕ) → plain_message_len chunk pos ≡ some n → 0 < n
unfolding plain_message_len
plain_message_bounds chunk pos n e = ground arith

plain_parts_total :
    (fuel : ℕ) (chunk : List ℕ) (pos : ℕ)
    → pos ≤ length chunk
    → length chunk < pos + fuel
    → (ps : List (List ℕ)) × (plain_parts fuel chunk pos ≡ some ps)
      × (lost : List ℕ) × (concat ps ++ lost ≡ drop pos chunk)
unfolding plain_parts
plain_parts_total zero chunk pos le h = absurd (omega arith)
plain_parts_total (suc fuel) chunk pos le h = elim (Bool-cases (ltb pos (length chunk))) [
  | inr over ↦ ([], rw over, drop pos chunk, refl)
  | inl more ↦ elim (Option-cases (plain_message_len chunk pos)) [
    | inl stop ↦ ([], rw (more, stop), drop pos chunk, refl)
    | inr (n, e) ↦ elim (Bool-cases (ltb (length chunk) (pos + n))) [
      | inl long ↦ ([], rw (more, e, long), drop pos chunk, refl)
      | inr fits ↦
          let pos_n = plain_message_bounds chunk pos n e in
          let hi = ltb-false→le _ _ fits in
          let (ps, run, lost, joined) = plain_parts_total fuel chunk (pos + n) hi (omega arith) in
          (
            slice pos (pos + n) chunk ∷ ps,
            rw (more, e, fits, run),
            lost,
            append_assoc (slice pos (pos + n) chunk) (concat ps) lost
                ∙ ap (λ l. slice pos (pos + n) chunk ++ l) joined
                ∙ slice-append-drop pos (pos + n) chunk (omega arith),
          )
    ]
  ]
]

-- The plaintext variant ends on every chunk, and its parts, joined, are a front of the chunk:
-- what follows them is lost.
pub split_plain_total :
    (chunk : List ℕ)
    → (ps : List (List ℕ)) × (split_plain_mtproto_messages chunk ≡ some ps)
      × (lost : List ℕ) × (concat ps ++ lost ≡ chunk)
unfolding split_plain_mtproto_messages
split_plain_total chunk =
    let (ps, run, lost, joined) =
      plain_parts_total (suc (length chunk)) chunk 0 (omega arith) (omega arith) in
    whole ps run lost joined
  where
    whole :
        (ps : List (List ℕ))
        → plain_parts (suc (length chunk)) chunk 0 ≡ some ps
        → (lost : List ℕ) → concat ps ++ lost ≡ chunk
        → (qs : List (List ℕ)) × (Option.map
              (or_whole chunk)
              (plain_parts (suc (length chunk)) chunk 0)
            ≡ some qs)
          × (lost : List ℕ) × (concat qs ++ lost ≡ chunk)
    whole [] run lost joined =
        (chunk ∷ [], rw run, [], ap (λ l. l ++ []) (append-nil chunk) ∙ append-nil chunk)
    whole (p ∷ ps) run lost joined = (p ∷ ps, rw run, lost, joined)

-- It does lose bytes: behind a complete one-word message, a zero length byte drops all that
-- follows.
pub split_plain_drops :
    (a b c d : ℕ) (rest : List ℕ)
    → split_plain_mtproto_messages (1 ∷ a ∷ b ∷ c ∷ d ∷ 0 ∷ rest)
      ≡ some ((1 ∷ a ∷ b ∷ c ∷ d ∷ []) ∷ [])
unfolding split_plain_mtproto_messages
split_plain_drops a b c d rest = ground arith
