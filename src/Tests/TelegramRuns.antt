-- ===== src/Tests/TelegramRuns.antt =====
-- The unit tests of src/modules/telegram/init.rs and splitter.rs over a toy cipher, and their theorems
-- at concrete inputs.
use telegram_socks_ws_proxy.Base.{
  ℕ, ◌+◌, ◌*◌, ◌≡◌, refl, arith, true, false, some, none, List, [], ◌∷◌, ◌++◌, replicate, get_or,
  take, drop, bit_xor, ◌≤◌, All, concat,
}
use telegram_socks_ws_proxy.Telegram.Splitter.{MtProtoMessageSplitter, split}
use telegram_socks_ws_proxy.Telegram.Splitter.Lossless.{NonEmpty, split-IsLossless}
use telegram_socks_ws_proxy.Telegram.Splitter.Frames.{frame, frames, frame_lengths, pieces}
use telegram_socks_ws_proxy.Telegram.Splitter.Framing.{split-frames}
use telegram_socks_ws_proxy.Telegram.Init.{
  extract_dc, patch_init_dc, is_known_proto, decrypt_header,
}
use telegram_socks_ws_proxy.Telegram.Init.Patch.{
  proto_of, signed_dc, extract_dc-signed_dc, extract_dc_range,
}
use telegram_socks_ws_proxy.Tests.Toy.{toy, toy_laws, toy_apply}

abbrev splitter : MtProtoMessageSplitter toy
splitter = record { cipher = 7 }

abbrev two_messages : List ℕ
two_messages = 1 ∷ 1 ∷ 2 ∷ 3 ∷ 4 ∷ 1 ∷ 5 ∷ 6 ∷ 7 ∷ 8 ∷ []

stateful_splitter_splits_two_messages :
    split toy splitter (toy_apply 7 two_messages).0
    ≡ some (
      take 5 (toy_apply 7 two_messages).0 ∷ drop 5 (toy_apply 7 two_messages).0 ∷ [],
      record { cipher = (toy_apply 7 two_messages).1 },
    )
unfolding split
stateful_splitter_splits_two_messages = refl

split-IsLossless_example :
    (parts : List (List ℕ)) × (split toy splitter two_messages
      ≡ some (parts, record { cipher = (toy.apply_keystream 7 two_messages).1 }))
    × (concat parts ≡ two_messages)
    × All NonEmpty parts
split-IsLossless_example = split-IsLossless toy toy_laws splitter two_messages (omega arith)

abbrev bodies : List (List ℕ)
bodies = (1 ∷ 2 ∷ 3 ∷ 4 ∷ []) ∷ (5 ∷ 6 ∷ 7 ∷ 8 ∷ 9 ∷ 10 ∷ 11 ∷ 12 ∷ []) ∷ []

abbrev third : List ℕ
third = 9 ∷ 9 ∷ 9 ∷ 9 ∷ []

split-frames_example :
    split toy splitter (toy.apply_keystream 7 (frames bodies ++ take 3 (frame third))).0
    ≡ some (
      pieces
          (toy.apply_keystream 7 (frames bodies ++ take 3 (frame third))).0
          (frame_lengths bodies),
      record {
        cipher =
            (toy.apply_keystream 7
              (toy.apply_keystream 7 (frames bodies ++ take 3 (frame third))).0).1;
      },
    )
split-frames_example =
    split-frames toy toy_laws splitter bodies third 3 (omega arith) (omega arith) (omega arith)
      (unfold frame in omega arith)

-- A packet whose header decrypts to the tag 0xEFEFEFEF and a zero.
abbrev pub packet : List ℕ
packet = toy_front ++ (toy_tail (toy_apply (7 + 256 * 9) (replicate 64 0)).0)
  where
    toy_front : List ℕ
    toy_front = replicate 8 0 ++ (replicate 32 7 ++ replicate 16 9)

    toy_tail : List ℕ → List ℕ
    toy_tail stream =
        bit_xor (get_or stream 56 0) 0xEF
        ∷ bit_xor (get_or stream 57 0) 0xEF
        ∷ bit_xor (get_or stream 58 0) 0xEF
        ∷ bit_xor (get_or stream 59 0) 0xEF
        ∷ get_or stream 60 0
        ∷ get_or stream 61 0
        ∷ get_or stream 62 0
        ∷ get_or stream 63 0
        ∷ []

pub tagged : is_known_proto (proto_of toy packet) ≡ true
unfolding decrypt_header
tagged = refl

extract_dc-signed_dc_example :
    extract_dc toy (patch_init_dc toy packet (signed_dc 5 true))
    ≡ record { dc = some 5; is_media = true }
extract_dc-signed_dc_example =
    extract_dc-signed_dc toy toy_laws packet 5 true (omega arith) tagged (omega arith) (omega arith)

extract_dc_range_example :
    ((dc : ℕ) → (extract_dc toy packet).dc ≡ some dc → (1 ≤ dc) × (dc ≤ 5))
    × ((extract_dc toy packet).dc ≡ none → (extract_dc toy packet).is_media ≡ false)
extract_dc_range_example = extract_dc_range toy packet
