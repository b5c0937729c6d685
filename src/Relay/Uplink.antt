-- ===== src/Relay/Uplink.antt =====
-- The task of src/modules/relay.rs from the client to the WebSocket: a round of it, and where the client's bytes are.
use telegram_socks_ws_proxy.Base.{
  ℕ, zero, suc, ◌<◌, min, ◌≡◌, refl, sym, ap, ◌∙◌, subst, arith, Option, none, some, List, [], ◌∷◌,
  ◌++◌, append-nil, append_assoc, length, length-append, concat, All, ◌≤◌,
}
use telegram_socks_ws_proxy.Base.Stream.{
  Stream, IoError, Outcome, ok, err, pending, panicked, read, shutdown,
}
use telegram_socks_ws_proxy.Base.Stream.Reads.{Reads, read-Reads}
use telegram_socks_ws_proxy.Telegram.Cipher.{Cipher, IsStreamCipher}
use telegram_socks_ws_proxy.Telegram.Splitter.{MtProtoMessageSplitter, split}
use telegram_socks_ws_proxy.Telegram.Splitter.Lossless.{split-IsLossless}
use telegram_socks_ws_proxy.Ws.Types.{WsError}
use telegram_socks_ws_proxy.Ws.Client.{close}
use telegram_socks_ws_proxy.Relay.{
  Bridge, Up, reading, up_done, up_failed, same_error, send_parts, split_chunk, add_u64, after_send,
  after_split, after_close, after_read, up_round,
}
use telegram_socks_ws_proxy.Relay.Messages.{
  Message, bytes_of, pongs_of, Writes, Writes-none, SendsParts, send_parts-SendsParts,
}

-- `lost` went down with a failed write; only a task that has failed loses any, and one that is done has read all.
abbrev pub UpKept : (c : Cipher) → List ℕ → List ℕ → Up c → Type 0
UpKept c lost incoming (reading splitter bytes packets) = lost ≡ []
UpKept c lost incoming (up_done stats) = (lost ≡ []) × (incoming ≡ [])
UpKept c lost incoming (up_failed e) = Unit

-- `all` is what the client has to bring up: it was sent, is lost, or is still to be read, in this order.
abbrev pub UpSide : (c : Cipher) → List ℕ → List ℕ → List ℕ → Up c → Type 0
UpSide c all sent incoming up =
    (lost : List ℕ) × (sent ++ (lost ++ incoming) ≡ all) × UpKept c lost incoming up

-- What a round of this task does: it writes messages that are no pongs, and leaves the other half of both connections.
abbrev pub UpStep : (c : Cipher) → List ℕ → List ℕ → Bridge c → Bridge c → Type 0
UpStep c all sent b b' =
    (ms : List Message) × Writes b.ws ms b'.ws
    × (pongs_of ms ≡ [])
    × (b'.client.sent ≡ b.client.sent)
    × (b'.down ≡ b.down)
    × UpSide c all (sent ++ bytes_of ms) b'.client.incoming b'.up

length-parts :
    (parts : List (List ℕ)) → All (λ p. 0 < length p) parts → length parts ≤ length (concat parts)
length-parts [] full = omega arith
length-parts (p ∷ parts) (h, full) =
    omega (arith, h, length-append p (concat parts), length-parts parts full)

module _ (c : Cipher) (laws : IsStreamCipher c) (all sent : List ℕ) where
  UpStep-same : (b : Bridge c) → UpSide c all sent b.client.incoming b.up → UpStep c all sent b b
  UpStep-same b (lost, e, k) =
      ([], Writes-none b.ws, refl, refl, refl, (lost, rw (append-nil sent) e, k))

  -- `b` has read `chunk` and not sent it.
  after_send-UpStep :
      (b : Bridge c) (chunk : List ℕ) (parts : List (List ℕ))
      (splitter : Option (MtProtoMessageSplitter c)) (bytes packets : ℕ)
      → sent ++ (chunk ++ b.client.incoming) ≡ all
      → concat parts ≡ chunk
      → (r : Outcome WsError (Unit {0}) × Stream) → SendsParts b.ws parts r
      → UpStep c all sent b (after_send c b splitter bytes packets r)
  unfolding after_send
  after_send-UpStep b chunk parts splitter bytes packets e whole (ok u, ws) (ms, w, same, none_of) =
      (
        ms,
        w,
        none_of,
        refl,
        refl,
        ([], append_assoc sent (bytes_of ms) b.client.incoming ∙ rw (same, whole) e, refl),
      )
  after_send-UpStep b chunk parts splitter bytes packets e whole (err x, ws)
        (ms, lost, w, same, none_of) =
      (
        ms,
        w,
        none_of,
        refl,
        refl,
        (
          lost,
          append_assoc sent (bytes_of ms) (lost ++ b.client.incoming)
              ∙ ap (λ l. sent ++ l)
                  (sym (append_assoc (bytes_of ms) lost b.client.incoming)
                    ∙ ap (λ l. l ++ b.client.incoming) (same ∙ whole))
              ∙ e,
          tt,
        ),
      )
  after_send-UpStep b chunk parts splitter bytes packets e whole (pending, ws) h = absurd h
  after_send-UpStep b chunk parts splitter bytes packets e whole (panicked, ws) h = absurd h

  -- With a splitter or without one, the parts of a chunk are the chunk.
  pub split_chunk-concat :
      (splitter : Option (MtProtoMessageSplitter c)) (chunk : List ℕ)
      → 0 < length chunk
      → (parts : List (List ℕ)) × (splitter' : Option (MtProtoMessageSplitter c)) × (split_chunk c
            splitter chunk
          ≡ some (parts, splitter'))
        × (concat parts ≡ chunk)
        × (length parts ≤ length chunk)
  unfolding split_chunk
  split_chunk-concat none chunk h = (chunk ∷ [], none, refl, append-nil chunk, omega (arith, h))
  split_chunk-concat (some s) chunk h =
      let (parts, e, joined, full) = split-IsLossless c laws s chunk h in
      (
        parts,
        some (record { cipher = (c.apply_keystream s.cipher chunk).1 }),
        rw e,
        joined,
        omega (arith, length-parts parts full, ap length joined),
      )

  -- What holds from the state behind the read holds from the state before it.
  from_read :
      (b b' : Bridge c) (s : Stream)
      → s.sent ≡ b.client.sent
      → UpStep c all sent (record b { client = s }) b'
      → UpStep c all sent b b'
  from_read b b' s same (ms, w, p, kept, d, u) = (ms, w, p, kept ∙ same, d, u)

  after_close-UpStep :
      (w : ℕ) (b : Bridge c) (bytes packets : ℕ)
      → sent ++ b.client.incoming ≡ all
      → b.client.incoming ≡ []
      → UpStep c all sent b (after_close c b bytes packets (close (record b.ws { writes = w })))
  unfolding after_close close shutdown
  after_close-UpStep zero b bytes packets e i =
      ([], Writes-none b.ws, refl, refl, refl, ([], rw (append-nil sent) e, tt))
  after_close-UpStep (suc k) b bytes packets e i =
      ([], Writes-none b.ws, refl, refl, refl, ([], rw (append-nil sent) e, (refl, i)))

  after_read-UpStep :
      (b : Bridge c) (splitter : Option (MtProtoMessageSplitter c)) (bytes packets : ℕ)
      → b.up ≡ reading splitter bytes packets
      → sent ++ b.client.incoming ≡ all
      → (r : Outcome IoError (List ℕ) × Stream) → Reads b.client r
      → UpStep c all sent b (after_read c b splitter bytes packets r)
  unfolding after_read after_split
  after_read-UpStep b splitter bytes packets u e (ok [], s) (same, i, closing) =
      let client = ap (λ (t : Stream). t.incoming) same in
      from_read b (after_close c (record b { client = s }) bytes packets (close b.ws)) s
        (ap (λ (t : Stream). t.sent) same)
        (after_close-UpStep b.ws.writes (record b { client = s }) bytes packets
          (ap (λ l. sent ++ l) client ∙ e) (client ∙ i))
  after_read-UpStep b splitter bytes packets u e (ok (x ∷ xs), s) (front, same) =
      let (parts, splitter', split, joined, few) =
        split_chunk-concat splitter (x ∷ xs) (omega arith) in
      let b' =
        after_split c (record b { client = s }) (add_u64 bytes (length (x ∷ xs)))
          (add_u64 packets 1) (split_chunk c splitter (x ∷ xs)) in
      from_read b b' s (ap (λ (t : Stream). t.sent) same) (
        rw split (
          after_send-UpStep (record b { client = s }) (x ∷ xs) parts splitter'
            (add_u64 bytes (length (x ∷ xs))) (add_u64 packets 1)
            (ap (λ l. sent ++ l) (sym front) ∙ e) joined (send_parts parts b.ws)
            (send_parts-SendsParts parts b.ws)))
  after_read-UpStep b splitter bytes packets u e (err x, s) same =
      let client = ap (λ (t : Stream). t.incoming) same in
      (
        [],
        Writes-none b.ws,
        refl,
        ap (λ (t : Stream). t.sent) same,
        refl,
        ([], rw (append-nil sent) (ap (λ l. sent ++ l) client ∙ e), tt),
      )
  after_read-UpStep b splitter bytes packets u e (pending, s) same =
      UpStep-same b ([], e, still (sym u))
    where
      still : {up : Up c} → reading splitter bytes packets ≡ up → UpKept c [] b.client.incoming up
      still h = subst (UpKept c [] b.client.incoming) h refl
  after_read-UpStep b splitter bytes packets u e (panicked, s) h = absurd h

  -- A round of the task, wherever it stands.
  pub up_round-UpStep :
      (n : ℕ) (b : Bridge c) (up : Up c)
      → b.up ≡ up
      → UpSide c all sent b.client.incoming up
      → UpStep c all sent b (up_round c n b up)
  unfolding up_round
  up_round-UpStep n b (reading splitter bytes packets) u (lost, e, none_lost) =
      after_read-UpStep b splitter bytes packets u
        (ap (λ l. sent ++ (l ++ b.client.incoming)) (sym none_lost) ∙ e)
        (read same_error (min (suc n) 32768) b.client)
        (read-Reads same_error (min (suc n) 32768) b.client (omega arith))
  up_round-UpStep n b (up_done stats) u h =
      UpStep-same b (subst (UpSide c all sent b.client.incoming) (sym u) h)
  up_round-UpStep n b (up_failed x) u h =
      UpStep-same b (subst (UpSide c all sent b.client.incoming) (sym u) h)
